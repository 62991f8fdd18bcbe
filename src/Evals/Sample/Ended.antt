-- ===== src/Evals/Sample/Ended.antt =====
-- The rounds end: with the members that are left as fuel, they stop because the budget is spent or
-- every group is empty.
use sentinel_brief.Prelude.{
  arith, ℕ, zero, suc, ◌≤◌, ◌≡◌, ◌⊎◌, refl, inl, inr, true, false, ◌||◌, ◌==◌, Option, none, some,
  List, [], ◌∷◌, length, Bool-cases,
}
use sentinel_brief.Evals.Sample.{
  Candidate, Filling, pop, pop_after, popped, visit, round, left_over, fill_rounds,
}

-- A pop shortens its list by one.
abbrev Shorter : ℕ → Option (List Candidate × Candidate) → Type 0
Shorter n none = n ≡ 0
Shorter n (some (rest, last)) = n ≡ suc (length rest)

pop_after-Shorter :
    (x : Candidate) (n : ℕ) (o : Option (List Candidate × Candidate))
    → Shorter n o
    → Shorter (suc n) (some (pop_after x o))
pop_after-Shorter x n none h = omega (arith, h)
pop_after-Shorter x n (some (rest, last)) h = omega (arith, h)

pop-Shorter : (xs : List Candidate) → Shorter (length xs) (pop xs)
unfolding pop
pop-Shorter [] = refl
pop-Shorter (x ∷ xs) = pop_after-Shorter x (length xs) (pop xs) (pop-Shorter xs)

-- A visit takes one member, or takes nothing and leaves the budget, which was empty unless the
-- group was.
abbrev Visited : List Candidate → Filling → List Candidate × Filling → Type 0
Visited xs f v =
    (length xs ≡ suc (length v.0))
    ⊎ (((f.budget ≡ 0) ⊎ (length xs ≡ 0)) × ((length v.0 ≡ length xs) × (v.1.budget ≡ f.budget)))

popped-Visited :
    (xs : List Candidate) (f : Filling) (o : Option (List Candidate × Candidate))
    → Shorter (length xs) o
    → Visited xs f (popped xs f o)
popped-Visited xs f none h = inr (inr h, (refl, refl))
popped-Visited xs f (some (rest, last)) h = inl h

visit-Visited : (xs : List Candidate) (f : Filling) → Visited xs f (visit xs f)
unfolding visit
visit-Visited xs f = elim (Bool-cases (f.budget == 0)) [
  | inl e ↦ let z : f.budget ≡ 0 = ground arith in rw e (inr (inl z, (refl, refl)))
  | inr e ↦ rw e (popped-Visited xs f (pop xs) (pop-Shorter xs))
]

-- What a round leaves.
round-≤ : (gs : List (List Candidate)) (f : Filling) → left_over (round gs f).0 ≤ left_over gs
unfolding round left_over
round-≤ [] f = omega arith
round-≤ (g ∷ gs) f =
    let rest = round-≤ gs (visit g f).1 in
    elim (visit-Visited g f) [ inl h ↦ omega (arith, h, rest) | inr h ↦ omega (arith, h.1.0, rest) ]

round-< :
    (gs : List (List Candidate)) (f : Filling)
    → 1 ≤ f.budget
    → 1 ≤ left_over gs
    → suc (left_over (round gs f).0) ≤ left_over gs
unfolding round left_over
round-< [] f b h = absurd (omega (arith, h))
round-< (g ∷ gs) f b h = elim (visit-Visited g f) [
  | inl v ↦ omega (arith, v, round-≤ gs (visit g f).1)
  | inr v ↦ elim v.0 [
    | inl z ↦ absurd (omega (arith, z, b))
    | inr z ↦
        let rest = round-< gs (visit g f).1 (omega (arith, v.1.1, b)) (omega (arith, z, h)) in
        omega (arith, v.1.0, rest)
  ]
]

-- The budget is spent or the groups are empty.
abbrev pub Ended : List (List Candidate) × Filling → Type 0
Ended s = (s.1.budget ≡ 0) ⊎ (left_over s.0 ≡ 0)

stop_cases :
    (b l : ℕ)
    → ((b == 0 || l == 0) ≡ true) × ((b ≡ 0) ⊎ (l ≡ 0))
      ⊎ ((b == 0 || l == 0) ≡ false) × ((1 ≤ b) × (1 ≤ l))
stop_cases zero l = inl (refl, inl refl)
stop_cases (suc b) zero = inl (ground arith, inr refl)
stop_cases (suc b) (suc l) = inr (ground arith, (omega arith, omega arith))

pub fill_rounds-Ended :
    (fuel : ℕ) (gs : List (List Candidate)) (f : Filling)
    → left_over gs ≤ fuel
    → Ended (fill_rounds fuel gs f)
unfolding fill_rounds
fill_rounds-Ended zero gs f h = inr (omega (arith, h))
fill_rounds-Ended (suc fuel) gs f h = elim (stop_cases f.budget (left_over gs)) [
  | inl e ↦ rw e.0 e.1
  | inr e ↦ rw e.0 (
      fill_rounds-Ended fuel (round gs f).0 (round gs f).1
        (omega (arith, round-< gs f e.1.0 e.1.1, h)))
]
