-- ===== src/Evals/Sample/Counted.antt =====
-- How often an id stands among the candidates, while the sample is filled.
use sentinel_brief.Prelude.{
  arith, ℕ, zero, suc, ◌+◌, ◌≤◌, ◌≡◌, refl, ◌∙◌, inl, inr, String, Bool, true, false, ◌||◌, ◌==◌,
  ◌==ₛ◌, eq_iff, Option, none, some, List, [], ◌∷◌, ◌++◌, length, Bool-cases,
}
use sentinel_brief.Evals.Sample.{
  Candidate, Rng, Group, add_to_group, in_group, key_before, group_all, Filling, pop, pop_after,
  popped, put, visit, round, left_over, fill_rounds, shuffle_groups,
}
use sentinel_brief.Evals.Sample.Clamped.{RngLaws, one, count_id}

pub one-true : (x : String) (c : Candidate) → (c.case_id ==ₛ x) ≡ true → one x c ≡ 1
unfolding one
one-true x c e = rw e refl

pub one-false : (x : String) (c : Candidate) → (c.case_id ==ₛ x) ≡ false → one x c ≡ 0
unfolding one
one-false x c e = rw e refl

count_id-append :
    (x : String) (xs : List Candidate) (c : Candidate)
    → count_id x (xs ++ (c ∷ [])) ≡ one x c + count_id x xs
count_id-append x [] c = refl
count_id-append x (y ∷ ys) c = omega (arith, count_id-append x ys c)

-- Over groups, and over their members alone.
abbrev pub count_groups : String → List Group → ℕ
count_groups x [] = 0
count_groups x (g ∷ gs) = count_id x g.members + count_groups x gs

abbrev pub count_lists : String → List (List Candidate) → ℕ
count_lists x [] = 0
count_lists x (g ∷ gs) = count_id x g + count_lists x gs

count_groups-add_to_group :
    (str_lt : String → String → Bool) (x : String) (c : Candidate) (gs : List Group)
    → count_groups x (add_to_group str_lt c gs) ≡ one x c + count_groups x gs
unfolding add_to_group
count_groups-add_to_group str_lt x c [] = omega arith
count_groups-add_to_group str_lt x c (g ∷ gs) = elim (Bool-cases (in_group c g)) [
  | inl e ↦ rw e (omega (arith, count_id-append x g.members c))
  | inr e ↦ rw e (elim (Bool-cases (key_before str_lt c g)) [
    | inl b ↦ rw b (omega arith)
    | inr b ↦ rw b (omega (arith, count_groups-add_to_group str_lt x c gs))
  ])
]

pub count_groups-group_all :
    (str_lt : String → String → Bool) (x : String) (cs : List Candidate) (gs : List Group)
    → count_groups x (group_all str_lt cs gs) ≡ count_id x cs + count_groups x gs
unfolding group_all
count_groups-group_all str_lt x [] gs = omega arith
count_groups-group_all str_lt x (c ∷ cs) gs = omega (
  arith,
  count_groups-group_all str_lt x cs (add_to_group str_lt c gs),
  count_groups-add_to_group str_lt x c gs,
)

pub count_lists-shuffle_groups :
    {R : Type 0} (rng : Rng R) (laws : RngLaws rng) (str_lt : String → String → Bool) (x : String)
    (gs : List Group) (r : R)
    → count_lists x (shuffle_groups rng str_lt gs r) ≡ count_groups x gs
unfolding shuffle_groups
count_lists-shuffle_groups rng laws str_lt x [] r = refl
count_lists-shuffle_groups rng laws str_lt x (g ∷ gs) r = omega (
  arith,
  laws.count_id-shuffle x g.members r,
  count_lists-shuffle_groups rng laws str_lt x gs (rng.shuffle g.members r).1,
)

-- A pop takes one member.
abbrev Popped : String → ℕ → Option (List Candidate × Candidate) → Type 0
Popped x n none = n ≡ 0
Popped x n (some (rest, last)) = n ≡ count_id x rest + one x last

pop_after-Popped :
    (x : String) (c : Candidate) (n : ℕ) (o : Option (List Candidate × Candidate))
    → Popped x n o
    → Popped x (one x c + n) (some (pop_after c o))
pop_after-Popped x c n none h = omega (arith, h)
pop_after-Popped x c n (some (rest, last)) h = omega (arith, h)

pop-Popped : (x : String) (xs : List Candidate) → Popped x (count_id x xs) (pop xs)
unfolding pop
pop-Popped x [] = refl
pop-Popped x (c ∷ cs) = pop_after-Popped x c (count_id x cs) (pop cs) (pop-Popped x cs)

-- A candidate whose id is not there is put at the end.
put-New :
    (c : Candidate) (xs : List Candidate)
    → count_id c.case_id xs ≡ 0
    → (length (put c xs) ≡ suc (length xs))
      × ((x : String) → count_id x (put c xs) ≡ count_id x xs + one x c)
unfolding put
put-New c [] h = (refl, λ x. omega arith)
put-New c (y ∷ ys) h = elim (Bool-cases (y.case_id ==ₛ c.case_id)) [
  | inl e ↦ absurd (omega (arith, h, one-true c.case_id y e))
  | inr e ↦
      let rest = put-New c ys (omega (arith, h)) in
      rw e (omega (arith, rest.0), λ x. omega (arith, rest.1 x))
]

pub one_self : (c : Candidate) → one c.case_id c ≡ 1
one_self c = one-true c.case_id c ((eq_iff c.case_id c.case_id).1 refl)

-- What was moved from the groups into the choice: no id is lost or repeated, and each candidate
-- takes one of the budget.
pub record Moves (before : String → ℕ) (f : Filling) (after : String → ℕ) (f' : Filling)
    : Type 0 where
  pub total : (x : String) → count_id x f'.selected + after x ≡ count_id x f.selected + before x
  pub size : length f'.selected + f'.budget ≡ length f.selected + f.budget

-- No id stands twice.
abbrev pub Apart : (String → ℕ) → Filling → Type 0
Apart before f = (x : String) → count_id x f.selected + before x ≤ 1

popped-Moves :
    (xs : List Candidate) (f : Filling) (o : Option (List Candidate × Candidate))
    → ((x : String) → Popped x (count_id x xs) o)
    → 1 ≤ f.budget
    → Apart (λ x. count_id x xs) f
    → Moves (λ x. count_id x xs) f (λ x. count_id x (popped xs f o).0) (popped xs f o).1
popped-Moves xs f none h b apart = record { total = λ x. refl; size = refl }
popped-Moves xs f (some (rest, last)) h b apart =
    let fresh : count_id last.case_id f.selected ≡ 0 =
      omega (arith, apart last.case_id, h last.case_id, one_self last) in
    let new = put-New last f.selected fresh in
    record { total = λ x. omega (arith, new.1 x, h x); size = omega (arith, new.0, b) }

visit-Moves :
    (xs : List Candidate) (f : Filling)
    → Apart (λ x. count_id x xs) f
    → Moves (λ x. count_id x xs) f (λ x. count_id x (visit xs f).0) (visit xs f).1
unfolding visit
visit-Moves xs f apart = elim (Bool-cases (f.budget == 0)) [
  | inl e ↦ rw e (record { total = λ x. refl; size = refl })
  | inr e ↦
      let b : 1 ≤ f.budget = ground arith in
      rw e (popped-Moves xs f (pop xs) (λ x. pop-Popped x xs) b apart)
]

round-Moves :
    (gs : List (List Candidate)) (f : Filling)
    → Apart (λ x. count_lists x gs) f
    → Moves (λ x. count_lists x gs) f (λ x. count_lists x (round gs f).0) (round gs f).1
unfolding round
round-Moves [] f apart = record { total = λ x. refl; size = refl }
round-Moves (g ∷ gs) f apart =
    let here = visit-Moves g f (λ x. omega (arith, apart x)) in
    let rest = round-Moves gs (visit g f).1 (λ x. omega (arith, apart x, here.total x)) in
    record { total = λ x. omega (arith, here.total x, rest.total x); size = rest.size ∙ here.size }

pub fill_rounds-Moves :
    (fuel : ℕ) (gs : List (List Candidate)) (f : Filling)
    → Apart (λ x. count_lists x gs) f
    → Moves
        (λ x. count_lists x gs)
        f
        (λ x. count_lists x (fill_rounds fuel gs f).0)
        (fill_rounds fuel gs f).1
unfolding fill_rounds
fill_rounds-Moves zero gs f apart = record { total = λ x. refl; size = refl }
fill_rounds-Moves (suc fuel) gs f apart = elim (Bool-cases (f.budget == 0 || left_over gs == 0)) [
  | inl e ↦ rw e (record { total = λ x. refl; size = refl })
  | inr e ↦
      let here = round-Moves gs f apart in
      let rest =
        fill_rounds-Moves fuel (round gs f).0 (round gs f).1
          (λ x. omega (arith, apart x, here.total x)) in
      rw e (record { total = λ x. rest.total x ∙ here.total x; size = rest.size ∙ here.size })
]

pub count_lists-empty :
    (x : String) (gs : List (List Candidate)) → left_over gs ≡ 0 → count_lists x gs ≡ 0
unfolding left_over
count_lists-empty x [] h = refl
count_lists-empty x ([] ∷ gs) h = omega (arith, count_lists-empty x gs (omega (arith, h)))
count_lists-empty x ((c ∷ cs) ∷ gs) h = absurd (omega (arith, h))
