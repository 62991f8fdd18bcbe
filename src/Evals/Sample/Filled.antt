-- ===== src/Evals/Sample/Filled.antt =====
-- The groups of the remainder, and the rounds that fill the sample from them.
use sentinel_brief.Prelude.{
  arith, ℕ, zero, suc, ◌+◌, ◌≤◌, ◌≡◌, inl, inr, String, Bool, true, false, ◌||◌, ◌==◌, Option, none,
  some, List, [], ◌∷◌, ◌++◌, length, All, Bool-cases,
}
use sentinel_brief.Evals.Sample.{
  Candidate, Rng, Group, add_to_group, in_group, key_before, group_all, Filling, pop, pop_after,
  popped, visit, round, left_over, fill_rounds, shuffle_groups,
}
use sentinel_brief.Evals.Sample.Clamped.{RngLaws, Pass, Chosen, put-Chosen, length-put}

append-Pass :
    (p : Candidate → Bool) (xs : List Candidate) (c : Candidate)
    → Pass p xs
    → p c ≡ true
    → Pass p (xs ++ (c ∷ []))
append-Pass p [] c h k = (k, tt)
append-Pass p (x ∷ xs) c h k = (h.0, append-Pass p xs c h.1 k)

abbrev pub GroupsPass : (Candidate → Bool) → List Group → Type 0
GroupsPass p = All (λ g. Pass p g.members)

add_to_group-Pass :
    (p : Candidate → Bool) (str_lt : String → String → Bool) (c : Candidate) (gs : List Group)
    → p c ≡ true
    → GroupsPass p gs
    → GroupsPass p (add_to_group str_lt c gs)
unfolding add_to_group
add_to_group-Pass p str_lt c [] h k = ((h, tt), tt)
add_to_group-Pass p str_lt c (g ∷ gs) h k = elim (Bool-cases (in_group c g)) [
  | inl e ↦ rw e (append-Pass p g.members c k.0 h, k.1)
  | inr e ↦ rw e (elim (Bool-cases (key_before str_lt c g)) [
    | inl b ↦ rw b ((h, tt), k)
    | inr b ↦ rw b (k.0, add_to_group-Pass p str_lt c gs h k.1)
  ])
]

pub group_all-Pass :
    (p : Candidate → Bool) (str_lt : String → String → Bool) (cs : List Candidate) (gs : List Group)
    → Pass p cs
    → GroupsPass p gs
    → GroupsPass p (group_all str_lt cs gs)
unfolding group_all
group_all-Pass p str_lt [] gs h k = k
group_all-Pass p str_lt (c ∷ cs) gs h k =
    group_all-Pass p str_lt cs (add_to_group str_lt c gs) h.1
      (add_to_group-Pass p str_lt c gs h.0 k)

pub shuffle_groups-Pass :
    {R : Type 0} (rng : Rng R) (laws : RngLaws rng) (str_lt : String → String → Bool)
    (p : Candidate → Bool) (gs : List Group) (r : R)
    → GroupsPass p gs
    → All (Pass p) (shuffle_groups rng str_lt gs r)
unfolding shuffle_groups
shuffle_groups-Pass rng laws str_lt p [] r h = tt
shuffle_groups-Pass rng laws str_lt p (g ∷ gs) r h = (
  laws.shuffle-All p g.members r h.0,
  shuffle_groups-Pass rng laws str_lt p gs (rng.shuffle g.members r).1 h.1,
)

abbrev PopPass : (Candidate → Bool) → Option (List Candidate × Candidate) → Type 0
PopPass p none = Unit
PopPass p (some (rest, last)) = Pass p rest × (p last ≡ true)

pop_after-Pass :
    (p : Candidate → Bool) (x : Candidate) (o : Option (List Candidate × Candidate))
    → p x ≡ true
    → PopPass p o
    → PopPass p (some (pop_after x o))
pop_after-Pass p x none h k = (tt, h)
pop_after-Pass p x (some (rest, last)) h k = ((h, k.0), k.1)

pop-Pass : (p : Candidate → Bool) (xs : List Candidate) → Pass p xs → PopPass p (pop xs)
unfolding pop
pop-Pass p [] h = tt
pop-Pass p (x ∷ xs) h = pop_after-Pass p x (pop xs) h.0 (pop-Pass p xs h.1)

-- The choice so far with what is left to fill never exceeds `n`.
pub record Room (p : Candidate → Bool) (n : ℕ) (f : Filling) : Type 0 where
  pub chosen : Chosen p f.selected
  pub room : length f.selected + f.budget ≤ n

popped-Room :
    (p : Candidate → Bool) (n : ℕ) (xs : List Candidate) (f : Filling)
    (o : Option (List Candidate × Candidate))
    → Pass p xs
    → 1 ≤ f.budget
    → PopPass p o
    → Room p n f
    → Pass p (popped xs f o).0 × Room p n (popped xs f o).1
popped-Room p n xs f none h b k room = (h, room)
popped-Room p n xs f (some (rest, last)) h b k room = (
  k.0,
  record {
    chosen = put-Chosen p last f.selected k.1 room.chosen;
    room = omega (arith, length-put last f.selected, room.room, b);
  },
)

positive : (n : ℕ) → (n == 0) ≡ false → 1 ≤ n
positive n e = ground arith

visit-Room :
    (p : Candidate → Bool) (n : ℕ) (xs : List Candidate) (f : Filling)
    → Pass p xs
    → Room p n f
    → Pass p (visit xs f).0 × Room p n (visit xs f).1
unfolding visit
visit-Room p n xs f h room = elim (Bool-cases (f.budget == 0)) [
  | inl e ↦ rw e (h, room)
  | inr e ↦ rw e (popped-Room p n xs f (pop xs) h (positive f.budget e) (pop-Pass p xs h) room)
]

round-Room :
    (p : Candidate → Bool) (n : ℕ) (gs : List (List Candidate)) (f : Filling)
    → All (Pass p) gs
    → Room p n f
    → All (Pass p) (round gs f).0 × Room p n (round gs f).1
unfolding round
round-Room p n [] f h room = (tt, room)
round-Room p n (g ∷ gs) f h room =
    let here = visit-Room p n g f h.0 room in
    let rest = round-Room p n gs (visit g f).1 h.1 here.1 in ((here.0, rest.0), rest.1)

pub fill_rounds-Room :
    (p : Candidate → Bool) (n fuel : ℕ) (gs : List (List Candidate)) (f : Filling)
    → All (Pass p) gs
    → Room p n f
    → Room p n (fill_rounds fuel gs f).1
unfolding fill_rounds
fill_rounds-Room p n zero gs f h room = room
fill_rounds-Room p n (suc fuel) gs f h room =
    elim (Bool-cases (f.budget == 0 || left_over gs == 0)) [
      | inl e ↦ rw e room
      | inr e ↦
          let next = round-Room p n gs f h room in
          rw e (fill_rounds-Room p n fuel (round gs f).0 (round gs f).1 next.0 next.1)
    ]
