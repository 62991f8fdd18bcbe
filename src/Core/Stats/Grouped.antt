-- ===== src/Core/Stats/Grouped.antt =====
-- The sums over the groups of a list add up to the sum over the list.
use sentinel_brief.Prelude.{
  arith, ℕ, suc, ◌+◌, ◌≡◌, refl, ◌∙◌, ◌==◌, List, [], ◌∷◌, ◌++◌, map, length, All, Bool-cases, inl,
  inr, if◌then◌else◌,
}
use sentinel_brief.Core.Stats.{sum_of, sum_if}

-- How often a key stands in a list.
unfoldable pub occurrences : ℕ → List ℕ → ℕ
occurrences x [] = 0
occurrences x (d ∷ ds) = if x == d then suc (occurrences x ds) else occurrences x ds

-- What one item gives to the groups.
abbrev part : ℕ → ℕ → ℕ → ℕ
part x w d = if x == d then w else 0

part-absent : (x w : ℕ) (ds : List ℕ) → occurrences x ds ≡ 0 → sum_of (part x w) ds ≡ 0
unfolding sum_of occurrences
part-absent x w [] h = refl
part-absent x w (d ∷ ds) h = elim (Bool-cases (x == d)) [
  | inl e ↦ let n : suc (occurrences x ds) ≡ 0 = rw e at h in absurd (omega arith)
  | inr e ↦ let n : occurrences x ds ≡ 0 = rw e at h in rw e (omega (arith, part-absent x w ds n))
]

part-once : (x w : ℕ) (ds : List ℕ) → occurrences x ds ≡ 1 → sum_of (part x w) ds ≡ w
unfolding sum_of occurrences
part-once x w [] h = absurd (omega arith)
part-once x w (d ∷ ds) h = elim (Bool-cases (x == d)) [
  | inl e ↦
      let n : suc (occurrences x ds) ≡ 1 = rw e at h in
      let rest = part-absent x w ds (omega (arith, n)) in rw e (omega (arith, rest))
  | inr e ↦ let n : occurrences x ds ≡ 1 = rw e at h in rw e (omega (arith, part-once x w ds n))
]

sum_of-zero : (ds : List ℕ) → sum_of (λ d. 0) ds ≡ 0
unfolding sum_of
sum_of-zero [] = refl
sum_of-zero (d ∷ ds) = omega (arith, sum_of-zero ds)

module _ {A : Type 0} (key : A → ℕ) (f : A → ℕ) where
  abbrev group_sum : List A → ℕ → ℕ
  group_sum xs d = sum_if (λ a. key a == d) f xs

  group_sum-step :
      (x : A) (xs : List A) (d : ℕ) → group_sum (x ∷ xs) d ≡ part (key x) (f x) d + group_sum xs d
  unfolding sum_if
  group_sum-step x xs d = elim (Bool-cases (key x == d)) [
    | inl e ↦ rw e refl
    | inr e ↦ rw e (omega arith)
  ]

  grouped-step :
      (x : A) (xs : List A) (ds : List ℕ)
      → sum_of (group_sum (x ∷ xs)) ds ≡ sum_of (part (key x) (f x)) ds + sum_of (group_sum xs) ds
  unfolding sum_of
  grouped-step x xs [] = refl
  grouped-step x xs (d ∷ ds) = omega (arith, grouped-step x xs ds, group_sum-step x xs d)

  -- Where each item's key is in the list of keys just once.
  pub sum_of-grouped :
      (xs : List A) (ds : List ℕ)
      → All (λ a. occurrences (key a) ds ≡ 1) xs
      → sum_of (group_sum xs) ds ≡ sum_of f xs
  unfolding sum_of sum_if
  sum_of-grouped [] ds h = sum_of-zero ds
  sum_of-grouped (x ∷ xs) ds h =
      let one = part-once (key x) (f x) ds h.0 in
      let rest = sum_of-grouped xs ds h.1 in grouped-step x xs ds ∙ omega (arith, one, rest)

pub sum_of-append :
    {A : Type 0} (f : A → ℕ) (xs ys : List A) → sum_of f (xs ++ ys) ≡ sum_of f xs + sum_of f ys
unfolding sum_of
sum_of-append f [] ys = omega arith
sum_of-append f (x ∷ xs) ys = omega (arith, sum_of-append f xs ys)

pub sum_of-map :
    {A B : Type 0} (f : B → ℕ) (g : A → B) (xs : List A)
    → sum_of f (map g xs) ≡ sum_of (λ a. f (g a)) xs
unfolding sum_of
sum_of-map f g [] = refl
sum_of-map f g (x ∷ xs) = omega (arith, sum_of-map f g xs)

pub sum_of-ones : {A : Type 0} (xs : List A) → sum_of (λ _. 1) xs ≡ length xs
unfolding sum_of
sum_of-ones [] = refl
sum_of-ones (x ∷ xs) = omega (arith, sum_of-ones xs)
