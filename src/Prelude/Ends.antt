-- ===== src/Prelude/Ends.antt =====
-- The end of a list, as Python's negative indices see it.
use Prim.Native.Nat.{ℕ, zero, suc, ◌≤◌}
use mathlib.Core.Path.{◌≡◌, refl, ap}
use mathlib.Core.List.{List, [], ◌∷◌, ◌++◌}
use native.Mathlib.Omega.{arith}
use sentinel_brief.Prelude.Lists.{length, take}

module _ {ℓ} {A : Type ℓ} where
  -- `xs[-1:]`
  abbrev pub last_only : List A → List A
  last_only [] = []
  last_only (x ∷ []) = x ∷ []
  last_only (x ∷ y ∷ ys) = last_only (y ∷ ys)

  -- The list after `del xs[-2]`; with less than two elements there is no such element.
  abbrev pub del_second_last : List A → List A
  del_second_last [] = []
  del_second_last (x ∷ []) = x ∷ []
  del_second_last (x ∷ y ∷ []) = y ∷ []
  del_second_last (x ∷ y ∷ z ∷ zs) = x ∷ del_second_last (y ∷ z ∷ zs)

  pub last_only-append : (xs : List A) (x : A) → last_only (xs ++ (x ∷ [])) ≡ x ∷ []
  last_only-append [] x = refl
  last_only-append (y ∷ []) x = refl
  last_only-append (y ∷ z ∷ zs) x = last_only-append (z ∷ zs) x

  pub del_second_last-append :
      (xs : List A) (x y : A) → del_second_last (xs ++ (x ∷ y ∷ [])) ≡ xs ++ (y ∷ [])
  del_second_last-append [] x y = refl
  del_second_last-append (z ∷ []) x y = refl
  del_second_last-append (z ∷ w ∷ ws) x y = step ws (del_second_last-append (w ∷ ws) x y)
    where
      step :
          (ws : List A)
          → del_second_last (w ∷ (ws ++ (x ∷ y ∷ []))) ≡ w ∷ (ws ++ (y ∷ []))
          → del_second_last (z ∷ w ∷ (ws ++ (x ∷ y ∷ []))) ≡ z ∷ w ∷ (ws ++ (y ∷ []))
      step [] h = ap (λ t. z ∷ t) h
      step (v ∷ vs) h = ap (λ t. z ∷ t) h

  pub take-append : (n : ℕ) (xs ys : List A) → n ≤ length xs → take n (xs ++ ys) ≡ take n xs
  take-append zero xs ys h = refl
  take-append (suc n) [] ys h = absurd (omega arith)
  take-append (suc n) (x ∷ xs) ys h = ap (λ t. x ∷ t) (take-append n xs ys (omega arith))

  -- A list of `suc n` elements is its first `n` and its last.
  pub take-last_only : (n : ℕ) (xs : List A) → length xs ≡ suc n → take n xs ++ last_only xs ≡ xs
  take-last_only zero (x ∷ []) h = refl
  take-last_only zero [] h = refl
  take-last_only zero (x ∷ y ∷ ys) h = absurd (omega arith)
  take-last_only (suc n) [] h = absurd (omega arith)
  take-last_only (suc n) (x ∷ []) h = absurd (omega arith)
  take-last_only (suc n) (x ∷ y ∷ ys) h = ap (λ t. x ∷ t) (take-last_only n (y ∷ ys) (omega arith))

  -- The last element of a list that has one.
  pub last_only_cases : (xs : List A) → 1 ≤ length xs → (x : A) × (last_only xs ≡ x ∷ [])
  last_only_cases [] h = absurd (omega arith)
  last_only_cases (x ∷ []) h = (x, refl)
  last_only_cases (x ∷ y ∷ ys) h = last_only_cases (y ∷ ys) (omega arith)

  pub length-del_second_last :
      (xs : List A) → 2 ≤ length xs → suc (length (del_second_last xs)) ≡ length xs
  length-del_second_last [] h = absurd (omega arith)
  length-del_second_last (x ∷ []) h = absurd (omega arith)
  length-del_second_last (x ∷ y ∷ []) h = refl
  length-del_second_last (x ∷ y ∷ z ∷ zs) h =
      ap suc (length-del_second_last (y ∷ z ∷ zs) (omega arith))

  pub length-last_only : (xs : List A) → length (last_only xs) ≤ 1
  length-last_only [] = omega arith
  length-last_only (x ∷ []) = omega arith
  length-last_only (x ∷ y ∷ ys) = length-last_only (y ∷ ys)
