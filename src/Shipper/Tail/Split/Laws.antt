-- ===== src/Shipper/Tail/Split/Laws.antt =====
-- How lines split over an append, a find and a join.
use sentinel_brief.Prelude.{
  arith, Text, ℕ, zero, suc, ◌+◌, ◌≤◌, ◌≡◌, ◌≢◌, refl, ap, sym, ◌∙◌, true, false, ◌==◌, Option,
  none, some, List, [], ◌∷◌, ◌++◌, length, length-append, take, drop, All, ==_iff, Bool-cases,
  ℕ-cases, inl, inr,
}
use mathlib.Core.List.{append_assoc, append-nil}
use sentinel_brief.Shipper.Tail.Split.{
  newline, lines_from, partial_from, join, find, one_later, after_last, after_byte,
}

pub lines_from-append :
    (p xs ys : Text)
    → lines_from p (xs ++ ys) ≡ lines_from p xs ++ lines_from (partial_from p xs) ys
unfolding lines_from partial_from
lines_from-append p [] ys = refl
lines_from-append p (x ∷ xs) ys = elim (Bool-cases (x == newline)) [
  | inl e ↦ rw e (ap (λ ls. p ∷ ls) (lines_from-append [] xs ys))
  | inr e ↦ rw e (lines_from-append (p ++ (x ∷ [])) xs ys)
]

pub partial_from-append :
    (p xs ys : Text) → partial_from p (xs ++ ys) ≡ partial_from (partial_from p xs) ys
unfolding partial_from
partial_from-append p [] ys = refl
partial_from-append p (x ∷ xs) ys = elim (Bool-cases (x == newline)) [
  | inl e ↦ rw e (partial_from-append [] xs ys)
  | inr e ↦ rw e (partial_from-append (p ++ (x ∷ [])) xs ys)
]

-- A text without a newline.
abbrev pub OneLine : Text → Type 0
OneLine = All (λ c. (c == newline) ≡ false)

pub lines_from-OneLine : (p xs : Text) → OneLine xs → lines_from p xs ≡ []
unfolding lines_from
lines_from-OneLine p [] h = refl
lines_from-OneLine p (x ∷ xs) h = rw h.0 (lines_from-OneLine (p ++ (x ∷ [])) xs h.1)

pub partial_from-OneLine : (p xs : Text) → OneLine xs → partial_from p xs ≡ p ++ xs
unfolding partial_from
partial_from-OneLine p [] h = sym (append-nil p)
partial_from-OneLine p (x ∷ xs) h =
    rw h.0 (partial_from-OneLine (p ++ (x ∷ [])) xs h.1 ∙ append_assoc p (x ∷ []) xs)

find-none-OneLine : (xs : Text) → find xs ≡ none → OneLine xs
unfolding find
find-none-OneLine [] e = tt
find-none-OneLine (x ∷ xs) e = elim (Bool-cases (x == newline)) [
  | inl n ↦ absurd (ground (arith, n, e))
  | inr n ↦ (n, find-none-OneLine xs (ground (arith, n, e)))
]

-- Without a newline nothing ends.
pub find-none :
    (p xs : Text) → find xs ≡ none → (lines_from p xs ≡ []) × (partial_from p xs ≡ p ++ xs)
find-none p xs e =
    let one = find-none-OneLine xs e in (lines_from-OneLine p xs one, partial_from-OneLine p xs one)

one_later-zero : (o : Option ℕ) → one_later o ≢ some 0
one_later-zero none e = cc
one_later-zero (some i) e = ground (arith, e)

one_later-suc : (o : Option ℕ) (i : ℕ) → one_later o ≡ some (suc i) → o ≡ some i
one_later-suc none i e = cc
one_later-suc (some j) i e = ground (arith, e)

-- The first newline ends the partial line.
pub find-some :
    (p xs : Text) (i : ℕ)
    → find xs ≡ some i
    → (lines_from p xs ≡ (p ++ take i xs) ∷ lines_from [] (drop (suc i) xs))
      × (partial_from p xs ≡ partial_from [] (drop (suc i) xs))
unfolding find lines_from partial_from
find-some p [] i e = absurd (ground (arith, e))
find-some p (x ∷ xs) zero e = elim (Bool-cases (x == newline)) [
  | inl n ↦ rw n (ap (λ t. t ∷ lines_from [] xs) (sym (append-nil p)), refl)
  | inr n ↦ absurd (one_later-zero (find xs) (rw n at e))
]
find-some p (x ∷ xs) (suc i) e = elim (Bool-cases (x == newline)) [
  | inl n ↦ absurd (ground (arith, n, e))
  | inr n ↦
      let rest = find-some (p ++ (x ∷ [])) xs i (one_later-suc (find xs) i (rw n at e)) in
      rw n (
        rest.0
            ∙ ap (λ t. t ∷ lines_from [] (drop (suc i) xs)) (append_assoc p (x ∷ []) (take i xs)),
        rest.1,
      )
]

after_byte-zero : (c k : ℕ) → after_byte c k ≡ 0 → (k ≡ 0) × ((c == newline) ≡ false)
after_byte-zero c zero e = (refl, ground (arith, e))
after_byte-zero c (suc k) e = absurd (ground (arith, e))

-- Without a newline there is one partial line.
after_last-none : (xs : Text) → after_last xs ≡ 0 → OneLine xs
unfolding after_last
after_last-none [] e = tt
after_last-none (x ∷ xs) e =
    let h = after_byte-zero x (after_last xs) e in (h.1, after_last-none xs h.0)

after_byte-first : (x k : ℕ) → after_byte x 0 ≡ suc k → (x == newline) ≡ true
after_byte-first x k e = ground (arith, e)

after_byte-first_place : (x k : ℕ) → after_byte x 0 ≡ suc k → k ≡ 0
after_byte-first_place x k e = ground (arith, e)

suc-injective : {m n : ℕ} → suc (suc m) ≡ suc n → n ≡ suc m
suc-injective e = omega arith

-- Up to its last newline a text has all its lines and no partial one.
pub after_last_lem :
    (p xs : Text) (k : ℕ)
    → after_last xs ≡ suc k
    → (lines_from p (take (suc k) xs) ≡ lines_from p xs)
      × (partial_from p (take (suc k) xs) ≡ [])
      × (partial_from p xs ≡ drop (suc k) xs)
unfolding after_last lines_from partial_from
after_last_lem p [] k e = absurd (ground (arith, e))
after_last_lem p (x ∷ xs) k e = elim (ℕ-cases (after_last xs)) [
  | inl z ↦
      let ends : (x == newline) ≡ true = after_byte-first x k (rw z at e) in
      let first : k ≡ 0 = after_byte-first_place x k (rw z at e) in
      let one = after_last-none xs z in
      rw (ends, first)
        (
          ap (λ ls. p ∷ ls) (sym (lines_from-OneLine [] xs one)),
          refl,
          partial_from-OneLine [] xs one,
        )
  | inr (j, z) ↦
      let later : k ≡ suc j = suc-injective (rw z at e) in
      elim (Bool-cases (x == newline)) [
        | inl n ↦
            let rest = after_last_lem [] xs j z in
            rw (n, later) (ap (λ ls. p ∷ ls) rest.0, rest.1, rest.2)
        | inr n ↦ rw (n, later) (after_last_lem (p ++ (x ∷ [])) xs j z)
      ]
]

OneLine-snoc : (p : Text) (c : ℕ) → OneLine p → (c == newline) ≡ false → OneLine (p ++ (c ∷ []))
OneLine-snoc [] c h n = (n, tt)
OneLine-snoc (x ∷ xs) c h n = (h.0, OneLine-snoc xs c h.1 n)

-- No line has a newline inside, and neither has the partial one.
pub lines_from-All :
    (p xs : Text) → OneLine p → All OneLine (lines_from p xs) × OneLine (partial_from p xs)
unfolding lines_from partial_from
lines_from-All p [] h = (tt, h)
lines_from-All p (x ∷ xs) h = elim (Bool-cases (x == newline)) [
  | inl n ↦ let rest = lines_from-All [] xs tt in rw n ((h, rest.0), rest.1)
  | inr n ↦ rw n (lines_from-All (p ++ (x ∷ [])) xs (OneLine-snoc p x h n))
]

lines_from-ended :
    (l s : Text)
    → OneLine l
    → (lines_from [] (l ++ (newline ∷ s)) ≡ l ∷ lines_from [] s)
      × (partial_from [] (l ++ (newline ∷ s)) ≡ partial_from [] s)
unfolding lines_from partial_from
lines_from-ended l s h = (
  lines_from-append [] l (newline ∷ s)
      ∙ rw (lines_from-OneLine [] l h, partial_from-OneLine [] l h) refl,
  partial_from-append [] l (newline ∷ s),
)

-- The lines of a joined text in front of another.
pub lines-join :
    (ls : List Text) (s : Text)
    → All OneLine ls
    → (lines_from [] (join ls ++ s) ≡ ls ++ lines_from [] s)
      × (partial_from [] (join ls ++ s) ≡ partial_from [] s)
unfolding join
lines-join [] s h = (refl, refl)
lines-join (l ∷ ls) s h =
    let first = lines_from-ended l (join ls ++ s) h.0 in
    let rest = lines-join ls s h.1 in
    rw (append_assoc l (newline ∷ join ls) s) (first.0 ∙ ap (λ t. l ∷ t) rest.0, first.1 ∙ rest.1)

-- A text is its lines, joined, and its partial line.
pub join-lines_from : (p xs : Text) → join (lines_from p xs) ++ partial_from p xs ≡ p ++ xs
unfolding join lines_from partial_from
join-lines_from p [] = sym (append-nil p)
join-lines_from p (x ∷ xs) = elim (Bool-cases (x == newline)) [
  | inl n ↦
      let same : x ≡ newline = (==_iff x newline).0 n in
      rw n (
        append_assoc p (newline ∷ join (lines_from [] xs)) (partial_from [] xs)
        ∙ ap (λ t. p ++ (newline ∷ t)) (join-lines_from [] xs)
        ∙ ap (λ c. p ++ (c ∷ xs)) (sym same))
  | inr n ↦ rw n (join-lines_from (p ++ (x ∷ [])) xs ∙ append_assoc p (x ∷ []) xs)
]

pub length-partial_from : (p xs : Text) → length (partial_from p xs) ≤ length p + length xs
unfolding partial_from
length-partial_from p [] = omega arith
length-partial_from p (x ∷ xs) = elim (Bool-cases (x == newline)) [
  | inl n ↦ rw n (omega (arith, length-partial_from [] xs))
  | inr n ↦ rw n (omega (arith, length-partial_from (p ++ (x ∷ [])) xs, length-append p (x ∷ [])))
]

pub after_last-zero :
    (xs : Text) → after_last xs ≡ 0 → (lines_from [] xs ≡ []) × (partial_from [] xs ≡ xs)
after_last-zero xs e =
    let one = after_last-none xs e in (lines_from-OneLine [] xs one, partial_from-OneLine [] xs one)

pub length-lines_from : (p xs : Text) → length (lines_from p xs) ≤ length xs
unfolding lines_from
length-lines_from p [] = omega arith
length-lines_from p (x ∷ xs) = elim (Bool-cases (x == newline)) [
  | inl n ↦ rw n (omega (arith, length-lines_from [] xs))
  | inr n ↦ rw n (omega (arith, length-lines_from (p ++ (x ∷ [])) xs))
]
