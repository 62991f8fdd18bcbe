-- ===== src/Evals/Sample/Clamped.antt =====
-- What a sample keeps to, whatever the random draws are.
use sentinel_brief.Prelude.{
  arith, ℕ, suc, ◌+◌, ◌≤◌, ◌≡◌, sym, inl, inr, String, Bool, true, false, ◌==ₛ◌, eq_iff, List, [],
  ◌∷◌, length, All, Bool-cases, if◌then◌else◌,
}
use sentinel_brief.Evals.Sample.{Candidate, Rng, bucket, put, put_all, remainder, is_selected}

-- How often an id stands in a list.
unfoldable pub one : String → Candidate → ℕ
one x c = if c.case_id ==ₛ x then 1 else 0

abbrev pub count_id : String → List Candidate → ℕ
count_id x [] = 0
count_id x (c ∷ cs) = one x c + count_id x cs

-- What the documentation of `random` says: `sample` gives so many of the members, both give members
-- only, and `shuffle` gives each as often as it was there.
pub record RngLaws {R : Type 0} (rng : Rng R) : Type 0 where
  pub length-sample :
      (cs : List Candidate) (k : ℕ) (r : R) → k ≤ length cs → length (rng.sample cs k r).0 ≡ k
  pub sample-All :
      (p : Candidate → Bool) (cs : List Candidate) (k : ℕ) (r : R)
      → All (λ c. p c ≡ true) cs
      → All (λ c. p c ≡ true) (rng.sample cs k r).0
  pub shuffle-All :
      (p : Candidate → Bool) (cs : List Candidate) (r : R)
      → All (λ c. p c ≡ true) cs
      → All (λ c. p c ≡ true) (rng.shuffle cs r).0
  pub count_id-shuffle :
      (x : String) (cs : List Candidate) (r : R) → count_id x (rng.shuffle cs r).0 ≡ count_id x cs

-- No two with the same id.
abbrev pub Distinct : List Candidate → Type 0
Distinct [] = Unit
Distinct (x ∷ xs) = All (λ y. (y.case_id ==ₛ x.case_id) ≡ false) xs × Distinct xs

abbrev pub Pass : (Candidate → Bool) → List Candidate → Type 0
Pass p = All (λ c. p c ≡ true)

put-fresh :
    (x c : Candidate) (xs : List Candidate)
    → (c.case_id ==ₛ x.case_id) ≡ false
    → All (λ y. (y.case_id ==ₛ x.case_id) ≡ false) xs
    → All (λ y. (y.case_id ==ₛ x.case_id) ≡ false) (put c xs)
unfolding put
put-fresh x c [] h k = (h, tt)
put-fresh x c (y ∷ ys) h k = elim (Bool-cases (y.case_id ==ₛ c.case_id)) [
  | inl e ↦ rw e (h, k.1)
  | inr e ↦ rw e (k.0, put-fresh x c ys h k.1)
]

flip-apart : (x y : String) → (x ==ₛ y) ≡ false → (y ==ₛ x) ≡ false
flip-apart x y h = elim (Bool-cases (y ==ₛ x)) [
  | inl e ↦ let same : (x ==ₛ y) ≡ true = (eq_iff x y).1 (sym ((eq_iff y x).0 e)) in ground arith
  | inr e ↦ e
]

put-Distinct : (c : Candidate) (xs : List Candidate) → Distinct xs → Distinct (put c xs)
unfolding put
put-Distinct c [] h = (tt, tt)
put-Distinct c (x ∷ xs) h = elim (Bool-cases (x.case_id ==ₛ c.case_id)) [
  | inl e ↦
      let same : x.case_id ≡ c.case_id = (eq_iff x.case_id c.case_id).0 e in
      rw e (rw (sym same) h.0, h.1)
  | inr e ↦ rw e (put-fresh x c xs (flip-apart x.case_id c.case_id e) h.0, put-Distinct c xs h.1)
]

put-Pass :
    (p : Candidate → Bool) (c : Candidate) (xs : List Candidate)
    → p c ≡ true
    → Pass p xs
    → Pass p (put c xs)
unfolding put
put-Pass p c [] h k = (h, tt)
put-Pass p c (x ∷ xs) h k = elim (Bool-cases (x.case_id ==ₛ c.case_id)) [
  | inl e ↦ rw e (h, k.1)
  | inr e ↦ rw e (k.0, put-Pass p c xs h k.1)
]

pub length-put : (c : Candidate) (xs : List Candidate) → length (put c xs) ≤ suc (length xs)
unfolding put
length-put c [] = omega arith
length-put c (x ∷ xs) = elim (Bool-cases (x.case_id ==ₛ c.case_id)) [
  | inl e ↦ rw e (omega arith)
  | inr e ↦ rw e (omega (arith, length-put c xs))
]

-- A choice without repeats, of candidates that pass.
pub record Chosen (p : Candidate → Bool) (xs : List Candidate) : Type 0 where
  pub distinct : Distinct xs
  pub pass : Pass p xs

pub put-Chosen :
    (p : Candidate → Bool) (c : Candidate) (xs : List Candidate)
    → p c ≡ true
    → Chosen p xs
    → Chosen p (put c xs)
put-Chosen p c xs h k = record {
  distinct = put-Distinct c xs k.distinct;
  pass = put-Pass p c xs h k.pass;
}

pub put_all-Chosen :
    (p : Candidate → Bool) (cs xs : List Candidate)
    → Pass p cs
    → Chosen p xs
    → Chosen p (put_all cs xs) × (length (put_all cs xs) ≤ length cs + length xs)
unfolding put_all
put_all-Chosen p [] xs h k = (k, omega arith)
put_all-Chosen p (c ∷ cs) xs h k =
    let rest = put_all-Chosen p cs (put c xs) h.1 (put-Chosen p c xs h.0 k) in
    (rest.0, omega (arith, rest.1, length-put c xs))

pub bucket-Pass :
    (p : Candidate → Bool) (stratum : String) (cs : List Candidate)
    → Pass p cs
    → Pass p (bucket stratum cs)
unfolding bucket
bucket-Pass p stratum [] h = tt
bucket-Pass p stratum (c ∷ cs) h = elim (Bool-cases (c.stratum ==ₛ stratum)) [
  | inl e ↦ rw e (h.0, bucket-Pass p stratum cs h.1)
  | inr e ↦ rw e (bucket-Pass p stratum cs h.1)
]

pub remainder-Pass :
    (p : Candidate → Bool) (selected cs : List Candidate)
    → Pass p cs
    → Pass p (remainder selected cs)
unfolding remainder
remainder-Pass p selected [] h = tt
remainder-Pass p selected (c ∷ cs) h = elim (Bool-cases (is_selected c selected)) [
  | inl e ↦ rw e (remainder-Pass p selected cs h.1)
  | inr e ↦ rw e (h.0, remainder-Pass p selected cs h.1)
]
