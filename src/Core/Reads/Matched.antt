-- ===== src/Core/Reads/Matched.antt =====
-- Which rows the list is over.
use sentinel_brief.Prelude.{
  arith, ℕ, ◌≤◌, ◌≡◌, ◌==◌, ==_iff, refl, ap, sym, ◌∙◌, Bool, true, false, leb, Option, none, some,
  List, [], ◌∷◌, Bool-cases, inl, inr, if◌then◌else◌,
}
use sentinel_brief.Core.Database.{AlertRow, VerdictRow}
use sentinel_brief.Core.Reads.{
  Columns, ListFilters, Joined, satisfies, verdict_is, same_bool, matches, base_rows,
  latest_verdict,
}
use sentinel_brief.Core.Reads.Latest.{IsLatest, latest_verdict-IsLatest}
use sentinel_brief.Core.Verdict.{VerdictCategory, category_index}

abbrev category_at : ℕ → VerdictCategory
category_at k =
    if k == 0
    then VerdictCategory.scanning
    else if k == 1
    then VerdictCategory.brute_force
    else if k == 2
    then VerdictCategory.successful_intrusion
    else if k == 3
    then VerdictCategory.malware_delivery
    else if k == 4
    then VerdictCategory.persistence_attempt
    else if k == 5
    then VerdictCategory.reconnaissance
    else VerdictCategory.other

category_at-index : (c : VerdictCategory) → category_at (category_index c) ≡ c
category_at-index VerdictCategory.scanning = refl
category_at-index VerdictCategory.brute_force = refl
category_at-index VerdictCategory.successful_intrusion = refl
category_at-index VerdictCategory.malware_delivery = refl
category_at-index VerdictCategory.persistence_attempt = refl
category_at-index VerdictCategory.reconnaissance = refl
category_at-index VerdictCategory.other = refl

category_index_injective : (c d : VerdictCategory) → category_index c ≡ category_index d → c ≡ d
category_index_injective c d e = sym (category_at-index c) ∙ ap category_at e ∙ category_at-index d

-- A filter that is given holds of the verdict, and there is one.
abbrev pub OfVerdict {ℓ} :
    {A : Type ℓ} → (A → VerdictRow → Type 0) → Option A → Option VerdictRow → Type 0
OfVerdict P none o = Unit
OfVerdict P (some a) none = ⊥
OfVerdict P (some a) (some v) = P a v

module _ (columns : Columns) where
  abbrev pub Since : Option ℕ → AlertRow → Type 0
  Since none a = Unit
  Since (some t) a = t ≤ columns.received_at a.id

  -- The alert and its verdict pass every filter that is given.
  pub record Passes (f : ListFilters) (a : AlertRow) (o : Option VerdictRow) : Type 0 where
    pub severity_gte : OfVerdict (λ s v. s ≤ v.severity) f.severity_gte o
    pub category : OfVerdict (λ c v. v.category ≡ c) f.category o
    pub escalate : OfVerdict (λ e v. v.escalate ≡ e) f.escalate o
    pub since : Since f.since a

  -- The rows are, in order, the alerts that pass with their latest verdicts, and no others.
  pub data Joins (f : ListFilters) (verdicts : List VerdictRow)
      : List AlertRow → List Joined → Type 0 where
    joins_none : Joins f verdicts [] []
    joins_row :
        {a : AlertRow} {o : Option VerdictRow} {rows : List AlertRow} {out : List Joined}
        → IsLatest columns a.id verdicts o
        → Passes f a o
        → Joins f verdicts rows out
        → Joins f verdicts (a ∷ rows) (record { alert = a; verdict = o } ∷ out)
    leaves_out :
        {a : AlertRow} {o : Option VerdictRow} {rows : List AlertRow} {out : List Joined}
        → IsLatest columns a.id verdicts o
        → ¬ Passes f a o
        → Joins f verdicts rows out
        → Joins f verdicts (a ∷ rows) out

  same_bool-same : (a b : Bool) → same_bool a b ≡ true → b ≡ a
  same_bool-same true b h = h
  same_bool-same false true h = ground (arith, h)
  same_bool-same false false h = refl

  same-same_bool : (a b : Bool) → b ≡ a → same_bool a b ≡ true
  same-same_bool true b h = h
  same-same_bool false true h = ground (arith, h)
  same-same_bool false false h = refl

  of_verdict :
      {A : Type 0} (P : A → VerdictRow → Type 0) (p : A → VerdictRow → Bool) (g : Option A)
      (o : Option VerdictRow)
      → ((a : A) (v : VerdictRow) → p a v ≡ true → P a v)
      → satisfies g (λ a. verdict_is o (p a)) ≡ true
      → OfVerdict P g o
  of_verdict P p none o h e = tt
  of_verdict P p (some a) none h e = ground (arith, e)
  of_verdict P p (some a) (some v) h e = h a v e

  to_verdict :
      {A : Type 0} (P : A → VerdictRow → Type 0) (p : A → VerdictRow → Bool) (g : Option A)
      (o : Option VerdictRow)
      → ((a : A) (v : VerdictRow) → P a v → p a v ≡ true)
      → OfVerdict P g o
      → satisfies g (λ a. verdict_is o (p a)) ≡ true
  to_verdict P p none o h e = refl
  to_verdict P p (some a) none h e = absurd e
  to_verdict P p (some a) (some v) h e = h a v e

  of_since :
      (g : Option ℕ) (a : AlertRow)
      → satisfies g (λ t. leb t (columns.received_at a.id)) ≡ true
      → Since g a
  of_since none a h = tt
  of_since (some t) a h = ground (arith, h)

  to_since :
      (g : Option ℕ) (a : AlertRow)
      → Since g a
      → satisfies g (λ t. leb t (columns.received_at a.id)) ≡ true
  to_since none a h = refl
  to_since (some t) a h = ground (arith, h)

  matches-Passes :
      (f : ListFilters) (a : AlertRow) (o : Option VerdictRow)
      → matches columns f (record { alert = a; verdict = o }) ≡ true
      → Passes f a o
  unfolding matches
  matches-Passes f a o h = record {
    severity_gte =
        of_verdict _ (λ s v. leb s v.severity) f.severity_gte o (λ s v e. ground arith)
          (ground (arith, h));
    category =
        of_verdict _ (λ c v. category_index v.category == category_index c) f.category o
          (λ c v e. category_index_injective v.category c ((==_iff _ _).0 e)) (ground (arith, h));
    escalate =
        of_verdict _ (λ e v. same_bool e v.escalate) f.escalate o
          (λ e v. same_bool-same e v.escalate) (ground (arith, h));
    since = of_since f.since a (ground (arith, h));
  }

  Passes-matches :
      (f : ListFilters) (a : AlertRow) (o : Option VerdictRow)
      → Passes f a o
      → matches columns f (record { alert = a; verdict = o }) ≡ true
  unfolding matches
  Passes-matches f a o h = ground (
    arith,
    to_verdict _ (λ s v. leb s v.severity) f.severity_gte o (λ s v e. ground arith) h.severity_gte,
    to_verdict _ (λ c v. category_index v.category == category_index c) f.category o
        (λ c v e. (==_iff _ _).1 (ap category_index e)) h.category,
    to_verdict _ (λ e v. same_bool e v.escalate) f.escalate o (λ e v. same-same_bool e v.escalate)
        h.escalate,
    to_since f.since a h.since,
  )

  pub base_rows-Joins :
      (f : ListFilters) (verdicts : List VerdictRow) (rows : List AlertRow)
      → Joins f verdicts rows (base_rows columns f verdicts rows)
  unfolding base_rows
  base_rows-Joins f verdicts [] = Joins.joins_none
  base_rows-Joins f verdicts (a ∷ rows) =
      let o = latest_verdict columns a.id verdicts in
      let latest = latest_verdict-IsLatest columns a.id verdicts in
      let rest = base_rows-Joins f verdicts rows in
      elim (Bool-cases (matches columns f (record { alert = a; verdict = o }))) [
        | inl e ↦ rw e (Joins.joins_row latest (matches-Passes f a o e) rest)
        | inr e ↦
            rw e (
              Joins.leaves_out latest (λ p. absurd (ground (arith, e, Passes-matches f a o p)))
                rest)
      ]
