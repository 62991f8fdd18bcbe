-- ===== src/Evals/Scoring/Consistent.antt =====
-- The rates of a run: each is a fraction, and a case that failed is right in none of them.
use sentinel_brief.Prelude.{
  arith, ℕ, suc, ◌==◌, leb, ◌&&◌, ◌+◌, ◌≤◌, ◌≡◌, refl, Bool, true, false, Option, none, some, List,
  [], ◌∷◌, length, Bool-cases, inl, inr,
}
use sentinel_brief.Core.Verdict.{Verdict, category_index}
use sentinel_brief.Evals.Cases.{CaseResult}
use sentinel_brief.Evals.Tables.{Rate, rate}
use sentinel_brief.Evals.Scoring.{
  Tally, no_tally, tally_case, tally_cases, tally_verdict, count, is_failed, is_critical, plus,
  diff, score,
}

-- Between 0 and 1.
abbrev pub IsFraction : Rate → Type 0
IsFraction r = (r.numerator ≤ r.denominator) × (1 ≤ r.denominator)

rate-IsFraction : (n d : ℕ) → n ≤ d → IsFraction (rate n d)
unfolding rate
rate-IsFraction n d h = elim (Bool-cases (d == 0)) [
  | inl e ↦ rw e (omega arith, omega arith)
  | inr e ↦ rw e (h, ground arith)
]

rate-numerators : (a b d : ℕ) → a ≤ b → (rate a d).numerator ≤ (rate b d).numerator
unfolding rate
rate-numerators a b d h = elim (Bool-cases (d == 0)) [ inl e ↦ rw e (omega arith) | inr e ↦ rw e h ]

rate-numerator_add : (a f d : ℕ) → a + f ≤ d → (rate a d).numerator + f ≤ d
unfolding rate
rate-numerator_add a f d h = elim (Bool-cases (d == 0)) [
  | inl e ↦ rw e (omega arith)
  | inr e ↦ rw e h
]

-- The counters after `n` cases of which `f` failed.
record Counted (n f : ℕ) (t : Tally) : Type 0 where
  exact : t.severity_exact ≤ t.severity_within_one
  within : t.severity_within_one + f ≤ n
  category : t.category_match + f ≤ n
  positive : t.true_positive ≤ t.predicted_positive
  predicted : t.predicted_positive + f ≤ n
  recalled : t.true_positive ≤ t.labeled_positive
  labeled : t.labeled_positive ≤ n
  hit : t.critical_hit ≤ t.critical_labeled
  critical : t.critical_labeled ≤ n
  escalated : t.escalated ≤ n

abbrev failed_verdict : Option Verdict → ℕ → ℕ
failed_verdict none f = suc f
failed_verdict (some v) f = f

plus_le : (a b : Bool) (n m : ℕ) → n ≤ m → (a ≡ true → b ≡ true) → plus a n ≤ plus b m
plus_le true true n m h i = omega arith
plus_le true false n m h i = absurd (ground (arith, i refl))
plus_le false true n m h i = omega arith
plus_le false false n m h i = h

plus-le-suc : (a : Bool) (n m : ℕ) → n ≤ m → plus a n ≤ suc m
plus-le-suc true n m h = omega arith
plus-le-suc false n m h = omega arith

plus-add-le-suc : (a : Bool) (m f n : ℕ) → m + f ≤ n → plus a m + f ≤ suc n
plus-add-le-suc true m f n h = omega arith
plus-add-le-suc false m f n h = omega arith

and_left : (a b : Bool) → (a && b) ≡ true → a ≡ true
and_left a b h = ground arith

and_right : (a b : Bool) → (a && b) ≡ true → b ≡ true
and_right a b h = ground arith

tally_verdict-Counted :
    (r : CaseResult) (v : Option Verdict) (n f : ℕ) (t : Tally) (hit : Bool)
    → (hit ≡ true → leb 4 r.label.severity ≡ true)
    → Counted n f t
    → Counted (suc n) (failed_verdict v f) (record (tally_verdict r v t) {
      labeled_positive = plus r.label.escalate (tally_verdict r v t).labeled_positive;
      critical_labeled = plus (leb 4 r.label.severity) (tally_verdict r v t).critical_labeled;
      critical_hit = plus hit (tally_verdict r v t).critical_hit;
      escalated = plus r.escalated (tally_verdict r v t).escalated;
    })
tally_verdict-Counted r none n f t hit h c = record {
  exact = c.exact;
  within = omega (arith, c.within);
  category = omega (arith, c.category);
  positive = c.positive;
  predicted = omega (arith, c.predicted);
  recalled = plus_le false r.label.escalate _ _ c.recalled (λ e. cc);
  labeled = plus-le-suc r.label.escalate _ _ c.labeled;
  hit = plus_le hit _ _ _ c.hit h;
  critical = plus-le-suc (leb 4 r.label.severity) _ _ c.critical;
  escalated = plus-le-suc r.escalated _ _ c.escalated;
}
tally_verdict-Counted r (some v) n f t hit h c = record {
  exact = plus_le _ _ _ _ c.exact (λ e. ground (arith, e));
  within = plus-add-le-suc (leb (diff v.severity r.label.severity) 1) _ _ _ c.within;
  category =
      plus-add-le-suc (category_index v.category == category_index r.label.category) _ _ _
        c.category;
  positive = plus_le _ _ _ _ c.positive (and_left v.escalate r.label.escalate);
  predicted = plus-add-le-suc v.escalate _ _ _ c.predicted;
  recalled = plus_le _ _ _ _ c.recalled (and_right v.escalate r.label.escalate);
  labeled = plus-le-suc r.label.escalate _ _ c.labeled;
  hit = plus_le hit _ _ _ c.hit h;
  critical = plus-le-suc (leb 4 r.label.severity) _ _ c.critical;
  escalated = plus-le-suc r.escalated _ _ c.escalated;
}

count-failed :
    (r : CaseResult) (v : Option Verdict) (f : ℕ)
    → failed_verdict v f ≡ plus (elim v [ none ↦ true | some w ↦ false ]) f
count-failed r none f = omega arith
count-failed r (some v) f = refl

pub plus-later : (b : Bool) (f k f' v : ℕ) → v ≡ plus b f → f' ≡ plus b k + f → f' ≡ k + v
plus-later true f k f' v e h = omega arith
plus-later false f k f' v e h = omega arith

none-Counted : Counted 0 0 no_tally
none-Counted = record {
  exact = omega arith;
  within = omega arith;
  category = omega arith;
  positive = omega arith;
  predicted = omega arith;
  recalled = omega arith;
  labeled = omega arith;
  hit = omega arith;
  critical = omega arith;
  escalated = omega arith;
}

tally_cases-Counted :
    (rs : List CaseResult) (n f : ℕ) (t : Tally) (n' f' : ℕ)
    → n' ≡ length rs + n
    → f' ≡ count is_failed rs + f
    → Counted n f t
    → Counted n' f' (tally_cases t rs)
unfolding tally_cases tally_case count
tally_cases-Counted [] n f t n' f' p q c =
    let p' : n' ≡ n = omega arith in let q' : f' ≡ f = omega arith in rw (p', q') c
tally_cases-Counted (r ∷ rs) n f t n' f' p q c =
    tally_cases-Counted rs (suc n) (failed_verdict r.verdict f) (tally_case r t) n' f' (omega arith)
      (plus-later (is_failed r) f (count is_failed rs) f' _ (count-failed r r.verdict f) q)
      (tally_verdict-Counted r r.verdict n f t (leb 4 r.label.severity && is_critical r.verdict)
        (and_left (leb 4 r.label.severity) (is_critical r.verdict)) c)

-- The rates of a run are fractions; one severity that is exact is also within one; and an exact
-- severity, a matching category and a predicted escalation are never of a case that failed.
score-IsFraction :
    (results : List CaseResult)
    → let m = score results in
      IsFraction m.severity_exact
      × IsFraction m.severity_within_one
      × IsFraction m.category_accuracy
      × IsFraction m.escalate_precision
      × IsFraction m.escalate_recall
      × IsFraction m.critical_recall
      × IsFraction m.escalation_rate
      × (m.severity_exact.numerator ≤ m.severity_within_one.numerator)
      × (m.severity_within_one.numerator + m.n_failed ≤ m.n_cases)
      × (m.category_accuracy.numerator + m.n_failed ≤ m.n_cases)
unfolding score
score-IsFraction results =
    let c =
      tally_cases-Counted results 0 0 no_tally (length results) (count is_failed results)
        (omega arith) (omega arith) none-Counted in
    let t = tally_cases no_tally results in
    let n = length results in
    (
      rate-IsFraction t.severity_exact n (omega arith),
      rate-IsFraction t.severity_within_one n (omega arith),
      rate-IsFraction t.category_match n (omega arith),
      rate-IsFraction _ _ c.positive,
      rate-IsFraction _ _ c.recalled,
      rate-IsFraction _ _ c.hit,
      rate-IsFraction _ _ c.escalated,
      rate-numerators t.severity_exact t.severity_within_one (length results) c.exact,
      rate-numerator_add t.severity_within_one _ _ c.within,
      rate-numerator_add t.category_match _ _ c.category,
    )
