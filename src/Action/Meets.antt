-- ===== src/Action/Meets.antt =====
-- Partial correctness of actions: what holds when an action returns, one rule for each way to
-- build it.
use mathlib.Core.Path.{subst}
use sentinel_brief.Prelude.{◌≡◌, refl, Bool, true, false, Result, ok, err, if◌then◌else◌}
use sentinel_brief.Core.Errors.{Exn}
use sentinel_brief.Action.{Action, continue, pure, raise, gets, modify, ◌>>=◌}

abbrev pub Returns : {S A : Type 0} → (A → S → Type 0) → Result Exn A × S → Type 0
Returns Q (ok a, s) = Q a s
Returns Q (err e, s) = Unit

-- From a state in `P`, if `m` returns, its value and the state are in `Q`.
pub record Meets {S A : Type 0} (P : S → Type 0) (m : Action S A) (Q : A → S → Type 0)
    : Type 0 where
  pub at : (s : S) → P s → Returns Q (m s)

ok_injective : {A : Type 0} {a b : A} → ◌≡◌ {A = Result Exn A} (ok a) (ok b) → a ≡ b
ok_injective e = cc

module _ {S A : Type 0} {P : S → Type 0} {Q : A → S → Type 0} where
  pub pure-Meets : (a : A) → ((s : S) → P s → Q a s) → Meets P (pure a) Q
  unfolding ◌>>=◌
  pure-Meets a h = record { at = h }

  pub raise-Meets : (e : Exn) → Meets P (raise e) Q
  unfolding ◌>>=◌
  raise-Meets e = record { at = λ s h. tt }

  pub gets-Meets : (f : S → A) → ((s : S) → P s → Q (f s) s) → Meets P (gets f) Q
  unfolding ◌>>=◌
  gets-Meets f h = record { at = h }

  pub if-Meets :
      (b : Bool) (m n : Action S A)
      → (b ≡ true → Meets P m Q)
      → (b ≡ false → Meets P n Q)
      → Meets P (if b then m else n) Q
  if-Meets true m n hm hn = hm refl
  if-Meets false m n hm hn = hn refl

  -- What an action returns in a given state.
  pub Meets-returns :
      {m : Action S A} (s : S) {a : A} → Meets P m Q → P s → (m s).0 ≡ ok a → Q a (m s).1
  Meets-returns {m} s {a} h p e = go (m s) e (h.at s p)
    where
      go : (r : Result Exn A × S) → r.0 ≡ ok a → Returns Q r → Q a r.1
      go (ok b, s') e q = subst (λ x. Q x s') (ok_injective e) q
      go (err x, s') e q = cc

module _ {S : Type 0} {P : S → Type 0} {Q : Unit {0} → S → Type 0} where
  pub modify-Meets : (f : S → S) → ((s : S) → P s → Q tt (f s)) → Meets P (modify f) Q
  unfolding ◌>>=◌
  modify-Meets f h = record { at = h }

continue-Meets :
    {S A B : Type 0} {Q : A → S → Type 0} {R : B → S → Type 0} (f : A → Action S B)
    (r : Result Exn A × S)
    → ((a : A) → Meets (Q a) (f a) R)
    → Returns Q r
    → Returns R (continue r.0 f r.1)
continue-Meets f (ok a, s) hf q = (hf a).at s q
continue-Meets f (err e, s) hf q = tt

module _ {S A B : Type 0} {P : S → Type 0} {Q : A → S → Type 0} {R : B → S → Type 0} where
  pub bind-Meets :
      (m : Action S A) (f : A → Action S B)
      → Meets P m Q
      → ((a : A) → Meets (Q a) (f a) R)
      → Meets P (m >>= f) R
  unfolding ◌>>=◌
  bind-Meets m f hm hf = record { at = λ s h. continue-Meets f (m s) hf (hm.at s h) }

pub ruleset meets_rules = (pure-Meets, raise-Meets, if-Meets, bind-Meets)
