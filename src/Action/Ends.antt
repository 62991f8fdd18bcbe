-- ===== src/Action/Ends.antt =====
-- Total correctness of actions: what holds when an action returns and what holds when it raises,
-- one rule for each way to build it.
use sentinel_brief.Prelude.{Result, ok, err}
use sentinel_brief.Core.Errors.{Exn}
use sentinel_brief.Action.{Action, continue, pure, raise, gets, modify, ◌>>=◌}

abbrev pub Ended : {S A : Type 0} → (A → S → Type 0) → (S → Type 0) → Result Exn A × S → Type 0
Ended Q E (ok a, s) = Q a s
Ended Q E (err e, s) = E s

-- From a state in `P`, `m` returns with `Q` or raises with `E`.
pub record Ends {S A : Type 0} (P : S → Type 0) (m : Action S A) (Q : A → S → Type 0)
    (E : S → Type 0) : Type 0 where
  pub at : (s : S) → P s → Ended Q E (m s)

module _ {S A : Type 0} {P : S → Type 0} {Q : A → S → Type 0} {E : S → Type 0} where
  pub pure-Ends : (a : A) → ((s : S) → P s → Q a s) → Ends P (pure a) Q E
  unfolding ◌>>=◌
  pure-Ends a h = record { at = h }

  pub raise-Ends : (e : Exn) → ((s : S) → P s → E s) → Ends P (raise e) Q E
  unfolding ◌>>=◌
  raise-Ends e h = record { at = h }

  pub gets-Ends : (f : S → A) → ((s : S) → P s → Q (f s) s) → Ends P (gets f) Q E
  unfolding ◌>>=◌
  gets-Ends f h = record { at = h }

module _ {S : Type 0} {P : S → Type 0} {Q : Unit {0} → S → Type 0} {E : S → Type 0} where
  pub modify-Ends : (f : S → S) → ((s : S) → P s → Q tt (f s)) → Ends P (modify f) Q E
  unfolding ◌>>=◌
  modify-Ends f h = record { at = h }

continue-Ends :
    {S A B : Type 0} {Q : A → S → Type 0} {R : B → S → Type 0} {E : S → Type 0} (f : A → Action S B)
    (r : Result Exn A × S)
    → ((a : A) → Ends (Q a) (f a) R E)
    → Ended Q E r
    → Ended R E (continue r.0 f r.1)
continue-Ends f (ok a, s) hf q = (hf a).at s q
continue-Ends f (err e, s) hf q = q

-- A weaker statement.
pub weaken-Ends :
    {S A : Type 0} {P : S → Type 0} {Q R : A → S → Type 0} {E F : S → Type 0} {m : Action S A}
    → Ends P m Q E
    → ((a : A) (s : S) → Q a s → R a s)
    → ((s : S) → E s → F s)
    → Ends P m R F
weaken-Ends {Q = Q} {R = R} {E = E} {F = F} {m = m} h q e = record {
  at = λ s p. go (m s) (h.at s p);
}
  where
    go : (r : Result Exn _ × _) → Ended Q E r → Ended R F r
    go (ok a, s) k = q a s k
    go (err x, s) k = e s k

-- What the precondition says of no state.
pub given-Ends :
    {S A : Type 0} {X : Type 0} {P : S → Type 0} {m : Action S A} {Q : A → S → Type 0}
    {E : S → Type 0}
    → (X → Ends P m Q E)
    → Ends (λ s. X × P s) m Q E
given-Ends h = record { at = λ s p. (h p.0).at s p.1 }

module _ {S A B : Type 0} {P : S → Type 0} {Q : A → S → Type 0} {R : B → S → Type 0}
    {E : S → Type 0} where
  pub bind-Ends :
      (m : Action S A) (f : A → Action S B)
      → Ends P m Q E
      → ((a : A) → Ends (Q a) (f a) R E)
      → Ends P (m >>= f) R E
  unfolding ◌>>=◌
  bind-Ends m f hm hf = record { at = λ s h. continue-Ends f (m s) hf (hm.at s h) }
