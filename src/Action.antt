-- ===== src/Action.antt =====
-- A coroutine of the worker: it works on a state and may raise. What was written before a raise
-- stays written, so the state comes back beside the exception too.
pub mod Meets
pub mod Ends
use sentinel_brief.Prelude.{Result, ok, err}
use sentinel_brief.Core.Errors.{Exn}

abbrev pub Action : Type 0 → Type 0 → Type 0
Action S A = S → Result Exn A × S

module _ {S A : Type 0} where
  pub pure : A → Action S A
  pure a s = (ok a, s)

  pub raise : Exn → Action S A
  raise e s = (err e, s)

  pub gets : (S → A) → Action S A
  gets f s = (ok (f s), s)

pub modify : {S : Type 0} → (S → S) → Action S (Unit {0})
modify f s = (ok tt, f s)

module _ {S A B : Type 0} where
  abbrev pub continue : Result Exn A → (A → Action S B) → Action S B
  continue (ok a) f s = f a s
  continue (err e) f s = (err e, s)

  infixl 5 ◌>>=◌ ◌>>◌
  -- Opening this opens the four actions above too.
  unfoldable pub ◌>>=◌ : Action S A → (A → Action S B) → Action S B
  unfolding pure raise gets modify
  ◌>>=◌ m f s = let (r, s') = m s in continue r f s'

  abbrev pub ◌>>◌ : Action S A → Action S B → Action S B
  m >> k = m >>= λ _. k
