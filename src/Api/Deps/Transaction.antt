-- ===== src/Api/Deps/Transaction.antt =====
-- api/deps.py: a route in its session commits what it wrote, or keeps what was committed before.
use sentinel_brief.Prelude.{◌≡◌, ◌⊎◌, inl, inr, Result, ok, err}
use sentinel_brief.Core.Database.{Db}
use sentinel_brief.Core.Errors.{Exn}
use sentinel_brief.Core.Session.{Database, Session, commit, open_session, rolled_back}
use sentinel_brief.Action.{Action, pure, ◌>>=◌, ◌>>◌}
use sentinel_brief.Action.Ends.{Ended, Ends, pure-Ends, bind-Ends, given-Ends, weaken-Ends}
use sentinel_brief.Api.Deps.{in_session}
use sentinel_brief.Core.Session.Sees.{Sees, Kept, commit-Ends}

-- One of two versions of the tables is committed, the second only under `Y`, and no transaction is
-- left open.
abbrev pub OneOf : {W : Type 0} → Type 0 → Db → Db → Session W → Type 0
OneOf Y c d s = Sees c c s ⊎ (Y × Sees d d s)

abbrev pub KeptOneOf : {W : Type 0} → Type 0 → Db → Db → Session W → Type 0
KeptOneOf Y c d s = Kept c s ⊎ (Y × Kept d s)

-- What a route writes is committed by it, or is still to be.
abbrev pub Written : {W : Type 0} → Type 0 → Db → Db → Session W → Type 0
Written Y c d s = Sees c d s ⊎ (Y × Sees d d s)

module _ {W A : Type 0} (c d : Db) (database : Database W) (route : Action (Session W) A)
    (X : A → Type 0) (Y : Type 0) where
  committed_route :
      Ends (Sees c c) route (λ a s. X a × Written Y c d s) (KeptOneOf Y c d)
      → Ends
          (Sees c c)
          (do a ← route; commit database; pure a)
          (λ a s. X a × Sees d d s)
          (KeptOneOf Y c d)
  committed_route h = bind-Ends _ _ h (λ a. given-Ends (λ x.
      bind-Ends {Q = λ _. Sees d d} _ _ (record { at = λ s k. either s k })
        (λ _. pure-Ends a (λ s k. (x, k)))))
    where
      either :
          (s : Session W)
          → Written Y c d s
          → Ended (λ _. Sees d d) (KeptOneOf Y c d) (commit database s)
      either s (inl k) =
          (weaken-Ends {F = KeptOneOf Y c d} (commit-Ends database) (λ u t q. q) (λ t q. inl q)).at
            s k
      either s (inr (y, k)) =
          (weaken-Ends {F = KeptOneOf Y c d} (commit-Ends database) (λ u t q. q)
              (λ t q. inr (y, q))).at
            s k

  rolled_back-OneOf :
      (Q : A → Session W → Type 0) (r : Result Exn A × Session W)
      → Ended Q (KeptOneOf Y c d) r
      → Ended Q (OneOf Y c d) (rolled_back r)
  rolled_back-OneOf Q (ok a, s) h = h
  rolled_back-OneOf Q (err e, s) (inl h) = inl (h, h)
  rolled_back-OneOf Q (err e, s) (inr (y, h)) = inr (y, (h, h))

  pub in_session-Ended :
      (s : Session W)
      → s.committed ≡ c
      → Ends (Sees c c) route (λ a s. X a × Written Y c d s) (KeptOneOf Y c d)
      → Ended (λ a s. X a × Sees d d s) (OneOf Y c d) (in_session database route s)
  unfolding in_session
  in_session-Ended s e h =
      rolled_back-OneOf (λ a s. X a × Sees d d s)
        ((do a ← route; commit database; pure a) (open_session s))
        ((committed_route h).at (open_session s) (e, e))
