-- ===== src/Core/Session/Sees.antt =====
-- The session: what the open transaction sees, through each statement.
use sentinel_brief.Prelude.{◌≡◌, Option, none, some}
use sentinel_brief.Core.Database.{Db}
use sentinel_brief.Core.Errors.{Exn}
use sentinel_brief.Core.Session.{
  Database, Session, flush, select_for_update, commit, answered_by, committed_by,
}
use sentinel_brief.Action.Ends.{Ended, Ends}

-- The transaction sees `d`, on top of the committed `c`.
abbrev pub Sees : {W : Type 0} → Db → Db → Session W → Type 0
Sees c d s = (s.committed ≡ c) × (s.db ≡ d)

abbrev pub Kept : {W : Type 0} → Db → Session W → Type 0
Kept c s = s.committed ≡ c

module _ {W : Type 0} (database : Database W) where
  answered_by-Ended :
      {c d : Db} (s : Session W) (r : Option Exn × W)
      → Sees c d s
      → Ended (λ _. Sees c d) (Kept c) (answered_by s r)
  answered_by-Ended s (none, w) h = h
  answered_by-Ended s (some e, w) h = h.0

  read-Ended :
      {c d : Db} (s : Session W) (r : Option Exn × W)
      → Sees c d s
      → Ended (λ _. Sees c d) (Sees c d) (answered_by s r)
  read-Ended s (none, w) h = h
  read-Ended s (some e, w) h = h

  committed_by-Ended :
      {c d : Db} (s : Session W) (r : Option Exn × W)
      → Sees c d s
      → Ended (λ _. Sees d d) (Kept c) (committed_by s r)
  committed_by-Ended s (none, w) h = (h.1, h.1)
  committed_by-Ended s (some e, w) h = h.0

  pub flush-Ends : {c d : Db} → Ends (Sees c d) (flush database) (λ _. Sees c d) (Kept c)
  unfolding flush
  flush-Ends = record { at = λ s h. answered_by-Ended s (database.flush s.world) h }

  -- Not in `Kept` form: nothing is written yet, so the transaction sees the same when it raises.
  pub select_for_update-Ends :
      {c : Db} → Ends (Sees c c) (select_for_update database) (λ _. Sees c c) (Sees c c)
  unfolding select_for_update
  select_for_update-Ends = record {
    at = λ s h. read-Ended s (database.select_for_update s.world) h;
  }

  pub commit-Ends : {c d : Db} → Ends (Sees c d) (commit database) (λ _. Sees d d) (Kept c)
  unfolding commit
  commit-Ends = record { at = λ s h. committed_by-Ended s (database.commit s.world) h }
