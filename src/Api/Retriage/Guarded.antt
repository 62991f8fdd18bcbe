-- ===== src/Api/Retriage/Guarded.antt =====
-- api/routes/admin.py: what a retriage request leaves in the tables, on every path.
use sentinel_brief.Prelude.{
  ℕ, ◌<◌, ◌≡◌, refl, ap, sym, Bool, true, false, not, ltb, lt→ltb, inl, inr, Option, none, some,
  Result, ok, err, if◌then◌else◌,
}
use sentinel_brief.Core.Database.{AlertStatus, AlertRow, Db, find_alert}
use sentinel_brief.Core.Errors.{Exn}
use sentinel_brief.Core.Queue.{Queue, enqueue_triage}
use sentinel_brief.Core.Queue.Enqueued.{enqueue_triage-Ends}
use sentinel_brief.Core.Session.{Database, Session, commit, select_for_update, rollback}
use sentinel_brief.Core.Session.Sees.{Sees, Kept, flush-Ends, commit-Ends, select_for_update-Ends}
use sentinel_brief.Action.{pure, raise, ◌>>=◌, ◌>>◌}
use sentinel_brief.Action.Ends.{
  Ended, Ends, pure-Ends, raise-Ends, gets-Ends, modify-Ends, bind-Ends, given-Ends, weaken-Ends,
}
use sentinel_brief.Api.Deps.{in_session}
use sentinel_brief.Api.Deps.Transaction.{OneOf, KeptOneOf, Written, in_session-Ended}
use sentinel_brief.Api.Retriage.{
  Cap, is_retriable, capped_by, check_daily_retriage_cap, locked_or_conflict, lock_row,
  get_alert_for_retriage_update, flip_alert_to_pending, retriage_route, retriage_alert,
}
use sentinel_brief.Worker.Store.{put_status}

-- The alert is there, triaged or failed.
abbrev pub Retriable : ℕ → Db → Type 0
Retriable alert_id c =
    (row : AlertRow) × (find_alert alert_id c.alerts ≡ some row) × (is_retriable row.status ≡ true)

-- The tables with the alert pending again.
abbrev pub reopened : ℕ → Db → Db
reopened alert_id c = put_status alert_id AlertStatus.pending c

module _ {W : Type 0} (database : Database W) (queue : Queue W) (cap : Cap W) where
  capped_by-Ended :
      (c : Db) (s : Session W) (r : Option ℕ × W)
      → Sees c c s
      → Ended (λ _. Sees c c) (Kept c) (capped_by database queue cap s r)
  capped_by-Ended c s (none, w) h = h.0
  capped_by-Ended c s (some n, w) h = by_test (ltb cap.retriage_per_day n)
    where
      by_test :
          (b : Bool)
          → Ended {S = Session W}
              (λ _. Sees c c)
              (Kept c)
              (if b
                then (err (Exn.rate_limited none), record s { world = w })
                else (ok tt, record s { world = w }))
      by_test true = h.0
      by_test false = h

  check_daily_retriage_cap-Ends :
      (c : Db)
      → Ends (Sees c c) (check_daily_retriage_cap database queue cap) (λ _. Sees c c) (Kept c)
  unfolding check_daily_retriage_cap
  check_daily_retriage_cap-Ends c = record { at = λ s h. by_test s h (not cap.redis_wired) }
    where
      by_test :
          (s : Session W)
          → Sees c c s
          → (b : Bool)
          → Ended {S = Session W}
              (λ _. Sees c c)
              (Kept c)
              (if b
                then (err Exn.queue_unavailable, s)
                else capped_by database queue cap s (cap.incr s.world))
      by_test s h true = h.0
      by_test s h false = capped_by-Ended c s (cap.incr s.world) h

  locked_or_conflict-Ended :
      (c : Db) (r : Result Exn (Unit {0}) × Session W)
      → Ended (λ _. Sees c c) (Sees c c) r
      → Ended (λ _. Sees c c) (Kept c) (locked_or_conflict database queue cap r)
  locked_or_conflict-Ended c (ok u, s) h = h
  locked_or_conflict-Ended c (err e, s) h = h.0

  lock_row-Ends : (c : Db) → Ends (Sees c c) (lock_row database queue cap) (λ _. Sees c c) (Kept c)
  unfolding lock_row
  lock_row-Ends c = record {
    at = λ s h.
        locked_or_conflict-Ended c (select_for_update database s)
          ((select_for_update-Ends database).at s h);
  }

  found-Ends :
      (c : Db) (alert_id : ℕ) (found : Option AlertRow)
      → find_alert alert_id c.alerts ≡ found
      → Ends {S = Session W}
          (Sees c c)
          (elim found [ none ↦ raise Exn.not_found | some row ↦ pure row ])
          (λ row s. (find_alert alert_id c.alerts ≡ some row) × Sees c c s)
          (Kept c)
  found-Ends c alert_id none e = raise-Ends _ (λ s h. h.0)
  found-Ends c alert_id (some row) e = pure-Ends row (λ s h. (e, h))

  get_alert-Ends :
      (c : Db) (alert_id : ℕ)
      → Ends
          (Sees c c)
          (get_alert_for_retriage_update database queue cap alert_id)
          (λ row s. (find_alert alert_id c.alerts ≡ some row) × Sees c c s)
          (Kept c)
  unfolding get_alert_for_retriage_update
  get_alert-Ends c alert_id = bind-Ends _ _ (flush-Ends database) (λ _.
      bind-Ends _ _ (lock_row-Ends c) (λ _.
        bind-Ends _ _
          (gets-Ends {Q = λ found s. (find_alert alert_id c.alerts ≡ found) × Sees c c s} _
            (λ s h. (ap (λ d. find_alert alert_id d.alerts) (sym h.1), h)))
          (λ found. given-Ends (found-Ends c alert_id found))))

  flip-Ends :
      (c : Db) (alert_id : ℕ)
      → Ends
          (Sees c c)
          (flip_alert_to_pending database queue cap alert_id)
          (λ _. Sees c (reopened alert_id c))
          (Kept c)
  unfolding flip_alert_to_pending
  flip-Ends c alert_id =
      bind-Ends _ _
        (modify-Ends {Q = λ _. Sees c (reopened alert_id c)} _
          (λ s h. (h.0, ap (reopened alert_id) h.1)))
        (λ _. flush-Ends database)

  -- Before the commit an exception keeps the tables; after it the alert is reopened.
  abbrev Left : ℕ → Db → Session W → Type 0
  Left alert_id c = KeptOneOf (Retriable alert_id c) c (reopened alert_id c)

  checked-Ends :
      (c : Db) (alert_id : ℕ) (row : AlertRow)
      → find_alert alert_id c.alerts ≡ some row
      → (b : Bool) → is_retriable row.status ≡ b
      → Ends
          (Sees c c)
          (if not b then raise Exn.conflict else (do
            flip_alert_to_pending database queue cap alert_id
            commit database
            enqueue_triage queue alert_id
            pure tt))
          (λ _ s. Retriable alert_id c × Written (Retriable alert_id c) c (reopened alert_id c) s)
          (Left alert_id c)
  checked-Ends c alert_id row f false p = raise-Ends _ (λ s h. inl h.0)
  checked-Ends c alert_id row f true p =
      bind-Ends _ _
        (weaken-Ends {F = Left alert_id c} (flip-Ends c alert_id) (λ u s k. k) (λ s k. inl k))
        (λ _.
          bind-Ends _ _
            (weaken-Ends {F = Left alert_id c} (commit-Ends database) (λ u s k. k) (λ s k. inl k))
            (λ _.
              bind-Ends _ _
                (weaken-Ends {F = Left alert_id c} (enqueue_triage-Ends queue alert_id) (λ u s k. k)
                  (λ s k. inr ((row, f, p), k)))
                (λ _. pure-Ends tt (λ s k. ((row, f, p), inr ((row, f, p), k))))))

  retriage_route-Ends :
      (c : Db) (alert_id : ℕ)
      → Ends
          (Sees c c)
          (retriage_route database queue cap alert_id)
          (λ _ s. Retriable alert_id c × Written (Retriable alert_id c) c (reopened alert_id c) s)
          (Left alert_id c)
  unfolding retriage_route
  retriage_route-Ends c alert_id =
      bind-Ends _ _
        (weaken-Ends {F = Left alert_id c} (check_daily_retriage_cap-Ends c) (λ u s k. k)
          (λ s k. inl k))
        (λ _.
          bind-Ends _ _
            (weaken-Ends {F = Left alert_id c} (get_alert-Ends c alert_id) (λ u s k. k)
              (λ s k. inl k))
            (λ row. given-Ends (λ f. checked-Ends c alert_id row f (is_retriable row.status) refl)))

-- A retriage request that answers found its alert triaged or failed and has committed it pending.
-- One that raises leaves the tables as they were, or has committed the same change (the queue
-- failed after it); no transaction stays open.
pub retriage_alert_guarded :
    {W : Type 0} (database : Database W) (queue : Queue W) (cap : Cap W) (alert_id : ℕ)
    (s : Session W)
    → Ended
        (λ _ t.
          Retriable alert_id s.committed
          × Sees (reopened alert_id s.committed) (reopened alert_id s.committed) t)
        (OneOf (Retriable alert_id s.committed) s.committed (reopened alert_id s.committed))
        (retriage_alert database queue cap alert_id s)
unfolding retriage_alert
retriage_alert_guarded database queue cap alert_id s =
    in_session-Ended s.committed (reopened alert_id s.committed) database _
      (λ _. Retriable alert_id s.committed) (Retriable alert_id s.committed) s refl
      (retriage_route-Ends database queue cap s.committed alert_id)

-- Over the daily cap a request is refused before the database is asked anything: the counter alone
-- has moved.
retriage_alert-over_cap :
    {W : Type 0} (database : Database W) (queue : Queue W) (cap : Cap W) (alert_id : ℕ)
    (s : Session W) (count : ℕ) (w : W)
    → cap.redis_wired ≡ true
    → cap.incr s.world ≡ (some count, w)
    → cap.retriage_per_day < count
    → retriage_alert database queue cap alert_id s
      ≡ (err (Exn.rate_limited none), record (rollback s) { world = w })
unfolding retriage_alert in_session retriage_route check_daily_retriage_cap ◌>>=◌
retriage_alert-over_cap database queue cap alert_id s count w wired e over =
    rw (wired, e, lt→ltb cap.retriage_per_day count over) refl
