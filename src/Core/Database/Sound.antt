-- ===== src/Core/Database/Sound.antt =====
-- core/models: what always holds of the three tables, and that each write keeps it.
use mathlib.Core.Path.{subst}
use sentinel_brief.Prelude.{
  ℕ, ◌+◌, ◌<◌, ◌≡◌, ◌≢◌, refl, sym, ◌==◌, ==_iff, Bool, true, false, some, List, [], ◌∷◌, ◌++◌, All,
  All-map, All-append, ◌⊎◌, inl, inr, arith, if◌then◌else◌,
}
use sentinel_brief.Core.Database.{
  AlertStatus, AlertRow, VerdictRow, ToolCallRow, Db, find_alert, update_status,
}

-- There is a verdict of this alert; there is one with this key.
abbrev pub HasVerdictOf : ℕ → List VerdictRow → Type 0
HasVerdictOf alert_id [] = ⊥
HasVerdictOf alert_id (v ∷ vs) = (v.alert_id ≡ alert_id) ⊎ HasVerdictOf alert_id vs

abbrev pub HasVerdict : ℕ → List VerdictRow → Type 0
HasVerdict id [] = ⊥
HasVerdict id (v ∷ vs) = (v.id ≡ id) ⊎ HasVerdict id vs

abbrev pub HasAlert : ℕ → List AlertRow → Type 0
HasAlert id [] = ⊥
HasAlert id (r ∷ rs) = (r.id ≡ id) ⊎ HasAlert id rs

-- A triaged alert has a verdict.
abbrev pub StatusSound : List VerdictRow → AlertRow → AlertStatus → Type 0
StatusSound vs row AlertStatus.triaged = HasVerdictOf row.id vs
StatusSound vs row AlertStatus.pending = Unit
StatusSound vs row AlertStatus.failed = Unit

abbrev pub Unique : List AlertRow → Type 0
Unique [] = Unit
Unique (r ∷ rs) = All (λ x. x.id ≢ r.id) rs × Unique rs

abbrev pub UniqueVerdicts : List VerdictRow → Type 0
UniqueVerdicts [] = Unit
UniqueVerdicts (v ∷ vs) = All (λ x. x.id ≢ v.id) vs × UniqueVerdicts vs

-- The foreign keys hold, every key is below the next one, no two alerts and no two verdicts share a
-- key, and every triaged alert has a verdict.
pub record Sound (db : Db) : Type 0 where
  pub fresh : All (λ r. r.id < db.next_id) db.alerts
  pub unique : Unique db.alerts
  pub fresh_verdicts : All (λ v. v.id < db.next_id) db.verdicts
  pub unique_verdicts : UniqueVerdicts db.verdicts
  pub triaged : All (λ r. StatusSound db.verdicts r r.status) db.alerts
  pub verdicts : All (λ v. HasAlert v.alert_id db.alerts) db.verdicts
  pub tool_calls : All (λ t. HasVerdict t.verdict_id db.verdicts) db.tool_calls

HasVerdictOf-append :
    (id : ℕ) (vs ws : List VerdictRow) → HasVerdictOf id vs → HasVerdictOf id (vs ++ ws)
HasVerdictOf-append id [] ws h = absurd h
HasVerdictOf-append id (v ∷ vs) ws (inl e) = inl e
HasVerdictOf-append id (v ∷ vs) ws (inr h) = inr (HasVerdictOf-append id vs ws h)

pub HasVerdictOf-last :
    (id : ℕ) (vs : List VerdictRow) (v : VerdictRow)
    → v.alert_id ≡ id
    → HasVerdictOf id (vs ++ (v ∷ []))
HasVerdictOf-last id [] v e = inl e
HasVerdictOf-last id (w ∷ vs) v e = inr (HasVerdictOf-last id vs v e)

HasVerdict-append : (id : ℕ) (vs ws : List VerdictRow) → HasVerdict id vs → HasVerdict id (vs ++ ws)
HasVerdict-append id [] ws h = absurd h
HasVerdict-append id (v ∷ vs) ws (inl e) = inl e
HasVerdict-append id (v ∷ vs) ws (inr h) = inr (HasVerdict-append id vs ws h)

HasVerdict-last :
    (id : ℕ) (vs : List VerdictRow) (v : VerdictRow) → v.id ≡ id → HasVerdict id (vs ++ (v ∷ []))
HasVerdict-last id [] v e = inl e
HasVerdict-last id (w ∷ vs) v e = inr (HasVerdict-last id vs v e)

HasAlert-append : (id : ℕ) (rs ss : List AlertRow) → HasAlert id rs → HasAlert id (rs ++ ss)
HasAlert-append id [] ss h = absurd h
HasAlert-append id (r ∷ rs) ss (inl e) = inl e
HasAlert-append id (r ∷ rs) ss (inr h) = inr (HasAlert-append id rs ss h)

module _ (id : ℕ) (status : AlertStatus) where
  HasAlert-update :
      (key : ℕ) (rs : List AlertRow) → HasAlert key rs → HasAlert key (update_status id status rs)
  unfolding update_status
  HasAlert-update key [] h = absurd h
  HasAlert-update key (r ∷ rs) h = ground (arith, HasAlert-update key rs)

  -- A property of rows that the status has no part in.
  All-update :
      (P : ℕ → Type 0) (rs : List AlertRow)
      → All (λ r. P r.id) rs
      → All (λ r. P r.id) (update_status id status rs)
  unfolding update_status
  All-update P [] h = tt
  All-update P (r ∷ rs) h = by_test (r.id == id) (All-update P rs h.1)
    where
      by_test :
          (b : Bool)
          → All (λ x. P x.id) (update_status id status rs)
          → All
              (λ x. P x.id)
              (if b then record r { status = status } ∷ rs else r ∷ update_status id status rs)
      by_test true rest = h
      by_test false rest = (h.0, rest)

  Unique-update : (rs : List AlertRow) → Unique rs → Unique (update_status id status rs)
  unfolding update_status
  Unique-update [] h = tt
  Unique-update (r ∷ rs) h = by_test (r.id == id) (Unique-update rs h.1)
    where
      by_test :
          (b : Bool)
          → Unique (update_status id status rs)
          → Unique (if b then record r { status = status } ∷ rs else r ∷ update_status id status rs)
      by_test true rest = h
      by_test false rest = (All-update (λ x. x ≢ r.id) rs h.0, rest)

  StatusSound-update :
      (vs : List VerdictRow) (rs : List AlertRow)
      → ((r : AlertRow) → r.id ≡ id → StatusSound vs r status)
      → All (λ r. StatusSound vs r r.status) rs
      → All (λ r. StatusSound vs r r.status) (update_status id status rs)
  unfolding update_status
  StatusSound-update vs [] f h = tt
  StatusSound-update vs (r ∷ rs) f h = by_test (r.id == id) refl (StatusSound-update vs rs f h.1)
    where
      row : AlertRow
      row = record r { status = status }

      by_test :
          (b : Bool)
          → (r.id == id) ≡ b
          → All (λ x. StatusSound vs x x.status) (update_status id status rs)
          → All
              (λ x. StatusSound vs x x.status)
              (if b then row ∷ rs else r ∷ update_status id status rs)
      by_test true e rest = (f row ((==_iff r.id id).0 e), h.1)
      by_test false e rest = (h.0, rest)

StatusSound-append :
    (vs ws : List VerdictRow) (r : AlertRow) (status : AlertStatus)
    → StatusSound vs r status
    → StatusSound (vs ++ ws) r status
StatusSound-append vs ws r AlertStatus.triaged h = HasVerdictOf-append r.id vs ws h
StatusSound-append vs ws r AlertStatus.pending h = tt
StatusSound-append vs ws r AlertStatus.failed h = tt

-- A status that needs no verdict is written on any row.
pub put_status-Sound :
    (id : ℕ) (status : AlertStatus) (db : Db)
    → ((r : AlertRow) → r.id ≡ id → StatusSound db.verdicts r status)
    → Sound db
    → Sound (record db { alerts = update_status id status db.alerts })
put_status-Sound id status db f h = record {
  fresh = All-update id status (λ x. x < db.next_id) db.alerts h.fresh;
  unique = Unique-update id status db.alerts h.unique;
  fresh_verdicts = h.fresh_verdicts;
  unique_verdicts = h.unique_verdicts;
  triaged = StatusSound-update id status db.verdicts db.alerts f h.triaged;
  verdicts = All-map db.verdicts (λ v. HasAlert-update id status v.alert_id db.alerts) h.verdicts;
  tool_calls = h.tool_calls;
}

HasAlert-find :
    (id : ℕ) (rs : List AlertRow) (row : AlertRow) → find_alert id rs ≡ some row → HasAlert id rs
unfolding find_alert
HasAlert-find id [] row e = cc
HasAlert-find id (r ∷ rs) row e = ground (arith, HasAlert-find id rs row)

UniqueVerdicts-append :
    (vs : List VerdictRow) (v : VerdictRow)
    → All (λ w. w.id < v.id) vs
    → UniqueVerdicts vs
    → UniqueVerdicts (vs ++ (v ∷ []))
UniqueVerdicts-append [] v h u = (tt, tt)
UniqueVerdicts-append (w ∷ vs) v h u =
    (All-append _ vs (v ∷ []) u.0 ((λ e. omega arith), tt), UniqueVerdicts-append vs v h.1 u.1)

-- A verdict under the next key, of an alert that exists, with the trace of its tool calls.
pub add_verdict-Sound :
    (db : Db) (v : VerdictRow) (ts : List ToolCallRow) (row : AlertRow)
    → v.id ≡ db.next_id
    → find_alert v.alert_id db.alerts ≡ some row
    → All (λ t. t.verdict_id ≡ v.id) ts
    → Sound db
    → Sound (record db {
      verdicts = db.verdicts ++ (v ∷ []);
      tool_calls = db.tool_calls ++ ts;
      next_id = db.next_id + 1;
    })
add_verdict-Sound db v ts row e f g h = record {
  fresh = All-map db.alerts (λ r k. omega arith) h.fresh;
  unique = h.unique;
  fresh_verdicts =
      All-append _ db.verdicts (v ∷ []) (All-map db.verdicts (λ w k. omega arith) h.fresh_verdicts)
        (omega arith, tt);
  unique_verdicts =
      UniqueVerdicts-append db.verdicts v
        (All-map db.verdicts (λ w k. omega arith) h.fresh_verdicts) h.unique_verdicts;
  triaged = All-map db.alerts (λ r. StatusSound-append db.verdicts (v ∷ []) r r.status) h.triaged;
  verdicts =
      All-append _ db.verdicts (v ∷ []) h.verdicts (HasAlert-find v.alert_id db.alerts row f, tt);
  tool_calls =
      All-append _ db.tool_calls ts
        (All-map db.tool_calls (λ t. HasVerdict-append t.verdict_id db.verdicts (v ∷ []))
          h.tool_calls)
        (All-map ts (λ t e. HasVerdict-last t.verdict_id db.verdicts v (sym e)) g);
}

Unique-append :
    (rs : List AlertRow) (row : AlertRow)
    → All (λ r. r.id < row.id) rs
    → Unique rs
    → Unique (rs ++ (row ∷ []))
Unique-append [] row h u = (tt, tt)
Unique-append (r ∷ rs) row h u =
    (All-append _ rs (row ∷ []) u.0 ((λ e. omega arith), tt), Unique-append rs row h.1 u.1)

-- A new pending alert under the next key.
pub add_alert-Sound :
    (db : Db) (row : AlertRow)
    → row.id ≡ db.next_id
    → row.status ≡ AlertStatus.pending
    → Sound db
    → Sound (record db { alerts = db.alerts ++ (row ∷ []); next_id = db.next_id + 1 })
add_alert-Sound db row e p h = record {
  fresh =
      All-append _ db.alerts (row ∷ []) (All-map db.alerts (λ r k. omega arith) h.fresh)
        (omega arith, tt);
  unique = Unique-append db.alerts row (All-map db.alerts (λ r k. omega arith) h.fresh) h.unique;
  fresh_verdicts = All-map db.verdicts (λ v k. omega arith) h.fresh_verdicts;
  unique_verdicts = h.unique_verdicts;
  triaged =
      All-append _ db.alerts (row ∷ []) h.triaged
        (subst (StatusSound db.verdicts row) (sym p) tt, tt);
  verdicts = All-map db.verdicts (λ v. HasAlert-append v.alert_id db.alerts (row ∷ [])) h.verdicts;
  tool_calls = h.tool_calls;
}
