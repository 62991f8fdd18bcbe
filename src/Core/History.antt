-- ===== src/Core/History.antt =====
-- core/services/alert_history.py: what is known of the other sessions of a source address. The
-- window's bound is a time zone aware datetime, or a naive one, which is refused.
pub mod Picked
pub mod Counted
use sentinel_brief.Prelude.{
  ℕ, ◌+◌, ◌-◌, ◌*◌, String, Bool, true, false, not, ◌&&◌, ◌==◌, ◌==ₛ◌, leb, min, Option, none, some,
  List, [], ◌∷◌, length, Result, ok, err, if◌then◌else◌,
}
use sentinel_brief.Core.Errors.{Exn}
use sentinel_brief.Core.Verdict.{VerdictCategory, category_index}
use sentinel_brief.Core.Database.{AlertRow, VerdictRow, Db}
use sentinel_brief.Core.Reads.{Columns, latest_verdict}

pub record AlertHistory : Type 0 where
  pub count : ℕ
  pub first_seen : Option ℕ
  -- by the index of the category
  pub categories : ℕ → ℕ

pub record Since : Type 0 where
  pub aware : Bool
  pub time : ℕ

abbrev is_other : Option String → AlertRow → Bool
is_other none row = true
is_other (some fingerprint) row = not (row.fingerprint ==ₛ fingerprint)

module _ (columns : Columns) where
  -- The WHERE of both statements.
  unfoldable pub selects : String → ℕ → Option String → AlertRow → Bool
  selects src_ip since exclude row =
      row.raw.src_ip ==ₛ src_ip && leb since (columns.received_at row.id) && is_other exclude row

  unfoldable pub select_alerts : String → ℕ → Option String → List AlertRow → List AlertRow
  unfolding selects
  select_alerts src_ip since exclude [] = []
  select_alerts src_ip since exclude (row ∷ rows) =
      let rest = select_alerts src_ip since exclude rows in
      if selects src_ip since exclude row then row ∷ rest else rest

  abbrev pub earliest : ℕ → Option ℕ → Option ℕ
  earliest t none = some t
  earliest t (some u) = some (min t u)

  -- `min(received_at)`
  unfoldable pub first_received : List AlertRow → Option ℕ
  first_received [] = none
  first_received (row ∷ rows) = earliest (columns.received_at row.id) (first_received rows)

  abbrev pub is_category : ℕ → Option VerdictRow → Bool
  is_category k none = false
  is_category k (some v) = category_index v.category == k

  -- The inner join with the latest verdicts, grouped by the category.
  unfoldable pub count_category : List VerdictRow → ℕ → List AlertRow → ℕ
  unfolding latest_verdict
  count_category verdicts k [] = 0
  count_category verdicts k (row ∷ rows) =
      let rest = count_category verdicts k rows in
      if is_category k (latest_verdict columns row.id verdicts) then rest + 1 else rest

  unfoldable pub get_alert_history : String → Since → Option String → Db → Result Exn AlertHistory
  unfolding select_alerts first_received count_category
  get_alert_history src_ip since exclude db =
      if not since.aware
      then err (Exn.other "ValueError")
      else (let rows = select_alerts src_ip since.time exclude db.alerts in
          ok (record {
            count = length rows;
            first_seen = first_received rows;
            categories = λ k. count_category db.verdicts k rows;
          }))

-- worker/tools/alert_history.py: the tool over this service. An argument of another type is none;
-- `canonical_ip` is what the ipaddress module makes of an address.
pub record HistoryArguments : Type 0 where
  pub ip : Option String
  pub window_hours : Option ℕ

pub data HistoryReply : Type 0 where
  unavailable : String → HistoryReply
  answered : String → ℕ → AlertHistory → HistoryReply

-- What the query gives under its SAVEPOINT: the tables, or a SQLAlchemyError.
pub data DbSession : Type 0 where
  absent failing : DbSession
  opened : Db → DbSession

abbrev hour : ℕ
hour = 3600000000

module _ (columns : Columns) (canonical_ip : String → Option String) where
  abbrev reply_of : String → ℕ → Result Exn AlertHistory → HistoryReply
  reply_of ip hours (ok history) = HistoryReply.answered ip hours history
  reply_of ip hours (err e) = HistoryReply.unavailable "database_error"

  abbrev queried : String → ℕ → ℕ → String → DbSession → HistoryReply
  queried ip hours now fingerprint DbSession.absent = HistoryReply.unavailable "no_database"
  queried ip hours now fingerprint DbSession.failing = HistoryReply.unavailable "database_error"
  queried ip hours now fingerprint (DbSession.opened db) = reply_of ip hours (
      get_alert_history columns ip (record { aware = true; time = now - hours * hour })
        (some fingerprint) db)

  abbrev windowed : ℕ → String → Option ℕ → ℕ → String → DbSession → HistoryReply
  windowed max_hours ip none now fingerprint session = HistoryReply.unavailable "invalid_arguments"
  windowed max_hours ip (some hours) now fingerprint session =
      if hours == 0
      then HistoryReply.unavailable "invalid_arguments"
      else queried ip (min hours max_hours) now fingerprint session

  abbrev canonical : ℕ → Option String → Option ℕ → ℕ → String → DbSession → HistoryReply
  canonical max_hours none hours now fingerprint session =
      HistoryReply.unavailable "invalid_arguments"
  canonical max_hours (some ip) hours now fingerprint session =
      windowed max_hours ip hours now fingerprint session

  abbrev given_ip : Option String → Option String
  given_ip none = none
  given_ip (some ip) = canonical_ip ip

  unfoldable pub alert_history_run : ℕ → HistoryArguments → ℕ → String → DbSession → HistoryReply
  unfolding get_alert_history
  alert_history_run max_hours arguments now fingerprint session =
      canonical max_hours (given_ip arguments.ip) arguments.window_hours now fingerprint session
