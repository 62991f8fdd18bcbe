-- ===== src/Core/Reads.antt =====
-- core/services/alerts_read.py: the list and the detail of the alerts, and get_alert_history. The
-- columns that the server fills, `received_at` and `created_at`, are functions of the row's key;
-- what a tool's result holds under "country" is the json module's.
pub mod Latest
pub mod Matched
pub mod Paged
use sentinel_brief.Prelude.{
  Text, codes, ℕ, ◌+◌, ◌-◌, ◌*◌, String, Bool, true, false, not, ◌&&◌, ◌||◌, ◌==◌, ◌==ₛ◌, leb, ltb,
  Option, none, some, List, [], ◌∷◌, length, take, drop, map, Result, ok, err, if◌then◌else◌,
}
use sentinel_brief.Core.Errors.{Exn}
use sentinel_brief.Core.Alert.{SessionAlert}
use sentinel_brief.Core.Verdict.{VerdictCategory, category_index}
use sentinel_brief.Core.Database.{AlertStatus, AlertRow, VerdictRow, ToolCallRow, Db, find_alert}

pub record Columns : Type 0 where
  pub received_at : ℕ → ℕ
  pub created_at : ℕ → ℕ
  pub country_of : Text → Option Text

abbrev pub geo_tool_name : String
geo_tool_name = "get_ip_geo_asn"

abbrev is_upper : ℕ → Bool
is_upper c = leb 0x41 c && leb c 0x5a

abbrev two_upper : Text → Option Text
two_upper (a ∷ b ∷ []) = if is_upper a && is_upper b then some (a ∷ b ∷ []) else none
two_upper _ = none

-- Two upper-case letters, or none.
unfoldable pub normalize_country : Option Text → Option Text
normalize_country none = none
normalize_country (some t) = two_upper t

-- `severity_gte`, `category`, `escalate` and `since`.
pub record ListFilters : Type 0 where
  pub severity_gte : Option ℕ
  pub category : Option VerdictCategory
  pub escalate : Option Bool
  pub since : Option ℕ

-- A row of the join, and the summary of its verdict.
pub record Joined : Type 0 where
  pub alert : AlertRow
  pub verdict : Option VerdictRow

pub record VerdictSummary : Type 0 where
  pub severity : ℕ
  pub category : VerdictCategory
  pub confidence : ℕ
  pub escalate : Bool
  pub reasoning_excerpt : Text
  pub created_at : ℕ

pub record AlertSummary : Type 0 where
  pub id : ℕ
  pub source : String
  pub src_ip : String
  pub sensor : String
  pub event_time : ℕ
  pub received_at : ℕ
  pub status : AlertStatus
  pub country : Option Text
  pub verdict : Option VerdictSummary

pub record AlertDetail : Type 0 where
  pub alert : AlertRow
  pub received_at : ℕ
  pub country : Option Text
  pub verdict : Option VerdictRow
  pub tool_calls : List ToolCallRow

abbrev pub satisfies {ℓ} : {A : Type ℓ} → Option A → (A → Bool) → Bool
satisfies none p = true
satisfies (some a) p = p a

abbrev same_bool : Bool → Bool → Bool
same_bool true b = b
same_bool false b = not b

-- A filter on a verdict's field is false of an alert that has no verdict.
abbrev pub verdict_is : Option VerdictRow → (VerdictRow → Bool) → Bool
verdict_is none p = false
verdict_is (some v) p = p v

-- `ORDER BY seq`
unfoldable pub insert_call : ToolCallRow → List ToolCallRow → List ToolCallRow
insert_call c [] = c ∷ []
insert_call c (x ∷ xs) = if leb c.seq x.seq then c ∷ x ∷ xs else x ∷ insert_call c xs

-- The tool calls of a verdict, in order.
unfoldable pub tool_calls_of : ℕ → List ToolCallRow → List ToolCallRow
unfolding insert_call
tool_calls_of verdict_id [] = []
tool_calls_of verdict_id (c ∷ cs) =
    if c.verdict_id == verdict_id
    then insert_call c (tool_calls_of verdict_id cs)
    else tool_calls_of verdict_id cs

-- `.offset((page - 1) * page_size).limit(page_size)`
unfoldable pub page_of {ℓ} : {A : Type ℓ} → ℕ → ℕ → List A → List A
page_of page page_size rows = take page_size (drop ((page - 1) * page_size) rows)

module _ (columns : Columns) where
  -- `ORDER BY created_at DESC, id DESC`: whether `v` comes before `w`.
  abbrev pub newer : VerdictRow → VerdictRow → Bool
  newer v w =
      ltb (columns.created_at w.id) (columns.created_at v.id)
      || (columns.created_at v.id == columns.created_at w.id && ltb w.id v.id)

  abbrev pub newer_of : VerdictRow → Option VerdictRow → Option VerdictRow
  newer_of v none = some v
  newer_of v (some w) = some (if newer w v then w else v)

  -- `DISTINCT ON (alert_id)`: the latest verdict of an alert.
  unfoldable pub latest_verdict : ℕ → List VerdictRow → Option VerdictRow
  latest_verdict alert_id [] = none
  latest_verdict alert_id (v ∷ vs) =
      if v.alert_id == alert_id
      then newer_of v (latest_verdict alert_id vs)
      else latest_verdict alert_id vs

  unfoldable pub matches : ListFilters → Joined → Bool
  matches f row =
      satisfies f.severity_gte (λ s. verdict_is row.verdict (λ v. leb s v.severity))
      && satisfies f.category
          (λ c. verdict_is row.verdict (λ v. category_index v.category == category_index c))
      && satisfies f.escalate (λ e. verdict_is row.verdict (λ v. same_bool e v.escalate))
      && satisfies f.since (λ t. leb t (columns.received_at row.alert.id))

  -- The outer join and its WHERE.
  unfoldable pub base_rows : ListFilters → List VerdictRow → List AlertRow → List Joined
  unfolding latest_verdict matches
  base_rows f verdicts [] = []
  base_rows f verdicts (a ∷ as') =
      let row : Joined = record { alert = a; verdict = latest_verdict a.id verdicts } in
      let rest = base_rows f verdicts as' in if matches f row then row ∷ rest else rest

  -- One above the severity, so that no verdict sorts last.
  abbrev pub severity_key : Option VerdictRow → ℕ
  severity_key none = 0
  severity_key (some v) = v.severity + 1

  -- `severity DESC NULLS LAST, received_at DESC, id DESC`
  unfoldable pub comes_before : Joined → Joined → Bool
  comes_before x y =
      let sx = severity_key x.verdict in
      let sy = severity_key y.verdict in
      let rx = columns.received_at x.alert.id in
      let ry = columns.received_at y.alert.id in
      ltb sy sx || (sx == sy && (ltb ry rx || (rx == ry && leb y.alert.id x.alert.id)))

  unfoldable pub insert_row : Joined → List Joined → List Joined
  unfolding comes_before
  insert_row x [] = x ∷ []
  insert_row x (y ∷ ys) = if comes_before x y then x ∷ y ∷ ys else y ∷ insert_row x ys

  unfoldable pub order_rows : List Joined → List Joined
  unfolding insert_row
  order_rows [] = []
  order_rows (x ∷ xs) = insert_row x (order_rows xs)

  abbrev first_geo : List ToolCallRow → Option Text
  first_geo [] = none
  first_geo (c ∷ cs) =
      if c.tool_name ==ₛ geo_tool_name then columns.country_of c.result else first_geo cs

  -- The country of the first geo call of a verdict.
  unfoldable pub country_for : Option VerdictRow → List ToolCallRow → Option Text
  unfolding tool_calls_of normalize_country
  country_for none calls = none
  country_for (some v) calls = normalize_country (first_geo (tool_calls_of v.id calls))

  abbrev summarize : VerdictRow → VerdictSummary
  summarize v = record {
    severity = v.severity;
    category = v.category;
    confidence = v.confidence;
    escalate = v.escalate;
    reasoning_excerpt = take 160 (codes v.reasoning);
    created_at = columns.created_at v.id;
  }

  abbrev summary_of : Option VerdictRow → Option VerdictSummary
  summary_of none = none
  summary_of (some v) = some (summarize v)

  unfoldable pub alert_summary : List ToolCallRow → Joined → AlertSummary
  unfolding country_for
  alert_summary calls row = record {
    id = row.alert.id;
    source = row.alert.source;
    src_ip = row.alert.raw.src_ip;
    sensor = row.alert.raw.sensor;
    event_time = row.alert.event_time;
    received_at = columns.received_at row.alert.id;
    status = row.alert.status;
    country = country_for row.verdict calls;
    verdict = summary_of row.verdict;
  }

  unfoldable pub list_alerts : ListFilters → ℕ → ℕ → Db → List AlertSummary × ℕ
  unfolding base_rows order_rows page_of alert_summary
  list_alerts filters page page_size db =
      let base = base_rows filters db.verdicts db.alerts in
      (map (alert_summary db.tool_calls) (page_of page page_size (order_rows base)), length base)

  abbrev detail_of : Db → AlertRow → Option VerdictRow → AlertDetail
  detail_of db row none = record {
    alert = row;
    received_at = columns.received_at row.id;
    country = none;
    verdict = none;
    tool_calls = [];
  }
  detail_of db row (some v) = record {
    alert = row;
    received_at = columns.received_at row.id;
    country = country_for (some v) db.tool_calls;
    verdict = some v;
    tool_calls = tool_calls_of v.id db.tool_calls;
  }

  abbrev detail : Db → Option AlertRow → Result Exn AlertDetail
  detail db none = err Exn.not_found
  detail db (some row) = ok (detail_of db row (latest_verdict row.id db.verdicts))

  unfoldable pub get_alert_detail : ℕ → Db → Result Exn AlertDetail
  unfolding latest_verdict country_for tool_calls_of find_alert
  get_alert_detail alert_id db = detail db (find_alert alert_id db.alerts)
