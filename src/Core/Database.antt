-- ===== src/Core/Database.antt =====
-- core/models: the three tables, each as the list of its rows. A UUID is a number; `next_id` is
-- above every id in use, so the primary keys that it gives are new.
pub mod Sound
use sentinel_brief.Prelude.{
  Text, ℕ, ◌+◌, String, Bool, Option, none, some, List, [], ◌∷◌, ◌++◌, ◌==◌, if◌then◌else◌,
}
use sentinel_brief.Core.Alert.{SessionAlert}
use sentinel_brief.Core.Verdict.{VerdictCategory}

pub data AlertStatus : Type 0 where
  pending triaged failed : AlertStatus

pub record AlertRow : Type 0 where
  pub id : ℕ
  pub fingerprint : String
  pub source : String
  pub event_time : ℕ
  pub raw : SessionAlert
  pub status : AlertStatus

-- The columns of the tokens, the cost and the latency may be null, but the worker, which alone
-- writes a verdict, fills them.
pub record VerdictRow : Type 0 where
  pub id : ℕ
  pub alert_id : ℕ
  pub severity : ℕ
  pub category : VerdictCategory
  pub confidence : ℕ
  pub reasoning : String
  pub recommended_action : String
  pub escalate : Bool
  pub model_primary : String
  pub model_final : String
  pub escalated_model : Bool
  pub prompt_version : String
  pub input_tokens : ℕ
  pub output_tokens : ℕ
  pub cost_usd : ℕ
  pub latency_ms : ℕ

pub record ToolCallRow : Type 0 where
  pub verdict_id : ℕ
  pub seq : ℕ
  pub tool_name : String
  pub arguments : Text
  pub result : Text
  pub latency_ms : ℕ

pub record Db : Type 0 where
  pub alerts : List AlertRow
  pub verdicts : List VerdictRow
  pub tool_calls : List ToolCallRow
  pub next_id : ℕ

-- The row with a primary key.
unfoldable pub find_alert : ℕ → List AlertRow → Option AlertRow
find_alert id [] = none
find_alert id (row ∷ rows) = if row.id == id then some row else find_alert id rows

-- `row.status = status` on the row with this key.
unfoldable pub update_status : ℕ → AlertStatus → List AlertRow → List AlertRow
update_status id status [] = []
update_status id status (row ∷ rows) =
    if row.id == id
    then record row { status = status } ∷ rows
    else row ∷ update_status id status rows
