-- ===== src/Tests.antt =====
-- A small deployment, and the theorems applied in it: a cheap model that first asks for a tool and
-- then answers with little confidence, and a strong model that it escalates to.
mod Triage
mod Tables
mod Edges
mod Values
mod Tail
mod Evals
mod Reads
mod Client
mod Station
use sentinel_brief.Prelude.{
  Text, codes, ℕ, ◌+◌, String, Bool, true, false, ◌==◌, ◌==ₛ◌, Option, none, some, List, [], ◌∷◌,
  Result, ok, err, if◌then◌else◌,
}
use sentinel_brief.Core.Alert.{CowrieEvent, SessionAlert}
use sentinel_brief.Core.Errors.{Exn}
use sentinel_brief.Core.Llm.{ChatMessage, LlmUsage, LlmResult, LlmError, ToolReply, ToolCallRequest}
use sentinel_brief.Core.Verdict.{Verdict, VerdictCategory}
use sentinel_brief.Core.Database.{AlertStatus, AlertRow, Db}
use sentinel_brief.Core.Session.{Database, Session}
use sentinel_brief.Core.Queue.{Queue}
use sentinel_brief.Pipeline.Seams.{Seams, Pipeline, Totals, RunState, ToolExecution, zero_totals}
use sentinel_brief.Pipeline.Run.Billing.{charge, charge_tools}
use sentinel_brief.Worker.Job.{JobSettings, JobSeams}
use sentinel_brief.Api.Retriage.{Cap}
use sentinel_brief.System.{Deployment}

-- The calls that the client received, its bill, the day's tokens, and whether the database and
-- Redis answer.
pub record World : Type 0 where
  pub calls : ℕ
  pub bill : Totals
  pub tokens : ℕ
  pub up : Bool

abbrev pub quiet : World
quiet = record { calls = 0; bill = zero_totals; tokens = 0; up = true }

abbrev pub usage : LlmUsage
usage = record { input_tokens = 100; output_tokens = 20 }

abbrev pub verdict_with : ℕ → Verdict
verdict_with confidence = record {
  severity = 2;
  category = VerdictCategory.brute_force;
  confidence = confidence;
  reasoning = "ssh logins";
  recommended_action = "block";
  escalate = false;
}

abbrev pub reply_with : String → ℕ → LlmResult
reply_with model confidence = record {
  parsed = verdict_with confidence;
  raw_text = codes "{}";
  model = model;
  usage = usage;
  cost_usd = 30;
  latency_ms = 900;
}

abbrev pub history_call : ToolCallRequest
history_call = record { id = codes "call_1"; name = "get_alert_history"; arguments = codes "{}" }

abbrev answer_structured : String → Result LlmError LlmResult
answer_structured model =
    ok (if model ==ₛ "strong" then reply_with "strong" 9000 else reply_with "cheap" 3000)

abbrev answer_tools : ℕ → Result LlmError ToolReply
answer_tools calls = ok (
    if calls == 0
    then ToolReply.tool_turn (record {
      calls = history_call ∷ [];
      model = "cheap";
      usage = usage;
      cost_usd = 10;
      latency_ms = 400;
    })
    else ToolReply.answer (reply_with "cheap" 3000))

abbrev pub seams : Seams World
seams = record {
  complete_structured = λ msgs model w. (
    answer_structured model,
    record w { calls = w.calls + 1; bill = charge (answer_structured model) w.bill },
  );
  complete_with_tools = λ msgs model w. (
    answer_tools w.calls,
    record w { calls = w.calls + 1; bill = charge_tools (answer_tools w.calls) w.bill },
  );
  redis_get = λ w. (some (some w.tokens), w);
  redis_incrby = λ n w. (some (w.tokens + n), record w { tokens = w.tokens + n });
  execute_tool = λ name args w. (ok (record { result = codes "[]"; latency_ms = 5 }), w);
}

abbrev pub cfg : Pipeline
cfg = record {
  model = "cheap";
  prompt_version = "triage-v1";
  tools = some ("get_alert_history" ∷ []);
  tool_loop_max_iter = 3;
  strong_model = some "strong";
  escalate_severity_gte = 4;
  escalate_confidence_lt = 6000;
  redis_wired = true;
  daily_token_budget = 1000;
}

abbrev pub start : RunState World
start = record {
  messages = ChatMessage.system (codes "triage") ∷ [];
  records = [];
  totals = zero_totals;
  world = quiet;
}

abbrev answers : World → Option Exn × World
answers w = (if w.up then none else some (Exn.other "OperationalError"), w)

abbrev pub database : Database World
database = record { select_for_update = answers; flush = answers; commit = answers }

abbrev pub event : CowrieEvent
event = record {
  eventid = "cowrie.session.connect";
  timestamp = 1000;
  username = none;
  password = none;
  input = none;
  url = none;
  outfile = none;
  shasum = none;
  duration_ms = none;
  version = none;
}

abbrev pub alert : SessionAlert
alert = record {
  source = "cowrie";
  session_id = "s1";
  src_ip = "203.0.113.7";
  sensor = "hp1";
  events = event ∷ [];
}

abbrev pub deployment : Deployment World
deployment = record {
  database = database;
  seams = seams;
  cfg = cfg;
  build_messages = λ a. ChatMessage.system (codes "triage") ∷ [];
  job = record { publish_verdict_created = λ a v verdict w. (true, w); now = λ w. 100000 };
  settings = record {
    triage_job_max_tries = 3;
    triage_job_backoff_base_s = 5;
    triage_job_backoff_max_s = 60;
  };
  queue = record { str_uuid = λ n. n ∷ []; enqueue_job = λ name arg id w. (some true, w) };
  cap = record { redis_wired = true; retriage_per_day = 2; incr = λ w. (some 3, w) };
  sha256_hex = λ t. "abc";
  isoformat = λ t. t ∷ [];
}

abbrev pub pending_row : AlertRow
pending_row = record {
  id = 0;
  fingerprint = "abc";
  source = "cowrie";
  event_time = 1000;
  raw = alert;
  status = AlertStatus.pending;
}

abbrev pub one_alert : Db
one_alert = record { alerts = pending_row ∷ []; verdicts = []; tool_calls = []; next_id = 1 }

-- A session on these tables.
abbrev pub session_on : Db → World → Session World
session_on db w = record { committed = db; db = db; world = w }
