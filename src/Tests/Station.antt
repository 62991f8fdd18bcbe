-- ===== src/Tests/Station.antt =====
-- One iteration of the shipper, on a log of one line that closes its session.
use sentinel_brief.Prelude.{ℕ, ◌+◌, ◌⊎◌, true, false, none, some, [], ◌∷◌}
use sentinel_brief.Shipper.Assemble.{Assembler, LogEvent}
use sentinel_brief.Shipper.Deliver.{Outside}
use sentinel_brief.Shipper.Main.{Machine, Station, run_once}
use sentinel_brief.Shipper.Main.Carried.{Raised, Carries, run_once-Carries}
use sentinel_brief.Shipper.Tail.{AtPath}

abbrev outside : Outside ℕ
outside = record {
  post = λ payload w. (some 202, w + 1);
  sleep = λ delay w. w + delay;
  backoff_base_s = 5;
  backoff_max_s = 300;
}

abbrev line_event : LogEvent
line_event = record {
  eventid = some "cowrie.session.closed";
  session = some "s1";
  src_ip = some "203.0.113.7";
  sensor = some "hp1";
  timestamp = some "t";
  fields = [];
}

abbrev cfg : Assembler
cfg = record {
  idle_flush_s = 900;
  max_events = 2;
  max_payload_bytes = 10;
  json_loads = λ line. some line_event;
  dumps = λ e. 7 ∷ [];
}

-- The log holds one line, the clock moves with each reading, and the disk takes every file.
abbrev machine : Machine ℕ
machine = record {
  disk = λ w. record { at_path = AtPath.present 3; content = λ inode. 1 ∷ 2 ∷ 10 ∷ [] };
  clock = λ w. (w, w + 1);
  stamp = λ payload w. (record { time_ns = w; digest = 0; payload = payload }, w + 1);
  replace = λ f w. (true, w);
  stop_requested = λ w. false;
  decodes = λ part. true;
  limits = record { read_chunk_bytes = 2; max_batch_lines = 2 };
  cfg = cfg;
  spool_max_files = 10;
  poll_interval_s = 1;
  outside = outside;
}

abbrev station : Station ℕ
station = record {
  tailer = record {
    file = none;
    buffer = [];
    last_open_errno = none;
    pending_state = none;
    at_eof = false;
    dropping_bytes = none;
    dropped_lines = 0;
    saved = none;
  };
  assembler = record {
    sessions =
        record {
          session_id = "s1";
          src_ip = "203.0.113.7";
          sensor = "hp1";
          events = [];
          last_seen = 0;
          has_connect = true;
          dropped_events = 0;
        }
        ∷ [];
    parse_errors = 0;
    dropped_no_connect = 0;
    truncated_sessions = 0;
  };
  shipping = record { spool = record { files = []; dead_files = [] }; consecutive = 0; world = 0 };
}

run_once-Carries_example :
    Raised machine station (run_once machine station)
    ⊎ Carries machine station (run_once machine station).1
run_once-Carries_example = run_once-Carries machine station
