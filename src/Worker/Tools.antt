-- ===== src/Worker/Tools.antt =====
-- worker/tools: the registry that runs a tool for the model, and the tool that reads the session.
pub mod Backstops
pub mod Recorder
use sentinel_brief.Prelude.{
  Text, codes, ℕ, ◌+◌, ◌-◌, String, Bool, true, false, not, ◌==ₛ◌, ltb, leb, Option, none, some,
  List, [], ◌∷◌, ◌++◌, length, take, map, Result, ok, err, if◌then◌else◌,
}
use sentinel_brief.Core.Alert.{CowrieEvent, SessionAlert}
use sentinel_brief.Core.Errors.{Exn}

-- registry.py. A result is a JSON object `J`: as the tool gave it, or the replacement of
-- `truncate_result`.
pub data Shown (J : Type 0) : Type 0 where
  whole : J → Shown J
  truncated : ℕ → Text → Shown J

-- `json.dumps` gives none where it raises, by the name of the exception; `unavailable` builds the
-- object of base.py. The recorder runs a tool, and the clock reads milliseconds.
pub record Registry (J W : Type 0) : Type 0 where
  pub names : List String
  pub max_result_chars : ℕ
  pub dumps : J → Result String Text
  pub unavailable : Text → J
  pub recorder : String → Text → W → Result Exn J × W
  pub clock : W → ℕ
  pub class_name : Exn → String

pub record ShownExecution (J : Type 0) : Type 0 where
  pub result : Shown J
  pub latency_ms : ℕ

-- `except FixtureMissingError`
abbrev pub is_fixture_missing : Exn → Bool
is_fixture_missing Exn.fixture_missing = true
is_fixture_missing e = false

unfoldable pub registered : String → List String → Bool
registered name [] = false
registered name (n ∷ ns) = if n ==ₛ name then true else registered name ns

module _ {J W : Type 0} (r : Registry J W) where
  abbrev pub shown : J → Text → Shown J
  shown j serialized =
      if leb (length serialized) r.max_result_chars
      then Shown.whole j
      else Shown.truncated (length serialized) (take r.max_result_chars serialized)

  abbrev pub serialized_as : J → Result String Text → Result String (Shown J)
  serialized_as j (ok t) = ok (shown j t)
  serialized_as j (err name) = err name

  -- `truncate_result`
  unfoldable pub truncate_result : J → Result String (Shown J)
  truncate_result j = serialized_as j (r.dumps j)

  -- The second backstop: an object that does not serialize is replaced.
  abbrev pub backstop : Result String (Shown J) → Result String (Shown J)
  backstop (ok s) = ok s
  backstop (err name) =
      truncate_result (r.unavailable (codes name ++ codes ": result not serializable"))

  abbrev pub ended : ℕ → Result String (Shown J) → Result Exn (ShownExecution J)
  ended latency_ms (ok s) = ok (record { result = s; latency_ms = latency_ms })
  ended latency_ms (err name) = err (Exn.other name)

  abbrev pub finished : ℕ → J → W → Result Exn (ShownExecution J) × W
  finished start j w = (ended (r.clock w - start) (backstop (truncate_result j)), w)

  abbrev pub raised_by : Bool → ℕ → Exn → W → Result Exn (ShownExecution J) × W
  raised_by true start e w = (err e, w)
  raised_by false start e w =
      finished start (r.unavailable (codes (r.class_name e) ++ codes ": tool raised")) w

  -- The first backstop, with the one exception that it lets through.
  abbrev pub recorded_by : ℕ → Result Exn J × W → Result Exn (ShownExecution J) × W
  recorded_by start (ok j, w) = finished start j w
  recorded_by start (err e, w) = raised_by (is_fixture_missing e) start e w

  abbrev pub known : Bool → String → Text → W → Result Exn (ShownExecution J) × W
  known true name arguments w = recorded_by (r.clock w) (r.recorder name arguments w)
  known false name arguments w = (
    ok (record { result = Shown.whole (r.unavailable (codes "unknown_tool")); latency_ms = 0 }),
    w,
  )

  -- `ToolRegistry.execute`
  unfoldable pub execute_tool : String → Text → W → Result Exn (ShownExecution J) × W
  unfolding registered truncate_result
  execute_tool name arguments w = known (registered name r.names) name arguments w

-- session_commands.py
pub record Download : Type 0 where
  pub url : Option String
  pub outfile : Option String
  pub shasum : Option String

pub record Caps : Type 0 where
  pub max_commands : ℕ
  pub max_downloads : ℕ
  pub max_command_chars : ℕ

pub record SessionCommands : Type 0 where
  pub session_id : String
  pub commands : List Text
  pub command_count : ℕ
  pub commands_truncated : Bool
  pub clipped_commands : ℕ
  pub downloads : List Download
  pub download_count : ℕ
  pub downloads_truncated : Bool

abbrev command_of : CowrieEvent → Option Text
command_of e = if e.eventid ==ₛ "cowrie.command.input" then e.input else none

unfoldable pub commands_of : List CowrieEvent → List Text
commands_of [] = []
commands_of (e ∷ es) = elim (command_of e) [ none ↦ commands_of es | some c ↦ c ∷ commands_of es ]

unfoldable pub downloads_of : List CowrieEvent → List Download
downloads_of [] = []
downloads_of (e ∷ es) =
    if e.eventid ==ₛ "cowrie.session.file_download"
    then record { url = e.url; outfile = e.outfile; shasum = e.shasum } ∷ downloads_of es
    else downloads_of es

unfoldable pub count_longer : ℕ → List Text → ℕ
count_longer n [] = 0
count_longer n (c ∷ cs) = (if ltb n (length c) then 1 else 0) + count_longer n cs

-- `SessionCommandsTool.run`: none and a text are the two answers of `unavailable`.
pub data CommandsReply : Type 0 where
  unavailable : String → CommandsReply
  found : SessionCommands → CommandsReply

unfoldable pub session_commands : Caps → SessionAlert → SessionCommands
unfolding commands_of downloads_of count_longer
session_commands caps alert =
    let commands = commands_of alert.events in
    let downloads = downloads_of alert.events in
    record {
      session_id = alert.session_id;
      commands = take caps.max_commands (map (take caps.max_command_chars) commands);
      command_count = length commands;
      commands_truncated = ltb caps.max_commands (length commands);
      clipped_commands = count_longer caps.max_command_chars commands;
      downloads = take caps.max_downloads downloads;
      download_count = length downloads;
      downloads_truncated = ltb caps.max_downloads (length downloads);
    }

-- The argument `session_id`, where it is there and a string.
unfoldable pub run_session_commands : Caps → SessionAlert → Option String → CommandsReply
run_session_commands caps alert none = CommandsReply.unavailable "invalid_arguments"
run_session_commands caps alert (some session_id) =
    if session_id ==ₛ alert.session_id
    then CommandsReply.found (session_commands caps alert)
    else CommandsReply.unavailable "unknown_session"
