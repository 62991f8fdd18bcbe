-- ===== src/Worker/Tools/Recorder.antt =====
-- worker/tools/recorder.py: a tool is run live, or its result is read from a recorded fixture.
pub mod Replayed
use sentinel_brief.Prelude.{
  Text, ℕ, String, Bool, true, false, not, ◌&&◌, ◌||◌, ◌==ₛ◌, Option, none, some, List, [], ◌∷◌,
  ◌++◌, Result, ok, err, if◌then◌else◌,
}
use sentinel_brief.Core.Errors.{Exn}

-- What a tool answers: an object whose "unavailable" is truthy, by its reason, or another object.
pub data Answer : Type 0 where
  unavailable : String → Answer
  answered : Text → Answer

-- The fixture file of a tool and its arguments.
pub record Recorded : Type 0 where
  pub tool : String
  pub arguments : Text
  pub result : Answer

pub data Fixture : Type 0 where
  absent unreadable : Fixture
  present : Recorded → Fixture

-- `same_arguments` compares two JSON objects; `fixture` reads the path that the tool's name and the
-- hash of the arguments give.
pub record ReplayRecorder (W : Type 0) : Type 0 where
  pub fixture : String → Text → Fixture
  pub same_arguments : Text → Text → Bool
  pub strict : Bool
  pub strict_tools : Option (List String)

pub record Tool (W : Type 0) : Type 0 where
  pub name : String
  pub external : Bool
  pub run : Text → W → Result Exn Answer × W

unfoldable pub member : String → List String → Bool
member x [] = false
member x (y ∷ ys) = y ==ₛ x || member x ys

abbrev pub deterministic_reasons : List String
deterministic_reasons = "invalid_arguments" ∷ "unknown_session" ∷ "unknown_asset" ∷ []

abbrev pub strict_tool_names : List String
strict_tool_names = "get_ip_geo_asn" ∷ "lookup_ip_reputation" ∷ []

abbrev pub names_of : Option (List String) → List String
names_of none = strict_tool_names
names_of (some names) = names

module _ {W : Type 0} (recorder : ReplayRecorder W) where
  unfoldable pub strict_here : Tool W → Bool
  unfolding member
  strict_here tool = recorder.strict && member tool.name (names_of recorder.strict_tools)

  -- A recorded result that a live service was not there to give.
  abbrev pub is_poisoned : Answer → Bool
  is_poisoned (Answer.unavailable reason) = not (member reason deterministic_reasons)
  is_poisoned (Answer.answered t) = false

  abbrev pub matched : Tool W → Text → Recorded → Result Exn Answer
  matched tool arguments r =
      if not (r.tool ==ₛ tool.name && recorder.same_arguments r.arguments arguments)
      then ok (Answer.unavailable "fixture_mismatch")
      else if strict_here tool && is_poisoned r.result
      then err Exn.fixture_missing
      else ok r.result

  abbrev pub replayed : Tool W → Text → Fixture → Result Exn Answer
  replayed tool arguments Fixture.absent =
      if strict_here tool
      then err Exn.fixture_missing
      else ok (Answer.unavailable "fixture_missing")
  replayed tool arguments Fixture.unreadable = ok (Answer.unavailable "fixture_unreadable")
  replayed tool arguments (Fixture.present r) = matched tool arguments r

  unfoldable pub replay_execute : Tool W → Text → W → Result Exn Answer × W
  unfolding strict_here
  replay_execute tool arguments w =
      if not tool.external
      then tool.run arguments w
      else (replayed tool arguments (recorder.fixture tool.name arguments), w)

-- `LiveToolRecorder.execute`: the result is recorded where there is a directory to record it in.
module _ {W : Type 0} (record_dir : Bool) (write_fixture : Recorded → W → W) where
  abbrev kept : Tool W → Text → Result Exn Answer × W → Result Exn Answer × W
  kept tool arguments (err e, w) = (err e, w)
  kept tool arguments (ok a, w) = (
    ok a,
    if record_dir
        then write_fixture (record { tool = tool.name; arguments = arguments; result = a }) w
        else w,
  )

  unfoldable pub live_execute : Tool W → Text → W → Result Exn Answer × W
  live_execute tool arguments w = kept tool arguments (tool.run arguments w)
