-- ===== src/Worker/Tools/Recorder/Replayed.antt =====
-- What a replay answers.
use sentinel_brief.Prelude.{
  Text, ◌≡◌, ◌≢◌, ◌⊎◌, String, true, Option, none, some, List, [], ◌∷◌, Result, ok, err,
}
use sentinel_brief.Core.Errors.{Exn}
use sentinel_brief.Worker.Tools.Recorder.{Answer, Recorded, Fixture, ReplayRecorder}

abbrev pub Listed : String → List String → Type 0
Listed x [] = ⊥
Listed x (y ∷ ys) = (y ≡ x) ⊎ Listed x ys

-- The tools that are strict: those that the recorder is given, or the two that look an address up.
abbrev pub StrictName : Option (List String) → String → Type 0
StrictName (some names) name = Listed name names
StrictName none name = ("get_ip_geo_asn" ≡ name) ⊎ ("lookup_ip_reputation" ≡ name)

-- A result that a service was not there to give: "unavailable" for none of the three reasons that
-- do not depend on a service.
abbrev pub IsOutage : Answer → Type 0
IsOutage (Answer.unavailable reason) =
    ("invalid_arguments" ≢ reason) × ("unknown_session" ≢ reason) × ("unknown_asset" ≢ reason)
IsOutage (Answer.answered t) = ⊥

module _ {W : Type 0} (recorder : ReplayRecorder W) where
  abbrev pub IsStrict : String → Type 0
  IsStrict name = (recorder.strict ≡ true) × StrictName recorder.strict_tools name

  abbrev pub Matches : String → Text → Recorded → Type 0
  Matches name arguments r =
      (r.tool ≡ name) × (recorder.same_arguments r.arguments arguments ≡ true)

  -- What each fixture is answered with.
  abbrev pub ReplayedWith : String → Text → Fixture → Result Exn Answer → Type 0
  ReplayedWith name arguments Fixture.absent r =
      (IsStrict name × (r ≡ err Exn.fixture_missing))
      ⊎ ((¬ IsStrict name) × (r ≡ ok (Answer.unavailable "fixture_missing")))
  ReplayedWith name arguments Fixture.unreadable r =
      r ≡ ok (Answer.unavailable "fixture_unreadable")
  ReplayedWith name arguments (Fixture.present f) r =
      ((¬ Matches name arguments f) × (r ≡ ok (Answer.unavailable "fixture_mismatch")))
      ⊎ (Matches name arguments f
          × IsStrict name
          × IsOutage f.result
          × (r ≡ err Exn.fixture_missing))
      ⊎ (Matches name arguments f × (¬ (IsStrict name × IsOutage f.result)) × (r ≡ ok f.result))
