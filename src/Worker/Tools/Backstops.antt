-- ===== src/Worker/Tools/Backstops.antt =====
-- worker/tools: a tool never takes a triage down, and never shows the model too much.
use sentinel_brief.Prelude.{
  All-take, Text, ℕ, ◌≤◌, ◌<◌, ◌≡◌, refl, ap, ◌∙◌, suc, String, true, ltb, arith, List, [], ◌∷◌,
  length, length-take, take, map, min, All, Result, ok, err,
}
use sentinel_brief.Core.Alert.{SessionAlert}
use sentinel_brief.Core.Errors.{Exn}
use sentinel_brief.Worker.Tools.{
  is_fixture_missing, Shown, Registry, ShownExecution, Caps, commands_of, session_commands,
}

-- What the model is shown: an object that fits, or a preview that does.
abbrev pub Bounded : {J W : Type 0} → Registry J W → Shown J → Type 0
Bounded r (Shown.whole j) = (t : Text) × (r.dumps j ≡ ok t) × (length t ≤ r.max_result_chars)
Bounded r (Shown.truncated n preview) =
    (length preview ≤ r.max_result_chars) × (r.max_result_chars < n)

-- The way an execution ends: a bounded result, or the one exception that passes.
abbrev pub Ending : {J W : Type 0} → Registry J W → Result Exn (ShownExecution J) → Type 0
Ending r (ok x) = Bounded r x.result
Ending r (err e) = is_fixture_missing e ≡ true

-- The object of a reason, a flat object of a Boolean and a text, serializes.
abbrev pub Serializes : {J W : Type 0} → Registry J W → Text → Type 0
Serializes r reason = (t : Text) × (r.dumps (r.unavailable reason) ≡ ok t)

module _ {J W : Type 0} (r : Registry J W) (plain : (reason : Text) → Serializes r reason) where
  abbrev Fine : Result String (Shown J) → Type 0
  Fine (ok s) = Bounded r s
  Fine (err name) = ⊥

-- No command that is returned is longer than its cap, no more are returned than the cap on their
-- number, and the flag of the cut tells whether some are missing.
session_commands_lem :
    (caps : Caps) (alert : SessionAlert)
    → (length (session_commands caps alert).commands
        ≡ min caps.max_commands (session_commands caps alert).command_count)
      × All (λ c. length c ≤ caps.max_command_chars) (session_commands caps alert).commands
      × ((session_commands caps alert).commands_truncated
          ≡ ltb
              (length (session_commands caps alert).commands)
              (session_commands caps alert).command_count)
unfolding session_commands
session_commands_lem caps alert = (
  counted,
  All-take (λ c. length c ≤ caps.max_command_chars) caps.max_commands
      (map (take caps.max_command_chars) (commands_of alert.events))
      (clipped (commands_of alert.events)),
  flag caps.max_commands (length (commands_of alert.events)) _ counted,
)
  where
    length-map : (n : ℕ) (cs : List Text) → length (map (take n) cs) ≡ length cs
    length-map n [] = refl
    length-map n (c ∷ cs) = ap suc (length-map n cs)

    clipped :
        (cs : List Text)
        → All (λ c. length c ≤ caps.max_command_chars) (map (take caps.max_command_chars) cs)
    clipped [] = tt
    clipped (c ∷ cs) = (omega (arith, length-take caps.max_command_chars c), clipped cs)

    counted :
        length
          (take caps.max_commands (map (take caps.max_command_chars) (commands_of alert.events)))
        ≡ min caps.max_commands (length (commands_of alert.events))
    counted =
        length-take caps.max_commands (map (take caps.max_command_chars) (commands_of alert.events))
        ∙ ap (min caps.max_commands) (length-map caps.max_command_chars (commands_of alert.events))

    flag : (n k m : ℕ) → m ≡ min n k → ltb n k ≡ ltb m k
    flag n k m h = ground arith
