-- ===== src/Pipeline/Run/Shape/Routed.antt =====
-- worker/triage.py: what the routing of a run makes of the cheap outcome.
use mathlib.Core.Path.{subst}
use sentinel_brief.Prelude.{
  ap, sym, ◌≤◌, ◌<◌, ◌⊎◌, ◌≡◌, ◌≢◌, refl, String, Bool, true, false, Option, none, some, List, [],
  Result, ok, err, arith, eq_iff,
}
use sentinel_brief.Core.Errors.{Exn}
use sentinel_brief.Core.Llm.{ChatMessage}
use sentinel_brief.Action.{pure, continue, ◌>>=◌}
use sentinel_brief.Action.Meets.{
  Meets, Returns, Meets-returns, pure-Meets, gets-Meets, modify-Meets, if-Meets, bind-Meets,
}
use sentinel_brief.Worker.Outcome.{TriageOutcome, effective_model_primary}
use sentinel_brief.Worker.Routing.{should_escalate}
use sentinel_brief.Pipeline.Seams.{Seams, Pipeline, RunState}
use sentinel_brief.Pipeline.Run.{route, strong_pass, cheap_pass, final, run}
use sentinel_brief.Pipeline.Run.Shape.{IsNumbered, IsPlain}
use sentinel_brief.Pipeline.Run.Shape.Trace.{cheap_pass-Meets}

-- A verdict that reaches a threshold of the strong model.
abbrev pub Warrants : Pipeline → TriageOutcome → Type 0
Warrants cfg cheap =
    (cfg.escalate_severity_gte ≤ cheap.verdict.severity)
    ⊎ (cheap.verdict.confidence < cfg.escalate_confidence_lt)

-- A verdict that stays below the thresholds of a strong model, if there is one.
abbrev pub Stays : Pipeline → TriageOutcome → Option String → Type 0
Stays cfg cheap none = Unit
Stays cfg cheap (some strong) =
    (cheap.verdict.severity < cfg.escalate_severity_gte)
    × (cfg.escalate_confidence_lt ≤ cheap.verdict.confidence)

-- What the routing of a cheap outcome returns: a numbered trace, and either that outcome, which the
-- thresholds leave there, or one of the strong model, with the cheap one named.
record IsRouted (cfg : Pipeline) (cheap o : TriageOutcome) : Type 0 where
  pub numbered : IsNumbered o.tool_calls
  pub named : o.escalated_model ≡ false → (o.model ≡ cfg.model) × (o.model_primary ≡ none)
  pub kept : o.escalated_model ≡ false → (o ≡ cheap) × Stays cfg cheap cfg.strong_model
  pub escalated :
      o.escalated_model ≡ true
      → (cfg.strong_model ≡ some o.model) × (o.model_primary ≡ some cfg.model) × Warrants cfg cheap

warranted :
    (cfg : Pipeline) (cheap : TriageOutcome)
    → (should_escalate cheap.verdict cfg.escalate_severity_gte cfg.escalate_confidence_lt).escalate
      ≡ true
    → Warrants cfg cheap
unfolding should_escalate
warranted cfg cheap h = ground (arith, h)

stays_cheap :
    (cfg : Pipeline) (cheap : TriageOutcome) (strong : String)
    → (should_escalate cheap.verdict cfg.escalate_severity_gte cfg.escalate_confidence_lt).escalate
      ≡ false
    → Stays cfg cheap (some strong)
unfolding should_escalate
stays_cheap cfg cheap strong h = (ground (arith, h), ground (arith, h))

Returns-anything : {S A : Type 0} (r : Result Exn A × S) → Returns (λ a s. Unit) r
Returns-anything (ok a, s) = tt
Returns-anything (err e, s) = tt

module _ {W : Type 0} (seams : Seams W) (cfg : Pipeline) where
  abbrev Anywhere : RunState W → Type 0
  Anywhere s = Unit

  abbrev Routed : TriageOutcome → TriageOutcome → RunState W → Type 0
  Routed cheap o s = IsRouted cfg cheap o

  final-Meets :
      (msgs : List ChatMessage) (model : String)
      → Meets Anywhere (final seams cfg msgs model) (λ o s. Unit)
  final-Meets msgs model = record { at = λ s h. Returns-anything (final seams cfg msgs model s) }

  strong_pass-Meets :
      (cheap : TriageOutcome) (strong : String)
      → cfg.strong_model ≡ some strong
      → IsNumbered cheap.tool_calls
      → Warrants cfg cheap
      → Meets Anywhere (strong_pass seams cfg cheap strong) (Routed cheap)
  unfolding strong_pass
  strong_pass-Meets cheap strong e n w =
      bind-Meets _ _ (modify-Meets {Q = λ _. Anywhere} _ (λ s h. tt)) (λ _.
        bind-Meets _ _ (gets-Meets {Q = λ _. Anywhere} _ (λ s h. tt)) (λ msgs.
          bind-Meets _ _ (final-Meets msgs strong) (λ o'. pure-Meets _ (λ s h. record {
            numbered = n;
            named = λ f. cc;
            kept = λ f. cc;
            escalated = λ t. (e, refl, w);
          }))))

  plain-IsRouted :
      (cheap : TriageOutcome)
      → IsPlain cfg.model cfg.prompt_version cheap
      → Stays cfg cheap cfg.strong_model
      → IsRouted cfg cheap cheap
  plain-IsRouted cheap p k = record {
    numbered = p.numbered;
    named = λ f. (p.model_lem, p.primary);
    kept = λ f. (refl, k);
    escalated = λ t. cc;
  }

  route-Meets :
      (strong : Option String) (cheap : TriageOutcome)
      → cfg.strong_model ≡ strong
      → IsPlain cfg.model cfg.prompt_version cheap
      → Meets Anywhere (route seams cfg strong cheap) (Routed cheap)
  route-Meets none cheap e p =
      pure-Meets cheap (λ s h. plain-IsRouted cheap p (subst (Stays cfg cheap) (sym e) tt))
  route-Meets (some strong) cheap e p =
      if-Meets
        (should_escalate cheap.verdict cfg.escalate_severity_gte
          cfg.escalate_confidence_lt).escalate
        (strong_pass seams cfg cheap strong) (pure cheap)
        (λ t. strong_pass-Meets cheap strong e p.numbered (warranted cfg cheap t))
        (λ f. pure-Meets cheap (λ s h.
          plain-IsRouted cheap p
            (subst (Stays cfg cheap) (sym e) (stays_cheap cfg cheap strong f))))

  -- A run that returns is a cheap pass that returns, routed.
  run-IsRouted :
      (s : RunState W) (o : TriageOutcome)
      → s.records ≡ []
      → (run seams cfg s).0 ≡ ok o
      → (cheap : TriageOutcome) × ((cheap_pass seams cfg s).0 ≡ ok cheap) × IsRouted cfg cheap o
  unfolding run ◌>>=◌
  run-IsRouted s o h = after (cheap_pass seams cfg s) refl
    where
      after :
          (p : Result Exn TriageOutcome × RunState W)
          → cheap_pass seams cfg s ≡ p
          → (continue p.0 (route seams cfg cfg.strong_model) p.1).0 ≡ ok o
          → (cheap : TriageOutcome) × ((cheap_pass seams cfg s).0 ≡ ok cheap) × IsRouted cfg cheap o
      after (err x, t) e q = cc
      after (ok cheap, t) e q =
          let first : (cheap_pass seams cfg s).0 ≡ ok cheap = ap (λ r. r.0) e in
          (
            cheap,
            first,
            Meets-returns t
                (route-Meets cfg.strong_model cheap refl
                  (Meets-returns s (cheap_pass-Meets seams cfg) h first))
                tt q,
          )

-- The tier that an outcome comes from, by its flag and by the outcome of the cheap pass.
abbrev pub Tier : Pipeline → TriageOutcome → TriageOutcome → Bool → Type 0
Tier cfg cheap o false =
    (o.model ≡ cfg.model)
    × (o.model_primary ≡ none)
    × (o ≡ cheap)
    × Stays cfg cheap cfg.strong_model
Tier cfg cheap o true =
    (cfg.strong_model ≡ some o.model) × (o.model_primary ≡ some cfg.model) × Warrants cfg cheap

-- The model that is persisted as the first is always the cheap one, unless that has no name.
effective_model_primary-run :
    {W : Type 0} (seams : Seams W) (cfg : Pipeline) (s : RunState W) (o : TriageOutcome)
    → cfg.model ≢ ""
    → s.records ≡ []
    → (run seams cfg s).0 ≡ ok o
    → effective_model_primary o ≡ cfg.model
unfolding effective_model_primary
effective_model_primary-run seams cfg s o named h e =
    let (cheap, first, routed) = run-IsRouted seams cfg s o h e in primary_of cheap o routed
  where
    primary_of :
        (cheap o : TriageOutcome) → IsRouted cfg cheap o → effective_model_primary o ≡ cfg.model
    primary_of cheap o r = ground (arith, r.named, r.escalated, eq_iff cfg.model "")
