-- ===== src/Worker/Routing.antt =====
-- worker/routing.py: whether a cheap verdict escalates to the strong model.
use sentinel_brief.Prelude.{ℕ, Bool, true, false, ltb, leb, if◌then◌else◌}
use sentinel_brief.Core.Verdict.{Verdict}

pub data EscalationReason : Type 0 where
  severity confidence none : EscalationReason

pub record RoutingDecision : Type 0 where
  pub escalate : Bool
  pub reason : EscalationReason

unfoldable pub should_escalate : Verdict → ℕ → ℕ → RoutingDecision
should_escalate verdict severity_gte confidence_lt =
    if leb severity_gte verdict.severity
    then record { escalate = true; reason = EscalationReason.severity }
    else if ltb verdict.confidence confidence_lt
    then record { escalate = true; reason = EscalationReason.confidence }
    else record { escalate = false; reason = EscalationReason.none }
