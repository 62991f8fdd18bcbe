-- ===== src/Core/Verdict.antt =====
-- core/schemas/verdict.py: the structured-output contract of a triage verdict. The confidence, a
-- float in [0, 1], is only compared, and is counted in parts of `confidence_unit`.
use Prim.Native.String.{count}
use sentinel_brief.Prelude.{ℕ, String, Bool, not, ◌&&◌, leb}

pub data VerdictCategory : Type 0 where
  scanning brute_force successful_intrusion malware_delivery persistence_attempt : VerdictCategory
  reconnaissance other : VerdictCategory

-- The order of `get_args(VerdictCategory)`.
abbrev pub category_index : VerdictCategory → ℕ
category_index VerdictCategory.scanning = 0
category_index VerdictCategory.brute_force = 1
category_index VerdictCategory.successful_intrusion = 2
category_index VerdictCategory.malware_delivery = 3
category_index VerdictCategory.persistence_attempt = 4
category_index VerdictCategory.reconnaissance = 5
category_index VerdictCategory.other = 6

pub record Verdict : Type 0 where
  pub severity : ℕ
  pub category : VerdictCategory
  pub confidence : ℕ
  pub reasoning : String
  pub recommended_action : String
  pub escalate : Bool

abbrev pub confidence_unit : ℕ
confidence_unit = 10000

-- `_escalate_required_for_high_severity`
unfoldable pub escalate_required_for_high_severity : Verdict → Bool
escalate_required_for_high_severity v = not (leb 4 v.severity && not v.escalate)

-- The field constraints and the model validator.
unfoldable pub is_valid : Verdict → Bool
unfolding escalate_required_for_high_severity
is_valid v =
    leb 1 v.severity
    && leb v.severity 5
    && leb v.confidence confidence_unit
    && leb (count v.reasoning) 1200
    && leb (count v.recommended_action) 300
    && escalate_required_for_high_severity v
