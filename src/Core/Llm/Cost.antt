-- ===== src/Core/Llm/Cost.antt =====
-- core/llm.py: `compute_cost_usd`, and how it rounds.
use sentinel_brief.Prelude.{ℕ, ◌+◌, ◌*◌, ◌/◌, ◌≤◌, ◌<◌, arith}
use sentinel_brief.Core.Llm.{LlmUsage}

-- Prices in millionths of a dollar for a million tokens, which Decimals of six places are.
pub record ModelPrice : Type 0 where
  pub input_per_mtok : ℕ
  pub output_per_mtok : ℕ

-- The cost before rounding, in millionths of a millionth.
abbrev pub raw_cost : ModelPrice → LlmUsage → ℕ
raw_cost price usage =
    usage.input_tokens * price.input_per_mtok + usage.output_tokens * price.output_per_mtok

-- `quantize(Decimal("0.000001"), rounding=ROUND_HALF_UP)`
unfoldable pub compute_cost_usd : ModelPrice → LlmUsage → ℕ
compute_cost_usd price usage = (raw_cost price usage + 500000) / 1000000

rounds :
    (n : ℕ)
    → ((n + 500000) / 1000000 * 1000000 ≤ n + 500000)
      × (n < (n + 500000) / 1000000 * 1000000 + 500000)
rounds n = (omega arith, omega arith)

-- The rounded cost is within half a millionth of the exact one, and a tie is rounded up.
pub compute_cost_usd_lem :
    (price : ModelPrice) (usage : LlmUsage)
    → (compute_cost_usd price usage * 1000000 ≤ raw_cost price usage + 500000)
      × (raw_cost price usage < compute_cost_usd price usage * 1000000 + 500000)
unfolding compute_cost_usd
compute_cost_usd_lem price usage = rounds (raw_cost price usage)
