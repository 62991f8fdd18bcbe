-- ===== src/Pipeline/Run/Shape.antt =====
-- worker/triage.py: which model an outcome names, whether it was escalated, and its tool trace.
pub mod Trace
pub mod Routed
use sentinel_brief.Prelude.{
  ℕ, zero, suc, ◌+◌, ◌≡◌, String, false, none, List, [], ◌∷◌, ◌++◌, map, length, arith, ap, refl,
  sym, ◌∙◌,
}
use sentinel_brief.Worker.Outcome.{ToolCallRecord, TriageOutcome}

-- The numbers from `n` on, `k` of them.
abbrev pub count_up : ℕ → ℕ → List ℕ
count_up n zero = []
count_up n (suc k) = n ∷ count_up (n + 1) k

-- The `seq` of each record is its position.
abbrev pub IsNumbered : List ToolCallRecord → Type 0
IsNumbered records = map (λ r. r.seq) records ≡ count_up 0 (length records)

pub count_up-suc : (n k : ℕ) → count_up n (suc k) ≡ count_up n k ++ ((n + k) ∷ [])
count_up-suc n zero = ground arith
count_up-suc n (suc k) = ground (arith, count_up-suc (n + 1) k)

length-count_up : (n k : ℕ) → length (count_up n k) ≡ k
length-count_up n zero = refl
length-count_up n (suc k) = ap suc (length-count_up (n + 1) k)

length-seqs : (records : List ToolCallRecord) → length (map (λ r. r.seq) records) ≡ length records
length-seqs [] = refl
length-seqs (r ∷ records) = ap suc (length-seqs records)

pub length_eq :
    (seq : ℕ) (records : List ToolCallRecord)
    → map (λ r. r.seq) records ≡ count_up 0 seq
    → length records ≡ seq
length_eq seq records h = sym (length-seqs records) ∙ ap length h ∙ length-count_up 0 seq

-- An outcome of one tier, at `model`.
pub record IsPlain (model prompt_version : String) (o : TriageOutcome) : Type 0 where
  pub model_lem : o.model ≡ model
  pub prompt : o.prompt_version ≡ prompt_version
  pub primary : o.model_primary ≡ none
  pub escalated : o.escalated_model ≡ false
  pub numbered : IsNumbered o.tool_calls
