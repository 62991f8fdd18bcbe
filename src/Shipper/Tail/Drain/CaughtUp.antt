-- ===== src/Shipper/Tail/Drain/CaughtUp.antt =====
-- Calls of `_drain_open_file` in a row, on a file that no longer grows: they catch up with it.
use mathlib.Core.List.{append_assoc, append-nil}
use sentinel_brief.Prelude.{
  arith, Text, ℕ, zero, suc, ◌+◌, ◌≤◌, ◌<◌, ◌≡◌, ◌⊎◌, refl, ap, sym, ◌∙◌, false, List, [], ◌∷◌,
  ◌++◌, length, length-append, ℕ-cases, inl, inr,
}
use sentinel_brief.Shipper.Tail.Split.{lines}
use sentinel_brief.Shipper.Tail.Drain.{
  Limits, max_line_bytes, Reading, read_chunks, short, hand_over, drain_open_file,
}
use sentinel_brief.Shipper.Tail.Drain.Kept.{KeepsAt}
use sentinel_brief.Shipper.Tail.Drain.Loop.{read_chunks-Reads, Stopped}
use sentinel_brief.Shipper.Tail.Drain.HandOver.{hand_over-SameReading, hand_over-lines, no_lines}
use sentinel_brief.Shipper.Tail.Drain.Delivered.{
  Follows, Follows-Contiguous, drain_open_file-Delivers,
}

-- What `n` calls give back after `out`, and the tailer after them.
pub drain_calls : ℕ → Limits → List Text → Reading → List Text × Reading
drain_calls zero limits out r = (out, r)
drain_calls (suc n) limits out r =
    let (ls, r') = drain_open_file limits r in drain_calls n limits (out ++ ls) r'

-- The bytes to read and the lines to give back.
abbrev pub backlog : Reading → ℕ
backlog r = length r.rest + length (lines r.buffer)

Stopped-backlog :
    (limits : Limits) (before : ℕ) (r : Reading)
    → 1 ≤ limits.max_batch_lines
    → backlog r ≤ before
    → Stopped limits r
    → (backlog (hand_over limits r).1 < before) ⊎ (backlog (hand_over limits r).1 ≡ 0)
Stopped-backlog limits before r h b (inl full) =
    let same = hand_over-SameReading limits r in
    let batch : limits.max_batch_lines ≤ length (lines r.buffer) = ground (arith, full) in
    inl (omega (arith, hand_over-lines limits r, ap length same.rest))
Stopped-backlog limits before r h b (inr (eof, done)) =
    let same = hand_over-SameReading limits r in
    elim (ℕ-cases (length (lines r.buffer))) [
      | inl z ↦ inr (omega (arith, hand_over-lines limits r, ap length same.rest, ap length done))
      | inr (k, z) ↦
          inl (omega (arith, hand_over-lines limits r, ap length same.rest, ap length done))
    ]

drain_open_file-backlog :
    (limits : Limits) (out : List Text) (seen : Text) (r : Reading)
    → 1 ≤ limits.read_chunk_bytes
    → 1 ≤ limits.max_batch_lines
    → Follows limits out seen r
    → (backlog (drain_open_file limits r).1 < backlog r)
      ⊎ (backlog (drain_open_file limits r).1 ≡ 0)
unfolding drain_open_file
drain_open_file-backlog limits out seen r hc hb k =
    let r0 = record r { at_eof = false; dropped_bytes = 0 } in
    let reads =
      read_chunks-Reads (suc (length r.rest)) limits out seen r0 hc (omega arith) refl k.keeps
        (Follows-Contiguous hb k) in
    let r1 = read_chunks (suc (length r.rest)) limits r0 in
    Stopped-backlog limits (backlog r) r1 hb
      (omega (arith, reads.counted, ap length reads.from_rest, length-append reads.read r1.rest))
      reads.stopped

smaller : (a b n : ℕ) → b ≤ suc n → (a < b) ⊎ (a ≡ 0) → a ≤ n
smaller a b n h (inl p) = omega arith
smaller a b n h (inr p) = omega arith

no_bytes : (t : Text) → length t ≡ 0 → t ≡ []
no_bytes [] h = refl
no_bytes (c ∷ cs) h = absurd (omega arith)

caught_up :
    (limits : Limits) (out : List Text) (seen : Text) (r : Reading)
    → KeepsAt limits out seen r
    → backlog r ≡ 0
    → out ≡ short (max_line_bytes limits) (lines (seen ++ r.rest))
unfolding short
caught_up limits out seen r k z =
    let bound = max_line_bytes limits in
    let rest : r.rest ≡ [] = no_bytes r.rest (omega arith) in
    let held : lines r.buffer ≡ [] = no_lines (lines r.buffer) (omega arith) in
    rw (rest, append-nil seen)
      (sym (append-nil out) ∙ ap (λ ls. out ++ short bound ls) (sym held) ∙ k.kept)

-- If the tailer follows a file that does not grow, then as many calls as there are bytes to read
-- and lines to give back have given back every short line of the file, each once and in order,
-- whatever the chunk size and the batch size are above 0.
pub drain_calls-caught_up :
    (n : ℕ) (limits : Limits) (out : List Text) (seen : Text) (r : Reading)
    → 1 ≤ limits.read_chunk_bytes
    → 1 ≤ limits.max_batch_lines
    → Follows limits out seen r
    → backlog r ≤ n
    → (drain_calls n limits out r).0 ≡ short (max_line_bytes limits) (lines (seen ++ r.rest))
unfolding drain_calls
drain_calls-caught_up zero limits out seen r hc hb k h =
    caught_up limits out seen r k.keeps (omega arith)
drain_calls-caught_up (suc n) limits out seen r hc hb k h =
    let (ls, r') = drain_open_file limits r in
    let d = drain_open_file-Delivers limits out seen r hc hb k in
    let later =
      drain_calls-caught_up n limits (out ++ ls) (seen ++ d.read) r' hc hb d.follows (
        smaller (backlog r') (backlog r) n h (drain_open_file-backlog limits out seen r hc hb k)) in
    later
    ∙ ap (λ t. short (max_line_bytes limits) (lines t))
        (append_assoc seen d.read r'.rest ∙ ap (λ t. seen ++ t) (sym d.from_rest))
