-- ===== src/Shipper/Tail/Drain/Delivered.antt =====
-- A whole call of `_drain_open_file`: every short line that was read is given back once, in order,
-- or still held.
use sentinel_brief.Prelude.{
  ◌⊎◌, inl, inr, Bool-cases, arith, Text, suc, ◌+◌, ◌≤◌, ◌≡◌, ◌⊎◌, refl, sym, ◌∙◌, false, ltb,
  ltb→lt, List, [], ◌++◌, length, Bool-cases, inl, inr,
}
use sentinel_brief.Shipper.Tail.Split.{lines, lines_from, partial_from}
use sentinel_brief.Shipper.Tail.Drain.{
  Limits, max_line_bytes, Reading, read_chunks, short, hand_over, drain_open_file,
}
use sentinel_brief.Shipper.Tail.Drain.Kept.{KeepsAt}
use sentinel_brief.Shipper.Tail.Drain.Contiguous.{Contiguous, AllShort, drop-All}
use sentinel_brief.Shipper.Tail.Drain.Loop.{read_chunks-Reads}
use sentinel_brief.Shipper.Tail.Drain.HandOver.{
  hand_over-SameReading, hand_over-Keeps, hand_over-lines, held_back, held_back-run,
  length-hand_over, no_lines, short-AllShort,
}

-- A tailer that has given back `out` of the bytes `seen` of the file. The short lines of `seen` are
-- those in `out` and then those in the buffer, which holds short lines only; and `seen` ends in
-- the buffer, so that the first byte not given back is as many bytes before the position.
pub record Follows (limits : Limits) (out : List Text) (seen : Text) (r : Reading) : Type 0 where
  pub keeps : KeepsAt limits out seen r
  pub given : Text
  pub held_run : seen ≡ given ++ r.buffer
  pub fits : AllShort (max_line_bytes limits) (lines r.buffer)

pub Follows-Contiguous :
    {limits : Limits} {out : List Text} {seen : Text} {r : Reading}
    → 1 ≤ limits.max_batch_lines
    → Follows limits out seen r
    → Contiguous limits seen r.buffer
unfolding lines_from partial_from
Follows-Contiguous {limits} {r = r} h f = record {
  before = f.given;
  apart = [];
  run = r.buffer;
  seen_run = f.held_run;
  buffer_run = refl;
  whole = refl;
  few = h;
  late =
      drop-All (λ l. ltb (max_line_bytes limits) (length l) ≡ false) limits.max_batch_lines
        (lines r.buffer) f.fits;
}

hand_over-Follows :
    (limits : Limits) (out : List Text) (seen : Text) (r : Reading)
    → KeepsAt limits out seen r
    → Contiguous limits seen r.buffer
    → Follows limits (out ++ (hand_over limits r).0) seen (hand_over limits r).1
unfolding hand_over
hand_over-Follows limits out seen r k c =
    let run = held_back-run limits seen r.buffer c in
    let bound = max_line_bytes limits in
    record {
      keeps = hand_over-Keeps limits out seen r k;
      given = run.0;
      held_run = run.1;
      fits = rw (held_back bound limits.max_batch_lines r.buffer).1 (
          drop-All (λ l. ltb bound (length l) ≡ false) limits.max_batch_lines
            (short bound (lines r.buffer)) (short-AllShort bound (lines r.buffer)));
    }

-- One call.
pub record Delivers (limits : Limits) (out : List Text) (seen : Text) (r : Reading) (ls : List Text)
    (r' : Reading) : Type 0 where
  pub read : Text
  pub from_rest : r.rest ≡ read ++ r'.rest
  pub follows : Follows limits (out ++ ls) (seen ++ read) r'
  pub moved : r'.position ≡ r.position + length read
  pub batch : length ls ≤ limits.max_batch_lines
  pub eof : (r'.at_eof ≡ false) ⊎ ((r'.rest ≡ []) × (lines r'.buffer ≡ []))

-- If the tailer follows the file, it does so after one more call, whatever the chunk size and the
-- batch size are above 0: the lines given back so far are the short lines of the bytes read so
-- far, each once and in order, up to the first byte of the buffer. The call reads on from where it
-- stood, gives back at most one batch, and says that the file is at its end only when nothing of
-- it is left to read and no complete line is held back.
pub drain_open_file-Delivers :
    (limits : Limits) (out : List Text) (seen : Text) (r : Reading)
    → 1 ≤ limits.read_chunk_bytes
    → 1 ≤ limits.max_batch_lines
    → Follows limits out seen r
    → Delivers limits out seen r (drain_open_file limits r).0 (drain_open_file limits r).1
unfolding drain_open_file
drain_open_file-Delivers limits out seen r hc hb f =
    let r0 = record r { at_eof = false; dropped_bytes = 0 } in
    let r1 = read_chunks (suc (length r.rest)) limits r0 in
    let reads =
      read_chunks-Reads (suc (length r.rest)) limits out seen r0 hc (omega arith) refl f.keeps
        (Follows-Contiguous hb f) in
    let same = hand_over-SameReading limits r1 in
    record {
      read = reads.read;
      from_rest = rw same.rest reads.from_rest;
      follows = hand_over-Follows limits out (seen ++ reads.read) r1 reads.keeps reads.contiguous;
      moved = same.position ∙ reads.moved;
      batch = length-hand_over limits r1;
      eof = elim (Bool-cases (hand_over limits r1).1.at_eof) [
        | inl t ↦
            let e = reads.eof (sym same.at_eof ∙ t) in
            inr (
              same.rest ∙ e.0,
              no_lines _ (omega (arith, hand_over-lines limits r1, ltb→lt _ _ e.1)),
            )
        | inr f' ↦ inl f'
      ];
    }
