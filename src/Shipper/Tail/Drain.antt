-- ===== src/Shipper/Tail/Drain.antt =====
-- tail.py: `_drain_open_file`, which reads a file in chunks and gives back complete lines.
pub mod Kept
pub mod Contiguous
pub mod Loop
pub mod HandOver
pub mod Delivered
pub mod Restart
pub mod CaughtUp
use sentinel_brief.Prelude.{
  Text, ℕ, zero, suc, ◌+◌, ◌-◌, ◌*◌, Bool, true, false, not, ◌&&◌, ltb, leb, Option, none, some,
  List, [], ◌∷◌, ◌++◌, length, take, drop, if◌then◌else◌,
}
use sentinel_brief.Shipper.Tail.Split.{
  lines, partial, lines_from, partial_from, join, find, after_last,
}

pub record Limits : Type 0 where
  pub read_chunk_bytes : ℕ
  pub max_batch_lines : ℕ

-- `_MAX_LINE_BYTES_FACTOR * read_chunk_bytes`
abbrev pub max_line_bytes : Limits → ℕ
max_line_bytes limits = 4 * limits.read_chunk_bytes

-- The tailer's buffer, what of the file is still to be read, and the counters of one call.
pub record Reading : Type 0 where
  pub buffer : Text
  pub rest : Text
  pub position : ℕ
  pub at_eof : Bool
  pub dropping_bytes : Option ℕ
  pub dropped_lines : ℕ
  pub dropped_bytes : ℕ

abbrev pub ended_by : Text → Reading → ℕ → Option ℕ → Text × Reading
ended_by chunk r d none = (
  [],
  record r {
    dropping_bytes = some (d + length chunk);
    dropped_bytes = r.dropped_bytes + length chunk;
  },
)
ended_by chunk r d (some i) = (
  drop (suc i) chunk,
  record r {
    dropping_bytes = none;
    dropped_lines = r.dropped_lines + 1;
    dropped_bytes = r.dropped_bytes + (i + 1);
  },
)

abbrev pub skipped : Text → Reading → Option ℕ → Text × Reading
skipped chunk r none = (chunk, r)
skipped chunk r (some d) = ended_by chunk r d (find chunk)

-- `_skip_dropped_line`
unfoldable pub skip_dropped_line : Text → Reading → Text × Reading
unfolding find
skip_dropped_line chunk r = skipped chunk r r.dropping_bytes

-- `_drop_oversize_partial`
unfoldable pub drop_oversize_partial : Limits → Reading → Reading
unfolding after_last
drop_oversize_partial limits r =
    let start = after_last r.buffer in
    let partial_len = length r.buffer - start in
    if leb partial_len (max_line_bytes limits) then r else record r {
      buffer = take start r.buffer;
      dropping_bytes = some partial_len;
      dropped_bytes = r.dropped_bytes + partial_len;
    }

-- `self._buffer += chunk`
abbrev pub appended : Text × Reading → Reading
appended (chunk, r) = record r { buffer = r.buffer ++ chunk }

-- The body of the loop, after a chunk that is not empty.
unfoldable pub take_chunk : Limits → Text → Reading → Reading
unfolding skip_dropped_line drop_oversize_partial
take_chunk limits chunk r = drop_oversize_partial limits (
    appended (
      skip_dropped_line chunk (record r {
        rest = drop limits.read_chunk_bytes r.rest;
        position = r.position + length chunk;
      })))

abbrev pub is_empty : Text → Bool
is_empty [] = true
is_empty (c ∷ cs) = false

-- A buffer that does not hold a full batch: each newline ends one line.
abbrev pub wants_more : Limits → Reading → Bool
wants_more limits r = ltb (length (lines r.buffer)) limits.max_batch_lines

-- The loop, on fuel above the bytes that are left.
unfoldable pub read_chunks : ℕ → Limits → Reading → Reading
unfolding take_chunk lines_from
read_chunks zero limits r = r
read_chunks (suc fuel) limits r =
    let chunk = take limits.read_chunk_bytes r.rest in
    let more = read_chunks fuel limits (take_chunk limits chunk r) in
    let next = if is_empty chunk then record r { at_eof = true } else more in
    if wants_more limits r then next else r

-- The parts that are within the bound, and what the others add to the counters.
unfoldable pub short : ℕ → List Text → List Text
short bound [] = []
short bound (l ∷ ls) = let rest = short bound ls in if ltb bound (length l) then rest else l ∷ rest

unfoldable pub oversize : ℕ → List Text → Reading → Reading
oversize bound [] r = r
oversize bound (l ∷ ls) r =
    let counted = oversize bound ls (record r {
      dropped_lines = r.dropped_lines + 1;
      dropped_bytes = r.dropped_bytes + (length l + 1);
    }) in
    let rest = oversize bound ls r in if ltb bound (length l) then counted else rest

-- After the loop: the lines that are returned, and the buffer that is held back.
unfoldable pub hand_over : Limits → Reading → List Text × Reading
unfolding lines_from partial_from join short oversize
hand_over limits r =
    let kept = short (max_line_bytes limits) (lines r.buffer) in
    (
      take limits.max_batch_lines kept,
      record (oversize (max_line_bytes limits) (lines r.buffer) r) {
        buffer = join (drop limits.max_batch_lines kept) ++ partial r.buffer;
      },
    )

unfoldable pub drain_open_file : Limits → Reading → List Text × Reading
unfolding read_chunks hand_over
drain_open_file limits r =
    hand_over limits
      (read_chunks (suc (length r.rest)) limits (record r { at_eof = false; dropped_bytes = 0 }))
