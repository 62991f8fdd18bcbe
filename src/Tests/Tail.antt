-- ===== src/Tests/Tail.antt =====
-- The tailer on small files.
use sentinel_brief.Prelude.{
  arith, Text, ℕ, ◌≤◌, ◌≡◌, refl, Bool, true, false, Option, none, some, List, [], ◌∷◌, ◌++◌, drop,
}
use sentinel_brief.Shipper.Tail.{
  Disk, Handle, AtPath, Tailer, read_new_lines, drain_handle, commit_offset,
}
use sentinel_brief.Shipper.Tail.Committed.{read_new_lines-restart}
use sentinel_brief.Shipper.Tail.Drain.{
  Limits, Reading, drain_open_file, max_line_bytes, short, read_chunks, take_chunk, hand_over,
  oversize, skip_dropped_line, drop_oversize_partial,
}
use sentinel_brief.Shipper.Tail.Drain.CaughtUp.{drain_calls, drain_calls-caught_up, backlog}
use sentinel_brief.Shipper.Tail.Drain.Delivered.{Follows, Delivers, drain_open_file-Delivers}
use sentinel_brief.Shipper.Tail.Split.{lines, lines_from, partial_from, join, find, after_last}

-- Chunks of two bytes, so lines of at most eight, and batches of two lines.
abbrev limits : Limits
limits = record { read_chunk_bytes = 2; max_batch_lines = 2 }

-- Three lines, the second too long, and the start of a fourth.
abbrev text : Text
text = 1 ∷ 10 ∷ 2 ∷ 2 ∷ 2 ∷ 2 ∷ 2 ∷ 2 ∷ 2 ∷ 2 ∷ 2 ∷ 2 ∷ 2 ∷ 10 ∷ 3 ∷ 10 ∷ 4 ∷ 10 ∷ 5 ∷ []

abbrev fresh : Reading
fresh = record {
  buffer = [];
  rest = text;
  position = 0;
  at_eof = false;
  dropping_bytes = none;
  dropped_lines = 0;
  dropped_bytes = 0;
}

fresh-Follows : Follows limits [] [] fresh
unfolding short lines_from partial_from
fresh-Follows = record {
  keeps = record { kept = refl; held = refl };
  given = [];
  held_run = refl;
  fits = tt;
}

abbrev first_call : List Text × Reading
first_call = drain_open_file limits fresh

drain_open_file-Delivers_example : Delivers limits [] [] fresh first_call.0 first_call.1
drain_open_file-Delivers_example =
    drain_open_file-Delivers limits [] [] fresh (omega arith) (omega arith) fresh-Follows

first_lines : first_call.0 ≡ (1 ∷ []) ∷ (3 ∷ []) ∷ []
unfolding drain_open_file read_chunks take_chunk hand_over oversize short skip_dropped_line
    drop_oversize_partial lines_from partial_from join find after_last
first_lines = refl

short-lines : short 8 (lines text) ≡ (1 ∷ []) ∷ (3 ∷ []) ∷ (4 ∷ []) ∷ []
unfolding short lines_from
short-lines = refl

few : backlog fresh ≤ 20
unfolding lines_from
few = omega arith

drain_calls-caught_up_example : (drain_calls 20 limits [] fresh).0 ≡ short 8 (lines text)
drain_calls-caught_up_example =
    drain_calls-caught_up 20 limits [] [] fresh (omega arith) (omega arith) fresh-Follows few

abbrev handle : Handle
handle = record { inode = 7; position = 0 }

abbrev disk : Disk
disk = record { at_path = AtPath.present 7; content = λ inode. text }

abbrev tailer : Tailer
tailer = record {
  file = some handle;
  buffer = [];
  last_open_errno = none;
  pending_state = none;
  at_eof = false;
  dropping_bytes = none;
  dropped_lines = 0;
  saved = none;
}

abbrev decodes : Text → Bool
decodes part = true

abbrev read : Option (List Text) × Tailer
read = read_new_lines decodes limits true disk tailer

read_lines : read.0 ≡ some ((1 ∷ []) ∷ (3 ∷ []) ∷ [])
unfolding read_new_lines drain_handle commit_offset drain_open_file read_chunks take_chunk hand_over
    oversize short skip_dropped_line drop_oversize_partial lines_from partial_from join find
    after_last
read_lines = refl

read_whole : read.1.dropping_bytes ≡ none
unfolding read_new_lines drain_handle commit_offset drain_open_file read_chunks take_chunk hand_over
    oversize short skip_dropped_line drop_oversize_partial lines_from partial_from join find
    after_last
read_whole = refl

read_new_lines-restart_example :
    (offset : ℕ) × (read.1.saved ≡ some (record { inode = 7; offset = offset }))
    × (((1 ∷ []) ∷ (3 ∷ []) ∷ []) ++ short (max_line_bytes limits) (lines (drop offset text))
        ≡ short (max_line_bytes limits) (lines text))
read_new_lines-restart_example =
    read_new_lines-restart decodes limits handle disk tailer [] [] [] ((1 ∷ []) ∷ (3 ∷ []) ∷ [])
      (omega arith) (omega arith) refl refl fresh-Follows refl refl read_lines refl read_whole
