-- ===== src/Shipper/Tail.antt =====
-- tail.py: `LogTailer`. A file is the list of its bytes, and does not change while one call reads
-- it; the log's path leads to a file, by its inode, or fails with an errno. Writing the state file
-- succeeds.
pub mod Split
pub mod Drain
pub mod Committed
pub mod Deferred
use sentinel_brief.Prelude.{
  Text, ℕ, ◌+◌, ◌-◌, ◌*◌, Bool, true, false, not, ◌&&◌, ◌||◌, ◌==◌, leb, ltb, Option, none, some,
  List, [], ◌∷◌, length, drop, if◌then◌else◌,
}
use sentinel_brief.Shipper.Tail.Drain.{Limits, Reading, drain_open_file}

pub record TailState : Type 0 where
  pub inode : ℕ
  pub offset : ℕ

-- An open file: its inode and the position of the next read.
pub record Handle : Type 0 where
  pub inode : ℕ
  pub position : ℕ

pub data AtPath : Type 0 where
  present : ℕ → AtPath
  missing : AtPath
  unreadable : ℕ → AtPath

pub record Disk : Type 0 where
  pub at_path : AtPath
  pub content : ℕ → Text

-- The tailer, with the state file that it writes.
pub record Tailer : Type 0 where
  pub file : Option Handle
  pub buffer : Text
  pub last_open_errno : Option ℕ
  pub pending_state : Option TailState
  pub at_eof : Bool
  pub dropping_bytes : Option ℕ
  pub dropped_lines : ℕ
  pub saved : Option TailState

abbrev committed : Option TailState → Tailer → Tailer
committed none t = t
committed (some state) t = record t { pending_state = none; saved = some state }

unfoldable pub commit_offset : Tailer → Tailer
commit_offset t = committed t.pending_state t

-- Whether the call persists the position itself.
abbrev pub persisted : Bool → Tailer → Tailer
persisted true t = commit_offset t
persisted false t = t

-- `_warn_once_per_errno`: the errno of the last warning.
unfoldable pub warn_once_per_errno : ℕ → Tailer → Tailer
warn_once_per_errno errno t = record t { last_open_errno = some errno }

-- The errno of a path that leads to no file.
abbrev enoent : ℕ
enoent = 2

abbrev pub is_empty : List Text → Bool
is_empty [] = true
is_empty (l ∷ ls) = false

abbrev pub all_decode : (Text → Bool) → List Text → Bool
all_decode decodes [] = true
all_decode decodes (l ∷ ls) = decodes l && all_decode decodes ls

-- Where the saved position applies: the same file, no longer than before.
abbrev seek_to : ℕ → Text → Option TailState → ℕ
seek_to inode content none = 0
seek_to inode content (some state) =
    if state.inode == inode && leb state.offset (length content) then state.offset else 0

unfoldable pub open_at_saved_offset : ℕ → Disk → Tailer → Tailer
open_at_saved_offset inode disk t = record t {
  file = some (record { inode = inode; position = seek_to inode (disk.content inode) t.saved });
  last_open_errno = none;
}

-- `part.decode("utf-8")` is a parameter; a call that it fails raises, which none stands for.
module _ (decodes : Text → Bool) (limits : Limits) where
  abbrev pub reading_of : Handle → Disk → Tailer → Reading
  reading_of h disk t = record {
    buffer = t.buffer;
    rest = drop h.position (disk.content h.inode);
    position = h.position;
    at_eof = t.at_eof;
    dropping_bytes = t.dropping_bytes;
    dropped_lines = t.dropped_lines;
    dropped_bytes = 0;
  }

  abbrev pub after_reading : Handle → Tailer → Reading → Tailer
  after_reading h t r = record t {
    file = some (record h { position = r.position });
    buffer = r.buffer;
    at_eof = r.at_eof;
    dropping_bytes = r.dropping_bytes;
    dropped_lines = r.dropped_lines;
  }

  abbrev pub with_pending : Handle → List Text → Tailer → Reading → Tailer
  with_pending h ls t r =
      if not (is_empty ls) || ltb 0 r.dropped_bytes
      then record t {
        pending_state = some (record { inode = h.inode; offset = r.position - length r.buffer });
      }
      else t

  abbrev pub decoded : Handle → Tailer → List Text × Reading → Option (List Text) × Tailer
  decoded h t (ls, r) =
      if all_decode decodes ls
      then (some ls, with_pending h ls (after_reading h t r) r)
      else (none, after_reading h t r)

  -- `_drain_open_file`, on the handle that is open.
  unfoldable pub drain_handle : Handle → Disk → Tailer → Option (List Text) × Tailer
  drain_handle h disk t = decoded h t (drain_open_file limits (reading_of h disk t))

  abbrev pub answered : Bool → Option (List Text) × Tailer → Option (List Text) × Tailer
  answered persist (none, t) = (none, t)
  answered persist (some ls, t) = (some ls, persisted persist t)

  -- The rotated file is closed when it is exhausted.
  abbrev closed : Tailer → Tailer
  closed t = if t.at_eof then record t { file = none; buffer = []; dropping_bytes = none } else t

  abbrev rotated : Bool → Option (List Text) × Tailer → Option (List Text) × Tailer
  rotated persist (none, t) = (none, t)
  rotated persist (some ls, t) = (some ls, persisted persist (closed t))

  abbrev read_rotated : Bool → Handle → Disk → Tailer → Option (List Text) × Tailer
  read_rotated persist h disk t = rotated persist (drain_handle h disk t)

  -- A file is held open: it is read on, or drained because the path leads elsewhere.
  abbrev read_open : Bool → Handle → Disk → AtPath → Tailer → Option (List Text) × Tailer
  read_open persist h disk (present inode) t =
      if inode == h.inode
      then answered persist (drain_handle h disk t)
      else read_rotated persist h disk t
  read_open persist h disk missing t = read_rotated persist h disk (warn_once_per_errno enoent t)
  read_open persist h disk (unreadable errno) t =
      read_rotated persist h disk (warn_once_per_errno errno t)

  abbrev read_opened : Bool → Disk → Option Handle → Tailer → Option (List Text) × Tailer
  read_opened persist disk none t = (some [], t)
  read_opened persist disk (some h) t = answered persist (drain_handle h disk t)

  -- None is open: the path is opened at the saved position.
  abbrev read_closed : Bool → Disk → AtPath → Tailer → Option (List Text) × Tailer
  read_closed persist disk (present inode) t =
      let t' = open_at_saved_offset inode disk t in read_opened persist disk t'.file t'
  read_closed persist disk missing t = (some [], t)
  read_closed persist disk (unreadable errno) t = (some [], warn_once_per_errno errno t)

  abbrev read_file : Bool → Disk → Option Handle → Tailer → Option (List Text) × Tailer
  read_file persist disk (some h) t = read_open persist h disk disk.at_path t
  read_file persist disk none t = read_closed persist disk disk.at_path t

  unfoldable pub read_new_lines : Bool → Disk → Tailer → Option (List Text) × Tailer
  unfolding drain_handle commit_offset warn_once_per_errno open_at_saved_offset
  read_new_lines persist disk t = read_file persist disk t.file t
