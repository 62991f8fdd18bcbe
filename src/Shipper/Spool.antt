-- ===== src/Shipper/Spool.antt =====
-- spool.py and post.py: the payloads on disk, and what one POST means for one of them.
pub mod Bounded
use sentinel_brief.Prelude.{
  Text, ℕ, ◌+◌, Bool, true, false, ◌==◌, ltb, leb, ◌&&◌, ◌||◌, Option, none, some, List, [], ◌∷◌,
  ◌++◌, length, drop, if◌then◌else◌,
}

-- `{time_ns:020d}-{digest}.json`, as the two numbers whose order is that of the names.
pub record SpoolFile : Type 0 where
  pub time_ns : ℕ
  pub digest : ℕ
  pub payload : Text

pub record SpoolState : Type 0 where
  -- the pending files in the order of their names
  pub files : List SpoolFile
  pub dead_files : List SpoolFile

abbrev pub name_lt : SpoolFile → SpoolFile → Bool
name_lt a b = ltb a.time_ns b.time_ns || (a.time_ns == b.time_ns && ltb a.digest b.digest)

abbrev pub same_name : SpoolFile → SpoolFile → Bool
same_name a b = a.time_ns == b.time_ns && a.digest == b.digest

-- `os.replace` onto a name: a file of that name is overwritten.
unfoldable pub place : SpoolFile → List SpoolFile → List SpoolFile
place f [] = f ∷ []
place f (g ∷ gs) =
    if name_lt f g then f ∷ g ∷ gs else if same_name f g then f ∷ gs else g ∷ place f gs

-- `Spool.put`, when the disk takes the file.
unfoldable pub put : ℕ → SpoolFile → SpoolState → SpoolState
unfolding place
put max_files f s = record s {
  files = place f (if leb max_files (length s.files) then drop 1 s.files else s.files);
}

-- `Spool.remove`
unfoldable pub remove : SpoolFile → List SpoolFile → List SpoolFile
remove f [] = []
remove f (g ∷ gs) = if same_name f g then gs else g ∷ remove f gs

pub record PostResult : Type 0 where
  pub status : Option ℕ
  pub retry : Bool

abbrev is_retryable : ℕ → Bool
is_retryable status = status == 408 || status == 425 || status == 429 || leb 500 status

-- `Poster.post`, by the status of the response; none is an `httpx.HTTPError`.
unfoldable pub post_result : Option ℕ → PostResult
post_result none = record { status = none; retry = true }
post_result (some status) =
    if status == 200 || status == 202
    then record { status = some status; retry = false }
    else if is_retryable status
    then record { status = some status; retry = true }
    else record { status = some status; retry = false }
