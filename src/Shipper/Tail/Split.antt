-- ===== src/Shipper/Tail/Split.antt =====
-- `bytes.split(b"\n")`, `find` and `rfind` of tail.py: the complete lines of a text, and what
-- follows the last of them.
pub mod Laws
use sentinel_brief.Prelude.{
  Text, ℕ, zero, suc, Bool, true, false, ◌==◌, Option, none, some, List, [], ◌∷◌, ◌++◌,
  if◌then◌else◌,
}

abbrev pub newline : ℕ
newline = 0x0a

-- The lines that a newline ends, each without it, after a partial line `p`.
unfoldable pub lines_from : Text → Text → List Text
lines_from p [] = []
lines_from p (c ∷ cs) =
    let ended = p ∷ lines_from [] cs in
    let longer = lines_from (p ++ (c ∷ [])) cs in if c == newline then ended else longer

unfoldable pub partial_from : Text → Text → Text
partial_from p [] = p
partial_from p (c ∷ cs) =
    let ended = partial_from [] cs in
    let longer = partial_from (p ++ (c ∷ [])) cs in if c == newline then ended else longer

-- `text.split(b"\n")` without its last part, and that part.
abbrev pub lines : Text → List Text
lines = lines_from []

abbrev pub partial : Text → Text
partial = partial_from []

-- `b"".join(part + b"\n" for part in parts)`
unfoldable pub join : List Text → Text
join [] = []
join (l ∷ ls) = l ++ (newline ∷ join ls)

abbrev pub one_later : Option ℕ → Option ℕ
one_later none = none
one_later (some i) = some (suc i)

-- `text.find(b"\n")`
unfoldable pub find : Text → Option ℕ
find [] = none
find (c ∷ cs) = if c == newline then some 0 else one_later (find cs)

abbrev pub after_byte : ℕ → ℕ → ℕ
after_byte c zero = if c == newline then 1 else 0
after_byte c (suc k) = suc (suc k)

-- `text.rfind(b"\n") + 1`
unfoldable pub after_last : Text → ℕ
after_last [] = 0
after_last (c ∷ cs) = after_byte c (after_last cs)
