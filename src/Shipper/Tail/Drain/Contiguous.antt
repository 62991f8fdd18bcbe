-- ===== src/Shipper/Tail/Drain/Contiguous.antt =====
-- The buffer against the bytes of the file: what is held back is where the file was read to.
use mathlib.Core.Path.{subst}
use mathlib.Core.List.{append_assoc, append-nil}
use sentinel_brief.Prelude.{
  arith, Text, ℕ, zero, suc, ◌+◌, ◌-◌, ◌≤◌, ◌<◌, ◌≡◌, ◌⊎◌, refl, ap, ◌∙◌, false, ◌==◌, ltb, leb,
  Option, none, some, List, [], ◌∷◌, ◌++◌, length, length-append, length-drop, take, drop,
  take-append-drop, All, Bool-cases, inl, inr,
}
use sentinel_brief.Shipper.Tail.Split.{newline, lines, partial, lines_from, find, after_last}
use sentinel_brief.Shipper.Tail.Split.Laws.{
  lines_from-append, partial_from-append, find-none, find-some, length-partial_from,
}
use sentinel_brief.Shipper.Tail.Drain.{
  Limits, max_line_bytes, Reading, skip_dropped_line, skipped, ended_by, drop_oversize_partial,
  appended, take_chunk, short,
}
use sentinel_brief.Shipper.Tail.Drain.Kept.{Keeps, KeepsAt, cut-lines}

abbrev pub AllShort : ℕ → List Text → Type 0
AllShort bound = All (λ l. ltb bound (length l) ≡ false)

-- The bytes that were read end in `run`, and the buffer is `run` after whole lines that stand
-- apart from it in the file, fewer than a batch; only a line of the first batch may be too long.
pub record Contiguous (limits : Limits) (seen buffer : Text) : Type 0 where
  pub before : Text
  pub apart : Text
  pub run : Text
  pub seen_run : seen ≡ before ++ run
  pub buffer_run : buffer ≡ apart ++ run
  pub whole : partial apart ≡ []
  pub few : length (lines apart) < limits.max_batch_lines
  pub late : AllShort (max_line_bytes limits) (drop limits.max_batch_lines (lines buffer))

not_longer : (a b : ℕ) → a ≤ b → ltb b a ≡ false
not_longer a b h = ground arith

lines_from-AllShort :
    (bound : ℕ) (p c : Text) → length p + length c ≤ bound → AllShort bound (lines_from p c)
unfolding lines_from
lines_from-AllShort bound p [] h = tt
lines_from-AllShort bound p (x ∷ xs) h = elim (Bool-cases (x == newline)) [
  | inl n ↦
      rw n
        (not_longer (length p) bound (omega arith), lines_from-AllShort bound [] xs (omega arith))
  | inr n ↦
      rw n (lines_from-AllShort bound (p ++ (x ∷ [])) xs (omega (arith, length-append p (x ∷ []))))
]

lines_from-late :
    (bound : ℕ) (p c : Text) → length c ≤ bound → AllShort bound (drop 1 (lines_from p c))
unfolding lines_from
lines_from-late bound p [] h = tt
lines_from-late bound p (x ∷ xs) h = elim (Bool-cases (x == newline)) [
  | inl n ↦ rw n (lines_from-AllShort bound [] xs (omega arith))
  | inr n ↦ rw n (lines_from-late bound (p ++ (x ∷ [])) xs (omega arith))
]

pub drop-All : (P : Text → Type 0) (n : ℕ) (ls : List Text) → All P ls → All P (drop n ls)
drop-All P zero ls h = h
drop-All P (suc n) [] h = tt
drop-All P (suc n) (l ∷ ls) h = drop-All P n ls h.1

drop_past-All :
    (P : Text → Type 0) (n : ℕ) (ls ms : List Text)
    → length ls < n
    → All P (drop 1 ms)
    → All P (drop n (ls ++ ms))
drop_past-All P zero ls ms h k = absurd (omega arith)
drop_past-All P (suc n) [] [] h k = tt
drop_past-All P (suc n) [] (m ∷ ms) h k = drop-All P n ms k
drop_past-All P (suc n) (l ∷ ls) ms h k = drop_past-All P n ls ms (omega arith) k

module _ (limits : Limits) (seen buffer : Text) where
  append-late :
      (c : Text)
      → length (lines buffer) < limits.max_batch_lines
      → length c ≤ limits.read_chunk_bytes
      → AllShort (max_line_bytes limits) (drop limits.max_batch_lines (lines (buffer ++ c)))
  append-late c few h = rw (lines_from-append [] buffer c) (
      drop_past-All (λ l. ltb (max_line_bytes limits) (length l) ≡ false) limits.max_batch_lines
        (lines buffer) (lines_from (partial buffer) c) few
        (lines_from-late (max_line_bytes limits) (partial buffer) c (omega arith)))

  append-Contiguous :
      (chunk : Text)
      → length (lines buffer) < limits.max_batch_lines
      → length chunk ≤ limits.read_chunk_bytes
      → Contiguous limits seen buffer
      → Contiguous limits (seen ++ chunk) (buffer ++ chunk)
  append-Contiguous chunk few h c = record {
    before = c.before;
    apart = c.apart;
    run = c.run ++ chunk;
    seen_run = ap (λ t. t ++ chunk) c.seen_run ∙ append_assoc c.before c.run chunk;
    buffer_run = ap (λ t. t ++ chunk) c.buffer_run ∙ append_assoc c.apart c.run chunk;
    whole = c.whole;
    few = c.few;
    late = append-late chunk few h;
  }

  -- Whole lines that are fewer than a batch may stand apart from what comes next.
  apart-Contiguous :
      (head chunk : Text)
      → partial buffer ≡ []
      → length (lines buffer) < limits.max_batch_lines
      → length chunk ≤ limits.read_chunk_bytes
      → Contiguous limits ((seen ++ head) ++ chunk) (buffer ++ chunk)
  apart-Contiguous head chunk whole few h = record {
    before = seen ++ head;
    apart = buffer;
    run = chunk;
    seen_run = refl;
    buffer_run = refl;
    whole = whole;
    few = few;
    late = append-late chunk few h;
  }

-- A buffer whose partial line is too long holds less than a batch.
abbrev FewOrShort : Limits → Text → Type 0
FewOrShort limits b =
    (length (lines b) < limits.max_batch_lines) ⊎ (length (partial b) ≤ max_line_bytes limits)

few_or_short :
    (limits : Limits) (b c : Text) (o : Option ℕ)
    → find c ≡ o
    → length (lines b) < limits.max_batch_lines
    → length c ≤ limits.read_chunk_bytes
    → FewOrShort limits (b ++ c)
few_or_short limits b c none e few h =
    let ends = find-none (partial b) c e in
    let same : lines (b ++ c) ≡ lines b =
      lines_from-append [] b c ∙ ap (λ t. lines b ++ t) ends.0 ∙ append-nil (lines b) in
    inl (rw same few)
few_or_short limits b c (some i) e few h =
    let ends = find-some (partial b) c i e in
    let tail = drop (suc i) c in
    let same : partial (b ++ c) ≡ partial tail = partial_from-append [] b c ∙ ends.1 in
    inr (rw same (omega (arith, length-partial_from [] tail, length-drop (suc i) c)))

abbrev Taken : Limits → Text → Text → Type 0
Taken limits seen b = Contiguous limits seen b × FewOrShort limits b

ended_by-Taken :
    (limits : Limits) (seen chunk : Text) (r : Reading) (d : ℕ) (o : Option ℕ)
    → partial r.buffer ≡ []
    → length (lines r.buffer) < limits.max_batch_lines
    → length chunk ≤ limits.read_chunk_bytes
    → Taken limits (seen ++ chunk) (appended (ended_by chunk r d o)).buffer
ended_by-Taken limits seen chunk r d none whole few h = (
  subst (λ t. Contiguous limits t (r.buffer ++ [])) (append-nil (seen ++ chunk))
      (apart-Contiguous limits seen r.buffer chunk [] whole few (omega arith)),
  inl (rw (append-nil r.buffer) few),
)
ended_by-Taken limits seen chunk r d (some i) whole few h =
    let tail = drop (suc i) chunk in
    let bound : length tail ≤ limits.read_chunk_bytes = omega (arith, length-drop (suc i) chunk) in
    let split : (seen ++ take (suc i) chunk) ++ tail ≡ seen ++ chunk =
      append_assoc seen (take (suc i) chunk) tail
      ∙ ap (λ t. seen ++ t) (take-append-drop (suc i) chunk) in
    (
      subst (λ t. Contiguous limits t (r.buffer ++ tail)) split
          (apart-Contiguous limits seen r.buffer (take (suc i) chunk) tail whole few bound),
      few_or_short limits r.buffer tail (find tail) refl few bound,
    )

skipped-Taken :
    (limits : Limits) (out : List Text) (seen chunk : Text) (r : Reading) (o : Option ℕ)
    → Keeps (max_line_bytes limits) out seen r.buffer o
    → length (lines r.buffer) < limits.max_batch_lines
    → length chunk ≤ limits.read_chunk_bytes
    → Contiguous limits seen r.buffer
    → Taken limits (seen ++ chunk) (appended (skipped chunk r o)).buffer
skipped-Taken limits out seen chunk r none k few h c = (
  append-Contiguous limits seen r.buffer chunk few h c,
  few_or_short limits r.buffer chunk (find chunk) refl few h,
)
skipped-Taken limits out seen chunk r (some d) k few h c =
    ended_by-Taken limits seen chunk r d (find chunk) k.held.0 few h

cut-Contiguous :
    (limits : Limits) (seen b : Text)
    → FewOrShort limits b
    → max_line_bytes limits < length (partial b)
    → Contiguous limits seen (take (after_last b) b)
cut-Contiguous limits seen b (inr short) long = absurd (omega arith)
cut-Contiguous limits seen b (inl few) long =
    let cut = cut-lines b in
    let b' = take (after_last b) b in
    subst (λ t. Contiguous limits t b') (append-nil (seen ++ []) ∙ append-nil seen)
      (subst (λ t. Contiguous limits ((seen ++ []) ++ []) t) (append-nil b')
        (apart-Contiguous limits seen b' [] [] cut.1 (rw cut.0 few) (omega arith)))

drop_oversize_partial-Contiguous :
    (limits : Limits) (seen : Text) (r : Reading)
    → Taken limits seen r.buffer
    → Contiguous limits seen (drop_oversize_partial limits r).buffer
unfolding drop_oversize_partial
drop_oversize_partial-Contiguous limits seen r (c, f) =
    let cut = cut-lines r.buffer in
    elim (Bool-cases (leb (length r.buffer - after_last r.buffer) (max_line_bytes limits))) [
      | inl e ↦ rw e c
      | inr e ↦ rw e (cut-Contiguous limits seen r.buffer f (ground (arith, e, cut.2)))
    ]

pub take_chunk-Contiguous :
    (limits : Limits) (out : List Text) (seen chunk : Text) (r : Reading)
    → KeepsAt limits out seen r
    → length (lines r.buffer) < limits.max_batch_lines
    → length chunk ≤ limits.read_chunk_bytes
    → Contiguous limits seen r.buffer
    → Contiguous limits (seen ++ chunk) (take_chunk limits chunk r).buffer
unfolding take_chunk skip_dropped_line
take_chunk-Contiguous limits out seen chunk r k few h c =
    let r' = record r {
      rest = drop limits.read_chunk_bytes r.rest;
      position = r.position + length chunk;
    } in
    drop_oversize_partial-Contiguous limits (seen ++ chunk) _
      (skipped-Taken limits out seen chunk r' r.dropping_bytes k few h c)
