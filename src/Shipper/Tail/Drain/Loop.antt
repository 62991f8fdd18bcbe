-- ===== src/Shipper/Tail/Drain/Loop.antt =====
-- The loop of `_drain_open_file`: what it reads and why it stops.
use mathlib.Core.List.{append_assoc, append-nil}
use sentinel_brief.Prelude.{
  arith, Text, ℕ, zero, suc, ◌+◌, ◌-◌, ◌≤◌, ◌<◌, ◌≡◌, ◌≢◌, ◌⊎◌, refl, ap, sym, ◌∙◌, true, false,
  ltb→lt, leb, Option, none, some, List, [], ◌∷◌, ◌++◌, length, length-append, length-take,
  length-drop, take, drop, take-append-drop, Bool-cases, inl, inr,
}
use sentinel_brief.Shipper.Tail.Split.{lines, partial, lines_from, find, after_last}
use sentinel_brief.Shipper.Tail.Split.Laws.{length-lines_from, lines_from-append}
use sentinel_brief.Shipper.Tail.Drain.{
  Limits, max_line_bytes, Reading, skip_dropped_line, skipped, ended_by, drop_oversize_partial,
  appended, take_chunk, is_empty, wants_more, read_chunks,
}
use sentinel_brief.Shipper.Tail.Drain.Kept.{KeepsAt, cut-lines, take_chunk-Keeps}
use sentinel_brief.Shipper.Tail.Drain.Contiguous.{Contiguous, take_chunk-Contiguous}

-- Where the file is read to, before its end is seen.
abbrev At : Text → ℕ → Reading → Type 0
At rest position r = (r.rest ≡ rest) × (r.position ≡ position) × (r.at_eof ≡ false)

drop_oversize_partial-At :
    (limits : Limits) (rest : Text) (n : ℕ) (r : Reading)
    → At rest n r
    → At rest n (drop_oversize_partial limits r)
unfolding drop_oversize_partial
drop_oversize_partial-At limits rest n r h = ground (arith, h)

skipped-At :
    (chunk rest : Text) (n : ℕ) (r : Reading) (o : Option ℕ)
    → At rest n r
    → At rest n (appended (skipped chunk r o))
skipped-At chunk rest n r none h = h
skipped-At chunk rest n r (some d) h = by_end (find chunk)
  where
    by_end : (e : Option ℕ) → At rest n (appended (ended_by chunk r d e))
    by_end none = h
    by_end (some i) = h

take_chunk-At :
    (limits : Limits) (chunk : Text) (r : Reading)
    → r.at_eof ≡ false
    → At
        (drop limits.read_chunk_bytes r.rest)
        (r.position + length chunk)
        (take_chunk limits chunk r)
unfolding take_chunk skip_dropped_line
take_chunk-At limits chunk r f =
    drop_oversize_partial-At limits _ _ _ (skipped-At chunk _ _ _ r.dropping_bytes (refl, refl, f))

-- A chunk brings at most one line for each of its bytes.
lines-append_le : (b c : Text) → length (lines (b ++ c)) ≤ length (lines b) + length c
lines-append_le b c = rw (lines_from-append [] b c) (
    omega
      (arith, length-append (lines b) (lines_from (partial b) c), length-lines_from (partial b) c))

ended_by-counted :
    (chunk : Text) (r : Reading) (d : ℕ) (o : Option ℕ)
    → length (lines (appended (ended_by chunk r d o)).buffer)
      ≤ length (lines r.buffer) + length chunk
ended_by-counted chunk r d none = rw (append-nil r.buffer) (omega arith)
ended_by-counted chunk r d (some i) =
    omega (arith, lines-append_le r.buffer (drop (suc i) chunk), length-drop (suc i) chunk)

skipped-counted :
    (chunk : Text) (r : Reading) (o : Option ℕ)
    → length (lines (appended (skipped chunk r o)).buffer) ≤ length (lines r.buffer) + length chunk
skipped-counted chunk r none = lines-append_le r.buffer chunk
skipped-counted chunk r (some d) = ended_by-counted chunk r d (find chunk)

drop_oversize_partial-lines :
    (limits : Limits) (r : Reading) → lines (drop_oversize_partial limits r).buffer ≡ lines r.buffer
unfolding drop_oversize_partial
drop_oversize_partial-lines limits r =
    elim (Bool-cases (leb (length r.buffer - after_last r.buffer) (max_line_bytes limits))) [
      | inl e ↦ rw e refl
      | inr e ↦ rw e (cut-lines r.buffer).0
    ]

take_chunk-counted :
    (limits : Limits) (chunk : Text) (r : Reading)
    → length (lines (take_chunk limits chunk r).buffer) ≤ length (lines r.buffer) + length chunk
unfolding take_chunk skip_dropped_line
take_chunk-counted limits chunk r =
    let r' = record r {
      rest = drop limits.read_chunk_bytes r.rest;
      position = r.position + length chunk;
    } in
    rw (drop_oversize_partial-lines limits (appended (skipped chunk r' r.dropping_bytes)))
      (skipped-counted chunk r' r.dropping_bytes)

-- A chunk is empty at the end of the file only.
empty_chunk : (n : ℕ) (xs : Text) → 1 ≤ n → is_empty (take n xs) ≡ true → xs ≡ []
empty_chunk zero xs h e = absurd (omega arith)
empty_chunk (suc n) [] h e = refl
empty_chunk (suc n) (x ∷ xs) h e = cc

full_chunk : (n : ℕ) (xs : Text) → is_empty (take n xs) ≡ false → length (drop n xs) < length xs
full_chunk zero xs e = cc
full_chunk (suc n) [] e = cc
full_chunk (suc n) (x ∷ xs) e = omega (arith, length-drop n xs)

true-ne-false : true ≢ false
true-ne-false e = cc

abbrev pub Stopped : Limits → Reading → Type 0
Stopped limits r = (wants_more limits r ≡ false) ⊎ ((r.at_eof ≡ true) × (r.rest ≡ []))

-- From `r` the loop reads `read` and stops by its test or at the end of the file.
pub record Reads (limits : Limits) (out : List Text) (seen : Text) (r r' : Reading) : Type 0 where
  pub read : Text
  pub from_rest : r.rest ≡ read ++ r'.rest
  pub keeps : KeepsAt limits out (seen ++ read) r'
  pub contiguous : Contiguous limits (seen ++ read) r'.buffer
  pub moved : r'.position ≡ r.position + length read
  pub stopped : Stopped limits r'
  pub eof : r'.at_eof ≡ true → (r'.rest ≡ []) × (wants_more limits r' ≡ true)
  pub counted : length (lines r'.buffer) ≤ length (lines r.buffer) + length read

pub read_chunks-Reads :
    (fuel : ℕ) (limits : Limits) (out : List Text) (seen : Text) (r : Reading)
    → 1 ≤ limits.read_chunk_bytes
    → length r.rest < fuel
    → r.at_eof ≡ false
    → KeepsAt limits out seen r
    → Contiguous limits seen r.buffer
    → Reads limits out seen r (read_chunks fuel limits r)
unfolding read_chunks
read_chunks-Reads zero limits out seen r h f b k c = absurd (omega arith)
read_chunks-Reads (suc fuel) limits out seen r h f b k c = elim (Bool-cases (wants_more limits r)) [
  | inr e ↦ rw e (record {
    read = [];
    from_rest = refl;
    keeps = rw (append-nil seen) k;
    contiguous = rw (append-nil seen) c;
    moved = omega arith;
    stopped = inl e;
    eof = λ t. absurd (true-ne-false (sym t ∙ b));
    counted = omega arith;
  })
  | inl e ↦ elim (Bool-cases (is_empty (take limits.read_chunk_bytes r.rest))) [
    | inl z ↦
        rw (e, z)
          (record {
            read = [];
            from_rest = refl;
            keeps = rw (append-nil seen) k;
            contiguous = rw (append-nil seen) c;
            moved = omega arith;
            stopped = inr (refl, empty_chunk limits.read_chunk_bytes r.rest h z);
            eof = λ t. (empty_chunk limits.read_chunk_bytes r.rest h z, e);
            counted = omega arith;
          })
    | inr z ↦
        let chunk = take limits.read_chunk_bytes r.rest in
        let at = take_chunk-At limits chunk r b in
        let next =
          read_chunks-Reads fuel limits out (seen ++ chunk) (take_chunk limits chunk r) h
            (rw at.0 (omega (arith, full_chunk limits.read_chunk_bytes r.rest z))) at.2
            (take_chunk-Keeps limits out seen chunk r k)
            (take_chunk-Contiguous limits out seen chunk r k (ltb→lt _ _ e)
              (omega (arith, length-take limits.read_chunk_bytes r.rest)) c) in
        rw (e, z)
          (record {
            read = chunk ++ next.read;
            from_rest =
                sym (take-append-drop limits.read_chunk_bytes r.rest)
                ∙ ap (λ t. chunk ++ t) (sym at.0 ∙ next.from_rest)
                ∙ sym (append_assoc chunk next.read _);
            keeps = rw (sym (append_assoc seen chunk next.read)) next.keeps;
            contiguous = rw (sym (append_assoc seen chunk next.read)) next.contiguous;
            moved = omega (arith, at.1, length-append chunk next.read, next.moved);
            stopped = next.stopped;
            eof = next.eof;
            counted = omega (
              arith,
              next.counted,
              take_chunk-counted limits chunk r,
              length-append chunk next.read,
            );
          })
  ]
]
