-- ===== src/Shipper/Tail/Drain/Kept.antt =====
-- What a call gives back and what it keeps, against the bytes that were read.
use mathlib.Core.List.{append_assoc, append-nil}
use sentinel_brief.Prelude.{
  arith, Text, ℕ, suc, ◌+◌, ◌-◌, ◌<◌, ◌≡◌, refl, ap, sym, ◌∙◌, ltb, lt→ltb, leb, Option, none, some,
  List, [], ◌∷◌, ◌++◌, length, length-append, take, drop, length-drop, Bool-cases, ℕ-cases, inl,
  inr,
}
use sentinel_brief.Shipper.Tail.Split.{lines, partial, lines_from, partial_from, find, after_last}
use sentinel_brief.Shipper.Tail.Split.Laws.{
  lines_from-append, partial_from-append, find-none, find-some, after_last_lem, after_last-zero,
}
use sentinel_brief.Shipper.Tail.Drain.{
  Limits, max_line_bytes, Reading, skip_dropped_line, skipped, ended_by, drop_oversize_partial,
  appended, take_chunk, short,
}

pub short-append :
    (bound : ℕ) (ls ms : List Text) → short bound (ls ++ ms) ≡ short bound ls ++ short bound ms
unfolding short
short-append bound [] ms = refl
short-append bound (l ∷ ls) ms = elim (Bool-cases (ltb bound (length l))) [
  | inl e ↦ rw e (short-append bound ls ms)
  | inr e ↦ rw e (ap (λ t. l ∷ t) (short-append bound ls ms))
]

short-long :
    {bound : ℕ} (l : Text) (ls : List Text)
    → bound < length l
    → short bound (l ∷ ls) ≡ short bound ls
unfolding short
short-long l ls h = rw (lt→ltb _ _ h) refl

-- The partial line of the buffer is that of the bytes read, unless that is being dropped.
abbrev Held : ℕ → Text → Text → Option ℕ → Type 0
Held bound p q none = p ≡ q
Held bound p q (some d) = (p ≡ []) × (length q ≡ d) × (bound < d)

-- After `out` was given back, the buffer holds the short lines of `seen` that are still to come.
pub record Keeps (bound : ℕ) (out : List Text) (seen buffer : Text) (dropping : Option ℕ)
    : Type 0 where
  pub kept : out ++ short bound (lines buffer) ≡ short bound (lines seen)
  pub held : Held bound (partial buffer) (partial seen) dropping

module _ (bound : ℕ) (out : List Text) (seen buffer : Text) where
  append-kept :
      (p q c s : Text)
      → out ++ short bound (lines buffer) ≡ short bound (lines seen)
      → short bound (lines_from p c) ≡ short bound (lines_from q s)
      → partial buffer ≡ p
      → partial seen ≡ q
      → out ++ short bound (lines (buffer ++ c)) ≡ short bound (lines (seen ++ s))
  append-kept p q c s k same ep eq =
      rw (lines_from-append [] buffer c, lines_from-append [] seen s, ep, eq)
        (rw
          (
            short-append bound (lines buffer) (lines_from p c),
            short-append bound (lines seen) (lines_from q s),
          )
          (sym (append_assoc out (short bound (lines buffer)) (short bound (lines_from p c)))
            ∙ ap (λ t. t ++ short bound (lines_from p c)) k
            ∙ ap (λ t. short bound (lines seen) ++ t) same))

  append-Keeps :
      (chunk : Text)
      → Keeps bound out seen buffer none
      → Keeps bound out (seen ++ chunk) (buffer ++ chunk) none
  append-Keeps chunk k = record {
    kept = append-kept (partial buffer) (partial buffer) chunk chunk k.kept refl refl (sym k.held);
    held =
        partial_from-append [] buffer chunk
        ∙ ap (λ t. partial_from t chunk) k.held
        ∙ sym (partial_from-append [] seen chunk);
  }

  dropping-Keeps :
      (chunk : Text) (d : ℕ)
      → find chunk ≡ none
      → Keeps bound out seen buffer (some d)
      → Keeps bound out (seen ++ chunk) buffer (some (d + length chunk))
  dropping-Keeps chunk d e k =
      let none_ended = find-none (partial seen) chunk e in
      let same : lines (seen ++ chunk) ≡ lines seen =
        lines_from-append [] seen chunk
        ∙ ap (λ t. lines seen ++ t) none_ended.0
        ∙ append-nil (lines seen) in
      let longer : partial (seen ++ chunk) ≡ partial seen ++ chunk =
        partial_from-append [] seen chunk ∙ none_ended.1 in
      record {
        kept = rw same k.kept;
        held = (
          k.held.0,
          rw longer (omega (arith, length-append (partial seen) chunk, k.held.1)),
          omega (arith, k.held.2),
        );
      }

  dropped-Keeps :
      (chunk : Text) (d i : ℕ)
      → find chunk ≡ some i
      → Keeps bound out seen buffer (some d)
      → Keeps bound out (seen ++ chunk) (buffer ++ drop (suc i) chunk) none
  dropped-Keeps chunk d i e k =
      let ended = find-some (partial seen) chunk i e in
      record {
        kept =
            append-kept [] (partial seen) (drop (suc i) chunk) chunk k.kept
              (sym (
                ap (short bound) ended.0
                ∙ short-long (partial seen ++ take i chunk) (lines_from [] (drop (suc i) chunk)) (
                    omega
                      (arith, length-append (partial seen) (take i chunk), k.held.1, k.held.2))))
              k.held.0 refl;
        held =
            partial_from-append [] buffer (drop (suc i) chunk)
            ∙ ap (λ t. partial_from t (drop (suc i) chunk)) k.held.0
            ∙ sym (partial_from-append [] seen chunk ∙ ended.1);
      }

-- The buffer up to its last newline.
pub cut-lines :
    (b : Text)
    → (lines (take (after_last b) b) ≡ lines b)
      × (partial (take (after_last b) b) ≡ [])
      × (length b - after_last b ≡ length (partial b))
unfolding lines_from partial_from
cut-lines b = elim (ℕ-cases (after_last b)) [
  | inl z ↦ let h = after_last-zero b z in rw z (sym h.0, refl, omega (arith, ap length h.1))
  | inr (k, z) ↦
      let h = after_last_lem [] b k z in
      rw z (h.0, h.1, sym (ap length h.2 ∙ length-drop (suc k) b))
]

oversize-Keeps :
    (bound : ℕ) (out : List Text) (seen buffer : Text) (dropping : Option ℕ)
    → Keeps bound out seen buffer dropping
    → bound < length (partial buffer)
    → Keeps bound out seen (take (after_last buffer) buffer) (some (length (partial buffer)))
oversize-Keeps bound out seen buffer none k long =
    let cut = cut-lines buffer in
    record { kept = rw cut.0 k.kept; held = (cut.1, ap length (sym k.held), long) }
oversize-Keeps bound out seen buffer (some d) k long =
    absurd (omega (arith, ap length k.held.0, long))

module _ (limits : Limits) (out : List Text) (seen : Text) where
  abbrev pub KeepsAt : Reading → Type 0
  KeepsAt r = Keeps (max_line_bytes limits) out seen r.buffer r.dropping_bytes

  drop_oversize_partial-Keeps : (r : Reading) → KeepsAt r → KeepsAt (drop_oversize_partial limits r)
  unfolding drop_oversize_partial
  drop_oversize_partial-Keeps r k =
      let cut = cut-lines r.buffer in
      elim (Bool-cases (leb (length r.buffer - after_last r.buffer) (max_line_bytes limits))) [
        | inl e ↦ rw e k
        | inr e ↦
            rw (e, cut.2)
              (oversize-Keeps (max_line_bytes limits) out seen r.buffer r.dropping_bytes k
                (ground (arith, e, cut.2)))
      ]

ended_by-Keeps :
    (limits : Limits) (out : List Text) (seen chunk : Text) (r : Reading) (d : ℕ) (o : Option ℕ)
    → find chunk ≡ o
    → Keeps (max_line_bytes limits) out seen r.buffer (some d)
    → KeepsAt limits out (seen ++ chunk) (appended (ended_by chunk r d o))
ended_by-Keeps limits out seen chunk r d none e k =
    rw (append-nil r.buffer) (dropping-Keeps (max_line_bytes limits) out seen r.buffer chunk d e k)
ended_by-Keeps limits out seen chunk r d (some i) e k =
    dropped-Keeps (max_line_bytes limits) out seen r.buffer chunk d i e k

skipped-Keeps :
    (limits : Limits) (out : List Text) (seen chunk : Text) (r : Reading) (o : Option ℕ)
    → r.dropping_bytes ≡ o
    → Keeps (max_line_bytes limits) out seen r.buffer o
    → KeepsAt limits out (seen ++ chunk) (appended (skipped chunk r o))
skipped-Keeps limits out seen chunk r none e k =
    rw e (append-Keeps (max_line_bytes limits) out seen r.buffer chunk k)
skipped-Keeps limits out seen chunk r (some d) e k =
    ended_by-Keeps limits out seen chunk r d (find chunk) refl k

pub take_chunk-Keeps :
    (limits : Limits) (out : List Text) (seen chunk : Text) (r : Reading)
    → KeepsAt limits out seen r
    → KeepsAt limits out (seen ++ chunk) (take_chunk limits chunk r)
unfolding take_chunk skip_dropped_line
take_chunk-Keeps limits out seen chunk r k =
    let r' = record r {
      rest = drop limits.read_chunk_bytes r.rest;
      position = r.position + length chunk;
    } in
    drop_oversize_partial-Keeps limits out (seen ++ chunk) _
      (skipped-Keeps limits out seen chunk r' r.dropping_bytes refl k)
