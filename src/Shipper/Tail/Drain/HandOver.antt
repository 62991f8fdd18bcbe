-- ===== src/Shipper/Tail/Drain/HandOver.antt =====
-- The end of `_drain_open_file`: what is given back and what is held back.
use mathlib.Core.List.{append_assoc, append-nil}
use sentinel_brief.Prelude.{
  arith, Text, ℕ, zero, suc, ◌+◌, ◌-◌, ◌≤◌, ◌≡◌, refl, ap, sym, ◌∙◌, false, ltb, List, [], ◌∷◌,
  ◌++◌, length, length-take, length-drop, take, drop, take-append-drop, All, Bool-cases, inl, inr,
}
use sentinel_brief.Shipper.Tail.Split.{newline, lines, partial, lines_from, partial_from, join}
use sentinel_brief.Shipper.Tail.Split.Laws.{
  OneLine, lines_from-append, lines_from-All, lines-join, join-lines_from, partial_from-append,
  lines_from-OneLine, partial_from-OneLine,
}
use sentinel_brief.Shipper.Tail.Drain.{Limits, max_line_bytes, Reading, short, oversize, hand_over}
use sentinel_brief.Shipper.Tail.Drain.Kept.{KeepsAt}
use sentinel_brief.Shipper.Tail.Drain.Contiguous.{Contiguous, AllShort, drop-All}

pub short-AllShort : (bound : ℕ) (ls : List Text) → AllShort bound (short bound ls)
unfolding short
short-AllShort bound [] = tt
short-AllShort bound (l ∷ ls) = elim (Bool-cases (ltb bound (length l))) [
  | inl e ↦ rw e (short-AllShort bound ls)
  | inr e ↦ rw e (e, short-AllShort bound ls)
]

short-of_AllShort : (bound : ℕ) (ls : List Text) → AllShort bound ls → short bound ls ≡ ls
unfolding short
short-of_AllShort bound [] h = refl
short-of_AllShort bound (l ∷ ls) h = rw h.0 (ap (λ t. l ∷ t) (short-of_AllShort bound ls h.1))

short-All : (P : Text → Type 0) (bound : ℕ) (ls : List Text) → All P ls → All P (short bound ls)
unfolding short
short-All P bound [] h = tt
short-All P bound (l ∷ ls) h = elim (Bool-cases (ltb bound (length l))) [
  | inl e ↦ rw e (short-All P bound ls h.1)
  | inr e ↦ rw e (h.0, short-All P bound ls h.1)
]

-- Counting the long parts changes two counters only.
pub record SameReading (r r' : Reading) : Type 0 where
  pub rest : r'.rest ≡ r.rest
  pub position : r'.position ≡ r.position
  pub at_eof : r'.at_eof ≡ r.at_eof
  pub dropping : r'.dropping_bytes ≡ r.dropping_bytes

oversize-SameReading :
    (bound : ℕ) (ls : List Text) (r : Reading) → SameReading r (oversize bound ls r)
unfolding oversize
oversize-SameReading bound [] r = record {
  rest = refl;
  position = refl;
  at_eof = refl;
  dropping = refl;
}
oversize-SameReading bound (l ∷ ls) r =
    let counted = record r {
      dropped_lines = r.dropped_lines + 1;
      dropped_bytes = r.dropped_bytes + (length l + 1);
    } in
    let c = oversize-SameReading bound ls counted in
    elim (Bool-cases (ltb bound (length l))) [
      | inl e ↦ rw e (record {
        rest = c.rest;
        position = c.position;
        at_eof = c.at_eof;
        dropping = c.dropping;
      })
      | inr e ↦ rw e (oversize-SameReading bound ls r)
    ]

-- The text that is held back: the lines past the batch, and the partial line.
pub held_back :
    (bound n : ℕ) (buffer : Text)
    → let text = join (drop n (short bound (lines buffer))) ++ partial buffer in
      (short bound (lines text) ≡ drop n (short bound (lines buffer)))
      × (lines text ≡ drop n (short bound (lines buffer)))
      × (partial text ≡ partial buffer)
held_back bound n buffer =
    let ls = drop n (short bound (lines buffer)) in
    let all = lines_from-All [] buffer tt in
    let joined = lines-join ls (partial buffer) (
      drop-All OneLine n (short bound (lines buffer))
        (short-All OneLine bound (lines buffer) all.0)) in
    let whole : lines (join ls ++ partial buffer) ≡ ls =
      joined.0 ∙ ap (λ t. ls ++ t) (lines_from-OneLine [] (partial buffer) all.1) ∙ append-nil ls in
    (
      ap (short bound) whole
          ∙ short-of_AllShort bound ls (
              drop-All (λ l. ltb bound (length l) ≡ false) n (short bound (lines buffer))
                (short-AllShort bound (lines buffer))),
      whole,
      joined.1 ∙ partial_from-OneLine [] (partial buffer) all.1,
    )

pub hand_over-Keeps :
    (limits : Limits) (out : List Text) (seen : Text) (r : Reading)
    → KeepsAt limits out seen r
    → KeepsAt limits (out ++ (hand_over limits r).0) seen (hand_over limits r).1
unfolding hand_over
hand_over-Keeps limits out seen r k =
    let bound = max_line_bytes limits in
    let back = held_back bound limits.max_batch_lines r.buffer in
    let same = oversize-SameReading bound (lines r.buffer) r in
    let kept = short bound (lines r.buffer) in
    record {
      kept = rw back.0 (
          append_assoc out (take limits.max_batch_lines kept) (drop limits.max_batch_lines kept)
          ∙ ap (λ t. out ++ t) (take-append-drop limits.max_batch_lines kept)
          ∙ k.kept);
      held = rw (same.dropping, back.2) k.held;
    }

pub hand_over-SameReading : (limits : Limits) (r : Reading) → SameReading r (hand_over limits r).1
unfolding hand_over
hand_over-SameReading limits r =
    let same = oversize-SameReading (max_line_bytes limits) (lines r.buffer) r in
    record {
      rest = same.rest;
      position = same.position;
      at_eof = same.at_eof;
      dropping = same.dropping;
    }

pub length-hand_over :
    (limits : Limits) (r : Reading) → length (hand_over limits r).0 ≤ limits.max_batch_lines
unfolding hand_over
length-hand_over limits r =
    omega
      (arith, length-take limits.max_batch_lines (short (max_line_bytes limits) (lines r.buffer)))

length-short : (bound : ℕ) (ls : List Text) → length (short bound ls) ≤ length ls
unfolding short
length-short bound [] = omega arith
length-short bound (l ∷ ls) = elim (Bool-cases (ltb bound (length l))) [
  | inl e ↦ rw e (omega (arith, length-short bound ls))
  | inr e ↦ rw e (omega (arith, length-short bound ls))
]

pub hand_over-lines :
    (limits : Limits) (r : Reading)
    → length (lines (hand_over limits r).1.buffer)
      ≤ length (lines r.buffer) - limits.max_batch_lines
unfolding hand_over
hand_over-lines limits r =
    let bound = max_line_bytes limits in
    let back = held_back bound limits.max_batch_lines r.buffer in
    rw back.1 (
      omega (
        arith,
        length-drop limits.max_batch_lines (short bound (lines r.buffer)),
        length-short bound (lines r.buffer),
      ))

pub no_lines : (ls : List Text) → length ls ≡ 0 → ls ≡ []
no_lines [] h = refl
no_lines (l ∷ ls) h = absurd (omega arith)

join-append : (ls ms : List Text) → join (ls ++ ms) ≡ join ls ++ join ms
unfolding join
join-append [] ms = refl
join-append (l ∷ ls) ms =
    ap (λ t. l ++ (newline ∷ t)) (join-append ls ms)
    ∙ sym (append_assoc l (newline ∷ join ls) (join ms))

-- Dropping from the short lines, where the rest is short, is dropping from all of them.
drop-short :
    (bound n : ℕ) (ls : List Text)
    → AllShort bound (drop n ls)
    → (j : ℕ) × (n ≤ j) × (drop n (short bound ls) ≡ drop j ls)
unfolding short
drop-short bound zero ls h = (0, omega arith, short-of_AllShort bound ls h)
drop-short bound (suc n) [] h = (suc n, omega arith, refl)
drop-short bound (suc n) (l ∷ ls) h = elim (Bool-cases (ltb bound (length l))) [
  | inl e ↦
      let (j, le, same) = drop-short bound (suc n) ls (drop_one-AllShort n ls h) in
      rw e (suc j, omega arith, same)
  | inr e ↦ let (j, le, same) = drop-short bound n ls h in rw e (suc j, omega arith, same)
]
  where
    drop_one-AllShort :
        (n : ℕ) (ls : List Text) → AllShort bound (drop n ls) → AllShort bound (drop (suc n) ls)
    drop_one-AllShort n [] h = tt
    drop_one-AllShort zero (l ∷ ls) h = h.1
    drop_one-AllShort (suc n) (l ∷ ls) h = drop_one-AllShort n ls h

drop_past :
    (j : ℕ) (ls ms : List Text) → length ls ≤ j → drop j (ls ++ ms) ≡ drop (j - length ls) ms
drop_past j [] ms h = let same : j - 0 ≡ j = omega arith in rw same refl
drop_past zero (l ∷ ls) ms h = absurd (omega arith)
drop_past (suc j) (l ∷ ls) ms h =
    let same : suc j - suc (length ls) ≡ j - length ls = omega arith in
    rw same (drop_past j ls ms (omega arith))

-- What is held back ends the bytes that were read.
pub held_back-run :
    (limits : Limits) (seen b : Text)
    → Contiguous limits seen b
    → (given : Text) × (seen
        ≡ given
          ++ (join (drop limits.max_batch_lines (short (max_line_bytes limits) (lines b)))
              ++ partial b))
held_back-run limits seen b c =
    let n = limits.max_batch_lines in
    let (j, le, same) = drop-short (max_line_bytes limits) n (lines b) c.late in
    let all : lines b ≡ lines c.apart ++ lines c.run =
      ap lines c.buffer_run
      ∙ lines_from-append [] c.apart c.run
      ∙ ap (λ t. lines c.apart ++ lines_from t c.run) c.whole in
    let last : partial b ≡ partial c.run =
      ap partial c.buffer_run
      ∙ partial_from-append [] c.apart c.run
      ∙ ap (λ t. partial_from t c.run) c.whole in
    let m = j - length (lines c.apart) in
    let back : drop n (short (max_line_bytes limits) (lines b)) ≡ drop m (lines c.run) =
      same ∙ ap (drop j) all ∙ drop_past j (lines c.apart) (lines c.run) (omega (arith, c.few)) in
    (
      c.before ++ join (take m (lines c.run)),
      rw (back, last)
          (c.seen_run
            ∙ ap (λ t. c.before ++ t)
                (sym (join-lines_from [] c.run)
                  ∙ ap (λ ls. join ls ++ partial c.run) (sym (take-append-drop m (lines c.run)))
                  ∙ ap (λ t. t ++ partial c.run)
                      (join-append (take m (lines c.run)) (drop m (lines c.run)))
                  ∙ append_assoc (join (take m (lines c.run))) (join (drop m (lines c.run)))
                      (partial c.run))
            ∙ sym (append_assoc c.before (join (take m (lines c.run))) _)),
    )
