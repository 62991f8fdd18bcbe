-- ===== src/Shipper/Tail/Drain/Restart.antt =====
-- What a tailer that starts again at the committed position reads.
use mathlib.Core.List.{append_assoc}
use sentinel_brief.Prelude.{
  arith, Text, ℕ, zero, suc, ◌+◌, ◌-◌, ◌≤◌, ◌≡◌, refl, ap, sym, ◌∙◌, none, List, [], ◌∷◌, ◌++◌,
  length, length-append, drop,
}
use sentinel_brief.Shipper.Tail.Split.{lines, partial, lines_from}
use sentinel_brief.Shipper.Tail.Split.Laws.{lines_from-append}
use sentinel_brief.Shipper.Tail.Drain.{Limits, max_line_bytes, Reading, short, drain_open_file}
use sentinel_brief.Shipper.Tail.Drain.Kept.{Keeps, short-append}
use sentinel_brief.Shipper.Tail.Drain.Delivered.{Follows, drain_open_file-Delivers}

drop_front : (n : ℕ) (xs ys : Text) → n ≡ length xs → drop n (xs ++ ys) ≡ ys
drop_front zero [] ys h = refl
drop_front zero (x ∷ xs) ys h = absurd (omega arith)
drop_front (suc n) [] ys h = absurd (omega arith)
drop_front (suc n) (x ∷ xs) ys h = drop_front n xs ys (omega arith)

-- What is held and what is left make up the short lines that are still to come.
keeps_rest :
    (bound : ℕ) (out : List Text) (seen buffer rest : Text)
    → Keeps bound out seen buffer none
    → out ++ short bound (lines (buffer ++ rest)) ≡ short bound (lines (seen ++ rest))
keeps_rest bound out seen buffer rest k =
    let later = lines_from (partial seen) rest in
    let both : lines (buffer ++ rest) ≡ lines buffer ++ later =
      lines_from-append [] buffer rest ∙ ap (λ t. lines buffer ++ lines_from t rest) k.held in
    rw (both, short-append bound (lines buffer) later)
      (sym (append_assoc out (short bound (lines buffer)) (short bound later))
        ∙ ap (λ t. t ++ short bound later) k.kept
        ∙ sym (short-append bound (lines seen) later)
        ∙ ap (short bound) (sym (lines_from-append [] seen rest)))

-- A call on a file that holds `base`, which came before, then the bytes that were read and those
-- that are left. If no line is being dropped after it, the lines given back so far, and then the
-- short lines from the position less the buffer on, are the short lines of the file after `base`:
-- a tailer that starts there again loses no line and repeats none.
pub restart_lem :
    (limits : Limits) (out : List Text) (base seen : Text) (r : Reading)
    → 1 ≤ limits.read_chunk_bytes
    → 1 ≤ limits.max_batch_lines
    → Follows limits out seen r
    → r.position ≡ length base + length seen
    → (drain_open_file limits r).1.dropping_bytes ≡ none
    → let (ls, r') = drain_open_file limits r in
      (out ++ ls)
        ++ short
            (max_line_bytes limits)
            (lines (drop (r'.position - length r'.buffer) (base ++ (seen ++ r.rest))))
      ≡ short (max_line_bytes limits) (lines (seen ++ r.rest))
restart_lem limits out base seen r hc hb f at none_dropped =
    let (ls, r') = drain_open_file limits r in
    let d = drain_open_file-Delivers limits out seen r hc hb f in
    let g = d.follows.given in
    let whole : seen ++ r.rest ≡ (seen ++ d.read) ++ r'.rest =
      ap (λ t. seen ++ t) d.from_rest ∙ sym (append_assoc seen d.read r'.rest) in
    let file : base ++ (seen ++ r.rest) ≡ (base ++ g) ++ (r'.buffer ++ r'.rest) =
      ap (λ t. base ++ t)
        (whole ∙ ap (λ t. t ++ r'.rest) d.follows.held_run ∙ append_assoc g r'.buffer r'.rest)
      ∙ sym (append_assoc base g (r'.buffer ++ r'.rest)) in
    let place : r'.position - length r'.buffer ≡ length (base ++ g) = omega (
      arith,
      d.moved,
      length-append base g,
      length-append seen d.read,
      ap length d.follows.held_run,
      length-append g r'.buffer,
    ) in
    let k : Keeps (max_line_bytes limits) (out ++ ls) (seen ++ d.read) r'.buffer none =
      rw (sym none_dropped) d.follows.keeps in
    rw
      (
        file,
        drop_front (r'.position - length r'.buffer) (base ++ g) (r'.buffer ++ r'.rest) place,
        whole,
      )
      (keeps_rest (max_line_bytes limits) (out ++ ls) (seen ++ d.read) r'.buffer r'.rest k)
