-- ===== src/Worker/Prompts/Delimited.antt =====
-- worker/prompts/__init__.py: no text that the attacker controls can forge a marker of the block
-- that encloses it.
use sentinel_brief.Prelude.{
  Text, ℕ, zero, suc, ◌+◌, ◌≡◌, refl, Bool, true, false, [], ◌∷◌, ◌++◌, ◌==◌, ◌&&◌, arith,
  if◌then◌else◌,
}
use sentinel_brief.Worker.Prompts.{
  open_angle, newline, alert_data_begin, alert_data_end, neutralize, delimit_attacker_data,
}

-- The text begins with `n` signs `<`.
begins : ℕ → Text → Bool
begins zero t = true
begins (suc n) [] = false
begins (suc n) (a ∷ t) = a == open_angle && begins n t

-- At how many positions three signs `<` stand in a row.
pub count_runs : Text → ℕ
unfolding begins
count_runs [] = 0
count_runs (a ∷ t) = (if begins 3 (a ∷ t) then 1 else 0) + count_runs t

begins-neutralize : (n : ℕ) (t : Text) → begins n (neutralize t) ≡ true → begins n t ≡ true
unfolding begins neutralize
begins-neutralize zero t h = refl
begins-neutralize (suc n) [] h = h
begins-neutralize (suc n) (a ∷ []) h = h
begins-neutralize (suc n) (a ∷ b ∷ []) h = h
begins-neutralize (suc n) (a ∷ b ∷ c ∷ rest) h = ground (arith, begins-neutralize n (b ∷ c ∷ rest))

count_runs-neutralize : (t : Text) → count_runs (neutralize t) ≡ 0
unfolding count_runs neutralize
count_runs-neutralize [] = refl
count_runs-neutralize (a ∷ []) = ground arith
count_runs-neutralize (a ∷ b ∷ []) = ground arith
count_runs-neutralize (a ∷ b ∷ c ∷ rest) = ground (
  arith,
  count_runs-neutralize rest,
  count_runs-neutralize (b ∷ c ∷ rest),
  begins-neutralize 2 (b ∷ c ∷ rest),
)

begins-newline : (n : ℕ) (s t : Text) → begins n (s ++ (newline ∷ t)) ≡ begins n s
unfolding begins
begins-newline zero s t = refl
begins-newline (suc n) [] t = refl
begins-newline (suc n) (a ∷ s) t = ground (arith, begins-newline n s t)

-- A line feed joins no run.
count_runs-newline : (s t : Text) → count_runs (s ++ (newline ∷ t)) ≡ count_runs s + count_runs t
unfolding count_runs
count_runs-newline [] t = omega arith
count_runs-newline (a ∷ s) t = ground (arith, begins-newline 3 (a ∷ s) t, count_runs-newline s t)

-- The delimited text has `<<<` at exactly two positions, those of the two real markers, whatever
-- the text is.
pub count_runs-delimit_attacker_data : (t : Text) → count_runs (delimit_attacker_data t) ≡ 2
unfolding delimit_attacker_data
count_runs-delimit_attacker_data t =
    rw
      (
        count_runs-newline alert_data_begin (neutralize t ++ (newline ∷ alert_data_end)),
        count_runs-newline (neutralize t) alert_data_end,
        count_runs-neutralize t,
      )
      (unfold count_runs in refl)
