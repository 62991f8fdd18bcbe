-- ===== src/Shipper/Spool/Bounded.antt =====
-- spool.py: the directory never holds more than its bound.
use sentinel_brief.Prelude.{
  ℕ, ◌≤◌, ◌≡◌, refl, suc, Bool, true, false, leb, arith, List, [], ◌∷◌, length, drop, if◌then◌else◌,
  ◌⊎◌, inl, inr,
}
use sentinel_brief.Shipper.Spool.{SpoolFile, SpoolState, place, put, name_lt, same_name}

length-place : (f : SpoolFile) (fs : List SpoolFile) → length (place f fs) ≤ suc (length fs)
unfolding place
length-place f [] = omega arith
length-place f (g ∷ gs) = ground (arith, length-place f gs)

-- The payload of a file that is there.
abbrev pub Holds : SpoolFile → List SpoolFile → Type 0
Holds f [] = ⊥
Holds f (g ∷ gs) = (g ≡ f) ⊎ Holds f gs

Holds-place : (f : SpoolFile) (fs : List SpoolFile) → Holds f (place f fs)
unfolding place
Holds-place f [] = inl refl
Holds-place f (g ∷ gs) = by_test (name_lt f g) (same_name f g) (Holds-place f gs)
  where
    by_test :
        (a b : Bool)
        → Holds f (place f gs)
        → Holds f (if a then f ∷ g ∷ gs else if b then f ∷ gs else g ∷ place f gs)
    by_test true b h = inl refl
    by_test false true h = inl refl
    by_test false false h = inr h

length-drop_one : (fs : List SpoolFile) → (length fs ≡ 0) ⊎ (suc (length (drop 1 fs)) ≡ length fs)
length-drop_one [] = inl refl
length-drop_one (x ∷ xs) = inr refl

-- A payload that is put is pending afterwards, and the directory stays within its bound.
put-bounded :
    (max_files : ℕ) (f : SpoolFile) (s : SpoolState)
    → 1 ≤ max_files
    → length s.files ≤ max_files
    → Holds f (put max_files f s).files × (length (put max_files f s).files ≤ max_files)
unfolding put
put-bounded max_files f s h k =
    (Holds-place f _, by_test (leb max_files (length s.files)) refl (length-place f))
  where
    by_test :
        (b : Bool)
        → leb max_files (length s.files) ≡ b
        → ((fs : List SpoolFile) → length (place f fs) ≤ suc (length fs))
        → length (place f (if b then drop 1 s.files else s.files)) ≤ max_files
    by_test true e p = ground (arith, p (drop 1 s.files), length-drop_one s.files)
    by_test false e p = ground (arith, p s.files)
