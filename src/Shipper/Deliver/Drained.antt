-- ===== src/Shipper/Deliver/Drained.antt =====
-- main.py: what `drain` does with each payload, and what it leaves.
use mathlib.Core.List.{append-nil, append_assoc}
use mathlib.Core.Path.{subst}
use sentinel_brief.Prelude.{
  ℕ, ◌+◌, ◌≤◌, ◌<◌, ◌≡◌, ◌⊎◌, inl, inr, refl, sym, ap, ◌∙◌, Bool, true, false, ◌==◌, ltb, arith,
  Bool-cases, Option, none, some, List, [], ◌∷◌, ◌++◌, length, Result, ok, err, if◌then◌else◌,
}
use sentinel_brief.Shipper.Deliver.{
  Outside, Shipping, wait, waited, returned, delivered_to, refused, is_success, drain_files, drain,
}
use sentinel_brief.Shipper.Spool.{SpoolFile, post_result, remove}
use sentinel_brief.Worker.Retry.{PolicyError, float_pow2}

eq_refl : (n : ℕ) → (n == n) ≡ true
eq_refl n = ground arith

remove-head : (f : SpoolFile) (fs : List SpoolFile) → remove f (f ∷ fs) ≡ fs
unfolding remove
remove-head f fs = rw (eq_refl f.time_ns, eq_refl f.digest) refl

-- A 2xx status.
abbrev pub Accepts : Option ℕ → Type 0
Accepts none = ⊥
Accepts (some status) = (200 ≤ status) × (status < 300)

-- No response, 408, 425, 429, or a server's error.
abbrev pub AsksAgain : Option ℕ → Type 0
AsksAgain none = Unit
AsksAgain (some status) = (status ≡ 408) ⊎ (status ≡ 425) ⊎ (status ≡ 429) ⊎ (500 ≤ status)

-- Any other status.
abbrev pub Refuses : Option ℕ → Type 0
Refuses none = ⊥
Refuses (some status) = (¬ Accepts (some status)) × (¬ AsksAgain (some status))

-- The files are posted in order, from a world in which the first is posted. Each accepted one and
-- each refused one is followed by the next; one that asks again ends it, with itself and the rest
-- left. The last three lists are the accepted, the refused and the left files, each in order.
pub data Posted {W : Type 0} (outside : Outside W)
    : List SpoolFile → W → List SpoolFile → List SpoolFile → List SpoolFile → Type 0 where
  finished : {w : W} → Posted outside [] w [] [] []
  stopped :
      {w : W} {f : SpoolFile} {fs : List SpoolFile}
      → AsksAgain (outside.post f.payload w).0
      → Posted outside (f ∷ fs) w [] [] (f ∷ fs)
  accepted :
      {w : W} {f : SpoolFile} {fs taken dead left : List SpoolFile}
      → Accepts (outside.post f.payload w).0
      → Posted outside fs (outside.post f.payload w).1 taken dead left
      → Posted outside (f ∷ fs) w (f ∷ taken) dead left
  refused_by :
      {w : W} {f : SpoolFile} {fs taken dead left : List SpoolFile}
      → Refuses (outside.post f.payload w).0
      → Posted outside fs (outside.post f.payload w).1 taken dead left
      → Posted outside (f ∷ fs) w taken (f ∷ dead) left

abbrev pub Counts : ℕ → Result PolicyError ℕ → Type 0
Counts n (ok m) = m ≡ n
Counts n (err e) = e ≡ PolicyError.overflow_error

-- From the files `fs` in the world `w`, with `delivered` delivered and `dead` dead-lettered before.
abbrev pub Drained :
    {W : Type 0}
    → Outside W
    → List SpoolFile
    → W
    → ℕ
    → List SpoolFile
    → Result PolicyError ℕ × Shipping W
    → Type 0
Drained outside fs w delivered dead r =
    (taken : List SpoolFile) × (refused_files : List SpoolFile) × (left : List SpoolFile) × Posted
      outside fs w taken refused_files left
    × (r.1.spool.files ≡ left)
    × (r.1.spool.dead_files ≡ dead ++ refused_files)
    × Counts (delivered + length taken) r.0

by_status :
    (status : Option ℕ)
    → ((post_result status).retry ≡ true → AsksAgain status)
      × ((post_result status).retry ≡ false → (post_result status).status ≡ status)
unfolding post_result
by_status none = (λ h. tt, λ h. refl)
by_status (some status) = (λ h. ground (arith, h), λ h. ground (arith, h))

not_retried : (status : ℕ) → (post_result (some status)).retry ≡ false → ¬ AsksAgain (some status)
unfolding post_result
not_retried status h (inl e) = ground (arith, h, e)
not_retried status h (inr (inl e)) = ground (arith, h, e)
not_retried status h (inr (inr (inl e))) = ground (arith, h, e)
not_retried status h (inr (inr (inr e))) = ground (arith, h, e)

module _ {W : Type 0} (outside : Outside W) where
  waited-spool :
      (s : Shipping W) (r : Result PolicyError ℕ) → (waited outside s r).1.spool ≡ s.spool
  waited-spool s (ok p) = refl
  waited-spool s (err e) = refl

  is_success-Accepts :
      (status : Option ℕ)
      → (post_result status).retry ≡ false
      → is_success outside (post_result status).status ≡ true
      → Accepts status
  unfolding post_result
  is_success-Accepts none r h = absurd (ground (arith, r))
  is_success-Accepts (some status) r h = (ground (arith, r, h), ground (arith, r, h))

  Accepts-is_success :
      (status : ℕ) → Accepts (some status) → is_success outside (some status) ≡ true
  Accepts-is_success status h = ground (arith, h)

  failure-Refuses :
      (status : Option ℕ)
      → (post_result status).retry ≡ false
      → is_success outside (post_result status).status ≡ false
      → Refuses status
  unfolding post_result
  failure-Refuses none r h = absurd (ground (arith, r))
  failure-Refuses (some status) r h = (
    λ a.
        let kept : (post_result (some status)).status ≡ some status =
          (by_status (some status)).1 r in
        let yes : is_success outside (some status) ≡ true = Accepts-is_success status a in
        let no : is_success outside (some status) ≡ false =
          sym (ap (is_success outside) kept) ∙ h in
        absurd (ground (arith, yes, no)),
    not_retried status r,
  )

  waited-Counts :
      (n : ℕ) (s : Shipping W) (k : ℕ)
      → Counts n (returned outside n (waited outside s (float_pow2 k))).0
  unfolding float_pow2
  waited-Counts n s k = elim (Bool-cases (ltb k 1024)) [ inl e ↦ rw e refl | inr e ↦ rw e refl ]

  returned-spool :
      (n : ℕ) (r : Result PolicyError ℕ × Shipping W) → (returned outside n r).1.spool ≡ r.1.spool
  returned-spool n (ok d, s) = refl
  returned-spool n (err e, s) = refl

  drain_files-Drained :
      (fs : List SpoolFile) (delivered : ℕ) (s : Shipping W)
      → s.spool.files ≡ fs
      → Drained outside fs s.world delivered s.spool.dead_files (drain_files outside fs delivered s)
  unfolding drain_files wait
  drain_files-Drained [] delivered s h =
      ([], [], [], Posted.finished, h, sym (append-nil s.spool.dead_files), omega arith)
  drain_files-Drained (f ∷ fs) delivered s h =
      by_test (post_result status).retry refl (is_success outside (post_result status).status) refl
        (drain_files-Drained fs (delivered + 1) (delivered_to outside f s') gone)
        (drain_files-Drained fs delivered (refused outside f s') gone)
    where
      status : Option ℕ
      status = (outside.post f.payload s.world).0

      s' : Shipping W
      s' = record s { world = (outside.post f.payload s.world).1 }

      gone : remove f s.spool.files ≡ fs
      gone = rw h (remove-head f fs)

      kept : (returned outside delivered (wait outside s')).1.spool ≡ s.spool
      kept = returned-spool delivered (wait outside s') ∙ waited-spool s' (float_pow2 s.consecutive)

      by_test :
          (a : Bool)
          → (post_result status).retry ≡ a
          → (b : Bool) → is_success outside (post_result status).status ≡ b
          → Drained outside fs s'.world
              (delivered + 1)
              s.spool.dead_files
              (drain_files outside fs (delivered + 1) (delivered_to outside f s'))
          → Drained outside fs s'.world delivered
              (s.spool.dead_files ++ (f ∷ []))
              (drain_files outside fs delivered (refused outside f s'))
          → Drained outside (f ∷ fs) s.world delivered s.spool.dead_files (
              if a
              then returned outside delivered (wait outside s')
              else if b
              then drain_files outside fs (delivered + 1) (delivered_to outside f s')
              else drain_files outside fs delivered (refused outside f s'))
      by_test true ha b hb next past = (
        [],
        [],
        f ∷ fs,
        Posted.stopped ((by_status status).0 ha),
        ap (λ p. p.files) kept ∙ h,
        ap (λ p. p.dead_files) kept ∙ sym (append-nil s.spool.dead_files),
        subst (λ n. Counts n (returned outside delivered (wait outside s')).0) (omega arith)
            (waited-Counts delivered s' s.consecutive),
      )
      by_test false ha true hb (taken, dead, left, posted, files, dead_files, counts) past = (
        f ∷ taken,
        dead,
        left,
        Posted.accepted (is_success-Accepts status ha hb) posted,
        files,
        dead_files,
        subst (λ n. Counts n (drain_files outside fs (delivered + 1) (delivered_to outside f s')).0)
            (omega arith) counts,
      )
      by_test false ha false hb next (taken, dead, left, posted, files, dead_files, counts) = (
        taken,
        f ∷ dead,
        left,
        Posted.refused_by (failure-Refuses status ha hb) posted,
        files,
        dead_files ∙ append_assoc s.spool.dead_files (f ∷ []) dead,
        counts,
      )

-- A drain posts the pending payloads in order. Each that is answered with a 2xx status leaves the
-- spool; each that is answered with another status that is not retryable is dead-lettered behind
-- the earlier ones; at the first that has no answer or a retryable one it stops, with that one and
-- the rest left in order. It returns how many were accepted, or the OverflowError of its wait.
pub drain-Drained :
    {W : Type 0} (outside : Outside W) (s : Shipping W)
    → Drained outside s.spool.files s.world 0 s.spool.dead_files (drain outside s)
unfolding drain
drain-Drained outside s = drain_files-Drained outside s.spool.files 0 s refl
