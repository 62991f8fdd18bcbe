-- ===== src/Shipper/Deliver.antt =====
-- main.py: `Backoff`, and `drain`, which posts the spooled payloads in order.
pub mod Drained
use sentinel_brief.Prelude.{
  Text, ℕ, ◌+◌, ◌*◌, Bool, true, false, ◌&&◌, leb, ltb, min, Option, none, some, List, [], ◌∷◌,
  ◌++◌, Result, ok, err, if◌then◌else◌,
}
use sentinel_brief.Shipper.Spool.{SpoolFile, SpoolState, PostResult, post_result, remove}
use sentinel_brief.Worker.Retry.{PolicyError, float_pow2}

-- The shipper's world: the server behind the POST and the wait of the stop event.
pub record Outside (W : Type 0) : Type 0 where
  pub post : Text → W → Option ℕ × W
  pub sleep : ℕ → W → W
  pub backoff_base_s : ℕ
  pub backoff_max_s : ℕ

pub record Shipping (W : Type 0) : Type 0 where
  pub spool : SpoolState
  pub consecutive : ℕ
  pub world : W

abbrev pub file_dead : SpoolFile → SpoolState → SpoolState
file_dead f s = record { files = remove f s.files; dead_files = s.dead_files ++ (f ∷ []) }

module _ {W : Type 0} (outside : Outside W) where
  abbrev pub waited : Shipping W → Result PolicyError ℕ → Result PolicyError ℕ × Shipping W
  waited s (err e) = (err e, s)
  waited s (ok p) =
      let delay = min (outside.backoff_base_s * p) outside.backoff_max_s in
      (ok delay, record s { consecutive = s.consecutive + 1; world = outside.sleep delay s.world })

  -- `Backoff.wait`, on the same float power as the worker's.
  unfoldable pub wait : Shipping W → Result PolicyError ℕ × Shipping W
  wait s = waited s (float_pow2 s.consecutive)

  abbrev pub returned : ℕ → Result PolicyError ℕ × Shipping W → Result PolicyError ℕ × Shipping W
  returned delivered (ok d, s) = (ok delivered, s)
  returned delivered (err e, s) = (err e, s)

  abbrev pub delivered_to : SpoolFile → Shipping W → Shipping W
  delivered_to f s = record s {
    spool = record s.spool { files = remove f s.spool.files };
    consecutive = 0;
  }

  abbrev pub refused : SpoolFile → Shipping W → Shipping W
  refused f s = record s { spool = file_dead f s.spool }

  abbrev pub is_success : Option ℕ → Bool
  is_success none = false
  is_success (some status) = leb 200 status && ltb status 300

  -- The loop of `drain` over the pending files, with the number delivered so far.
  unfoldable pub drain_files : List SpoolFile → ℕ → Shipping W → Result PolicyError ℕ × Shipping W
  unfolding wait
  drain_files [] delivered s = (ok delivered, s)
  drain_files (f ∷ fs) delivered s =
      let (status, w) = outside.post f.payload s.world in
      let s' = record s { world = w } in
      let next = drain_files fs (delivered + 1) (delivered_to f s') in
      let past = drain_files fs delivered (refused f s') in
      if (post_result status).retry
      then returned delivered (wait s')
      else if is_success (post_result status).status
      then next
      else past

  unfoldable pub drain : Shipping W → Result PolicyError ℕ × Shipping W
  unfolding drain_files
  drain s = drain_files s.spool.files 0 s
