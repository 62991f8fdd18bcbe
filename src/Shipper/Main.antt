-- ===== src/Shipper/Main.antt =====
-- main.py: `run_once`, which reads, assembles, spools, commits the position and drains, and the
-- loop around it. The log, the clocks, the stop event and whether the disk takes a file are the
-- world's.
pub mod Carried
use sentinel_brief.Prelude.{
  Text, ℕ, zero, suc, ◌+◌, Bool, true, false, leb, ◌==◌, Option, none, some, List, [], ◌∷◌, ◌++◌,
  length, drop, Result, ok, err, if◌then◌else◌,
}
use sentinel_brief.Shipper.Assemble.{Assembler, AssemblerState, feed, flush_idle, flush_all}
use sentinel_brief.Shipper.Deliver.{Outside, Shipping, drain}
use sentinel_brief.Shipper.Spool.{SpoolFile, SpoolState, put}
use sentinel_brief.Shipper.Tail.{Disk, Tailer, commit_offset, read_new_lines}
use sentinel_brief.Shipper.Tail.Drain.{Limits}
use sentinel_brief.Worker.Retry.{PolicyError}

-- What an iteration can raise: a line that is no UTF-8, a disk that takes no file, and a backoff
-- that overflows.
pub data Crash : Type 0 where
  unicode_error os_error overflow_error : Crash

pub record RunOnceResult : Type 0 where
  pub lines_read : ℕ
  pub delivered : ℕ

-- The machine: `stamp` names a new file, `replace` writes it.
pub record Machine (W : Type 0) : Type 0 where
  pub disk : W → Disk
  pub clock : W → ℕ × W
  pub stamp : Text → W → SpoolFile × W
  pub replace : SpoolFile → W → Bool × W
  pub stop_requested : W → Bool
  pub decodes : Text → Bool
  pub limits : Limits
  pub cfg : Assembler
  pub spool_max_files : ℕ
  pub poll_interval_s : ℕ
  pub outside : Outside W

-- The collaborators of the loop.
pub record Station (W : Type 0) : Type 0 where
  pub tailer : Tailer
  pub assembler : AssemblerState
  pub shipping : Shipping W

-- A full spool drops its oldest file before the new one is written.
abbrev room : ℕ → SpoolState → SpoolState
room max_files s = if leb max_files (length s.files) then record s { files = drop 1 s.files } else s

module _ {W : Type 0} (m : Machine W) where
  abbrev put_in : Text → Shipping W → SpoolFile × W → Bool × Shipping W
  put_in payload s (f, w) =
      let (written, w') = m.replace f w in
      let spool =
        if written then put m.spool_max_files f s.spool else room m.spool_max_files s.spool in
      (written, record s { spool = spool; world = w' })

  -- `spool.put(payload)`; false is its OSError.
  unfoldable pub put_payload : Text → Shipping W → Bool × Shipping W
  put_payload payload s = put_in payload s (m.stamp payload s.world)

  unfoldable pub put_payloads : List Text → Shipping W → Bool × Shipping W
  put_payloads [] s = (true, s)
  put_payloads (p ∷ ps) s =
      let (written, s') = put_payload p s in
      let rest = put_payloads ps s' in if written then rest else (false, s')

  -- A reading of the clock.
  abbrev pub now : Shipping W → ℕ
  now s = (m.clock s.world).0

  abbrev pub ticked : Shipping W → Shipping W
  ticked s = record s { world = (m.clock s.world).1 }

  abbrev pub spooled : List Text × AssemblerState → Shipping W → Bool × AssemblerState × Shipping W
  spooled (payloads, a) s = let (written, s') = put_payloads payloads s in (written, a, s')

  -- `_spool_new_payloads`: the lines, then the idle flush. The clock is read at each line; the
  -- reading at a line that is no event is not used.
  unfoldable pub feed_lines :
      List Text → AssemblerState → Shipping W → Bool × AssemblerState × Shipping W
  feed_lines [] a s = (true, a, s)
  feed_lines (l ∷ ls) a s =
      let (written, a', s') = spooled (feed m.cfg l (now s) a) (ticked s) in
      let rest = feed_lines ls a' s' in if written then rest else (false, a', s')

  unfoldable pub spool_new_payloads :
      List Text → AssemblerState → Shipping W → Bool × AssemblerState × Shipping W
  spool_new_payloads ls a s =
      let (written, a', s') = feed_lines ls a s in
      let flushed = spooled (flush_idle m.cfg (now s') a') (ticked s') in
      if written then flushed else (false, a', s')

  -- `_spool_open_sessions`
  unfoldable pub spool_open_sessions : Station W → Bool × Station W
  spool_open_sessions st =
      let (written, a, s) = spooled (flush_all m.cfg st.assembler) st.shipping in
      (written, record st { assembler = a; shipping = s })

  abbrev pub drained :
      ℕ
      → Tailer
      → AssemblerState
      → Result PolicyError ℕ × Shipping W
      → Result Crash RunOnceResult × Station W
  drained n t a (ok d, s) = (
    ok (record { lines_read = n; delivered = d }),
    record { tailer = t; assembler = a; shipping = s },
  )
  drained n t a (err e, s) =
      (err Crash.overflow_error, record { tailer = t; assembler = a; shipping = s })

  abbrev pub after_spool :
      List Text
      → Tailer
      → Bool × AssemblerState × Shipping W
      → Result Crash RunOnceResult × Station W
  after_spool ls t (written, a, s) =
      if written
      then drained (length ls) (commit_offset t) a (drain m.outside s)
      else (err Crash.os_error, record { tailer = t; assembler = a; shipping = s })

  abbrev pub after_read :
      Station W → Option (List Text) × Tailer → Result Crash RunOnceResult × Station W
  after_read st (none, t) = (err Crash.unicode_error, record st { tailer = t })
  after_read st (some ls, t) = after_spool ls t (spool_new_payloads ls st.assembler st.shipping)

  unfoldable pub run_once : Station W → Result Crash RunOnceResult × Station W
  run_once st =
      after_read st (read_new_lines m.decodes m.limits false (m.disk st.shipping.world) st.tailer)

  abbrev polled : RunOnceResult → Station W → Station W
  polled r st =
      if r.lines_read == 0
      then record st {
        shipping = record st.shipping {
          world = m.outside.sleep m.poll_interval_s st.shipping.world;
        };
      }
      else st

  abbrev stopped : Bool × Station W → Option Crash × Station W
  stopped (true, st) = (none, st)
  stopped (false, st) = (some Crash.os_error, st)

  -- The loop of `main`, for `max_iterations` at most, of which there is at least one; none is a
  -- clean stop.
  unfoldable pub main_loop : ℕ → Station W → Option Crash × Station W
  main_loop zero st = (none, st)
  main_loop (suc iterations) st = elim (run_once st).0 [
    | err e ↦ (some e, (run_once st).1)
    | ok r ↦
        if iterations == 0
        then (none, (run_once st).1)
        else if m.stop_requested (run_once st).1.shipping.world
        then stopped (spool_open_sessions (run_once st).1)
        else main_loop iterations (polled r (run_once st).1)
  ]
