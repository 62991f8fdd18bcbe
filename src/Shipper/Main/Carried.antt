-- ===== src/Shipper/Main/Carried.antt =====
-- How an iteration carries the lines into the spool.
use sentinel_brief.Prelude.{
  arith, suc, Text, ℕ, ◌≡◌, ◌⊎◌, inl, inr, refl, ap, sym, ◌∙◌, Bool, true, false, Option, none,
  some, List, [], ◌∷◌, ◌++◌, length, Result, ok, err, if◌then◌else◌,
}
use mathlib.Core.Path.{subst}
use sentinel_brief.Shipper.Assemble.{Assembler, AssemblerState, feed, flush_idle}
use sentinel_brief.Shipper.Deliver.{Shipping, drain}
use sentinel_brief.Shipper.Tail.{Tailer, commit_offset, read_new_lines}
use sentinel_brief.Shipper.Tail.Deferred.{read_new_lines-saved}
use sentinel_brief.Shipper.Main.{
  Machine, Station, RunOnceResult, Crash, put_payload, put_payloads, now, ticked, spooled,
  feed_lines, spool_new_payloads, drained, after_spool, after_read, run_once,
}
use sentinel_brief.Worker.Retry.{PolicyError}

-- What an assembler makes of lines that it is given at these times, and of an idle flush after
-- them, with no disk in between.
abbrev pub assembled :
    Assembler → List Text → List ℕ → ℕ → AssemblerState → List Text × AssemblerState
assembled cfg [] times idle a = flush_idle cfg idle a
assembled cfg (l ∷ ls) [] idle a = ([], a)
assembled cfg (l ∷ ls) (t ∷ times) idle a =
    let (first, a') = feed cfg l t a in
    let (rest, a'') = assembled cfg ls times idle a' in (first ++ rest, a'')

-- Two steps, the second only after the first.
gated :
    {A : Type 0} (b : Bool) (x y : Bool × A)
    → y.0 ≡ false
    → (if b then x else y).0 ≡ true
    → (b ≡ true) × ((if b then x else y) ≡ x)
gated true x y n h = (refl, refl)
gated false x y n h = let wrong : true ≡ false = sym h ∙ n in ground arith

module _ {W : Type 0} (m : Machine W) where
  -- These payloads were written to the disk, in this order, between two readings of the clock or
  -- not; nothing else happened.
  pub data Written : List Text → Shipping W → Shipping W → Type 0 where
    nothing : {s : Shipping W} → Written [] s s
    reading : {ps : List Text} {s s' : Shipping W} → Written ps (ticked m s) s' → Written ps s s'
    payload :
        {p : Text} {ps : List Text} {s s' : Shipping W}
        → (put_payload m p s).0 ≡ true
        → Written ps (put_payload m p s).1 s'
        → Written (p ∷ ps) s s'

  Written-append :
      {ps qs : List Text} {s s' s'' : Shipping W}
      → Written ps s s'
      → Written qs s' s''
      → Written (ps ++ qs) s s''
  Written-append nothing k = k
  Written-append (reading h) k = reading (Written-append h k)
  Written-append (payload e h) k = payload e (Written-append h k)

  put_payloads-Written :
      (ps : List Text) (s : Shipping W)
      → (put_payloads m ps s).0 ≡ true
      → Written ps s (put_payloads m ps s).1
  unfolding put_payloads
  put_payloads-Written [] s h = nothing
  put_payloads-Written (p ∷ ps) s h =
      let (written, s') = put_payload m p s in
      let g = gated written (put_payloads m ps s') (false, s') refl h in
      let rest = put_payloads-Written ps s' (sym (ap (λ o. o.0) g.1) ∙ h) in
      payload g.0 (subst (Written ps s') (sym (ap (λ o. o.1) g.1)) rest)

  -- The lines were all fed, each at the time of a reading of the clock, then the idle sessions were
  -- flushed, and what that makes was written.
  pub record Fed (ls : List Text) (a : AssemblerState) (s : Shipping W) (a' : AssemblerState)
      (s' : Shipping W) : Type 0 where
    pub times : List ℕ
    pub idle : ℕ
    pub as_long : length times ≡ length ls
    pub same : (assembled m.cfg ls times idle a).1 ≡ a'
    pub written : Written (assembled m.cfg ls times idle a).0 s s'

  abbrev finish : Bool × AssemblerState × Shipping W → Bool × AssemblerState × Shipping W
  finish (written, a, s) =
      if written then spooled m (flush_idle m.cfg (now m s) a) (ticked m s) else (false, a, s)

  finish-gated :
      (b : Bool) (x y : Bool × AssemblerState × Shipping W)
      → y.0 ≡ false
      → (finish (if b then x else y)).0 ≡ true
      → (b ≡ true) × (finish (if b then x else y) ≡ finish x)
  finish-gated true x y n h = (refl, refl)
  finish-gated false (_, _, _) (true, a, s) n h = ground (arith, n)
  finish-gated false (_, _, _) (false, a, s) n h = ground (arith, h)

  spool_new_payloads-Fed :
      (ls : List Text) (a : AssemblerState) (s : Shipping W)
      → (spool_new_payloads m ls a s).0 ≡ true
      → Fed ls a s (spool_new_payloads m ls a s).1 (spool_new_payloads m ls a s).2
  unfolding spool_new_payloads feed_lines
  spool_new_payloads-Fed [] a s h = record {
    times = [];
    idle = now m s;
    as_long = refl;
    same = refl;
    written = reading (put_payloads-Written (flush_idle m.cfg (now m s) a).0 (ticked m s) h);
  }
  spool_new_payloads-Fed (l ∷ ls) a s h =
      let (payloads, a') = feed m.cfg l (now m s) a in
      let (written, s') = put_payloads m payloads (ticked m s) in
      let g = finish-gated written (feed_lines m ls a' s') (false, a', s') refl h in
      let e : spool_new_payloads m (l ∷ ls) a s ≡ spool_new_payloads m ls a' s' = g.1 in
      let rest = spool_new_payloads-Fed ls a' s' (sym (ap (λ o. o.0) e) ∙ h) in
      record {
        times = now m s ∷ rest.times;
        idle = rest.idle;
        as_long = ap suc rest.as_long;
        same = rest.same ∙ sym (ap (λ o. o.1) e);
        written = reading (
            Written-append (put_payloads-Written payloads (ticked m s) g.0) (
              subst (Written (assembled m.cfg ls rest.times rest.idle a').0 s')
                (sym (ap (λ o. o.2) e)) rest.written));
      }

  -- An iteration that reads, spools, commits and drains, in this order.
  pub record Carries (st st' : Station W) : Type 0 where
    pub lines : List Text
    pub tailer : Tailer
    pub shipping : Shipping W
    pub read :
        read_new_lines m.decodes m.limits false (m.disk st.shipping.world) st.tailer
        ≡ (some lines, tailer)
    pub fed : Fed lines st.assembler st.shipping st'.assembler shipping
    pub committed : st'.tailer ≡ commit_offset tailer
    pub drains : st'.shipping ≡ (drain m.outside shipping).1

  drained_station :
      (n : ℕ) (t : Tailer) (a : AssemblerState) (o : Result PolicyError ℕ × Shipping W)
      → (drained m n t a o).1 ≡ record { tailer = t; assembler = a; shipping = o.1 }
  drained_station n t a (ok d, s) = refl
  drained_station n t a (err e, s) = refl

  -- The iteration raised, and the state file is as it was.
  abbrev pub Raised : Station W → Result Crash RunOnceResult × Station W → Type 0
  Raised st o = ((e : Crash) × (o.0 ≡ err e)) × (o.1.tailer.saved ≡ st.tailer.saved)

  after_spool-Carries :
      (st : Station W) (ls : List Text) (t : Tailer) (o : Bool × AssemblerState × Shipping W)
      → read_new_lines m.decodes m.limits false (m.disk st.shipping.world) st.tailer ≡ (some ls, t)
      → t.saved ≡ st.tailer.saved
      → (o.0 ≡ true → Fed ls st.assembler st.shipping o.1 o.2)
      → Raised st (after_spool m ls t o) ⊎ Carries st (after_spool m ls t o).1
  after_spool-Carries st ls t (true, a, s) read saved fed =
      let same = drained_station (length ls) (commit_offset t) a (drain m.outside s) in
      inr (record {
        lines = ls;
        tailer = t;
        shipping = s;
        read = read;
        fed =
            subst (λ x. Fed ls st.assembler st.shipping x s) (sym (ap (λ x. x.assembler) same))
              (fed refl);
        committed = ap (λ x. x.tailer) same;
        drains = ap (λ x. x.shipping) same;
      })
  after_spool-Carries st ls t (false, a, s) read saved fed = inl ((Crash.os_error, refl), saved)

  after_read-Carries :
      (st : Station W) (o : Option (List Text) × Tailer)
      → read_new_lines m.decodes m.limits false (m.disk st.shipping.world) st.tailer ≡ o
      → o.1.saved ≡ st.tailer.saved
      → Raised st (after_read m st o) ⊎ Carries st (after_read m st o).1
  after_read-Carries st (none, t) read saved = inl ((Crash.unicode_error, refl), saved)
  after_read-Carries st (some ls, t) read saved =
      after_spool-Carries st ls t (spool_new_payloads m ls st.assembler st.shipping) read saved
        (spool_new_payloads-Fed ls st.assembler st.shipping)

  -- An iteration either raises with the saved position as it was, so that a restart reads the lines
  -- again, or commits the position only after everything that the assembler makes of the lines,
  -- fed in order, and of an idle flush was written to the spool, in order, and drains it then.
  pub run_once-Carries : (st : Station W) → Raised st (run_once m st) ⊎ Carries st (run_once m st).1
  unfolding run_once
  run_once-Carries st =
      after_read-Carries st
        (read_new_lines m.decodes m.limits false (m.disk st.shipping.world) st.tailer) refl
        (read_new_lines-saved m.decodes m.limits (m.disk st.shipping.world) st.tailer)
