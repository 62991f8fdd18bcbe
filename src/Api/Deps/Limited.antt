-- ===== src/Api/Deps/Limited.antt =====
-- api/deps.py: whom the rate limit refuses.
use mathlib.Core.Path.{subst}
use sentinel_brief.Prelude.{
  ℕ, ◌+◌, ◌-◌, ◌/◌, ◌%◌, ◌≤◌, ◌<◌, ◌≡◌, refl, String, Bool, true, false, not, ◌||◌, ◌==◌, ltb,
  arith, Option, none, some, Result, ok, err, if◌then◌else◌,
}
use sentinel_brief.Core.Errors.{Exn}
use sentinel_brief.Api.Deps.{RateLimit, counted, rate_limit}

-- The client of a refusal is a public address whose count of this minute is over a positive
-- limit; it is told to come back when the minute is over, in 1 to 60 seconds.
abbrev pub Refused : {W : Type 0} → RateLimit W → Option String → W → Exn → Type 0
Refused limit none w e = ⊥
Refused limit (some host) w (Exn.rate_limited (some after)) =
    (limit.is_non_public_client_ip host ≡ false)
    × (0 < limit.public_rate_limit_per_min)
    × ((count : ℕ) × ((limit.incr host (limit.now w / 60) w).0 ≡ some count)
        × (limit.public_rate_limit_per_min < count))
    × (1 ≤ after)
    × (after ≤ 60)
    × ((limit.now w + after) % 60 ≡ 0)
Refused limit (some host) w e = ⊥

err_injective : {A : Type 0} {a b : Exn} → ◌≡◌ {A = Result Exn A} (err a) (err b) → a ≡ b
err_injective e = cc

abbrev reply : {W : Type 0} → Result Exn (Unit {0}) × W → Result Exn (Unit {0})
reply p = p.0

module _ {W : Type 0} (limit : RateLimit W) where
  counted-Refused :
      (host : String) (w : W) (r : Option ℕ × W) (e : Exn)
      → (limit.incr host (limit.now w / 60) w).0 ≡ r.0
      → limit.is_non_public_client_ip host ≡ false
      → 0 < limit.public_rate_limit_per_min
      → (counted limit (limit.now w) r).0 ≡ err e
      → Refused limit (some host) w e
  counted-Refused host w (none, w') e c p q h = cc
  counted-Refused host w (some count, w') e c p q h =
      by_test (ltb limit.public_rate_limit_per_min count) refl h
    where
      refused :
          (x : Exn)
          → limit.public_rate_limit_per_min < count
          → Exn.rate_limited (some (60 - limit.now w % 60)) ≡ x
          → Refused limit (some host) w x
      refused x o t =
          subst (Refused limit (some host) w) t
            (p, q, (count, c, o), omega arith, omega arith, omega arith)

      by_test :
          (b : Bool)
          → ltb limit.public_rate_limit_per_min count ≡ b
          → reply (
              if b
              then (err (Exn.rate_limited (some (60 - limit.now w % 60))), w')
              else (ok tt, w'))
            ≡ err e
          → Refused limit (some host) w e
      by_test true o t = refused e (ground arith) (err_injective t)
      by_test false o t = cc

-- A request that the rate limit refuses comes from a public address whose count of the running
-- minute is over a positive limit, and it is told to retry at the end of that minute.
rate_limit-Refused :
    {W : Type 0} (limit : RateLimit W) (client : Option String) (w : W) (e : Exn)
    → (rate_limit limit client w).0 ≡ err e
    → Refused limit client w e
unfolding rate_limit
rate_limit-Refused limit client w e h =
    by_tests (limit.public_rate_limit_per_min == 0) limit.redis_wired client refl h
  where
    by_host :
        (host : String) (b : Bool)
        → limit.is_non_public_client_ip host ≡ b
        → 0 < limit.public_rate_limit_per_min
        → reply (
            if b
            then (ok tt, w)
            else counted limit (limit.now w) (limit.incr host (limit.now w / 60) w))
          ≡ err e
        → Refused limit (some host) w e
    by_host host true p q k = cc
    by_host host false p q k =
        counted-Refused limit host w (limit.incr host (limit.now w / 60) w) e refl p q k

    by_tests :
        (z wired : Bool) (client : Option String)
        → (limit.public_rate_limit_per_min == 0) ≡ z
        → reply (
            if z || not wired then (ok tt, w) else elim client [
              | none ↦ (ok tt, w)
              | some host ↦
                  if limit.is_non_public_client_ip host
                  then (ok tt, w)
                  else counted limit (limit.now w) (limit.incr host (limit.now w / 60) w)
            ])
          ≡ err e
        → Refused limit client w e
    by_tests true wired client z k = cc
    by_tests false false client z k = cc
    by_tests false true none z k = cc
    by_tests false true (some host) z k =
        by_host host (limit.is_non_public_client_ip host) refl (ground arith) k
