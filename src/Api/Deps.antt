-- ===== src/Api/Deps.antt =====
-- api/deps.py and core/signing.py: the guards of a request.
pub mod Transaction
pub mod Signed
pub mod Limited
use sentinel_brief.Prelude.{
  Text, codes, ℕ, ◌-◌, ◌+◌, ◌*◌, ◌/◌, ◌%◌, String, Bool, true, false, not, ◌&&◌, ◌||◌, ◌==◌, ltb,
  leb, Option, none, some, List, [], ◌∷◌, ◌++◌, Result, ok, err, if◌then◌else◌, length, drop, All,
}
use sentinel_brief.Core.Errors.{Exn}
use sentinel_brief.Core.Session.{Session, commit, Database, open_session, rolled_back}
use sentinel_brief.Action.{Action, pure, raise, ◌>>=◌, ◌>>◌}

-- `get_session`: one transaction around the route, rolled back when it raises.
unfoldable pub in_session :
    {W A : Type 0} → Database W → Action (Session W) A → Action (Session W) A
in_session database route s = rolled_back ((do a ← route; commit database; pure a) (open_session s))

-- The digits of latin-1, in which the server decodes a header: the superscripts one to three are
-- digits for `str.isdigit`, but not for `int`.
abbrev is_decimal : ℕ → Bool
is_decimal c = leb 48 c && leb c 57

abbrev is_digit : ℕ → Bool
is_digit c = is_decimal c || c == 0xb2 || c == 0xb3 || c == 0xb9

unfoldable pub all_digits : Text → Bool
all_digits [] = true
all_digits (c ∷ cs) = is_digit c && all_digits cs

-- `str.isdigit`
unfoldable pub isdigit : Text → Bool
unfolding all_digits
isdigit [] = false
isdigit (c ∷ cs) = all_digits (c ∷ cs)

-- `int`, which raises ValueError of any other digit.
unfoldable pub int_onto : ℕ → Text → Result Exn ℕ
int_onto n [] = ok n
int_onto n (c ∷ cs) =
    if is_decimal c then int_onto (10 * n + (c - 48)) cs else err (Exn.other "ValueError")

-- It refuses more than 4300 digits too.
abbrev int_of : Text → Result Exn ℕ
int_of header = if ltb 4300 (length header) then err (Exn.other "ValueError") else int_onto 0 header

abbrev within : ℕ → Result Exn ℕ → Result Exn (Unit {0})
within ingest_max_body_bytes (err e) = err e
within ingest_max_body_bytes (ok declared) =
    if ltb ingest_max_body_bytes declared then err Exn.payload_too_large else ok tt

-- `require_content_length`
unfoldable pub require_content_length : ℕ → Option Text → Result Exn (Unit {0})
unfolding isdigit int_onto
require_content_length ingest_max_body_bytes none = err Exn.length_required
require_content_length ingest_max_body_bytes (some header) =
    if not (isdigit header)
    then err Exn.length_required
    else within ingest_max_body_bytes (int_of header)

unfoldable pub equal_texts : Text → Text → Bool
equal_texts [] [] = true
equal_texts [] (y ∷ ys) = false
equal_texts (x ∷ xs) [] = false
equal_texts (x ∷ xs) (y ∷ ys) = x == y && equal_texts xs ys

-- `text[len(prefix):]` when the text starts with the prefix.
unfoldable pub after_prefix : Text → Text → Option Text
after_prefix [] text = some text
after_prefix (p ∷ ps) [] = none
after_prefix (p ∷ ps) (c ∷ cs) = elim (p == c) [ true ↦ after_prefix ps cs | false ↦ none ]

unfoldable pub is_ascii : Text → Bool
is_ascii [] = true
is_ascii (c ∷ cs) = ltb c 128 && is_ascii cs

abbrev pub is_empty : Text → Bool
is_empty [] = true
is_empty (c ∷ cs) = false

abbrev pub prefix : Text
prefix = codes "sha256="

-- core/signing.py; `hmac_hex secret body` is the hex HMAC-SHA256 digest of the library.
module _ (hmac_hex : Text → Text → Text) where
  unfoldable pub sign_body : Text → Text → Text
  sign_body secret body = prefix ++ hmac_hex secret body

  abbrev pub digest_matches : Text → Text → Option Text → Bool
  unfolding is_ascii equal_texts
  digest_matches secret body none = false
  digest_matches secret body (some candidate) =
      if not (is_ascii candidate) then false else equal_texts candidate (hmac_hex secret body)

  abbrev pub header_matches : Text → Text → Option Text → Bool
  header_matches secret body none = false
  header_matches secret body (some header) = digest_matches secret body (after_prefix prefix header)

  unfoldable pub verify_signature : Text → Text → Option Text → Bool
  unfolding after_prefix is_ascii equal_texts
  verify_signature secret body header =
      if is_empty secret then false else header_matches secret body header

  unfoldable pub require_signature : Text → Text → Option Text → Result Exn (Unit {0})
  unfolding verify_signature
  require_signature secret body header =
      if not (verify_signature secret body header) then err Exn.signature_error else ok tt

-- A client that `rate_limit` may count, and its bucket.
pub record RateLimit (W : Type 0) : Type 0 where
  pub public_rate_limit_per_min : ℕ
  pub redis_wired : Bool
  pub is_non_public_client_ip : String → Bool
  -- INCR and EXPIRE of the key of a host and a minute; `none` is a RedisError or an OSError
  pub incr : String → ℕ → W → Option ℕ × W
  -- `int(time.time())`
  pub now : W → ℕ

module _ {W : Type 0} (limit : RateLimit W) where
  abbrev pub counted : ℕ → Option ℕ × W → Result Exn (Unit {0}) × W
  counted now (none, w) = (ok tt, w)
  counted now (some count, w) =
      if ltb limit.public_rate_limit_per_min count
      then (err (Exn.rate_limited (some (60 - now % 60))), w)
      else (ok tt, w)

  -- `rate_limit`, by the peer's address.
  unfoldable pub rate_limit : Option String → W → Result Exn (Unit {0}) × W
  rate_limit client w =
      if limit.public_rate_limit_per_min == 0 || not limit.redis_wired
      then (ok tt, w)
      else elim client [
        | none ↦ (ok tt, w)
        | some host ↦
            if limit.is_non_public_client_ip host
            then (ok tt, w)
            else counted (limit.now w) (limit.incr host (limit.now w / 60) w)
      ]
