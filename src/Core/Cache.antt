-- ===== src/Core/Cache.antt =====
-- core/cache.py: `InMemoryTTLCache`.
pub mod Bounded
use sentinel_brief.Prelude.{
  ℕ, ◌+◌, String, Bool, true, false, not, ◌&&◌, ◌||◌, ◌==ₛ◌, ltb, leb, ◌==◌, Option, none, some,
  List, [], ◌∷◌, length, Result, ok, err, if◌then◌else◌,
}

-- One item of the dict, which keeps the order of insertion.
pub record Entry (V : Type 0) : Type 0 where
  pub key : String
  pub expires_at : ℕ
  pub value : V

module _ {V : Type 0} where
  unfoldable pub has_key : String → List (Entry V) → Bool
  has_key key [] = false
  has_key key (e ∷ es) = e.key ==ₛ key || has_key key es

  unfoldable pub lookup : String → List (Entry V) → Option (Entry V)
  lookup key [] = none
  lookup key (e ∷ es) = if e.key ==ₛ key then some e else lookup key es

  unfoldable pub delete : String → List (Entry V) → List (Entry V)
  delete key [] = []
  delete key (e ∷ es) = if e.key ==ₛ key then es else e ∷ delete key es

  -- Assignment to a key: in place, or at the end.
  unfoldable pub assign : Entry V → List (Entry V) → List (Entry V)
  assign x [] = x ∷ []
  assign x (e ∷ es) = if e.key ==ₛ x.key then x ∷ es else e ∷ assign x es

  unfoldable pub purge : ℕ → List (Entry V) → List (Entry V)
  purge now [] = []
  purge now (e ∷ es) = if leb e.expires_at now then purge now es else e ∷ purge now es

  -- `min(…, key=…)`: the first of the smallest.
  unfoldable pub soonest : Entry V → List (Entry V) → Entry V
  soonest x [] = x
  soonest x (e ∷ es) = if ltb e.expires_at x.expires_at then soonest e es else soonest x es

  abbrev pub evicted : List (Entry V) → List (Entry V)
  evicted [] = []
  evicted (e ∷ es) = delete (soonest e es).key (e ∷ es)

  -- Room for a new key, with the clock read once.
  unfoldable pub make_room : ℕ → ℕ → List (Entry V) → List (Entry V)
  unfolding purge delete soonest
  make_room max_entries now es =
      let left = purge now es in if leb max_entries (length left) then evicted left else left

  -- `set`, with the two readings of the clock; none is the ValueError of a ttl of 0.
  unfoldable pub set : ℕ → String → V → ℕ → ℕ → ℕ → List (Entry V) → Option (List (Entry V))
  unfolding make_room has_key assign
  set max_entries key value ttl_s now later es =
      if ttl_s == 0
      then none
      else some (
          assign (record { key = key; expires_at = later + ttl_s; value = value })
            (if not (has_key key es) && leb max_entries (length es)
              then make_room max_entries now es
              else es))

  abbrev pub got : ℕ → String → Option (Entry V) → List (Entry V) → Option V × List (Entry V)
  got now key none es = (none, es)
  got now key (some e) es =
      if leb e.expires_at now then (none, delete key es) else (some e.value, es)

  unfoldable pub get : ℕ → String → List (Entry V) → Option V × List (Entry V)
  unfolding lookup delete
  get now key es = got now key (lookup key es) es
