-- ===== src/Core/Cache/Bounded.antt =====
-- core/cache.py: the cache never grows past its bound, and what is stored can be read until it
-- expires.
use sentinel_brief.Prelude.{
  ℕ, ◌+◌, ◌≤◌, ◌<◌, ◌≡◌, ◌-◌, suc, String, true, eq_iff, ltb, arith, none, some, List, [], ◌∷◌,
  length, if◌then◌else◌,
}
use sentinel_brief.Core.Cache.{
  Entry, has_key, lookup, delete, assign, purge, soonest, evicted, make_room, set, get,
}

module _ {V : Type 0} where
  length-purge : (now : ℕ) (es : List (Entry V)) → length (purge now es) ≤ length es
  unfolding purge
  length-purge now [] = omega arith
  length-purge now (e ∷ es) = ground (arith, length-purge now es)

  has_key-soonest : (x : Entry V) (es : List (Entry V)) → has_key (soonest x es).key (x ∷ es) ≡ true
  unfolding soonest has_key
  has_key-soonest x [] = ground (arith, eq_iff x.key x.key)
  has_key-soonest x (e ∷ es) = ground (arith, has_key-soonest x es, has_key-soonest e es)

  length-delete :
      (key : String) (es : List (Entry V))
      → has_key key es ≡ true
      → suc (length (delete key es)) ≡ length es
  unfolding has_key delete
  length-delete key [] h = cc
  length-delete key (e ∷ es) h = ground (arith, length-delete key es)

  length-evicted : (es : List (Entry V)) → length (evicted es) ≡ length es - 1
  length-evicted [] = omega arith
  length-evicted (e ∷ es) =
      omega (arith, length-delete (soonest e es).key (e ∷ es) (has_key-soonest e es))

  length-make_room :
      (max_entries now : ℕ) (es : List (Entry V))
      → 1 ≤ max_entries
      → length es ≤ max_entries
      → length (make_room max_entries now es) < max_entries
  unfolding make_room
  length-make_room n now es h k = ground (arith, length-evicted (purge now es), length-purge now es)

  length-assign : (x : Entry V) (es : List (Entry V)) → length (assign x es) ≤ suc (length es)
  unfolding assign
  length-assign x [] = omega arith
  length-assign x (e ∷ es) = ground (arith, length-assign x es)

  length-assign_known :
      (x : Entry V) (es : List (Entry V))
      → has_key x.key es ≡ true
      → length (assign x es) ≡ length es
  unfolding assign has_key
  length-assign_known x [] h = cc
  length-assign_known x (e ∷ es) h = ground (arith, length-assign_known x es)

  lookup-assign : (x : Entry V) (es : List (Entry V)) → lookup x.key (assign x es) ≡ some x
  unfolding assign lookup
  lookup-assign x [] = ground (arith, eq_iff x.key x.key)
  lookup-assign x (e ∷ es) = ground (arith, eq_iff x.key x.key, lookup-assign x es)

abbrev entry_of : {V : Type 0} → String → ℕ → V → Entry V
entry_of key expires_at value = record { key = key; expires_at = expires_at; value = value }

-- Storing never makes the cache longer than its bound: a new key at the bound first drops what is
-- expired, and then the entry that expires soonest.
set-bounded :
    {V : Type 0} (max_entries : ℕ) (key : String) (value : V) (ttl_s now later : ℕ)
    (es es' : List (Entry V))
    → 1 ≤ max_entries
    → length es ≤ max_entries
    → set max_entries key value ttl_s now later es ≡ some es'
    → length es' ≤ max_entries
unfolding set
set-bounded n key value ttl_s now later es es' h k e = ground (
  arith,
  length-make_room n now es h k,
  length-assign (entry_of key (later + ttl_s) value) es,
  length-assign (entry_of key (later + ttl_s) value) (make_room n now es),
  length-assign_known (entry_of key (later + ttl_s) value) es,
)

-- A stored value is read back until its time to live, counted from the second reading of the
-- clock, has passed; from then on a read misses. The value has a positive time to live.
get-set :
    {V : Type 0} (max_entries : ℕ) (key : String) (value : V) (ttl_s now later t : ℕ)
    (es es' : List (Entry V))
    → set max_entries key value ttl_s now later es ≡ some es'
    → (get t key es').0 ≡ (if ltb t (later + ttl_s) then some value else none)
unfolding set get
get-set n key value ttl_s now later t es es' e = ground (
  arith,
  lookup-assign (entry_of key (later + ttl_s) value) es,
  lookup-assign (entry_of key (later + ttl_s) value) (make_room n now es),
)
