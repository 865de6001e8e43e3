-- ===== src/Registry/Tests.antt =====
-- Runs of the cache of src/registry/registry.c, and its theorems at a concrete cache.
use buckets.Prelude.{ℕ, ◌≡◌, ◌≤◌, refl, ◌⊎◌, inl, none, some, arith}
use buckets.Prelude.Int.{pos, ◌+ℤ◌}
use buckets.Text.{Bytes, codes}
use buckets.Hash.Xx.{xxhash64}
use buckets.Registry.{
  LocationCache, cache_hash, cache_create, find, unchain, lru_remove, lru_tail, cache_evict_lru,
  new_entry, cache_get, cache_put,
}
use buckets.Registry.Table.{lookup}
use buckets.Registry.Invariant.{IsSound, Fits}
use buckets.Registry.Lookup.{cache_put_lem, cache_create-IsSound}

-- A cache of one entry; a location is a number here.
abbrev fresh : LocationCache ℕ
fresh = cache_create 1 300

abbrev key_a : Bytes
key_a = codes "b/a/latest"

abbrev key_c : Bytes
key_c = codes "b/c/latest"

abbrev one : LocationCache ℕ
one = cache_put fresh (pos 100) key_a 7

-- The second put evicts the first entry.
evicted_first : (cache_get (cache_put one (pos 101) key_c 8) (pos 102) key_a).1 ≡ none
unfolding cache_get cache_put cache_create cache_hash xxhash64 cache_evict_lru unchain find
    lru_remove
evicted_first = refl

-- An entry is given out up to its expiry.
until_expiry : (cache_get one (pos 400) key_a).1 ≡ some 7
unfolding cache_get cache_put cache_create cache_hash xxhash64 ◌+ℤ◌
until_expiry = refl

one-IsSound : IsSound one × Fits one
unfolding cache_create
one-IsSound =
    let told =
      cache_put_lem fresh (pos 100) key_a 7 key_c (cache_create-IsSound 1 300) (inl (omega arith))
        refl in
    (told.0, told.1)

cache_put_lem_example :
    IsSound (cache_put one (pos 101) key_c 8)
    × Fits (cache_put one (pos 101) key_c 8)
    × (lookup (cache_put one (pos 101) key_c 8) key_c ≡ some (new_entry one (pos 101) key_c 8))
    × ((lookup (cache_put one (pos 101) key_c 8) key_a ≡ lookup one key_a)
        ⊎ ((lookup (cache_put one (pos 101) key_c 8) key_a ≡ none)
            × (lru_tail one.lru ≡ some key_a)
            × (one.max_entries ≤ one.entry_count)))
cache_put_lem_example = cache_put_lem one (pos 101) key_c 8 key_a one-IsSound.0 one-IsSound.1 refl
