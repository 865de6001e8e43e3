-- ===== src/Registry.antt =====
-- The cache of object locations of src/registry/registry.c: a hash table whose entries are also on a list by
-- their last use.
pub mod Chain
pub mod Table
pub mod Invariant
pub mod Eviction
pub mod Lookup
pub mod Location
pub mod Store
pub mod Keys
pub mod Coherence
mod Tests
mod StoreTests
use buckets.Prelude.{
  ℕ, zero, suc, ◌+◌, ◌-◌, ◌/◌, ◌%◌, Bool, true, false, not, List, [], ◌∷◌, ◌++◌, Option, none, some,
  length, get_or, set, replicate, if◌then◌else◌, leb, ◌==◌,
}
use buckets.Prelude.Int.{ℤ, pos, ◌+ℤ◌, ltb_ℤ}
use buckets.Text.{Bytes, same_text}
use buckets.Hash.Xx.{xxhash64}

-- `registry_cache_entry_t`; the location is copied whole, and its type is `L`.
pub record Entry (L : Type 0) : Type 0 where
  pub key : Bytes
  pub location : L
  pub expiry : ℤ

-- `registry_cache_t`. The LRU list, most recent first, is the list of its entries' keys.
pub record LocationCache (L : Type 0) : Type 0 where
  pub buckets : List (List (Entry L))
  pub bucket_count : ℕ
  pub entry_count : ℕ
  pub max_entries : ℕ
  pub ttl_seconds : ℕ
  pub lru : List Bytes
  pub hits : ℕ
  pub misses : ℕ
  pub evictions : ℕ

unfoldable pub cache_hash : Bytes → ℕ → ℕ
cache_hash key bucket_count = xxhash64 0 key % bucket_count

-- `n | 1`.
abbrev pub odd_of : ℕ → ℕ
odd_of n = if n % 2 == 0 then n + 1 else n

-- `cache_lru_remove` of the entry with the key, and the tail of the list.
unfoldable pub lru_remove : Bytes → List Bytes → List Bytes
lru_remove key [] = []
lru_remove key (k ∷ ks) = if same_text k key then ks else k ∷ lru_remove key ks

abbrev pub lru_tail : List Bytes → Option Bytes
lru_tail [] = none
lru_tail (k ∷ []) = some k
lru_tail (k ∷ k' ∷ ks) = lru_tail (k' ∷ ks)

module _ {L : Type 0} where
  unfoldable pub cache_create : ℕ → ℕ → LocationCache L
  cache_create max_entries ttl_seconds = record {
    buckets = replicate (odd_of (max_entries / 10)) [];
    bucket_count = odd_of (max_entries / 10);
    entry_count = 0;
    max_entries = max_entries;
    ttl_seconds = ttl_seconds;
    lru = [];
    hits = 0;
    misses = 0;
    evictions = 0;
  }

  -- The walk along the chain of a bucket, and the chain without the first entry of the key.
  unfoldable pub find : List (Entry L) → Bytes → Option (Entry L)
  find [] key = none
  find (e ∷ es) key = if same_text e.key key then some e else find es key

  unfoldable pub unchain : Bytes → List (Entry L) → List (Entry L)
  unchain key [] = []
  unchain key (e ∷ es) = if same_text e.key key then es else e ∷ unchain key es

  -- The write of a new location and expiry to the entry found.
  unfoldable pub rewrite : Entry L → List (Entry L) → List (Entry L)
  rewrite fresh [] = []
  rewrite fresh (e ∷ es) = if same_text e.key fresh.key then fresh ∷ es else e ∷ rewrite fresh es

  abbrev pub chain_of : LocationCache L → Bytes → List (Entry L)
  chain_of c key = get_or c.buckets (cache_hash key c.bucket_count) []

  abbrev pub with_chain : LocationCache L → Bytes → List (Entry L) → LocationCache L
  with_chain c key chain = record c {
    buckets = set c.buckets (cache_hash key c.bucket_count) chain;
  }

  -- `cache_lru_remove` and `cache_lru_add_head` of the entry with the key.
  abbrev pub touched : LocationCache L → Bytes → LocationCache L
  touched c key = record c { lru = key ∷ lru_remove key c.lru }

  unfoldable pub cache_evict_lru : LocationCache L → LocationCache L
  cache_evict_lru c = elim (lru_tail c.lru) [
    | none ↦ c
    | some victim ↦ record (with_chain c victim (unchain victim (chain_of c victim))) {
      lru = lru_remove victim c.lru;
      entry_count = c.entry_count - 1;
      evictions = c.evictions + 1;
    }
  ]

  -- `cache_get` at the time `now`, with nothing between its two locks.
  abbrev pub get_found : LocationCache L → ℤ → Bytes → Option (Entry L) → LocationCache L × Option L
  get_found c now key none = (record c { misses = c.misses + 1 }, none)
  get_found c now key (some e) =
      if ltb_ℤ e.expiry now
      then (record c { misses = c.misses + 1 }, none)
      else (record (touched c key) { hits = c.hits + 1 }, some e.location)

  unfoldable pub cache_get : LocationCache L → ℤ → Bytes → LocationCache L × Option L
  unfolding find lru_remove
  cache_get c now key = get_found c now key (find (chain_of c key) key)

  abbrev pub new_entry : LocationCache L → ℤ → Bytes → L → Entry L
  new_entry c now key location = record {
    key = key;
    location = location;
    expiry = now +ℤ pos c.ttl_seconds;
  }

  abbrev pub make_room : LocationCache L → LocationCache L
  make_room c = if leb c.max_entries c.entry_count then cache_evict_lru c else c

  abbrev pub insert_first : LocationCache L → Entry L → LocationCache L
  insert_first c e = record (with_chain c e.key (e ∷ chain_of c e.key)) {
    lru = e.key ∷ c.lru;
    entry_count = c.entry_count + 1;
  }

  abbrev pub put_found : LocationCache L → Entry L → Option (Entry L) → LocationCache L
  put_found c fresh (some e) =
      touched (with_chain c fresh.key (rewrite fresh (chain_of c fresh.key))) fresh.key
  put_found c fresh none = insert_first (make_room c) fresh

  -- `cache_put` at the time `now`.
  unfoldable pub cache_put : LocationCache L → ℤ → Bytes → L → LocationCache L
  unfolding find rewrite lru_remove cache_evict_lru
  cache_put c now key location =
      put_found c (new_entry c now key location) (find (chain_of c key) key)

  abbrev pub invalidate_found : LocationCache L → Bytes → Option (Entry L) → LocationCache L × Bool
  invalidate_found c key none = (c, false)
  invalidate_found c key (some e) = (
    record (with_chain c key (unchain key (chain_of c key))) {
      lru = lru_remove key c.lru;
      entry_count = c.entry_count - 1;
    },
    true,
  )

  -- `cache_invalidate`; false is the -1 of a key that is not there.
  unfoldable pub cache_invalidate : LocationCache L → Bytes → LocationCache L × Bool
  unfolding find unchain lru_remove
  cache_invalidate c key = invalidate_found c key (find (chain_of c key) key)

  unfoldable pub cache_clear : LocationCache L → LocationCache L
  cache_clear c = record c { buckets = replicate c.bucket_count []; entry_count = 0; lru = [] }
