-- ===== src/Registry/Store.antt =====
-- The operations of src/registry/registry.c over the cache and the bucket that holds the registry.
use buckets.Prelude.{ℕ, ◌+◌, Bool, true, false, List, [], ◌∷◌, Option, none, some, if◌then◌else◌}
use buckets.Prelude.Int.{ℤ}
use buckets.Text.{Bytes, codes}
use buckets.Json.{Platform, or_default}
use buckets.Registry.{LocationCache, cache_create, cache_get, cache_put, cache_invalidate}
use buckets.Registry.Location.{
  ObjectLocation, build_key, entry_name, location_to_json, location_from_json,
}

-- The objects of the bucket .buckets-registry: `buckets_put_object`, `buckets_get_object` and
-- `buckets_distributed_delete_object`; true is the return of 0.
pub record ObjectStore (S : Type 0) : Type 0 where
  pub put_object : S → Bytes → Bytes → S × Bool
  pub get_object : S → Bytes → Option Bytes
  pub delete_object : S → Bytes → S × Bool

-- `g_registry`, with the store.
pub record Registry (S : Type 0) : Type 0 where
  pub cache : Option (LocationCache ObjectLocation)
  pub initialized : Bool
  pub store : S

-- `buckets_registry_config_t`.
pub record Config : Type 0 where
  pub cache_size : ℕ
  pub cache_ttl_seconds : ℕ
  pub enable_cache : Bool

abbrev pub default_config : Config
default_config = record { cache_size = 1000000; cache_ttl_seconds = 300; enable_cache = true }

abbrev pub version_or_latest : Option Bytes → Bytes
version_or_latest none = codes "latest"
version_or_latest (some version_id) = version_id

-- The operations on the cache, where there is one.
abbrev pub put_cached :
    Option (LocationCache ObjectLocation)
    → ℤ
    → Bytes
    → ObjectLocation
    → Option (LocationCache ObjectLocation)
put_cached none now key location = none
put_cached (some c) now key location = some (cache_put c now key location)

abbrev pub get_cached :
    Option (LocationCache ObjectLocation)
    → ℤ
    → Bytes
    → Option (LocationCache ObjectLocation) × Option ObjectLocation
get_cached none now key = (none, none)
get_cached (some c) now key = (some (cache_get c now key).0, (cache_get c now key).1)

abbrev pub drop_cached :
    Option (LocationCache ObjectLocation) → Bytes → Option (LocationCache ObjectLocation)
drop_cached none key = none
drop_cached (some c) key = some (cache_invalidate c key).0

module _ {S : Type 0} where
  -- `buckets_registry_init` and `buckets_registry_cleanup`.
  unfoldable pub registry_init : Option Config → Registry S → Registry S
  registry_init config r =
      let c = or_default config default_config in
      if r.initialized then r else record r {
        initialized = true;
        cache =
            if c.enable_cache
            then some (cache_create c.cache_size c.cache_ttl_seconds)
            else r.cache;
      }

  abbrev pub registry_cleanup : Registry S → Registry S
  registry_cleanup r = if r.initialized then record r { cache = none; initialized = false } else r

  abbrev pub after_put : Registry S → ℤ → Bytes → ObjectLocation → S × Bool → Registry S × Bool
  after_put r now key location (store, false) = (record r { store = store }, false)
  after_put r now key location (store, true) =
      (record r { store = store; cache = put_cached r.cache now key location }, true)

  -- A lookup that has gone to the store.
  abbrev pub fetched :
      Registry S → ℤ → Bytes → Option ObjectLocation → Registry S × Option ObjectLocation
  fetched r now key none = (r, none)
  fetched r now key (some location) =
      (record r { cache = put_cached r.cache now key location }, some location)

module _ {J Disks S : Type 0} (p : Platform J Disks) (o : ObjectStore S) where
  abbrev pub key_of : ObjectLocation → Bytes
  key_of l = build_key l.bucket l.object l.version_id

  abbrev pub write_json : Registry S → ℤ → ObjectLocation → Option Bytes → Registry S × Bool
  write_json r now l none = (r, false)
  write_json r now l (some json) =
      after_put r now (build_key l.bucket l.object l.version_id) l
        (o.put_object r.store (entry_name l.bucket l.object l.version_id) json)

  -- `buckets_registry_record` at the time `now`; true is the return of 0.
  unfoldable pub record_location : Registry S → ℤ → ObjectLocation → Registry S × Bool
  unfolding location_to_json build_key cache_put
  record_location r now l =
      if r.initialized then write_json r now l (location_to_json p l) else (r, false)

  -- What the store has for a key.
  unfoldable pub load_location : S → Bytes → Option ObjectLocation
  unfolding location_from_json
  load_location store name = elim (o.get_object store name) [
    | none ↦ none
    | some json ↦ location_from_json p json
  ]

  abbrev pub answered :
      Registry S
      → ℤ
      → Bytes
      → Bytes
      → Option (LocationCache ObjectLocation) × Option ObjectLocation
      → Registry S × Option ObjectLocation
  answered r now key name (cache, some location) = (record r { cache = cache }, some location)
  answered r now key name (cache, none) =
      fetched (record r { cache = cache }) now key (load_location r.store name)

  -- `buckets_registry_lookup` at the time `now`.
  unfoldable pub lookup_location :
      Registry S → ℤ → Bytes → Bytes → Option Bytes → Registry S × Option ObjectLocation
  unfolding load_location build_key cache_get cache_put
  lookup_location r now bucket object version_id =
      let vid = version_or_latest version_id in
      let key = build_key bucket object vid in
      if r.initialized
      then answered r now key (entry_name bucket object vid) (get_cached r.cache now key)
      else (r, none)

  -- `buckets_registry_delete`; it succeeds whether or not the store does.
  unfoldable pub delete_location : Registry S → Bytes → Bytes → Option Bytes → Registry S × Bool
  unfolding build_key cache_invalidate
  delete_location r bucket object version_id =
      let vid = version_or_latest version_id in
      if r.initialized
      then (
        record r {
          store = (o.delete_object r.store (entry_name bucket object vid)).0;
          cache = drop_cached r.cache (build_key bucket object vid);
        },
        true,
      )
      else (r, false)

  -- `buckets_registry_cache_invalidate`.
  abbrev pub invalidated :
      Registry S → Bytes → Option (LocationCache ObjectLocation) → Registry S × Bool
  invalidated r key none = (r, false)
  invalidated r key (some c) =
      (record r { cache = some (cache_invalidate c key).0 }, (cache_invalidate c key).1)

  unfoldable pub invalidate_location : Registry S → Bytes → Bytes → Option Bytes → Registry S × Bool
  unfolding build_key cache_invalidate
  invalidate_location r bucket object version_id =
      if r.initialized
      then invalidated r (build_key bucket object (version_or_latest version_id)) r.cache
      else (r, false)

  -- `buckets_registry_update`; none is the read of a cache that there is not.
  unfoldable pub update_location :
      Registry S → ℤ → Bytes → Bytes → Bytes → ObjectLocation → Option (Registry S × Bool)
  unfolding record_location build_key cache_invalidate
  update_location r now bucket object version_id l =
      if r.initialized
      then elim r.cache [
        | none ↦ none
        | some c ↦ some (
            record_location
              (record r {
                cache = some (cache_invalidate c (build_key bucket object version_id)).0;
              })
              now l)
      ]
      else some (r, false)

  -- The loops of `buckets_registry_record_batch` and `buckets_registry_lookup_batch` over what there is; the first
  -- gives how many were recorded.
  unfoldable pub record_batch : Registry S → ℤ → List ObjectLocation → Registry S × ℕ
  unfolding record_location
  record_batch r now [] = (r, 0)
  record_batch r now (l ∷ ls) =
      let one = record_location r now l in
      let rest = record_batch one.0 now ls in (rest.0, if one.1 then rest.1 + 1 else rest.1)

  unfoldable pub lookup_batch :
      Registry S
      → ℤ
      → List (Bytes × Bytes × Option Bytes)
      → Registry S × List (Option ObjectLocation)
  unfolding lookup_location
  lookup_batch r now [] = (r, [])
  lookup_batch r now ((bucket, object, version_id) ∷ keys) =
      let one = lookup_location r now bucket object version_id in
      let rest = lookup_batch one.0 now keys in (rest.0, one.1 ∷ rest.1)
