-- ===== src/Registry/StoreTests.antt =====
-- Runs of the registry of src/registry/registry.c over a store that is a list of files.
use buckets.Prelude.{◌≡◌, refl, sym, ◌∙◌, subst, true, false, [], ◌∷◌, some, replicate, arith, inl}
use buckets.Prelude.Maybe.{some_injective}
use buckets.Prelude.Int.{pos, ◌+ℤ◌, ltb_ℤ}
use buckets.Text.{codes}
use buckets.Topology.Sample.{Drive, sample, read_file}
use buckets.Job.Sample.{flat}
use buckets.Registry.{LocationCache, cache_create, cache_put}
use buckets.Registry.Invariant.{IsSound, Fits}
use buckets.Registry.Lookup.{cache_create-IsSound, cache_put_lem}
use buckets.Registry.Location.{ObjectLocation, build_key, location_to_json, entry_name}
use buckets.Registry.Store.{
  ObjectStore, Registry, record_location, lookup_location, delete_location, load_location,
}
use buckets.Registry.Coherence.{lookup-record_location, lookup-delete_location}

-- A store that keeps what it is given and fails to delete.
abbrev keeping : ObjectStore Drive
keeping = record {
  put_object = λ d name text. ((sample.write d name text).0, true);
  get_object = read_file;
  delete_object = λ d name. (d, false);
}

abbrev photo : ObjectLocation
photo = record {
  bucket = codes "b";
  object = codes "photo";
  version_id = codes "v1";
  pool_idx = 0;
  set_idx = 2;
  disk_count = 2;
  disk_idxs = 4 ∷ 5 ∷ replicate 14 0;
  generation = 3;
  mod_time = pos 1700000000;
  size = 4096;
}

abbrev cache : LocationCache ObjectLocation
cache = cache_create 10 300

abbrev fresh : Registry Drive
fresh = record { cache = some cache; initialized = true; store = [] }

records : (record_location flat keeping fresh (pos 100) photo).1 ≡ true
unfolding record_location location_to_json
records = refl

in_time : ltb_ℤ (pos 100 +ℤ pos cache.ttl_seconds) (pos 350) ≡ false
unfolding cache_create ◌+ℤ◌
in_time = refl

cache-Fits : Fits cache
unfolding cache_create
cache-Fits = inl (omega arith)

lookup-record_location_example :
    ((lookup_location flat keeping
        (record_location flat keeping fresh (pos 100) photo).0
        (pos 350)
        (codes "b")
        (codes "photo")
        (some (codes "v1"))).1
      ≡ some photo)
    × ((lookup_location flat keeping
          (record_location flat keeping fresh (pos 100) photo).0
          (pos 350)
          (codes "b")
          (codes "photo")
          (some (codes "v1"))).0.store
        ≡ (record_location flat keeping fresh (pos 100) photo).0.store)
lookup-record_location_example =
    lookup-record_location flat keeping fresh cache (pos 100) (pos 350) photo refl refl
      (cache_create-IsSound 10 300) cache-Fits in_time records

-- The registry with the photo in its cache and in its store, which fails to delete it.
abbrev recorded : Registry Drive
recorded = (record_location flat keeping fresh (pos 100) photo).0

abbrev filled : LocationCache ObjectLocation
filled = cache_put cache (pos 100) (build_key (codes "b") (codes "photo") (codes "v1")) photo

filled-IsSound : IsSound filled
unfolding build_key
filled-IsSound =
    (cache_put_lem cache (pos 100) (build_key (codes "b") (codes "photo") (codes "v1")) photo []
      (cache_create-IsSound 10 300) cache-Fits refl).0

recorded_on : recorded.initialized ≡ true
unfolding record_location location_to_json
recorded_on = refl

recorded_cache : recorded.cache ≡ some filled
unfolding record_location location_to_json
recorded_cache = refl

recorded-IsSound : (c : LocationCache ObjectLocation) → recorded.cache ≡ some c → IsSound c
recorded-IsSound c e =
    subst IsSound (some_injective filled c (sym recorded_cache ∙ e)) filled-IsSound

lookup-delete_location_example :
    ((delete_location flat keeping recorded (codes "b") (codes "photo") (some (codes "v1"))).1
      ≡ true)
    × ((lookup_location flat keeping
          (delete_location flat keeping recorded (codes "b") (codes "photo") (some (codes "v1"))).0
          (pos 200)
          (codes "b")
          (codes "photo")
          (some (codes "v1"))).1
        ≡ load_location flat keeping
            (keeping.delete_object recorded.store
              (entry_name (codes "b") (codes "photo") (codes "v1"))).0
            (entry_name (codes "b") (codes "photo") (codes "v1")))
lookup-delete_location_example =
    lookup-delete_location flat keeping recorded (pos 200) (codes "b") (codes "photo")
      (some (codes "v1")) recorded_on recorded-IsSound
