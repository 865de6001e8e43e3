-- ===== src/Registry/Coherence.antt =====
-- What a lookup in src/registry/registry.c answers after a location was recorded, looked up or deleted.
use buckets.Prelude.{
  ◌≡◌, refl, sym, ap, ◌∙◌, subst, Bool, true, false, ◌∷◌, Option, some, none, length, if◌then◌else◌,
  arith, Bool-cases, inl, inr,
}
use buckets.Prelude.Maybe.{some_injective}
use buckets.Prelude.Int.{ℤ, pos, ◌+ℤ◌, ltb_ℤ}
use buckets.Text.{Bytes, same_text, same_text_iff}
use buckets.Json.{Platform}
use buckets.Registry.{
  LocationCache, Entry, cache_get, cache_put, cache_invalidate, get_found, new_entry,
}
use buckets.Registry.Table.{lookup}
use buckets.Registry.Invariant.{IsSound, Fits}
use buckets.Registry.Lookup.{cache_put_lem, cache_get_lem, cache_invalidate_lem}
use buckets.Registry.Location.{ObjectLocation, build_key, entry_name, location_to_json}
use buckets.Registry.Store.{
  ObjectStore, Registry, version_or_latest, put_cached, get_cached, drop_cached, after_put, fetched,
  key_of, write_json, record_location, load_location, answered, lookup_location, delete_location,
}

longer_differs : (k : Bytes) → same_text k (0 ∷ k) ≡ false
longer_differs k = elim (Bool-cases (same_text k (0 ∷ k))) [
  | inl e ↦ absurd (omega (arith, ap length ((same_text_iff k (0 ∷ k)).0 e)))
  | inr e ↦ e
]

-- A cache that was given a location answers with it until it expires.
answers_put :
    (c : LocationCache ObjectLocation) (now later : ℤ) (key : Bytes) (l : ObjectLocation)
    → IsSound c
    → Fits c
    → ltb_ℤ (now +ℤ pos c.ttl_seconds) later ≡ false
    → (cache_get (cache_put c now key l) later key).1 ≡ some l
answers_put c now later key l s f t =
    let (sound, fits, found, rest) = cache_put_lem c now key l (0 ∷ key) s f (longer_differs key) in
    elim (cache_get_lem (cache_put c now key l) later key key sound fits).3 [
      | inl (gone, none_yet) ↦ cc
      | inr (e, there, answer) ↦
          let same = some_injective (new_entry c now key l) e (sym found ∙ there) in
          answer
          ∙ ap
              (λ (x : Entry ObjectLocation). if ltb_ℤ x.expiry later then none else some x.location)
              (sym same)
          ∙ rw t refl
    ]

cache_get_absent :
    (c : LocationCache ObjectLocation) (now : ℤ) (key : Bytes)
    → lookup c key ≡ none
    → (cache_get c now key).1 ≡ none
unfolding cache_get
cache_get_absent c now key h = ap (λ x. (get_found c now key x).1) h

-- A cache from which a key was dropped has no answer for it.
drop_cached_lem :
    (k : Option (LocationCache ObjectLocation)) (now : ℤ) (key : Bytes)
    → ((c : LocationCache ObjectLocation) → k ≡ some c → IsSound c)
    → (get_cached (drop_cached k key) now key).1 ≡ none
drop_cached_lem none now key s = refl
drop_cached_lem (some c) now key s =
    let (sound, gone, rest) =
      cache_invalidate_lem c key (0 ∷ key) (s c refl) (longer_differs key) in
    cache_get_absent (cache_invalidate c key).0 now key gone

module _ {J Disks S : Type 0} (p : Platform J Disks) (o : ObjectStore S) where
  after_put_lem :
      (r : Registry S) (now : ℤ) (key : Bytes) (l : ObjectLocation) (w : S × Bool)
      → (after_put r now key l w).1 ≡ true
      → (after_put r now key l w).0 ≡ record r { store = w.0; cache = put_cached r.cache now key l }
  after_put_lem r now key l (s, false) h = cc
  after_put_lem r now key l (s, true) h = refl

  -- A record that succeeds has put the location into the cache.
  write_json_lem :
      (r : Registry S) (now : ℤ) (l : ObjectLocation) (json : Option Bytes)
      → (write_json p o r now l json).1 ≡ true
      → (s : S) × ((write_json p o r now l json).0
          ≡ record r { store = s; cache = put_cached r.cache now (key_of p o l) l })
  write_json_lem r now l none h = cc
  write_json_lem r now l (some json) h =
      let w = o.put_object r.store (entry_name l.bucket l.object l.version_id) json in
      (w.0, after_put_lem r now (key_of p o l) l w h)

  record_location_lem :
      (r : Registry S) (now : ℤ) (l : ObjectLocation)
      → r.initialized ≡ true
      → (record_location p o r now l).1 ≡ true
      → (s : S) × ((record_location p o r now l).0
          ≡ record r { store = s; cache = put_cached r.cache now (key_of p o l) l })
  unfolding record_location
  record_location_lem r now l i h =
      let json = location_to_json p l in
      let on = ap (λ (b : Bool). if b then write_json p o r now l json else (r, false)) i in
      let w = write_json_lem r now l json (sym (ap (λ x. x.1) on) ∙ h) in
      (w.0, ap (λ x. x.0) on ∙ w.1)

  -- A lookup of a cached location.
  lookup_cached :
      (r : Registry S) (c : LocationCache ObjectLocation) (now : ℤ) (bucket object vid : Bytes)
      (l : ObjectLocation)
      → r.initialized ≡ true
      → r.cache ≡ some c
      → (cache_get c now (build_key bucket object vid)).1 ≡ some l
      → lookup_location p o r now bucket object (some vid)
        ≡ (record r { cache = some (cache_get c now (build_key bucket object vid)).0 }, some l)
  unfolding lookup_location
  lookup_cached r c now bucket object vid l i e h =
      let key = build_key bucket object vid in
      let name = entry_name bucket object vid in
      ap
        (λ (b : Bool).
          if b then answered p o r now key name (get_cached r.cache now key) else (r, none))
        i
      ∙ ap (λ k. answered p o r now key name (get_cached k now key)) e
      ∙ ap (λ a. answered p o r now key name (some (cache_get c now key).0, a)) h

  -- A location that has been recorded is what a lookup of its names answers, without the store, until it expires.
  pub lookup-record_location :
      (r : Registry S) (c : LocationCache ObjectLocation) (now later : ℤ) (l : ObjectLocation)
      → r.initialized ≡ true
      → r.cache ≡ some c
      → IsSound c
      → Fits c
      → ltb_ℤ (now +ℤ pos c.ttl_seconds) later ≡ false
      → (record_location p o r now l).1 ≡ true
      → ((lookup_location p o
            (record_location p o r now l).0
            later
            l.bucket
            l.object
            (some l.version_id)).1
          ≡ some l)
        × ((lookup_location p o
              (record_location p o r now l).0
              later
              l.bucket
              l.object
              (some l.version_id)).0.store
            ≡ (record_location p o r now l).0.store)
  lookup-record_location r c now later l i e s f t h =
      let (st, w) = record_location_lem r now l i h in
      let key = key_of p o l in
      let c' = cache_put c now key l in
      let r' : Registry S = record r { store = st; cache = some c' } in
      let full = w ∙ ap (λ k. record r { store = st; cache = put_cached k now key l }) e in
      let hit =
        lookup_cached r' c' later l.bucket l.object l.version_id l i refl
          (answers_put c now later key l s f t) in
      subst (Answers later l) (sym full) (ap (λ x. x.1) hit, ap (λ x. x.0.store) hit)
    where
      Answers : ℤ → ObjectLocation → Registry S → Type 0
      Answers later l q =
          ((lookup_location p o q later l.bucket l.object (some l.version_id)).1 ≡ some l)
          × ((lookup_location p o q later l.bucket l.object (some l.version_id)).0.store ≡ q.store)

  fetched_lem :
      (r : Registry S) (now : ℤ) (key : Bytes) (l : Option ObjectLocation)
      → (fetched r now key l).1 ≡ l
  fetched_lem r now key none = refl
  fetched_lem r now key (some l) = refl

  answered_absent :
      (r : Registry S) (now : ℤ) (key name : Bytes)
      (a : Option (LocationCache ObjectLocation) × Option ObjectLocation)
      → a.1 ≡ none
      → (answered p o r now key name a).1 ≡ load_location p o r.store name
  answered_absent r now key name (k, none) h = fetched_lem (record r { cache = k }) now key _
  answered_absent r now key name (k, some l) h = cc

  -- With a cache that is sound or without one, a delete of a registry that is set up always succeeds, and after it a
  -- lookup of the same names, of which no version means the version "latest", answers what is then loaded from the store
  -- under the name, not what the cache held.
  pub lookup-delete_location :
      (r : Registry S) (now : ℤ) (bucket object : Bytes) (version_id : Option Bytes)
      → r.initialized ≡ true
      → ((c : LocationCache ObjectLocation) → r.cache ≡ some c → IsSound c)
      → ((delete_location p o r bucket object version_id).1 ≡ true)
        × ((lookup_location p o
              (delete_location p o r bucket object version_id).0
              now
              bucket
              object
              version_id).1
            ≡ load_location p o
                (o.delete_object r.store
                  (entry_name bucket object (version_or_latest version_id))).0
                (entry_name bucket object (version_or_latest version_id)))
  unfolding delete_location lookup_location
  lookup-delete_location r now bucket object version_id i s =
      let vid = version_or_latest version_id in
      let key = build_key bucket object vid in
      let name = entry_name bucket object vid in
      let st = (o.delete_object r.store name).0 in
      let gone : Registry S = record r { store = st; cache = drop_cached r.cache key } in
      let on : delete_location p o r bucket object version_id ≡ (gone, true) =
        ap (λ (b : Bool). if b then (gone, true) else (r, false)) i in
      let asked : lookup_location p o gone now bucket object version_id
          ≡ answered p o gone now key name (get_cached (drop_cached r.cache key) now key) =
        ap
          (λ (b : Bool).
            if b
            then answered p o gone now key name (get_cached gone.cache now key)
            else (gone, none))
          i in
      (
        ap (λ x. x.1) on,
        ap (λ x. (lookup_location p o x.0 now bucket object version_id).1) on
            ∙ ap (λ x. x.1) asked
            ∙ answered_absent gone now key name _ (drop_cached_lem r.cache now key s),
      )
