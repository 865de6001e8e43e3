-- ===== src/Registry/Lookup.antt =====
-- What the cache of src/registry/registry.c finds after it was told.
use buckets.Prelude.{
  ℕ, zero, suc, ◌+◌, ◌<◌, ◌≤◌, ◌≡◌, refl, sym, ap, ◌∙◌, subst, ◌⊎◌, inl, inr, Bool, false, List, [],
  ◌∷◌, Option, none, some, replicate, length-replicate, length-set, get_or, Bool-cases,
  Option-cases, if◌then◌else◌, arith, ◌/◌,
}
use buckets.Prelude.Int.{ℤ, ltb_ℤ}
use buckets.Text.{Bytes, same_text, same_text_refl}
use buckets.Registry.{
  Entry, LocationCache, cache_hash, odd_of, cache_create, find, rewrite, lru_tail, chain_of,
  touched, new_entry, make_room, insert_first, put_found, cache_put, get_found, cache_get,
  invalidate_found, cache_invalidate,
}
use buckets.Registry.Chain.{is_listed, find-rewrite_self}
use buckets.Registry.Table.{
  lookup, AllUnique, AllUnique-get_or, AllUnique-set, lookup-with_chain_self, lookup-with_chain_ne,
}
use buckets.Registry.Invariant.{
  IsSound, Fits, inside, lookup-without_self, lookup-without_ne, without-IsSound, touched-IsSound,
  rewritten, lookup-rewritten_ne, rewritten-IsSound,
}
use buckets.Registry.Eviction.{
  recounted-IsSound, make_room-IsSound, make_room-Fits, lookup-make_room,
}

odd_positive : (n : ℕ) → 0 < odd_of n
odd_positive n = ground arith

AllUnique-replicate : (L : Type 0) (n : ℕ) → AllUnique {L = L} (replicate n [])
AllUnique-replicate L zero = tt
AllUnique-replicate L (suc n) = (tt, AllUnique-replicate L n)

module _ {L : Type 0} where
  lookup-insert_self :
      (c : LocationCache L) (e : Entry L) → IsSound c → lookup (insert_first c e) e.key ≡ some e
  unfolding find
  lookup-insert_self c e s =
      lookup-with_chain_self c e.key (e ∷ chain_of c e.key) (inside c e.key s)
      ∙ rw (same_text_refl e.key) refl

  lookup-insert_ne :
      (c : LocationCache L) (e : Entry L) (other : Bytes)
      → IsSound c
      → same_text e.key other ≡ false
      → lookup (insert_first c e) other ≡ lookup c other
  unfolding find
  lookup-insert_ne c e other s apart =
      lookup-with_chain_ne c e.key (e ∷ chain_of c e.key) (inside c e.key s) other (rw apart refl)

  insert-IsSound :
      (c : LocationCache L) (e : Entry L)
      → IsSound c
      → lookup c e.key ≡ none
      → IsSound (insert_first c e)
  unfolding is_listed
  insert-IsSound c e s fresh = record {
    sized = length-set c.buckets (cache_hash e.key c.bucket_count) (e ∷ chain_of c e.key) ∙ s.sized;
    positive = s.positive;
    unique =
        AllUnique-set c.buckets (cache_hash e.key c.bucket_count) (e ∷ chain_of c e.key) s.unique
          (fresh, AllUnique-get_or c.buckets (cache_hash e.key c.bucket_count) s.unique);
    counted = omega (arith, s.counted);
    listed = λ k x found. elim (Bool-cases (same_text e.key k)) [
      | inl same ↦ rw same refl
      | inr apart ↦ rw apart (s.listed k x (sym (lookup-insert_ne c e k s apart) ∙ found))
    ];
  }

  still_absent :
      (c : LocationCache L) (k : Bytes)
      → IsSound c
      → lookup c k ≡ none
      → lookup (make_room c) k ≡ none
  still_absent c k s absent = elim (lookup-make_room c k s) [
    | inl same ↦ same ∙ absent
    | inr (gone, last, full) ↦ gone
  ]

  -- A put keeps the cache sound (no key twice in a chain, every entry that is found on the LRU list, whose length is the
  -- count) and within its bound, or with one entry where the bound is less, and the entry put is found with the time it expires. Any
  -- other entry is found as before, but for the least recently used one where the cache was full.
  pub cache_put_lem :
      (c : LocationCache L) (now : ℤ) (key : Bytes) (location : L) (other : Bytes)
      → IsSound c
      → Fits c
      → same_text key other ≡ false
      → IsSound (cache_put c now key location)
        × Fits (cache_put c now key location)
        × (lookup (cache_put c now key location) key ≡ some (new_entry c now key location))
        × ((lookup (cache_put c now key location) other ≡ lookup c other)
            ⊎ ((lookup (cache_put c now key location) other ≡ none)
                × (lru_tail c.lru ≡ some other)
                × (c.max_entries ≤ c.entry_count)))
  unfolding cache_put
  cache_put_lem c now key location other s fits apart =
      let fresh = new_entry c now key location in
      elim (Option-cases (lookup c key)) [
        | inr (e, found) ↦
            let there = s.listed key e found in
            subst (Told fresh) (sym (ap (put_found c fresh) found)) (
              touched-IsSound (rewritten c fresh) key (rewritten-IsSound c fresh e s found) there,
              fits,
              lookup-with_chain_self c key (rewrite fresh (chain_of c key)) (inside c key s)
                  ∙ find-rewrite_self fresh e (chain_of c key) found,
              inl (lookup-rewritten_ne c fresh other s apart),
            )
        | inl absent ↦
            let room = make_room c in
            let sound = make_room-IsSound c s in
            subst (Told fresh) (sym (ap (put_found c fresh) absent)) (
              insert-IsSound room fresh sound (still_absent c key s absent),
              make_room-Fits c s fits,
              lookup-insert_self room fresh sound,
              elim (lookup-make_room c other s) [
                | inl same ↦ inl (lookup-insert_ne room fresh other sound apart ∙ same)
                | inr (gone, last, full) ↦
                    inr (lookup-insert_ne room fresh other sound apart ∙ gone, last, full)
              ],
            )
      ]
    where
      Told : Entry L → LocationCache L → Type 0
      Told fresh d =
          IsSound d
          × Fits d
          × (lookup d key ≡ some fresh)
          × ((lookup d other ≡ lookup c other)
              ⊎ ((lookup d other ≡ none)
                  × (lru_tail c.lru ≡ some other)
                  × (c.max_entries ≤ c.entry_count)))

  -- A get answers the location of an entry that is found and has not expired, and nothing else; it keeps the cache sound and
  -- within its bound, and what is found stays the same, also for an entry that has expired.
  pub cache_get_lem :
      (c : LocationCache L) (now : ℤ) (key other : Bytes)
      → IsSound c
      → Fits c
      → IsSound (cache_get c now key).0
        × Fits (cache_get c now key).0
        × (lookup (cache_get c now key).0 other ≡ lookup c other)
        × (((lookup c key ≡ none) × ((cache_get c now key).1 ≡ none))
            ⊎ ((e : Entry L) × (lookup c key ≡ some e)
                × ((cache_get c now key).1
                    ≡ (if ltb_ℤ e.expiry now then none else some e.location))))
  unfolding cache_get
  cache_get_lem c now key other s fits = elim (Option-cases (lookup c key)) [
    | inl absent ↦
        subst Kept (sym (ap (get_found c now key) absent))
          (recounted-IsSound c c.hits (c.misses + 1) c.evictions s, fits, refl, inl (absent, refl))
    | inr (e, found) ↦
        subst Kept (sym (ap (get_found c now key) found)) (elim (Bool-cases (ltb_ℤ e.expiry now)) [
          | inl late ↦ rw late (
            recounted-IsSound c c.hits (c.misses + 1) c.evictions s,
            fits,
            refl,
            inr (e, found, rw late refl),
          )
          | inr fresh ↦ rw fresh (
            recounted-IsSound (touched c key) (c.hits + 1) c.misses c.evictions
                (touched-IsSound c key s (s.listed key e found)),
            fits,
            refl,
            inr (e, found, rw fresh refl),
          )
        ])
  ]
    where
      Kept : LocationCache L × Option L → Type 0
      Kept r =
          IsSound r.0
          × Fits r.0
          × (lookup r.0 other ≡ lookup c other)
          × (((lookup c key ≡ none) × (r.1 ≡ none))
              ⊎ ((e : Entry L) × (lookup c key ≡ some e)
                  × (r.1 ≡ (if ltb_ℤ e.expiry now then none else some e.location))))

  get_or-replicate : (n i : ℕ) → get_or {A = List (Entry L)} (replicate n []) i [] ≡ []
  get_or-replicate zero i = refl
  get_or-replicate (suc n) zero = refl
  get_or-replicate (suc n) (suc i) = get_or-replicate n i

  none_in_empty :
      (n i : ℕ) (k : Bytes) (e : Entry L) → find (get_or (replicate n []) i []) k ≡ some e → ⊥
  unfolding find
  none_in_empty n i k e found = cc (ap (λ es. find es k) (sym (get_or-replicate n i)) ∙ found)

  pub cache_create-IsSound :
      (max_entries ttl_seconds : ℕ) → IsSound (cache_create {L = L} max_entries ttl_seconds)
  unfolding cache_create
  cache_create-IsSound max_entries ttl_seconds = record {
    sized = length-replicate (odd_of (max_entries / 10)) [];
    positive = odd_positive (max_entries / 10);
    unique = AllUnique-replicate L (odd_of (max_entries / 10));
    counted = refl;
    listed = λ k e found. absurd (
        none_in_empty (odd_of (max_entries / 10)) (cache_hash k (odd_of (max_entries / 10))) k e
          found);
  }

  -- An invalidated key is not found any more, and every other key is found as before.
  pub cache_invalidate_lem :
      (c : LocationCache L) (key other : Bytes)
      → IsSound c
      → same_text key other ≡ false
      → IsSound (cache_invalidate c key).0
        × (lookup (cache_invalidate c key).0 key ≡ none)
        × (lookup (cache_invalidate c key).0 other ≡ lookup c other)
  unfolding cache_invalidate
  cache_invalidate_lem c key other s apart = elim (Option-cases (lookup c key)) [
    | inl absent ↦ subst Gone (sym (ap (invalidate_found c key) absent)) (s, absent, refl)
    | inr (e, found) ↦ subst Gone (sym (ap (invalidate_found c key) found)) (
      without-IsSound c key s (s.listed key e found),
      lookup-without_self c key s,
      lookup-without_ne c key other s apart,
    )
  ]
    where
      Gone : LocationCache L × Bool → Type 0
      Gone r = IsSound r.0 × (lookup r.0 key ≡ none) × (lookup r.0 other ≡ lookup c other)
