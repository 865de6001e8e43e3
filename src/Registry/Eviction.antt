-- ===== src/Registry/Eviction.antt =====
-- Eviction and insertion in the cache of src/registry/registry.c.
use buckets.Prelude.{
  ℕ, ◌+◌, ◌-◌, ◌≤◌, ◌≡◌, refl, sym, ap, ◌∙◌, subst, ◌⊎◌, inl, inr, List, [], ◌∷◌, Option, none,
  some, length, Bool-cases, Option-cases, leb, arith,
}
use buckets.Text.{Bytes, same_text, same_text_iff}
use buckets.Registry.{LocationCache, lru_tail, cache_evict_lru, make_room}
use buckets.Registry.Chain.{lru_tail-is_listed}
use buckets.Registry.Table.{lookup}
use buckets.Registry.Invariant.{
  IsSound, Fits, without, lookup-without_self, lookup-without_ne, without-IsSound,
}

module _ {L : Type 0} where
  -- The counters of hits, misses and evictions are no part of the invariant.
  pub recounted-IsSound :
      (c : LocationCache L) (hits misses evictions : ℕ)
      → IsSound c
      → IsSound (record c { hits = hits; misses = misses; evictions = evictions })
  recounted-IsSound c hits misses evictions s = record {
    sized = s.sized;
    positive = s.positive;
    unique = s.unique;
    counted = s.counted;
    listed = s.listed;
  }

  evicted : LocationCache L → Bytes → LocationCache L
  evicted c victim = record (without c victim) { evictions = c.evictions + 1 }

  -- An eviction takes the least recently used entry, if there is one.
  evict_cases :
      (c : LocationCache L)
      → ((lru_tail c.lru ≡ none) × (cache_evict_lru c ≡ c))
        ⊎ ((victim : Bytes) × (lru_tail c.lru ≡ some victim)
            × (cache_evict_lru c ≡ evicted c victim))
  unfolding cache_evict_lru evicted
  evict_cases c = elim (Option-cases (lru_tail c.lru)) [
    | inl nothing ↦ inl (nothing, step none nothing)
    | inr (victim, at) ↦ inr (victim, at, step (some victim) at)
  ]
    where
      after : Option Bytes → LocationCache L
      after o = elim o [
        | none ↦ c
        | some victim ↦ record (without c victim) { evictions = c.evictions + 1 }
      ]

      step : (o : Option Bytes) → lru_tail c.lru ≡ o → after (lru_tail c.lru) ≡ after o
      step o h = ap after h

  evict-IsSound : (c : LocationCache L) → IsSound c → IsSound (cache_evict_lru c)
  unfolding evicted
  evict-IsSound c s = elim (evict_cases c) [
    | inl (nothing, same) ↦ subst IsSound (sym same) s
    | inr (victim, at, e) ↦ subst IsSound (sym e) (
        recounted-IsSound (without c victim) c.hits c.misses (c.evictions + 1)
          (without-IsSound c victim s (lru_tail-is_listed victim c.lru at)))
  ]

  -- What is found after an eviction was found before, and only the least recently used entry is lost.
  lookup-evict :
      (c : LocationCache L) (k : Bytes)
      → IsSound c
      → (lookup (cache_evict_lru c) k ≡ lookup c k)
        ⊎ ((lookup (cache_evict_lru c) k ≡ none) × (lru_tail c.lru ≡ some k))
  unfolding evicted
  lookup-evict c k s = elim (evict_cases c) [
    | inl (nothing, same) ↦ inl (ap (λ d. lookup d k) same)
    | inr (victim, at, e) ↦ elim (Bool-cases (same_text victim k)) [
      | inl same ↦
          let here : victim ≡ k = (same_text_iff victim k).0 same in
          inr (
            ap (λ d. lookup d k) e
                ∙ subst (λ x. lookup (without c victim) x ≡ none) here
                    (lookup-without_self c victim s),
            at ∙ ap some here,
          )
      | inr apart ↦ inl (ap (λ d. lookup d k) e ∙ lookup-without_ne c victim k s apart)
    ]
  ]

  evict_count :
      (c : LocationCache L)
      → IsSound c
      → ((cache_evict_lru c).max_entries ≡ c.max_entries)
        × ((cache_evict_lru c).entry_count ≡ c.entry_count - 1)
  unfolding evicted
  evict_count c s = elim (evict_cases c) [
    | inr (victim, at, e) ↦ (ap (λ d. d.max_entries) e, ap (λ d. d.entry_count) e)
    | inl (nothing, same) ↦ (
      ap (λ d. d.max_entries) same,
      ap (λ d. d.entry_count) same ∙ omega (arith, s.counted, no_tail c.lru nothing),
    )
  ]
    where
      no_tail : (ks : List Bytes) → lru_tail ks ≡ none → length ks ≡ 0
      no_tail [] h = refl
      no_tail (k ∷ []) h = cc
      no_tail (k ∷ k' ∷ ks) h = absurd (omega (arith, no_tail (k' ∷ ks) h))

  pub make_room-IsSound : (c : LocationCache L) → IsSound c → IsSound (make_room c)
  make_room-IsSound c s = elim (Bool-cases (leb c.max_entries c.entry_count)) [
    | inl full ↦ rw full (evict-IsSound c s)
    | inr room ↦ rw room s
  ]

  pub make_room-Fits :
      (c : LocationCache L)
      → IsSound c
      → Fits c
      → ((make_room c).entry_count + 1 ≤ (make_room c).max_entries)
        ⊎ ((make_room c).entry_count + 1 ≤ 1)
  make_room-Fits c s fits = elim (Bool-cases (leb c.max_entries c.entry_count)) [
    | inr room ↦ rw room (inl (ground (arith, room)))
    | inl full ↦
        let (same, fewer) = evict_count c s in
        rw (full, same, fewer)
          (elim fits [ inl few ↦ ground (arith, few) | inr one ↦ inr (omega arith) ])
  ]

  pub lookup-make_room :
      (c : LocationCache L) (k : Bytes)
      → IsSound c
      → (lookup (make_room c) k ≡ lookup c k)
        ⊎ ((lookup (make_room c) k ≡ none)
            × (lru_tail c.lru ≡ some k)
            × (c.max_entries ≤ c.entry_count))
  lookup-make_room c k s = elim (Bool-cases (leb c.max_entries c.entry_count)) [
    | inr room ↦ rw room (inl refl)
    | inl full ↦ rw full (elim (lookup-evict c k s) [
      | inl same ↦ inl same
      | inr (gone, last) ↦ inr (gone, last, ground (arith, full))
    ])
  ]
