-- ===== src/Registry/Invariant.antt =====
-- What the operations of the cache in src/registry/registry.c keep true.
use buckets.Prelude.{
  ◌-◌, ◌<◌, ◌≤◌, ◌≡◌, refl, sym, ◌∙◌, subst, ◌⊎◌, inl, inr, true, false, Option, none, some, length,
  length-set, Bool-cases, arith,
}
use buckets.Text.{Bytes, same_text, same_text_iff}
use buckets.Registry.{
  Entry, LocationCache, cache_hash, unchain, rewrite, lru_remove, chain_of, with_chain, touched,
}
use buckets.Registry.Chain.{
  is_listed, length-lru_remove, is_listed-lru_remove, find-unchain_ne, find-unchain_self,
  unchain-AreUnique, find-rewrite_ne, rewrite-AreUnique,
}
use buckets.Registry.Table.{
  lookup, AllUnique, AllUnique-get_or, AllUnique-set, lookup-with_chain_self, lookup-with_chain_ne,
}

module _ {L : Type 0} where
  -- The table has its buckets, no key is twice in one, each entry is on the LRU list, and the entries are counted.
  pub record IsSound (c : LocationCache L) : Type 0 where
    pub sized : length c.buckets ≡ c.bucket_count
    pub positive : 0 < c.bucket_count
    pub unique : AllUnique c.buckets
    pub counted : c.entry_count ≡ length c.lru
    pub listed : (k : Bytes) (e : Entry L) → lookup c k ≡ some e → is_listed k c.lru ≡ true

  abbrev pub Fits : LocationCache L → Type 0
  Fits c = (c.entry_count ≤ c.max_entries) ⊎ (c.entry_count ≤ 1)

  pub inside :
      (c : LocationCache L) (key : Bytes)
      → IsSound c
      → cache_hash key c.bucket_count < length c.buckets
  unfolding cache_hash
  inside c key s = grind (arith, s.sized, s.positive)

  absurd_found : (e : Entry L) {o : Option (Entry L)} → o ≡ none → o ≡ some e → ⊥
  absurd_found e h h' = cc

  -- The cache without the entry of a key.
  abbrev pub without : LocationCache L → Bytes → LocationCache L
  without c key = record (with_chain c key (unchain key (chain_of c key))) {
    lru = lru_remove key c.lru;
    entry_count = c.entry_count - 1;
  }

  pub lookup-without_self :
      (c : LocationCache L) (key : Bytes) → IsSound c → lookup (without c key) key ≡ none
  lookup-without_self c key s =
      lookup-with_chain_self c key (unchain key (chain_of c key)) (inside c key s)
      ∙ find-unchain_self key (chain_of c key)
          (AllUnique-get_or c.buckets (cache_hash key c.bucket_count) s.unique)

  pub lookup-without_ne :
      (c : LocationCache L) (key other : Bytes)
      → IsSound c
      → same_text key other ≡ false
      → lookup (without c key) other ≡ lookup c other
  lookup-without_ne c key other s apart =
      lookup-with_chain_ne c key (unchain key (chain_of c key)) (inside c key s) other
        (find-unchain_ne key other (chain_of c key) apart)

  pub without-IsSound :
      (c : LocationCache L) (key : Bytes)
      → IsSound c
      → is_listed key c.lru ≡ true
      → IsSound (without c key)
  without-IsSound c key s there = record {
    sized =
        length-set c.buckets (cache_hash key c.bucket_count) (unchain key (chain_of c key))
        ∙ s.sized;
    positive = s.positive;
    unique =
        AllUnique-set c.buckets (cache_hash key c.bucket_count) (unchain key (chain_of c key))
          s.unique
          (unchain-AreUnique key (chain_of c key)
            (AllUnique-get_or c.buckets (cache_hash key c.bucket_count) s.unique));
    counted = omega (arith, s.counted, length-lru_remove key c.lru there);
    listed = λ k e found. elim (Bool-cases (same_text key k)) [
      | inl same ↦ absurd (
          absurd_found e
            (subst (λ x. lookup (without c key) x ≡ none) ((same_text_iff key k).0 same)
              (lookup-without_self c key s))
            found)
      | inr apart ↦
          is_listed-lru_remove key k c.lru apart
          ∙ s.listed k e (sym (lookup-without_ne c key k s apart) ∙ found)
    ];
  }

  -- The entry of a key is used again.
  pub touched-IsSound :
      (c : LocationCache L) (key : Bytes)
      → IsSound c
      → is_listed key c.lru ≡ true
      → IsSound (touched c key)
  unfolding is_listed
  touched-IsSound c key s there = record {
    sized = s.sized;
    positive = s.positive;
    unique = s.unique;
    counted = omega (arith, s.counted, length-lru_remove key c.lru there);
    listed = λ k e found. elim (Bool-cases (same_text key k)) [
      | inl same ↦ rw same refl
      | inr apart ↦ rw apart (is_listed-lru_remove key k c.lru apart ∙ s.listed k e found)
    ];
  }

  -- An entry is written over the one of its key.
  abbrev pub rewritten : LocationCache L → Entry L → LocationCache L
  rewritten c fresh = with_chain c fresh.key (rewrite fresh (chain_of c fresh.key))

  pub lookup-rewritten_ne :
      (c : LocationCache L) (fresh : Entry L) (other : Bytes)
      → IsSound c
      → same_text fresh.key other ≡ false
      → lookup (rewritten c fresh) other ≡ lookup c other
  lookup-rewritten_ne c fresh other s apart =
      lookup-with_chain_ne c fresh.key (rewrite fresh (chain_of c fresh.key)) (inside c fresh.key s)
        other (find-rewrite_ne fresh other (chain_of c fresh.key) apart)

  pub rewritten-IsSound :
      (c : LocationCache L) (fresh e : Entry L)
      → IsSound c
      → lookup c fresh.key ≡ some e
      → IsSound (rewritten c fresh)
  rewritten-IsSound c fresh e s found = record {
    sized =
        length-set c.buckets (cache_hash fresh.key c.bucket_count)
          (rewrite fresh (chain_of c fresh.key))
        ∙ s.sized;
    positive = s.positive;
    unique =
        AllUnique-set c.buckets (cache_hash fresh.key c.bucket_count)
          (rewrite fresh (chain_of c fresh.key)) s.unique
          (rewrite-AreUnique fresh (chain_of c fresh.key)
            (AllUnique-get_or c.buckets (cache_hash fresh.key c.bucket_count) s.unique));
    counted = s.counted;
    listed = λ k x at. elim (Bool-cases (same_text fresh.key k)) [
      | inl same ↦
          subst (λ z. is_listed z c.lru ≡ true) ((same_text_iff fresh.key k).0 same)
            (s.listed fresh.key e found)
      | inr apart ↦ s.listed k x (sym (lookup-rewritten_ne c fresh k s apart) ∙ at)
    ];
  }
