-- ===== src/Registry/Table.antt =====
-- The hash table of the cache in src/registry/registry.c.
use buckets.Prelude.{
  ℕ, zero, suc, ◌<◌, ◌≡◌, ap, ◌∙◌, subst, inl, inr, List, [], ◌∷◌, Option, length, get_or, set,
  Bool-cases, arith, ==_iff, ◌==◌, get_or-set_self, get_or-set_ne,
}
use buckets.Text.{Bytes}
use buckets.Registry.{Entry, LocationCache, cache_hash, find, chain_of, with_chain}
use buckets.Registry.Chain.{AreUnique}

module _ {L : Type 0} where
  abbrev pub lookup : LocationCache L → Bytes → Option (Entry L)
  lookup c key = find (chain_of c key) key

  abbrev pub AllUnique : List (List (Entry L)) → Type 0
  AllUnique [] = Unit {0}
  AllUnique (es ∷ chains) = AreUnique es × AllUnique chains

  pub AllUnique-get_or :
      (chains : List (List (Entry L))) (i : ℕ) → AllUnique chains → AreUnique (get_or chains i [])
  AllUnique-get_or [] i all = tt
  AllUnique-get_or (es ∷ chains) zero (u, all) = u
  AllUnique-get_or (es ∷ chains) (suc i) (u, all) = AllUnique-get_or chains i all

  pub AllUnique-set :
      (chains : List (List (Entry L))) (i : ℕ) (es : List (Entry L))
      → AllUnique chains
      → AreUnique es
      → AllUnique (set chains i es)
  AllUnique-set [] i es all u = tt
  AllUnique-set (x ∷ chains) zero es (v, all) u = (u, all)
  AllUnique-set (x ∷ chains) (suc i) es (v, all) u = (v, AllUnique-set chains i es all u)

  module _ (c : LocationCache L) (key : Bytes) (chain : List (Entry L))
      (inside : cache_hash key c.bucket_count < length c.buckets) where
    pub lookup-with_chain_self : lookup (with_chain c key chain) key ≡ find chain key
    lookup-with_chain_self =
        ap (λ es. find es key)
          (get_or-set_self c.buckets (cache_hash key c.bucket_count) chain [] inside)

    pub lookup-with_chain_ne :
        (other : Bytes)
        → find chain other ≡ find (chain_of c key) other
        → lookup (with_chain c key chain) other ≡ lookup c other
    lookup-with_chain_ne other same =
        elim (Bool-cases (cache_hash key c.bucket_count == cache_hash other c.bucket_count)) [
          | inl here ↦
              let e : cache_hash key c.bucket_count ≡ cache_hash other c.bucket_count =
                (==_iff (cache_hash key c.bucket_count) (cache_hash other c.bucket_count)).0 here in
              subst
                (λ i.
                  find (get_or (set c.buckets (cache_hash key c.bucket_count) chain) i []) other
                  ≡ find (get_or c.buckets i []) other)
                e
                (ap (λ es. find es other)
                    (get_or-set_self c.buckets (cache_hash key c.bucket_count) chain [] inside)
                  ∙ same)
          | inr there ↦
              ap (λ es. find es other)
                (get_or-set_ne c.buckets (cache_hash key c.bucket_count)
                  (cache_hash other c.bucket_count) chain [] (λ e. ground (arith, there, e)))
        ]
