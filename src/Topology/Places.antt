-- ===== src/Topology/Places.antt =====
-- A set added to a pool, src/cluster/topology.c.
use buckets.Prelude.{
  ℕ, ◌≡◌, refl, sym, ap, ◌∙◌, subst, ◌⊎◌, inl, inr, false, List, [], ◌∷◌, ◌++◌, Option, none, some,
  length, Bool-cases, Option-cases,
}
use buckets.Prelude.Maybe.{◌>>=◌}
use buckets.Prelude.Int.{
  ℤ, pos, ◌+ℤ◌, eq_ℤ, eq_ℤ_iff, at?, put, at?-put_self, at?-put_ne, at?-append_self, at?-append_ne,
}
use buckets.Status.{ok, err, invalid_arg}
use buckets.Topology.{
  SetState, DiskInfo, SetTopology, PoolTopology, ClusterTopology, next_generation, add_set,
}
use buckets.Topology.States.{state_in, state_at}

abbrev pub count_in : Option PoolTopology → ℕ
count_in none = 0
count_in (some pool) = length pool.sets

module _ (t : ClusterTopology) (pool_idx : ℤ) where
  -- A new set is active at the end of the pool, and every other place is as before.
  abbrev pub Adds : ClusterTopology → Type 0
  Adds t' =
      (state_at t' pool_idx (pos (count_in (at? t.pools pool_idx))) ≡ some SetState.active)
      × ((p s : ℤ)
          → (eq_ℤ pool_idx p ≡ false) ⊎ (eq_ℤ (pos (count_in (at? t.pools pool_idx))) s ≡ false)
          → state_at t' p s ≡ state_at t p s)
      × (t'.generation ≡ t.generation +ℤ pos 1)

  new_set : PoolTopology → List DiskInfo → SetTopology
  new_set pool disks = record {
    idx = pos (length pool.sets);
    state = SetState.active;
    disks = disks;
  }

  grown : PoolTopology → List DiskInfo → PoolTopology
  grown pool disks = record pool { sets = pool.sets ++ new_set pool disks ∷ [] }

  added : PoolTopology → List DiskInfo → ClusterTopology
  added pool disks = next_generation (record t { pools = put t.pools pool_idx (grown pool disks) })

  added-Adds :
      (pool : PoolTopology) (disks : List DiskInfo)
      → at? t.pools pool_idx ≡ some pool
      → Adds (added pool disks)
  unfolding added grown new_set
  added-Adds pool disks at_pool = (here, others, refl)
    where
      in_pool : at? (put t.pools pool_idx (grown pool disks)) pool_idx ≡ some (grown pool disks)
      in_pool = at?-put_self t.pools pool_idx (grown pool disks) pool at_pool

      state_of : Option SetTopology → Option SetState
      state_of o = o >>= (λ s. some s.state)

      here :
          state_in
            (pos (count_in (at? t.pools pool_idx)))
            (at? (put t.pools pool_idx (grown pool disks)) pool_idx)
          ≡ some SetState.active
      here = rw (in_pool, at_pool) (ap state_of (at?-append_self pool.sets (new_set pool disks)))

      others :
          (p s : ℤ)
          → (eq_ℤ pool_idx p ≡ false) ⊎ (eq_ℤ (pos (count_in (at? t.pools pool_idx))) s ≡ false)
          → state_in s (at? (put t.pools pool_idx (grown pool disks)) p) ≡ state_at t p s
      others p s (inl apart) =
          ap (state_in s) (at?-put_ne t.pools pool_idx p (grown pool disks) apart)
      others p s (inr apart) = elim (Bool-cases (eq_ℤ pool_idx p)) [
        | inl same ↦
            subst
              (λ q. state_in s (at? (put t.pools pool_idx (grown pool disks)) q) ≡ state_at t q s)
              ((eq_ℤ_iff pool_idx p).0 same)
              (ap (state_in s) in_pool
                ∙ ap state_of (
                    at?-append_ne pool.sets s (new_set pool disks)
                      (sym (ap (λ o. eq_ℤ (pos (count_in o)) s) at_pool) ∙ apart))
                ∙ sym (ap (state_in s) at_pool))
        | inr apart' ↦ ap (state_in s) (at?-put_ne t.pools pool_idx p (grown pool disks) apart')
      ]

  -- `buckets_topology_add_set` refuses a pool that does not exist and an empty list of disks. Else the
  -- pool gets an active set behind its others, no other place changes, and the generation is the next.
  pub add_set_lem :
      (disks : List DiskInfo)
      → (((at? t.pools pool_idx ≡ none) ⊎ (disks ≡ []))
          × (add_set t pool_idx disks ≡ err invalid_arg))
        ⊎ ((t' : ClusterTopology) × (add_set t pool_idx disks ≡ ok t') × Adds t')
  unfolding add_set added grown new_set
  add_set_lem [] = inl (inr refl, refl)
  add_set_lem (d ∷ ds) = elim (Option-cases (at? t.pools pool_idx)) [
    | inl no_pool ↦ inl (inl no_pool, rw (no_pool, add_set) refl)
    | inr (pool, at_pool) ↦
        inr (added pool (d ∷ ds), rw (at_pool, add_set) refl, added-Adds pool (d ∷ ds) at_pool)
  ]
