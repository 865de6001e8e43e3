-- ===== src/Placement/Active.antt =====
-- The sets that objects are placed on, src/placement/placement.c.
use mathlib.Core.List.{Mem, mem-cons, not-mem-nil}
use mathlib.Core.List.Perm
use mathlib.Core.Logic.Or
use mathlib.Core.Bool.{Bool-set}
use buckets.Prelude.{
  ℕ, zero, suc, ◌+◌, ◌≡◌, refl, sym, ap, ◌∙◌, subst, inl, inr, Bool, true, false, List, [], ◌∷◌,
  ◌++◌, Option, none, some, get_elem?, arith, Bool-cases, ◌==◌,
}
use buckets.Prelude.Maybe.{◌>>=◌, some_of_bind, some_injective, some_of_then, some_of_else}
use buckets.Text.{Bytes}
use buckets.Hash.Sip.{siphash}
use buckets.Circle.{Qsort, IsSorted, successor}
use buckets.Circle.Search.{find_index-successor}
use buckets.Circle.Order.{successor-mem}
use buckets.Topology.{SetState, SetTopology, PoolTopology, ClusterTopology}
use buckets.Topology.States.{same_state→eq}
use buckets.Placement.{
  PlacementVnode, Placement, PlacementResult, is_active, set_vnodes, sets_vnodes, pools_vnodes,
  vnodes_per_set, total_active, build_hash_ring, placed_disks, object_path, object_hash_of,
  index_of, place_on, compute,
}

-- The set at a place exists and is active.
abbrev pub active_in : ℕ → Option PoolTopology → Bool
active_in s none = false
active_in s (some pool) = elim (get_elem? pool.sets s) [ none ↦ false | some x ↦ is_active x ]

abbrev pub active_at : ClusterTopology → ℕ → ℕ → Bool
active_at t p s = active_in s (get_elem? t.pools p)

active_in-some :
    (pool : PoolTopology) (j : ℕ) (x : SetTopology)
    → get_elem? pool.sets j ≡ some x
    → active_in j (some pool) ≡ is_active x
active_in-some pool j x e = rw (e, active_in) refl

module _ (good : ℕ → ℕ → Bool) where
  AllGood : List PlacementVnode → Type 0
  AllGood [] = Unit {0}
  AllGood (v ∷ vs) = (good v.pool_idx v.set_idx ≡ true) × AllGood vs

  AllGood-append : (xs ys : List PlacementVnode) → AllGood xs → AllGood ys → AllGood (xs ++ ys)
  unfolding AllGood
  AllGood-append [] ys h k = k
  AllGood-append (x ∷ xs) ys (h, hs) k = (h, AllGood-append xs ys hs k)

  AllGood-mem :
      (xs : List PlacementVnode) (v : PlacementVnode)
      → AllGood xs
      → Mem v xs
      → good v.pool_idx v.set_idx ≡ true
  unfolding AllGood
  AllGood-mem [] v h m = absurd (not-mem-nil m)
  AllGood-mem (x ∷ xs) v (h, hs) m =
      Or.elim (Bool-set _ _) (mem-cons.0 m) (λ e. rw e h) (AllGood-mem xs v hs)

  module _ (k0 k1 : ℕ) where
    set_vnodes-AllGood : (p s v n : ℕ) → good p s ≡ true → AllGood (set_vnodes k0 k1 p s v n)
    unfolding AllGood set_vnodes
    set_vnodes-AllGood p s v zero h = tt
    set_vnodes-AllGood p s v (suc n) h = (h, set_vnodes-AllGood p s (v + 1) n h)

    sets_vnodes-AllGood :
        (p s : ℕ) (xs : List SetTopology)
        → ((j : ℕ) (x : SetTopology)
            → get_elem? xs j ≡ some x
            → is_active x ≡ true
            → good p (s + j) ≡ true)
        → AllGood (sets_vnodes k0 k1 p s xs)
    unfolding AllGood sets_vnodes
    sets_vnodes-AllGood p s [] h = tt
    sets_vnodes-AllGood p s (x ∷ xs) h = elim (Bool-cases (is_active x)) [
      | inl active ↦ rw active (
          AllGood-append (set_vnodes k0 k1 p s 0 vnodes_per_set) (sets_vnodes k0 k1 p (s + 1) xs)
            (set_vnodes-AllGood p s 0 vnodes_per_set
              (subst (λ i. good p i ≡ true) (omega arith) (h 0 x refl active)))
            (sets_vnodes-AllGood p (s + 1) xs
              (λ j y e a. subst (λ i. good p i ≡ true) (omega arith) (h (suc j) y e a))))
      | inr idle ↦ rw idle (
          sets_vnodes-AllGood p (s + 1) xs
            (λ j y e a. subst (λ i. good p i ≡ true) (omega arith) (h (suc j) y e a)))
    ]

    pools_vnodes-AllGood :
        (p : ℕ) (pools : List PoolTopology)
        → ((i : ℕ) (pool : PoolTopology) (j : ℕ) (x : SetTopology)
            → get_elem? pools i ≡ some pool
            → get_elem? pool.sets j ≡ some x
            → is_active x ≡ true
            → good (p + i) j ≡ true)
        → AllGood (pools_vnodes k0 k1 p pools)
    unfolding AllGood pools_vnodes
    pools_vnodes-AllGood p [] h = tt
    pools_vnodes-AllGood p (pool ∷ pools) h =
        AllGood-append (sets_vnodes k0 k1 p 0 pool.sets) (pools_vnodes k0 k1 (p + 1) pools)
          (sets_vnodes-AllGood p 0 pool.sets (λ j x e a.
            rw (zero_plus j) (subst (λ i. good i j ≡ true) (omega arith) (h 0 pool j x refl e a))))
          (pools_vnodes-AllGood (p + 1) pools
            (λ i q j x e e' a. subst (λ k. good k j ≡ true) (omega arith) (h (suc i) q j x e e' a)))
      where
        zero_plus : (j : ℕ) → 0 + j ≡ j
        zero_plus j = omega arith

computed :
    (multidisk : ℕ → List Bytes) (t : ClusterTopology) (st : Placement) (bucket object : Bytes)
    (r : PlacementResult)
    → compute multidisk st (some t) bucket object ≡ some r
    → (get_elem? st.ring (index_of st bucket object)
        >>= place_on multidisk t (object_hash_of st bucket object) (index_of st bucket object))
      ≡ some r
unfolding compute
computed multidisk t st bucket object r h = some_of_then st.initialized _ r h

place_on_lem :
    (multidisk : ℕ → List Bytes) (t : ClusterTopology) (hash index : ℕ) (v : PlacementVnode)
    (r : PlacementResult)
    → place_on multidisk t hash index v ≡ some r
    → (r.pool_idx ≡ v.pool_idx)
      × (r.set_idx ≡ v.set_idx)
      × (active_at t v.pool_idx v.set_idx ≡ true → r.state ≡ SetState.active)
unfolding place_on
place_on_lem multidisk t hash index v r h =
    let (pool, at_pool, rest) = some_of_bind (get_elem? t.pools v.pool_idx) _ r h in
    let (s, at_set, rest') = some_of_bind (get_elem? pool.sets v.set_idx) _ r rest in
    let (disks, placed, e) = some_of_bind (placed_disks multidisk v.set_idx s.disks) _ r rest' in
    let same = some_injective _ r e in
    (
      ap PlacementResult.pool_idx (sym same),
      ap PlacementResult.set_idx (sym same),
      λ active.
          ap PlacementResult.state (sym same)
          ∙ same_state→eq s.state SetState.active (
              sym (ap (active_in v.set_idx) at_pool ∙ active_in-some pool v.set_idx s at_set)
              ∙ active),
    )

module _ (qsort : Qsort PlacementVnode.hash) (st : Placement) (t : ClusterTopology) where
  new_ring : List PlacementVnode
  new_ring = qsort.sort (pools_vnodes st.k0 st.k1 0 t.pools)

  build-ring :
      (built : Placement) → build_hash_ring qsort st (some t) ≡ some built → built.ring ≡ new_ring
  unfolding build_hash_ring new_ring
  build-ring built h = ap Placement.ring (sym (some_of_else (total_active t.pools == 0) _ built h))

  new_ring-IsSorted : IsSorted PlacementVnode.hash new_ring
  unfolding new_ring
  new_ring-IsSorted = qsort.sorted _

  new_ring-active : (v : PlacementVnode) → Mem v new_ring → active_at t v.pool_idx v.set_idx ≡ true
  unfolding new_ring
  new_ring-active v m =
      AllGood-mem (active_at t) (pools_vnodes st.k0 st.k1 0 t.pools) v
        (pools_vnodes-AllGood (active_at t) st.k0 st.k1 0 t.pools good)
        ((Perm.mem_iff (qsort.same _)).0 m)
    where
      good :
          (i : ℕ) (pool : PoolTopology) (j : ℕ) (x : SetTopology)
          → get_elem? t.pools i ≡ some pool
          → get_elem? pool.sets j ≡ some x
          → is_active x ≡ true
          → active_at t (0 + i) j ≡ true
      good i pool j x e e' a =
          subst (λ k. active_at t k j ≡ true) (omega arith)
            (ap (active_in j) e ∙ active_in-some pool j x e' ∙ a)

  -- An object that `buckets_placement_compute` places, with the ring built from the topology in force,
  -- is on the set of the first virtual node at or after the hash of its path, with a wrap, and that
  -- set is active.
  pub placed_on_active :
      (multidisk : ℕ → List Bytes) (built : Placement) (bucket object : Bytes) (r : PlacementResult)
      → build_hash_ring qsort st (some t) ≡ some built
      → compute multidisk built (some t) bucket object ≡ some r
      → (v : PlacementVnode) × (successor PlacementVnode.hash
            (siphash built.k0 built.k1 (object_path bucket object))
            built.ring
          ≡ some v)
        × (r.pool_idx ≡ v.pool_idx)
        × (r.set_idx ≡ v.set_idx)
        × (r.state ≡ SetState.active)
  placed_on_active multidisk built bucket object r h placed =
      let (v, at, on) =
        some_of_bind (get_elem? built.ring (index_of built bucket object)) _ r
          (computed multidisk t built bucket object r placed) in
      let (same_pool, same_set, state) =
        place_on_lem multidisk t (object_hash_of built bucket object) (index_of built bucket object)
          v r on in
      let ring = build-ring built h in
      let sorted = subst (IsSorted PlacementVnode.hash) (sym ring) new_ring-IsSorted in
      let next =
        sym (
          find_index-successor PlacementVnode.hash built.ring (object_hash_of built bucket object)
            sorted)
        ∙ at in
      let (inside, place) =
        successor-mem PlacementVnode.hash (object_hash_of built bucket object) built.ring v sorted
          next in
      (v, next, same_pool, same_set, state (new_ring-active v (subst (Mem v) ring inside)))
