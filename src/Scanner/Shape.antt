-- ===== src/Scanner/Shape.antt =====
-- Topologies with the same numbers of sets, as src/migration/scanner.c sees them.
use buckets.Prelude.{
  ℕ, zero, suc, ◌+◌, ◌≡◌, refl, sym, ap, ◌∙◌, subst, List, [], ◌∷◌, none, some, length, arith, set,
  get_elem?, length-set, inl, inr,
}
use buckets.Prelude.Maybe.{◌>>=◌, some_injective}
use buckets.Prelude.Int.{ℤ, pos, negsuc, at?, put}
use buckets.Status.{ok, err}
use buckets.Circle.{Qsort}
use buckets.Ring.{Vnode, Ring, create, add_node}
use buckets.Topology.{SetState, SetTopology, PoolTopology, ClusterTopology, set_state}
use buckets.Topology.States.{moved, set_state_inv}
use buckets.Scanner.{encode_node_id, node_name_of, add_sets, add_pools, topology_to_ring}

-- The pools have as many sets each.
abbrev pub SameShape : List PoolTopology → List PoolTopology → Type 0
SameShape [] [] = Unit {0}
SameShape [] (y ∷ ys) = ⊥
SameShape (x ∷ xs) [] = ⊥
SameShape (x ∷ xs) (y ∷ ys) = (length x.sets ≡ length y.sets) × SameShape xs ys

SameShape-refl : (xs : List PoolTopology) → SameShape xs xs
SameShape-refl [] = tt
SameShape-refl (x ∷ xs) = (refl, SameShape-refl xs)

SameShape-set :
    (xs : List PoolTopology) (i : ℕ) (pool pool' : PoolTopology)
    → get_elem? xs i ≡ some pool
    → length pool.sets ≡ length pool'.sets
    → SameShape xs (set xs i pool')
SameShape-set [] i pool pool' at same = tt
SameShape-set (x ∷ xs) zero pool pool' at same =
    (ap (λ q. length q.sets) (some_injective x pool at) ∙ same, SameShape-refl xs)
SameShape-set (x ∷ xs) (suc i) pool pool' at same = (refl, SameShape-set xs i pool pool' at same)

length-put : (xs : List SetTopology) (i : ℤ) (v : SetTopology) → length (put xs i v) ≡ length xs
length-put xs (pos i) v = length-set xs i v
length-put xs (negsuc i) v = refl

SameShape-put :
    (xs : List PoolTopology) (i : ℤ) (pool pool' : PoolTopology)
    → at? xs i ≡ some pool
    → length pool.sets ≡ length pool'.sets
    → SameShape xs (put xs i pool')
SameShape-put xs (pos i) pool pool' at same = SameShape-set xs i pool pool' at same
SameShape-put xs (negsuc i) pool pool' at same = SameShape-refl xs

-- The state of a set is no part of the shape.
pub set_state-SameShape :
    (t t' : ClusterTopology) (p s : ℤ) (new_state : SetState)
    → set_state t p s new_state ≡ ok t'
    → SameShape t.pools t'.pools
unfolding moved
set_state-SameShape t t' p s new_state h = elim (set_state_inv t p s new_state t' h) [
  | inl same ↦ subst (λ u. SameShape t.pools u.pools) same (SameShape-refl t.pools)
  | inr (pool, found, at_pool, at_set, e) ↦
      subst (λ u. SameShape t.pools u.pools) e
        (SameShape-put t.pools p pool
          (record pool { sets = put pool.sets s (record found { state = new_state }) }) at_pool
          (sym (length-put pool.sets s (record found { state = new_state }))))
]

module _ (qsort : Qsort Vnode.hash) where
  add_sets-length :
      (p s : ℕ) (xs ys : List SetTopology) (r : Ring)
      → length xs ≡ length ys
      → add_sets qsort p s xs r ≡ add_sets qsort p s ys r
  unfolding add_sets
  add_sets-length p s [] [] r h = refl
  add_sets-length p s [] (y ∷ ys) r h = absurd (omega arith)
  add_sets-length p s (x ∷ xs) [] r h = absurd (omega arith)
  add_sets-length p s (x ∷ xs) (y ∷ ys) r h =
      elim (add_node qsort r (pos (encode_node_id p s)) (node_name_of p s))
        as (λ o.
          elim o [ err e ↦ none | ok r' ↦ add_sets qsort p (s + 1) xs r' ]
          ≡ elim o [ err e ↦ none | ok r' ↦ add_sets qsort p (s + 1) ys r' ]) [
            | err e ↦ refl
            | ok r' ↦ add_sets-length p (s + 1) xs ys r' (omega arith)
          ]

  add_pools-shape :
      (p : ℕ) (xs ys : List PoolTopology) (r : Ring)
      → SameShape xs ys
      → add_pools qsort p xs r ≡ add_pools qsort p ys r
  unfolding add_pools
  add_pools-shape p [] [] r h = refl
  add_pools-shape p [] (y ∷ ys) r h = elim h [ ]
  add_pools-shape p (x ∷ xs) [] r h = elim h [ ]
  add_pools-shape p (x ∷ xs) (y ∷ ys) r (same, rest) =
      rw (add_sets-length p 0 x.sets y.sets r same)
        (elim (add_sets qsort p 0 y.sets r)
          as (λ o. (o >>= add_pools qsort (p + 1) xs) ≡ (o >>= add_pools qsort (p + 1) ys)) [
            | none ↦ refl
            | some r' ↦ add_pools-shape (p + 1) xs ys r' rest
          ])

  pub topology_to_ring-shape :
      (t t' : ClusterTopology)
      → SameShape t.pools t'.pools
      → topology_to_ring qsort t ≡ topology_to_ring qsort t'
  unfolding topology_to_ring
  topology_to_ring-shape t t' same =
      elim (create (pos 150) 0)
        as (λ o. (o >>= add_pools qsort 0 t.pools) ≡ (o >>= add_pools qsort 0 t'.pools)) [
          | none ↦ refl
          | some r ↦ add_pools-shape 0 t.pools t'.pools r same
        ]
