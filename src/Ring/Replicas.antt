-- ===== src/Ring/Replicas.antt =====
-- `buckets_ring_lookup_n` of src/hash/ring.c as a whole: when it answers, and when it reads outside
-- its array.
use native.Mathlib.Nat.{mod-lt}
use buckets.Prelude.{
  ℕ, zero, suc, ◌+◌, ◌≤◌, ◌<◌, ◌≡◌, ◌≢◌, refl, sym, ◌∙◌, ap, subst, inl, inr, Bool, true, false,
  List, [], ◌∷◌, arith, none, some, ◌==◌, Bool-cases, length, get_elem?, replicate, length-set,
  length-replicate,
}
use buckets.Prelude.Int.{ℤ, pos, negsuc}
use buckets.Text.{Bytes}
use buckets.Hash.Xx.{xxhash64}
use buckets.Circle.{find_index}
use buckets.Circle.Search.{find_index-successor}
use buckets.Ring.{Vnode, Ring, id_or_none, seen_at, mark, walk, lookup_n}
use buckets.Ring.Invariant.{IsValid}
use buckets.Ring.Lookup.{place}
use buckets.Ring.Walk.{
  IsIndex, AreDistinct, walk-Walked, outside, passing, taking, step_cases, after, here,
  walk-passing, walk-taking, walk-outside,
}

-- Every node id is an index of `seen`.
abbrev pub AllIndices : ℕ → List Vnode → Type 0
AllIndices size [] = Unit {0}
AllIndices size (v ∷ vs) = IsIndex size v.node_id × AllIndices size vs

IsIndex-at :
    (size : ℕ) (vs : List Vnode) (at : ℕ)
    → AllIndices size vs
    → at < length vs
    → IsIndex size (id_or_none (get_elem? vs at))
IsIndex-at size [] at a h = absurd (omega arith)
IsIndex-at size (v ∷ vs) zero a h = a.0
IsIndex-at size (v ∷ vs) (suc at) a h = IsIndex-at size vs at a.1 (omega arith)

flag_at : (seen : List Bool) (i : ℕ) → i < length seen → get_elem? seen i ≢ none
flag_at [] i h = absurd (omega arith)
flag_at (x ∷ xs) zero h = λ e. cc
flag_at (x ∷ xs) (suc i) h = flag_at xs i (omega arith)

seen_at_index : (seen : List Bool) (id : ℤ) → IsIndex (length seen) id → seen_at seen id ≢ none
unfolding seen_at
seen_at_index seen (pos i) h = flag_at seen i h
seen_at_index seen (negsuc i) h = absurd h

length-mark : (seen : List Bool) (id : ℤ) → length (mark seen id) ≡ length seen
length-mark seen (pos i) = length-set seen i true
length-mark seen (negsuc i) = refl

walk_total :
    (vs : List Vnode) (left at wanted : ℕ) (seen : List Bool)
    → AllIndices (length seen) vs
    → at < length vs
    → (ids : List ℤ) × (walk vs left at wanted seen ≡ some ids)
walk_total vs zero at wanted seen a h = ([], unfold walk in refl)
walk_total vs (suc left) at zero seen a h = ([], unfold walk in refl)
walk_total vs (suc left) at (suc wanted) seen a h = elim (step_cases vs at seen) [
  | outside o ↦ absurd (seen_at_index seen _ (IsIndex-at (length seen) vs at a h) o)
  | passing o ↦
      let rest = walk_total vs left (after at vs) (suc wanted) seen a (mod-lt _ (omega arith)) in
      (rest.0, walk-passing vs left at wanted seen o ∙ rest.1)
  | taking o ↦
      let id = here vs left at wanted seen in
      let a' = subst (λ n. AllIndices n vs) (sym (length-mark seen id)) a in
      let rest =
        walk_total vs left (after at vs) wanted (mark seen id) a' (mod-lt _ (omega arith)) in
      (id ∷ rest.0, rw (walk-taking vs left at wanted seen o, rest.1))
]

find_index-lt :
    (r : Ring) (target : ℕ)
    → 0 < length r.vnodes
    → find_index Vnode.hash r.vnodes target < length r.vnodes
unfolding find_index
find_index-lt r target h = ground arith

-- If every node id is at most the node count, the answer is a list of at most `n` distinct nodes.
pub lookup_n_total :
    (r : Ring) (name : Bytes) (n : ℕ)
    → AllIndices (r.node_count + 1) r.vnodes
    → (ids : List ℤ) × (lookup_n r name n ≡ some ids) × (length ids ≤ n) × AreDistinct ids
unfolding lookup_n
lookup_n_total r name n a = elim (Bool-cases (n == 0)) [
  | inl z ↦ ([], rw z, omega arith, tt)
  | inr nz ↦ elim (Bool-cases (length r.vnodes == 0)) [
    | inl z ↦ ([], rw (nz, z), omega arith, tt)
    | inr some_there ↦
        let fits =
          subst (λ k. AllIndices k r.vnodes) (sym (length-replicate (r.node_count + 1) false)) a in
        let start = find_index Vnode.hash r.vnodes (xxhash64 r.seed name) in
        let flags = replicate (r.node_count + 1) false in
        let found =
          walk_total r.vnodes (length r.vnodes) start n flags fits
            (find_index-lt r (xxhash64 r.seed name) (ground (arith, some_there))) in
        let w = walk-Walked r.vnodes (length r.vnodes) start n flags found.0 found.1 in
        (found.0, rw (nz, some_there) (found.1), w.at_most, w.distinct)
  ]
]

length-pos : (vs : List Vnode) (i : ℕ) {v : Vnode} → get_elem? vs i ≡ some v → 0 < length vs
length-pos [] i e = absurd (ground (arith, e))
length-pos (x ∷ xs) i e = omega arith

no_flag : (seen : List Bool) (i : ℕ) → length seen ≤ i → seen_at seen (pos i) ≡ none
unfolding seen_at
no_flag [] i h = refl
no_flag (x ∷ xs) zero h = absurd (omega arith)
no_flag (x ∷ xs) (suc i) h = no_flag xs i (omega arith)

walk_leaves :
    (vs : List Vnode) (left at wanted : ℕ) (seen : List Bool)
    → 0 < left
    → seen_at seen (id_or_none (get_elem? vs at)) ≡ none
    → walk vs left at (suc wanted) seen ≡ none
walk_leaves vs zero at wanted seen h e = absurd (omega arith)
walk_leaves vs (suc left) at wanted seen h e = walk-outside vs left at wanted seen e

-- If the object's node has an id above the node count, as after the removal of a lower one, the
-- first access to `seen` is outside it.
pub lookup_n_overrun :
    (r : Ring) (name : Bytes) (n i : ℕ) (v : Vnode)
    → IsValid r
    → place r name ≡ some v
    → v.node_id ≡ pos i
    → r.node_count < i
    → lookup_n r name (suc n) ≡ none
unfolding lookup_n
lookup_n_overrun r name n i v valid e same far =
    let start = find_index Vnode.hash r.vnodes (xxhash64 r.seed name) in
    let at_start : get_elem? r.vnodes start ≡ some v =
      find_index-successor Vnode.hash r.vnodes (xxhash64 r.seed name) valid.sorted ∙ e in
    let there : 0 < length r.vnodes = length-pos r.vnodes start at_start in
    ground (
      arith,
      there,
      walk_leaves r.vnodes (length r.vnodes) start n (replicate (r.node_count + 1) false) there (
          ap (λ o. seen_at (replicate (r.node_count + 1) false) (id_or_none o)) at_start
          ∙ ap (seen_at (replicate (r.node_count + 1) false)) same
          ∙ no_flag (replicate (r.node_count + 1) false) i
              (omega (arith, length-replicate (r.node_count + 1) false))),
    )
