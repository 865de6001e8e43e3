-- ===== src/Ring/Lookup.antt =====
-- `buckets_ring_lookup` of src/hash/ring.c: the node found, and how few objects move when a node is
-- added or removed.
use mathlib.Core.List.{Mem, Mem-prop, mem-cons, mem-append, mem-append_left, not-mem-nil}
use mathlib.Core.List.Perm
use mathlib.Core.Logic.Or
use mathlib.Core.Bool.{Bool-set}
use buckets.Prelude.{
  ℕ, zero, suc, ◌+◌, ◌<◌, ◌≡◌, ◌≢◌, refl, sym, ◌∙◌, ap, subst, ◌⊎◌, inl, inr, true, false, not,
  List, [], ◌∷◌, arith, Option, none, some, ◌==◌, Bool-cases, Option-cases, length,
}
use buckets.Prelude.Int.{ℤ, eq_ℤ, eq_ℤ_iff}
use buckets.Status.{ok}
use buckets.Text.{Bytes}
use buckets.Hash.Xx.{xxhash64}
use buckets.Circle.{Qsort, scan, or_first, successor}
use buckets.Circle.Search.{find_index-successor}
use buckets.Circle.Order.{successor-mem}
use buckets.Circle.Moves.{HasDistinctHashes, successor_grow, successor-keep}
use buckets.Ring.{
  Vnode, Ring, belongs, count_of, new_vnodes, add_node, remove_node, id_or_none, lookup,
}
use buckets.Ring.Count.{has_node-count_of, length-without}
use buckets.Ring.Invariant.{IsValid, added, added-IsValid, length-added, removed, removed-IsValid}

-- The virtual node that an object goes to: the first at or after its hash, clockwise.
abbrev pub place : Ring → Bytes → Option Vnode
place r name = successor Vnode.hash (xxhash64 r.seed name) r.vnodes

place_empty : (r : Ring) (name : Bytes) → length r.vnodes ≡ 0 → place r name ≡ none
place_empty r name = go (xxhash64 r.seed name) r.vnodes
  where
    go : (t : ℕ) (vs : List Vnode) → length vs ≡ 0 → successor Vnode.hash t vs ≡ none
    go t [] h = refl
    go t (x ∷ xs) h = absurd (omega arith)

-- Lookup by binary search gives the node of that virtual node, and -1 on an empty ring.
pub lookup-place : (r : Ring) (name : Bytes) → IsValid r → lookup r name ≡ id_or_none (place r name)
unfolding lookup
lookup-place r name v = elim (Bool-cases (length r.vnodes == 0)) [
  | inl none_there ↦
      rw none_there (ap id_or_none (sym (place_empty r name (ground (arith, none_there)))))
  | inr some_there ↦
      rw (some_there, find_index-successor Vnode.hash r.vnodes (xxhash64 r.seed name) v.sorted)
]

fresh_mem :
    (seed : ℕ) (id : ℤ) (name : Bytes) (i n : ℕ) (v : Vnode)
    → Mem v (new_vnodes seed id name i n)
    → eq_ℤ id v.node_id ≡ true
unfolding new_vnodes
fresh_mem seed id name i zero v m = absurd (not-mem-nil m)
fresh_mem seed id name i (suc n) v m =
    Or.elim (Bool-set _ _) (mem-cons.0 m) (λ e. rw e ((eq_ℤ_iff id id).1 refl))
      (fresh_mem seed id name (i + 1) n v)

place_exists :
    (r : Ring) (name : Bytes) → 0 < length r.vnodes → (v : Vnode) × (place r name ≡ some v)
place_exists r name h = go (xxhash64 r.seed name) r.vnodes h
  where
    go :
        (t : ℕ) (vs : List Vnode)
        → 0 < length vs
        → (v : Vnode) × (successor Vnode.hash t vs ≡ some v)
    go t [] h = absurd (omega arith)
    go t (x ∷ xs) h = elim (Option-cases (scan Vnode.hash t (x ∷ xs))) [
      | inl e ↦ (x, rw (e, or_first))
      | inr (w, e) ↦ (w, rw (e, or_first))
    ]

module _ (qsort : Qsort Vnode.hash) (r : Ring) (id : ℤ) (name : Bytes) where
  mem_added :
      (v : Vnode)
      → eq_ℤ id v.node_id ≡ false
      → Mem v (added qsort r id name).vnodes
      → Mem v r.vnodes
  mem_added v h m =
      Or.elim Mem-prop (mem-append.0 ((Perm.mem_iff (qsort.same _)).0 m)) (λ old. old)
        (λ new. absurd (ground (arith, h, fresh_mem r.seed id name 0 r.vnodes_per_node v new)))

  old_mem : (u : Vnode) → Mem u r.vnodes → Mem u (added qsort r id name).vnodes
  old_mem u m = (Perm.mem_iff (qsort.same _)).1 (mem-append_left _ m)

  absent_of_add : {r' : Ring} → add_node qsort r id name ≡ ok r' → count_of id r.vnodes ≡ 0
  unfolding add_node
  absent_of_add e = ground (arith, e, has_node-count_of id r.vnodes)

  result_of_add : {r' : Ring} → add_node qsort r id name ≡ ok r' → added qsort r id name ≡ r'
  unfolding add_node
  result_of_add e = ground (arith, e)

  added_moves :
      (object : Bytes)
      → IsValid r
      → count_of id r.vnodes ≡ 0
      → HasDistinctHashes Vnode.hash (added qsort r id name).vnodes
      → (lookup (added qsort r id name) object ≡ id)
        ⊎ (lookup (added qsort r id name) object ≡ lookup r object)
  added_moves object v z distinct =
      let new = added qsort r id name in
      let v' = added-IsValid qsort r id name v z in
      let hit = place_exists new object (omega (arith, length-added qsort r id name, v.positive)) in
      let at = successor-mem Vnode.hash (xxhash64 r.seed object) new.vnodes hit.0 v'.sorted hit.1 in
      let found : lookup new object ≡ hit.0.node_id =
        lookup-place new object v' ∙ ap id_or_none hit.1 in
      elim (Bool-cases (eq_ℤ id hit.0.node_id)) [
        | inl here ↦ inl (found ∙ sym ((eq_ℤ_iff id hit.0.node_id).0 here))
        | inr there ↦ inr (
            found
            ∙ sym (
                lookup-place r object v
                ∙ ap id_or_none (
                    successor_grow Vnode.hash (xxhash64 r.seed object) r.vnodes new.vnodes hit.0
                      v.sorted v'.sorted distinct old_mem hit.1 (mem_added hit.0 there at.0))))
      ]

  -- When a node is added, an object whose node changes goes to the new node, given that no two
  -- virtual nodes share a hash.
  pub add_node_moves :
      (object : Bytes) {r' : Ring}
      → IsValid r
      → add_node qsort r id name ≡ ok r'
      → HasDistinctHashes Vnode.hash r'.vnodes
      → (lookup r' object ≡ id) ⊎ (lookup r' object ≡ lookup r object)
  add_node_moves object v e distinct =
      let same : added qsort r id name ≡ _ = result_of_add e in
      subst (λ w. (lookup w object ≡ id) ⊎ (lookup w object ≡ lookup r object)) same
        (added_moves object v (absent_of_add e)
          (subst (λ w. HasDistinctHashes Vnode.hash w.vnodes) (sym same) distinct))

present_of_remove :
    (r : Ring) (id : ℤ) {r' : Ring} → remove_node r id ≡ ok r' → (count_of id r.vnodes == 0) ≡ false
unfolding remove_node
present_of_remove r id e = ground (arith, e)

result_of_remove : (r : Ring) (id : ℤ) {r' : Ring} → remove_node r id ≡ ok r' → removed r id ≡ r'
unfolding remove_node
result_of_remove r id e = ground (arith, e)

removed_moves :
    (r : Ring) (id : ℤ) (object : Bytes)
    → IsValid r
    → (count_of id r.vnodes == 0) ≡ false
    → lookup r object ≢ id
    → lookup (removed r id) object ≡ lookup r object
removed_moves r id object v there away =
    let hit = place_exists r object (ground (arith, there, length-without id r.vnodes)) in
    let found : lookup r object ≡ hit.0.node_id = lookup-place r object v ∙ ap id_or_none hit.1 in
    lookup-place (removed r id) object (removed-IsValid r id v there)
    ∙ ap id_or_none (
        successor-keep Vnode.hash (λ u. not (belongs id u)) (xxhash64 r.seed object) r.vnodes hit.0
          (ground (arith, away, found, eq_ℤ_iff hit.0.node_id id)) hit.1)
    ∙ sym found

-- When a node is removed, the objects of the other nodes stay where they are.
pub remove_node_moves :
    (r : Ring) (id : ℤ) (object : Bytes) {r' : Ring}
    → IsValid r
    → remove_node r id ≡ ok r'
    → lookup r object ≢ id
    → lookup r' object ≡ lookup r object
remove_node_moves r id object v e away =
    subst (λ w. lookup w object ≡ lookup r object) (result_of_remove r id e)
      (removed_moves r id object v (present_of_remove r id e) away)
