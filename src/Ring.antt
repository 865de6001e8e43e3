-- ===== src/Ring.antt =====
-- The consistent hash ring of src/hash/ring.c.
pub mod Count
pub mod Invariant
pub mod Lookup
pub mod Walk
pub mod Replicas
mod Tests
use mathlib.Core.List.{map}
use buckets.Prelude.{
  ℕ, zero, suc, ◌+◌, ◌-◌, ◌%◌, ◌^◌, Bool, true, false, not, List, [], ◌∷◌, ◌++◌, Option, none, some,
  ltb, leb, ◌==◌, if◌then◌else◌, length, get_elem?, set, replicate,
}
use buckets.Prelude.Int.{ℤ, pos, negsuc, eq_ℤ, is_negative}
use buckets.Status.{Result, ok, err, exists, not_found}
use buckets.Text.{Bytes, decimal, fit}
use buckets.Hash.Xx.{xxhash64}
use buckets.Circle.{Qsort, find_index}
use buckets.Circle.Moves.{keep}

-- `buckets_vnode_t`.
pub record Vnode : Type 0 where
  pub hash : ℕ
  pub node_id : ℤ
  pub node_name : Bytes

-- `buckets_ring_t`. `vnode_count` is the length of the list.
pub record Ring : Type 0 where
  pub vnodes : List Vnode
  pub node_count : ℕ
  pub vnodes_per_node : ℕ
  pub seed : ℕ

abbrev pub default_vnodes : ℕ
default_vnodes = 150

abbrev pub empty_ring : ℕ → ℕ → Ring
empty_ring per_node seed = record {
  vnodes = [];
  node_count = 0;
  vnodes_per_node = per_node;
  seed = seed;
}

-- `none` is the NULL of a negative count.
unfoldable pub create : ℤ → ℕ → Option Ring
create (negsuc n) seed = none
create (pos zero) seed = some (empty_ring default_vnodes seed)
create (pos (suc n)) seed = some (empty_ring (suc n) seed)

-- "node_name:vnode_index", in a buffer of 256 bytes.
unfoldable pub vnode_key : Bytes → ℕ → Bytes
unfolding decimal
vnode_key name i = fit 256 (name ++ b':' ∷ decimal i)

unfoldable pub new_vnode : ℕ → ℤ → Bytes → ℕ → Vnode
new_vnode seed id name i = record {
  hash = xxhash64 seed (vnode_key name i);
  node_id = id;
  node_name = name;
}

-- The loop over `i`, with the rounds that are left.
unfoldable pub new_vnodes : ℕ → ℤ → Bytes → ℕ → ℕ → List Vnode
unfolding new_vnode
new_vnodes seed id name i zero = []
new_vnodes seed id name i (suc left) =
    new_vnode seed id name i ∷ new_vnodes seed id name (i + 1) left

abbrev pub belongs : ℤ → Vnode → Bool
belongs id v = eq_ℤ v.node_id id

unfoldable pub has_node : ℤ → List Vnode → Bool
has_node id [] = false
has_node id (v ∷ vs) = if belongs id v then true else has_node id vs

-- `remove_count`.
unfoldable pub count_of : ℤ → List Vnode → ℕ
count_of id [] = 0
count_of id (v ∷ vs) = if belongs id v then suc (count_of id vs) else count_of id vs

module _ (qsort : Qsort Vnode.hash) where
  unfoldable pub add_node : Ring → ℤ → Bytes → Result Ring
  unfolding has_node new_vnodes
  add_node r id name =
      if has_node id r.vnodes
      then err exists
      else ok (record r {
        vnodes = qsort.sort (r.vnodes ++ new_vnodes r.seed id name 0 r.vnodes_per_node);
        node_count = r.node_count + 1;
      })

unfoldable pub remove_node : Ring → ℤ → Result Ring
unfolding count_of keep
remove_node r id =
    if count_of id r.vnodes == 0
    then err not_found
    else ok (record r {
      vnodes = keep Vnode.hash (λ v. not (belongs id v)) r.vnodes;
      node_count = if r.node_count == 0 then 2 ^ 64 - 1 else r.node_count - 1;
    })

abbrev pub id_or_none : Option Vnode → ℤ
id_or_none none = negsuc 0
id_or_none (some v) = v.node_id

-- `buckets_ring_lookup`; `negsuc 0` is the -1 of an empty ring. The index found is always in range.
unfoldable pub lookup : Ring → Bytes → ℤ
lookup r name =
    if length r.vnodes == 0
    then negsuc 0
    else id_or_none (get_elem? r.vnodes (find_index Vnode.hash r.vnodes (xxhash64 r.seed name)))

-- `seen[node_id]`, an array of `node_count + 1` flags; `none` is an access outside it.
unfoldable pub seen_at : List Bool → ℤ → Option Bool
seen_at seen (pos i) = get_elem? seen i
seen_at seen (negsuc i) = none

abbrev pub mark : List Bool → ℤ → List Bool
mark seen (pos i) = set seen i true
mark seen (negsuc i) = seen

-- The walk round the ring, with the rounds left and the nodes still wanted; `none` is an access
-- outside `seen`, which C leaves undefined.
unfoldable pub walk : List Vnode → ℕ → ℕ → ℕ → List Bool → Option (List ℤ)
unfolding seen_at
walk vs zero at wanted seen = some []
walk vs (suc left) at zero seen = some []
walk vs (suc left) at (suc wanted) seen =
    let id : ℤ = id_or_none (get_elem? vs at) in
    let next : ℕ = (at + 1) % length vs in
    let taken = walk vs left next wanted (mark seen id) in
    let passed = walk vs left next (suc wanted) seen in
    elim (seen_at seen id) [
      | none ↦ none
      | some true ↦ passed
      | some false ↦ elim taken [ none ↦ none | some ids ↦ some (id ∷ ids) ]
    ]

-- `buckets_ring_lookup_n`: the nodes written to `out_nodes`.
unfoldable pub lookup_n : Ring → Bytes → ℕ → Option (List ℤ)
unfolding walk
lookup_n r name n =
    if n == 0
    then some []
    else if length r.vnodes == 0
    then some []
    else walk r.vnodes (length r.vnodes) (find_index Vnode.hash r.vnodes (xxhash64 r.seed name)) n
        (replicate (r.node_count + 1) false)
