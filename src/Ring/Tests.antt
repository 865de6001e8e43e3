-- ===== src/Ring/Tests.antt =====
-- Runs of the ring of src/hash/ring.c, and its theorems at concrete rings.
use buckets.Prelude.{◌+◌, ◌≤◌, ◌≡◌, refl, ◌⊎◌, List, [], ◌∷◌, some, arith, length}
use buckets.Prelude.Int.{ℤ, pos}
use buckets.Status.{ok}
use buckets.Text.{Bytes}
use buckets.Hash.Xx.{xxhash64}
use buckets.Circle.{find_index}
use buckets.Circle.Moves.{HasDistinctHashes}
use buckets.Circle.Insertion.{by_insertion, insertion_sort, strict-HasDistinctHashes}
use buckets.Ring.{
  Vnode, Ring, empty_ring, default_vnodes, create, vnode_key, new_vnode, new_vnodes, add_node,
  remove_node, count_of, lookup, lookup_n, id_or_none,
}
use buckets.Ring.Invariant.{IsValid, empty-IsValid, create-IsValid, removed, added, added-IsValid}
use buckets.Ring.Lookup.{place, lookup-place, add_node_moves}
use buckets.Ring.Walk.{AreDistinct}
use buckets.Ring.Replicas.{AllIndices, lookup_n_total}

abbrev name_a : Bytes
name_a = b'a' ∷ []

abbrev name_b : Bytes
name_b = b'b' ∷ []

abbrev empty : Ring
empty = empty_ring 2 0

-- Node 1, then node 2, two virtual nodes each.
abbrev one_node : Ring
one_node = added (by_insertion Vnode.hash) empty (pos 1) name_a

abbrev two_nodes : Ring
two_nodes = added (by_insertion Vnode.hash) one_node (pos 2) name_b

key_a0 : vnode_key name_a 10 ≡ b'a' ∷ b':' ∷ b'1' ∷ b'0' ∷ []
unfolding vnode_key
key_a0 = refl

lookup_runs : lookup two_nodes name_a ≡ pos 1
unfolding lookup new_vnodes new_vnode insertion_sort vnode_key find_index xxhash64
lookup_runs = refl

one_node-IsValid : IsValid one_node
unfolding count_of
one_node-IsValid =
    added-IsValid (by_insertion Vnode.hash) empty (pos 1) name_a (empty-IsValid 2 0 (omega arith))
      refl

no_second : count_of (pos 2) one_node.vnodes ≡ 0
unfolding count_of new_vnodes new_vnode insertion_sort vnode_key find_index xxhash64
no_second = refl

two_nodes-IsValid : IsValid two_nodes
two_nodes-IsValid =
    added-IsValid (by_insertion Vnode.hash) one_node (pos 2) name_b one_node-IsValid no_second

add_second : add_node (by_insertion Vnode.hash) one_node (pos 2) name_b ≡ ok two_nodes
unfolding add_node new_vnodes new_vnode insertion_sort vnode_key find_index xxhash64
add_second = refl

two_nodes-distinct : HasDistinctHashes Vnode.hash two_nodes.vnodes
unfolding new_vnodes new_vnode insertion_sort vnode_key find_index xxhash64
two_nodes-distinct = strict-HasDistinctHashes Vnode.hash (hlevel) two_nodes.vnodes (omega arith)

abbrev without_second : Ring
without_second = removed two_nodes (pos 2)

remove_second : remove_node two_nodes (pos 2) ≡ ok without_second
unfolding remove_node new_vnodes new_vnode insertion_sort vnode_key find_index xxhash64
remove_second = refl

-- Node 9 alone: its id is above the node count.
abbrev high_node : Ring
high_node = added (by_insertion Vnode.hash) empty (pos 9) name_a

high_node-IsValid : IsValid high_node
unfolding count_of
high_node-IsValid =
    added-IsValid (by_insertion Vnode.hash) empty (pos 9) name_a (empty-IsValid 2 0 (omega arith))
      refl

abbrev high_vnode : Vnode
high_vnode = record { hash = 15610690383837150371; node_id = pos 9; node_name = name_a }

high_place : place high_node name_a ≡ some high_vnode
unfolding new_vnodes new_vnode insertion_sort vnode_key find_index xxhash64
high_place = refl

two_nodes-indices : AllIndices (two_nodes.node_count + 1) two_nodes.vnodes
unfolding new_vnodes new_vnode insertion_sort vnode_key find_index xxhash64
two_nodes-indices = omega arith

lookup-place_example : lookup two_nodes name_a ≡ id_or_none (place two_nodes name_a)
lookup-place_example = lookup-place two_nodes name_a two_nodes-IsValid

create-IsValid_example : IsValid (empty_ring default_vnodes 7)
unfolding create
create-IsValid_example = create-IsValid (pos 0) 7 refl

add_node_moves_example :
    (lookup two_nodes name_b ≡ pos 2) ⊎ (lookup two_nodes name_b ≡ lookup one_node name_b)
add_node_moves_example =
    add_node_moves (by_insertion Vnode.hash) one_node (pos 2) name_b name_b one_node-IsValid
      add_second two_nodes-distinct

lookup_n_total_example :
    (ids : List ℤ) × (lookup_n two_nodes name_a 2 ≡ some ids) × (length ids ≤ 2) × AreDistinct ids
lookup_n_total_example = lookup_n_total two_nodes name_a 2 two_nodes-indices
