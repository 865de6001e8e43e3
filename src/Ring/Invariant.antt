-- ===== src/Ring/Invariant.antt =====
-- The invariant of the ring of src/hash/ring.c, and what adding and removing a node answer.
use mathlib.Core.Option.{some-injective}
use buckets.Prelude.{
  ℕ, zero, suc, ◌+◌, ◌-◌, ◌*◌, ◌<◌, ◌≡◌, refl, sym, ◌∙◌, ◌⊎◌, inl, inr, true, false, not, List,
  ◌++◌, arith, ◌==◌, if◌then◌else◌, Bool-cases, length, length-append, some, subst, ◌^◌,
}
use buckets.Prelude.Int.{ℤ, pos, negsuc, eq_ℤ, eq_ℤ_iff}
use buckets.Prelude.Perms.{length-perm}
use buckets.Status.{ok, err, exists, not_found}
use buckets.Text.{Bytes}
use buckets.Circle.{Qsort, IsSorted}
use buckets.Circle.Moves.{keep-IsSorted}
use buckets.Ring.{
  Vnode, Ring, create, default_vnodes, empty_ring, belongs, count_of, has_node, new_vnodes,
  add_node, remove_node,
}
use buckets.Ring.Count.{
  count_of-perm, count_of-append, count_of-new_self, count_of-new_other, length-new_vnodes,
  has_node-count_of, without, count_of-without_self, count_of-without_other, length-without,
}

-- The array is sorted, every node has all of its virtual nodes or none, and they add up.
pub record IsValid (r : Ring) : Type 0 where
  pub sorted : IsSorted Vnode.hash r.vnodes
  pub positive : 0 < r.vnodes_per_node
  pub total : length r.vnodes ≡ r.node_count * r.vnodes_per_node
  pub whole : (id : ℤ) → (count_of id r.vnodes ≡ 0) ⊎ (count_of id r.vnodes ≡ r.vnodes_per_node)

pub empty-IsValid : (n seed : ℕ) → 0 < n → IsValid (empty_ring n seed)
unfolding count_of
empty-IsValid n seed h = record {
  sorted = tt;
  positive = h;
  total = omega arith;
  whole = λ id. inl refl;
}

-- A new ring is valid and empty, whatever positive count or 0 it is made with.
pub create-IsValid :
    (per_node : ℤ) (seed : ℕ) {r : Ring} → create per_node seed ≡ some r → IsValid r
unfolding create count_of
create-IsValid (negsuc n) seed e = cc
create-IsValid (pos zero) seed e =
    subst IsValid (some-injective _ _ e) (empty-IsValid default_vnodes seed (omega arith))
create-IsValid (pos (suc n)) seed e =
    subst IsValid (some-injective _ _ e) (empty-IsValid (suc n) seed (omega arith))

module _ (qsort : Qsort Vnode.hash) (r : Ring) (id : ℤ) (name : Bytes) where
  abbrev fresh : List Vnode
  fresh = new_vnodes r.seed id name 0 r.vnodes_per_node

  abbrev pub added : Ring
  added = record r { vnodes = qsort.sort (r.vnodes ++ fresh); node_count = r.node_count + 1 }

  count_of-added : (k : ℤ) → count_of k added.vnodes ≡ count_of k r.vnodes + count_of k fresh
  count_of-added k =
      count_of-perm k _ _ (qsort.same (r.vnodes ++ fresh)) ∙ count_of-append k r.vnodes fresh

  pub length-added : length added.vnodes ≡ length r.vnodes + r.vnodes_per_node
  length-added =
      length-perm _ _ (qsort.same (r.vnodes ++ fresh))
      ∙ omega (
        arith,
        length-append r.vnodes fresh,
        length-new_vnodes r.seed id name 0 r.vnodes_per_node,
      )

  count_of-added_self : count_of id r.vnodes ≡ 0 → count_of id added.vnodes ≡ r.vnodes_per_node
  count_of-added_self z =
      omega (arith, count_of-added id, count_of-new_self r.seed id name 0 r.vnodes_per_node, z)

  count_of-added_other :
      (other : ℤ) → eq_ℤ id other ≡ false → count_of other added.vnodes ≡ count_of other r.vnodes
  count_of-added_other other h =
      omega
        (arith, count_of-added other, count_of-new_other r.seed id other name 0 r.vnodes_per_node h)

  pub added-IsValid : IsValid r → count_of id r.vnodes ≡ 0 → IsValid added
  added-IsValid v z = record {
    sorted = qsort.sorted (r.vnodes ++ fresh);
    positive = v.positive;
    total = grind (arith, length-added, v.total);
    whole = λ k. elim (Bool-cases (eq_ℤ id k)) [
      | inl same ↦ inr (
          subst (λ j. count_of j added.vnodes ≡ r.vnodes_per_node) ((eq_ℤ_iff id k).0 same)
            (count_of-added_self z))
      | inr differ ↦ rw (count_of-added_other k differ) (v.whole k)
    ];
  }

  -- Adding a node that is not there makes the ring valid with one node more; that node has all of its
  -- virtual nodes and the others have what they had. A node that is there is refused.
  pub add_node_lem :
      IsValid r
      → ((has_node id r.vnodes ≡ true) × (add_node qsort r id name ≡ err exists))
        ⊎ ((has_node id r.vnodes ≡ false)
            × ((r' : Ring) × (add_node qsort r id name ≡ ok r')
                × IsValid r'
                × (r'.node_count ≡ r.node_count + 1)
                × (count_of id r'.vnodes ≡ r.vnodes_per_node)
                × ((other : ℤ)
                    → eq_ℤ id other ≡ false
                    → count_of other r'.vnodes ≡ count_of other r.vnodes)))
  unfolding add_node
  add_node_lem v = elim (Bool-cases (has_node id r.vnodes)) [
    | inl there ↦ inl (there, rw there)
    | inr absent ↦
        let z : count_of id r.vnodes ≡ 0 = ground (arith, absent, has_node-count_of id r.vnodes) in
        inr (
          absent,
          (added, rw absent, added-IsValid v z, refl, count_of-added_self z, count_of-added_other),
        )
  ]

one_less : (m n p : ℕ) → m + 1 ≡ n → n * p ≡ m * p + p
one_less m n p h = rw (sym h) (omega arith)

module _ (r : Ring) (id : ℤ) where
  abbrev pub removed : Ring
  removed = record r {
    vnodes = without id r.vnodes;
    node_count = if r.node_count == 0 then 2 ^ 64 - 1 else r.node_count - 1;
  }

  count_of_present :
      IsValid r → (count_of id r.vnodes == 0) ≡ false → count_of id r.vnodes ≡ r.vnodes_per_node
  count_of_present v h = ground (arith, v.whole id, h)

  pub removed_count :
      IsValid r → (count_of id r.vnodes == 0) ≡ false → removed.node_count + 1 ≡ r.node_count
  removed_count v h =
      ground (arith, count_of_present v h, v.positive, v.total, length-without id r.vnodes)

  pub removed-IsValid : IsValid r → (count_of id r.vnodes == 0) ≡ false → IsValid removed
  removed-IsValid v h = record {
    sorted = keep-IsSorted Vnode.hash (λ u. not (belongs id u)) r.vnodes v.sorted;
    positive = v.positive;
    total = omega (
      arith,
      one_less removed.node_count r.node_count r.vnodes_per_node (removed_count v h),
      count_of_present v h,
      v.total,
      length-without id r.vnodes,
    );
    whole = λ k. elim (Bool-cases (eq_ℤ id k)) [
      | inl same ↦ inl (
          subst (λ j. count_of j removed.vnodes ≡ 0) ((eq_ℤ_iff id k).0 same)
            (count_of-without_self id r.vnodes))
      | inr differ ↦ rw (count_of-without_other id k r.vnodes differ) (v.whole k)
    ];
  }

  -- Removing a node that is there leaves the ring valid with one node less, no virtual node of that
  -- node, and those of the others. A node that is not there is refused.
  pub remove_node_lem :
      IsValid r
      → ((has_node id r.vnodes ≡ false) × (remove_node r id ≡ err not_found))
        ⊎ ((has_node id r.vnodes ≡ true)
            × ((r' : Ring) × (remove_node r id ≡ ok r')
                × IsValid r'
                × (r'.node_count + 1 ≡ r.node_count)
                × (count_of id r'.vnodes ≡ 0)
                × ((other : ℤ)
                    → eq_ℤ id other ≡ false
                    → count_of other r'.vnodes ≡ count_of other r.vnodes)))
  unfolding remove_node
  remove_node_lem v = elim (Bool-cases (count_of id r.vnodes == 0)) [
    | inl absent ↦ inl (ground (arith, absent, has_node-count_of id r.vnodes), rw absent)
    | inr there ↦ inr (
      ground (arith, there, has_node-count_of id r.vnodes),
      (
        removed,
        rw there,
        removed-IsValid v there,
        removed_count v there,
        count_of-without_self id r.vnodes,
        λ other h. count_of-without_other id other r.vnodes h,
      ),
    )
  ]
