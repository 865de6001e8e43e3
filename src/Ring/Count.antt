-- ===== src/Ring/Count.antt =====
-- Counting the virtual nodes of one node, src/hash/ring.c.
use mathlib.Core.List.{Perm, Permᴰ}
use mathlib.Core.Logic.{∥∥₁_elim}
use native.Mathlib.Nat.{ℕ_set}
use buckets.Prelude.{
  ℕ, zero, suc, ◌+◌, ◌≡◌, refl, ◌∙◌, ap, false, not, List, [], ◌∷◌, ◌++◌, arith, ltb, length,
}
use buckets.Prelude.Int.{ℤ, eq_ℤ, eq_ℤ_iff}
use buckets.Text.{Bytes}
use buckets.Circle.Moves.{keep}
use buckets.Ring.{Vnode, belongs, has_node, count_of, new_vnodes}

count_of-permᴰ : (id : ℤ) {xs ys : List Vnode} → Permᴰ xs ys → count_of id xs ≡ count_of id ys
unfolding count_of
count_of-permᴰ id Permᴰ.nil = refl
count_of-permᴰ id (Permᴰ.cons e p) = rw e (ground (arith, count_of-permᴰ id p))
count_of-permᴰ id (Permᴰ.swap e e') = rw (e, e') (ground arith)
count_of-permᴰ id (Permᴰ.trans p q) = count_of-permᴰ id p ∙ count_of-permᴰ id q

pub count_of-perm : (id : ℤ) (xs ys : List Vnode) → Perm xs ys → count_of id xs ≡ count_of id ys
count_of-perm id xs ys p = ∥∥₁_elim p (ℕ_set _ _) (count_of-permᴰ id)

pub count_of-append :
    (id : ℤ) (xs ys : List Vnode) → count_of id (xs ++ ys) ≡ count_of id xs + count_of id ys
unfolding count_of
count_of-append id [] ys = omega arith
count_of-append id (x ∷ xs) ys = ground (arith, count_of-append id xs ys)

pub count_of-new_self :
    (seed : ℕ) (id : ℤ) (name : Bytes) (i n : ℕ) → count_of id (new_vnodes seed id name i n) ≡ n
unfolding count_of new_vnodes
count_of-new_self seed id name i zero = refl
count_of-new_self seed id name i (suc n) =
    ground (arith, eq_ℤ_iff id id, count_of-new_self seed id name (i + 1) n)

pub count_of-new_other :
    (seed : ℕ) (id other : ℤ) (name : Bytes) (i n : ℕ)
    → eq_ℤ id other ≡ false
    → count_of other (new_vnodes seed id name i n) ≡ 0
unfolding count_of new_vnodes
count_of-new_other seed id other name i zero h = refl
count_of-new_other seed id other name i (suc n) h =
    ground (arith, h, count_of-new_other seed id other name (i + 1) n h)

pub length-new_vnodes :
    (seed : ℕ) (id : ℤ) (name : Bytes) (i n : ℕ) → length (new_vnodes seed id name i n) ≡ n
unfolding new_vnodes
length-new_vnodes seed id name i zero = refl
length-new_vnodes seed id name i (suc n) = ap suc (length-new_vnodes seed id name (i + 1) n)

-- A node is in the ring exactly when it has virtual nodes there.
pub has_node-count_of : (id : ℤ) (xs : List Vnode) → has_node id xs ≡ ltb 0 (count_of id xs)
unfolding has_node count_of
has_node-count_of id [] = refl
has_node-count_of id (x ∷ xs) = ground (arith, has_node-count_of id xs)

abbrev pub without : ℤ → List Vnode → List Vnode
without id = keep Vnode.hash (λ v. not (belongs id v))

pub count_of-without_self : (id : ℤ) (xs : List Vnode) → count_of id (without id xs) ≡ 0
unfolding count_of keep
count_of-without_self id [] = refl
count_of-without_self id (x ∷ xs) = ground (arith, count_of-without_self id xs)

pub count_of-without_other :
    (id other : ℤ) (xs : List Vnode)
    → eq_ℤ id other ≡ false
    → count_of other (without id xs) ≡ count_of other xs
unfolding count_of keep
count_of-without_other id other [] h = refl
count_of-without_other id other (x ∷ xs) h = ground (
  arith,
  h,
  eq_ℤ_iff x.node_id id,
  eq_ℤ_iff x.node_id other,
  eq_ℤ_iff id other,
  count_of-without_other id other xs h,
)

pub length-without :
    (id : ℤ) (xs : List Vnode) → length (without id xs) + count_of id xs ≡ length xs
unfolding count_of keep
length-without id [] = omega arith
length-without id (x ∷ xs) = ground (arith, length-without id xs)
