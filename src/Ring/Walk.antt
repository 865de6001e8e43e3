-- ===== src/Ring/Walk.antt =====
-- `buckets_ring_lookup_n` of src/hash/ring.c: distinct nodes, in order, and the access outside
-- `seen` that node ids above the node count make.
use buckets.Prelude.{
  ℕ, zero, suc, ◌+◌, ◌%◌, ◌≤◌, ◌<◌, ◌≡◌, ◌≢◌, refl, sym, ◌∙◌, ap, subst, inl, inr, Bool, true,
  false, List, [], ◌∷◌, arith, Option, none, some, Option-cases, length, get_elem?, set,
  get_elem?-set_self, get_elem?-set_ne,
}
use native.Mathlib.Decide.{ℕ_discrete}
use buckets.Prelude.Int.{ℤ, pos, negsuc}
use buckets.Ring.{Vnode, id_or_none, seen_at, mark, walk}

-- An index of an array of `size` flags.
abbrev pub IsIndex : ℕ → ℤ → Type 0
IsIndex size (pos i) = i < size
IsIndex size (negsuc i) = ⊥

abbrev pub AllUnseen : List Bool → List ℤ → Type 0
AllUnseen seen [] = Unit {0}
AllUnseen seen (id ∷ ids) = (seen_at seen id ≡ some false) × AllUnseen seen ids

abbrev pub AllDiffer : ℤ → List ℤ → Type 0
AllDiffer id [] = Unit {0}
AllDiffer id (x ∷ xs) = (id ≢ x) × AllDiffer id xs

abbrev pub AreDistinct : List ℤ → Type 0
AreDistinct [] = Unit {0}
AreDistinct (id ∷ ids) = AllDiffer id ids × AreDistinct ids

in_range : (seen : List Bool) (i : ℕ) {b : Bool} → get_elem? seen i ≡ some b → i < length seen
in_range [] i e = absurd (ground (arith, e))
in_range (x ∷ xs) zero e = omega arith
in_range (x ∷ xs) (suc i) e = omega (arith, in_range xs i e)

-- A flag that is clear after `mark` was clear before, and is another one.
mark_unseen :
    (seen : List Bool) (id other : ℤ)
    → seen_at seen id ≡ some false
    → seen_at (mark seen id) other ≡ some false
    → (id ≢ other) × (seen_at seen other ≡ some false)
unfolding seen_at
mark_unseen seen (negsuc i) other h k = absurd (ground (arith, h))
mark_unseen seen (pos i) (negsuc j) h k = absurd (ground (arith, k))
mark_unseen seen (pos i) (pos j) h k = elim (ℕ_discrete i j) [
  | yes e ↦ absurd (
      ground (
        arith,
        e,
        k,
        get_elem?-set_self seen i true (in_range seen i h),
        ap (get_elem? (set seen i true)) e,
      ))
  | no ne ↦ (λ q. ne (ground (arith, q)), sym (get_elem?-set_ne seen true ne) ∙ k)
]

mark-AllUnseen :
    (seen : List Bool) (id : ℤ) (ids : List ℤ)
    → seen_at seen id ≡ some false
    → AllUnseen (mark seen id) ids
    → AllDiffer id ids × AllUnseen seen ids
mark-AllUnseen seen id [] h k = (tt, tt)
mark-AllUnseen seen id (x ∷ xs) h k =
    let now = mark_unseen seen id x h k.0 in
    let later = mark-AllUnseen seen id xs h k.1 in ((now.0, later.0), (now.1, later.1))

pub record Walked (wanted : ℕ) (seen : List Bool) (ids : List ℤ) : Type 0 where
  pub at_most : length ids ≤ wanted
  pub unseen : AllUnseen seen ids
  pub distinct : AreDistinct ids

pub data StepCases (vs : List Vnode) (at : ℕ) (seen : List Bool) : Type 0 where
  outside : seen_at seen (id_or_none (get_elem? vs at)) ≡ none → StepCases vs at seen
  passing : seen_at seen (id_or_none (get_elem? vs at)) ≡ some true → StepCases vs at seen
  taking : seen_at seen (id_or_none (get_elem? vs at)) ≡ some false → StepCases vs at seen

pub step_cases : (vs : List Vnode) (at : ℕ) (seen : List Bool) → StepCases vs at seen
step_cases vs at seen = go (seen_at seen (id_or_none (get_elem? vs at))) refl
  where
    go : (o : Option Bool) → seen_at seen (id_or_none (get_elem? vs at)) ≡ o → StepCases vs at seen
    go none e = outside e
    go (some true) e = passing e
    go (some false) e = taking e

abbrev pub after : ℕ → List Vnode → ℕ
after at vs = (at + 1) % length vs

abbrev cons_some : ℤ → Option (List ℤ) → Option (List ℤ)
cons_some id none = none
cons_some id (some ids) = some (id ∷ ids)

module _ (vs : List Vnode) (left at wanted : ℕ) (seen : List Bool) where
  abbrev pub here : ℤ
  here = id_or_none (get_elem? vs at)

  pub walk-passing :
      seen_at seen here ≡ some true
      → walk vs (suc left) at (suc wanted) seen ≡ walk vs left (after at vs) (suc wanted) seen
  unfolding walk
  walk-passing o = rw (o, walk)

  pub walk-taking :
      seen_at seen here ≡ some false
      → walk vs (suc left) at (suc wanted) seen
        ≡ cons_some here (walk vs left (after at vs) wanted (mark seen here))
  unfolding walk
  walk-taking o = rw (o, walk) (ground arith)

  pub walk-outside : seen_at seen here ≡ none → walk vs (suc left) at (suc wanted) seen ≡ none
  unfolding walk
  walk-outside o = rw (o, walk)

empty-Walked : (wanted : ℕ) (seen : List Bool) → Walked wanted seen []
empty-Walked wanted seen = record { at_most = omega arith; unseen = tt; distinct = tt }

cons-Walked :
    (wanted : ℕ) (seen : List Bool) (id : ℤ) (ids : List ℤ)
    → seen_at seen id ≡ some false
    → Walked wanted (mark seen id) ids
    → Walked (suc wanted) seen (id ∷ ids)
cons-Walked wanted seen id ids o w =
    let (differ, unseen) = mark-AllUnseen seen id ids o w.unseen in
    record {
      at_most = omega (arith, w.at_most);
      unseen = (o, unseen);
      distinct = (differ, w.distinct);
    }

pub walk-Walked :
    (vs : List Vnode) (left at wanted : ℕ) (seen : List Bool) (ids : List ℤ)
    → walk vs left at wanted seen ≡ some ids
    → Walked wanted seen ids
walk-Walked vs zero at wanted seen ids e =
    subst (Walked wanted seen) (nothing e) (empty-Walked wanted seen)
  where
    nothing : walk vs zero at wanted seen ≡ some ids → [] ≡ ids
    nothing e = unfold walk in ground (arith, e)
walk-Walked vs (suc left) at zero seen ids e =
    subst (Walked 0 seen) (nothing e) (empty-Walked 0 seen)
  where
    nothing : walk vs (suc left) at zero seen ≡ some ids → [] ≡ ids
    nothing e = unfold walk in ground (arith, e)
walk-Walked vs (suc left) at (suc wanted) seen ids e = elim (step_cases vs at seen) [
  | outside o ↦ absurd (ground (arith, e, walk-outside vs left at wanted seen o))
  | passing o ↦
      walk-Walked vs left (after at vs) (suc wanted) seen ids
        (sym (walk-passing vs left at wanted seen o) ∙ e)
  | taking o ↦
      let rest = walk vs left (after at vs) wanted (mark seen (here vs left at wanted seen)) in
      elim (Option-cases rest) [
        | inl lost ↦ absurd (ground (arith, e, lost, walk-taking vs left at wanted seen o))
        | inr (more, found) ↦
            subst (Walked (suc wanted) seen)
              (ground (arith, e, found, walk-taking vs left at wanted seen o))
              (cons-Walked wanted seen _ more o
                (walk-Walked vs left (after at vs) wanted _ more found))
      ]
]
