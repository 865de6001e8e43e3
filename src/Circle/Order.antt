-- ===== src/Circle/Order.antt =====
-- The successor on the circle of src/hash/ring.c and src/placement/placement.c, told by hashes and
-- membership alone.
use mathlib.Core.List.{Mem, mem-cons, mem-cons_self, mem-cons_of_mem, not-mem-nil}
use mathlib.Core.Logic.Or
use native.Mathlib.Bridge.{le_prop}
use buckets.Prelude.{
  ℕ, ◌≤◌, ◌<◌, ◌≡◌, sym, subst, ◌⊎◌, inl, inr, List, [], ◌∷◌, none, some, arith, leb, Bool-cases,
  Option-cases,
}
use buckets.Circle.{AllFrom, IsSorted, scan, head?, successor}

module _ {A : Type 0} (hash : A → ℕ) (target : ℕ) where
  -- The nearest entry at or after the target.
  abbrev pub IsNearest : A → List A → Type 0
  IsNearest v xs = (target ≤ hash v) × ((u : A) → Mem u xs → target ≤ hash u → hash v ≤ hash u)

  -- No entry is at or after the target, and this is the first of all.
  abbrev pub IsWrapped : A → List A → Type 0
  IsWrapped v xs = ((u : A) → Mem u xs → hash u < target) × ((u : A) → Mem u xs → hash v ≤ hash u)

  AllFrom-mem : (h : ℕ) (xs : List A) → AllFrom hash h xs → (u : A) → Mem u xs → h ≤ hash u
  AllFrom-mem h [] a u m = absurd (not-mem-nil m)
  AllFrom-mem h (x ∷ xs) a u m =
      Or.elim le_prop (mem-cons.0 m) (λ e. subst (λ w. h ≤ hash w) (sym e) a.0)
        (AllFrom-mem h xs a.1 u)

  first_least :
      (x : A) (xs : List A) → AllFrom hash (hash x) xs → (u : A) → Mem u (x ∷ xs) → hash x ≤ hash u
  first_least x xs a u m =
      Or.elim le_prop (mem-cons.0 m) (λ q. subst (λ w. hash x ≤ hash w) (sym q) (omega arith))
        (AllFrom-mem (hash x) xs a u)

  scan-some :
      (xs : List A) (v : A)
      → IsSorted hash xs
      → scan hash target xs ≡ some v
      → Mem v xs × IsNearest v xs
  scan-some [] v s e = absurd (ground (arith, e))
  scan-some (x ∷ xs) v s e = elim (Bool-cases (leb target (hash x))) [
    | inl hit ↦
        let same : x ≡ v = ground (arith, e, hit) in
        subst (λ w. Mem w (x ∷ xs) × IsNearest w (x ∷ xs)) same
          (mem-cons_self, (ground (arith, hit), λ u m _. first_least x xs s.0 u m))
    | inr miss ↦
        let rest = scan-some xs v s.1 (ground (arith, e, miss)) in
        (
          mem-cons_of_mem x rest.0,
          (
            rest.1.0,
            λ u m h.
                Or.elim le_prop (mem-cons.0 m)
                  (λ q. absurd (ground (arith, miss, subst (λ w. target ≤ hash w) q h)))
                  (λ k. rest.1.1 u k h),
          ),
        )
  ]

  scan-none : (xs : List A) → scan hash target xs ≡ none → (u : A) → Mem u xs → hash u < target
  scan-none [] e u m = absurd (not-mem-nil m)
  scan-none (x ∷ xs) e u m = elim (Bool-cases (leb target (hash x))) [
    | inl hit ↦ absurd (ground (arith, e, hit))
    | inr miss ↦
        Or.elim le_prop (mem-cons.0 m)
          (λ q. subst (λ w. hash w < target) (sym q) (ground (arith, miss)))
          (scan-none xs (ground (arith, e, miss)) u)
  ]

  head_first :
      (xs : List A) (v : A)
      → IsSorted hash xs
      → head? hash xs ≡ some v
      → Mem v xs × ((u : A) → Mem u xs → hash v ≤ hash u)
  head_first [] v s e = absurd (ground (arith, e))
  head_first (x ∷ xs) v s e =
      let same : x ≡ v = ground (arith, e) in
      subst (λ w. Mem w (x ∷ xs) × ((u : A) → Mem u (x ∷ xs) → hash w ≤ hash u)) same
        (mem-cons_self, first_least x xs s.0)

  -- The successor in a sorted array is an entry of it, the nearest or the wrapped one.
  pub successor-mem :
      (xs : List A) (v : A)
      → IsSorted hash xs
      → successor hash target xs ≡ some v
      → Mem v xs × (IsNearest v xs ⊎ IsWrapped v xs)
  successor-mem xs v s e = elim (Option-cases (scan hash target xs)) [
    | inl no_scan ↦
        let first = head_first xs v s (ground (arith, e, no_scan)) in
        (first.0, inr (scan-none xs no_scan, first.1))
    | inr (w, found) ↦ let hit = scan-some xs v s (ground (arith, e, found)) in (hit.0, inl hit.1)
  ]
