-- ===== src/Circle/Moves.antt =====
-- How the successor moves when entries join the circle of src/hash/ring.c and
-- src/placement/placement.c, or leave it.
use mathlib.Core.List.{Mem, not-mem-nil}
use buckets.Prelude.{
  ℕ, ◌≡◌, refl, sym, ◌∙◌, ap, ◌⊎◌, inl, inr, Bool, true, List, [], ◌∷◌, none, some, arith, leb,
  if◌then◌else◌, Bool-cases, Option-cases,
}
use buckets.Circle.{AllFrom, IsSorted, scan, head?, or_first, successor}
use buckets.Circle.Order.{IsNearest, IsWrapped, successor-mem}

module _ {A : Type 0} (hash : A → ℕ) where
  -- No two entries share a hash.
  abbrev pub HasDistinctHashes : List A → Type 0
  HasDistinctHashes xs = (u w : A) → Mem u xs → Mem w xs → hash u ≡ hash w → u ≡ w

  successor_exists :
      (target : ℕ) (xs : List A) (v : A) → Mem v xs → (w : A) × (successor hash target xs ≡ some w)
  successor_exists target [] v m = absurd (not-mem-nil m)
  successor_exists target (x ∷ xs) v m = elim (Option-cases (scan hash target (x ∷ xs))) [
    | inl e ↦ (x, rw (e, or_first))
    | inr (w, e) ↦ (w, rw (e, or_first))
  ]

  same_hash :
      (target : ℕ) (xs ys : List A) (v w : A)
      → ((u : A) → Mem u xs → Mem u ys)
      → Mem v xs
      → Mem w xs
      → (IsNearest hash target v ys) ⊎ (IsWrapped hash target v ys)
      → (IsNearest hash target w xs) ⊎ (IsWrapped hash target w xs)
      → hash v ≡ hash w
  same_hash target xs ys v w sub mv mw (inl near) (inl near') =
      omega (arith, near.1 w (sub w mw) near'.0, near'.1 v mv near.0)
  same_hash target xs ys v w sub mv mw (inl near) (inr wrap') =
      absurd (omega (arith, near.0, wrap'.0 v mv))
  same_hash target xs ys v w sub mv mw (inr wrap) (inl near') =
      absurd (omega (arith, near'.0, wrap.0 w (sub w mw)))
  same_hash target xs ys v w sub mv mw (inr wrap) (inr wrap') =
      omega (arith, wrap.1 w (sub w mw), wrap'.1 v mv)

  -- A successor in the larger circle that was there before is the successor in the smaller one.
  pub successor_grow :
      (target : ℕ) (xs ys : List A) (v : A)
      → IsSorted hash xs
      → IsSorted hash ys
      → HasDistinctHashes ys
      → ((u : A) → Mem u xs → Mem u ys)
      → successor hash target ys ≡ some v
      → Mem v xs
      → successor hash target xs ≡ some v
  successor_grow target xs ys v sx sy distinct sub e mv =
      let (w, q) = successor_exists target xs v mv in
      let old = successor-mem hash target xs w sx q in
      let new = successor-mem hash target ys v sy e in
      let same = same_hash target xs ys v w sub mv old.0 new.1 old.1 in
      q ∙ ap some (sym (distinct v w new.0 (sub w old.0) same))

  module _ (keeps : A → Bool) where
    -- The entries that a copying loop keeps, in their order.
    unfoldable pub keep : List A → List A
    keep [] = []
    keep (x ∷ xs) = if keeps x then x ∷ keep xs else keep xs

    AllFrom-keep : (h : ℕ) (xs : List A) → AllFrom hash h xs → AllFrom hash h (keep xs)
    unfolding keep
    AllFrom-keep h [] a = a
    AllFrom-keep h (x ∷ xs) a = ground (arith, AllFrom-keep h xs a.1)

    pub keep-IsSorted : (xs : List A) → IsSorted hash xs → IsSorted hash (keep xs)
    unfolding keep
    keep-IsSorted [] s = s
    keep-IsSorted (x ∷ xs) s = ground (arith, AllFrom-keep (hash x) xs s.0, keep-IsSorted xs s.1)

    scan-keep :
        (target : ℕ) (xs : List A) (v : A)
        → keeps v ≡ true
        → scan hash target xs ≡ some v
        → scan hash target (keep xs) ≡ some v
    unfolding keep
    scan-keep target [] v k e = absurd (ground (arith, e))
    scan-keep target (x ∷ xs) v k e = elim (Bool-cases (leb target (hash x))) [
      | inl hit ↦
          let same : x ≡ v = ground (arith, hit, e) in
          let kept : keeps x ≡ true = rw same k in rw (kept, hit) (ap some same)
      | inr miss ↦ ground (arith, miss, scan-keep target xs v k (ground (arith, miss, e)))
    ]

    scan-none-keep :
        (target : ℕ) (xs : List A) → scan hash target xs ≡ none → scan hash target (keep xs) ≡ none
    unfolding keep
    scan-none-keep target [] e = refl
    scan-none-keep target (x ∷ xs) e = ground (arith, scan-none-keep target xs)

    head-keep :
        (xs : List A) (v : A)
        → keeps v ≡ true
        → head? hash xs ≡ some v
        → head? hash (keep xs) ≡ some v
    unfolding keep
    head-keep [] v k e = absurd (ground (arith, e))
    head-keep (x ∷ xs) v k e =
        let same : x ≡ v = ground (arith, e) in
        let kept : keeps x ≡ true = rw same k in rw kept (ap some same)

    -- A successor that stays is still the successor.
    pub successor-keep :
        (target : ℕ) (xs : List A) (v : A)
        → keeps v ≡ true
        → successor hash target xs ≡ some v
        → successor hash target (keep xs) ≡ some v
    successor-keep target xs v k e = elim (Option-cases (scan hash target xs)) [
      | inl e' ↦ rw (scan-none-keep target xs e') (head-keep xs v k (ground (arith, e, e')))
      | inr (w, e') ↦
          let same : w ≡ v = ground (arith, e, e') in
          rw (scan-keep target xs v k (e' ∙ ap some same))
    ]
