-- ===== src/Circle.antt =====
-- The circle of hashes that src/hash/ring.c and src/placement/placement.c both keep: an array
-- sorted by hash, searched for the first entry at or after a hash, with the first entry after the
-- last.
pub mod Search
pub mod Order
pub mod Moves
pub mod Insertion
use mathlib.Core.List.{Perm}
use buckets.Prelude.{
  ℕ, zero, suc, ◌+◌, ◌-◌, ◌/◌, ◌≤◌, Bool, List, [], ◌∷◌, Option, none, some, ltb, leb,
  if◌then◌else◌, length, get_or,
}

-- The loop `while (left < right)`; the range shrinks in each round, so its length is fuel enough.
unfoldable pub search : ℕ → (ℕ → ℕ) → ℕ → ℕ → ℕ → ℕ
search zero hash_at target left right = left
search (suc fuel) hash_at target left right =
    let mid : ℕ = left + (right - left) / 2 in
    let above = search fuel hash_at target (mid + 1) right in
    let below = search fuel hash_at target left mid in
    let next = if ltb (hash_at mid) target then above else below in
    if ltb left right then next else left

module _ {A : Type 0} (hash : A → ℕ) where
  -- The hashes by index.
  abbrev pub hash_or : List A → ℕ → ℕ
  hash_or [] i = 0
  hash_or (x ∷ xs) zero = hash x
  hash_or (x ∷ xs) (suc i) = hash_or xs i

  -- The search over the whole array, and the step past the end to the start.
  unfoldable pub find_index : List A → ℕ → ℕ
  unfolding search
  find_index xs target =
      let left = search (length xs) (hash_or xs) target 0 (length xs) in
      if leb (length xs) left then 0 else left

  -- Sorted by hash, as `qsort` leaves the array.
  abbrev pub AllFrom : ℕ → List A → Type 0
  AllFrom h [] = Unit {0}
  AllFrom h (x ∷ xs) = (h ≤ hash x) × AllFrom h xs

  abbrev pub IsSorted : List A → Type 0
  IsSorted [] = Unit {0}
  IsSorted (x ∷ xs) = AllFrom (hash x) xs × IsSorted xs

  -- The reference: walk along the array to the first entry at or after the hash, or wrap.
  abbrev pub scan : ℕ → List A → Option A
  scan target [] = none
  scan target (x ∷ xs) = if leb target (hash x) then some x else scan target xs

  abbrev pub head? : List A → Option A
  head? [] = none
  head? (x ∷ xs) = some x

  abbrev pub or_first : Option A → List A → Option A
  or_first (some x) xs = some x
  or_first none xs = head? xs

  abbrev pub successor : ℕ → List A → Option A
  successor target xs = or_first (scan target xs) xs

  -- `qsort` of the C library with `vnode_compare`: sorted, and the same entries. The order of equal
  -- hashes is left to the library.
  pub record Qsort : Type 0 where
    pub sort : List A → List A
    pub sorted : (xs : List A) → IsSorted (sort xs)
    pub same : (xs : List A) → Perm (sort xs) xs
