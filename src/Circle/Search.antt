-- ===== src/Circle/Search.antt =====
-- The binary search of src/hash/ring.c and src/placement/placement.c finds the entry that a walk
-- along the sorted array finds.
use buckets.Prelude.{
  ℕ, zero, suc, ◌+◌, ◌-◌, ◌/◌, ◌≤◌, ◌<◌, ◌≡◌, refl, sym, true, false, List, [], ◌∷◌, none, some,
  arith, ltb, leb, Bool-cases, ltb→lt, inl, inr, length, get_elem?,
}
use buckets.Circle.{search, hash_or, find_index, AllFrom, IsSorted, scan, head?, successor}

-- `at` is below the target before `p`, and not below it from `p` to `n`.
pub record Splits (hash_at : ℕ → ℕ) (target n p : ℕ) : Type 0 where
  pub fits : p ≤ n
  pub lower : (i : ℕ) → i < p → hash_at i < target
  pub upper : (i : ℕ) → p ≤ i → i < n → target ≤ hash_at i

module _ (hash_at : ℕ → ℕ) (target n : ℕ)
    (mono : (i j : ℕ) → i ≤ j → j < n → hash_at i ≤ hash_at j) where
  search-Splits :
      (fuel left right : ℕ)
      → right - left ≤ fuel
      → left ≤ right
      → right ≤ n
      → ((i : ℕ) → i < left → hash_at i < target)
      → ((i : ℕ) → right ≤ i → i < n → target ≤ hash_at i)
      → Splits hash_at target n (search fuel hash_at target left right)
  unfolding search
  search-Splits zero left right f le fit lo hi = record {
    fits = omega arith;
    lower = lo;
    upper = λ i p q. hi i (omega arith) q;
  }
  search-Splits (suc fuel) left right f le fit lo hi = elim (Bool-cases (ltb left right)) [
    | inr done ↦
        rw done (record {
          fits = omega arith;
          lower = lo;
          upper = λ i p q. hi i (ground (arith, done)) q;
        })
    | inl more ↦
        let lt = ltb→lt left right more in
        elim (Bool-cases (ltb (hash_at mid) target)) [
          | inl low ↦
              rw (more, low)
                (search-Splits fuel (mid + 1) right (omega arith) (omega arith) fit (below lt low)
                  hi)
          | inr high ↦
              rw (more, high)
                (search-Splits fuel left mid (omega arith) (omega arith) (omega arith) lo
                  (above high))
        ]
  ]
    where
      mid : ℕ
      mid = left + (right - left) / 2

      below :
          left < right
          → ltb (hash_at mid) target ≡ true
          → (i : ℕ) → i < mid + 1
          → hash_at i < target
      below lt low i h = ground (arith, low, mono i mid (omega arith) (omega arith))

      above : ltb (hash_at mid) target ≡ false → (i : ℕ) → mid ≤ i → i < n → target ≤ hash_at i
      above high i h k = ground (arith, high, mono mid i h k)

module _ {A : Type 0} (hash : A → ℕ) where
  AllFrom-hash_or :
      (h : ℕ) (xs : List A) (j : ℕ) → AllFrom hash h xs → j < length xs → h ≤ hash_or hash xs j
  AllFrom-hash_or h [] j a k = absurd (omega arith)
  AllFrom-hash_or h (x ∷ xs) zero a k = a.0
  AllFrom-hash_or h (x ∷ xs) (suc j) a k = AllFrom-hash_or h xs j a.1 (omega arith)

  hash_or_mono :
      (xs : List A)
      → IsSorted hash xs
      → (i j : ℕ) → i ≤ j
      → j < length xs
      → hash_or hash xs i ≤ hash_or hash xs j
  hash_or_mono [] s i j h k = absurd (omega arith)
  hash_or_mono (x ∷ xs) s zero zero h k = omega arith
  hash_or_mono (x ∷ xs) s zero (suc j) h k = AllFrom-hash_or (hash x) xs j s.0 (omega arith)
  hash_or_mono (x ∷ xs) s (suc i) zero h k = absurd (omega arith)
  hash_or_mono (x ∷ xs) s (suc i) (suc j) h k = hash_or_mono xs s.1 i j (omega arith) (omega arith)

  -- The entry at a splitting index is the one that the walk stops at.
  Splits-scan :
      (xs : List A) (target p : ℕ)
      → Splits (hash_or hash xs) target (length xs) p
      → get_elem? xs p ≡ scan hash target xs
  Splits-scan [] target p s = refl
  Splits-scan (x ∷ xs) target zero s = ground (arith, s.upper 0)
  Splits-scan (x ∷ xs) target (suc p) s = ground (arith, s.lower 0, Splits-scan xs target p rest)
    where
      rest : Splits (hash_or hash xs) target (length xs) p
      rest = record {
        fits = omega (arith, s.fits);
        lower = λ i h. s.lower (suc i) (omega arith);
        upper = λ i h k. s.upper (suc i) (omega arith) (omega arith);
      }

  search_whole :
      (xs : List A) (target : ℕ)
      → IsSorted hash xs
      → Splits
          (hash_or hash xs)
          target
          (length xs)
          (search (length xs) (hash_or hash xs) target 0 (length xs))
  search_whole xs target s =
      search-Splits (hash_or hash xs) target (length xs) (hash_or_mono xs s) (length xs) 0
        (length xs) (omega arith) (omega arith) (omega arith) (λ i h. absurd (omega arith))
        (λ i h k. absurd (omega arith))

  first_entry : (xs : List A) → get_elem? xs 0 ≡ head? hash xs
  first_entry [] = refl
  first_entry (x ∷ xs) = refl

  past_end : (xs : List A) (i : ℕ) → length xs ≤ i → get_elem? xs i ≡ none
  past_end [] i h = refl
  past_end (x ∷ xs) zero h = absurd (omega arith)
  past_end (x ∷ xs) (suc i) h = past_end xs i (omega arith)

  within : (xs : List A) (i : ℕ) → i < length xs → (x : A) × (get_elem? xs i ≡ some x)
  within [] i h = absurd (omega arith)
  within (x ∷ xs) zero h = (x, refl)
  within (x ∷ xs) (suc i) h = within xs i (omega arith)

  -- On a sorted array the index found holds the successor of the hash.
  pub find_index-successor :
      (xs : List A) (target : ℕ)
      → IsSorted hash xs
      → get_elem? xs (find_index hash xs target) ≡ successor hash target xs
  unfolding find_index
  find_index-successor xs target s = elim (Bool-cases (leb (length xs) left)) [
    | inl wrap ↦
        rw (wrap, sym (Splits-scan xs target left whole), past_end xs left (ground (arith, wrap)))
          (first_entry xs)
    | inr stay ↦
        let (x, e) = within xs left (ground (arith, stay)) in
        rw (stay, sym (Splits-scan xs target left whole), e)
  ]
    where
      left : ℕ
      left = search (length xs) (hash_or hash xs) target 0 (length xs)

      whole : Splits (hash_or hash xs) target (length xs) left
      whole = search_whole xs target s
