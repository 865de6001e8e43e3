-- ===== src/Circle/Insertion.antt =====
-- A sort that meets the contract of `qsort` in src/hash/ring.c and src/placement/placement.c, and
-- arrays without equal hashes.
use mathlib.Core.List.{Perm, Mem, mem-cons, not-mem-nil}
use mathlib.Core.List.Perm
use mathlib.Core.Logic.Or
use native.Mathlib.Bridge.{le_prop}
use buckets.Prelude.{
  ℕ, ◌≤◌, ◌<◌, ◌≡◌, sym, ◌∙◌, ap, subst, List, [], ◌∷◌, arith, inl, inr, leb, if◌then◌else◌,
  Bool-cases,
}
use buckets.Circle.{AllFrom, IsSorted, Qsort}
use buckets.Circle.Moves.{HasDistinctHashes}

module _ {A : Type 0} (hash : A → ℕ) where
  insert : A → List A → List A
  insert a [] = a ∷ []
  insert a (x ∷ xs) = if leb (hash a) (hash x) then a ∷ x ∷ xs else x ∷ insert a xs

  unfoldable pub insertion_sort : List A → List A
  unfolding insert
  insertion_sort [] = []
  insertion_sort (x ∷ xs) = insert x (insertion_sort xs)

  insert-perm : (a : A) (xs : List A) → Perm (insert a xs) (a ∷ xs)
  unfolding insert
  insert-perm a [] = Perm.refl _
  insert-perm a (x ∷ xs) = elim (Bool-cases (leb (hash a) (hash x))) [
    | inl e ↦ rw e (Perm.refl _)
    | inr e ↦ rw e (Perm.trans (Perm.cons x (insert-perm a xs)) (Perm.swap a x xs))
  ]

  pub sort-perm : (xs : List A) → Perm (insertion_sort xs) xs
  unfolding insertion_sort
  sort-perm [] = Perm.refl _
  sort-perm (x ∷ xs) = Perm.trans (insert-perm x (insertion_sort xs)) (Perm.cons x (sort-perm xs))

  AllFrom-mono : (h k : ℕ) (xs : List A) → h ≤ k → AllFrom hash k xs → AllFrom hash h xs
  AllFrom-mono h k [] le a = tt
  AllFrom-mono h k (x ∷ xs) le a = (omega arith, AllFrom-mono h k xs le a.1)

  insert-AllFrom :
      (h : ℕ) (a : A) (xs : List A) → h ≤ hash a → AllFrom hash h xs → AllFrom hash h (insert a xs)
  unfolding insert
  insert-AllFrom h a [] le f = (le, tt)
  insert-AllFrom h a (x ∷ xs) le f = ground (arith, insert-AllFrom h a xs le f.1)

  insert-IsSorted : (a : A) (xs : List A) → IsSorted hash xs → IsSorted hash (insert a xs)
  unfolding insert
  insert-IsSorted a [] s = (tt, tt)
  insert-IsSorted a (x ∷ xs) s = elim (Bool-cases (leb (hash a) (hash x))) [
    | inl e ↦
        let le : hash a ≤ hash x = ground (arith, e) in
        rw e ((le, AllFrom-mono (hash a) (hash x) xs le s.0), s)
    | inr e ↦ rw e (insert-AllFrom (hash x) a xs (ground (arith, e)) s.0, insert-IsSorted a xs s.1)
  ]

  pub sort-IsSorted : (xs : List A) → IsSorted hash (insertion_sort xs)
  unfolding insertion_sort
  sort-IsSorted [] = tt
  sort-IsSorted (x ∷ xs) = insert-IsSorted x (insertion_sort xs) (sort-IsSorted xs)

  abbrev pub by_insertion : Qsort hash
  by_insertion = record { sort = insertion_sort; sorted = sort-IsSorted; same = sort-perm }

  abbrev pub AllOver : ℕ → List A → Type 0
  AllOver h [] = Unit {0}
  AllOver h (x ∷ xs) = (h < hash x) × AllOver h xs

  abbrev pub IsStrict : List A → Type 0
  IsStrict [] = Unit {0}
  IsStrict (x ∷ xs) = AllOver (hash x) xs × IsStrict xs

  AllOver-mem : (h : ℕ) (xs : List A) → AllOver h xs → (u : A) → Mem u xs → h < hash u
  AllOver-mem h [] a u m = absurd (not-mem-nil m)
  AllOver-mem h (x ∷ xs) a u m =
      Or.elim le_prop (mem-cons.0 m) (λ e. subst (λ w. h < hash w) (sym e) a.0)
        (AllOver-mem h xs a.1 u)

  -- Strictly rising hashes are distinct.
  pub strict-HasDistinctHashes : IsSet A → (xs : List A) → IsStrict xs → HasDistinctHashes hash xs
  strict-HasDistinctHashes set [] s u w mu mw e = absurd (not-mem-nil mu)
  strict-HasDistinctHashes set (x ∷ xs) s u w mu mw e =
      Or.elim (set u w) (mem-cons.0 mu)
        (λ eu.
          Or.elim (set u w) (mem-cons.0 mw) (λ ew. eu ∙ sym ew)
            (λ lw. absurd (clash (AllOver-mem (hash x) xs s.0 w lw) (ap hash eu) e)))
        (λ lu.
          Or.elim (set u w) (mem-cons.0 mw)
            (λ ew. absurd (clash (AllOver-mem (hash x) xs s.0 u lu) (ap hash ew) (sym e)))
            (λ lw. strict-HasDistinctHashes set xs s.1 u w lu lw e))
    where
      clash : {h k l : ℕ} → h < k → l ≡ h → l ≡ k → ⊥
      clash lt p q = omega arith
