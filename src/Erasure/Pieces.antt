-- ===== src/Erasure/Pieces.antt =====
-- Cutting a list at an offset and putting it together again.
use buckets.Prelude.{
  ℕ, zero, suc, ◌+◌, ◌≡◌, refl, sym, ap, ◌∙◌, List, [], ◌∷◌, ◌++◌, length, take, drop, arith,
}

module _ {ℓ} {A : Type ℓ} where
  take_later : (m n : ℕ) (x : A) (xs : List A) → take (suc m + n) (x ∷ xs) ≡ x ∷ take (m + n) xs
  take_later m n x xs = let e : suc m + n ≡ suc (m + n) = omega arith in rw e refl

  drop_later : (m n : ℕ) (x : A) (xs : List A) → drop (suc m + n) (x ∷ xs) ≡ drop (m + n) xs
  drop_later m n x xs = let e : suc m + n ≡ suc (m + n) = omega arith in rw e refl

  pub take_nil : (n : ℕ) → take {A = A} n [] ≡ []
  take_nil zero = refl
  take_nil (suc n) = refl

  pub drop_nil : (n : ℕ) → drop {A = A} n [] ≡ []
  drop_nil zero = refl
  drop_nil (suc n) = refl

  pub take_add : (m n : ℕ) (xs : List A) → take (m + n) xs ≡ take m xs ++ take n (drop m xs)
  take_add zero n xs = let e : 0 + n ≡ n = omega arith in rw e refl
  take_add (suc m) n [] = take_nil (suc m + n) ∙ sym (take_nil n)
  take_add (suc m) n (x ∷ xs) = take_later m n x xs ∙ ap (◌∷◌ x) (take_add m n xs)

  pub drop_add : (m n : ℕ) (xs : List A) → drop (m + n) xs ≡ drop n (drop m xs)
  drop_add zero n xs = let e : 0 + n ≡ n = omega arith in rw e refl
  drop_add (suc m) n [] = drop_nil (suc m + n) ∙ sym (drop_nil n)
  drop_add (suc m) n (x ∷ xs) = drop_later m n x xs ∙ drop_add m n xs

  pub take_front : (m : ℕ) (xs ys : List A) → length xs ≡ m → take m (xs ++ ys) ≡ xs
  take_front zero [] ys e = refl
  take_front zero (x ∷ xs) ys e = absurd (omega arith)
  take_front (suc m) [] ys e = absurd (omega arith)
  take_front (suc m) (x ∷ xs) ys e = ap (◌∷◌ x) (take_front m xs ys (omega arith))

  pub drop_front : (m : ℕ) (xs ys : List A) → length xs ≡ m → drop m (xs ++ ys) ≡ ys
  drop_front zero [] ys e = refl
  drop_front zero (x ∷ xs) ys e = absurd (omega arith)
  drop_front (suc m) [] ys e = absurd (omega arith)
  drop_front (suc m) (x ∷ xs) ys e = drop_front m xs ys (omega arith)
