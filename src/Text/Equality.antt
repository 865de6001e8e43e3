-- ===== src/Text/Equality.antt =====
-- `strcmp(a, b) == 0` on C strings.
use buckets.Prelude.{
  ℕ, ◌≡◌, ◌≢◌, refl, subst, ◌↔◌, Bool, true, false, ◌&&◌, List, [], ◌∷◌, arith, ◌==◌,
}

abbrev pub same_text : List ℕ → List ℕ → Bool
same_text [] [] = true
same_text [] (y ∷ ys) = false
same_text (x ∷ xs) [] = false
same_text (x ∷ xs) (y ∷ ys) = x == y && same_text xs ys

same_text→eq : (a b : List ℕ) → same_text a b ≡ true → a ≡ b
same_text→eq [] [] h = refl
same_text→eq [] (y ∷ ys) h = cc
same_text→eq (x ∷ xs) [] h = cc
same_text→eq (x ∷ xs) (y ∷ ys) h = ground (arith, same_text→eq xs ys)

pub same_text_refl : (a : List ℕ) → same_text a a ≡ true
same_text_refl [] = refl
same_text_refl (x ∷ xs) = ground (arith, same_text_refl xs)

pub same_text_iff : (a b : List ℕ) → (same_text a b ≡ true) ↔ (a ≡ b)
same_text_iff a b = (same_text→eq a b, λ e. subst (λ c. same_text a c ≡ true) e (same_text_refl a))

pub differ→ne : (a b : List ℕ) → same_text a b ≡ false → a ≢ b
differ→ne a b h e = ground (arith, h, (same_text_iff a b).1 e)
