-- ===== src/Prelude/Int.antt =====
-- Signed integers over the native numbers, under the library's names (its ℤ stands on the unary ℕ).
-- Sums and orders go through the two parts of an integer, which are numbers that `omega` reads.
use buckets.Prelude.{
  ℕ, suc, ◌+◌, ◌-◌, ◌*◌, ◌%◌, ◌^◌, ◌≤◌, List, [], ◌∷◌, ◌++◌, length, zero, Option, none, some,
  get_elem?, set, get_elem?-set_ne, get_elem?-set_found, ◌≡◌, refl, ◌⊎◌, inl, inr, ◌↔◌, Bool, true,
  false, arith, ltb, leb, ◌==◌, if◌then◌else◌,
}

-- `negsuc n` is -(n + 1).
pub data ℤ : Type 0 where
  pos : ℕ → ℤ
  negsuc : ℕ → ℤ

abbrev pub pos_part : ℤ → ℕ
pos_part (pos n) = n
pos_part (negsuc n) = 0

abbrev pub neg_part : ℤ → ℕ
neg_part (pos n) = 0
neg_part (negsuc n) = suc n

-- a - b, as an integer.
abbrev pub sub_ℕ : ℕ → ℕ → ℤ
sub_ℕ a b = if leb b a then pos (a - b) else negsuc (b - a - 1)

infixl 65 ◌+ℤ◌ ◌-ℤ◌
infixl 70 ◌*ℤ◌
infix 50 ◌≤ℤ◌
unfoldable pub ◌+ℤ◌ : ℤ → ℤ → ℤ
a +ℤ b = sub_ℕ (pos_part a + pos_part b) (neg_part a + neg_part b)

unfoldable pub ◌-ℤ◌ : ℤ → ℤ → ℤ
a -ℤ b = sub_ℕ (pos_part a + neg_part b) (neg_part a + pos_part b)

unfoldable pub ◌*ℤ◌ : ℤ → ℤ → ℤ
a *ℤ b =
    sub_ℕ (pos_part a * pos_part b + neg_part a * neg_part b)
      (pos_part a * neg_part b + neg_part a * pos_part b)

abbrev pub ◌≤ℤ◌ : ℤ → ℤ → Type 0
a ≤ℤ b = pos_part a + neg_part b ≤ pos_part b + neg_part a

abbrev pub ltb_ℤ : ℤ → ℤ → Bool
ltb_ℤ a b = ltb (pos_part a + neg_part b) (pos_part b + neg_part a)

-- With the operations unfolded `ground` splits on the signs.
pub +ℤ_comm : (a b : ℤ) → a +ℤ b ≡ b +ℤ a
unfolding ◌+ℤ◌
+ℤ_comm a b = ground arith

pub +ℤ_assoc : (a b c : ℤ) → a +ℤ b +ℤ c ≡ a +ℤ (b +ℤ c)
unfolding ◌+ℤ◌
+ℤ_assoc a b c = ground arith

pub +ℤ_cancel : (a b : ℤ) → a +ℤ b -ℤ b ≡ a
unfolding ◌+ℤ◌ ◌-ℤ◌
+ℤ_cancel a b = ground arith

pub ≤ℤ_total : (a b : ℤ) → (a ≤ℤ b) ⊎ (b ≤ℤ a)
≤ℤ_total a b = omega arith

-- One lemma for each operation lets `omega` work with the operations shut, at any depth.
pub +ℤ_parts :
    (a b : ℤ)
    → pos_part (a +ℤ b) + neg_part a + neg_part b ≡ neg_part (a +ℤ b) + pos_part a + pos_part b
unfolding ◌+ℤ◌
+ℤ_parts a b = ground arith

pub -ℤ_parts :
    (a b : ℤ)
    → pos_part (a -ℤ b) + neg_part a + pos_part b ≡ neg_part (a -ℤ b) + pos_part a + neg_part b
unfolding ◌-ℤ◌
-ℤ_parts a b = ground arith

pub eq_of_parts : (a b : ℤ) → pos_part a + neg_part b ≡ pos_part b + neg_part a → a ≡ b
eq_of_parts a b h = ground arith

pub ruleset int_laws = (arith, +ℤ_parts, -ℤ_parts, eq_of_parts)

abbrev pub is_negative : ℤ → Bool
is_negative (pos n) = false
is_negative (negsuc n) = true

abbrev pub eq_ℤ : ℤ → ℤ → Bool
eq_ℤ (pos a) (pos b) = a == b
eq_ℤ (negsuc a) (negsuc b) = a == b
eq_ℤ (pos a) (negsuc b) = false
eq_ℤ (negsuc a) (pos b) = false

pub eq_ℤ_iff : (a b : ℤ) → (eq_ℤ a b ≡ true) ↔ (a ≡ b)
eq_ℤ_iff (pos a) (pos b) = ground arith
eq_ℤ_iff (negsuc a) (negsuc b) = ground arith
eq_ℤ_iff (pos a) (negsuc b) = (λ e. cc, λ e. cc)
eq_ℤ_iff (negsuc a) (pos b) = (λ e. cc, λ e. cc)

pub ℤ-cases : (a : ℤ) → ((n : ℕ) × (a ≡ pos n)) ⊎ ((n : ℕ) × (a ≡ negsuc n))
ℤ-cases (pos n) = inl (n, refl)
ℤ-cases (negsuc n) = inr (n, refl)

-- An array read and written at a C `int`.
module _ {ℓ} {A : Type ℓ} where
  abbrev pub at? : List A → ℤ → Option A
  at? xs (pos i) = get_elem? xs i
  at? xs (negsuc i) = none

  abbrev pub put : List A → ℤ → A → List A
  put xs (pos i) v = set xs i v
  put xs (negsuc i) v = xs

module _ {ℓ} {A : Type ℓ} where
  pub at?-put_self :
      (xs : List A) (i : ℤ) (v x : A) → at? xs i ≡ some x → at? (put xs i v) i ≡ some v
  at?-put_self xs (pos i) v x h = get_elem?-set_found xs i v x h
  at?-put_self xs (negsuc i) v x h = cc

  pub at?-put_ne :
      (xs : List A) (i j : ℤ) (v : A) → eq_ℤ i j ≡ false → at? (put xs i v) j ≡ at? xs j
  at?-put_ne xs (pos i) (pos j) v h = get_elem?-set_ne xs v (λ e. ground (arith, e, h))
  at?-put_ne xs (pos i) (negsuc j) v h = refl
  at?-put_ne xs (negsuc i) j v h = refl

  pub at?-append_self : (xs : List A) (v : A) → at? (xs ++ v ∷ []) (pos (length xs)) ≡ some v
  at?-append_self [] v = refl
  at?-append_self (x ∷ xs) v = at?-append_self xs v

  get_elem?-append_ne :
      (xs : List A) (j : ℕ) (v : A)
      → (length xs == j) ≡ false
      → get_elem? (xs ++ v ∷ []) j ≡ get_elem? xs j
  get_elem?-append_ne [] zero v h = cc
  get_elem?-append_ne [] (suc j) v h = refl
  get_elem?-append_ne (x ∷ xs) zero v h = refl
  get_elem?-append_ne (x ∷ xs) (suc j) v h = get_elem?-append_ne xs j v (ground (arith, h))

  pub at?-append_ne :
      (xs : List A) (j : ℤ) (v : A)
      → eq_ℤ (pos (length xs)) j ≡ false
      → at? (xs ++ v ∷ []) j ≡ at? xs j
  at?-append_ne xs (pos j) v h = get_elem?-append_ne xs j v (ground (arith, h))
  at?-append_ne xs (negsuc j) v h = refl

abbrev pub signed_32 : ℕ → ℤ
signed_32 m = if ltb m (2 ^ 31) then pos m else negsuc (2 ^ 32 - 1 - m)

-- The cast of an `i64` to `int`, modulo 2^32 as gcc does it.
unfoldable pub to_int : ℤ → ℤ
to_int (pos n) = signed_32 (n % 2 ^ 32)
to_int (negsuc n) = signed_32 (2 ^ 32 - 1 - n % 2 ^ 32)
