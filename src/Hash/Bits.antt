-- ===== src/Hash/Bits.antt =====
-- Laws of `|` and `^` on words that the hash functions of src/hash rest on.
use Prim.Native.Nat.{bit_or, bit_xor, digits, max, differ, bit_or-bitwise, bit_xor-bitwise}
use native.Mathlib.Nat.{pow-suc}
use buckets.Prelude.{ℕ, zero, suc, ◌+◌, ◌*◌, ◌/◌, ◌%◌, ◌^◌, ◌≤◌, ◌<◌, ◌≡◌, refl, ap, arith}

-- `|` and `^` keep the digits of the second number when the first has run out.
module _ (f : ℕ → ℕ → ℕ) where
  abbrev merge : ℕ → ℕ → ℕ → ℕ
  merge = digits (λ y. y) f

  -- More fuel than digits changes nothing.
  merge_stable : (a b n m : ℕ) → a ≤ n → a ≤ m → merge n a b ≡ merge m a b
  merge_stable zero b zero zero h k = refl
  merge_stable zero b zero (suc m) h k = refl
  merge_stable zero b (suc n) zero h k = refl
  merge_stable zero b (suc n) (suc m) h k = refl
  merge_stable (suc a) b zero m h k = absurd (omega arith)
  merge_stable (suc a) b (suc n) zero h k = absurd (omega arith)
  merge_stable (suc a) b (suc n) (suc m) h k =
      omega (arith, merge_stable (suc a / 2) (b / 2) n m (omega arith) (omega arith))

  merge_digit :
      (a b : ℕ)
      → merge (suc a) (suc a) b ≡ merge (suc a / 2) (suc a / 2) (b / 2) * 2 + f (suc a % 2) (b % 2)
  merge_digit a b =
      omega (arith, merge_stable (suc a / 2) (b / 2) a (suc a / 2) (omega arith) (omega arith))

-- The lowest digit of `a ^ b` and of `a | b`, and the others.
bit_xor_digit : (a b : ℕ) → bit_xor a b ≡ bit_xor (a / 2) (b / 2) * 2 + differ (a % 2) (b % 2)
bit_xor_digit zero b = simp bit_xor-bitwise (omega arith)
bit_xor_digit (suc a) b = simp bit_xor-bitwise (merge_digit differ a b)

bit_or_digit : (a b : ℕ) → bit_or a b ≡ bit_or (a / 2) (b / 2) * 2 + max (a % 2) (b % 2)
bit_or_digit zero b = simp bit_or-bitwise (omega arith)
bit_or_digit (suc a) b = simp bit_or-bitwise (merge_digit max a b)

differ-le : (x y : ℕ) → x ≤ 1 → y ≤ 1 → differ x y ≤ 1
differ-le zero y h k = k
differ-le (suc x) zero h k = h
differ-le (suc x) (suc y) h k = differ-le x y (omega arith) (omega arith)

-- `^` stays within the width of both words.
pub bit_xor-lt : (k a b : ℕ) → a < 2 ^ k → b < 2 ^ k → bit_xor a b < 2 ^ k
bit_xor-lt zero zero zero h k' = omega arith
bit_xor-lt zero (suc a) b h k' = absurd (omega arith)
bit_xor-lt zero zero (suc b) h k' = absurd (omega arith)
bit_xor-lt (suc k) a b h h' = omega (
  arith,
  bit_xor_digit a b,
  pow-suc 2 k,
  differ-le (a % 2) (b % 2) (omega arith) (omega arith),
  bit_xor-lt k (a / 2) (b / 2) (omega (arith, pow-suc 2 k)) (omega (arith, pow-suc 2 k)),
)

zero-bit_or : (b : ℕ) → bit_or 0 b ≡ b
zero-bit_or b = simp bit_or-bitwise

-- `a | (b << k)` is a sum where `a` has `k` bits.
pub bit_or_above : (k a b : ℕ) → a < 2 ^ k → bit_or a (b * 2 ^ k) ≡ a + b * 2 ^ k
bit_or_above zero zero b h = omega (arith, zero-bit_or (b * 1))
bit_or_above zero (suc a) b h = absurd (omega arith)
bit_or_above (suc k) a b h =
    let shift : b * 2 ^ suc k ≡ 2 * (b * 2 ^ k) =
      omega (arith, ap (λ (t : ℕ). b * t) (pow-suc 2 k)) in
    let half : b * 2 ^ suc k / 2 ≡ b * 2 ^ k = omega (arith, shift) in
    ground (
      arith,
      shift,
      half,
      bit_or_digit a (b * 2 ^ suc k),
      bit_or_above k (a / 2) b (omega (arith, pow-suc 2 k)),
    )
