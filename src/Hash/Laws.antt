-- ===== src/Hash/Laws.antt =====
-- What the hashes of src/hash promise: values within a word, hashing in pieces, and a set in range.
use Prim.Native.Nat.{bit_or}
use native.Mathlib.Nat.{mod-eq_of_lt}
use buckets.Prelude.{
  ℕ, zero, suc, ◌+◌, ◌*◌, ◌/◌, ◌%◌, ◌^◌, ◌<◌, ◌≡◌, refl, ap, ◌∙◌, ◌⊎◌, inl, inr, List, ◌++◌, arith,
  length,
}
use buckets.Prelude.Int.{ℤ, pos, negsuc, ◌≤ℤ◌}
use buckets.Hash.Word.{w64, ◌or◌, shl, load_le64, store_le64}
use buckets.Hash.Bits.{bit_or_above}
use buckets.Hash.Stream.Append.{update-append}
use buckets.Hash.Sip
use buckets.Hash.Sip.{siphash_init, siphash_update, siphash_final, siphash, hash_object_to_set}
use buckets.Hash.Xx
use buckets.Hash.Xx.{xxhash_init, xxhash_update, xxhash_final, xxhash64}

or-shl : (k a x : ℕ) → a < 2 ^ k → x * 2 ^ k < w64 → a or shl x k ≡ a + x * 2 ^ k
or-shl k a x h fits = rw (mod-eq_of_lt fits) (bit_or_above k a x h)

-- Loading the stored bytes of a word gives the word back.
pub load_le64-store_le64 : (v : ℕ) → v < w64 → load_le64 (store_le64 v) ≡ v
unfolding load_le64 store_le64
load_le64-store_le64 v h = rw (byte1, byte2, byte3, byte4, byte5, byte6, byte7) (omega arith)
  where
    byte1 : bit_or (v % 2 ^ 8) (v / 2 ^ 8 % 256 * 2 ^ 8 % w64) ≡ v % 2 ^ 16
    byte1 = or-shl 8 (v % 2 ^ 8) (v / 2 ^ 8 % 256) (omega arith) (omega arith) ∙ omega arith

    byte2 : bit_or (v % 2 ^ 16) (v / 2 ^ 16 % 256 * 2 ^ 16 % w64) ≡ v % 2 ^ 24
    byte2 = or-shl 16 (v % 2 ^ 16) (v / 2 ^ 16 % 256) (omega arith) (omega arith) ∙ omega arith

    byte3 : bit_or (v % 2 ^ 24) (v / 2 ^ 24 % 256 * 2 ^ 24 % w64) ≡ v % 2 ^ 32
    byte3 = or-shl 24 (v % 2 ^ 24) (v / 2 ^ 24 % 256) (omega arith) (omega arith) ∙ omega arith

    byte4 : bit_or (v % 2 ^ 32) (v / 2 ^ 32 % 256 * 2 ^ 32 % w64) ≡ v % 2 ^ 40
    byte4 = or-shl 32 (v % 2 ^ 32) (v / 2 ^ 32 % 256) (omega arith) (omega arith) ∙ omega arith

    byte5 : bit_or (v % 2 ^ 40) (v / 2 ^ 40 % 256 * 2 ^ 40 % w64) ≡ v % 2 ^ 48
    byte5 = or-shl 40 (v % 2 ^ 40) (v / 2 ^ 40 % 256) (omega arith) (omega arith) ∙ omega arith

    byte6 : bit_or (v % 2 ^ 48) (v / 2 ^ 48 % 256 * 2 ^ 48 % w64) ≡ v % 2 ^ 56
    byte6 = or-shl 48 (v % 2 ^ 48) (v / 2 ^ 48 % 256) (omega arith) (omega arith) ∙ omega arith

    byte7 : bit_or (v % 2 ^ 56) (v / 2 ^ 56 % 256 * 2 ^ 56 % w64) ≡ v % 2 ^ 64
    byte7 = or-shl 56 (v % 2 ^ 56) (v / 2 ^ 56 % 256) (omega arith) (omega arith) ∙ omega arith

-- Hashing a text in two pieces is hashing the whole of it, under any key.
pub siphash_pieces :
    (k0 k1 : ℕ) (p q : List ℕ)
    → siphash_final (siphash_update (siphash_update (siphash_init k0 k1) p) q)
      ≡ siphash k0 k1 (p ++ q)
unfolding siphash siphash_update
siphash_pieces k0 k1 p q =
    ap siphash_final (update-append 8 Sip.compress (siphash_init k0 k1) p q (omega arith) empty)
  where
    empty : length (siphash_init k0 k1).buf < 8
    empty = omega arith

-- The same for xxHash-64, under any seed.
pub xxhash_pieces :
    (seed : ℕ) (p q : List ℕ)
    → xxhash_final (xxhash_update (xxhash_update (xxhash_init seed) p) q) ≡ xxhash64 seed (p ++ q)
unfolding xxhash64 xxhash_update
xxhash_pieces seed p q =
    ap xxhash_final
      (update-append 32 Xx.compress (xxhash_init seed) p q (omega arith) (omega arith))

-- Without sets the answer is -1, and otherwise a set below the count.
pub hash_object_to_set_range :
    (name deployment_id : List ℕ) (count : ℤ)
    → ((count ≤ℤ pos 0) × (hash_object_to_set name deployment_id count ≡ negsuc 0))
      ⊎ ((n : ℕ) × (set : ℕ) × (count ≡ pos n)
          × (set < n)
          × (hash_object_to_set name deployment_id count ≡ pos set))
unfolding hash_object_to_set
hash_object_to_set_range name deployment_id (negsuc n) = inl (omega arith, refl)
hash_object_to_set_range name deployment_id (pos zero) = inl (omega arith, refl)
hash_object_to_set_range name deployment_id (pos (suc n)) = inr (suc n, _, refl, omega arith, refl)
