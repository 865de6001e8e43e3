-- ===== src/Hash/Word.antt =====
-- 64-bit words of src/hash: wrapping sums and products, rotation, and bytes in little-endian order.
use Prim.Native.Nat.{bit_or, bit_xor}
use buckets.Prelude.{ℕ, ◌+◌, ◌-◌, ◌*◌, ◌/◌, ◌%◌, ◌^◌, List, [], ◌∷◌, get_or}

abbrev pub w64 : ℕ
w64 = 2 ^ 64

infixl 65 ◌+w◌
infixl 70 ◌*w◌
infixl 60 ◌xor◌
infixl 60 ◌or◌
abbrev pub ◌+w◌ : ℕ → ℕ → ℕ
a +w b = (a + b) % w64

abbrev pub ◌*w◌ : ℕ → ℕ → ℕ
a *w b = a * b % w64

abbrev pub ◌xor◌ : ℕ → ℕ → ℕ
a xor b = bit_xor a b

abbrev pub ◌or◌ : ℕ → ℕ → ℕ
a or b = bit_or a b

-- `x << k` and `x >> k` on u64.
abbrev pub shl : ℕ → ℕ → ℕ
shl x k = x * 2 ^ k % w64

abbrev pub shr : ℕ → ℕ → ℕ
shr x k = x / 2 ^ k

-- ROTL64, for rotations from 1 to 63.
unfoldable pub rotl64 : ℕ → ℕ → ℕ
rotl64 x r = shl x r or shr x (64 - r)

-- `p[i]`. The callers hold enough bytes; a byte past the end is 0 here.
abbrev pub byte_at : List ℕ → ℕ → ℕ
byte_at p i = get_or p i 0

-- `load_le64` and `xxh_read64`.
unfoldable pub load_le64 : List ℕ → ℕ
load_le64 p =
    byte_at p 0
    or shl (byte_at p 1) 8
    or shl (byte_at p 2) 16
    or shl (byte_at p 3) 24
    or shl (byte_at p 4) 32
    or shl (byte_at p 5) 40
    or shl (byte_at p 6) 48
    or shl (byte_at p 7) 56

-- `xxh_read32`.
unfoldable pub load_le32 : List ℕ → ℕ
load_le32 p = byte_at p 0 or shl (byte_at p 1) 8 or shl (byte_at p 2) 16 or shl (byte_at p 3) 24

-- `store_le64`: the eight bytes, lowest first.
unfoldable pub store_le64 : ℕ → List ℕ
store_le64 v =
    v % 256
    ∷ shr v 8 % 256
    ∷ shr v 16 % 256
    ∷ shr v 24 % 256
    ∷ shr v 32 % 256
    ∷ shr v 40 % 256
    ∷ shr v 48 % 256
    ∷ shr v 56 % 256
    ∷ []
