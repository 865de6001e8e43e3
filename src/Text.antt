-- ===== src/Text.antt =====
-- C strings as lists of bytes, and the parts of snprintf that the sources use.
mod Equality
pub use Equality.*
use Prim.Native.Char.{code}
use Prim.Native.String.{String}
use buckets.Prelude.{
  ℕ, zero, suc, ◌+◌, ◌-◌, ◌/◌, ◌%◌, Bool, true, false, List, [], ◌∷◌, ◌++◌, ltb, take,
}

abbrev pub Bytes : Type 0
Bytes = List ℕ

-- A string literal: its bytes, as all of them are ASCII.
abbrev pub codes : String → Bytes
codes String.[] = []
codes (String.◌∷◌ c s) = code c ∷ codes s

-- `%d` and `%zu` of a number at 0 or above, in front of the digits already printed. A round takes a
-- digit, so the number itself is fuel enough.
unfoldable pub digits_before : ℕ → ℕ → Bytes → Bytes
digits_before zero n rest = (b'0' + n % 10) ∷ rest
digits_before (suc fuel) n rest = elim (ltb n 10) [
  | true ↦ (b'0' + n) ∷ rest
  | false ↦ digits_before fuel (n / 10) ((b'0' + n % 10) ∷ rest)
]

unfoldable pub decimal : ℕ → Bytes
unfolding digits_before
decimal n = digits_before n n []

-- `snprintf` into a buffer of `size` bytes: the last one is for the terminator.
abbrev pub fit : ℕ → Bytes → Bytes
fit size text = take (size - 1) text
