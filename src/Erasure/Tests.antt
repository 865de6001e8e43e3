-- ===== src/Erasure/Tests.antt =====
-- Runs of the model of src/erasure/erasure.c at concrete inputs.
use buckets.Prelude.{◌+◌, ◌≡◌, refl, List, [], ◌∷◌, map, Option, none, some, arith, replicate}
use buckets.Text.{Bytes}
use buckets.Erasure.{
  Isal, encode, decode, decoded, outside, calc_chunk_size, bytes_per_chunk, copy_size, data_chunks,
  rows_from, missing_from, available_from,
}
use buckets.Erasure.Roundtrip.{decode-encode}
use buckets.Erasure.Overread.{decode-outside}

-- Two chunks with data and their sum as parity.
abbrev added : Bytes → Bytes → Bytes
added [] ys = []
added (x ∷ xs) [] = []
added (x ∷ xs) (y ∷ ys) = (x + y) ∷ added xs ys

abbrev sums : Isal
sums = record {
  row = λ n k i. i ∷ [];
  invert = λ rows. some rows;
  combine = λ row chunks. elim chunks [
    | [] ↦ []
    | c ∷ rest ↦ elim rest [ [] ↦ c | d ∷ more ↦ added c d ]
  ];
}

abbrev object : Bytes
object = 1 ∷ 2 ∷ 3 ∷ 4 ∷ 5 ∷ []

abbrev front : Bytes
front = 1 ∷ 2 ∷ 3 ∷ replicate 13 0

abbrev back : Bytes
back = 4 ∷ 5 ∷ replicate 14 0

encodes : encode sums 2 1 object 16 ≡ some (front ∷ back ∷ added front back ∷ [])
unfolding encode calc_chunk_size bytes_per_chunk copy_size data_chunks rows_from
encodes = refl

decode-encode_example :
    decode sums 2 1 (map some (front ∷ back ∷ added front back ∷ [])) 5 (replicate 5 255)
    ≡ decoded object
decode-encode_example =
    decode-encode sums 2 1 object (replicate 5 255) 16 (front ∷ back ∷ added front back ∷ [])
      (omega arith) encodes refl

-- The chunk with parity is missing.
abbrev without_parity : List (Option Bytes)
without_parity = some front ∷ some back ∷ none ∷ []

missing_parity : missing_from 0 without_parity ≡ 2 ∷ []
unfolding missing_from
missing_parity = refl

decode-outside_example : decode sums 2 1 without_parity 5 (replicate 5 255) ≡ outside
unfolding missing_from available_from
decode-outside_example =
    decode-outside sums 2 1 without_parity 5 (replicate 5 255) ((0 ∷ []) ∷ (1 ∷ []) ∷ []) 0 2 refl
      (omega arith) refl (omega arith) refl refl
