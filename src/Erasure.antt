-- ===== src/Erasure.antt =====
-- The splitting of an object into chunks, and its reassembly, of src/erasure/erasure.c.
pub mod Pieces
pub mod Roundtrip
pub mod Overread
mod Tests
use buckets.Prelude.{
  ℕ, zero, suc, ◌+◌, ◌-◌, ◌*◌, ◌/◌, Bool, true, false, ◌&&◌, List, [], ◌∷◌, ◌++◌, map, Option, none,
  some, length, get_elem?, take, drop, replicate, set, if◌then◌else◌, ltb, leb, ◌==◌,
}
use buckets.Prelude.Maybe.{◌>>=◌}
use buckets.Text.{Bytes}

-- ISA-L's arithmetic over a Galois field: the rows of gf_gen_cauchy1_matrix for `n` chunks of which `k` hold data,
-- gf_invert_matrix, and one output of ec_encode_data with the tables of a row.
pub record Isal : Type 0 where
  pub row : ℕ → ℕ → ℕ → List ℕ
  pub invert : List (List ℕ) → Option (List (List ℕ))
  pub combine : List ℕ → List Bytes → Bytes

-- `buckets_ec_validate_config`.
unfoldable pub validate_config : ℕ → ℕ → Bool
validate_config k m = leb 1 k && (leb k 16 && (leb 1 m && (leb m 16 && leb (k + m) 32)))

unfoldable pub calc_chunk_size : ℕ → ℕ → ℕ
calc_chunk_size data_size k = if k == 0 then 0 else ((data_size + k - 1) / k + 15) / 16 * 16

unfoldable pub bytes_per_chunk : ℕ → ℕ → ℕ
bytes_per_chunk data_size k = (data_size + k - 1) / k

-- How many bytes the chunk at `offset` has of the data.
unfoldable pub copy_size : ℕ → ℕ → ℕ → ℕ
copy_size data_size per_chunk offset =
    let remaining = if ltb offset data_size then data_size - offset else 0 in
    if ltb per_chunk remaining then per_chunk else remaining

abbrev pub data_chunk : Bytes → ℕ → ℕ → ℕ → Bytes
data_chunk bytes chunk_size per_chunk offset =
    take (copy_size (length bytes) per_chunk offset) (drop offset bytes)
    ++ replicate (chunk_size - copy_size (length bytes) per_chunk offset) 0

-- The loop over `left` chunks from chunk `i`.
unfoldable pub data_chunks : Bytes → ℕ → ℕ → ℕ → ℕ → List Bytes
unfolding copy_size
data_chunks bytes chunk_size per_chunk i zero = []
data_chunks bytes chunk_size per_chunk i (suc left) =
    data_chunk bytes chunk_size per_chunk (i * per_chunk)
    ∷ data_chunks bytes chunk_size per_chunk (i + 1) left

-- The rows from row `i`.
unfoldable pub rows_from : Isal → ℕ → ℕ → ℕ → ℕ → List (List ℕ)
rows_from g n k i zero = []
rows_from g n k i (suc left) = g.row n k i ∷ rows_from g n k (i + 1) left

-- `buckets_ec_encode`: the chunks with data, then those with parity.
unfoldable pub encode : Isal → ℕ → ℕ → Bytes → ℕ → Option (List Bytes)
unfolding calc_chunk_size bytes_per_chunk data_chunks rows_from
encode g k m bytes chunk_size =
    let chunks = data_chunks bytes chunk_size (bytes_per_chunk (length bytes) k) 0 k in
    if chunk_size == 0
    then none
    else if ltb chunk_size (calc_chunk_size (length bytes) k)
    then none
    else some (chunks ++ map (λ row. g.combine row chunks) (rows_from g (k + m) k k m))

-- The chunks that are not there, and the first `k` that are, with their indices.
unfoldable pub missing_from : ℕ → List (Option Bytes) → List ℕ
missing_from i [] = []
missing_from i (none ∷ chunks) = i ∷ missing_from (i + 1) chunks
missing_from i (some chunk ∷ chunks) = missing_from (i + 1) chunks

unfoldable pub available_from : ℕ → List (Option Bytes) → List (ℕ × Bytes)
available_from i [] = []
available_from i (none ∷ chunks) = available_from (i + 1) chunks
available_from i (some chunk ∷ chunks) = (i, chunk) ∷ available_from (i + 1) chunks

-- What a decode does: it gives the data, refuses, or reads outside a matrix or an array.
pub data Decoded (A : Type 0) : Type 0 where
  decoded : A → Decoded A
  refused : Decoded A
  outside : Decoded A

abbrev pub with_recovered :
    ℕ → Bytes → Decoded (List (Option Bytes)) → Decoded (List (Option Bytes))
with_recovered i chunk (decoded chunks) = decoded (set chunks i (some chunk))
with_recovered i chunk refused = refused
with_recovered i chunk outside = outside

abbrev pub recover_one :
    Isal
    → ℕ
    → List Bytes
    → Option (List ℕ)
    → Decoded (List (Option Bytes))
    → Decoded (List (Option Bytes))
recover_one g i available none rest = outside
recover_one g i available (some row) rest = with_recovered i (g.combine row available) rest

-- The loops over the missing chunks; a row of the inverse past its end is read outside.
unfoldable pub recover :
    Isal → List (List ℕ) → List Bytes → List ℕ → List (Option Bytes) → Decoded (List (Option Bytes))
recover g inverse available [] chunks = decoded chunks
recover g inverse available (i ∷ missing) chunks =
    recover_one g i available (get_elem? inverse i) (recover g inverse available missing chunks)

abbrev pub recover_with :
    Isal
    → List (ℕ × Bytes)
    → List ℕ
    → List (Option Bytes)
    → Option (List (List ℕ))
    → Decoded (List (Option Bytes))
recover_with g available missing chunks none = refused
recover_with g available missing chunks (some inverse) =
    recover g inverse (map (λ a. a.1) available) missing chunks

-- `buckets_ec_reconstruct`.
unfoldable pub reconstruct :
    Isal → ℕ → ℕ → List (Option Bytes) → List ℕ → Decoded (List (Option Bytes))
unfolding available_from recover
reconstruct g k m chunks missing =
    let available = take k (available_from 0 chunks) in
    if length missing == 0
    then decoded chunks
    else if ltb m (length missing)
    then refused
    else if ltb (length available) k
    then refused
    else recover_with g available missing chunks
        (g.invert (map (λ a. g.row (k + m) k a.0) available))

abbrev pub write_at : Bytes → ℕ → Bytes → Bytes
write_at dest offset bytes = take offset dest ++ (bytes ++ drop (offset + length bytes) dest)

-- The copy of a chunk to its place, where it has any of the data; a chunk that is not there is read outside.
abbrev pub copy_chunk : ℕ → ℕ → ℕ → Option (Option Bytes) → Bytes → Option Bytes
copy_chunk data_size per_chunk offset (some (some chunk)) dest =
    some (write_at dest offset (take (copy_size data_size per_chunk offset) chunk))
copy_chunk data_size per_chunk offset other dest = none

-- The loop of the reassembly over `left` chunks from chunk `i`.
unfoldable pub reassemble : ℕ → ℕ → List (Option Bytes) → ℕ → ℕ → Bytes → Option Bytes
unfolding copy_size
reassemble data_size per_chunk chunks i zero dest = some dest
reassemble data_size per_chunk chunks i (suc left) dest =
    let rest = λ (d : Bytes). reassemble data_size per_chunk chunks (i + 1) left d in
    if copy_size data_size per_chunk (i * per_chunk) == 0
    then rest dest
    else copy_chunk data_size per_chunk (i * per_chunk) (get_elem? chunks i) dest >>= rest

abbrev pub or_outside : Option Bytes → Decoded Bytes
or_outside none = outside
or_outside (some a) = decoded a

abbrev pub reassembled : ℕ → ℕ → Bytes → Decoded (List (Option Bytes)) → Decoded Bytes
reassembled data_size k dest refused = refused
reassembled data_size k dest outside = outside
reassembled data_size k dest (decoded chunks) =
    or_outside (reassemble data_size (bytes_per_chunk data_size k) chunks 0 k dest)

-- `buckets_ec_decode` into a buffer of the data's size.
unfoldable pub decode : Isal → ℕ → ℕ → List (Option Bytes) → ℕ → Bytes → Decoded Bytes
unfolding missing_from available_from reconstruct reassemble bytes_per_chunk
decode g k m chunks data_size dest =
    if ltb (length (available_from 0 chunks)) k
    then refused
    else reassembled data_size k dest (
        if length (missing_from 0 chunks) == 0
        then decoded chunks
        else reconstruct g k m chunks (missing_from 0 chunks))
