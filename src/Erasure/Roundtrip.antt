-- ===== src/Erasure/Roundtrip.antt =====
-- An object that src/erasure/erasure.c has split into chunks is put together again.
use buckets.Prelude.{
  ℕ, zero, suc, ◌+◌, ◌-◌, ◌*◌, ◌/◌, ◌<◌, ◌≤◌, ◌≡◌, refl, sym, ap, ◌∙◌, Bool, true, false, List, [],
  ◌∷◌, ◌++◌, map, Option, none, some, length, get_elem?, take, drop, if◌then◌else◌, ltb, ◌==◌,
  take_all, drop_all, length-take, length-drop, length-append, Bool-cases, inl, inr, ◌⊎◌, arith,
}
use buckets.Prelude.Maybe.{◌>>=◌, some_of_else}
use buckets.Text.{Bytes}
use buckets.Erasure.{
  Isal, calc_chunk_size, bytes_per_chunk, copy_size, data_chunk, data_chunks, rows_from, encode,
  missing_from, available_from, decoded, refused, write_at, copy_chunk, reassemble, or_outside,
  reassembled, reconstruct, decode,
}
use mathlib.Core.List.{append_assoc, append-nil}
use native.Mathlib.Nat.{div-add-mod', mod-lt}
use buckets.Erasure.Pieces.{take_add, drop_add, take_front, drop_front}

-- A buffer of which the part in front of an offset has been filled.
abbrev filled : Bytes → Bytes → ℕ → Bytes
filled bytes dest offset = take offset bytes ++ drop offset dest

copy_size-positive :
    (size per_chunk offset : ℕ) → (copy_size size per_chunk offset == 0) ≡ false → offset < size
unfolding copy_size
copy_size-positive size per_chunk offset h = ground (arith, h)

copy_size-le :
    (size per_chunk offset : ℕ) → offset < size → offset + copy_size size per_chunk offset ≤ size
unfolding copy_size
copy_size-le size per_chunk offset h = ground arith

copy_size-cases :
    (size per_chunk offset : ℕ)
    → (copy_size size per_chunk offset ≡ per_chunk)
      ⊎ ((size ≤ offset + copy_size size per_chunk offset) × (size ≤ offset + per_chunk))
unfolding copy_size
copy_size-cases size per_chunk offset = ground arith

-- Taking what a chunk has is taking a whole chunk.
take-copy_size :
    (bytes : Bytes) (per_chunk offset : ℕ)
    → take (offset + copy_size (length bytes) per_chunk offset) bytes
      ≡ take (offset + per_chunk) bytes
take-copy_size bytes per_chunk offset = elim (copy_size-cases (length bytes) per_chunk offset) [
  | inl e ↦ ap (λ n. take (offset + n) bytes) e
  | inr (e, f) ↦ take_all _ bytes e ∙ sym (take_all _ bytes f)
]

drop-copy_size :
    (dest : Bytes) (size per_chunk offset : ℕ)
    → length dest ≡ size
    → drop (offset + copy_size size per_chunk offset) dest ≡ drop (offset + per_chunk) dest
drop-copy_size dest size per_chunk offset l = elim (copy_size-cases size per_chunk offset) [
  | inl e ↦ ap (λ n. drop (offset + n) dest) e
  | inr (e, f) ↦ drop_all _ dest (omega (arith, e)) ∙ sym (drop_all _ dest (omega (arith, f)))
]

write_at-filled :
    (bytes dest : Bytes) (n offset : ℕ)
    → offset + n ≤ length bytes
    → write_at (filled bytes dest offset) offset (take n (drop offset bytes))
      ≡ filled bytes dest (offset + n)
write_at-filled bytes dest n offset h =
    let front : length (take offset bytes) ≡ offset = omega (arith, length-take offset bytes) in
    let new : length (take n (drop offset bytes)) ≡ n =
      omega (arith, length-take n (drop offset bytes), length-drop offset bytes) in
    let kept : drop (offset + n) (filled bytes dest offset) ≡ drop (offset + n) dest =
      drop_add offset n (filled bytes dest offset)
      ∙ ap (drop n) (drop_front offset (take offset bytes) (drop offset dest) front)
      ∙ sym (drop_add offset n dest) in
    ap
      (λ k.
        take offset (filled bytes dest offset)
        ++ (take n (drop offset bytes) ++ drop (offset + k) (filled bytes dest offset)))
      new
    ∙ ap (λ k. take offset (filled bytes dest offset) ++ (take n (drop offset bytes) ++ k)) kept
    ∙ ap (λ k. k ++ (take n (drop offset bytes) ++ drop (offset + n) dest))
        (take_front offset (take offset bytes) (drop offset dest) front)
    ∙ sym (append_assoc (take offset bytes) (take n (drop offset bytes)) (drop (offset + n) dest))
    ∙ ap (λ k. k ++ drop (offset + n) dest) (sym (take_add offset n bytes))

-- What is copied of a chunk is what it has of the data, behind which there are zeros.
take-data_chunk :
    (bytes : Bytes) (chunk_size per_chunk offset : ℕ)
    → offset < length bytes
    → take
        (copy_size (length bytes) per_chunk offset)
        (data_chunk bytes chunk_size per_chunk offset)
      ≡ take (copy_size (length bytes) per_chunk offset) (drop offset bytes)
take-data_chunk bytes chunk_size per_chunk offset h =
    take_front (copy_size (length bytes) per_chunk offset) _ _ (
      omega (
        arith,
        copy_size-le (length bytes) per_chunk offset h,
        length-take (copy_size (length bytes) per_chunk offset) (drop offset bytes),
        length-drop offset bytes,
      ))

-- With what a chunk has, the buffer is filled up to the next chunk.
filled-next :
    (bytes dest : Bytes) (per_chunk i : ℕ)
    → length dest ≡ length bytes
    → filled bytes dest (i * per_chunk + copy_size (length bytes) per_chunk (i * per_chunk))
      ≡ filled bytes dest ((i + 1) * per_chunk)
filled-next bytes dest per_chunk i l =
    let offset = i * per_chunk in
    let next : offset + per_chunk ≡ (i + 1) * per_chunk = grind arith in
    ap (λ xs. xs ++ drop (offset + copy_size (length bytes) per_chunk offset) dest)
      (take-copy_size bytes per_chunk offset)
    ∙ ap (λ xs. take (offset + per_chunk) bytes ++ xs)
        (drop-copy_size dest (length bytes) per_chunk offset l)
    ∙ ap (filled bytes dest) next

-- The copy of a chunk.
copied :
    (bytes dest : Bytes) (chunk_size per_chunk i : ℕ) (c : Option (Option Bytes))
    → length dest ≡ length bytes
    → (copy_size (length bytes) per_chunk (i * per_chunk) == 0) ≡ false
    → c ≡ some (some (data_chunk bytes chunk_size per_chunk (i * per_chunk)))
    → copy_chunk (length bytes) per_chunk (i * per_chunk) c (filled bytes dest (i * per_chunk))
      ≡ some (filled bytes dest ((i + 1) * per_chunk))
copied bytes dest chunk_size per_chunk i c l e h =
    let offset = i * per_chunk in
    let inside = copy_size-positive (length bytes) per_chunk offset e in
    let n = copy_size (length bytes) per_chunk offset in
    ap (λ x. copy_chunk (length bytes) per_chunk offset x (filled bytes dest offset)) h
    ∙ ap (λ x. some (write_at (filled bytes dest offset) offset x))
        (take-data_chunk bytes chunk_size per_chunk offset inside)
    ∙ ap some
        (write_at-filled bytes dest n offset (copy_size-le (length bytes) per_chunk offset inside))
    ∙ ap some (filled-next bytes dest per_chunk i l)

not_copied :
    (bytes dest : Bytes) (per_chunk i : ℕ)
    → length dest ≡ length bytes
    → (copy_size (length bytes) per_chunk (i * per_chunk) == 0) ≡ true
    → filled bytes dest (i * per_chunk) ≡ filled bytes dest ((i + 1) * per_chunk)
not_copied bytes dest per_chunk i l e =
    let offset = i * per_chunk in
    let none_left : offset ≡ offset + copy_size (length bytes) per_chunk offset =
      ground (arith, e) in
    ap (filled bytes dest) none_left ∙ filled-next bytes dest per_chunk i l

reassemble-filled :
    (bytes dest : Bytes) (chunk_size per_chunk : ℕ) (chunks : List (Option Bytes)) (i left : ℕ)
    → length dest ≡ length bytes
    → ((j : ℕ)
        → j < i + left
        → get_elem? chunks j ≡ some (some (data_chunk bytes chunk_size per_chunk (j * per_chunk))))
    → reassemble (length bytes) per_chunk chunks i left (filled bytes dest (i * per_chunk))
      ≡ some (filled bytes dest ((i + left) * per_chunk))
unfolding reassemble
reassemble-filled bytes dest chunk_size per_chunk chunks i zero l there =
    let e : i ≡ i + 0 = omega arith in ap (λ n. some (filled bytes dest (n * per_chunk))) e
reassemble-filled bytes dest chunk_size per_chunk chunks i (suc left) l there =
    let later = λ (d : Bytes). reassemble (length bytes) per_chunk chunks (i + 1) left d in
    let sum : i + 1 + left ≡ i + suc left = omega arith in
    let ih =
      reassemble-filled bytes dest chunk_size per_chunk chunks (i + 1) left l
        (λ j h. there j (omega (arith, h)))
      ∙ ap (λ n. some (filled bytes dest (n * per_chunk))) sum in
    elim (Bool-cases (copy_size (length bytes) per_chunk (i * per_chunk) == 0)) [
      | inl e ↦ rw e (ap later (not_copied bytes dest per_chunk i l e) ∙ ih)
      | inr e ↦ rw e (
          ap (λ o. o >>= later)
            (copied bytes dest chunk_size per_chunk i (get_elem? chunks i) l e
              (there i (omega arith)))
          ∙ ih)
    ]

enough_chunks : (size k : ℕ) → 0 < k → size ≤ (0 + k) * bytes_per_chunk size k
unfolding bytes_per_chunk
enough_chunks size k h =
    let total = size + k - 1 in
    let whole_parts = div-add-mod' total k in
    let rest = mod-lt total h in
    let same : (0 + k) * (total / k) ≡ total / k * k = grind arith in
    omega (arith, whole_parts, rest, same)

chunk_at :
    (bytes : Bytes) (chunk_size per_chunk i left j : ℕ) (parity : List Bytes)
    → j < left
    → get_elem? (map some (data_chunks bytes chunk_size per_chunk i left ++ parity)) j
      ≡ some (some (data_chunk bytes chunk_size per_chunk ((i + j) * per_chunk)))
unfolding data_chunks
chunk_at bytes chunk_size per_chunk i zero j parity h = absurd (omega arith)
chunk_at bytes chunk_size per_chunk i (suc left) zero parity h =
    let e : i ≡ i + 0 = omega arith in
    ap (λ n. some (some (data_chunk bytes chunk_size per_chunk (n * per_chunk)))) e
chunk_at bytes chunk_size per_chunk i (suc left) (suc j) parity h =
    let e : i + 1 + j ≡ i + suc j = omega arith in
    chunk_at bytes chunk_size per_chunk (i + 1) left j parity (omega arith)
    ∙ ap (λ n. some (some (data_chunk bytes chunk_size per_chunk (n * per_chunk)))) e

none_missing : (i : ℕ) (chunks : List Bytes) → missing_from i (map some chunks) ≡ []
unfolding missing_from
none_missing i [] = refl
none_missing i (c ∷ chunks) = none_missing (i + 1) chunks

all_available :
    (i : ℕ) (chunks : List Bytes) → length (available_from i (map some chunks)) ≡ length chunks
unfolding available_from
all_available i [] = refl
all_available i (c ∷ chunks) = ap suc (all_available (i + 1) chunks)

length-data_chunks :
    (bytes : Bytes) (chunk_size per_chunk i left : ℕ)
    → length (data_chunks bytes chunk_size per_chunk i left) ≡ left
unfolding data_chunks
length-data_chunks bytes chunk_size per_chunk i zero = refl
length-data_chunks bytes chunk_size per_chunk i (suc left) =
    ap suc (length-data_chunks bytes chunk_size per_chunk (i + 1) left)

abbrev whole : Isal → ℕ → ℕ → Bytes → ℕ → List Bytes
whole g k m bytes chunk_size =
    data_chunks bytes chunk_size (bytes_per_chunk (length bytes) k) 0 k
    ++ map
        (λ row. g.combine row (data_chunks bytes chunk_size (bytes_per_chunk (length bytes) k) 0 k))
        (rows_from g (k + m) k k m)

past_test :
    (b : Bool) (o : Option (List Bytes)) (r : List Bytes)
    → (if b then none else o) ≡ some r
    → o ≡ some r
past_test true o r h = cc
past_test false o r h = h

encoded_chunks :
    (g : Isal) (k m : ℕ) (bytes : Bytes) (chunk_size : ℕ) (chunks : List Bytes)
    → encode g k m bytes chunk_size ≡ some chunks
    → whole g k m bytes chunk_size ≡ chunks
unfolding encode
encoded_chunks g k m bytes chunk_size chunks e =
    some_of_else (ltb chunk_size (calc_chunk_size (length bytes) k)) _ chunks
      (past_test (chunk_size == 0) _ chunks e)

zero_plus : (n : ℕ) → 0 + n ≡ n
zero_plus n = omega arith

zero_times : (n : ℕ) → 0 * n ≡ 0
zero_times n = grind arith

not_below : (n k : ℕ) → k ≤ n → ltb n k ≡ false
not_below n k h = ground arith

filled_all :
    (bytes dest : Bytes) (n : ℕ)
    → length dest ≡ length bytes
    → length bytes ≤ n
    → filled bytes dest n ≡ bytes
filled_all bytes dest n l h =
    ap (λ xs. xs ++ drop n dest) (take_all n bytes h)
    ∙ ap (λ xs. bytes ++ xs) (drop_all n dest (omega arith))
    ∙ append-nil bytes

-- An object that has been encoded is decoded from its chunks as it was, where all of them are there, whatever was in
-- the buffer.
pub decode-encode :
    (g : Isal) (k m : ℕ) (bytes dest : Bytes) (chunk_size : ℕ) (chunks : List Bytes)
    → 0 < k
    → encode g k m bytes chunk_size ≡ some chunks
    → length dest ≡ length bytes
    → decode g k m (map some chunks) (length bytes) dest ≡ decoded bytes
unfolding decode
decode-encode g k m bytes dest chunk_size chunks h e l =
    let per_chunk = bytes_per_chunk (length bytes) k in
    let known = encoded_chunks g k m bytes chunk_size chunks e in
    let there = λ (j : ℕ) (b : j < 0 + k).
      ap (λ cs. get_elem? (map some cs) j) (sym known)
      ∙ chunk_at bytes chunk_size per_chunk 0 k j _ (omega (arith, b))
      ∙ ap (λ n. some (some (data_chunk bytes chunk_size per_chunk (n * per_chunk))))
          (zero_plus j) in
    let full = reassemble-filled bytes dest chunk_size per_chunk (map some chunks) 0 k l there in
    let start : filled bytes dest (0 * per_chunk) ≡ dest =
      ap (filled bytes dest) (zero_times per_chunk) in
    let finish = filled_all bytes dest ((0 + k) * per_chunk) l (enough_chunks (length bytes) k h) in
    let result : reassemble (length bytes) per_chunk (map some chunks) 0 k dest ≡ some bytes =
      ap (reassemble (length bytes) per_chunk (map some chunks) 0 k) (sym start)
      ∙ full
      ∙ ap some finish in
    let enough : ltb (length (available_from 0 (map some chunks))) k ≡ false = not_below _ k (
      omega (
        arith,
        all_available 0 chunks,
        ap length known,
        length-append (data_chunks bytes chunk_size per_chunk 0 k) (
            map (λ row. g.combine row (data_chunks bytes chunk_size per_chunk 0 k))
              (rows_from g (k + m) k k m)),
        length-data_chunks bytes chunk_size per_chunk 0 k,
      )) in
    ap
      (λ (b : Bool).
        if b
        then refused
        else reassembled (length bytes) k dest (
            if length (missing_from 0 (map some chunks)) == 0
            then decoded (map some chunks)
            else reconstruct g k m (map some chunks) (missing_from 0 (map some chunks))))
      enough
    ∙ ap
        (λ ms. reassembled (length bytes) k dest (
          if length ms == 0
          then decoded (map some chunks)
          else reconstruct g k m (map some chunks) ms))
        (none_missing 0 chunks)
    ∙ ap or_outside result
