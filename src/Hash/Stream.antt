-- ===== src/Hash/Stream.antt =====
-- The buffered block hashing that buckets_siphash_update of src/hash/siphash.c and
-- buckets_xxhash_update of src/hash/xxhash.c share: a width, and what a full block does to the
-- accumulators.
pub mod Feed
pub mod Append
use buckets.Prelude.{
  ℕ, zero, suc, ◌+◌, ◌-◌, ◌%◌, ◌^◌, Bool, true, false, List, [], ◌∷◌, ◌++◌, ltb, leb, ◌==◌,
  if◌then◌else◌, length, take, drop,
}

-- The part of `buckets_siphash_state_t` and `buckets_xxhash_state_t` that an update changes. The
-- bytes of `buf` below `buf_len` are the list.
pub record Stream (S : Type 0) : Type 0 where
  pub core : S
  pub total_len : ℕ
  pub buf : List ℕ

module _ {S : Type 0} (width : ℕ) (compress : List ℕ → S → S) where
  -- `while (len >= width)`, and the bytes that are left.
  unfoldable pub blocks : ℕ → List ℕ → S → S × List ℕ
  blocks zero p s = (s, p)
  blocks (suc fuel) p s = elim (leb width (length p)) [
    | true ↦ blocks fuel (drop width p) (compress (take width p) s)
    | false ↦ (s, p)
  ]

  -- "Handle buffered data": the accumulators, the buffer, and the bytes not used up.
  unfoldable pub top_up : S → List ℕ → List ℕ → S × List ℕ × List ℕ
  top_up s buf p = if ltb 0 (length buf) then filled else (s, buf, p)
    where
      room : ℕ
      room = width - length buf

      to_copy : ℕ
      to_copy = if ltb (length p) room then length p else room

      filled : S × List ℕ × List ℕ
      filled =
          if length (buf ++ take to_copy p) == width
          then (compress (buf ++ take to_copy p) s, [], drop to_copy p)
          else (s, buf ++ take to_copy p, drop to_copy p)

  -- A round of the loop takes `width` bytes, so the length of the input is fuel enough.
  unfoldable pub update : Stream S → List ℕ → Stream S
  unfolding blocks top_up
  update st p =
      let (s, buf, rest) = top_up st.core st.buf p in
      let (s', left) = blocks (length rest) rest s in
      record {
        core = s';
        total_len = (st.total_len + length p) % 2 ^ 64;
        buf = if ltb 0 (length left) then left else buf;
      }
