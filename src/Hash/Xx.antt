-- ===== src/Hash/Xx.antt =====
-- xxHash-64, src/hash/xxhash.c.
use buckets.Prelude.{
  ℕ, zero, suc, ◌+◌, ◌%◌, ◌-◌, true, false, List, [], ◌∷◌, if◌then◌else◌, length, drop, leb,
}
use buckets.Hash.Word.{w64, ◌+w◌, ◌*w◌, ◌xor◌, shr, rotl64, load_le64, load_le32}
use buckets.Hash.Stream.{Stream, update}

abbrev pub prime64_1 : ℕ
prime64_1 = 0x9E3779B185EBCA87

abbrev pub prime64_2 : ℕ
prime64_2 = 0xC2B2AE3D27D4EB4F

abbrev pub prime64_3 : ℕ
prime64_3 = 0x165667B19E3779F9

abbrev pub prime64_4 : ℕ
prime64_4 = 0x85EBCA77C2B2AE63

abbrev pub prime64_5 : ℕ
prime64_5 = 0x27D4EB2F165667C5

-- The four accumulators and the seed of `buckets_xxhash_state_t`.
pub record Core : Type 0 where
  pub seed : ℕ
  pub v1 : ℕ
  pub v2 : ℕ
  pub v3 : ℕ
  pub v4 : ℕ

unfoldable pub xxh_round : ℕ → ℕ → ℕ
unfolding rotl64
xxh_round acc input = rotl64 (acc +w input *w prime64_2) 31 *w prime64_1

unfoldable pub xxh_merge_round : ℕ → ℕ → ℕ
unfolding xxh_round
xxh_merge_round acc val = (acc xor xxh_round 0 val) *w prime64_1 +w prime64_4

-- One 32-byte block.
unfoldable pub compress : List ℕ → Core → Core
unfolding xxh_round load_le64
compress p c = record c {
  v1 = xxh_round c.v1 (load_le64 p);
  v2 = xxh_round c.v2 (load_le64 (drop 8 p));
  v3 = xxh_round c.v3 (load_le64 (drop 16 p));
  v4 = xxh_round c.v4 (load_le64 (drop 24 p));
}

unfoldable pub xxhash_init : ℕ → Stream Core
xxhash_init seed = record {
  core = record {
    seed = seed;
    v1 = seed +w prime64_1 +w prime64_2;
    v2 = seed +w prime64_2;
    v3 = seed;
    v4 = (seed + w64 - prime64_1) % w64;
  };
  total_len = 0;
  buf = [];
}

unfoldable pub xxhash_update : Stream Core → List ℕ → Stream Core
unfolding update compress
xxhash_update = update 32 compress

-- The accumulators mixed, or the short input's start.
unfoldable pub start : Stream Core → ℕ
unfolding rotl64 xxh_merge_round
start st = if leb 32 st.total_len then merged else c.seed +w prime64_5
  where
    open st use {core as c}

    sum : ℕ
    sum = rotl64 c.v1 1 +w rotl64 c.v2 7 +w rotl64 c.v3 12 +w rotl64 c.v4 18

    merged : ℕ
    merged =
        xxh_merge_round (xxh_merge_round (xxh_merge_round (xxh_merge_round sum c.v1) c.v2) c.v3)
          c.v4

-- `while (len > 0)`: the last bytes, one by one.
unfoldable pub last_bytes : ℕ → List ℕ → ℕ
unfolding rotl64
last_bytes h [] = h
last_bytes h (x ∷ xs) = last_bytes (rotl64 (h xor x *w prime64_5) 11 *w prime64_1) xs

-- `if (len >= 4)`.
unfoldable pub last_word : ℕ → List ℕ → ℕ
unfolding last_bytes rotl64 load_le32
last_word h p =
    if leb 4 (length p)
    then last_bytes (rotl64 (h xor load_le32 p *w prime64_1) 23 *w prime64_2 +w prime64_3)
        (drop 4 p)
    else last_bytes h p

-- `while (len >= 8)`; a round takes 8 bytes, so the length of the input is fuel enough.
unfoldable pub last_words : ℕ → ℕ → List ℕ → ℕ
unfolding last_word rotl64 xxh_round load_le64
last_words zero h p = last_word h p
last_words (suc fuel) h p = elim (leb 8 (length p)) [
  | true ↦
      last_words fuel (rotl64 (h xor xxh_round 0 (load_le64 p)) 27 *w prime64_1 +w prime64_4)
        (drop 8 p)
  | false ↦ last_word h p
]

unfoldable pub avalanche : ℕ → ℕ
avalanche h =
    let a = (h xor shr h 33) *w prime64_2 in let b = (a xor shr a 29) *w prime64_3 in b xor shr b 32

unfoldable pub xxhash_final : Stream Core → ℕ
unfolding start last_words avalanche
xxhash_final st = avalanche (last_words (length st.buf) (start st +w st.total_len) st.buf)

unfoldable pub xxhash64 : ℕ → List ℕ → ℕ
unfolding xxhash_init xxhash_update xxhash_final
xxhash64 seed text = xxhash_final (xxhash_update (xxhash_init seed) text)

-- `buckets_checksum`.
unfoldable pub checksum : List ℕ → ℕ
unfolding xxhash64
checksum text = xxhash64 0 text
