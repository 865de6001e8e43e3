-- ===== src/Hash/Sip.antt =====
-- SipHash-2-4, src/hash/siphash.c.
use buckets.Prelude.{ℕ, zero, suc, ◌+◌, ◌*◌, ◌%◌, List, [], ◌∷◌, drop}
use buckets.Prelude.Int.{ℤ, pos, negsuc}
use buckets.Hash.Word.{◌+w◌, ◌xor◌, ◌or◌, shl, rotl64, load_le64}
use buckets.Hash.Stream.{Stream, update}

-- The four words of `buckets_siphash_state_t`. Its copies of the key are never read back.
pub record Core : Type 0 where
  pub v0 : ℕ
  pub v1 : ℕ
  pub v2 : ℕ
  pub v3 : ℕ

-- SIPROUND, one line of the macro each.
unfoldable pub sip_round : Core → Core
unfolding rotl64
sip_round c =
    let a0 = c.v0 +w c.v1 in
    let a1 = rotl64 c.v1 13 xor a0 in
    let b0 = rotl64 a0 32 in
    let a2 = c.v2 +w c.v3 in
    let a3 = rotl64 c.v3 16 xor a2 in
    let c0 = b0 +w a3 in
    let b3 = rotl64 a3 21 xor c0 in
    let b2 = a2 +w a1 in
    let b1 = rotl64 a1 17 xor b2 in record { v0 = c0; v1 = b1; v2 = rotl64 b2 32; v3 = b3 }

-- `v3 ^= m; SIPROUND; SIPROUND; v0 ^= m;`
unfoldable pub absorb : ℕ → Core → Core
unfolding sip_round
absorb m c =
    let mixed = sip_round (sip_round (record c { v3 = c.v3 xor m })) in
    record mixed { v0 = mixed.v0 xor m }

unfoldable pub compress : List ℕ → Core → Core
unfolding absorb load_le64
compress block = absorb (load_le64 block)

unfoldable pub siphash_init : ℕ → ℕ → Stream Core
siphash_init k0 k1 = record {
  core = record {
    v0 = k0 xor 0x736f6d6570736575;
    v1 = k1 xor 0x646f72616e646f6d;
    v2 = k0 xor 0x6c7967656e657261;
    v3 = k1 xor 0x7465646279746573;
  };
  total_len = 0;
  buf = [];
}

unfoldable pub siphash_update : Stream Core → List ℕ → Stream Core
unfolding update compress
siphash_update = update 8 compress

-- The `switch` on `buf_len` with its fall-throughs: byte i goes to bit 8 * i.
unfoldable pub tail_word : ℕ → ℕ → List ℕ → ℕ
tail_word b i [] = b
tail_word b i (x ∷ xs) = tail_word (b or shl x (8 * i)) (i + 1) xs

unfoldable pub last_block : Stream Core → ℕ
unfolding tail_word
last_block st = tail_word (shl (st.total_len % 256) 56) 0 st.buf

unfoldable pub four_rounds : Core → Core
unfolding sip_round
four_rounds c = sip_round (sip_round (sip_round (sip_round c)))

unfoldable pub fold_words : Core → ℕ
fold_words c = c.v0 xor c.v1 xor c.v2 xor c.v3

unfoldable pub siphash_final : Stream Core → ℕ
unfolding absorb last_block four_rounds fold_words
siphash_final st =
    let c = absorb (last_block st) st.core in
    fold_words (four_rounds (record c { v2 = c.v2 xor 0xff }))

unfoldable pub siphash : ℕ → ℕ → List ℕ → ℕ
unfolding siphash_init siphash_update siphash_final
siphash k0 k1 text = siphash_final (siphash_update (siphash_init k0 k1) text)

-- `buckets_siphash128`: the two halves that are stored.
unfoldable pub siphash128 : ℕ → ℕ → List ℕ → ℕ × ℕ
unfolding siphash_init siphash_update absorb last_block four_rounds fold_words
siphash128 k0 k1 text =
    let fresh = siphash_init k0 k1 in
    let core = fresh.core in
    let st = siphash_update (record fresh { core = record core { v1 = core.v1 xor 0xee } }) text in
    let c = absorb (last_block st) st.core in
    let half = four_rounds (record c { v2 = c.v2 xor 0xee }) in
    let rest = four_rounds (record half { v1 = half.v1 xor 0xdd }) in
    (fold_words half, fold_words rest)

-- `buckets_uuid_to_siphash_key`.
unfoldable pub siphash_key : List ℕ → ℕ × ℕ
unfolding load_le64
siphash_key uuid = (load_le64 uuid, load_le64 (drop 8 uuid))

-- `buckets_hash_object_to_set`; `negsuc 0` is its -1. The cast to i32 loses nothing: the remainder
-- is below `set_count`.
unfoldable pub hash_object_to_set : List ℕ → List ℕ → ℤ → ℤ
unfolding siphash siphash_key
hash_object_to_set name deployment_id (negsuc n) = negsuc 0
hash_object_to_set name deployment_id (pos zero) = negsuc 0
hash_object_to_set name deployment_id (pos (suc n)) =
    let (k0, k1) = siphash_key deployment_id in pos (siphash k0 k1 name % suc n)
