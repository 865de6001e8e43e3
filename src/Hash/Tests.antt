-- ===== src/Hash/Tests.antt =====
-- The test vectors of tests/hash/test_siphash.c and tests/hash/test_xxhash.c.
use buckets.Prelude.{ℕ, ◌≡◌, refl, List, [], ◌∷◌, ◌++◌}
use buckets.Hash.Sip.{siphash}
use buckets.Hash.Xx.{xxhash64, xxhash_init, xxhash_update, xxhash_final}
use buckets.Hash.Laws.{xxhash_pieces}

abbrev letters : List ℕ
letters =
    b'a' ∷ b'b' ∷ b'c' ∷ b'd' ∷ b'e' ∷ b'f' ∷ b'g' ∷ b'h' ∷ b'i' ∷ b'j' ∷ b'k' ∷ b'l' ∷ b'm' ∷ b'n'
    ∷ b'o' ∷ b'p' ∷ b'q' ∷ b'r' ∷ b's' ∷ b't' ∷ b'u' ∷ b'v' ∷ b'w' ∷ b'x' ∷ b'y' ∷ b'z' ∷ []

sip_nine_bytes :
    siphash 0x0706050403020100 0x0f0e0d0c0b0a0908 (0 ∷ 1 ∷ 2 ∷ 3 ∷ 4 ∷ 5 ∷ 6 ∷ 7 ∷ 8 ∷ [])
    ≡ 0x9e0082df0ba9e4b0
unfolding siphash
sip_nine_bytes = refl

xx_empty : xxhash64 0 [] ≡ 0xEF46DB3751D8E999
unfolding xxhash64
xx_empty = refl

xx_letters : xxhash64 0 letters ≡ 0xCFE1F278FA89835C
unfolding xxhash64
xx_letters = refl

xxhash_pieces_example :
    xxhash_final (xxhash_update (xxhash_update (xxhash_init 7) letters) letters)
    ≡ xxhash64 7 (letters ++ letters)
xxhash_pieces_example = xxhash_pieces 7 letters letters
