-- ===== src/Erasure/Overread.antt =====
-- Where the reconstruction of src/erasure/erasure.c reads outside the inverse matrix.
use buckets.Prelude.{
  ℕ, zero, suc, ◌+◌, ◌≤◌, ◌≡◌, refl, ap, ◌∙◌, Bool, false, List, [], ◌∷◌, map, Option, none, some,
  length, get_elem?, take, length-take, if◌then◌else◌, ltb, ◌==◌, arith,
}
use buckets.Prelude.Maybe.{some_injective}
use buckets.Text.{Bytes}
use buckets.Erasure.{
  Isal, missing_from, available_from, decoded, refused, outside, recover_one, recover, recover_with,
  reconstruct, reassembled, decode,
}

past_end : (rows : List (List ℕ)) (i : ℕ) → length rows ≤ i → get_elem? rows i ≡ none
past_end [] i h = refl
past_end (r ∷ rows) zero h = absurd (omega arith)
past_end (r ∷ rows) (suc i) h = past_end rows i (omega arith)

recover_one-outside :
    (g : Isal) (i : ℕ) (available : List Bytes) (row : Option (List ℕ))
    → recover_one g i available row outside ≡ outside
recover_one-outside g i available none = refl
recover_one-outside g i available (some row) = refl

recover-outside :
    (g : Isal) (inverse : List (List ℕ)) (available : List Bytes) (missing : List ℕ)
    (chunks : List (Option Bytes)) (p i : ℕ)
    → get_elem? missing p ≡ some i
    → length inverse ≤ i
    → recover g inverse available missing chunks ≡ outside
unfolding recover
recover-outside g inverse available [] chunks p i e h = cc
recover-outside g inverse available (j ∷ missing) chunks zero i e h =
    let same = some_injective j i e in
    let gone : get_elem? inverse j ≡ none = past_end inverse j (omega arith) in
    ap (λ r. recover_one g j available r (recover g inverse available missing chunks)) gone
recover-outside g inverse available (j ∷ missing) chunks (suc p) i e h =
    ap (recover_one g j available (get_elem? inverse j))
      (recover-outside g inverse available missing chunks p i e h)
    ∙ recover_one-outside g j available (get_elem? inverse j)

some_missing :
    (missing : List ℕ) (p i : ℕ) → get_elem? missing p ≡ some i → (length missing == 0) ≡ false
some_missing [] p i e = cc
some_missing (j ∷ missing) p i e = ground arith

reconstruct-outside :
    (g : Isal) (k m : ℕ) (chunks : List (Option Bytes)) (missing : List ℕ) (inverse : List (List ℕ))
    (p i : ℕ)
    → ltb (length (available_from 0 chunks)) k ≡ false
    → length missing ≤ m
    → get_elem? missing p ≡ some i
    → k ≤ i
    → g.invert (map (λ a. g.row (k + m) k a.0) (take k (available_from 0 chunks))) ≡ some inverse
    → length inverse ≡ k
    → reconstruct g k m chunks missing ≡ outside
unfolding reconstruct
reconstruct-outside g k m chunks missing inverse p i a b e h v l =
    let available = take k (available_from 0 chunks) in
    let few : ltb m (length missing) ≡ false = ground (arith, b) in
    let enough : ltb (length available) k ≡ false =
      ground (arith, a, length-take k (available_from 0 chunks)) in
    rw (some_missing missing p i e, few, enough)
      (ap (recover_with g available missing chunks) v
        ∙ recover-outside g inverse (map (λ x. x.1) available) missing chunks p i e (omega arith))

-- Where enough chunks are there and a chunk with parity is missing, a decode reads outside the inverse matrix, which
-- has a row for each chunk with data only, also where all the data is there.
pub decode-outside :
    (g : Isal) (k m : ℕ) (chunks : List (Option Bytes)) (data_size : ℕ) (dest : Bytes)
    (inverse : List (List ℕ)) (p i : ℕ)
    → ltb (length (available_from 0 chunks)) k ≡ false
    → length (missing_from 0 chunks) ≤ m
    → get_elem? (missing_from 0 chunks) p ≡ some i
    → k ≤ i
    → g.invert (map (λ a. g.row (k + m) k a.0) (take k (available_from 0 chunks))) ≡ some inverse
    → length inverse ≡ k
    → decode g k m chunks data_size dest ≡ outside
unfolding decode
decode-outside g k m chunks data_size dest inverse p i a b e h v l =
    let rest = reconstruct g k m chunks (missing_from 0 chunks) in
    ap
      (λ (b : Bool).
        if b
        then refused
        else reassembled data_size k dest
            (if length (missing_from 0 chunks) == 0 then decoded chunks else rest))
      a
    ∙ ap (λ (b : Bool). reassembled data_size k dest (if b then decoded chunks else rest))
        (some_missing (missing_from 0 chunks) p i e)
    ∙ ap (reassembled data_size k dest)
        (reconstruct-outside g k m chunks (missing_from 0 chunks) inverse p i a b e h v l)
