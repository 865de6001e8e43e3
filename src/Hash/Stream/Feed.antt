-- ===== src/Hash/Stream/Feed.antt =====
-- The update of src/hash/siphash.c and src/hash/xxhash.c against a hash fed byte by byte.
use buckets.Prelude.{
  ℕ, zero, suc, ◌+◌, ◌-◌, ◌≤◌, ◌<◌, ◌≡◌, refl, sym, ap, ◌∙◌, ◌⊎◌, inl, inr, true, false, List, [],
  ◌∷◌, ◌++◌, arith, ltb, leb, ◌==◌, if◌then◌else◌, Bool-cases, lt→ltb, length, take, drop,
  length-append, length-take, length-drop, take-append-drop, take_all, drop_all,
}
use mathlib.Core.List.{append-nil, append_assoc}
use buckets.Hash.Stream.{Stream, blocks, top_up, update}

module _ {S : Type 0} (width : ℕ) (compress : List ℕ → S → S) where
  -- The reference: one byte at a time, a block whenever the buffer is full.
  abbrev pub feed : S → List ℕ → List ℕ → S × List ℕ
  feed s buf [] = (s, buf)
  feed s buf (x ∷ xs) = elim (length (buf ++ x ∷ []) == width) [
    | true ↦ feed (compress (buf ++ x ∷ []) s) [] xs
    | false ↦ feed s (buf ++ x ∷ []) xs
  ]

  pub feed-append :
      (xs ys : List ℕ) (s : S) (buf : List ℕ)
      → feed s buf (xs ++ ys) ≡ feed (feed s buf xs).0 (feed s buf xs).1 ys
  feed-append [] ys s buf = refl
  feed-append (x ∷ xs) ys s buf = elim (Bool-cases (length (buf ++ x ∷ []) == width)) [
    | inl e ↦ rw (e, feed) (feed-append xs ys (compress (buf ++ x ∷ []) s) [])
    | inr e ↦ rw (e, feed) (feed-append xs ys s (buf ++ x ∷ []))
  ]

  feed_short :
      (xs : List ℕ) (s : S) (buf : List ℕ)
      → length buf + length xs < width
      → feed s buf xs ≡ (s, buf ++ xs)
  feed_short [] s buf h = rw (append-nil buf)
  feed_short (x ∷ xs) s buf h =
      rw (not_full, feed)
        (feed_short xs s (buf ++ x ∷ []) (omega (arith, length-append buf (x ∷ [])))
          ∙ ap (λ b. (s, b)) (append_assoc buf (x ∷ []) xs))
    where
      not_full : (length (buf ++ x ∷ []) == width) ≡ false
      not_full = ground (arith, length-append buf (x ∷ []))

  feed_full :
      (xs : List ℕ) (x : ℕ) (s : S) (buf : List ℕ)
      → length buf + suc (length xs) ≡ width
      → feed s buf (x ∷ xs) ≡ (compress (buf ++ x ∷ xs) s, [])
  feed_full [] x s buf h = rw (full, feed)
    where
      full : (length (buf ++ x ∷ []) == width) ≡ true
      full = ground (arith, length-append buf (x ∷ []))
  feed_full (y ∷ ys) x s buf h =
      rw (not_full, feed)
        (feed_full ys y s (buf ++ x ∷ []) (omega (arith, length-append buf (x ∷ [])))
          ∙ ap (λ b. (compress b s, [])) (append_assoc buf (x ∷ []) (y ∷ ys)))
    where
      not_full : (length (buf ++ x ∷ []) == width) ≡ false
      not_full = ground (arith, length-append buf (x ∷ []))

  -- Filling the buffer by a block's worth at once.
  feed_block :
      (xs : List ℕ) (s : S) (buf : List ℕ)
      → 0 < length xs
      → length buf + length xs ≡ width
      → feed s buf xs ≡ (compress (buf ++ xs) s, [])
  feed_block [] s buf h k = absurd (omega arith)
  feed_block (x ∷ xs) s buf h k = feed_full xs x s buf k

  -- The first `n` bytes complete the block.
  feed_split :
      (n : ℕ) (p : List ℕ) (s : S) (buf : List ℕ)
      → 0 < n
      → n ≤ length p
      → length buf + n ≡ width
      → feed s buf p ≡ feed (compress (buf ++ take n p) s) [] (drop n p)
  feed_split n p s buf pos fits h =
      ap (feed s buf) (sym (take-append-drop n p))
      ∙ feed-append (take n p) (drop n p) s buf
      ∙ ap (λ (r : S × List ℕ). feed r.0 r.1 (drop n p))
          (feed_block (take n p) s buf (omega (arith, length-take n p))
            (omega (arith, length-take n p)))

  blocks-eq-feed :
      (fuel : ℕ) (p : List ℕ) (s : S)
      → 0 < width
      → length p ≤ fuel
      → blocks width compress fuel p s ≡ feed s [] p
  unfolding blocks
  blocks-eq-feed zero [] s h k = refl
  blocks-eq-feed zero (x ∷ p) s h k = absurd (omega arith)
  blocks-eq-feed (suc fuel) p s h k = elim (Bool-cases (leb width (length p))) [
    | inl e ↦
        rw (e, blocks)
          (blocks-eq-feed fuel (drop width p) (compress (take width p) s) h
              (omega (arith, length-drop width p))
            ∙ sym (feed_split width p s [] h (ground (arith, e)) (omega arith)))
    | inr e ↦ rw (e, blocks) (sym (feed_short p s [] (ground (arith, e))))
  ]

  -- After the buffered data either the buffer is empty, or the input is used up.
  abbrev TopsUp : S → List ℕ → List ℕ → S × List ℕ × List ℕ → Type 0
  TopsUp s buf p r =
      ((r.1 ≡ []) × (feed s buf p ≡ feed r.0 [] r.2)) ⊎ ((r.2 ≡ []) × (feed s buf p ≡ (r.0, r.1)))

  top_up-TopsUp :
      (p : List ℕ) (s : S) (buf : List ℕ)
      → length buf < width
      → TopsUp s buf p (top_up width compress s buf p)
  unfolding top_up
  top_up-TopsUp p s [] h = inl (refl, refl)
  top_up-TopsUp p s (b ∷ bs) h = elim (Bool-cases (ltb (length p) (width - length (b ∷ bs)))) [
    | inl e ↦
        let lt : length p < width - length (b ∷ bs) = ground (arith, e) in
        let open_end : (length ((b ∷ bs) ++ p) == width) ≡ false =
          ground (arith, length-append (b ∷ bs) p) in
        rw
          (
            e,
            lt→ltb 0 (length (b ∷ bs)) (omega arith),
            take_all (length p) p (omega arith),
            drop_all (length p) p (omega arith),
            open_end,
          )
          (inr (refl, feed_short p s (b ∷ bs) (omega arith)))
    | inr e ↦
        let room : ℕ = width - length (b ∷ bs) in
        let le : room ≤ length p = ground (arith, e) in
        let full : (length ((b ∷ bs) ++ take room p) == width) ≡ true =
          ground (arith, length-append (b ∷ bs) (take room p), length-take room p) in
        rw (e, lt→ltb 0 (length (b ∷ bs)) (omega arith), full)
          (inl (refl, feed_split room p s (b ∷ bs) (omega arith) le (omega arith)))
  ]

  keep_or : (xs : List ℕ) → (if ltb 0 (length xs) then xs else []) ≡ xs
  keep_or [] = refl
  keep_or (x ∷ xs) = ground arith

  finish :
      (s : S) (buf p : List ℕ) (r : S × List ℕ × List ℕ)
      → 0 < width
      → TopsUp s buf p r
      → let (core, left) = blocks width compress (length r.2) r.2 r.0 in
        (core, if ltb 0 (length left) then left else r.1) ≡ feed s buf p
  finish s buf p (s', buf', rest) w (inl (e, q)) =
      rw (blocks-eq-feed (length rest) rest s' w (omega arith), e, q, keep_or (feed s' [] rest).1)
  finish s buf p (s', buf', rest) w (inr (e, q)) =
      rw (blocks-eq-feed (length rest) rest s' w (omega arith), e, q)

  -- `update` leaves the accumulators and the buffer that byte-by-byte feeding leaves.
  pub update-eq-feed :
      (st : Stream S) (p : List ℕ)
      → 0 < width
      → length st.buf < width
      → ((update width compress st p).core, (update width compress st p).buf)
        ≡ feed st.core st.buf p
  unfolding update
  update-eq-feed st p w h =
      finish st.core st.buf p (top_up width compress st.core st.buf p) w
        (top_up-TopsUp p st.core st.buf h)
