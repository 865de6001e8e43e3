-- ===== src/Hash/Stream/Append.antt =====
-- Hashing in pieces with the update of src/hash/siphash.c and src/hash/xxhash.c.
use buckets.Prelude.{
  ℕ, ◌+◌, ◌%◌, ◌^◌, ◌<◌, ◌≡◌, refl, sym, ap, ◌∙◌, inl, inr, List, [], ◌∷◌, ◌++◌, arith, ◌==◌,
  Bool-cases, length, length-append,
}
use buckets.Hash.Stream.{Stream, update}
use buckets.Hash.Stream.Feed.{feed, feed-append, update-eq-feed}

module _ {S : Type 0} (width : ℕ) (compress : List ℕ → S → S) where
  feed_buffer :
      (xs : List ℕ) (s : S) (buf : List ℕ)
      → length buf < width
      → length (feed width compress s buf xs).1 < width
  feed_buffer [] s buf h = h
  feed_buffer (x ∷ xs) s buf h = elim (Bool-cases (length (buf ++ x ∷ []) == width)) [
    | inl e ↦ rw (e, feed) (feed_buffer xs (compress (buf ++ x ∷ []) s) [] (omega arith))
    | inr e ↦
        rw (e, feed)
          (feed_buffer xs s (buf ++ x ∷ []) (ground (arith, e, length-append buf (x ∷ []))))
  ]

  -- The buffer holds less than a block before and after an update.
  pub update-buffer :
      (st : Stream S) (p : List ℕ)
      → 0 < width
      → length st.buf < width
      → length (update width compress st p).buf < width
  update-buffer st p w h =
      rw (ap (λ (r : S × List ℕ). r.1) (update-eq-feed width compress st p w h))
        (feed_buffer p st.core st.buf h)

  total-update :
      (st : Stream S) (p : List ℕ)
      → (update width compress st p).total_len ≡ (st.total_len + length p) % 2 ^ 64
  unfolding update
  total-update st p = refl

  -- Two updates are one update by the bytes of both.
  pub update-append :
      (st : Stream S) (p q : List ℕ)
      → 0 < width
      → length st.buf < width
      → update width compress (update width compress st p) q ≡ update width compress st (p ++ q)
  update-append st p q w h =
      let one = update width compress st p in
      let both : ((update width compress one q).core, (update width compress one q).buf)
          ≡ ((update width compress st (p ++ q)).core, (update width compress st (p ++ q)).buf) =
        update-eq-feed width compress one q w (update-buffer st p w h)
        ∙ ap (λ (r : S × List ℕ). feed width compress r.0 r.1 q)
            (update-eq-feed width compress st p w h)
        ∙ sym (feed-append width compress p q st.core st.buf)
        ∙ sym (update-eq-feed width compress st (p ++ q) w h) in
      let total : (update width compress one q).total_len
          ≡ (update width compress st (p ++ q)).total_len =
        omega (
          arith,
          total-update one q,
          total-update st p,
          total-update st (p ++ q),
          length-append p q,
        ) in
      λ i. record { core = (both i).0; total_len = total i; buf = (both i).1 }
