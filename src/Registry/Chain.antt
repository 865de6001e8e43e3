-- ===== src/Registry/Chain.antt =====
-- The chains and the LRU list of the cache in src/registry/registry.c.
use buckets.Prelude.{
  ◌+◌, ◌≡◌, refl, sym, ap, ◌∙◌, subst, inl, inr, Bool, true, false, List, [], ◌∷◌, none, some,
  length, Bool-cases, if◌then◌else◌, arith,
}
use buckets.Text.{Bytes, same_text, same_text_iff, same_text_refl}
use buckets.Registry.{Entry, find, unchain, rewrite, lru_remove, lru_tail}

-- Whether a key is on the list.
unfoldable pub is_listed : Bytes → List Bytes → Bool
is_listed key [] = false
is_listed key (k ∷ ks) = if same_text k key then true else is_listed key ks

pub length-lru_remove :
    (key : Bytes) (ks : List Bytes)
    → is_listed key ks ≡ true
    → length (lru_remove key ks) + 1 ≡ length ks
unfolding lru_remove is_listed
length-lru_remove key [] h = cc
length-lru_remove key (k ∷ ks) h = elim (Bool-cases (same_text k key)) [
  | inl same ↦ rw same (omega arith)
  | inr differ ↦
      rw differ (omega (arith, length-lru_remove key ks (sym (rw (differ, is_listed) refl) ∙ h)))
]

same_key_ne : (k a b : Bytes) → same_text a b ≡ false → same_text k a ≡ true → same_text k b ≡ false
same_key_ne k a b apart same =
    subst (λ x. same_text x b ≡ false) (sym ((same_text_iff k a).0 same)) apart

pub other_way : (a b : Bytes) → same_text a b ≡ false → same_text b a ≡ false
other_way a b apart = elim (Bool-cases (same_text b a)) [
  | inr differ ↦ differ
  | inl same ↦ absurd (split ((same_text_iff a b).1 (sym ((same_text_iff b a).0 same))) apart)
]
  where
    split : same_text a b ≡ true → same_text a b ≡ false → ⊥
    split h h' = cc

pub is_listed-lru_remove :
    (key other : Bytes) (ks : List Bytes)
    → same_text key other ≡ false
    → is_listed other (lru_remove key ks) ≡ is_listed other ks
unfolding lru_remove is_listed
is_listed-lru_remove key other [] apart = refl
is_listed-lru_remove key other (k ∷ ks) apart = elim (Bool-cases (same_text k key)) [
  | inl same ↦ rw (same, same_key_ne k key other apart same) refl
  | inr differ ↦ rw (differ, is_listed-lru_remove key other ks apart) refl
]

pub lru_tail-is_listed :
    (victim : Bytes) (ks : List Bytes) → lru_tail ks ≡ some victim → is_listed victim ks ≡ true
unfolding is_listed
lru_tail-is_listed victim [] h = cc
lru_tail-is_listed victim (k ∷ []) h =
    let e : k ≡ victim = ap (λ o. elim o [ none ↦ k | some x ↦ x ]) h in
    rw ((same_text_iff k victim).1 e) refl
lru_tail-is_listed victim (k ∷ k' ∷ ks) h = elim (Bool-cases (same_text k victim)) [
  | inl same ↦ rw same refl
  | inr differ ↦ rw differ (lru_tail-is_listed victim (k' ∷ ks) h)
]

module _ {L : Type 0} where
  -- No key is twice in a chain.
  abbrev pub AreUnique : List (Entry L) → Type 0
  AreUnique [] = Unit {0}
  AreUnique (e ∷ es) = (find es e.key ≡ none) × AreUnique es

  pub find-unchain_ne :
      (key other : Bytes) (es : List (Entry L))
      → same_text key other ≡ false
      → find (unchain key es) other ≡ find es other
  unfolding find unchain
  find-unchain_ne key other [] apart = refl
  find-unchain_ne key other (e ∷ es) apart = elim (Bool-cases (same_text e.key key)) [
    | inl same ↦ rw (same, same_key_ne e.key key other apart same) refl
    | inr differ ↦ rw (differ, find-unchain_ne key other es apart) refl
  ]

  pub find-unchain_self :
      (key : Bytes) (es : List (Entry L)) → AreUnique es → find (unchain key es) key ≡ none
  unfolding find unchain
  find-unchain_self key [] unique = refl
  find-unchain_self key (e ∷ es) (first, rest) = elim (Bool-cases (same_text e.key key)) [
    | inl same ↦ rw same (subst (λ k. find es k ≡ none) ((same_text_iff e.key key).0 same) first)
    | inr differ ↦ rw (differ, differ, find-unchain_self key es rest) refl
  ]

  find-unchain-none :
      (key other : Bytes) (es : List (Entry L))
      → find es other ≡ none
      → find (unchain key es) other ≡ none
  unfolding find unchain
  find-unchain-none key other [] h = refl
  find-unchain-none key other (e ∷ es) h = elim (Bool-cases (same_text e.key other)) [
    | inl there ↦ absurd (some_found e (sym (rw (there, find) refl) ∙ h))
    | inr apart ↦
        let rest : find es other ≡ none = sym (rw (apart, find) refl) ∙ h in
        elim (Bool-cases (same_text e.key key)) [
          | inl same ↦ rw same rest
          | inr differ ↦ rw (differ, apart) (find-unchain-none key other es rest)
        ]
  ]
    where
      some_found : (e : Entry L) → some e ≡ none → ⊥
      some_found e h = cc

  pub unchain-AreUnique :
      (key : Bytes) (es : List (Entry L)) → AreUnique es → AreUnique (unchain key es)
  unfolding unchain
  unchain-AreUnique key [] unique = tt
  unchain-AreUnique key (e ∷ es) (first, rest) = elim (Bool-cases (same_text e.key key)) [
    | inl same ↦ rw same rest
    | inr differ ↦ rw differ (find-unchain-none key e.key es first, unchain-AreUnique key es rest)
  ]

  pub find-rewrite_ne :
      (fresh : Entry L) (other : Bytes) (es : List (Entry L))
      → same_text fresh.key other ≡ false
      → find (rewrite fresh es) other ≡ find es other
  unfolding find rewrite
  find-rewrite_ne fresh other [] apart = refl
  find-rewrite_ne fresh other (e ∷ es) apart = elim (Bool-cases (same_text e.key fresh.key)) [
    | inl same ↦ rw (same, apart, same_key_ne e.key fresh.key other apart same) refl
    | inr differ ↦ rw (differ, find-rewrite_ne fresh other es apart) refl
  ]

  pub find-rewrite_self :
      (fresh e : Entry L) (es : List (Entry L))
      → find es fresh.key ≡ some e
      → find (rewrite fresh es) fresh.key ≡ some fresh
  unfolding find rewrite
  find-rewrite_self fresh e [] h = cc
  find-rewrite_self fresh e (x ∷ es) h = elim (Bool-cases (same_text x.key fresh.key)) [
    | inl same ↦ rw (same, same_text_refl fresh.key) refl
    | inr differ ↦
        rw (differ, differ, find-rewrite_self fresh e es (sym (rw (differ, find) refl) ∙ h)) refl
  ]

  pub rewrite-AreUnique :
      (fresh : Entry L) (es : List (Entry L)) → AreUnique es → AreUnique (rewrite fresh es)
  unfolding rewrite
  rewrite-AreUnique fresh [] unique = tt
  rewrite-AreUnique fresh (e ∷ es) (first, rest) = elim (Bool-cases (same_text e.key fresh.key)) [
    | inl same ↦
        rw same (subst (λ k. find es k ≡ none) ((same_text_iff e.key fresh.key).0 same) first, rest)
    | inr differ ↦ rw differ (
      find-rewrite_ne fresh e.key es (other_way e.key fresh.key differ) ∙ first,
      rewrite-AreUnique fresh es rest,
    )
  ]
