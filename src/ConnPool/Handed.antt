-- ===== src/ConnPool/Handed.antt =====
-- Which connections `buckets_conn_pool_get` of src/net/conn_pool.c hands out.
use buckets.Prelude.{
  ℕ, suc, ◌≡◌, ◌≢◌, refl, sym, ap, ◌∙◌, subst, Bool, true, false, List, [], ◌∷◌, Option, none, some,
  get_elem?, Bool-cases, Option-cases, arith, inl, inr, ◌⊎◌, if◌then◌else◌,
}
use buckets.Prelude.Maybe.{some_injective}
use buckets.Text.{Bytes, same_text_iff}
use buckets.ConnPool.{
  Connection, ConnPool, Search, is_idle, search, searched, decided, reused, refused, connect,
  get_idle, connection_of,
}
use buckets.ConnPool.Lists.{search-keeps}

-- The connection at some place of a list.
abbrev pub Holds : List Connection → (Connection → Type 0) → Type 0
Holds cs P = (i : ℕ) × (c : Connection) × (get_elem? cs i ≡ some c) × P c

-- An idle connection to the host that is alive, at an address.
abbrev pub IsOffer : (ℕ → Bool) → Bytes → ℕ → ℕ → Connection → Type 0
IsOffer alive host port id c =
    (c.id ≡ id) × (c.in_use ≡ false) × (c.host ≡ host) × (c.port ≡ port) × (alive c.fd ≡ true)

abbrev pub IsHanded : Bytes → ℕ → ℕ → Connection → Type 0
IsHanded host port id c = (c.id ≡ id) × (c.in_use ≡ true) × (c.host ≡ host) × (c.port ≡ port)

holds_later :
    (c : Connection) (cs : List Connection) (P : Connection → Type 0)
    → Holds cs P
    → Holds (c ∷ cs) P
holds_later c cs P (i, x, e, p) = (suc i, x, e, p)

-- A search that finds a connection has it among those it leaves, and had it before.
abbrev IsGood : (ℕ → Bool) → Bytes → ℕ → List Connection → Search → Type 0
IsGood alive host port cs s =
    (id : ℕ)
    → s.found ≡ some id
    → Holds cs (IsOffer alive host port id) × Holds s.left (IsHanded host port id)

is_idle-true :
    (host : Bytes) (port : ℕ) (c : Connection)
    → is_idle host port c ≡ true
    → (c.in_use ≡ false) × (c.host ≡ host) × (c.port ≡ port)
is_idle-true host port c e = ground (arith, e, (same_text_iff c.host host).0)

search_found :
    (alive : ℕ → Bool) (host : Bytes) (port now : ℕ) (cs : List Connection)
    → IsGood alive host port cs (search alive host port now cs)
unfolding search
search_found alive host port now [] = λ id h. cc
search_found alive host port now (c ∷ cs) =
    let ih = search_found alive host port now cs in
    elim (Bool-cases (is_idle host port c)) [
      | inr e ↦ rw e (λ id h. let (a, b) = ih id h in (holds_later c cs _ a, holds_later c _ _ b))
      | inl e ↦
          let (i, g, q) = is_idle-true host port c e in
          elim (Bool-cases (alive c.fd)) [
            | inl a ↦
                rw (e, a)
                  (λ id h.
                    let same = some_injective c.id id h in
                    ((0, c, refl, (same, i, g, q, a)), (0, _, refl, (same, refl, g, q))))
            | inr a ↦ rw (e, a) (λ id h. let (a, b) = ih id h in (holds_later c cs _ a, b))
          ]
    ]

not_reused : (p : ConnPool) (id : ℕ) → (decided p none).1 ≢ reused id
not_reused p id h = ground (arith, h)

reused_injective : (a b : ℕ) → reused a ≡ reused b → a ≡ b
reused_injective a b e = ap (λ n. elim n [ reused x ↦ x | refused ↦ a | connect ↦ a ]) e

reused_found :
    (p : ConnPool) (s : Search) (id : ℕ) → (decided p s.found).1 ≡ reused id → s.found ≡ some id
reused_found p s id h = elim (Option-cases s.found) [
  | inl e ↦ absurd (not_reused p id (sym (ap (λ o. (decided p o).1) e) ∙ h))
  | inr (x, e) ↦ e ∙ ap some (reused_injective x id (sym (ap (λ o. (decided p o).1) e) ∙ h))
]

decided_list : (p : ConnPool) (o : Option ℕ) → (decided p o).0.connections ≡ p.connections
decided_list p none = refl
decided_list p (some id) = refl

-- The connection at an address, if it is in use.
abbrev pub in_use_at : List Connection → ℕ → Option Connection
in_use_at cs id = elim (connection_of cs id) [
  | none ↦ none
  | some c ↦ if c.in_use then some c else none
]

in_use_at-cases :
    (cs : List Connection) (id : ℕ)
    → (in_use_at cs id ≡ none)
      ⊎ ((c : Connection) × (connection_of cs id ≡ some c)
          × (c.in_use ≡ true)
          × (in_use_at cs id ≡ some c))
in_use_at-cases cs id = elim (Option-cases (connection_of cs id)) [
  | inl e ↦ inl (rw (in_use_at, e) refl)
  | inr (c, e) ↦ elim (Bool-cases c.in_use) [
    | inl u ↦ inr (c, e, u, rw (in_use_at, e, u) refl)
    | inr u ↦ inl (rw (in_use_at, e, u) refl)
  ]
]

-- A connection that a get reuses was in the pool, idle, alive and to the host and port that it asks for; it is in use
-- afterwards. Whatever connection was in use before, at any address, is kept as it is.
pub get_idle-reused :
    (p : ConnPool) (alive : ℕ → Bool) (host : Bytes) (port now id held : ℕ)
    → (get_idle p alive host port now).1 ≡ reused id
    → Holds p.connections (IsOffer alive host port id)
      × Holds (get_idle p alive host port now).0.connections (IsHanded host port id)
      × ((in_use_at p.connections held ≡ none)
          ⊎ (connection_of (get_idle p alive host port now).0.connections held
              ≡ in_use_at p.connections held))
unfolding get_idle
get_idle-reused p alive host port now id held h =
    let s = search alive host port now p.connections in
    let (a, b) =
      search_found alive host port now p.connections id (reused_found (searched p s) s id h) in
    let same = decided_list (searched p s) s.found in
    (
      a,
      subst (λ cs. Holds cs (IsHanded host port id)) (sym same) b,
      elim (in_use_at-cases p.connections held) [
        | inl e ↦ inl e
        | inr (c, e, u, was) ↦ inr (
            ap (λ cs. connection_of cs held) same
            ∙ search-keeps alive host port now p.connections held c e u
            ∙ sym was)
      ],
    )
