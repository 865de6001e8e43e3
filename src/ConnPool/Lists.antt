-- ===== src/ConnPool/Lists.antt =====
-- The list of connections of src/net/conn_pool.c: how many are in use, and which addresses it has.
use buckets.Prelude.{
  ℕ, ◌+◌, ◌≤◌, ◌≡◌, refl, sym, ap, ◌∙◌, Bool, true, false, List, [], ◌∷◌, Option, none, some,
  length, if◌then◌else◌, ◌==◌, Bool-cases, arith, inl, inr,
}
use buckets.Prelude.Maybe.{some_injective}
use buckets.Text.{Bytes}
use buckets.ConnPool.{Connection, Search, is_idle, search, connection_of, replace, remove}

-- How many connections are in use.
unfoldable pub used : List Connection → ℕ
used [] = 0
used (c ∷ cs) = let rest = used cs in if c.in_use then rest + 1 else rest

abbrev pub taken : Option ℕ → ℕ
taken none = 0
taken (some id) = 1

-- The counts of what a search leaves.
pub record IsCount (cs : List Connection) (s : Search) : Type 0 where
  pub all : length s.left + s.removed ≡ length cs
  pub in_use : used s.left ≡ used cs + taken s.found

pub search-IsCount :
    (alive : ℕ → Bool) (host : Bytes) (port now : ℕ) (cs : List Connection)
    → IsCount cs (search alive host port now cs)
unfolding search used
search-IsCount alive host port now [] = record { all = omega arith; in_use = omega arith }
search-IsCount alive host port now (c ∷ cs) =
    let ih = search-IsCount alive host port now cs in
    elim (Bool-cases (is_idle host port c)) [
      | inr e ↦ rw e (record { all = omega (arith, ih.all); in_use = ground (arith, ih.in_use) })
      | inl e ↦ elim (Bool-cases (alive c.fd)) [
        | inl a ↦ rw (e, a) (record { all = omega arith; in_use = ground (arith, e) })
        | inr a ↦
            rw (e, a)
              (record { all = omega (arith, ih.all); in_use = ground (arith, e, ih.in_use) })
      ]
    ]

pub connection_of-here :
    (x : Connection) (cs : List Connection) (id : ℕ)
    → (x.id == id) ≡ true
    → connection_of (x ∷ cs) id ≡ some x
unfolding connection_of
connection_of-here x cs id e = rw e refl

pub connection_of-later :
    (x : Connection) (cs : List Connection) (id : ℕ)
    → (x.id == id) ≡ false
    → connection_of (x ∷ cs) id ≡ connection_of cs id
unfolding connection_of
connection_of-later x cs id e = rw e refl

-- A connection in use is not the idle one at the head.
not_head :
    (x : Connection) (cs : List Connection) (id : ℕ) (c : Connection)
    → connection_of (x ∷ cs) id ≡ some c
    → c.in_use ≡ true
    → x.in_use ≡ false
    → ((x.id == id) ≡ false) × (connection_of cs id ≡ some c)
not_head x cs id c h u v = elim (Bool-cases (x.id == id)) [
  | inl e ↦
      let same = some_injective x c (sym (connection_of-here x cs id e) ∙ h) in
      let f = ap (λ y. y.in_use) same in cc
  | inr e ↦ (e, sym (connection_of-later x cs id e) ∙ h)
]

head_kept :
    (x : Connection) (cs cs' : List Connection) (id : ℕ) (c : Connection)
    → connection_of (x ∷ cs) id ≡ some c
    → (connection_of cs id ≡ some c → connection_of cs' id ≡ some c)
    → connection_of (x ∷ cs') id ≡ some c
unfolding connection_of
head_kept x cs cs' id c h ih = elim (Bool-cases (x.id == id)) [
  | inl e ↦ rw e (sym (connection_of-here x cs id e) ∙ h)
  | inr e ↦ rw e (ih (sym (connection_of-later x cs id e) ∙ h))
]

-- A connection in use is the one at its address after a search as it was before.
pub search-keeps :
    (alive : ℕ → Bool) (host : Bytes) (port now : ℕ) (cs : List Connection) (id : ℕ)
    (c : Connection)
    → connection_of cs id ≡ some c
    → c.in_use ≡ true
    → connection_of (search alive host port now cs).left id ≡ some c
unfolding search connection_of
search-keeps alive host port now [] id c h u = h
search-keeps alive host port now (x ∷ cs) id c h u =
    let ih = search-keeps alive host port now cs id c in
    elim (Bool-cases (is_idle host port x)) [
      | inr e ↦ rw e (head_kept x cs (search alive host port now cs).left id c h (λ k. ih k u))
      | inl e ↦
          let below = not_head x cs id c h u (ground (arith, e)) in
          elim (Bool-cases (alive x.fd)) [
            | inl a ↦
                rw (e, a)
                  (connection_of-later (record x { in_use = true; last_used = now }) cs id below.0
                    ∙ below.1)
            | inr a ↦ rw (e, a) (ih below.1 u)
          ]
    ]

pub length-replace :
    (cs : List Connection) (id : ℕ) (c : Connection) → length (replace cs id c) ≡ length cs
unfolding replace
length-replace [] id c = refl
length-replace (x ∷ cs) id c = ground (arith, length-replace cs id c)

pub used-replace :
    (cs : List Connection) (id : ℕ) (c c' : Connection)
    → connection_of cs id ≡ some c
    → c.in_use ≡ true
    → c'.in_use ≡ false
    → used (replace cs id c') + 1 ≡ used cs
unfolding replace connection_of used
used-replace [] id c c' h u v = cc
used-replace (x ∷ cs) id c c' h u v = ground (arith, h, u, v, used-replace cs id c c')

pub length-remove :
    (cs : List Connection) (id : ℕ) (c : Connection)
    → connection_of cs id ≡ some c
    → length (remove cs id) + 1 ≡ length cs
unfolding remove connection_of
length-remove [] id c h = cc
length-remove (x ∷ cs) id c h = ground (arith, h, length-remove cs id c)

abbrev pub one_if : Bool → ℕ
one_if b = if b then 1 else 0

pub used-remove :
    (cs : List Connection) (id : ℕ) (c : Connection)
    → connection_of cs id ≡ some c
    → used (remove cs id) + one_if c.in_use ≡ used cs
unfolding remove connection_of used
used-remove [] id c h = cc
used-remove (x ∷ cs) id c h = ground (arith, h, used-remove cs id c)

pub used-length : (cs : List Connection) → used cs ≤ length cs
unfolding used
used-length [] = omega arith
used-length (c ∷ cs) = ground (arith, used-length cs)
