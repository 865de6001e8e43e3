-- ===== src/Topology/States.antt =====
-- How the operations of src/cluster/topology.c move the states of the sets.
use buckets.Prelude.{
  ◌≡◌, refl, sym, ap, ◌∙◌, subst, ◌⊎◌, inl, inr, true, false, Option, none, some, Bool-cases,
  Option-cases,
}
use buckets.Prelude.Maybe.{◌>>=◌}
use buckets.Prelude.Int.{ℤ, pos, ◌+ℤ◌, eq_ℤ, eq_ℤ_iff, at?, put, at?-put_self, at?-put_ne}
use buckets.Status.{ok, err, invalid_arg, ok_injective, err-ok}
use buckets.Topology.{
  SetState, SetTopology, PoolTopology, ClusterTopology, same_state, set_state, next_generation,
  set_state_to_string, set_state_from_string,
}

-- A set, by its place.
abbrev pub set_in : ℤ → Option PoolTopology → Option SetTopology
set_in set_idx none = none
set_in set_idx (some pool) = at? pool.sets set_idx

abbrev pub set_at : ClusterTopology → ℤ → ℤ → Option SetTopology
set_at t pool_idx set_idx = set_in set_idx (at? t.pools pool_idx)

abbrev pub with_state : SetState → SetTopology → SetTopology
with_state new_state s = record s { state = new_state }

-- The state of a set, by its place.
abbrev pub state_in : ℤ → Option PoolTopology → Option SetState
state_in set_idx none = none
state_in set_idx (some pool) = at? pool.sets set_idx >>= (λ s. some s.state)

abbrev pub state_at : ClusterTopology → ℤ → ℤ → Option SetState
state_at t pool_idx set_idx = state_in set_idx (at? t.pools pool_idx)

-- The name of a state in topology.json is read back as the state.
pub set_state_from_string-to_string :
    (s : SetState) → set_state_from_string (some (set_state_to_string s)) ≡ s
unfolding set_state_from_string set_state_to_string
set_state_from_string-to_string SetState.active = refl
set_state_from_string-to_string SetState.draining = refl
set_state_from_string-to_string SetState.removed = refl

pub same_state→eq : (a b : SetState) → same_state a b ≡ true → a ≡ b
same_state→eq SetState.active SetState.active h = refl
same_state→eq SetState.draining SetState.draining h = refl
same_state→eq SetState.removed SetState.removed h = refl
same_state→eq SetState.active SetState.draining h = cc
same_state→eq SetState.active SetState.removed h = cc
same_state→eq SetState.draining SetState.active h = cc
same_state→eq SetState.draining SetState.removed h = cc
same_state→eq SetState.removed SetState.active h = cc
same_state→eq SetState.removed SetState.draining h = cc

module _ (t : ClusterTopology) (pool_idx set_idx : ℤ) (new_state : SetState) where
  -- The set at one place has the new state and is as before otherwise, and there is the same set or none at every
  -- other place.
  abbrev pub Moves : ClusterTopology → Type 0
  Moves t' =
      (state_at t' pool_idx set_idx ≡ some new_state)
      × (set_at t' pool_idx set_idx
          ≡ (set_at t pool_idx set_idx >>= (λ s. some (with_state new_state s))))
      × ((p s : ℤ)
          → (eq_ℤ pool_idx p ≡ false) ⊎ (eq_ℤ set_idx s ≡ false)
          → set_at t' p s ≡ set_at t p s)

  unfoldable pub moved : PoolTopology → SetTopology → ClusterTopology
  moved pool found = next_generation (record t {
    pools =
        put t.pools pool_idx
          (record pool { sets = put pool.sets set_idx (record found { state = new_state }) });
  })

  moved-Moves :
      (pool : PoolTopology) (found : SetTopology)
      → at? t.pools pool_idx ≡ some pool
      → at? pool.sets set_idx ≡ some found
      → Moves (moved pool found)
  unfolding moved
  moved-Moves pool found at_pool at_set = (here, kept, others)
    where
      pool' : PoolTopology
      pool' = record pool { sets = put pool.sets set_idx (record found { state = new_state }) }

      in_pool : at? (put t.pools pool_idx pool') pool_idx ≡ some pool'
      in_pool = at?-put_self t.pools pool_idx pool' pool at_pool

      here : state_in set_idx (at? (put t.pools pool_idx pool') pool_idx) ≡ some new_state
      here =
          ap (state_in set_idx) in_pool
          ∙ ap (λ o. o >>= (λ s. some s.state))
              (at?-put_self pool.sets set_idx (record found { state = new_state }) found at_set)

      found' : SetTopology
      found' = record found { state = new_state }

      kept :
          set_in set_idx (at? (put t.pools pool_idx pool') pool_idx)
          ≡ (set_at t pool_idx set_idx >>= (λ s. some (with_state new_state s)))
      kept =
          ap (set_in set_idx) in_pool
          ∙ at?-put_self pool.sets set_idx found' found at_set
          ∙ sym (
              ap (λ o. o >>= (λ s. some (with_state new_state s)))
                (ap (set_in set_idx) at_pool ∙ at_set))

      others :
          (p s : ℤ)
          → (eq_ℤ pool_idx p ≡ false) ⊎ (eq_ℤ set_idx s ≡ false)
          → set_in s (at? (put t.pools pool_idx pool') p) ≡ set_at t p s
      others p s (inl apart) = ap (set_in s) (at?-put_ne t.pools pool_idx p pool' apart)
      others p s (inr apart) = elim (Bool-cases (eq_ℤ pool_idx p)) [
        | inl same ↦
            subst (λ q. set_in s (at? (put t.pools pool_idx pool') q) ≡ set_at t q s)
              ((eq_ℤ_iff pool_idx p).0 same)
              (ap (set_in s) in_pool
                ∙ at?-put_ne pool.sets set_idx s found' apart
                ∙ sym (ap (set_in s) at_pool))
        | inr apart' ↦ ap (set_in s) (at?-put_ne t.pools pool_idx p pool' apart')
      ]

  -- `buckets_topology_set_state` refuses a place without a set. Elsewhere the set there gets the new
  -- state, every other set keeps its own, and the topology keeps its generation when the state is not
  -- new and has the next one otherwise.
  pub set_state_lem :
      ((state_at t pool_idx set_idx ≡ none)
        × (set_state t pool_idx set_idx new_state ≡ err invalid_arg))
      ⊎ ((t' : ClusterTopology) × (set_state t pool_idx set_idx new_state ≡ ok t')
          × Moves t'
          × (((state_at t pool_idx set_idx ≡ some new_state) × (t' ≡ t))
              ⊎ (t'.generation ≡ t.generation +ℤ pos 1)))
  unfolding set_state moved
  set_state_lem = elim (Option-cases (at? t.pools pool_idx)) [
    | inl no_pool ↦ inl (ap (state_in set_idx) no_pool, rw (no_pool, set_state) refl)
    | inr (pool, at_pool) ↦ elim (Option-cases (at? pool.sets set_idx)) [
      | inl no_set ↦ inl (
        ap (state_in set_idx) at_pool ∙ ap (λ o. o >>= (λ s. some s.state)) no_set,
        rw (at_pool, no_set, set_state) refl,
      )
      | inr (found, at_set) ↦ inr (elim (Bool-cases (same_state found.state new_state)) [
        | inl same ↦
            let now =
              ap (state_in set_idx) at_pool
              ∙ ap (λ o. o >>= (λ s. some s.state)) at_set
              ∙ ap some (same_state→eq found.state new_state same) in
            let there : set_at t pool_idx set_idx ≡ some found =
              ap (set_in set_idx) at_pool ∙ at_set in
            (
              t,
              rw (at_pool, at_set, same, set_state) refl,
              (
                now,
                there
                    ∙ ap (λ x. some (with_state x found)) (same_state→eq found.state new_state same)
                    ∙ sym (ap (λ o. o >>= (λ s. some (with_state new_state s))) there),
                λ p s apart. refl,
              ),
              inl (now, refl),
            )
        | inr differ ↦ (
          moved pool found,
          rw (at_pool, at_set, differ, set_state) refl,
          moved-Moves pool found at_pool at_set,
          inr refl,
        )
      ])
    ]
  ]

  -- What `buckets_topology_set_state` returns: the topology itself, or one with a set changed.
  pub set_state_inv :
      (t' : ClusterTopology)
      → set_state t pool_idx set_idx new_state ≡ ok t'
      → (t ≡ t')
        ⊎ ((pool : PoolTopology) × (found : SetTopology) × (at? t.pools pool_idx ≡ some pool)
            × (at? pool.sets set_idx ≡ some found)
            × (moved pool found ≡ t'))
  unfolding set_state moved
  set_state_inv t' h = elim (Option-cases (at? t.pools pool_idx)) [
    | inl no_pool ↦
        absurd (err-ok {e = invalid_arg} {a = t'} (sym (rw (no_pool, set_state) refl) ∙ h))
    | inr (pool, at_pool) ↦ elim (Option-cases (at? pool.sets set_idx)) [
      | inl no_set ↦
          absurd
            (err-ok {e = invalid_arg} {a = t'} (sym (rw (at_pool, no_set, set_state) refl) ∙ h))
      | inr (found, at_set) ↦ elim (Bool-cases (same_state found.state new_state)) [
        | inl same ↦ inl (ok_injective t t' (sym (rw (at_pool, at_set, same, set_state) refl) ∙ h))
        | inr differ ↦ inr (
          pool,
          found,
          at_pool,
          at_set,
          ok_injective (moved pool found) t'
              (sym (rw (at_pool, at_set, differ, set_state) refl) ∙ h),
        )
      ]
    ]
  ]
