-- ===== src/GroupCommit/Batches.antt =====
-- How much src/storage/group_commit.c leaves unsynced between two syncs.
use buckets.Prelude.{
  ℕ, zero, suc, ◌+◌, ◌-◌, ◌≤◌, ◌≡◌, refl, sym, ap, ◌∙◌, subst, Bool, true, false, List, [], ◌∷◌,
  ◌⊎◌, inl, inr, Option, none, some, Bool-cases, Option-cases, arith, replicate, if◌then◌else◌,
}
use buckets.GroupCommit.{
  Config, FdState, Context, init, blank_state, new_state, syncs_never, syncs_always, should_sync,
  do_sync, state_at, find_state, free_state, get_fd_state, os_write, add_pending, account_at,
  flush_fd_state, account, flush_at, flush_fd, flush_slot,
}
use buckets.GroupCommit.Slots.{pending_of, at, at-set, at-set_twice, IsFound}
use buckets.GroupCommit.Tracking.{
  IsUntracked, Got, get_fd_state-Got, landed, recount, synced, flush_fd_state-cases,
}
use buckets.GroupCommit.Runs.{
  do_sync-config, do_sync-fd_states, wrote, accounted, flushed, flushed_slot, here, then_step,
  add_pending-at, Action, Runs, runs-IsCovered,
}

-- The most writes that a state counts when its lock is free.
unfoldable pub limit : Config → ℕ
limit config = if syncs_always config.durability then 0 else config.batch_size - 1

-- No state counts more writes than the limit.
pub record IsBounded (size : ℕ) (c : Context) : Type 0 where
  pub syncs : syncs_never c.config.durability ≡ false
  pub batch : limit c.config ≡ size
  pub small : (j : ℕ) → (state_at c j).pending_count ≤ limit c.config

synced-IsBounded :
    {size : ℕ} (c : Context) (i now : ℕ) → IsBounded size c → IsBounded size (synced c i now)
synced-IsBounded c i now b = record {
  syncs = b.syncs;
  batch = b.batch;
  small = λ j.
      at-set (λ s. s.pending_count ≤ limit c.config) c.fd_states i j (recount c i 0 now) (b.small j)
        (omega arith);
}

flush_fd_state-IsBounded :
    {size : ℕ} (c : Context) (i now : ℕ) (works : Bool)
    → IsBounded size c
    → IsBounded size (flush_fd_state c i now works).0
flush_fd_state-IsBounded {size = size} c i now works b =
    elim (flush_fd_state-cases c i now works b.syncs) [
      | inl (e, r) ↦ subst (λ x. IsBounded size x.0) (sym r) b
      | inr (inl (e, r)) ↦ subst (λ x. IsBounded size x.0) (sym r) b
      | inr (inr r) ↦ subst (λ x. IsBounded size x.0) (sym r) (synced-IsBounded c i now b)
    ]

get_fd_state-IsBounded :
    {size : ℕ} (c : Context) (fd now : ℕ)
    → IsBounded size c
    → IsBounded size (get_fd_state c fd now).0
unfolding get_fd_state
get_fd_state-IsBounded c fd now b = elim (Option-cases (find_state c.fd_states fd)) [
  | inr (i, e) ↦ rw e b
  | inl e ↦ elim (Option-cases (free_state c.fd_states)) [
    | inl f ↦ rw (e, f) b
    | inr (i, f) ↦
        rw (e, f)
          (record {
            syncs = b.syncs;
            batch = b.batch;
            small = λ j.
                at-set (λ s. s.pending_count ≤ limit c.config) c.fd_states i j (new_state fd now)
                  (b.small j) (omega arith);
          })
  ]
]

-- A count that is not due for a sync is within the limit.
should_sync-below :
    (config : Config) (now : ℕ) (s : FdState)
    → syncs_never config.durability ≡ false
    → should_sync config now s ≡ false
    → s.pending_count ≤ limit config
unfolding should_sync limit
should_sync-below config now s n h = ground (arith, n, h)

due-IsBounded :
    {size : ℕ} (c : Context) (fd i now : ℕ)
    → IsFound c.fd_states fd i
    → IsBounded size c
    → IsBounded size (flush_fd_state (add_pending c i) i now true).0
due-IsBounded {size = size} c fd i now f b =
    let added = ap (λ s. s.pending_count) (add_pending-at c fd i f) in
    elim (flush_fd_state-cases (add_pending c i) i now true b.syncs) [
      | inl (e, r) ↦ absurd (omega (arith, added, e))
      | inr (inl (e, r)) ↦ cc
      | inr (inr r) ↦
          subst (λ x. IsBounded size x.0) (sym r)
            (record {
              syncs = b.syncs;
              batch = b.batch;
              small = λ j.
                  at-set_twice (λ s. s.pending_count ≤ limit c.config) c.fd_states i j _
                    (recount (add_pending c i) i 0 now) (b.small j) (omega arith);
            })
    ]

not_due-IsBounded :
    {size : ℕ} (c : Context) (fd i now : ℕ)
    → IsFound c.fd_states fd i
    → should_sync c.config now (state_at (add_pending c i) i) ≡ false
    → IsBounded size c
    → IsBounded size (add_pending c i)
not_due-IsBounded c fd i now f e b =
    let below = should_sync-below c.config now (state_at (add_pending c i) i) b.syncs e in
    record {
      syncs = b.syncs;
      batch = b.batch;
      small = λ j.
          at-set (λ s. s.pending_count ≤ limit c.config) c.fd_states i j _ (b.small j)
            (subst (λ s. s.pending_count ≤ limit c.config) (add_pending-at c fd i f) below);
    }

same-IsBounded :
    {size : ℕ} (c c' : Context)
    → c'.config ≡ c.config
    → c'.fd_states ≡ c.fd_states
    → IsBounded size c
    → IsBounded size c'
same-IsBounded c c' e f b = record {
  syncs = ap (λ x. syncs_never x.durability) e ∙ b.syncs;
  batch = ap limit e ∙ b.batch;
  small = λ j. omega (arith, ap (λ x. (at x j).pending_count) f, ap limit e, b.small j);
}

account_at-IsBounded :
    {size : ℕ} (c : Context) (fd now : ℕ) (r : Context × Option ℕ)
    → Got c fd r
    → IsBounded size r.0
    → IsBounded size (account_at fd now true r)
unfolding do_sync
account_at-IsBounded c fd now (c', none) got b =
    same-IsBounded c' (do_sync c' fd true).0 (do_sync-config c' fd true)
      (do_sync-fd_states c' fd true) b
account_at-IsBounded c fd now (c', some i) (f, o, u, v, l, p, k) b =
    elim (Bool-cases (should_sync c'.config now (state_at (add_pending c' i) i))) [
      | inl e ↦ rw e (due-IsBounded c' fd i now f b)
      | inr e ↦ rw e (not_due-IsBounded c' fd i now f e b)
    ]

flush_at-IsBounded :
    {size : ℕ} (now : ℕ) (works : Bool) (r : Context × Option ℕ)
    → IsBounded size r.0
    → IsBounded size (flush_at now works r).0
flush_at-IsBounded now works (c, none) b = b
flush_at-IsBounded now works (c, some i) b =
    flush_fd_state-IsBounded (record c { explicit_flushes = c.explicit_flushes + 1 }) i now works
      (record { syncs = b.syncs; batch = b.batch; small = b.small })

flush_slot-IsBounded :
    {size : ℕ} (c : Context) (i now : ℕ) (works : Bool)
    → IsBounded size c
    → IsBounded size (flush_slot c i now works).0
unfolding flush_slot
flush_slot-IsBounded c i now works b = elim (Bool-cases (state_at c i).active) [
  | inl e ↦ rw e (flush_fd_state-IsBounded c i now works b)
  | inr e ↦ rw e b
]

step-IsBounded :
    {size : ℕ} {c c' : Context} → Action false c c' → IsBounded size c → IsBounded size c'
unfolding os_write account flush_fd
step-IsBounded (wrote {c} fd count) b = record { syncs = b.syncs; batch = b.batch; small = b.small }
step-IsBounded (accounted {c} fd now false n w) b = cc
step-IsBounded (accounted {c} fd now true n w) b =
    let c' = landed c fd in
    account_at-IsBounded c' fd now (get_fd_state c' fd now) (get_fd_state-Got c' fd now) (
      get_fd_state-IsBounded c' fd now
        (record { syncs = b.syncs; batch = b.batch; small = b.small }))
step-IsBounded (flushed {c} fd now works w) b =
    flush_at-IsBounded now works _ (get_fd_state-IsBounded c fd now b)
step-IsBounded (flushed_slot {c} i now works w) b = flush_slot-IsBounded c i now works b

small_replicate : (n j : ℕ) → (at (replicate n blank_state) j).pending_count ≡ 0
small_replicate zero j = refl
small_replicate (suc n) zero = refl
small_replicate (suc n) (suc j) = small_replicate n j

init-IsBounded :
    (config : Config)
    → syncs_never config.durability ≡ false
    → IsBounded (limit config) (init config)
unfolding init
init-IsBounded config h = record {
  syncs = h;
  batch = refl;
  small = λ j. omega (arith, small_replicate 256 j);
}

runs-IsBounded :
    {size : ℕ} (c c' : Context) → Runs false c c' → IsBounded size c → IsBounded size c'
runs-IsBounded c c' here b = b
runs-IsBounded c c' (then_step {c' = d} r s) b = step-IsBounded s (runs-IsBounded c d r b)

pending_of-small :
    (ss : List FdState) (fd bound : ℕ)
    → ((j : ℕ) → (at ss j).pending_count ≤ bound)
    → pending_of ss fd ≤ bound
unfolding pending_of
pending_of-small [] fd bound h = omega arith
pending_of-small (s ∷ ss) fd bound h =
    ground (arith, h 0, pending_of-small ss fd bound (λ j. h (suc j)))

-- Where all syncs succeed and the durability asks for them, a file that is tracked has at most as many unsynced writes
-- as a batch less one (none where the batch size is 0), and none with immediate durability, not counting the writes
-- whose call has not returned.
pub runs-unsynced :
    (config : Config) (c : Context) (fd : ℕ)
    → syncs_never config.durability ≡ false
    → Runs false (init config) c
    → IsUntracked c fd
      ⊎ (c.unsynced fd
          ≤ (if syncs_always config.durability then 0 else config.batch_size - 1) + c.in_flight fd)
unfolding limit
runs-unsynced config c fd h r =
    let v = runs-IsCovered config c h r in
    let b = runs-IsBounded (init config) c r (init-IsBounded config h) in
    let p = pending_of-small c.fd_states fd (limit c.config) b.small in
    elim (v.counted fd) [ inl u ↦ inl u | inr x ↦ inr (omega (arith, b.batch, p, x)) ]
