-- ===== src/GroupCommit/Runs.antt =====
-- Every step of src/storage/group_commit.c keeps the count of the writes that are not synced.
use buckets.Prelude.{
  ℕ, ◌+◌, ◌<◌, ◌≡◌, sym, ap, ◌∙◌, subst, Bool, true, false, inl, inr, Option, none, some, length,
  ◌==◌, Bool-cases, arith, get_or-set_self, length-set, length-replicate, ==_iff, ◌||◌,
}
use buckets.GroupCommit.{
  Config, FdState, Context, init, blank_state, syncs_never, do_sync, state_at, should_sync,
  os_write, add_pending, sync_if_due, account_at, account, flush_at, flush_fd, flush_slot,
}
use buckets.GroupCommit.Slots.{is_of, IsFound}
use buckets.GroupCommit.Tracking.{
  IsUntracked, IsCounted, IsCovered, counted-os_write, Got, get_fd_state-Got,
  flush_fd_state-IsCovered, landed, counted-add_pending,
}

-- `may_fail` is that system calls may fail to sync.
pub data Action (may_fail : Bool) : Context → Context → Type 0 where
  wrote : {c : Context} (fd count : ℕ) → Action may_fail c (os_write c fd count)
  accounted :
      {c : Context} (fd now : ℕ) (works : Bool)
      → 0 < c.in_flight fd
      → (works || may_fail) ≡ true
      → Action may_fail c (account c fd now works)
  flushed :
      {c : Context} (fd now : ℕ) (works : Bool)
      → (works || may_fail) ≡ true
      → Action may_fail c (flush_fd c fd now works).0
  -- An iteration of the loop of `buckets_group_commit_flush_all`.
  flushed_slot :
      {c : Context} (i now : ℕ) (works : Bool)
      → (works || may_fail) ≡ true
      → Action may_fail c (flush_slot c i now works).0

pub data Runs (may_fail : Bool) : Context → Context → Type 0 where
  here : {c : Context} → Runs may_fail c c
  then_step :
      {c c' c'' : Context} → Runs may_fail c c' → Action may_fail c' c'' → Runs may_fail c c''

counted-do_sync :
    (c : Context) (fd g : ℕ) (works : Bool) → IsCounted c g → IsCounted (do_sync c fd works).0 g
unfolding do_sync
counted-do_sync c fd g works (inl x) = ground (arith, x)
counted-do_sync c fd g works (inr x) = ground (arith, x)

pub do_sync-config :
    (c : Context) (fd : ℕ) (works : Bool) → (do_sync c fd works).0.config ≡ c.config
unfolding do_sync
do_sync-config c fd works = ground arith

pub do_sync-fd_states :
    (c : Context) (fd : ℕ) (works : Bool) → (do_sync c fd works).0.fd_states ≡ c.fd_states
unfolding do_sync
do_sync-fd_states c fd works = ground arith

landed-untracked :
    (c : Context) (fd g : ℕ) → IsUntracked c fd → IsCounted c g → IsCounted (landed c fd) g
landed-untracked c fd g u (inl x) = inl x
landed-untracked c fd g u (inr x) = elim (Bool-cases (g == fd)) [
  | inl e ↦ inl (subst (λ h. IsUntracked c h) (sym ((==_iff g fd).0 e)) u)
  | inr e ↦ inr (rw e x)
]

active_of : (s : FdState) (fd : ℕ) → is_of s fd ≡ true → s.active ≡ true
active_of s fd e = ground (arith, e)

pub add_pending-at :
    (c : Context) (fd i : ℕ)
    → IsFound c.fd_states fd i
    → state_at (add_pending c i) i
      ≡ record (state_at c i) { pending_count = (state_at c i).pending_count + 1 }
add_pending-at c fd i f = get_or-set_self c.fd_states i _ blank_state f.in_range

sync_if_due-IsCovered :
    (c : Context) (i now : ℕ) (works : Bool)
    → (state_at c i).active ≡ true
    → IsCovered c
    → IsCovered (sync_if_due c i now works)
sync_if_due-IsCovered c i now works a v =
    elim (Bool-cases (should_sync c.config now (state_at c i))) [
      | inl e ↦ rw e (flush_fd_state-IsCovered c i now works a v)
      | inr e ↦ rw e v
    ]

account_at-IsCovered :
    (c : Context) (fd now : ℕ) (works : Bool) (r : Context × Option ℕ)
    → 0 < c.in_flight fd
    → Got (landed c fd) fd r
    → IsCovered c
    → IsCovered (account_at fd now works r)
account_at-IsCovered c fd now works (c', none) n (e, u) v =
    subst (λ x. IsCovered (do_sync x fd works).0) (sym e)
      (record {
        syncs =
            ap (λ x. syncs_never x.durability) (do_sync-config (landed c fd) fd works) ∙ v.syncs;
        slots = ap length (do_sync-fd_states (landed c fd) fd works) ∙ v.slots;
        counted =
            λ g. counted-do_sync (landed c fd) fd g works (landed-untracked c fd g u (v.counted g));
      })
account_at-IsCovered c fd now works (c', some i) n got v =
    let (f, o, u, b, l, p, k) = got in
    let s = add_pending-at c' fd i f in
    sync_if_due-IsCovered (add_pending c' i) i now works
      (ap (λ x. x.active) s ∙ active_of (state_at c' i) fd f.is_it)
      (record {
        syncs = ap (λ x. syncs_never x.durability) o ∙ v.syncs;
        slots = length-set c'.fd_states i _ ∙ l ∙ v.slots;
        counted = λ g. counted-add_pending c c' fd i g n got (v.counted g);
      })

pub Got-IsCovered : (c c' : Context) (fd i : ℕ) → Got c fd (c', some i) → IsCovered c → IsCovered c'
Got-IsCovered c c' fd i (f, o, u, b, l, p, k) v = record {
  syncs = ap (λ x. syncs_never x.durability) o ∙ v.syncs;
  slots = l ∙ v.slots;
  counted = λ g. elim (v.counted g) [
    | inl x ↦ inl (k g x)
    | inr x ↦ inr (omega (arith, p g, ap (λ x. x g) u, ap (λ x. x g) b))
  ];
}

flush_at-IsCovered :
    (c : Context) (fd now : ℕ) (works : Bool) (r : Context × Option ℕ)
    → Got c fd r
    → IsCovered c
    → IsCovered (flush_at now works r).0
flush_at-IsCovered c fd now works (c', none) (e, u) v = subst IsCovered (sym e) v
flush_at-IsCovered c fd now works (c', some i) (f, o, u, b, l, p, k) v =
    let w = Got-IsCovered c c' fd i (f, o, u, b, l, p, k) v in
    flush_fd_state-IsCovered (record c' { explicit_flushes = c'.explicit_flushes + 1 }) i now works
      (active_of (state_at c' i) fd f.is_it)
      (record { syncs = w.syncs; slots = w.slots; counted = w.counted })

flush_slot-IsCovered :
    (c : Context) (i now : ℕ) (works : Bool) → IsCovered c → IsCovered (flush_slot c i now works).0
unfolding flush_slot
flush_slot-IsCovered c i now works v = elim (Bool-cases (state_at c i).active) [
  | inl e ↦ rw e (flush_fd_state-IsCovered c i now works e v)
  | inr e ↦ rw e v
]

-- Every step keeps it that each file with a state has no more unsynced writes than its state counts and are in
-- flight, where the durability asks for syncs, whether or not the system calls succeed.
step-IsCovered :
    {may_fail : Bool} {c c' : Context} → Action may_fail c c' → IsCovered c → IsCovered c'
unfolding os_write account flush_fd
step-IsCovered (wrote {c} fd count) v = record {
  syncs = v.syncs;
  slots = v.slots;
  counted = λ g. counted-os_write c fd count g (v.counted g);
}
step-IsCovered (accounted {c} fd now works n w) v =
    account_at-IsCovered c fd now works _ n (get_fd_state-Got (landed c fd) fd now) v
step-IsCovered (flushed {c} fd now works w) v =
    flush_at-IsCovered c fd now works _ (get_fd_state-Got c fd now) v
step-IsCovered (flushed_slot {c} i now works w) v = flush_slot-IsCovered c i now works v

init-IsCovered : (config : Config) → syncs_never config.durability ≡ false → IsCovered (init config)
unfolding init
init-IsCovered config h = record {
  syncs = h;
  slots = length-replicate 256 blank_state;
  counted = λ g. inr (omega arith);
}

pub runs-keep : {may_fail : Bool} (c c' : Context) → Runs may_fail c c' → IsCovered c → IsCovered c'
runs-keep c c' here v = v
runs-keep c c' (then_step {c' = d} r s) v = step-IsCovered s (runs-keep c d r v)

pub runs-IsCovered :
    {may_fail : Bool} (config : Config) (c : Context)
    → syncs_never config.durability ≡ false
    → Runs may_fail (init config) c
    → IsCovered c
runs-IsCovered config c h r = runs-keep (init config) c r (init-IsCovered config h)
