-- ===== src/GroupCommit/FlushAll.antt =====
-- What the flush of all files in src/storage/group_commit.c promises, beside which other threads go on.
use buckets.Prelude.{
  ℕ, zero, suc, if◌then◌else◌, ◌+◌, ◌<◌, ◌≤◌, ◌≡◌, refl, sym, ap, ◌∙◌, subst, Bool, true, false,
  List, [], ◌∷◌, inl, inr, Option, none, some, set, ◌==◌, ◌&&◌, ◌||◌, Bool-cases, Option-cases,
  arith, ℕ_discrete,
}
use buckets.GroupCommit.{
  Config, FdState, Context, init, new_state, syncs_never, find_state, free_state, get_fd_state,
  state_at, should_sync, add_pending, sync_if_due, account_at, account, os_write, flush_fd_state,
  flush_at, flush_fd, flush_slot, flush_from, flush_all,
}
use buckets.GroupCommit.Slots.{is_of, at, IsUnused, free_state-IsUnused, find_state-IsFound}
use buckets.GroupCommit.Tracking.{
  IsCovered, recount, flush_fd_state-cases, landed, Got, get_fd_state-Got,
}
use buckets.GroupCommit.Runs.{
  Action, wrote, accounted, flushed, flushed_slot, Runs, here, then_step, do_sync-fd_states,
  runs-keep, runs-IsCovered,
}
use buckets.GroupCommit.Flushes.{flush_fd_state-IsDurable}

find_state-set :
    (ss : List FdState) (i : ℕ) (s : FdState) (fd : ℕ)
    → is_of (at ss i) fd ≡ is_of s fd
    → find_state (set ss i s) fd ≡ find_state ss fd
unfolding find_state
find_state-set [] i s fd h = refl
find_state-set (x ∷ ss) zero s fd h = rw h refl
find_state-set (x ∷ ss) (suc i) s fd h = rw (find_state-set ss i s fd h) refl

-- The state of a file stands at the same place afterwards.
abbrev Stays : ℕ → ℕ → Context → Context → Type 0
Stays fd j c c' = find_state c.fd_states fd ≡ some j → find_state c'.fd_states fd ≡ some j

allocate-Stays :
    (ss : List FdState) (fd g j i now : ℕ)
    → find_state ss g ≡ none
    → IsUnused ss i
    → find_state ss fd ≡ some j
    → find_state (set ss i (new_state g now)) fd ≡ some j
allocate-Stays ss fd g j i now none_yet u h =
    let apart : (g == fd) ≡ false = elim (Bool-cases (g == fd)) [
      | inr e ↦ e
      | inl e ↦
          let same : g ≡ fd = ground (arith, e) in
          absurd (differ j (sym (ap (find_state ss) same ∙ h) ∙ none_yet))
    ] in
    find_state-set ss i (new_state g now) fd (rw (u.unused, apart) refl) ∙ h
  where
    differ : (j : ℕ) → some j ≡ none → ⊥
    differ j e = cc

get_fd_state-Stays : (c : Context) (g now fd j : ℕ) → Stays fd j c (get_fd_state c g now).0
unfolding get_fd_state
get_fd_state-Stays c g now fd j h = elim (Option-cases (find_state c.fd_states g)) [
  | inr (i, e) ↦ rw e h
  | inl e ↦ elim (Option-cases (free_state c.fd_states)) [
    | inl f ↦ rw (e, f) h
    | inr (i, f) ↦
        rw (e, f)
          (allocate-Stays c.fd_states fd g j i now e (free_state-IsUnused c.fd_states i f) h)
  ]
]

flush_fd_state-Stays :
    (c : Context) (i now fd j : ℕ) (works : Bool)
    → syncs_never c.config.durability ≡ false
    → Stays fd j c (flush_fd_state c i now works).0
flush_fd_state-Stays c i now fd j works s h = elim (flush_fd_state-cases c i now works s) [
  | inl (e, r) ↦ subst (λ x. find_state x.0.fd_states fd ≡ some j) (sym r) h
  | inr (inl (e, r)) ↦ subst (λ x. find_state x.0.fd_states fd ≡ some j) (sym r) h
  | inr (inr r) ↦
      subst (λ x. find_state x.0.fd_states fd ≡ some j) (sym r)
        (find_state-set c.fd_states i (recount c i 0 now) fd refl ∙ h)
]

flush_slot-Stays :
    (c : Context) (i now fd j : ℕ) (works : Bool)
    → syncs_never c.config.durability ≡ false
    → Stays fd j c (flush_slot c i now works).0
unfolding flush_slot
flush_slot-Stays c i now fd j works s h = elim (Bool-cases (state_at c i).active) [
  | inl e ↦ rw e (flush_fd_state-Stays c i now fd j works s h)
  | inr e ↦ rw e h
]

sync_if_due-Stays :
    (c : Context) (i now fd j : ℕ) (works : Bool)
    → syncs_never c.config.durability ≡ false
    → Stays fd j c (sync_if_due c i now works)
sync_if_due-Stays c i now fd j works s h =
    elim (Bool-cases (should_sync c.config now (state_at c i))) [
      | inl e ↦ rw e (flush_fd_state-Stays c i now fd j works s h)
      | inr e ↦ rw e h
    ]

account_at-Stays :
    (c : Context) (g now fd j : ℕ) (works : Bool) (r : Context × Option ℕ)
    → Got c g r
    → syncs_never c.config.durability ≡ false
    → Stays fd j c r.0
    → Stays fd j c (account_at g now works r)
account_at-Stays c g now fd j works (c', none) got s k h =
    ap (λ x. find_state x fd) (do_sync-fd_states c' g works) ∙ k h
account_at-Stays c g now fd j works (c', some i) (f, o, u, b, l, p, q) s k h =
    sync_if_due-Stays (add_pending c' i) i now fd j works (ap (λ x. syncs_never x.durability) o ∙ s)
      (find_state-set c'.fd_states i _ fd refl ∙ k h)

flush_at-Stays :
    (c : Context) (g now fd j : ℕ) (works : Bool) (r : Context × Option ℕ)
    → Got c g r
    → syncs_never c.config.durability ≡ false
    → Stays fd j c r.0
    → Stays fd j c (flush_at now works r).0
flush_at-Stays c g now fd j works (c', none) got s k h = k h
flush_at-Stays c g now fd j works (c', some i) (f, o, u, b, l, p, q) s k h =
    flush_fd_state-Stays (record c' { explicit_flushes = c'.explicit_flushes + 1 }) i now fd j works
      (ap (λ x. syncs_never x.durability) o ∙ s) (k h)

step-Stays : {c c' : Context} (fd j : ℕ) → Action true c c' → IsCovered c → Stays fd j c c'
unfolding os_write account flush_fd
step-Stays fd j (wrote {c} g count) v h = h
step-Stays fd j (accounted {c} g now works n w) v h =
    account_at-Stays (landed c g) g now fd j works _ (get_fd_state-Got (landed c g) g now) v.syncs
      (get_fd_state-Stays (landed c g) g now fd j) h
step-Stays fd j (flushed {c} g now works w) v h =
    flush_at-Stays c g now fd j works _ (get_fd_state-Got c g now) v.syncs
      (get_fd_state-Stays c g now fd j) h
step-Stays fd j (flushed_slot {c} i now works w) v h = flush_slot-Stays c i now fd j works v.syncs h

runs-Stays : (c c' : Context) (fd j : ℕ) → Runs true c c' → IsCovered c → Stays fd j c c'
runs-Stays c _ fd j here v h = h
runs-Stays c _ fd j (then_step {c' = d} r s) v h =
    step-Stays fd j s (runs-keep c d r v) (runs-Stays c d fd j r v h)

runs_trans : (c d e : Context) → Runs true c d → Runs true d e → Runs true c e
runs_trans c d _ r here = r
runs_trans c d _ r (then_step {c' = x} q s) = then_step (runs_trans c d x r q) s

allowed : (b : Bool) → (b || true) ≡ true
allowed b = ground arith

both_true : (a b : Bool) → (a && b) ≡ true → (a ≡ true) × (b ≡ true)
both_true true b h = (refl, h)
both_true false b h = cc

module _ (others : ℕ → Context → Context) (run : (k : ℕ) (d : Context) → Runs true d (others k d))
    (now : ℕ) (works : ℕ → Bool) where
  slot-Runs : (c : Context) (i : ℕ) → Runs true c (others i (flush_slot c i now (works i)).0)
  slot-Runs c i =
      runs_trans c (flush_slot c i now (works i)).0 _
        (then_step here (flushed_slot i now (works i) (allowed (works i))))
        (run i (flush_slot c i now (works i)).0)

  flush_from-Runs :
      (c : Context) (i left : ℕ) → Runs true c (flush_from others c now works i left).0
  unfolding flush_from
  flush_from-Runs c i zero = here
  flush_from-Runs c i (suc left) =
      let next = others i (flush_slot c i now (works i)).0 in
      runs_trans c next _ (slot-Runs c i) (flush_from-Runs next (i + 1) left)

  -- The moment at which the state of a file has been flushed.
  Clean : ℕ → Context → Context → Type 0
  Clean fd c c' = (d : Context) × Runs true c d × Runs true d c' × (d.unsynced fd ≤ d.in_flight fd)

  slot_clean :
      (c : Context) (fd i : ℕ)
      → IsCovered c
      → find_state c.fd_states fd ≡ some i
      → (flush_slot c i now (works i)).1 ≡ true
      → (flush_slot c i now (works i)).0.unsynced fd ≤ (flush_slot c i now (works i)).0.in_flight fd
  unfolding flush_slot
  slot_clean c fd i v h ok =
      let f = find_state-IsFound c.fd_states fd i h in
      let on : (state_at c i).active ≡ true = ground (arith, f.is_it) in
      let same : (if (state_at c i).active then flush_fd_state c i now (works i) else (c, true))
          ≡ flush_fd_state c i now (works i) =
        rw on refl in
      subst (λ r. r.0.unsynced fd ≤ r.0.in_flight fd) (sym same)
        (flush_fd_state-IsDurable c fd i now (works i) f v (sym (ap (λ r. r.1) same) ∙ ok))

  flush_from-Clean :
      (c : Context) (fd i left j : ℕ)
      → IsCovered c
      → find_state c.fd_states fd ≡ some j
      → i ≤ j
      → j < i + left
      → (flush_from others c now works i left).1 ≡ true
      → Clean fd c (flush_from others c now works i left).0
  unfolding flush_from Clean
  flush_from-Clean c fd i zero j v h l k ok = absurd (omega arith)
  flush_from-Clean c fd i (suc left) j v h l k ok =
      let r = flush_slot c i now (works i) in
      let next = others i r.0 in
      let both = both_true r.1 (flush_from others next now works (i + 1) left).1 ok in
      elim (ℕ_discrete i j) [
        | yes e ↦ (
          r.0,
          then_step here (flushed_slot i now (works i) (allowed (works i))),
          runs_trans r.0 next _ (run i r.0) (flush_from-Runs next (i + 1) left),
          slot_clean c fd i v (h ∙ ap some (sym e)) both.0,
        )
        | no e ↦
            let w = slot-Runs c i in
            let (d, before, after, clean) =
              flush_from-Clean next fd (i + 1) left j (runs-keep c next w v)
                (runs-Stays c next fd j w v h) (omega arith) (omega arith) both.1 in
            (d, runs_trans c next d w before, after, clean)
      ]

-- After any run, where the durability asks for syncs: if the flush of all files returns success, with any steps of other threads
-- between the states that it locks one at a time, then for each file that had a state when it began there was a moment of the
-- flush at which the file had no unsynced write but those whose call had not returned.
pub flush_all_clean :
    (others : ℕ → Context → Context) (config : Config) (c : Context) (fd now j : ℕ)
    (works : ℕ → Bool)
    → syncs_never config.durability ≡ false
    → Runs true (init config) c
    → ((k : ℕ) (d : Context) → Runs true d (others k d))
    → find_state c.fd_states fd ≡ some j
    → (flush_all others c now works).1 ≡ true
    → (d : Context) × Runs true c d
      × Runs true d (flush_all others c now works).0
      × (d.unsynced fd ≤ d.in_flight fd)
unfolding Clean
flush_all_clean others config c fd now j works s r run h ok =
    let v = runs-IsCovered config c s r in
    let f = find_state-IsFound c.fd_states fd j h in
    flush_from-Clean others run now works c fd 0 256 j v h (omega arith)
      (omega (arith, f.in_range, v.slots)) ok
