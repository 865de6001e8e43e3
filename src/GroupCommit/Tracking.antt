-- ===== src/GroupCommit/Tracking.antt =====
-- No write of src/storage/group_commit.c is forgotten: what is not synced is counted.
use buckets.Prelude.{
  ℕ, ◌+◌, ◌-◌, ◌<◌, ◌≤◌, ◌≡◌, refl, sym, ap, ◌∙◌, subst, Bool, true, false, List, ◌⊎◌, inl, inr,
  Option, none, some, length, set, ◌==◌, Bool-cases, Option-cases, arith, get_or-set_self,
  length-set, ==_iff,
}
use buckets.GroupCommit.{
  FdState, Context, put_at, blank_state, new_state, find_state, free_state, get_fd_state,
  syncs_never, do_sync, state_at, flush_fd_state, os_write, add_pending,
}
use buckets.GroupCommit.Slots.{
  is_of, pending_of, has_state, has_free, at, IsFound, find_state-IsFound, find_state-none,
  free_state-none, IsUnused, free_state-IsUnused, pending_of-set, has_state-set, has_free-set,
  pending_of-none, new-IsFound,
}

-- A file is untracked where it has no state and no state is free.
abbrev pub IsUntracked : Context → ℕ → Type 0
IsUntracked c fd = (has_state c.fd_states fd ≡ false) × (has_free c.fd_states ≡ false)

-- The writes of a file that are not synced are those its state counts and those in flight.
abbrev pub IsCounted : Context → ℕ → Type 0
IsCounted c fd = IsUntracked c fd ⊎ (c.unsynced fd ≤ pending_of c.fd_states fd + c.in_flight fd)

pub record IsCovered (c : Context) : Type 0 where
  pub syncs : syncs_never c.config.durability ≡ false
  pub slots : length c.fd_states ≡ 256
  pub counted : (fd : ℕ) → IsCounted c fd

pub counted-os_write :
    (c : Context) (fd count g : ℕ) → IsCounted c g → IsCounted (os_write c fd count) g
unfolding os_write
counted-os_write c fd count g (inl u) = inl u
counted-os_write c fd count g (inr h) = inr (ground (arith, h))

pub ==_comm : (a b : ℕ) → (a == b) ≡ (b == a)
==_comm a b = ground arith

pub is_of_fd : (s : FdState) (g : ℕ) → s.active ≡ true → is_of s g ≡ (s.fd == g)
is_of_fd s g e = rw e refl

pub same_file :
    (s s' : FdState) (g : ℕ) → s'.active ≡ s.active → s'.fd ≡ s.fd → is_of s g ≡ is_of s' g
same_file s s' g e f = rw (e, f) refl

-- The state at an index that is written back with another count stays the state of its file.
abbrev pub recount : Context → ℕ → ℕ → ℕ → FdState
recount c i n now = record (state_at c i) { pending_count = n; last_sync = now }

abbrev pub synced : Context → ℕ → ℕ → Context
synced c i now = record c {
  unsynced = put_at c.unsynced (state_at c i).fd 0;
  fd_states = set c.fd_states i (recount c i 0 now);
  total_syncs = c.total_syncs + 1;
  batched_syncs = c.batched_syncs + 1;
}

-- What `flush_fd_state` does where the durability asks for syncs.
pub flush_fd_state-cases :
    (c : Context) (i now : ℕ) (works : Bool)
    → syncs_never c.config.durability ≡ false
    → (((state_at c i).pending_count ≡ 0) × (flush_fd_state c i now works ≡ (c, true)))
      ⊎ (((works ≡ false) × (flush_fd_state c i now works ≡ (c, false)))
          ⊎ (flush_fd_state c i now works ≡ (synced c i now, true)))
unfolding flush_fd_state do_sync
flush_fd_state-cases c i now works h = elim (Bool-cases ((state_at c i).pending_count == 0)) [
  | inl e ↦ inl (ground (arith, e), rw e)
  | inr e ↦ elim (Bool-cases works) [
    | inl w ↦ inr (inr (rw (e, h, w) refl))
    | inr w ↦ inr (inl (w, rw (e, h, w) refl))
  ]
]

-- A table in which the state of one file has been written back.
pub table_kept :
    (c : Context) (i n now : ℕ)
    → (state_at c i).active ≡ true
    → has_free c.fd_states ≡ false
    → has_free (set c.fd_states i (recount c i n now)) ≡ false
table_kept c i n now a h = has_free-set c.fd_states i (recount c i n now) a h

pub counted-synced :
    (c : Context) (i now g : ℕ)
    → (state_at c i).active ≡ true
    → IsCounted c g
    → IsCounted (synced c i now) g
counted-synced c i now g a (inl (h, f)) =
    inl (has_state-set c.fd_states i (recount c i 0 now) g refl ∙ h, table_kept c i 0 now a f)
counted-synced c i now g a (inr h) = elim (Bool-cases (g == (state_at c i).fd)) [
  | inl e ↦ inr (rw e (omega arith))
  | inr e ↦
      let o = is_of_fd (state_at c i) g a ∙ ==_comm (state_at c i).fd g ∙ e in
      let p = pending_of-set c.fd_states i (recount c i 0 now) g o o in inr (rw (e, p) h)
]

-- What `get_fd_state` returns: the file's state in a context that counts as before, or none where it is untracked.
abbrev pub Got : Context → ℕ → Context × Option ℕ → Type 0
Got c fd (c', none) = (c' ≡ c) × IsUntracked c fd
Got c fd (c', some i) =
    IsFound c'.fd_states fd i
    × (c'.config ≡ c.config)
    × (c'.unsynced ≡ c.unsynced)
    × (c'.in_flight ≡ c.in_flight)
    × (length c'.fd_states ≡ length c.fd_states)
    × ((g : ℕ) → pending_of c'.fd_states g ≡ pending_of c.fd_states g)
    × ((g : ℕ) → IsUntracked c g → IsUntracked c' g)

pub pending_of-allocate :
    (ss : List FdState) (fd now i g : ℕ)
    → has_state ss fd ≡ false
    → IsUnused ss i
    → pending_of (set ss i (new_state fd now)) g ≡ pending_of ss g
pending_of-allocate ss fd now i g h u =
    let before : is_of (at ss i) g ≡ false = rw u.unused refl in
    elim (Bool-cases (fd == g)) [
      | inr e ↦ pending_of-set ss i (new_state fd now) g before e
      | inl e ↦
          subst (λ x. pending_of (set ss i (new_state fd now)) x ≡ pending_of ss x)
            ((==_iff fd g).0 e)
            ((new-IsFound ss fd i (new_state fd now) h u.in_range ((==_iff fd fd).1 refl)).counts
              ∙ ap (λ x. x.pending_count)
                  (get_or-set_self ss i (new_state fd now) blank_state u.in_range)
              ∙ sym (pending_of-none ss fd h))
    ]

pub get_fd_state-Got : (c : Context) (fd now : ℕ) → Got c fd (get_fd_state c fd now)
unfolding get_fd_state
get_fd_state-Got c fd now = elim (Option-cases (find_state c.fd_states fd)) [
  | inr (i, e) ↦
      rw e (find_state-IsFound c.fd_states fd i e, refl, refl, refl, refl, λ g. refl, λ g k. k)
  | inl e ↦
      let h = find_state-none c.fd_states fd e in
      elim (Option-cases (free_state c.fd_states)) [
        | inl f ↦ rw (e, f) (refl, (h, free_state-none c.fd_states f))
        | inr (i, f) ↦
            let u = free_state-IsUnused c.fd_states i f in
            rw (e, f)
              (
                new-IsFound c.fd_states fd i (new_state fd now) h u.in_range
                    ((==_iff fd fd).1 refl),
                refl,
                refl,
                refl,
                length-set c.fd_states i (new_state fd now),
                λ g. pending_of-allocate c.fd_states fd now i g h u,
                λ g k. let f = u.free in cc,
              )
      ]
]

pub flush_fd_state-IsCovered :
    (c : Context) (i now : ℕ) (works : Bool)
    → (state_at c i).active ≡ true
    → IsCovered c
    → IsCovered (flush_fd_state c i now works).0
flush_fd_state-IsCovered c i now works a v = elim (flush_fd_state-cases c i now works v.syncs) [
  | inl (e, r) ↦ subst (λ x. IsCovered x.0) (sym r) v
  | inr (inl (e, r)) ↦ subst (λ x. IsCovered x.0) (sym r) v
  | inr (inr r) ↦
      subst (λ x. IsCovered x.0) (sym r)
        (record {
          syncs = v.syncs;
          slots = length-set c.fd_states i (recount c i 0 now) ∙ v.slots;
          counted = λ g. counted-synced c i now g a (v.counted g);
        })
]

-- A write whose state is still to count it.
abbrev pub landed : Context → ℕ → Context
landed c fd = record c { in_flight = put_at c.in_flight fd (c.in_flight fd - 1) }

pub unsynced-landed :
    (c : Context) (fd : ℕ) → put_at c.in_flight fd (c.in_flight fd - 1) fd ≡ c.in_flight fd - 1
unsynced-landed c fd = ground arith

pub own-add_pending :
    (c c' : Context) (fd i : ℕ)
    → 0 < c.in_flight fd
    → Got (landed c fd) fd (c', some i)
    → c.unsynced fd ≤ pending_of c.fd_states fd + c.in_flight fd
    → c'.unsynced fd ≤ pending_of (add_pending c' i).fd_states fd + c'.in_flight fd
own-add_pending c c' fd i n (f, _, u, b, _, p, _) h =
    let added =
      f.is_first (record (state_at c' i) { pending_count = (state_at c' i).pending_count + 1 })
        f.is_it in
    omega (arith, added, f.counts, p fd, ap (λ x. x fd) u, ap (λ x. x fd) b ∙ unsynced-landed c fd)

pub other-add_pending :
    (c c' : Context) (fd i g : ℕ)
    → (g == fd) ≡ false
    → Got (landed c fd) fd (c', some i)
    → c.unsynced g ≤ pending_of c.fd_states g + c.in_flight g
    → c'.unsynced g ≤ pending_of (add_pending c' i).fd_states g + c'.in_flight g
other-add_pending c c' fd i g e (f, _, u, b, _, p, _) h =
    let s = record (state_at c' i) { pending_count = (state_at c' i).pending_count + 1 } in
    let a : is_of (state_at c' i) g ≡ false = ground (arith, f.is_it, e) in
    let flown : c'.in_flight g ≡ c.in_flight g = ap (λ x. x g) b ∙ rw e refl in
    omega (arith, pending_of-set c'.fd_states i s g a a, p g, ap (λ x. x g) u, flown)

pub counted-add_pending :
    (c c' : Context) (fd i g : ℕ)
    → 0 < c.in_flight fd
    → Got (landed c fd) fd (c', some i)
    → IsCounted c g
    → IsCounted (add_pending c' i) g
counted-add_pending c c' fd i g n (f, _, u, b, _, p, k) (inl x) =
    let y = k g x in
    let s = record (state_at c' i) { pending_count = (state_at c' i).pending_count + 1 } in
    let a : (state_at c' i).active ≡ true = ground (arith, f.is_it) in
    inl (has_state-set c'.fd_states i s g refl ∙ y.0, has_free-set c'.fd_states i s a y.1)
counted-add_pending c c' fd i g n got (inr x) = elim (Bool-cases (g == fd)) [
  | inr e ↦ inr (other-add_pending c c' fd i g e got x)
  | inl e ↦
      let same = (==_iff g fd).0 e in
      inr (
        subst (λ h. c'.unsynced h ≤ pending_of (add_pending c' i).fd_states h + c'.in_flight h)
          (sym same)
          (own-add_pending c c' fd i n got
            (subst (λ h. c.unsynced h ≤ pending_of c.fd_states h + c.in_flight h) same x)))
]
