-- ===== src/GroupCommit/Flushes.antt =====
-- What the flush of a file in src/storage/group_commit.c promises.
use buckets.Prelude.{
  ℕ, ◌+◌, ◌≤◌, ◌≡◌, sym, subst, Bool, true, false, ◌⊎◌, inl, inr, Option, none, some, arith,
}
use buckets.GroupCommit.{Config, Context, init, syncs_never, flush_fd_state, flush_at, flush_fd}
use buckets.GroupCommit.Slots.{IsFound}
use buckets.GroupCommit.Tracking.{
  IsUntracked, IsCovered, flush_fd_state-cases, Got, get_fd_state-Got,
}
use buckets.GroupCommit.Runs.{Runs, runs-IsCovered, Got-IsCovered}

-- A result that, where it is a success, leaves nothing of the file to sync but what is in flight.
abbrev IsDurable : ℕ → Context × Bool → Type 0
IsDurable fd r = r.1 ≡ true → r.0.unsynced fd ≤ r.0.in_flight fd

pub flush_fd_state-IsDurable :
    (c : Context) (fd i now : ℕ) (works : Bool)
    → IsFound c.fd_states fd i
    → IsCovered c
    → IsDurable fd (flush_fd_state c i now works)
flush_fd_state-IsDurable c fd i now works f v = elim (flush_fd_state-cases c i now works v.syncs) [
  | inl (e, r) ↦ subst (IsDurable fd) (sym r) (λ _. elim (v.counted fd) [
    | inl (x, y) ↦ let t = f.tracked in cc
    | inr x ↦ omega (arith, f.counts)
  ])
  | inr (inl (e, r)) ↦ subst (IsDurable fd) (sym r) (λ x. cc)
  | inr (inr r) ↦ subst (IsDurable fd) (sym r) (λ _. ground (arith, f.is_it))
]

flush_at-IsDurable :
    (c : Context) (fd now : ℕ) (works : Bool) (r : Context × Option ℕ)
    → Got c fd r
    → IsCovered c
    → (flush_at now works r).1 ≡ true
    → IsUntracked c fd
      ⊎ ((flush_at now works r).0.unsynced fd ≤ (flush_at now works r).0.in_flight fd)
flush_at-IsDurable c fd now works (c', none) (e, u) v h = inl u
flush_at-IsDurable c fd now works (c', some i) (f, o, u, b, l, p, k) v h =
    let w = Got-IsCovered c c' fd i (f, o, u, b, l, p, k) v in
    let c'' = record c' { explicit_flushes = c'.explicit_flushes + 1 } in
    inr (
      flush_fd_state-IsDurable c'' fd i now works f
        (record { syncs = w.syncs; slots = w.slots; counted = w.counted }) h)

-- After any run, where the durability asks for syncs: if the flush of a file returns success, the file has no
-- unsynced write but those whose call has not returned, unless it has no state and no state was free.
pub flush_fd-durable :
    {may_fail : Bool} (config : Config) (c : Context) (fd now : ℕ) (works : Bool)
    → syncs_never config.durability ≡ false
    → Runs may_fail (init config) c
    → (flush_fd c fd now works).1 ≡ true
    → IsUntracked c fd
      ⊎ ((flush_fd c fd now works).0.unsynced fd ≤ (flush_fd c fd now works).0.in_flight fd)
unfolding flush_fd
flush_fd-durable config c fd now works h r ok =
    flush_at-IsDurable c fd now works _ (get_fd_state-Got c fd now) (runs-IsCovered config c h r) ok
