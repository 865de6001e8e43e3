-- ===== src/Manager/Drain.antt =====
-- Draining a set: the topology manager, src/cluster/topology_manager.c, and the migration scan, src/migration/scanner.c.
use buckets.Prelude.{◌≡◌, sym, ap, ◌∙◌, subst, inl, inr, List, [], none, some}
use buckets.Prelude.Maybe.{some_injective}
use buckets.Prelude.Int.{ℤ}
use buckets.Status.{Error, ok, invalid_arg, ok_injective, err-ok}
use buckets.Circle.{Qsort}
use buckets.Ring.{Vnode, Ring}
use buckets.Json.{Platform}
use buckets.Topology.{SetState, ClusterTopology, set_state, mark_set_draining}
use buckets.Topology.States.{Moves, set_state_lem}
use buckets.Scanner.{Task, Entries, topology_to_ring, scan}
use buckets.Scanner.Listing.{scan-set_state}
use buckets.Manager.{Manager, get, manager_mark_set_draining}
use buckets.Manager.Changes.{change_lem}

set_state-Moves :
    (t t' : ClusterTopology) (pool_idx set_idx : ℤ) (new_state : SetState)
    → set_state t pool_idx set_idx new_state ≡ ok t'
    → Moves t pool_idx set_idx new_state t'
set_state-Moves t t' pool_idx set_idx new_state h =
    elim (set_state_lem t pool_idx set_idx new_state) [
      | inl (absent, refused) ↦ absurd (err-ok {e = invalid_arg} {a = t'} (sym refused ∙ h))
      | inr (u, done, moves, generation) ↦
          subst (Moves t pool_idx set_idx new_state) (ok_injective u t' (sym done ∙ h)) moves
    ]

-- When the manager has marked a set as draining, the topology in force has the set draining, with its disks as they were, and
-- every other set, with its disks and its state, as it was; a scan between the topologies before and after, whatever the disks hold,
-- lists nothing to migrate: the objects of a draining set stay on it.
pub drained_stays :
    {J Disks : Type 0} (p : Platform J Disks) (qsort : Qsort Vnode.hash) (by_size : Qsort Task.size)
    (pool_idx set_idx : ℤ) (m m' : Manager Disks) (t : ClusterTopology) (r : Ring)
    (disks : List Entries)
    → get p m ≡ some t
    → topology_to_ring qsort t ≡ some r
    → manager_mark_set_draining p pool_idx set_idx m ≡ (m', none)
    → (t' : ClusterTopology) × (get p m' ≡ some t')
      × Moves t pool_idx set_idx SetState.draining t'
      × (scan qsort by_size t t' disks ≡ some [])
unfolding manager_mark_set_draining mark_set_draining
drained_stays p qsort by_size pool_idx set_idx m m' t r disks before ring done =
    elim (change_lem p (λ u. mark_set_draining u pool_idx set_idx) m) [
      | inl (e, refused) ↦ absurd (failed e (ap (λ r. r.1) (sym refused ∙ done)))
      | inr (cached, t', at, marked, inl (e, bad, unsaved)) ↦
          absurd (failed e (ap (λ r. r.1) (sym unsaved ∙ done)))
      | inr (cached, t', at, marked, inr (good, saved, seen)) ↦
          let same : cached ≡ t = some_injective cached t (sym at ∙ before) in
          let set_there : set_state t pool_idx set_idx SetState.draining ≡ ok t' =
            ap (λ u. set_state u pool_idx set_idx SetState.draining) (sym same) ∙ marked in
          (
            t',
            ap (get p) (sym (ap (λ r. r.0) (sym saved ∙ done))) ∙ seen,
            set_state-Moves t t' pool_idx set_idx SetState.draining set_there,
            scan-set_state qsort by_size t t' pool_idx set_idx SetState.draining r disks set_there
                ring,
          )
    ]
  where
    failed : (e : Error) → some e ≡ none → ⊥
    failed e h = cc
