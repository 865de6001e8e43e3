-- ===== src/Scanner/Listing.antt =====
-- What `buckets_scanner_scan` of src/migration/scanner.c lists.
use mathlib.Core.List.Perm
use buckets.Prelude.{
  ℕ, zero, suc, ◌*◌, ◌≡◌, refl, sym, ap, ◌∙◌, List, [], ◌∷◌, none, some, length, length-append,
  replicate, arith, Bool-cases, inl, inr,
}
use buckets.Prelude.Perms.{length-perm}
use buckets.Prelude.Int.{ℤ, ℤ-cases}
use buckets.Status.{ok}
use buckets.Text.{Bytes}
use buckets.Circle.{Qsort}
use buckets.Ring.{Vnode, Ring, lookup}
use buckets.Topology.{SetState, ClusterTopology, set_state}
use buckets.Scanner.{
  topology_to_ring, Rings, Task, file, folder, Entries, nil, cons, object_key, needs_migration,
  scan_file, scan_directory, scan_disk, merged, scan, skipped, prefix_below,
}
use buckets.Scanner.Shape.{topology_to_ring-shape, set_state-SameShape}

abbrev pub both : Ring → Rings
both r = record { old_ring = r; new_ring = r }

module _ (r : Ring) where
  needs_migration-both : (bucket object : Bytes) → needs_migration (both r) bucket object ≡ none
  unfolding needs_migration
  needs_migration-both bucket object = elim (ℤ-cases (lookup r (object_key bucket object))) [
    | inl (n, e) ↦ rw (e, needs_migration) (ground arith)
    | inr (n, e) ↦ rw (e, needs_migration) refl
  ]

  scan_file-both :
      (bucket prefix name : Bytes) (size : ℕ) (mod_time : ℤ)
      → scan_file (both r) bucket prefix name size mod_time ≡ []
  unfolding scan_file
  scan_file-both bucket prefix name size mod_time =
      ground (arith, needs_migration-both bucket prefix)

  scan_directory-both :
      (bucket prefix : Bytes) (es : Entries) → scan_directory (both r) bucket prefix es ≡ []
  unfolding scan_directory
  scan_directory-both bucket prefix nil = refl
  scan_directory-both bucket prefix (cons (file name size mod_time) rest) =
      rw (scan_file-both bucket prefix name size mod_time) (scan_directory-both bucket prefix rest)
  scan_directory-both bucket prefix (cons (folder name sub) rest) =
      rw
        (
          scan_directory-both bucket prefix rest,
          scan_directory-both bucket (prefix_below prefix name) sub,
        )
        (elim (Bool-cases (skipped name)) [ inl e ↦ rw e refl | inr e ↦ rw e refl ])

  scan_disk-both : (es : Entries) → scan_disk (both r) es ≡ []
  unfolding scan_disk
  scan_disk-both nil = refl
  scan_disk-both (cons (file name size mod_time) rest) = scan_disk-both rest
  scan_disk-both (cons (folder bucket sub) rest) =
      rw (scan_disk-both rest, scan_directory-both bucket [] sub)
        (elim (Bool-cases (skipped bucket)) [ inl e ↦ rw e refl | inr e ↦ rw e refl ])

  merged-both : (disks : List Entries) → merged (both r) disks ≡ []
  unfolding merged
  merged-both [] = refl
  merged-both (disk ∷ disks) = rw (scan_disk-both disk) (merged-both disks)

module _ (qsort : Qsort Vnode.hash) (by_size : Qsort Task.size) where
  -- Between a topology and the one after a change of a set's state, the scan lists no object to migrate, whatever
  -- the disks hold and whatever the new state is, given that the topology has a ring.
  pub scan-set_state :
      (t t' : ClusterTopology) (p s : ℤ) (new_state : SetState) (r : Ring) (disks : List Entries)
      → set_state t p s new_state ≡ ok t'
      → topology_to_ring qsort t ≡ some r
      → scan qsort by_size t t' disks ≡ some []
  unfolding scan
  scan-set_state t t' p s new_state r disks changed ring =
      rw
        (
          sym (topology_to_ring-shape qsort t t' (set_state-SameShape t t' p s new_state changed)),
          ring,
          merged-both r disks,
        )
        (ap some (Perm.eq-nil (by_size.same [])))

  length-merged-replicate :
      (rs : Rings) (n : ℕ) (disk : Entries)
      → length (merged rs (replicate n disk)) ≡ n * length (scan_disk rs disk)
  unfolding merged
  length-merged-replicate rs zero disk = omega arith
  length-merged-replicate rs (suc n) disk = grind (
    arith,
    length-append (scan_disk rs disk) (merged rs (replicate n disk)),
    length-merged-replicate rs n disk,
  )

  -- On `n` disks that hold the same files, as the disks of a set do, the scan lists `n` times as many tasks as one
  -- disk has objects to migrate: each object is listed once for every disk.
  pub scan-replicate :
      (old new : ClusterTopology) (r r' : Ring) (n : ℕ) (disk : Entries)
      → topology_to_ring qsort old ≡ some r
      → topology_to_ring qsort new ≡ some r'
      → (tasks : List Task) × (scan qsort by_size old new (replicate n disk) ≡ some tasks)
        × (length tasks ≡ n * length (scan_disk (record { old_ring = r; new_ring = r' }) disk))
  unfolding scan
  scan-replicate old new r r' n disk e e' =
      let rs : Rings = record { old_ring = r; new_ring = r' } in
      let all = merged rs (replicate n disk) in
      (
        by_size.sort all,
        rw (e, e') refl,
        length-perm (by_size.sort all) all (by_size.same all) ∙ length-merged-replicate rs n disk,
      )
