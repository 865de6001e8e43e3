-- ===== src/Manager/Changes.antt =====
-- What a change through src/cluster/topology_manager.c leaves in the cache and on the disks.
use buckets.Prelude.{
  ◌≤◌, ◌≡◌, refl, sym, ap, ◌∙◌, subst, ◌⊎◌, inl, inr, Bool, true, false, List, [], ◌∷◌, map, Option,
  none, some, length, if◌then◌else◌, Bool-cases, Option-cases,
}
use buckets.Prelude.Maybe.{some_injective}
use buckets.Status.{Error, invalid_arg, Result, ok, err}
use buckets.Text.{Bytes}
use buckets.Json.{Platform}
use buckets.Topology.{SetTopology, PoolTopology, ClusterTopology}
use buckets.Topology.Json.{topology_to_json}
use buckets.Topology.Quorum.{save_quorum, write_quorum}
use buckets.Topology.Durable.{Files, AreApart, holders, save_quorum_durable}
use buckets.Manager.{
  Cache, cache_get, cache_set, Manager, clone_set, clone_pool, clone_topology, get, with_cache,
  notify, cache_saved, persist_and_notify, refuse, save_changed, change_cached, change,
}

clone_sets : (xs : List SetTopology) → map clone_set xs ≡ xs
clone_sets [] = refl
clone_sets (x ∷ xs) = ap (◌∷◌ x) (clone_sets xs)

clone_pools : (xs : List PoolTopology) → map clone_pool xs ≡ xs
clone_pools [] = refl
clone_pools (x ∷ xs) =
    ap (λ sets. record x { sets = sets } ∷ map clone_pool xs) (clone_sets x.sets)
    ∙ ap (◌∷◌ x) (clone_pools xs)

-- A clone is the topology.
clone_topology_lem : (t : ClusterTopology) → clone_topology t ≡ t
clone_topology_lem t = ap (λ pools. record t { pools = pools }) (clone_pools t.pools)

Result-cases :
    (r : Result ClusterTopology)
    → ((t : ClusterTopology) × (r ≡ ok t)) ⊎ ((e : Error) × (r ≡ err e))
Result-cases (ok t) = inl (t, refl)
Result-cases (err e) = inr (e, refl)

cache_is_on : (c : Cache) (t : ClusterTopology) → cache_get c ≡ some t → c.initialized ≡ true
cache_is_on c t h = elim (Bool-cases c.initialized) [
  | inl on ↦ on
  | inr off ↦ absurd (none_there (ap (λ b. if b then c.topology else none) (sym off) ∙ h))
]
  where
    none_there : none ≡ some t → ⊥
    none_there h = cc

module _ {J Disks : Type 0} (p : Platform J Disks) where
  -- The manager after a change to `t` that was saved, and after one that was not.
  abbrev pub changed : ClusterTopology → Manager Disks → Manager Disks
  changed t m = record m {
    disks = (save_quorum p m.disks m.disk_paths t).0;
    cache = record m.cache { topology = some t };
    notified = if m.has_callback then t ∷ m.notified else m.notified;
  }

  abbrev pub unsaved : ClusterTopology → Manager Disks → Manager Disks
  unsaved t m = record m { disks = (save_quorum p m.disks m.disk_paths t).0 }

  notify_lem :
      (t : ClusterTopology) (m : Manager Disks)
      → notify p t (m, none)
        ≡ (record m { notified = if m.has_callback then t ∷ m.notified else m.notified }, none)
  notify_lem t m =
      elim m.has_callback
        as (λ b.
          ((if b then record m { notified = t ∷ m.notified } else m), none)
          ≡ (record m { notified = if b then t ∷ m.notified else m.notified }, none)) [
            | true ↦ refl
            | false ↦ refl
          ]

  persist_and_notify-saved :
      (t : ClusterTopology) (m : Manager Disks)
      → m.cache.initialized ≡ true
      → (save_quorum p m.disks m.disk_paths t).1 ≡ none
      → persist_and_notify p t m ≡ (changed t m, none)
  unfolding persist_and_notify
  persist_and_notify-saved t m there saved =
      let m1 : Manager Disks = record m { disks = (save_quorum p m.disks m.disk_paths t).0 } in
      let cached : cache_set m.cache (clone_topology t)
          ≡ (record m.cache { topology = some t }, none) =
        rw (there, clone_topology_lem t) refl in
      ap (λ r. cache_saved p t (m1, r)) saved
      ∙ ap (λ c. notify p t (with_cache p m1 c)) cached
      ∙ notify_lem t (record m1 { cache = record m.cache { topology = some t } })

  persist_and_notify-unsaved :
      (t : ClusterTopology) (m : Manager Disks) (e : Error)
      → (save_quorum p m.disks m.disk_paths t).1 ≡ some e
      → persist_and_notify p t m ≡ (unsaved t m, some e)
  unfolding persist_and_notify
  persist_and_notify-unsaved t m e failed =
      ap (λ r. cache_saved p t (record m { disks = (save_quorum p m.disks m.disk_paths t).0 }, r))
        failed

  -- A change through the manager has one of three outcomes. It is refused and leaves everything as it is; or the changed
  -- topology is not saved on a quorum of the disks, and the cache and the callback do not see it; or it is saved, cached and handed
  -- to the callback, if there is one.
  pub change_lem :
      (modify : ClusterTopology → Result ClusterTopology) (m : Manager Disks)
      → ((e : Error) × (change p modify m ≡ (m, some e)))
        ⊎ ((cached : ClusterTopology) × (t : ClusterTopology) × (get p m ≡ some cached)
            × (modify cached ≡ ok t)
            × (((e : Error) × ((save_quorum p m.disks m.disk_paths t).1 ≡ some e)
                  × (change p modify m ≡ (unsaved t m, some e)))
                ⊎ (((save_quorum p m.disks m.disk_paths t).1 ≡ none)
                    × (change p modify m ≡ (changed t m, none))
                    × (get p (changed t m) ≡ some t))))
  unfolding change get
  change_lem modify m = elim (Bool-cases m.initialized) [
    | inr off ↦ inl (invalid_arg, ap whether off)
    | inl on ↦ elim (Option-cases (cache_get m.cache)) [
      | inl nothing ↦ inl (invalid_arg, ap whether on ∙ ap (change_cached p modify m) nothing)
      | inr (cached, at) ↦
          let started =
            ap whether on
            ∙ ap (change_cached p modify m) at
            ∙ ap (λ t. save_changed p m (modify t)) (clone_topology_lem cached) in
          elim (Result-cases (modify cached)) [
            | inr (e, refused) ↦ inl (e, started ∙ ap (save_changed p m) refused)
            | inl (t, done) ↦ inr (
              cached,
              t,
              ap seen on ∙ at,
              done,
              elim (Option-cases (save_quorum p m.disks m.disk_paths t).1) [
                | inl saved ↦ inr (
                  saved,
                  started
                      ∙ ap (save_changed p m) done
                      ∙ persist_and_notify-saved t m (cache_is_on m.cache cached at) saved,
                  ap (λ b. if b then (if m.cache.initialized then some t else none) else none) on
                      ∙ ap (λ b. if b then some t else none) (cache_is_on m.cache cached at),
                )
                | inr (e, failed) ↦ inl (
                  e,
                  failed,
                  started ∙ ap (save_changed p m) done ∙ persist_and_notify-unsaved t m e failed,
                )
              ],
            )
          ]
    ]
  ]
    where
      whether : Bool → Manager Disks × Option Error
      whether b = if b then change_cached p modify m (cache_get m.cache) else refuse p m invalid_arg

      seen : Bool → Option ClusterTopology
      seen b = if b then cache_get m.cache else none

  -- After a change that succeeds, the topology that the manager gives out is on at least a write quorum of the disks.
  pub change_durable :
      (files : Files p) (modify : ClusterTopology → Result ClusterTopology) (m m' : Manager Disks)
      (t : ClusterTopology) (text : Bytes)
      → AreApart m.disk_paths
      → change p modify m ≡ (m', none)
      → get p m' ≡ some t
      → p.print (topology_to_json p t) ≡ some text
      → write_quorum (length m.disk_paths) ≤ holders p text m'.disks m.disk_paths
  change_durable files modify m m' t text apart done now printed = elim (change_lem modify m) [
    | inl (e, refused) ↦ absurd (failed e (ap (λ r. r.1) (sym refused ∙ done)))
    | inr (cached, u, before, made, inl (e, bad, unsaved_lem)) ↦
        absurd (failed e (ap (λ r. r.1) (sym unsaved_lem ∙ done)))
    | inr (cached, u, before, made, inr (good, saved, seen)) ↦
        let same_manager : changed u m ≡ m' = ap (λ r. r.0) (sym saved ∙ done) in
        let same : u ≡ t = some_injective u t (sym seen ∙ ap (get p) same_manager ∙ now) in
        subst (λ n. write_quorum (length m.disk_paths) ≤ holders p text n.disks m.disk_paths)
          same_manager
          (save_quorum_durable p files u text
            (ap (λ k. p.print (topology_to_json p k)) same ∙ printed) m.disks
            (save_quorum p m.disks m.disk_paths u).0 m.disk_paths apart
            (ap (λ r. ((save_quorum p m.disks m.disk_paths u).0, r)) good))
  ]
    where
      failed : (e : Error) → some e ≡ none → ⊥
      failed e h = cc
