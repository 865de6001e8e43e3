-- ===== src/Topology/Stale.antt =====
-- Reads of src/cluster/topology.c whose first disks agree.
use buckets.Prelude.{
  ℕ, ◌+◌, ◌≤◌, ◌<◌, ◌≡◌, refl, inl, inr, List, [], ◌∷◌, ◌++◌, Option, some, length, leb, arith,
  Bool-cases, ==_iff,
}
use buckets.Text.{Bytes}
use buckets.Topology.{ClusterTopology}
use buckets.Json.{Platform}
use buckets.Topology.Quorum.{read_quorum, Vote, cast, opinion, collect, load_quorum}
use buckets.Topology.Elections.{read_quorum-pos}

module _ {J Disks : Type 0} (p : Platform J Disks) (disks : Disks) where
  -- Every one of these disks holds the same topology.
  abbrev pub AllSay : ℕ → ClusterTopology → List (Option Bytes) → Type 0
  AllSay hash t [] = Unit {0}
  AllSay hash t (path ∷ paths) = (opinion p disks path ≡ some (hash, t)) × AllSay hash t paths

  entry : ℕ → ClusterTopology → ℕ → Vote
  entry hash t n = record { hash = hash; topology = t; count = n }

  -- With `n` votes counted and enough of the next disks saying the same, the topology is elected.
  elected_by :
      (needed n hash : ℕ) (t : ClusterTopology) (same rest : List (Option Bytes))
      → AllSay hash t same
      → n < needed
      → needed ≤ n + length same
      → collect p disks needed (entry hash t n ∷ []) (same ++ rest) ≡ some t
  unfolding collect cast entry
  elected_by needed n hash t [] rest say few enough = absurd (omega arith)
  elected_by needed n hash t (path ∷ paths) rest (says, say) few enough =
      elim (Bool-cases (leb needed (n + 1))) [
        | inl last ↦ rw (says, collect, (==_iff hash hash).1 refl, last) refl
        | inr more ↦
            rw (says, collect, (==_iff hash hash).1 refl, more)
              (elected_by needed (n + 1) hash t paths rest say (ground (arith, more)) (omega arith))
      ]

  -- When the first disks hold one topology, and they are as many as the read quorum, then
  -- `buckets_topology_load_quorum` returns it, whatever the disks after them hold. For an odd number
  -- of disks the others are enough for a write quorum, so a later write can have succeeded on all of
  -- them.
  pub load_quorum_stale :
      (hash : ℕ) (old : ClusterTopology) (first rest : List (Option Bytes))
      → AllSay hash old first
      → length first ≡ read_quorum (length (first ++ rest))
      → load_quorum p disks (first ++ rest) ≡ some old
  unfolding load_quorum collect cast entry
  load_quorum_stale hash old [] rest say few =
      absurd (omega (arith, few, read_quorum-pos (length rest)))
  load_quorum_stale hash old (path ∷ paths) rest (says, say) few =
      elim (Bool-cases (leb (read_quorum (length (path ∷ paths ++ rest))) 1)) [
        | inl one ↦ rw (says, collect, one) refl
        | inr more ↦
            rw (says, collect, more)
              (elected_by (read_quorum (length (path ∷ paths ++ rest))) 1 hash old paths rest say
                (ground (arith, more)) (omega (arith, few)))
      ]
