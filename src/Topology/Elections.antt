-- ===== src/Topology/Elections.antt =====
-- What `buckets_topology_load_quorum` of src/cluster/topology.c returns, in terms of what the disks hold.
use buckets.Prelude.{
  ℕ, suc, ◌+◌, ◌≤◌, ◌<◌, ◌≡◌, refl, sym, ◌∙◌, inl, inr, false, List, [], ◌∷◌, Option, none, some,
  length, ◌==◌, if◌then◌else◌, arith, Bool-cases, ==_iff, subst, Option-cases,
}
use buckets.Prelude.Maybe.{some_of_bind}
use buckets.Text.{Bytes}
use buckets.Topology.{ClusterTopology}
use buckets.Json.{Platform}
use buckets.Topology.Json.{load}
use buckets.Topology.Quorum.{
  read_quorum, Vote, Ballot, elected, open_with, cast, content_hash, opinion, collect, load_quorum,
}
use buckets.Topology.Votes.{tally, IsFair, cast-IsFair, AreVouched, IsVouched, cast-IsVouched}

pub read_quorum-pos : (n : ℕ) → 0 < read_quorum n
read_quorum-pos n = ground arith

module _ {J Disks : Type 0} (p : Platform J Disks) (disks : Disks) where
  -- How many of the disks hold a topology with this hash.
  unfoldable pub supporters : ℕ → List (Option Bytes) → ℕ
  supporters hash [] = 0
  supporters hash (path ∷ paths) = elim (opinion p disks path) [
    | none ↦ supporters hash paths
    | some said ↦ if said.0 == hash then suc (supporters hash paths) else supporters hash paths
  ]

  abbrev pub HasHash : ℕ → ClusterTopology → Type 0
  HasHash hash t = content_hash p t ≡ some hash

  pub opinion-HasHash :
      (path : Option Bytes) (said : ℕ × ClusterTopology)
      → opinion p disks path ≡ some said
      → HasHash said.0 said.1
  unfolding opinion
  opinion-HasHash none said h = cc
  opinion-HasHash (some path) said h =
      let (t, loaded, rest) = some_of_bind (load p disks path) _ said h in
      let (hash, hashed, e) = some_of_bind (content_hash p t) _ said rest in cc

  after : ℕ → List (Option Bytes) → Ballot → Option ClusterTopology
  after needed paths (elected t) = some t
  after needed paths (open_with votes) = collect p disks needed votes paths

  collect-silent :
      (needed : ℕ) (votes : List Vote) (path : Option Bytes) (paths : List (Option Bytes))
      → opinion p disks path ≡ none
      → collect p disks needed votes (path ∷ paths) ≡ collect p disks needed votes paths
  unfolding collect
  collect-silent needed votes path paths e = rw (e, collect) refl

  collect-heard :
      (needed : ℕ) (votes : List Vote) (path : Option Bytes) (paths : List (Option Bytes))
      (said : ℕ × ClusterTopology)
      → opinion p disks path ≡ some said
      → collect p disks needed votes (path ∷ paths)
        ≡ after needed paths (cast needed votes said.0 said.1)
  unfolding collect after
  collect-heard needed votes path paths said e =
      rw (e, collect)
        (elim (cast needed votes said.0 said.1) [ elected t ↦ refl | open_with votes' ↦ refl ])

  supporters-silent :
      (hash : ℕ) (path : Option Bytes) (paths : List (Option Bytes))
      → opinion p disks path ≡ none
      → supporters hash (path ∷ paths) ≡ supporters hash paths
  unfolding supporters
  supporters-silent hash path paths e = rw (e, supporters) refl

  supporters-heard :
      (hash : ℕ) (path : Option Bytes) (paths : List (Option Bytes)) (said : ℕ × ClusterTopology)
      → opinion p disks path ≡ some said
      → supporters hash (path ∷ paths)
        ≡ (if said.0 == hash then suc (supporters hash paths) else supporters hash paths)
  unfolding supporters
  supporters-heard hash path paths said e = rw (e, supporters) refl

  supporters-same :
      (path : Option Bytes) (paths : List (Option Bytes)) (said : ℕ × ClusterTopology)
      → opinion p disks path ≡ some said
      → supporters said.0 (path ∷ paths) ≡ suc (supporters said.0 paths)
  supporters-same path paths said heard =
      rw (supporters-heard said.0 path paths said heard, (==_iff said.0 said.0).1 refl) refl

  supporters-other :
      (hash : ℕ) (path : Option Bytes) (paths : List (Option Bytes)) (said : ℕ × ClusterTopology)
      → opinion p disks path ≡ some said
      → said.0 == hash ≡ false
      → supporters hash (path ∷ paths) ≡ supporters hash paths
  supporters-other hash path paths said heard differ =
      rw (supporters-heard hash path paths said heard, differ) refl

  -- One vote moves the tally as the disk moves the count of supporters.
  counted :
      (needed hash : ℕ) (votes votes' : List Vote) (path : Option Bytes)
      (paths : List (Option Bytes)) (said : ℕ × ClusterTopology)
      → opinion p disks path ≡ some said
      → IsFair needed votes said.0 said.1 (open_with votes')
      → tally hash votes' + supporters hash paths
        ≡ tally hash votes + supporters hash (path ∷ paths)
  unfolding IsFair
  counted needed hash votes votes' path paths said heard (more, few, others) =
      elim (Bool-cases (said.0 == hash)) [
        | inl same ↦
            subst
              (λ h.
                tally h votes' + supporters h paths ≡ tally h votes + supporters h (path ∷ paths))
              ((==_iff said.0 hash).0 same)
              (omega (arith, more, supporters-same path paths said heard))
        | inr differ ↦ omega (
          arith,
          others hash (λ e. ground (arith, e, differ)),
          supporters-other hash path paths said heard differ,
        )
      ]

  IsBacked : ℕ → List Vote → List (Option Bytes) → ClusterTopology → Type 0
  IsBacked needed votes paths t =
      (hash : ℕ) × HasHash hash t × (needed ≤ tally hash votes + supporters hash paths)

  elects_after :
      (needed : ℕ) (votes : List Vote) (path : Option Bytes) (paths : List (Option Bytes))
      (t : ClusterTopology) (said : ℕ × ClusterTopology) (b : Ballot)
      → opinion p disks path ≡ some said
      → IsFair needed votes said.0 said.1 b
      → IsVouched HasHash said.0 b
      → after needed paths b ≡ some t
      → ((votes' : List Vote)
          → AreVouched HasHash votes'
          → collect p disks needed votes' paths ≡ some t
          → IsBacked needed votes' paths t)
      → IsBacked needed votes (path ∷ paths) t
  unfolding IsFair after IsBacked
  elects_after needed votes path paths t said (elected e) heard fair mine h rest =
      (said.0, cc, omega (arith, fair, supporters-same path paths said heard))
  elects_after needed votes path paths t said (open_with votes') heard fair vouched h rest =
      let (hash, held, enough) = rest votes' vouched h in
      (
        hash,
        held,
        omega (arith, enough, counted needed hash votes votes' path paths said heard fair),
      )

  collect_elects :
      (needed : ℕ) (votes : List Vote) (paths : List (Option Bytes)) (t : ClusterTopology)
      → AreVouched HasHash votes
      → collect p disks needed votes paths ≡ some t
      → IsBacked needed votes paths t
  unfolding collect IsBacked
  collect_elects needed votes [] t vouched h = cc
  collect_elects needed votes (path ∷ paths) t vouched h =
      elim (Option-cases (opinion p disks path)) [
        | inl silent ↦
            let (hash, held, enough) =
              collect_elects needed votes paths t vouched
                (sym (collect-silent needed votes path paths silent) ∙ h) in
            (hash, held, rw (supporters-silent hash path paths silent) enough)
        | inr (said, heard) ↦
            elects_after needed votes path paths t said (cast needed votes said.0 said.1) heard
              (cast-IsFair needed votes said.0 said.1)
              (cast-IsVouched HasHash needed votes said.0 said.1 vouched
                (opinion-HasHash path said heard))
              (sym (collect-heard needed votes path paths said heard) ∙ h)
              (λ votes' vouched' h'. collect_elects needed votes' paths t vouched' h')
      ]

  refuses_after :
      (needed : ℕ) (votes : List Vote) (path : Option Bytes) (paths : List (Option Bytes))
      (said : ℕ × ClusterTopology) (b : Ballot) (hash : ℕ)
      → opinion p disks path ≡ some said
      → ((h : ℕ) → tally h votes < needed)
      → IsFair needed votes said.0 said.1 b
      → after needed paths b ≡ none
      → ((votes' : List Vote)
          → ((h : ℕ) → tally h votes' < needed)
          → collect p disks needed votes' paths ≡ none
          → tally hash votes' + supporters hash paths < needed)
      → tally hash votes + supporters hash (path ∷ paths) < needed
  unfolding IsFair after
  refuses_after needed votes path paths said (elected e) hash heard few fair h rest = cc
  refuses_after needed votes path paths said (open_with votes') hash heard few fair h rest =
      omega
        (arith, rest votes' still h, counted needed hash votes votes' path paths said heard fair)
    where
      still : (h : ℕ) → tally h votes' < needed
      still h = elim (Bool-cases (said.0 == h)) [
        | inl same ↦ subst (λ h'. tally h' votes' < needed) ((==_iff said.0 h).0 same) fair.1
        | inr differ ↦ omega (arith, fair.2 h (λ e. ground (arith, e, differ)), few h)
      ]

  collect_refuses :
      (needed : ℕ) (votes : List Vote) (paths : List (Option Bytes)) (hash : ℕ)
      → ((h : ℕ) → tally h votes < needed)
      → collect p disks needed votes paths ≡ none
      → tally hash votes + supporters hash paths < needed
  unfolding supporters
  collect_refuses needed votes [] hash few h = omega (arith, few hash)
  collect_refuses needed votes (path ∷ paths) hash few h =
      elim (Option-cases (opinion p disks path)) [
        | inl silent ↦ omega (
          arith,
          supporters-silent hash path paths silent,
          collect_refuses needed votes paths hash few
              (sym (collect-silent needed votes path paths silent) ∙ h),
        )
        | inr (said, heard) ↦
            refuses_after needed votes path paths said (cast needed votes said.0 said.1) hash heard
              few (cast-IsFair needed votes said.0 said.1)
              (sym (collect-heard needed votes path paths said heard) ∙ h)
              (λ votes' few' h'. collect_refuses needed votes' paths hash few' h')
      ]

  -- A topology that `buckets_topology_load_quorum` returns has a content hash that at least a read
  -- quorum of the disks agree on.
  pub load_quorum_elects :
      (paths : List (Option Bytes)) (t : ClusterTopology)
      → load_quorum p disks paths ≡ some t
      → (hash : ℕ) × (content_hash p t ≡ some hash)
        × (read_quorum (length paths) ≤ supporters hash paths)
  unfolding load_quorum IsBacked tally
  load_quorum_elects [] t h = cc
  load_quorum_elects (path ∷ paths) t h =
      let (hash, held, enough) =
        collect_elects (read_quorum (length (path ∷ paths))) [] (path ∷ paths) t tt h in
      (hash, held, omega (arith, enough))

  -- When `buckets_topology_load_quorum` returns NULL, every content hash has fewer disks than a read
  -- quorum behind it.
  pub load_quorum_refuses :
      (paths : List (Option Bytes)) (hash : ℕ)
      → load_quorum p disks paths ≡ none
      → supporters hash paths < read_quorum (length paths)
  unfolding load_quorum supporters tally
  load_quorum_refuses [] hash h = omega arith
  load_quorum_refuses (path ∷ paths) hash h = omega (
    arith,
    collect_refuses (read_quorum (length (path ∷ paths))) [] (path ∷ paths) hash
        (λ h'. read_quorum-pos (length (path ∷ paths))) h,
  )
