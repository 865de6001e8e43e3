-- ===== src/Topology/Votes.antt =====
-- The votes of `buckets_topology_load_quorum`, src/cluster/topology.c: which topology it elects.
use buckets.Prelude.{
  ℕ, ◌+◌, ◌≤◌, ◌<◌, ◌≡◌, ◌≢◌, refl, inl, inr, true, false, List, [], ◌∷◌, leb, ◌==◌, if◌then◌else◌,
  arith, Bool-cases, subst, ==_iff,
}
use buckets.Topology.{ClusterTopology}
use buckets.Topology.Quorum.{Vote, Ballot, elected, open_with, behind, cast}

-- The votes counted for a hash so far.
unfoldable pub tally : ℕ → List Vote → ℕ
tally hash [] = 0
tally hash (v ∷ vs) = if v.hash == hash then v.count else tally hash vs

-- What a vote does to the tally of every hash, and where an elected topology comes from.
unfoldable pub IsFair : ℕ → List Vote → ℕ → ClusterTopology → Ballot → Type 0
unfolding tally
IsFair needed vs hash t (elected e) = needed ≤ tally hash vs + 1
IsFair needed vs hash t (open_with vs') =
    (tally hash vs' ≡ tally hash vs + 1)
    × (tally hash vs' < needed)
    × ((other : ℕ) → other ≢ hash → tally other vs' ≡ tally other vs)

behind-IsFair :
    (needed : ℕ) (v : Vote) (vs : List Vote) (hash : ℕ) (t : ClusterTopology) (b : Ballot)
    → v.hash == hash ≡ false
    → IsFair needed vs hash t b
    → IsFair needed (v ∷ vs) hash t (behind v b)
unfolding IsFair tally
behind-IsFair needed v vs hash t (elected e) ne fair = rw ne fair
behind-IsFair needed v vs hash t (open_with vs') ne (more, few, others) = (
  rw ne more,
  rw ne few,
  λ other apart. elim (Bool-cases (v.hash == other)) [
    | inl same ↦ rw same refl
    | inr differ ↦ rw differ (others other apart)
  ],
)

counted :
    (needed : ℕ) (v : Vote) (vs : List Vote) (hash : ℕ) (t : ClusterTopology)
    → v.hash == hash ≡ true
    → IsFair needed (v ∷ vs) hash t (
        if leb needed (v.count + 1)
        then elected v.topology
        else open_with (record v { count = v.count + 1 } ∷ vs))
unfolding IsFair tally
counted needed v vs hash t same = elim (Bool-cases (leb needed (v.count + 1))) [
  | inl few ↦ rw (few, same) (ground (arith, few))
  | inr many ↦
      rw many (rw same refl, rw same (ground (arith, many)), λ other ne. ground (arith, same, ne))
]

pub cast-IsFair :
    (needed : ℕ) (vs : List Vote) (hash : ℕ) (t : ClusterTopology)
    → IsFair needed vs hash t (cast needed vs hash t)
unfolding IsFair cast tally
cast-IsFair needed [] hash t = elim (Bool-cases (leb needed 1)) [
  | inl few ↦ rw few (ground (arith, few))
  | inr many ↦ rw many (ground arith, ground arith, λ other ne. ground arith)
]
cast-IsFair needed (v ∷ vs) hash t = elim (Bool-cases (v.hash == hash)) [
  | inl same ↦ rw same (counted needed v vs hash t same)
  | inr other ↦ rw other (behind-IsFair needed v vs hash t _ other (cast-IsFair needed vs hash t))
]

-- Every vote entry holds a topology of its hash, in the sense of `P`.
module _ (P : ℕ → ClusterTopology → Type 0) where
  abbrev pub AreVouched : List Vote → Type 0
  AreVouched [] = Unit {0}
  AreVouched (v ∷ vs) = P v.hash v.topology × AreVouched vs

  abbrev pub IsVouched : ℕ → Ballot → Type 0
  IsVouched hash (elected e) = P hash e
  IsVouched hash (open_with vs) = AreVouched vs

  behind-IsVouched :
      (hash : ℕ) (v : Vote) (b : Ballot)
      → P v.hash v.topology
      → IsVouched hash b
      → IsVouched hash (behind v b)
  behind-IsVouched hash v (elected e) here rest = rest
  behind-IsVouched hash v (open_with vs) here rest = (here, rest)

  pub cast-IsVouched :
      (needed : ℕ) (vs : List Vote) (hash : ℕ) (t : ClusterTopology)
      → AreVouched vs
      → P hash t
      → IsVouched hash (cast needed vs hash t)
  unfolding cast
  cast-IsVouched needed [] hash t vouched mine = elim (Bool-cases (leb needed 1)) [
    | inl few ↦ rw few mine
    | inr many ↦ rw many (mine, tt)
  ]
  cast-IsVouched needed (v ∷ vs) hash t (here, rest) mine = elim (Bool-cases (v.hash == hash)) [
    | inl same ↦ rw same (elim (Bool-cases (leb needed (v.count + 1))) [
      | inl few ↦ rw few (subst (λ h. P h v.topology) ((==_iff v.hash hash).0 same) here)
      | inr many ↦ rw many (here, rest)
    ])
    | inr other ↦
        rw other (behind-IsVouched hash v _ here (cast-IsVouched needed vs hash t rest mine))
  ]
