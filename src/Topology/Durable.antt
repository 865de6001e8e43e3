-- ===== src/Topology/Durable.antt =====
-- What a successful `buckets_topology_save_quorum` of src/cluster/topology.c leaves on the disks.
use buckets.Prelude.{
  ℕ, suc, ◌+◌, ◌≤◌, ◌≡◌, ◌≢◌, refl, sym, ap, ◌∙◌, subst, inl, inr, Bool, true, false, List, [], ◌∷◌,
  Option, none, some, length, leb, if◌then◌else◌, arith, Bool-cases, Option-cases,
}
use buckets.Status.{Error, quorum}
use buckets.Text.{Bytes, same_text, same_text_refl}
use buckets.Topology.{ClusterTopology}
use buckets.Json.{Platform, save_json-printed}
use buckets.Topology.Json.{topology_path, topology_to_json, save}
use buckets.Topology.Quorum.{write_quorum, save_all, save_quorum}

module _ {J Disks : Type 0} (p : Platform J Disks) where
  -- How files behave: a write that succeeds is what the next read finds, and no write changes
  -- another file.
  pub record Files : Type 0 where
    pub written :
        (disks disks' : Disks) (file text : Bytes)
        → p.write disks file text ≡ (disks', none)
        → p.read disks' file ≡ some text
    pub kept :
        (disks : Disks) (file other text : Bytes)
        → file ≢ other
        → p.read (p.write disks file text).0 other ≡ p.read disks other

  -- The disk holds this text as its topology.
  unfoldable pub holds : Bytes → Disks → Bytes → Bool
  holds text disks path = elim (p.read disks (topology_path path)) [
    | none ↦ false
    | some found ↦ same_text found text
  ]

  unfoldable pub holders : Bytes → Disks → List (Option Bytes) → ℕ
  holders text disks [] = 0
  holders text disks (none ∷ paths) = holders text disks paths
  holders text disks (some path ∷ paths) =
      if holds text disks path then suc (holders text disks paths) else holders text disks paths

-- No two of the paths name the same topology file.
abbrev pub IsApartFrom : Bytes → List (Option Bytes) → Type 0
IsApartFrom path [] = Unit {0}
IsApartFrom path (none ∷ paths) = IsApartFrom path paths
IsApartFrom path (some other ∷ paths) =
    (topology_path other ≢ topology_path path) × IsApartFrom path paths

abbrev pub AreApart : List (Option Bytes) → Type 0
AreApart [] = Unit {0}
AreApart (none ∷ paths) = AreApart paths
AreApart (some path ∷ paths) = IsApartFrom path paths × AreApart paths

module _ {J Disks : Type 0} (p : Platform J Disks) (files : Files p) (t : ClusterTopology)
    (text : Bytes) (printed : p.print (topology_to_json p t) ≡ some text) where
  save-write :
      (disks : Disks) (path : Bytes) → save p disks path t ≡ p.write disks (topology_path path) text
  unfolding save
  save-write disks path =
      save_json-printed p disks (topology_path path) (topology_to_json p t) text printed

  -- The disks after one write, and the two ways that the loop goes on.
  next_disks : Disks → Bytes → Disks
  next_disks disks path = (save p disks path t).0

  save_all-saved :
      (disks : Disks) (path : Bytes) (paths : List (Option Bytes))
      → (save p disks path t).1 ≡ none
      → save_all p disks (some path ∷ paths) t ≡ (
        (save_all p (next_disks disks path) paths t).0,
        (save_all p (next_disks disks path) paths t).1 + 1,
      )
  unfolding save_all next_disks
  save_all-saved disks path paths done = rw (done, save_all) refl

  save_all-failed :
      (disks : Disks) (path : Bytes) (paths : List (Option Bytes)) (e : Error)
      → (save p disks path t).1 ≡ some e
      → save_all p disks (some path ∷ paths) t ≡ save_all p (next_disks disks path) paths t
  unfolding save_all next_disks
  save_all-failed disks path paths e failed = rw (failed, save_all) refl

  save_all-disks :
      (disks : Disks) (path : Bytes) (paths : List (Option Bytes))
      → (save_all p disks (some path ∷ paths) t).0 ≡ (save_all p (next_disks disks path) paths t).0
  save_all-disks disks path paths = elim (Option-cases (save p disks path t).1) [
    | inl done ↦ ap (λ r. r.0) (save_all-saved disks path paths done)
    | inr (e, failed) ↦ ap (λ r. r.0) (save_all-failed disks path paths e failed)
  ]

  read-next_disks :
      (disks : Disks) (path other : Bytes)
      → topology_path other ≢ topology_path path
      → p.read (next_disks disks other) (topology_path path) ≡ p.read disks (topology_path path)
  unfolding next_disks
  read-next_disks disks path other apart =
      rw (next_disks, save-write disks other)
        (files.kept disks (topology_path other) (topology_path path) text apart)

  read-next_disks_self :
      (disks : Disks) (path : Bytes)
      → (save p disks path t).1 ≡ none
      → p.read (next_disks disks path) (topology_path path) ≡ some text
  unfolding next_disks
  read-next_disks_self disks path done =
      files.written disks (save p disks path t).0 (topology_path path) text
        (sym (save-write disks path) ∙ ap (λ e. ((save p disks path t).0, e)) done)

  read-save_all :
      (disks : Disks) (path : Bytes) (paths : List (Option Bytes))
      → IsApartFrom path paths
      → p.read (save_all p disks paths t).0 (topology_path path) ≡ p.read disks (topology_path path)
  unfolding save_all next_disks
  read-save_all disks path [] apart = refl
  read-save_all disks path (none ∷ paths) apart = read-save_all disks path paths apart
  read-save_all disks path (some other ∷ paths) (here, apart) =
      ap (λ d. p.read d (topology_path path)) (save_all-disks disks other paths)
      ∙ read-save_all (next_disks disks other) path paths apart
      ∙ read-next_disks disks path other here

  holds-read :
      (disks disks' : Disks) (path : Bytes)
      → p.read disks' (topology_path path) ≡ some text
      → p.read disks (topology_path path) ≡ p.read disks' (topology_path path)
      → holds p text disks path ≡ true
  unfolding holds
  holds-read disks disks' path found same = rw (same ∙ found, holds) (same_text_refl text)

  save_all-holders :
      (disks : Disks) (paths : List (Option Bytes))
      → AreApart paths
      → (save_all p disks paths t).1 ≤ holders p text (save_all p disks paths t).0 paths
  unfolding save_all holders
  save_all-holders disks [] apart = omega arith
  save_all-holders disks (none ∷ paths) apart = save_all-holders disks paths apart
  save_all-holders disks (some path ∷ paths) (here, apart) =
      elim (Option-cases (save p disks path t).1) [
        | inl done ↦
            let held =
              holds-read (save_all p (next_disks disks path) paths t).0 (next_disks disks path) path
                (read-next_disks_self disks path done)
                (read-save_all (next_disks disks path) path paths here) in
            subst (λ r. r.1 ≤ holders p text r.0 (some path ∷ paths))
              (sym (save_all-saved disks path paths done))
              (rw held (omega (arith, save_all-holders (next_disks disks path) paths apart)))
        | inr (e, failed) ↦
            subst (λ r. r.1 ≤ holders p text r.0 (some path ∷ paths))
              (sym (save_all-failed disks path paths e failed))
              (ground (arith, save_all-holders (next_disks disks path) paths apart))
      ]

  quorum_reached :
      (needed count : ℕ)
      → ◌≡◌ {A = Option Error} (if leb needed count then none else some quorum) none
      → needed ≤ count
  quorum_reached needed count h = elim (Bool-cases (leb needed count)) [
    | inl enough ↦ ground (arith, enough)
    | inr few ↦ cc
  ]

  -- When `buckets_topology_save_quorum` returns BUCKETS_OK, the topology's text is on at least a
  -- write quorum of the disks afterwards, if the disks have topology files of their own.
  pub save_quorum_durable :
      (disks disks' : Disks) (paths : List (Option Bytes))
      → AreApart paths
      → save_quorum p disks paths t ≡ (disks', none)
      → write_quorum (length paths) ≤ holders p text disks' paths
  unfolding save_quorum
  save_quorum_durable disks disks' [] apart h = cc
  save_quorum_durable disks disks' (path ∷ paths) apart h =
      subst (λ d. write_quorum (length (path ∷ paths)) ≤ holders p text d (path ∷ paths))
        (ap (λ r. r.0) h)
        (omega (
          arith,
          quorum_reached (write_quorum (length (path ∷ paths)))
              (save_all p disks (path ∷ paths) t).1 (ap (λ r. r.1) h),
          save_all-holders disks (path ∷ paths) apart,
        ))
