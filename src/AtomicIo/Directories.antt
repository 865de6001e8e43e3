-- ===== src/AtomicIo/Directories.antt =====
-- The directories that src/cluster/atomic_io.c makes before it writes, and the whole write.
use buckets.Prelude.{
  ℕ, zero, suc, ◌+◌, ◌<◌, ◌≡◌, refl, sym, ap, subst, Bool, true, false, List, [], Option, none,
  some, length, Bool-cases, inl, inr, ◌⊎◌, arith,
}
use buckets.Prelude.Maybe.{some_injective}
use buckets.Text.{Bytes, codes}
use buckets.Status.{Error}
use buckets.AtomicIo.{
  FileSystem, is_top, last_of, after, made_directory, make_below, found, ensure_below,
  ensure_directory, replace_file, with_directory, atomic_write,
}
use buckets.AtomicIo.Crash.{CrashLaws, All, IsWhole}
use buckets.AtomicIo.Passed.{All-append, All-last, last_of-append}
use buckets.AtomicIo.Durable.{replace_file-durable}

-- The states that a write passes through, none of them without a result.
abbrev pub states_of {ℓ} : {F : Type ℓ} → Option (List F × Option Error) → List F
states_of none = []
states_of (some (states, e)) = states

module _ {F : Type 0} (o : FileSystem F) where
  -- `dirname` ends in "." or "/", or shortens the path, but for "//", which may be its own.
  abbrev pub Shortens : Type 0
  Shortens =
      (path : Bytes)
      → (is_top (o.dirname path) ≡ true)
        ⊎ (length (o.dirname path) < length path)
        ⊎ (path ≡ codes "//")

  -- "//" is a directory that is always there.
  abbrev pub HasRoot : Type 0
  HasRoot = (fs : F) → o.stat fs (codes "//") ≡ some true

  -- A result that is there.
  abbrev IsThere : Option (List F × Option Error) → Type 0
  IsThere r = (a : List F × Option Error) × (r ≡ some a)

  found-IsThere :
      (s : Option Bool) (rest : Option (List F × Option Error))
      → IsThere rest
      → IsThere (found o s rest)
  found-IsThere none rest t = t
  found-IsThere (some true) rest t = (([], none), refl)
  found-IsThere (some false) rest t = (([], some Error.exists), refl)

  make_below-IsThere :
      (fs : F) (path : Bytes) (r : Option (List F × Option Error))
      → IsThere r
      → IsThere (make_below o fs path r)
  make_below-IsThere fs path none (a, e) = cc
  make_below-IsThere fs path (some (states, some e)) t = ((states, some e), refl)
  make_below-IsThere fs path (some (states, none)) t =
      (after states (made_directory o (o.mkdir (last_of fs states) path)), refl)

  ensure_below-IsThere :
      Shortens
      → HasRoot
      → (fuel : ℕ) (fs : F) (path : Bytes) → length path < fuel
      → IsThere (ensure_below o fuel fs path)
  unfolding ensure_below
  ensure_below-IsThere shorter root zero fs path l = absurd (omega arith)
  ensure_below-IsThere shorter root (suc fuel) fs path l =
      elim (Bool-cases (is_top (o.dirname path))) [
        | inl top ↦ found-IsThere (o.stat fs path) _ (rw top (_, refl))
        | inr below ↦ elim (shorter path) [
          | inl top ↦ cc
          | inr (inl less) ↦ found-IsThere (o.stat fs path) _ (
              rw below (
                make_below-IsThere fs path _
                  (ensure_below-IsThere shorter root fuel fs (o.dirname path) (omega arith))))
          | inr (inr e) ↦ rw (ap (o.stat fs) e, root fs) (([], none), refl)
        ]
      ]

  with_directory-IsThere :
      (pid : ℕ) (fs : F) (path bytes : Bytes) (r : Option (List F × Option Error))
      → IsThere r
      → IsThere (with_directory o pid fs path bytes r)
  with_directory-IsThere pid fs path bytes none (a, e) = cc
  with_directory-IsThere pid fs path bytes (some (states, some e)) t = ((states, some e), refl)
  with_directory-IsThere pid fs path bytes (some (states, none)) t =
      (after states (replace_file o pid (last_of fs states) path bytes), refl)

  -- The calls for the directories above end, so that every write returns, where `dirname` shortens a path until it is "." or
  -- "/", but for "//", and "//" is a directory that is there.
  pub atomic_write-returns :
      (pid : ℕ) (fs : F) (path bytes : Bytes)
      → Shortens
      → HasRoot
      → (r : List F × Option Error) × (atomic_write o pid fs path bytes ≡ some r)
  unfolding atomic_write
  atomic_write-returns pid fs path bytes shorter root =
      let dir = o.dirname path in
      with_directory-IsThere pid fs path bytes (ensure_directory o fs dir)
        (ensure_below-IsThere shorter root (length dir + 1) fs dir (omega arith))

  -- What mkdir keeps holds in all states in which directories are made.
  module _ (P : F → Type 0) (keeps : (s : F) (dir : Bytes) → P s → P (o.mkdir s dir).0) where
    abbrev InAll : Option (List F × Option Error) → Type 0
    InAll r = All P (states_of r)

    made_directory-InAll : (r : F × Bool) → P r.0 → InAll (some (made_directory o r))
    made_directory-InAll (s, true) p = (p, tt)
    made_directory-InAll (s, false) p = (p, tt)

    make_below-InAll :
        (fs : F) (dir : Bytes) (r : Option (List F × Option Error))
        → P fs
        → InAll r
        → InAll (make_below o fs dir r)
    make_below-InAll fs dir none p a = tt
    make_below-InAll fs dir (some (states, some e)) p a = a
    make_below-InAll fs dir (some (states, none)) p a = All-append P states _ a (
        made_directory-InAll (o.mkdir (last_of fs states) dir)
          (keeps (last_of fs states) dir (All-last P fs states p a)))

    found-InAll :
        (s : Option Bool) (rest : Option (List F × Option Error))
        → InAll rest
        → InAll (found o s rest)
    found-InAll none rest a = a
    found-InAll (some true) rest a = tt
    found-InAll (some false) rest a = tt

    ensure_below-InAll :
        (fuel : ℕ) (fs : F) (dir : Bytes) → P fs → InAll (ensure_below o fuel fs dir)
    unfolding ensure_below
    ensure_below-InAll zero fs dir p = tt
    ensure_below-InAll (suc fuel) fs dir p =
        found-InAll (o.stat fs dir) _ (elim (Bool-cases (is_top (o.dirname dir))) [
          | inl e ↦ rw e (made_directory-InAll (o.mkdir fs dir) (keeps fs dir p))
          | inr e ↦ rw e (
              make_below-InAll fs dir (ensure_below o fuel fs (o.dirname dir)) p
                (ensure_below-InAll fuel fs (o.dirname dir) p))
        ])

module _ {F : Type 0} (o : FileSystem F) (Holds Inode : F → Bytes → Option Bytes → Type 0)
    (Kept : F → Bytes → Type 0) (laws : CrashLaws o Holds Inode Kept) (path bytes : Bytes) where
  -- A crash leaves the file no other content than it may leave in the state `start`.
  abbrev Keeps : F → F → Type 0
  Keeps start fs = (x : Option Bytes) → Holds fs path x → Holds start path x

  abbrev IsGood : F → F → Type 0
  IsGood start = IsWhole o Holds Inode Kept laws start path bytes

  with_directory-durable :
      (pid : ℕ) (start : F) (d : Option (List F × Option Error)) (states : List F)
      (x : Option Bytes)
      → Kept start (o.dirname path)
      → All (λ s. Kept s (o.dirname path)) (states_of d)
      → with_directory o pid start path bytes d ≡ some (states, none)
      → Holds (last_of start states) path x
      → x ≡ some bytes
  with_directory-durable pid start none states x k a e h = cc
  with_directory-durable pid start (some (made, some f)) states x k a e h = cc
  with_directory-durable pid start (some (made, none)) states x k a e h =
      let fs = last_of start made in
      let q = replace_file o pid fs path bytes in
      let same = some_injective (after made q) (states, none) e in
      replace_file-durable o Holds Inode Kept laws path bytes pid fs x
        (All-last (λ s. Kept s (o.dirname path)) start made k a) (ap (λ r. r.1) same)
        (subst (λ s. Holds s path x) (last_of-append start made q.0)
          (subst (λ r. Holds (last_of start r.0) path x) (sym same) h))

  -- Where the directory of the file was there before and stays after a crash, and the write returns BUCKETS_OK, the file has
  -- after a crash in the state that the write leaves all of what is written.
  pub atomic_write-durable :
      (pid : ℕ) (start : F) (states : List F) (x : Option Bytes)
      → Kept start (o.dirname path)
      → atomic_write o pid start path bytes ≡ some (states, none)
      → Holds (last_of start states) path x
      → x ≡ some bytes
  unfolding atomic_write
  atomic_write-durable pid start states x k e h =
      let dir = o.dirname path in
      with_directory-durable pid start (ensure_directory o start dir) states x k
        (ensure_below-InAll o (λ s. Kept s dir) (λ s d. laws.mkdir_kept s d dir) (length dir + 1)
          start dir k)
        e h
