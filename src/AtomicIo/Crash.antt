-- ===== src/AtomicIo/Crash.antt =====
-- What a crash leaves of a file that src/cluster/atomic_io.c writes.
use buckets.Prelude.{
  ℕ, ◌≡◌, ◌≢◌, refl, ap, ◌∙◌, Bool, true, false, List, [], ◌∷◌, ◌++◌, Option, some, length,
  length-append, arith, ◌⊎◌, inl, inr, Bool-cases,
}
use buckets.Text.{Bytes, codes, decimal}
use buckets.AtomicIo.{
  FileSystem, temp_path, cleaned_up, synced_directory, sync_parent, renamed, synced, flushed,
  written, opened, replace_file,
}

-- A property of all states of a list.
abbrev pub All {ℓ} : {F : Type ℓ} → (F → Type 0) → List F → Type 0
All P [] = Unit {0}
All P (s ∷ states) = P s × All P states

-- The guarantees of POSIX on what a crash leaves in the state `fs`. `Holds fs path x`: the file with the path may have the
-- content `x`, where none is that there is no such file. `Inode fs path x`: the file that the path now names may have the content
-- `x`, whether or not a name for it is left. `Kept fs dir`: the directory is there after a crash.
pub record CrashLaws {F : Type 0} (o : FileSystem F)
    (Holds Inode : F → Bytes → Option Bytes → Type 0) (Kept : F → Bytes → Type 0) : Type 0 where
  -- What is done to one file leaves every other as it is.
  pub open_other :
      (fs : F) (p q : Bytes) (x : Option Bytes)
      → p ≢ q
      → Holds (o.open_write fs p).0 q x
      → Holds fs q x
  pub write_other :
      (fs : F) (p q bytes : Bytes) (x : Option Bytes)
      → p ≢ q
      → Holds (o.write fs p bytes).0 q x
      → Holds fs q x
  pub flush_other :
      (fs : F) (p q : Bytes) (x : Option Bytes) → p ≢ q → Holds (o.flush fs p).0 q x → Holds fs q x
  pub sync_other :
      (fs : F) (p q : Bytes) (x : Option Bytes) → p ≢ q → Holds (o.sync fs p).0 q x → Holds fs q x
  pub unlink_other :
      (fs : F) (p q : Bytes) (x : Option Bytes) → p ≢ q → Holds (o.unlink fs p) q x → Holds fs q x
  pub sync_directory_keeps :
      (fs : F) (dir q : Bytes) (x : Option Bytes)
      → Holds (o.sync_directory fs dir).0 q x
      → Holds fs q x
  pub mkdir_keeps :
      (fs : F) (dir q : Bytes) (x : Option Bytes) → Holds (o.mkdir fs dir).0 q x → Holds fs q x
  -- A file that was opened, written and flushed has what was written.
  pub flush_read :
      (fs : F) (p bytes : Bytes)
      → (o.open_write fs p).1 ≡ true
      → (o.write (o.open_write fs p).0 p bytes).1 ≡ true
      → (o.flush (o.write (o.open_write fs p).0 p bytes).0 p).1 ≡ true
      → o.read (o.flush (o.write (o.open_write fs p).0 p bytes).0 p).0 p ≡ some bytes
  -- fsync of a file is for its content, not for its entry in the directory.
  pub sync_inode :
      (fs : F) (p : Bytes) (x : Option Bytes)
      → (o.sync fs p).1 ≡ true
      → Inode (o.sync fs p).0 p x
      → x ≡ o.read fs p
  -- A rename is one of before and after; it is after once a directory that stays is synced.
  pub rename_holds :
      (fs : F) (a b : Bytes) (x : Option Bytes)
      → Holds (o.rename fs a b).0 b x
      → Holds fs b x ⊎ Inode fs a x
  pub rename_synced :
      (fs : F) (a b : Bytes) (x : Option Bytes)
      → Kept fs (o.dirname b)
      → (o.rename fs a b).1 ≡ true
      → (o.sync_directory (o.rename fs a b).0 (o.dirname b)).1 ≡ true
      → Holds (o.sync_directory (o.rename fs a b).0 (o.dirname b)).0 b x
      → Inode fs a x
  -- No other call takes a directory away that stays.
  pub mkdir_kept : (fs : F) (p dir : Bytes) → Kept fs dir → Kept (o.mkdir fs p).0 dir
  pub open_kept : (fs : F) (p dir : Bytes) → Kept fs dir → Kept (o.open_write fs p).0 dir
  pub write_kept : (fs : F) (p bytes dir : Bytes) → Kept fs dir → Kept (o.write fs p bytes).0 dir
  pub flush_kept : (fs : F) (p dir : Bytes) → Kept fs dir → Kept (o.flush fs p).0 dir
  pub sync_kept : (fs : F) (p dir : Bytes) → Kept fs dir → Kept (o.sync fs p).0 dir

temp_path-ne : (path : Bytes) (pid : ℕ) → temp_path path pid ≢ path
temp_path-ne path pid e =
    let l = length-append path (codes ".tmp." ++ decimal pid) in
    let m = length-append (codes ".tmp.") (decimal pid) in omega (arith, l, m, ap length e)

module _ {F : Type 0} (o : FileSystem F) (Holds Inode : F → Bytes → Option Bytes → Type 0)
    (Kept : F → Bytes → Type 0) (laws : CrashLaws o Holds Inode Kept) (start : F)
    (path bytes : Bytes) where
  -- After a crash in the state the file has what it had at the start, or all of what is written.
  abbrev pub IsWhole : F → Type 0
  IsWhole fs = (x : Option Bytes) → Holds fs path x → Holds start path x ⊎ (x ≡ some bytes)

  abbrev pub AreWhole : List F → Type 0
  AreWhole = All IsWhole

  -- The file that is now the temporary one has after a crash all of what is written.
  abbrev IsReady : F → Bytes → Type 0
  IsReady fs temp = (x : Option Bytes) → Inode fs temp x → x ≡ some bytes

  cleaned_up-AreWhole :
      (fs : F) (temp : Bytes) → temp ≢ path → IsWhole fs → AreWhole (cleaned_up o fs temp).0
  cleaned_up-AreWhole fs temp n w = (λ x h. w x (laws.unlink_other fs temp path x n h), tt)

  synced_directory-AreWhole : (r : F × Bool) → IsWhole r.0 → AreWhole (synced_directory o r).0
  synced_directory-AreWhole (fs, true) w = (w, tt)
  synced_directory-AreWhole (fs, false) w = (w, tt)

  sync_parent-AreWhole : (fs : F) (dir : Bytes) → IsWhole fs → AreWhole (sync_parent o fs dir).0
  sync_parent-AreWhole fs dir w = elim (Bool-cases (o.open_directory fs dir)) [
    | inr e ↦ rw e tt
    | inl e ↦ rw e (
        synced_directory-AreWhole (o.sync_directory fs dir)
          (λ x h. w x (laws.sync_directory_keeps fs dir path x h)))
  ]

  rename-IsWhole :
      (fs : F) (temp : Bytes) → IsReady fs temp → IsWhole fs → IsWhole (o.rename fs temp path).0
  rename-IsWhole fs temp r w x h = elim (laws.rename_holds fs temp path x h) [
    | inl old ↦ w x old
    | inr new ↦ inr (r x new)
  ]

  renamed-AreWhole :
      (temp : Bytes) (r : F × Bool) → temp ≢ path → IsWhole r.0 → AreWhole (renamed o temp path r).0
  renamed-AreWhole temp (fs, false) n w = (w, cleaned_up-AreWhole fs temp n w)
  renamed-AreWhole temp (fs, true) n w = (w, sync_parent-AreWhole fs (o.dirname path) w)

  synced-AreWhole :
      (temp : Bytes) (r : F × Bool)
      → temp ≢ path
      → IsWhole r.0
      → (r.1 ≡ true → IsReady r.0 temp)
      → AreWhole (synced o temp path r).0
  synced-AreWhole temp (fs, false) n w d = (w, cleaned_up-AreWhole fs temp n w)
  synced-AreWhole temp (fs, true) n w d =
      (w, renamed-AreWhole temp (o.rename fs temp path) n (rename-IsWhole fs temp (d refl) w))

  flushed-AreWhole :
      (temp : Bytes) (r : F × Bool)
      → temp ≢ path
      → IsWhole r.0
      → (r.1 ≡ true → o.read r.0 temp ≡ some bytes)
      → AreWhole (flushed o temp path r).0
  flushed-AreWhole temp (fs, false) n w d = (w, cleaned_up-AreWhole fs temp n w)
  flushed-AreWhole temp (fs, true) n w d = (
    w,
    synced-AreWhole temp (o.sync fs temp) n (λ x h. w x (laws.sync_other fs temp path x n h))
        (λ e x h. laws.sync_inode fs temp x e h ∙ d refl),
  )

  written-AreWhole :
      (temp : Bytes) (r : F × Bool)
      → temp ≢ path
      → IsWhole r.0
      → (r.1 ≡ true → (o.flush r.0 temp).1 ≡ true → o.read (o.flush r.0 temp).0 temp ≡ some bytes)
      → AreWhole (written o temp path r).0
  written-AreWhole temp (fs, false) n w d = (w, cleaned_up-AreWhole fs temp n w)
  written-AreWhole temp (fs, true) n w d = (
    w,
    flushed-AreWhole temp (o.flush fs temp) n (λ x h. w x (laws.flush_other fs temp path x n h))
        (d refl),
  )

  opened-AreWhole :
      (temp : Bytes) (r : F × Bool)
      → temp ≢ path
      → IsWhole r.0
      → (r.1 ≡ true
          → (o.write r.0 temp bytes).1 ≡ true
          → (o.flush (o.write r.0 temp bytes).0 temp).1 ≡ true
          → o.read (o.flush (o.write r.0 temp bytes).0 temp).0 temp ≡ some bytes)
      → AreWhole (opened o temp path bytes r).0
  opened-AreWhole temp (fs, false) n w d = (w, tt)
  opened-AreWhole temp (fs, true) n w d = (
    w,
    written-AreWhole temp (o.write fs temp bytes) n
        (λ x h. w x (laws.write_other fs temp path bytes x n h)) (d refl),
  )

  -- Whatever calls of the system fail, and wherever between two of them the machine crashes: the file has afterwards
  -- either what it had before the write or all of what is written.
  pub replace_file-AreWhole : (pid : ℕ) → AreWhole (replace_file o pid start path bytes).0
  unfolding replace_file
  replace_file-AreWhole pid =
      let temp = temp_path path pid in
      let n = temp_path-ne path pid in
      opened-AreWhole temp (o.open_write start temp) n
        (λ x h. inl (laws.open_other start temp path x n h)) (laws.flush_read start temp bytes)
