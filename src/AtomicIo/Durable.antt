-- ===== src/AtomicIo/Durable.antt =====
-- What a write of src/cluster/atomic_io.c that succeeds leaves on the disk.
use buckets.Prelude.{
  ℕ, ◌≡◌, refl, ◌∙◌, Bool, true, false, List, Option, none, some, Bool-cases, inl, inr,
}
use buckets.Text.{Bytes}
use buckets.Status.{Error}
use buckets.AtomicIo.{
  FileSystem, temp_path, cleaned_up, synced_directory, sync_parent, renamed, synced, flushed,
  written, opened, replace_file, last_of,
}
use buckets.AtomicIo.Crash.{CrashLaws}

module _ {F : Type 0} (o : FileSystem F) (Holds Inode : F → Bytes → Option Bytes → Type 0)
    (Kept : F → Bytes → Type 0) (laws : CrashLaws o Holds Inode Kept) (path bytes : Bytes) where
  abbrev IsReady : F → Bytes → Type 0
  IsReady fs temp = (x : Option Bytes) → Inode fs temp x → x ≡ some bytes

  abbrev IsWritten : F → Type 0
  IsWritten fs = (x : Option Bytes) → Holds fs path x → x ≡ some bytes

  abbrev IsKept : F → Type 0
  IsKept fs = Kept fs (o.dirname path)

  -- A result that, where it is a success, leaves the file as it was written also after a crash.
  abbrev IsDone : F → List F × Option Error → Type 0
  IsDone fs r = r.1 ≡ none → (x : Option Bytes) → Holds (last_of fs r.0) path x → x ≡ some bytes

  cleaned_up-IsDone : (fs fs' : F) (temp : Bytes) → IsDone fs (cleaned_up o fs' temp)
  cleaned_up-IsDone fs fs' temp h = cc

  synced_directory-IsDone :
      (fs : F) (r : F × Bool) → (r.1 ≡ true → IsWritten r.0) → IsDone fs (synced_directory o r)
  synced_directory-IsDone fs (fs', true) d = λ h. d refl
  synced_directory-IsDone fs (fs', false) d = λ h. cc

  sync_parent-IsDone :
      (fs : F) (dir : Bytes)
      → ((o.sync_directory fs dir).1 ≡ true → IsWritten (o.sync_directory fs dir).0)
      → IsDone fs (sync_parent o fs dir)
  sync_parent-IsDone fs dir d = elim (Bool-cases (o.open_directory fs dir)) [
    | inr e ↦ rw e (λ h. cc)
    | inl e ↦ rw e (synced_directory-IsDone fs (o.sync_directory fs dir) d)
  ]

  renamed-IsDone :
      (fs : F) (temp : Bytes) (r : F × Bool)
      → (r.1 ≡ true
          → (o.sync_directory r.0 (o.dirname path)).1 ≡ true
          → IsWritten (o.sync_directory r.0 (o.dirname path)).0)
      → IsDone fs (renamed o temp path r)
  renamed-IsDone fs temp (fs', false) d = λ h. cc
  renamed-IsDone fs temp (fs', true) d = sync_parent-IsDone fs' (o.dirname path) (d refl)

  synced-IsDone :
      (fs : F) (temp : Bytes) (r : F × Bool)
      → IsKept r.0
      → (r.1 ≡ true → IsReady r.0 temp)
      → IsDone fs (synced o temp path r)
  synced-IsDone fs temp (fs', false) k d = λ h. cc
  synced-IsDone fs temp (fs', true) k d =
      renamed-IsDone fs' temp (o.rename fs' temp path)
        (λ a b x h. d refl x (laws.rename_synced fs' temp path x k a b h))

  flushed-IsDone :
      (fs : F) (temp : Bytes) (r : F × Bool)
      → IsKept r.0
      → (r.1 ≡ true → o.read r.0 temp ≡ some bytes)
      → IsDone fs (flushed o temp path r)
  flushed-IsDone fs temp (fs', false) k d = λ h. cc
  flushed-IsDone fs temp (fs', true) k d =
      synced-IsDone fs' temp (o.sync fs' temp) (laws.sync_kept fs' temp _ k)
        (λ e x h. laws.sync_inode fs' temp x e h ∙ d refl)

  written-IsDone :
      (fs : F) (temp : Bytes) (r : F × Bool)
      → IsKept r.0
      → (r.1 ≡ true → (o.flush r.0 temp).1 ≡ true → o.read (o.flush r.0 temp).0 temp ≡ some bytes)
      → IsDone fs (written o temp path r)
  written-IsDone fs temp (fs', false) k d = λ h. cc
  written-IsDone fs temp (fs', true) k d =
      flushed-IsDone fs' temp (o.flush fs' temp) (laws.flush_kept fs' temp _ k) (d refl)

  opened-IsDone :
      (fs : F) (temp : Bytes) (r : F × Bool)
      → IsKept r.0
      → (r.1 ≡ true
          → (o.write r.0 temp bytes).1 ≡ true
          → (o.flush (o.write r.0 temp bytes).0 temp).1 ≡ true
          → o.read (o.flush (o.write r.0 temp bytes).0 temp).0 temp ≡ some bytes)
      → IsDone fs (opened o temp path bytes r)
  opened-IsDone fs temp (fs', false) k d = λ h. cc
  opened-IsDone fs temp (fs', true) k d =
      written-IsDone fs' temp (o.write fs' temp bytes) (laws.write_kept fs' temp bytes _ k) (d refl)

  -- Where the directory stays and the write returns BUCKETS_OK, the file has after a crash all of what was written.
  pub replace_file-durable :
      (pid : ℕ) (start : F) (x : Option Bytes)
      → IsKept start
      → (replace_file o pid start path bytes).1 ≡ none
      → Holds (last_of start (replace_file o pid start path bytes).0) path x
      → x ≡ some bytes
  unfolding replace_file
  replace_file-durable pid start x k h =
      let temp = temp_path path pid in
      opened-IsDone start temp (o.open_write start temp) (laws.open_kept start temp _ k)
        (laws.flush_read start temp bytes) h x
