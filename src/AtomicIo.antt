-- ===== src/AtomicIo.antt =====
-- The writes of whole files of src/cluster/atomic_io.c: to a temporary file that is synced and renamed.
pub mod Directories
pub mod Crash
pub mod Durable
pub mod Passed
mod Tests
use buckets.Prelude.{
  ℕ, zero, suc, ◌+◌, Bool, true, false, not, ◌||◌, List, [], ◌∷◌, ◌++◌, Option, none, some, length,
  if◌then◌else◌,
}
use buckets.Text.{Bytes, codes, decimal, same_text}
use buckets.Status.{Error, exists, io}

-- What the code asks of the operating system and of libc; true is success, and `F` the state of the disks.
pub record FileSystem (F : Type 0) : Type 0 where
  pub dirname : Bytes → Bytes
  -- stat: whether a path that there is is a directory. mkdir succeeds also where the directory is there.
  pub stat : F → Bytes → Option Bool
  pub mkdir : F → Bytes → F × Bool
  -- fopen for writing, fwrite of all bytes, fflush and fsync of the file with the path.
  pub open_write : F → Bytes → F × Bool
  pub write : F → Bytes → Bytes → F × Bool
  pub flush : F → Bytes → F × Bool
  pub sync : F → Bytes → F × Bool
  pub rename : F → Bytes → Bytes → F × Bool
  pub unlink : F → Bytes → F
  -- open and fsync of a directory.
  pub open_directory : F → Bytes → Bool
  pub sync_directory : F → Bytes → F × Bool
  pub read : F → Bytes → Option Bytes

-- "%s.tmp.%d".
abbrev pub temp_path : Bytes → ℕ → Bytes
temp_path path pid = path ++ (codes ".tmp." ++ decimal pid)

abbrev pub is_top : Bytes → Bool
is_top parent = same_text parent (codes ".") || same_text parent (codes "/")

-- The state in which the states end that are passed through from `s`.
abbrev pub last_of {ℓ} : {A : Type ℓ} → A → List A → A
last_of s [] = s
last_of s (t ∷ states) = last_of t states

-- What comes after the states that were passed through.
abbrev pub after {ℓ} : {F : Type ℓ} → List F → List F × Option Error → List F × Option Error
after before (states, result) = (before ++ states, result)

module _ {F : Type 0} (o : FileSystem F) where
  -- The end of `buckets_ensure_directory`. A result is the states that are passed through and the error; none is
  -- BUCKETS_OK.
  abbrev pub made_directory : F × Bool → List F × Option Error
  made_directory (fs, true) = (fs ∷ [], none)
  made_directory (fs, false) = (fs ∷ [], some io)

  abbrev pub make_below :
      F → Bytes → Option (List F × Option Error) → Option (List F × Option Error)
  make_below fs path none = none
  make_below fs path (some (states, some e)) = some (states, some e)
  make_below fs path (some (states, none)) =
      some (after states (made_directory (o.mkdir (last_of fs states) path)))

  abbrev pub found : Option Bool → Option (List F × Option Error) → Option (List F × Option Error)
  found (some true) rest = some ([], none)
  found (some false) rest = some ([], some exists)
  found none rest = rest

  -- `buckets_ensure_directory` with calls nested up to the fuel; none is running out of it.
  unfoldable pub ensure_below : ℕ → F → Bytes → Option (List F × Option Error)
  ensure_below zero fs path = none
  ensure_below (suc fuel) fs path =
      let above = ensure_below fuel fs (o.dirname path) in
      found (o.stat fs path) (
        if is_top (o.dirname path)
        then some (made_directory (o.mkdir fs path))
        else make_below fs path above)

  abbrev pub ensure_directory : F → Bytes → Option (List F × Option Error)
  ensure_directory fs path = ensure_below (length path + 1) fs path

  -- A call of the system and what follows: the states that are passed through, and the result; none is BUCKETS_OK.
  abbrev pub through : F → List F × Option Error → List F × Option Error
  through fs (states, result) = (fs ∷ states, result)

  abbrev pub cleaned_up : F → Bytes → List F × Option Error
  cleaned_up fs temp = (o.unlink fs temp ∷ [], some io)

  abbrev pub synced_directory : F × Bool → List F × Option Error
  synced_directory (fs, true) = (fs ∷ [], none)
  synced_directory (fs, false) = (fs ∷ [], some io)

  -- `buckets_sync_directory`.
  abbrev pub sync_parent : F → Bytes → List F × Option Error
  sync_parent fs dir =
      if o.open_directory fs dir then synced_directory (o.sync_directory fs dir) else ([], some io)

  abbrev pub renamed : Bytes → Bytes → F × Bool → List F × Option Error
  renamed temp path (fs, false) = through fs (cleaned_up fs temp)
  renamed temp path (fs, true) = through fs (sync_parent fs (o.dirname path))

  abbrev pub synced : Bytes → Bytes → F × Bool → List F × Option Error
  synced temp path (fs, false) = through fs (cleaned_up fs temp)
  synced temp path (fs, true) = through fs (renamed temp path (o.rename fs temp path))

  abbrev pub flushed : Bytes → Bytes → F × Bool → List F × Option Error
  flushed temp path (fs, false) = through fs (cleaned_up fs temp)
  flushed temp path (fs, true) = through fs (synced temp path (o.sync fs temp))

  abbrev pub written : Bytes → Bytes → F × Bool → List F × Option Error
  written temp path (fs, false) = through fs (cleaned_up fs temp)
  written temp path (fs, true) = through fs (flushed temp path (o.flush fs temp))

  abbrev pub opened : Bytes → Bytes → Bytes → F × Bool → List F × Option Error
  opened temp path bytes (fs, false) = (fs ∷ [], some io)
  opened temp path bytes (fs, true) = through fs (written temp path (o.write fs temp bytes))

  -- The part of `buckets_atomic_write` behind the making of the directory.
  unfoldable pub replace_file : ℕ → F → Bytes → Bytes → List F × Option Error
  replace_file pid fs path bytes =
      opened (temp_path path pid) path bytes (o.open_write fs (temp_path path pid))

  abbrev pub with_directory :
      ℕ → F → Bytes → Bytes → Option (List F × Option Error) → Option (List F × Option Error)
  with_directory pid fs path bytes none = none
  with_directory pid fs path bytes (some (states, some e)) = some (states, some e)
  with_directory pid fs path bytes (some (states, none)) =
      some (after states (replace_file pid (last_of fs states) path bytes))

  -- `buckets_atomic_write`.
  unfoldable pub atomic_write : ℕ → F → Bytes → Bytes → Option (List F × Option Error)
  unfolding ensure_below replace_file
  atomic_write pid fs path bytes =
      with_directory pid fs path bytes (ensure_directory fs (o.dirname path))
