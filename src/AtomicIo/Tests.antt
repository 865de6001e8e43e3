-- ===== src/AtomicIo/Tests.antt =====
-- A file system with a cache on which the theorems on src/cluster/atomic_io.c are applied.
use buckets.Prelude.{
  ◌<◌, ◌≡◌, ◌≢◌, refl, ◌∙◌, Bool, true, false, List, [], ◌∷◌, Option, none, some, ◌⊎◌, inl, inr,
  if◌then◌else◌, Bool-cases, Option-cases, ◌==◌, length, arith,
}
use buckets.Text.{Bytes, codes, same_text, same_text_refl, same_text_iff, decimal, digits_before}
use buckets.Status.{Error}
use buckets.AtomicIo.{FileSystem, is_top, last_of, ensure_below, replace_file, atomic_write}
use buckets.AtomicIo.Crash.{CrashLaws}
use buckets.AtomicIo.Directories.{Shortens, HasRoot, atomic_write-returns, atomic_write-durable}

-- What stands before the last slash of a path.
unfoldable before_slash : Bytes → Option Bytes
before_slash [] = none
before_slash (c ∷ cs) = elim (before_slash cs) [
  | some above ↦ some (c ∷ above)
  | none ↦ if c == b'/' then some [] else none
]

abbrev above : Option Bytes → Bytes
above none = codes "."
above (some []) = codes "/"
above (some (c ∷ cs)) = c ∷ cs

before_slash-shorter : (path r : Bytes) → before_slash path ≡ some r → length r < length path
unfolding before_slash
before_slash-shorter [] r e = cc
before_slash-shorter (c ∷ cs) r e = elim (Option-cases (before_slash cs)) [
  | inl n ↦ ground (arith, n, e)
  | inr (s, h) ↦ ground (arith, h, e, before_slash-shorter cs s h)
]

above-shortens :
    (path : Bytes) (o : Option Bytes)
    → ((r : Bytes) → o ≡ some r → length r < length path)
    → (is_top (above o) ≡ true) ⊎ (length (above o) < length path)
above-shortens path none h = inl refl
above-shortens path (some []) h = inl refl
above-shortens path (some (c ∷ cs)) h = inr (h (c ∷ cs) refl)

-- What is read of the files, what is on the disk of the file that a path names now, what is on the disk under a path, and
-- the directories that are there and those that stay after a crash.
record Drive : Type 0 where
  cached : Bytes → Option Bytes
  inodes : Bytes → Option Bytes
  disk : Bytes → Option Bytes
  there : List Bytes
  kept : Bytes → Bool

abbrev with_file : (Bytes → Option Bytes) → Bytes → Option Bytes → Bytes → Option Bytes
with_file f p v q = if same_text p q then v else f q

abbrev is_in : Bytes → List Bytes → Bool
is_in p [] = false
is_in p (q ∷ qs) = if same_text p q then true else is_in p qs

abbrev dirname : Bytes → Bytes
dirname p = above (before_slash p)

abbrev cached_system : FileSystem Drive
cached_system = record {
  dirname = dirname;
  stat = λ d p.
      if same_text p (codes "//") then some true else if is_in p d.there then some true else none;
  mkdir = λ d p. (record d { there = p ∷ d.there }, true);
  open_write = λ d p. (
    record d { cached = with_file d.cached p (some []); inodes = with_file d.inodes p (some []) },
    true,
  );
  write = λ d p bytes. (record d { cached = with_file d.cached p (some bytes) }, true);
  flush = λ d p. (d, true);
  sync = λ d p. (record d { inodes = with_file d.inodes p (d.cached p) }, true);
  rename = λ d a b. (
    record d {
      cached = with_file d.cached b (d.cached a);
      inodes = with_file d.inodes b (d.inodes a);
    },
    true,
  );
  unlink =
      λ d p. record d { cached = with_file d.cached p none; inodes = with_file d.inodes p none };
  open_directory = λ d p. true;
  sync_directory = λ d p. (record d { disk = d.inodes }, true);
  read = λ d p. d.cached p;
}

-- A file may have after a crash what is read of it or what is on the disk.
abbrev Inode : Drive → Bytes → Option Bytes → Type 0
Inode d p x = (x ≡ d.cached p) ⊎ (x ≡ d.inodes p)

-- A path may then name the file that it names now, the one that it had, or none if its directory is lost.
abbrev Holds : Drive → Bytes → Option Bytes → Type 0
Holds d p x = Inode d p x ⊎ (x ≡ d.disk p) ⊎ ((d.kept (dirname p) ≡ false) × (x ≡ none))

abbrev Kept : Drive → Bytes → Type 0
Kept d dir = d.kept dir ≡ true

with_file_ne :
    (f : Bytes → Option Bytes) (p q : Bytes) (v : Option Bytes) → p ≢ q → with_file f p v q ≡ f q
with_file_ne f p q v n = elim (Bool-cases (same_text p q)) [
  | inl e ↦ absurd (n ((same_text_iff p q).0 e))
  | inr e ↦ rw e refl
]

with_file_self : (f : Bytes → Option Bytes) (p : Bytes) (v : Option Bytes) → with_file f p v p ≡ v
with_file_self f p v = rw (same_text_refl p) refl

-- What is done to one file leaves every other as it is.
elsewhere :
    (d : Drive) (p q : Bytes) (v w x : Option Bytes)
    → p ≢ q
    → Holds (record d { cached = with_file d.cached p v; inodes = with_file d.inodes p w }) q x
    → Holds d q x
elsewhere d p q v w x n (inl (inl h)) = inl (inl (h ∙ with_file_ne d.cached p q v n))
elsewhere d p q v w x n (inl (inr h)) = inl (inr (h ∙ with_file_ne d.inodes p q w n))
elsewhere d p q v w x n (inr h) = inr h

written_elsewhere :
    (d : Drive) (p q : Bytes) (v x : Option Bytes)
    → p ≢ q
    → Holds (record d { cached = with_file d.cached p v }) q x
    → Holds d q x
written_elsewhere d p q v x n (inl (inl h)) = inl (inl (h ∙ with_file_ne d.cached p q v n))
written_elsewhere d p q v x n (inl (inr h)) = inl (inr h)
written_elsewhere d p q v x n (inr h) = inr h

synced_elsewhere :
    (d : Drive) (p q : Bytes) (v x : Option Bytes)
    → p ≢ q
    → Holds (record d { inodes = with_file d.inodes p v }) q x
    → Holds d q x
synced_elsewhere d p q v x n (inl (inl h)) = inl (inl h)
synced_elsewhere d p q v x n (inl (inr h)) = inl (inr (h ∙ with_file_ne d.inodes p q v n))
synced_elsewhere d p q v x n (inr h) = inr h

directory_synced :
    (d : Drive) (q : Bytes) (x : Option Bytes)
    → Holds (record d { disk = d.inodes }) q x
    → Holds d q x
directory_synced d q x (inl h) = inl h
directory_synced d q x (inr (inl h)) = inl (inr h)
directory_synced d q x (inr (inr h)) = inr (inr h)

renamed-Inode :
    (d : Drive) (a b : Bytes) (x : Option Bytes)
    → Inode
        (record d {
          cached = with_file d.cached b (d.cached a);
          inodes = with_file d.inodes b (d.inodes a);
        })
        b
        x
    → Inode d a x
renamed-Inode d a b x (inl h) = inl (h ∙ with_file_self d.cached b (d.cached a))
renamed-Inode d a b x (inr h) = inr (h ∙ with_file_self d.inodes b (d.inodes a))

cached_laws : CrashLaws cached_system Holds Inode Kept
cached_laws = record {
  open_other = λ d p q x n h. elsewhere d p q (some []) (some []) x n h;
  write_other = λ d p q bytes x n h. written_elsewhere d p q (some bytes) x n h;
  flush_other = λ d p q x n h. h;
  sync_other = λ d p q x n h. synced_elsewhere d p q (d.cached p) x n h;
  unlink_other = λ d p q x n h. elsewhere d p q none none x n h;
  sync_directory_keeps = λ d dir q x h. directory_synced d q x h;
  mkdir_keeps = λ d dir q x h. h;
  flush_read = λ d p bytes a b c. with_file_self (with_file d.cached p (some [])) p (some bytes);
  sync_inode =
      λ d p x e h. elim h [ inl c ↦ c | inr c ↦ c ∙ with_file_self d.inodes p (d.cached p) ];
  rename_holds =
      λ d a b x h. elim h [ inl c ↦ inr (renamed-Inode d a b x c) | inr c ↦ inl (inr c) ];
  rename_synced = λ d a b x k e f h. elim h [
    | inl c ↦ renamed-Inode d a b x c
    | inr (inl c) ↦ renamed-Inode d a b x (inr c)
    | inr (inr (lost, c)) ↦ absurd (cc)
  ];
  mkdir_kept = λ d p dir k. k;
  open_kept = λ d p dir k. k;
  write_kept = λ d p bytes dir k. k;
  flush_kept = λ d p dir k. k;
  sync_kept = λ d p dir k. k;
}

shortens : Shortens cached_system
shortens path = elim (above-shortens path (before_slash path) (before_slash-shorter path)) [
  | inl top ↦ inl top
  | inr less ↦ inr (inl less)
]

has_root : HasRoot cached_system
has_root d = refl

-- Two directories are to be made.
abbrev empty : Drive
empty = record {
  cached = λ p. none;
  inodes = λ p. none;
  disk = λ p. none;
  there = [];
  kept = λ p. false;
}

abbrev path : Bytes
path = codes "/a/b/f"

abbrev made : Drive
made = record empty { there = codes "/a" ∷ [] }

atomic_write-returns_example :
    (r : List Drive × Option Error) × (atomic_write cached_system 42 empty path (codes "new")
      ≡ some r)
atomic_write-returns_example =
    atomic_write-returns cached_system 42 empty path (codes "new") shortens has_root

-- The file has a content, and its directory stays.
abbrev old : Drive
old = record {
  cached = λ p. some (codes "old");
  inodes = λ p. some (codes "old");
  disk = λ p. some (codes "old");
  there = codes "/a" ∷ codes "/a/b" ∷ [];
  kept = λ p. true;
}

abbrev written_states : List Drive
written_states = (replace_file cached_system 42 old path (codes "new")).0

writes : atomic_write cached_system 42 old path (codes "new") ≡ some (written_states, none)
unfolding atomic_write ensure_below replace_file before_slash decimal digits_before
writes = refl

holds_new : Holds (last_of old written_states) path (some (codes "new"))
unfolding replace_file decimal digits_before
holds_new = inl (inl refl)

atomic_write-durable_example : some (codes "new") ≡ some (codes "new")
atomic_write-durable_example =
    atomic_write-durable cached_system Holds Inode Kept cached_laws path (codes "new") 42 old
      written_states (some (codes "new")) refl writes holds_new
