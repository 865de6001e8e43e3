-- ===== src/GroupCommit/Slots.antt =====
-- The table of open files of src/storage/group_commit.c, as `get_fd_state` and a flush change it.
use buckets.Prelude.{
  ℕ, zero, suc, ◌<◌, ◌≡◌, refl, sym, ◌∙◌, subst, Bool, true, false, ◌&&◌, List, [], ◌∷◌, Option,
  none, some, length, set, get_or, if◌then◌else◌, ◌==◌, Bool-cases, Option-cases, arith, inl, inr,
}
use buckets.Prelude.Maybe.{some_injective}
use buckets.GroupCommit.{FdState, blank_state, find_state, free_state}

abbrev pub is_of : FdState → ℕ → Bool
is_of s fd = s.active && (s.fd == fd)

-- The count of the first active state of a file.
unfoldable pub pending_of : List FdState → ℕ → ℕ
pending_of [] fd = 0
pending_of (s ∷ ss) fd = let rest = pending_of ss fd in if is_of s fd then s.pending_count else rest

unfoldable pub has_state : List FdState → ℕ → Bool
has_state [] fd = false
has_state (s ∷ ss) fd = let rest = has_state ss fd in if is_of s fd then true else rest

unfoldable pub has_free : List FdState → Bool
has_free [] = false
has_free (s ∷ ss) = let rest = has_free ss in if s.active then rest else true

abbrev pub at : List FdState → ℕ → FdState
at ss i = get_or ss i blank_state

pub find_state-none :
    (ss : List FdState) (fd : ℕ) → find_state ss fd ≡ none → has_state ss fd ≡ false
unfolding find_state has_state
find_state-none [] fd h = refl
find_state-none (s ∷ ss) fd h = ground (arith, h, find_state-none ss fd)

pub free_state-none : (ss : List FdState) → free_state ss ≡ none → has_free ss ≡ false
unfolding free_state has_free
free_state-none [] h = refl
free_state-none (s ∷ ss) h = ground (arith, h, free_state-none ss)

-- What holds of a state and of what replaces one holds of it afterwards.
pub at-set {ℓ} :
    (P : FdState → Type ℓ) (ss : List FdState) (i j : ℕ) (s : FdState)
    → P (at ss j)
    → P s
    → P (at (set ss i s) j)
at-set P [] i j s h k = h
at-set P (x ∷ ss) zero zero s h k = k
at-set P (x ∷ ss) zero (suc j) s h k = h
at-set P (x ∷ ss) (suc i) zero s h k = h
at-set P (x ∷ ss) (suc i) (suc j) s h k = at-set P ss i j s h k

pub at-set_twice {ℓ} :
    (P : FdState → Type ℓ) (ss : List FdState) (i j : ℕ) (s s' : FdState)
    → P (at ss j)
    → P s'
    → P (at (set (set ss i s) i s') j)
at-set_twice P [] i j s s' h k = h
at-set_twice P (x ∷ ss) zero zero s s' h k = k
at-set_twice P (x ∷ ss) zero (suc j) s s' h k = h
at-set_twice P (x ∷ ss) (suc i) zero s s' h k = h
at-set_twice P (x ∷ ss) (suc i) (suc j) s s' h k = at-set_twice P ss i j s s' h k

pub at-set_self {ℓ} :
    (P : FdState → Type ℓ) (ss : List FdState) (i : ℕ) (s : FdState)
    → P blank_state
    → P s
    → P (at (set ss i s) i)
at-set_self P [] i s h k = h
at-set_self P (x ∷ ss) zero s h k = k
at-set_self P (x ∷ ss) (suc i) s h k = at-set_self P ss i s h k

-- What the first loop of `get_fd_state` finds.
pub record IsFound (ss : List FdState) (fd i : ℕ) : Type 0 where
  pub in_range : i < length ss
  pub is_it : is_of (at ss i) fd ≡ true
  pub tracked : has_state ss fd ≡ true
  pub counts : pending_of ss fd ≡ (at ss i).pending_count
  pub is_first : (s : FdState) → is_of s fd ≡ true → pending_of (set ss i s) fd ≡ s.pending_count

IsFound-here :
    (s : FdState) (ss : List FdState) (fd : ℕ) → is_of s fd ≡ true → IsFound (s ∷ ss) fd 0
unfolding pending_of has_state
IsFound-here s ss fd e = record {
  in_range = omega arith;
  is_it = e;
  tracked = rw e;
  counts = rw e;
  is_first = λ s' k. rw k;
}

IsFound-later :
    (s : FdState) (ss : List FdState) (fd i : ℕ)
    → is_of s fd ≡ false
    → IsFound ss fd i
    → IsFound (s ∷ ss) fd (suc i)
unfolding pending_of has_state
IsFound-later s ss fd i e f = record {
  in_range = omega (arith, f.in_range);
  is_it = f.is_it;
  tracked = rw e f.tracked;
  counts = rw e f.counts;
  is_first = λ s' k. rw e (f.is_first s' k);
}

find_state-here :
    (s : FdState) (ss : List FdState) (fd : ℕ) → is_of s fd ≡ true → find_state (s ∷ ss) fd ≡ some 0
unfolding find_state
find_state-here s ss fd e = rw e

find_state-later :
    (s : FdState) (ss : List FdState) (fd : ℕ) (o : Option ℕ)
    → is_of s fd ≡ false
    → find_state ss fd ≡ o
    → find_state (s ∷ ss) fd ≡ elim o [ none ↦ none | some i ↦ some (suc i) ]
unfolding find_state
find_state-later s ss fd o e h = rw (e, h)

pub find_state-IsFound :
    (ss : List FdState) (fd i : ℕ) → find_state ss fd ≡ some i → IsFound ss fd i
unfolding find_state
find_state-IsFound [] fd i h = cc
find_state-IsFound (s ∷ ss) fd i h = elim (Bool-cases (is_of s fd)) [
  | inl e ↦
      subst (IsFound (s ∷ ss) fd) (some_injective 0 i (sym (find_state-here s ss fd e) ∙ h))
        (IsFound-here s ss fd e)
  | inr e ↦ elim (Option-cases (find_state ss fd)) [
    | inl o ↦ let f = find_state-later s ss fd none e o in cc
    | inr (j, o) ↦
        subst (IsFound (s ∷ ss) fd)
          (some_injective (suc j) i (sym (find_state-later s ss fd (some j) e o) ∙ h))
          (IsFound-later s ss fd j e (find_state-IsFound ss fd j o))
  ]
]

-- A free state is in range and unused.
pub record IsUnused (ss : List FdState) (i : ℕ) : Type 0 where
  pub in_range : i < length ss
  pub unused : (at ss i).active ≡ false
  pub free : has_free ss ≡ true

free_state-later :
    (s : FdState) (ss : List FdState) (o : Option ℕ)
    → s.active ≡ true
    → free_state ss ≡ o
    → free_state (s ∷ ss) ≡ elim o [ none ↦ none | some i ↦ some (suc i) ]
unfolding free_state
free_state-later s ss o e h = rw (e, h)

free_state-here :
    (s : FdState) (ss : List FdState) → s.active ≡ false → free_state (s ∷ ss) ≡ some 0
unfolding free_state
free_state-here s ss e = rw e

pub free_state-IsUnused : (ss : List FdState) (i : ℕ) → free_state ss ≡ some i → IsUnused ss i
unfolding free_state has_free
free_state-IsUnused [] i h = cc
free_state-IsUnused (s ∷ ss) i h = elim (Bool-cases s.active) [
  | inr e ↦
      subst (IsUnused (s ∷ ss)) (some_injective 0 i (sym (free_state-here s ss e) ∙ h))
        (record { in_range = omega arith; unused = e; free = rw e refl })
  | inl e ↦ elim (Option-cases (free_state ss)) [
    | inl o ↦ let f = free_state-later s ss none e o in cc
    | inr (j, o) ↦
        let u = free_state-IsUnused ss j o in
        subst (IsUnused (s ∷ ss))
          (some_injective (suc j) i (sym (free_state-later s ss (some j) e o) ∙ h))
          (record { in_range = omega (arith, u.in_range); unused = u.unused; free = rw e u.free })
  ]
]

-- A state that is replaced by one that is `g`'s neither before nor after keeps what the table says of `g`.
pub pending_of-set :
    (ss : List FdState) (i : ℕ) (s : FdState) (g : ℕ)
    → is_of (at ss i) g ≡ false
    → is_of s g ≡ false
    → pending_of (set ss i s) g ≡ pending_of ss g
unfolding pending_of
pending_of-set [] i s g h k = refl
pending_of-set (x ∷ ss) zero s g h k = rw (h, k) refl
pending_of-set (x ∷ ss) (suc i) s g h k = rw (pending_of-set ss i s g h k)

pub has_state-set :
    (ss : List FdState) (i : ℕ) (s : FdState) (g : ℕ)
    → is_of (at ss i) g ≡ is_of s g
    → has_state (set ss i s) g ≡ has_state ss g
unfolding has_state
has_state-set [] i s g h = refl
has_state-set (x ∷ ss) zero s g h = rw h
has_state-set (x ∷ ss) (suc i) s g h = rw (has_state-set ss i s g h)

pub has_free-set :
    (ss : List FdState) (i : ℕ) (s : FdState)
    → s.active ≡ true
    → has_free ss ≡ false
    → has_free (set ss i s) ≡ false
unfolding has_free
has_free-set [] i s e h = refl
has_free-set (x ∷ ss) zero s e h = ground (arith, e, h)
has_free-set (x ∷ ss) (suc i) s e h = ground (arith, h, has_free-set ss i s e)

pub pending_of-none : (ss : List FdState) (fd : ℕ) → has_state ss fd ≡ false → pending_of ss fd ≡ 0
unfolding has_state pending_of
pending_of-none [] fd h = refl
pending_of-none (x ∷ ss) fd h = ground (arith, h, pending_of-none ss fd)

has_state-later :
    (x : FdState) (ss : List FdState) (fd : ℕ)
    → is_of x fd ≡ false
    → has_state (x ∷ ss) fd ≡ has_state ss fd
unfolding has_state
has_state-later x ss fd e = rw e refl

-- A state allocated for a file that has none is its first.
pub new-IsFound :
    (ss : List FdState) (fd i : ℕ) (s : FdState)
    → has_state ss fd ≡ false
    → i < length ss
    → is_of s fd ≡ true
    → IsFound (set ss i s) fd i
unfolding has_state
new-IsFound [] fd i s h r k = elim r [ ]
new-IsFound (x ∷ ss) fd zero s h r k = IsFound-here s ss fd k
new-IsFound (x ∷ ss) fd (suc i) s h r k = elim (Bool-cases (is_of x fd)) [
  | inl e ↦ ground (arith, e, h)
  | inr e ↦
      IsFound-later x (set ss i s) fd i e
        (new-IsFound ss fd i s (sym (has_state-later x ss fd e) ∙ h) (omega (arith, r)) k)
]
