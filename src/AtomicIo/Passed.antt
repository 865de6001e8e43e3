-- ===== src/AtomicIo/Passed.antt =====
-- Lists of the states that a write of src/cluster/atomic_io.c passes through.
use buckets.Prelude.{ℕ, zero, suc, ◌≡◌, refl, subst, List, [], ◌∷◌, ◌++◌, some, get_elem?}
use buckets.Prelude.Maybe.{some_injective}
use buckets.AtomicIo.{last_of}
use buckets.AtomicIo.Crash.{All}

pub All-append {ℓ} :
    {F : Type ℓ} (P : F → Type 0) (xs ys : List F) → All P xs → All P ys → All P (xs ++ ys)
All-append P [] ys a b = b
All-append P (x ∷ xs) ys (p, a) b = (p, All-append P xs ys a b)

pub All-last {ℓ} :
    {F : Type ℓ} (P : F → Type 0) (s : F) (states : List F)
    → P s
    → All P states
    → P (last_of s states)
All-last P s [] p a = p
All-last P s (t ∷ states) p (q, a) = All-last P t states q a

pub All-at {ℓ} :
    {F : Type ℓ} (P : F → Type 0) (states : List F) (i : ℕ) (s : F)
    → All P states
    → get_elem? states i ≡ some s
    → P s
All-at P [] i s a e = cc
All-at P (t ∷ states) zero s (p, a) e = subst P (some_injective t s e) p
All-at P (t ∷ states) (suc i) s (p, a) e = All-at P states i s a e

pub last_of-append {ℓ} :
    {F : Type ℓ} (s : F) (xs ys : List F) → last_of s (xs ++ ys) ≡ last_of (last_of s xs) ys
last_of-append s [] ys = refl
last_of-append s (x ∷ xs) ys = last_of-append x xs ys
