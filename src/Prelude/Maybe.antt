-- ===== src/Prelude/Maybe.antt =====
-- `do` blocks over Option.
use mathlib.Core.Path.{◌≡◌, refl, ap}
use mathlib.Core.Bool.{Bool, true, false}
use buckets.Prelude.Tests.{if◌then◌else◌}
use mathlib.Core.Option.{Option, none, some}

infixl 5 ◌>>=◌
abbrev pub ◌>>=◌ {ℓ κ} : {A : Type ℓ} {B : Type κ} → Option A → (A → Option B) → Option B
none >>= f = none
some a >>= f = f a

pub some_of_bind {ℓ κ} :
    {A : Type ℓ} {B : Type κ} (o : Option A) (f : A → Option B) (b : B)
    → o >>= f ≡ some b
    → (a : A) × (o ≡ some a) × (f a ≡ some b)
some_of_bind none f b h = cc
some_of_bind (some a) f b h = (a, refl, h)

module _ {ℓ} {A : Type ℓ} where
  pub some_injective : (a b : A) → some a ≡ some b → a ≡ b
  some_injective a b e = ap (λ o. elim o [ none ↦ a | some x ↦ x ]) e

  pub some_of_then :
      (b : Bool) (o : Option A) (r : A) → (if b then o else none) ≡ some r → o ≡ some r
  some_of_then true o r h = h
  some_of_then false o r h = cc

  pub some_of_else : (b : Bool) (x r : A) → (if b then none else some x) ≡ some r → x ≡ r
  some_of_else true x r h = cc
  some_of_else false x r h = some_injective x r h
