-- ===== src/Status.antt =====
-- The error codes of include/buckets.h and how an operation of the model fails.

use buckets.Prelude.{◌≡◌, ◌≢◌, ap}

-- `buckets_error_t`, without BUCKETS_OK.
pub data Error : Type 0 where
  nomem invalid_arg not_found exists io network timeout quorum corrupt : Error

pub data Result {ℓ} (A : Type ℓ) : Type ℓ where
  ok : A → Result A
  err : Error → Result A

infixl 5 ◌>>=◌
abbrev pub ◌>>=◌ {ℓ κ} : {A : Type ℓ} {B : Type κ} → Result A → (A → Result B) → Result B
ok a >>= f = f a
err e >>= f = err e

module _ {ℓ} {A : Type ℓ} where
  pub ok_injective : (a b : A) → ok a ≡ ok b → a ≡ b
  ok_injective a b e = ap (λ r. elim r [ ok x ↦ x | err e' ↦ a ]) e

  pub err-ok : {e : Error} {a : A} → err e ≢ ok a
  err-ok h = cc
