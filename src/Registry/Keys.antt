-- ===== src/Registry/Keys.antt =====
-- The keys of src/registry/registry.c.
use buckets.Prelude.{
  ◌≡◌, refl, Bool, true, false, [], ◌∷◌, ◌++◌, some, if◌then◌else◌, ◌==◌, arith, Bool-cases, inl,
  inr,
}
use mathlib.Core.List.{append_assoc}
use buckets.Text.{Bytes}
use buckets.Registry.Location.{slash, build_key, split_slash, parse_key}

unfoldable pub has_slash : Bytes → Bool
has_slash [] = false
has_slash (c ∷ cs) = let rest = has_slash cs in if c == slash then true else rest

split_slash-first :
    (a b : Bytes) → has_slash a ≡ false → split_slash (a ++ (slash ∷ b)) ≡ some (a, b)
unfolding has_slash split_slash
split_slash-first [] b h = refl
split_slash-first (c ∷ a) b h = elim (Bool-cases (c == slash)) [
  | inl e ↦ ground (arith, e, h)
  | inr e ↦ rw (e, split_slash-first a b (ground (arith, e, h))) refl
]

-- A key is parsed as the names it was built from, if neither the bucket nor the object has a slash in its name.
pub parse_key-build_key :
    (bucket object version_id : Bytes)
    → has_slash bucket ≡ false
    → has_slash object ≡ false
    → parse_key (build_key bucket object version_id) ≡ some (bucket, object, version_id)
unfolding parse_key build_key
parse_key-build_key bucket object version_id h k =
    rw
      (
        split_slash-first bucket (object ++ (slash ∷ version_id)) h,
        split_slash-first object version_id k,
      )
      refl

-- The key of an object whose name has a slash is parsed as another object: what stands behind the first slash of its
-- name goes to the version.
pub parse_key-nested :
    (bucket folder name version_id : Bytes)
    → has_slash bucket ≡ false
    → has_slash folder ≡ false
    → parse_key (build_key bucket (folder ++ (slash ∷ name)) version_id)
      ≡ some (bucket, folder, name ++ (slash ∷ version_id))
unfolding parse_key build_key
parse_key-nested bucket folder name version_id h k =
    rw
      (
        split_slash-first bucket ((folder ++ (slash ∷ name)) ++ (slash ∷ version_id)) h,
        append_assoc folder (slash ∷ name) (slash ∷ version_id),
        split_slash-first folder (name ++ (slash ∷ version_id)) k,
      )
      refl
