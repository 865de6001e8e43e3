-- ===== src/Registry/Location.antt =====
-- The locations of objects in src/registry/registry.c: their keys, and how they are written as JSON.
use buckets.Prelude.{
  ℕ, ◌+◌, ◌-◌, ◌%◌, ◌^◌, List, [], ◌∷◌, ◌++◌, Option, none, some, set, take, replicate,
  if◌then◌else◌, leb, ◌==◌,
}
use buckets.Prelude.Maybe.{◌>>=◌}
use buckets.Prelude.Int.{ℤ, pos, negsuc}
use buckets.Text.{Bytes, codes, fit}
use buckets.Json.{Platform, or_default, get_int, get_string}

-- `buckets_object_location_t`, with the 16 entries of `disk_idxs`.
pub record ObjectLocation : Type 0 where
  pub bucket : Bytes
  pub object : Bytes
  pub version_id : Bytes
  pub pool_idx : ℕ
  pub set_idx : ℕ
  pub disk_count : ℕ
  pub disk_idxs : List ℕ
  pub generation : ℕ
  pub mod_time : ℤ
  pub size : ℕ

abbrev pub slash : ℕ
slash = b'/'

-- `buckets_registry_build_key`.
unfoldable pub build_key : Bytes → Bytes → Bytes → Bytes
build_key bucket object version_id = bucket ++ (slash ∷ (object ++ (slash ∷ version_id)))

-- `strchr` for a slash: what stands before it and what behind it.
unfoldable pub split_slash : Bytes → Option (Bytes × Bytes)
split_slash [] = none
split_slash (c ∷ cs) =
    let rest = split_slash cs in
    if c == slash then some ([], cs) else rest >>= (λ parts. some (c ∷ parts.0, parts.1))

-- `buckets_registry_parse_key`.
unfoldable pub parse_key : Bytes → Option (Bytes × Bytes × Bytes)
unfolding split_slash
parse_key key = do
  bucket ← split_slash key
  object ← split_slash bucket.1
  some (bucket.0, object.0, object.1)

-- The name under which a location is stored, in a buffer of 1024 bytes.
abbrev pub entry_name : Bytes → Bytes → Bytes → Bytes
entry_name bucket object version_id = fit 1024 (build_key bucket object version_id ++ codes ".json")

-- An `int` cast to an unsigned type of `bits` bits.
abbrev pub unsigned : ℕ → ℤ → ℕ
unsigned bits (pos n) = n % 2 ^ bits
unsigned bits (negsuc n) = 2 ^ bits - 1 - n % 2 ^ bits

abbrev pub max_disks : ℕ
max_disks = 16

module _ {J Disks : Type 0} (p : Platform J Disks) where
  unfoldable pub idxs_to_json : J → List ℕ → J
  idxs_to_json array [] = array
  idxs_to_json array (i ∷ is) = idxs_to_json (p.add_to_array array (p.create_number (pos i))) is

  -- `buckets_registry_location_to_json`; none is a read past `disk_idxs` as well as a failure to print.
  unfoldable pub location_to_json : ObjectLocation → Option Bytes
  unfolding idxs_to_json
  location_to_json l =
      let r1 = p.add_string p.object (codes "bucket") l.bucket in
      let r2 = p.add_string r1 (codes "object") l.object in
      let r3 = p.add_string r2 (codes "version_id") l.version_id in
      let r4 = p.add_number r3 (codes "pool_idx") (pos l.pool_idx) in
      let r5 = p.add_number r4 (codes "set_idx") (pos l.set_idx) in
      let r6 = p.add_number r5 (codes "disk_count") (pos l.disk_count) in
      let disks = idxs_to_json p.array (take l.disk_count l.disk_idxs) in
      let r7 = p.add_item r6 (codes "disk_idxs") disks in
      let r8 = p.add_number r7 (codes "generation") (pos l.generation) in
      let r9 = p.add_number r8 (codes "mod_time") l.mod_time in
      let r10 = p.add_number r9 (codes "size") (pos l.size) in
      if leb l.disk_count max_disks then p.print_unformatted r10 else none

  abbrev pub with_idx : List ℕ → ℕ → Option ℤ → List ℕ
  with_idx idxs i none = idxs
  with_idx idxs i (some n) = set idxs i (unsigned 32 n)

  -- The loop over the array of disks, from index `i`.
  unfoldable pub idxs_from_json : List J → ℕ → List ℕ → List ℕ
  idxs_from_json [] i idxs = idxs
  idxs_from_json (item ∷ items) i idxs =
      idxs_from_json items (i + 1) (with_idx idxs i (p.number item))

  abbrev pub string_at : J → Bytes → Bytes
  string_at json key = or_default (get_string p json key) []

  -- `buckets_registry_location_from_json`.
  unfoldable pub location_from_json : Bytes → Option ObjectLocation
  unfolding idxs_from_json
  location_from_json text = do
    json ← p.parse text
    let disks = or_default (p.item_any_case json (codes "disk_idxs") >>= p.elements) []
    some (record {
      bucket = string_at json (codes "bucket");
      object = string_at json (codes "object");
      version_id = string_at json (codes "version_id");
      pool_idx = unsigned 32 (get_int p json (codes "pool_idx") (pos 0));
      set_idx = unsigned 32 (get_int p json (codes "set_idx") (pos 0));
      disk_count = unsigned 32 (get_int p json (codes "disk_count") (pos 0));
      disk_idxs = idxs_from_json (take max_disks disks) 0 (replicate max_disks 0);
      generation = unsigned 64 (get_int p json (codes "generation") (pos 0));
      mod_time = get_int p json (codes "mod_time") (pos 0);
      size = unsigned 64 (get_int p json (codes "size") (pos 0));
    })
