-- ===== src/Json.antt =====
-- The JSON helpers of src/cluster/json_helpers.c, over the operations of cJSON and of the file system.
use buckets.Prelude.{ℕ, ◌≡◌, refl, List, Option, none, some}
use buckets.Prelude.Maybe.{◌>>=◌}
use buckets.Prelude.Int.{ℤ}
use buckets.Status.{Error}
use buckets.Text.{Bytes}

-- What the code calls outside its sources: cJSON's constructors and readers, strtoull, and the file
-- system below `buckets_atomic_write` and `buckets_atomic_read`, whose state is a `Disks`.
pub record Platform (J Disks : Type 0) : Type 0 where
  -- cJSON_CreateObject, cJSON_CreateArray, cJSON_CreateNumber.
  pub object : J
  pub array : J
  pub create_number : ℤ → J
  -- cJSON_AddNumberToObject, cJSON_AddStringToObject, cJSON_AddItemToObject, cJSON_AddItemToArray.
  pub add_number : J → Bytes → ℤ → J
  pub add_string : J → Bytes → Bytes → J
  pub add_item : J → Bytes → J → J
  pub add_to_array : J → J → J
  -- cJSON_GetObjectItemCaseSensitive, cJSON_GetObjectItem, and an item's value where it is of the type asked for.
  pub item : J → Bytes → Option J
  pub item_any_case : J → Bytes → Option J
  pub number : J → Option ℤ
  pub text : J → Option Bytes
  -- cJSON_GetNumberValue, cast to an integer.
  pub number_value : J → ℤ
  pub elements : J → Option (List J)
  -- cJSON_Print, cJSON_PrintUnformatted, cJSON_Parse.
  pub print : J → Option Bytes
  pub print_unformatted : J → Option Bytes
  pub parse : Bytes → Option J
  pub strtoull : Bytes → ℕ
  -- A whole file: `none` for success, and what a read finds.
  pub write : Disks → Bytes → Bytes → Disks × Option Error
  pub read : Disks → Bytes → Option Bytes

abbrev pub or_default {ℓ} : {A : Type ℓ} → Option A → A → A
or_default none d = d
or_default (some a) d = a

module _ {J Disks : Type 0} (p : Platform J Disks) where
  abbrev pub get_int : J → Bytes → ℤ → ℤ
  get_int json key default = or_default (p.item json key >>= p.number) default

  abbrev pub get_string : J → Bytes → Option Bytes
  get_string json key = p.item json key >>= p.text

  abbrev pub get_array : J → Bytes → Option (List J)
  get_array json key = p.item json key >>= p.elements

  -- `buckets_json_save`, printed for reading; `none` is BUCKETS_OK.
  unfoldable pub save_json : Disks → Bytes → J → Disks × Option Error
  save_json disks path json = elim (p.print json) [
    | none ↦ (disks, some Error.nomem)
    | some text ↦ p.write disks path text
  ]

  -- `buckets_json_load`.
  unfoldable pub load_json : Disks → Bytes → Option J
  load_json disks path = p.read disks path >>= p.parse

  pub save_json-printed :
      (disks : Disks) (path : Bytes) (json : J) (text : Bytes)
      → p.print json ≡ some text
      → save_json disks path json ≡ p.write disks path text
  unfolding save_json
  save_json-printed disks path json text printed = rw (save_json, printed) refl
