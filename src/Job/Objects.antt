-- ===== src/Job/Objects.antt =====
-- How cJSON keeps the objects that src/migration/orchestrator.c saves as checkpoints.
use buckets.Prelude.{
  ℕ, ◌^◌, [], ◌<◌, ◌≡◌, Bool, ◌∷◌, Option, none, some, if◌then◌else◌, map, ◌+◌, ltb,
}
use buckets.Prelude.Int.{ℤ, pos, negsuc}
use buckets.Text.{Bytes, same_text}
use buckets.Json.{Platform}

abbrev pub lower : ℕ → ℕ
lower c = if ltb c b'A' then c else if ltb b'Z' c then c else c + 32

-- Names that cJSON_GetObjectItem takes as the same.
abbrev pub same_key : Bytes → Bytes → Bool
same_key a b = same_text (map lower a) (map lower b)

abbrev pub first {ℓ} : {A : Type ℓ} → Option A → Option A → Option A
first (some a) o = some a
first none o = o

-- An integer of at most 15 digits: cJSON prints a number with 15 digits where that is close enough to it.
abbrev pub IsExact : ℤ → Type 0
IsExact (pos n) = n < 10 ^ 15
IsExact (negsuc n) = n + 1 < 10 ^ 15

-- The bytes of a C string.
abbrev pub IsText : Bytes → Type 0
IsText [] = Unit {0}
IsText (c ∷ cs) = (0 < c) × IsText cs

-- How cJSON keeps an object: an item is found by its name, in the order in which they were added, with its number
-- or its text. A plain object has been built from C strings and from integers of at most 15 digits; it is printed so that
-- it is parsed as it was.
pub record ObjectLaws {J Disks : Type 0} (p : Platform J Disks) : Type 1 where
  pub IsPlain : J → Type 0
  pub plain_object : IsPlain p.object
  pub plain_number :
      (json : J) (key : Bytes) (n : ℤ)
      → IsPlain json
      → IsText key
      → IsExact n
      → IsPlain (p.add_number json key n)
  pub plain_text :
      (json : J) (key text : Bytes)
      → IsPlain json
      → IsText key
      → IsText text
      → IsPlain (p.add_string json key text)
  pub of_number : ℤ → J
  pub of_text : Bytes → J
  pub item_object : (key : Bytes) → p.item_any_case p.object key ≡ none
  pub item_number :
      (json : J) (key key' : Bytes) (n : ℤ)
      → p.item_any_case (p.add_number json key n) key'
        ≡ first (p.item_any_case json key') (if same_key key key' then some (of_number n) else none)
  pub item_text :
      (json : J) (key key' text : Bytes)
      → p.item_any_case (p.add_string json key text) key'
        ≡ first
            (p.item_any_case json key')
            (if same_key key key' then some (of_text text) else none)
  pub number_value_lem : (n : ℤ) → IsExact n → p.number_value (of_number n) ≡ n
  pub text_lem : (text : Bytes) → p.text (of_text text) ≡ some text
  pub parse-print :
      (json : J) (text : Bytes) → IsPlain json → p.print json ≡ some text → p.parse text ≡ some json
