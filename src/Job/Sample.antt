-- ===== src/Job/Sample.antt =====
-- A platform to save checkpoints on: objects as lists of fields, printed with lengths in front.
use buckets.Prelude.{
  ℕ, zero, suc, ◌≤◌, ◌<◌, ◌≡◌, refl, ap, inl, inr, Bool, true, false, List, [], ◌∷◌, ◌++◌, Option,
  none, some, length, length-append, take, drop, if◌then◌else◌, Bool-cases, arith,
}
use buckets.Prelude.Maybe.{◌>>=◌}
use buckets.Prelude.Int.{ℤ, pos, negsuc}
use buckets.Text.{Bytes}
use buckets.Json.{Platform}
use buckets.Topology.Durable.{Files}
use buckets.Topology.Sample.{sample, sample-files}
use buckets.Job.Objects.{same_key, first, ObjectLaws}

pub data Value : Type 0 where
  number : ℤ → Value
  text : Bytes → Value
  empty : Value
  with_number : Value → Bytes → ℤ → Value
  with_text : Value → Bytes → Bytes → Value

abbrev is_object : Value → Bool
is_object (number n) = false
is_object (text s) = false
is_object empty = true
is_object (with_number v key n) = is_object v
is_object (with_text v key s) = is_object v

unfoldable pub encode : Value → Bytes
encode (number n) = []
encode (text s) = []
encode empty = []
encode (with_number v key (pos n)) = 0 ∷ n ∷ length key ∷ (key ++ encode v)
encode (with_number v key (negsuc n)) = 1 ∷ n ∷ length key ∷ (key ++ encode v)
encode (with_text v key s) = 2 ∷ length key ∷ length (key ++ s) ∷ ((key ++ s) ++ encode v)

abbrev field : ℕ → ℕ → Bytes → Value → Value
field zero n content v = with_number v content (pos n)
field (suc zero) n content v = with_number v content (negsuc n)
field (suc (suc tag)) n content v = with_text v (take n content) (drop n content)

unfoldable pub decode : ℕ → Bytes → Option Value
decode zero bytes = none
decode (suc fuel) [] = some empty
decode (suc fuel) (tag ∷ n ∷ size ∷ rest) =
    decode fuel (drop size rest) >>= (λ v. some (field tag n (take size rest) v))
decode (suc fuel) other = none

depth : Value → ℕ
depth (number n) = 0
depth (text s) = 0
depth empty = 0
depth (with_number v key n) = suc (depth v)
depth (with_text v key s) = suc (depth v)

take_append : (xs ys : Bytes) → take (length xs) (xs ++ ys) ≡ xs
take_append [] ys = refl
take_append (x ∷ xs) ys = ap (◌∷◌ x) (take_append xs ys)

drop_append : (xs ys : Bytes) → drop (length xs) (xs ++ ys) ≡ ys
drop_append [] ys = refl
drop_append (x ∷ xs) ys = drop_append xs ys

decode-encode :
    (v : Value) (fuel : ℕ) → is_object v ≡ true → depth v < fuel → decode fuel (encode v) ≡ some v
unfolding decode encode depth
decode-encode (number n) fuel h lt = cc
decode-encode (text s) fuel h lt = cc
decode-encode v zero h lt = absurd (omega arith)
decode-encode empty (suc fuel) h lt = refl
decode-encode (with_number v key (pos n)) (suc fuel) h lt =
    rw
      (drop_append key (encode v), take_append key (encode v), decode-encode v fuel h (omega arith))
      refl
decode-encode (with_number v key (negsuc n)) (suc fuel) h lt =
    rw
      (drop_append key (encode v), take_append key (encode v), decode-encode v fuel h (omega arith))
      refl
decode-encode (with_text v key s) (suc fuel) h lt =
    rw
      (
        drop_append (key ++ s) (encode v),
        take_append (key ++ s) (encode v),
        decode-encode v fuel h (omega arith),
        take_append key s,
        drop_append key s,
      )
      refl

depth-le-length : (v : Value) → depth v ≤ length (encode v)
unfolding encode depth
depth-le-length (number n) = omega arith
depth-le-length (text s) = omega arith
depth-le-length empty = omega arith
depth-le-length (with_number v key (pos n)) =
    omega (arith, length-append key (encode v), depth-le-length v)
depth-le-length (with_number v key (negsuc n)) =
    omega (arith, length-append key (encode v), depth-le-length v)
depth-le-length (with_text v key s) =
    omega (arith, length-append (key ++ s) (encode v), depth-le-length v)

unfoldable pub find : Value → Bytes → Option Value
find (number n) key = none
find (text s) key = none
find empty key = none
find (with_number v name n) key =
    first (find v key) (if same_key name key then some (number n) else none)
find (with_text v name s) key =
    first (find v key) (if same_key name key then some (text s) else none)

abbrev number_or_zero : Value → ℤ
number_or_zero (number n) = n
number_or_zero other = pos 0

abbrev number_in : Value → Option ℤ
number_in (number n) = some n
number_in other = none

abbrev text_in : Value → Option Bytes
text_in (text s) = some s
text_in other = none

abbrev printed : Value → Option Bytes
printed v = if is_object v then some (encode v) else none

abbrev parsed : Bytes → Option Value
parsed bytes = decode (suc (length bytes)) bytes

-- Arrays and objects in objects are left out.
abbrev pub flat : Platform Value (List (Bytes × Bytes))
flat = record {
  object = empty;
  array = empty;
  add_number = with_number;
  add_string = with_text;
  add_item = λ v key item. v;
  create_number = number;
  add_to_array = λ v item. v;
  item = find;
  item_any_case = find;
  number = number_in;
  text = text_in;
  number_value = number_or_zero;
  elements = λ v. none;
  print = printed;
  print_unformatted = printed;
  parse = parsed;
  strtoull = λ s. 0;
  write = sample.write;
  read = sample.read;
}

pub flat-files : Files flat
flat-files = record { written = sample-files.written; kept = sample-files.kept }

parsed-printed : (v : Value) (bytes : Bytes) → printed v ≡ some bytes → parsed bytes ≡ some v
parsed-printed v bytes h = elim (Bool-cases (is_object v)) [
  | inr scalar ↦ absurd (ground (arith, scalar, h))
  | inl object ↦
      let e : encode v ≡ bytes = ground (arith, object, h) in
      rw (← e) (decode-encode v (suc (length (encode v))) object (omega (arith, depth-le-length v)))
]

pub flat-laws : ObjectLaws flat
unfolding find
flat-laws = record {
  IsPlain = λ v. is_object v ≡ true;
  plain_object = refl;
  plain_number = λ v key n plain name exact. plain;
  plain_text = λ v key s plain name content. plain;
  of_number = number;
  of_text = text;
  item_object = λ key. refl;
  item_number = λ v key key' n. refl;
  item_text = λ v key key' s. refl;
  number_value_lem = λ n exact. refl;
  text_lem = λ s. refl;
  parse-print = λ v bytes plain h. parsed-printed v bytes h;
}
