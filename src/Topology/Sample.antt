-- ===== src/Topology/Sample.antt =====
-- A platform to run src/cluster/topology.c on: JSON as tagged lists with lengths in front, and files
-- as a list of names and texts.
use buckets.Prelude.{
  ℕ, zero, suc, ◌+◌, ◌-◌, ◌*◌, refl, sym, ap, ◌∙◌, inl, inr, List, [], ◌∷◌, ◌++◌, Option, none,
  some, length, take, drop, if◌then◌else◌, Bool-cases,
}
use buckets.Prelude.Int.{ℤ, pos, negsuc}
use buckets.Text.{Bytes, same_text, same_text_iff, same_text_refl}
use buckets.Json.{Platform, or_default}
use buckets.Topology.Durable.{Files}

abbrev counted : Bytes → Bytes
counted text = length text ∷ text

abbrev number_tag : ℤ → Bytes
number_tag (pos n) = 0 ∷ n ∷ []
number_tag (negsuc n) = 1 ∷ n ∷ []

abbrev number_of : Bytes → Option ℤ
number_of (zero ∷ n ∷ []) = some (pos n)
number_of (suc zero ∷ n ∷ []) = some (negsuc n)
number_of other = none

abbrev text_of : Bytes → Option Bytes
text_of (suc (suc zero) ∷ text) = some text
text_of other = none

unfoldable pub find_field : ℕ → Bytes → Bytes → Option Bytes
find_field zero json key = none
find_field (suc fuel) [] key = none
find_field (suc fuel) (n ∷ rest) key =
    let value = drop n rest in
    elim value [
      | [] ↦ none
      | m ∷ tail ↦
          if same_text (take n rest) key
          then some (take m tail)
          else find_field fuel (drop m tail) key
    ]

unfoldable pub split : ℕ → Bytes → List Bytes
split zero json = []
split (suc fuel) [] = []
split (suc fuel) (n ∷ rest) = take n rest ∷ split fuel (drop n rest)

abbrev field_of : Bytes → Bytes → Option Bytes
field_of (suc (suc (suc zero)) ∷ fields) key = find_field (length fields) fields key
field_of other key = none

abbrev elements_of : Bytes → Option (List Bytes)
elements_of (suc (suc (suc (suc zero))) ∷ items) = some (split (length items) items)
elements_of other = none

abbrev digits_from : ℕ → Bytes → ℕ
digits_from n [] = n
digits_from n (c ∷ cs) = digits_from (n * 10 + (c - b'0')) cs

abbrev pub Drive : Type 0
Drive = List (Bytes × Bytes)

unfoldable pub read_file : Drive → Bytes → Option Bytes
read_file [] file = none
read_file ((name, text) ∷ drive) file =
    if same_text name file then some text else read_file drive file

abbrev pub sample : Platform Bytes Drive
sample = record {
  object = 3 ∷ [];
  array = 4 ∷ [];
  add_number = λ json key n. json ++ counted key ++ counted (number_tag n);
  add_string = λ json key text. json ++ counted key ++ counted (2 ∷ text);
  add_item = λ json key item. json ++ counted key ++ counted item;
  create_number = number_tag;
  add_to_array = λ json item. json ++ counted item;
  item = field_of;
  item_any_case = field_of;
  number = number_of;
  text = text_of;
  number_value = λ json. or_default (number_of json) (pos 0);
  elements = elements_of;
  print = λ json. some json;
  print_unformatted = λ json. some json;
  parse = λ text. some text;
  strtoull = digits_from 0;
  write = λ drive file text. ((file, text) ∷ drive, none);
  read = read_file;
}

pub sample-files : Files sample
unfolding read_file
sample-files = record {
  written = λ drive drive' file text h.
      ap (λ r. read_file r.0 file) (sym h) ∙ rw (same_text_refl file) refl;
  kept = λ drive file other text apart. elim (Bool-cases (same_text file other)) [
    | inl same ↦ absurd (apart ((same_text_iff file other).0 same))
    | inr differ ↦ rw differ refl
  ];
}
