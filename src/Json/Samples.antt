-- ===== src/Json/Samples.antt =====
-- A small JSON library, for the runs in the test modules: its values, and a parser and a printer that
-- know one text. It fits what the interface asks of nlohmann/json.
use lightapr.Prelude.{
  ℕ, ◌%◌, ◌≡◌, refl, ap, Bool, true, false, Option, none, some, List, [], ◌∷◌, arith, map,
  if◌then◌else◌,
}
use lightapr.Prelude.Text.{Text, codes, text_eq}
use lightapr.Prelude.Dict.{Dict, lookup}
use lightapr.Json.{Json, IsLawful}

mutual
  pub data Value : Type 0 where
    null_value : Value
    string_value : Text → Value
    number_value : ℕ → Value
    strings_value : List Text → Value
    array_value : Members → Value
    object_value : Members → Value

  pub data Members : Type 0 where
    end : Members
    member : Text → Value → Members → Members

to_members : Dict Value → Members
to_members [] = end
to_members ((k, v) ∷ m) = member k v (to_members m)

of_members : Members → Dict Value
of_members end = []
of_members (member k v ms) = (k, v) ∷ of_members ms

of-to_members : (m : Dict Value) → of_members (to_members m) ≡ m
unfolding of_members to_members
of-to_members [] = refl
of-to_members ((k, v) ∷ m) = rw (of-to_members m) refl

-- The payload of the runs, and what it says.
abbrev pub sample_text : Text
sample_text = codes "sample"

abbrev pub sample_value : Value
sample_value = object_value (
    member (codes "role") (string_value (codes "web"))
      (member (codes "workers") (strings_value (codes "mail" ∷ [])) end))

sample_parse : Text → Option Value
sample_parse t = if text_eq t sample_text then some sample_value else none

is_null : Value → Bool
is_null null_value = true
is_null _ = false

is_string : Value → Bool
is_string (string_value t) = true
is_string _ = false

is_number : Value → Bool
is_number (number_value n) = true
is_number _ = false

is_array : Value → Bool
is_array (strings_value ts) = true
is_array (array_value vs) = true
is_array _ = false

is_object : Value → Bool
is_object (object_value ms) = true
is_object _ = false

find : Text → Value → Option Value
find k (object_value ms) = lookup k (of_members ms)
find k _ = none

get_string : Value → Option Text
get_string (string_value t) = some t
get_string _ = none

get_strings : Value → Option (List Text)
get_strings (strings_value ts) = some ts
get_strings _ = none

get_number : Value → Option ℕ
get_number (number_value n) = some n
get_number _ = none

get_uint16 : Value → Option ℕ
get_uint16 (number_value n) = some (n % 65536)
get_uint16 _ = none

elements : Value → List Value
elements (array_value vs) = map (λ entry. entry.1) (of_members vs)
elements _ = []

entries : Value → Dict Value
entries (object_value ms) = of_members ms
entries _ = []

unfoldable pub sample_json : Json Value
unfolding sample_parse is_null is_string is_number is_array is_object find get_string get_strings
    get_number get_uint16 elements entries to_members of_members
sample_json = record {
  parse = sample_parse;
  dump = λ v. codes "value";
  is_null = is_null;
  is_string = is_string;
  is_number = is_number;
  is_array = is_array;
  is_object = is_object;
  find = find;
  get_string = get_string;
  get_strings = get_strings;
  get_uint16 = get_uint16;
  get_int64 = get_number;
  elements = elements;
  entries = entries;
  null = null_value;
  of_string = string_value;
  of_number = number_value;
  of_strings = strings_value;
  array = λ vs. array_value (to_members (map (λ v. ([], v)) vs));
  object = λ m. object_value (to_members m);
}

pub sample-IsLawful : IsLawful sample_json
unfolding sample_json find is_null is_string is_number is_array is_object get_string get_strings
    get_uint16 get_number
sample-IsLawful = record {
  find-object = λ k m. ap (lookup k) (of-to_members m);
  object-object = λ m. refl;
  object-null = λ m. refl;
  null-null = refl;
  null-number = refl;
  string-string = λ t. refl;
  get-of_string = λ t. refl;
  strings-array = λ ts. refl;
  get-of_strings = λ ts. refl;
  number-number = λ n. refl;
  get_uint16-of_number = λ n h. ap some (omega arith);
  get_int64-of_number = λ n h. refl;
}

-- The same library, parsing every text as one value.
abbrev pub parse_as : Value → Json Value
parse_as v = record sample_json { parse = λ t. some v }

pub parse_as-IsLawful : (v : Value) → IsLawful (parse_as v)
parse_as-IsLawful v = record {
  find-object = sample-IsLawful.find-object;
  object-object = sample-IsLawful.object-object;
  object-null = sample-IsLawful.object-null;
  null-null = sample-IsLawful.null-null;
  null-number = sample-IsLawful.null-number;
  string-string = sample-IsLawful.string-string;
  get-of_string = sample-IsLawful.get-of_string;
  strings-array = sample-IsLawful.strings-array;
  get-of_strings = sample-IsLawful.get-of_strings;
  number-number = sample-IsLawful.number-number;
  get_uint16-of_number = sample-IsLawful.get_uint16-of_number;
  get_int64-of_number = sample-IsLawful.get_int64-of_number;
}
