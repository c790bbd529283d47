-- ===== src/Json.antt =====
-- What the program uses of nlohmann/json, over the values `V` of that library. `none` is an exception,
-- and `find k j` is `j.contains(k)` with `j[k]`: there is none in a value that is no object.
pub mod Samples
use lightapr.Prelude.{ℕ, ◌≡◌, ◌<◌, ◌≤◌, Bool, true, false, Option, none, some, List}
use lightapr.Prelude.Text.{Text}
use lightapr.Prelude.Dict.{Dict, lookup}

pub record Json (V : Type 0) : Type 0 where
  pub parse : Text → Option V
  pub dump : V → Text
  pub is_null : V → Bool
  pub is_string : V → Bool
  pub is_number : V → Bool
  pub is_array : V → Bool
  pub is_object : V → Bool
  pub find : Text → V → Option V
  pub get_string : V → Option Text
  pub get_strings : V → Option (List Text)
  pub get_uint16 : V → Option ℕ
  pub get_int64 : V → Option ℕ
  pub elements : V → List V
  pub entries : V → Dict V
  pub null : V
  pub of_string : Text → V
  pub of_number : ℕ → V
  pub of_strings : List Text → V
  pub array : List V → V
  pub object : Dict V → V

-- What a value that was made holds, as the library documents it. A number is read back as it was
-- written when the type that it is read into has it.
pub record IsLawful {V : Type 0} (J : Json V) : Type 0 where
  pub find-object : (k : Text) (m : Dict V) → J.find k (J.object m) ≡ lookup k m
  pub object-object : (m : Dict V) → J.is_object (J.object m) ≡ true
  pub object-null : (m : Dict V) → J.is_null (J.object m) ≡ false
  pub null-null : J.is_null J.null ≡ true
  pub null-number : J.is_number J.null ≡ false
  pub string-string : (t : Text) → J.is_string (J.of_string t) ≡ true
  pub get-of_string : (t : Text) → J.get_string (J.of_string t) ≡ some t
  pub strings-array : (ts : List Text) → J.is_array (J.of_strings ts) ≡ true
  pub get-of_strings : (ts : List Text) → J.get_strings (J.of_strings ts) ≡ some ts
  pub number-number : (n : ℕ) → J.is_number (J.of_number n) ≡ true
  pub get_uint16-of_number : (n : ℕ) → n < 65536 → J.get_uint16 (J.of_number n) ≡ some n
  pub get_int64-of_number : (n : ℕ) → n < 9223372036854775808 → J.get_int64 (J.of_number n) ≡ some n
