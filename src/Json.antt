-- ===== src/Json.antt =====
-- The JSON library that the program is written against (nlohmann::json), which is not part of the
-- repository: its values and the operations that the program calls are a parameter.
use stoatpp.Prelude.{
  ◌<◌, ◌^◌, Bool, Option, none, some, List, [], ◌∷◌, map, if◌then◌else◌, ◌&&◌, ◌≡◌, not,
}
use stoatpp.Prelude.Int.{ℤ, pos, negsuc}
use stoatpp.Text.{Text, lit, text_eq}

pub record JsonLib : Type 1 where
  pub Json : Type 0
  -- `nullptr`, `json::object()`, an array, a string, a number, a boolean as JSON values
  pub null : Json
  pub object : Json
  pub array : List Json → Json
  pub of_text : Text → Json
  pub of_int : ℤ → Json
  pub of_bool : Bool → Json
  pub is_null : Json → Bool
  pub is_object : Json → Bool
  pub is_array : Json → Bool
  pub is_string : Json → Bool
  pub is_number : Json → Bool
  pub is_boolean : Json → Bool
  -- `j.contains(k)`, `j[k]`, `j[k] = v`, `j.erase(k)`
  pub contains : Json → Text → Bool
  pub field : Json → Text → Json
  pub with_field : Json → Text → Json → Json
  pub without_field : Json → Text → Json
  -- `j.get<std::string>()`, `j.get<int>()`, `j.get<int64_t>()`, `j.get<bool>()`
  pub get_string : Json → Text
  pub get_int : Json → ℤ
  pub get_int64 : Json → ℤ
  pub get_bool : Json → Bool
  -- the elements of an array, the entries of an object, `j.dump()`, `json::parse(s)`
  pub elements : Json → List Json
  pub items : Json → List (Text × Json)
  pub dump : Json → Text
  pub parse : Text → Option Json

-- The values of an `int`.
abbrev pub IsInt32 : ℤ → Type 0
IsInt32 (pos n) = n < 2 ^ 31
IsInt32 (negsuc n) = n < 2 ^ 31

-- What the program relies on, as the library documents it: what is written to a field of an object is
-- read back, and no other field changes; strings are read back as they were put in,
-- and `get<int>()` reads an integer back that an `int` can hold.
pub record JsonLaws (J : JsonLib) : Type 0 where
  pub is_object-with_field :
      (j v : J.Json) (k : Text)
      → J.is_object j ≡ Bool.true
      → J.is_object (J.with_field j k v) ≡ Bool.true
  pub contains-with_field :
      (j v : J.Json) (k i : Text)
      → J.is_object j ≡ Bool.true
      → J.contains (J.with_field j k v) i ≡ (if text_eq k i then Bool.true else J.contains j i)
  pub field-with_field :
      (j v : J.Json) (k i : Text)
      → J.is_object j ≡ Bool.true
      → J.field (J.with_field j k v) i ≡ (if text_eq k i then v else J.field j i)
  pub is_string-of_text : (s : Text) → J.is_string (J.of_text s) ≡ Bool.true
  pub get_string-of_text : (s : Text) → J.get_string (J.of_text s) ≡ s
  pub is_number-of_int : (n : ℤ) → J.is_number (J.of_int n) ≡ Bool.true
  pub get_int-of_int : (n : ℤ) → IsInt32 n → J.get_int (J.of_int n) ≡ n

-- The first of two optional values, and a value with its default.
abbrev pub or_else {ℓ} : {A : Type ℓ} → Option A → Option A → Option A
or_else none o = o
or_else (some a) o = some a

abbrev pub value_or {ℓ} : {A : Type ℓ} → Option A → A → A
value_or none d = d
value_or (some a) d = a

module _ (J : JsonLib) where
  -- `j.contains(k) && j[k].is_string()`, and the string
  abbrev pub string_field : J.Json → Text → Option Text
  string_field j k =
      if J.contains j k && J.is_string (J.field j k)
      then some (J.get_string (J.field j k))
      else none

  abbrev pub number_field : J.Json → Text → Option ℤ
  number_field j k =
      if J.contains j k && J.is_number (J.field j k) then some (J.get_int (J.field j k)) else none

  abbrev pub bool_field : J.Json → Text → Option Bool
  bool_field j k =
      if J.contains j k && J.is_boolean (J.field j k) then some (J.get_bool (J.field j k)) else none

  abbrev pub object_field : J.Json → Text → Option J.Json
  object_field j k =
      if J.contains j k && J.is_object (J.field j k) then some (J.field j k) else none

  abbrev pub array_field : J.Json → Text → Option (List J.Json)
  array_field j k =
      if J.contains j k && J.is_array (J.field j k) then some (J.elements (J.field j k)) else none

  -- The strings of an array, in order: `for (r : j[k]) if (r.is_string()) v.push_back(r)`.
  abbrev pub strings : List J.Json → List Text
  strings [] = []
  strings (j ∷ js) = let rest = strings js in if J.is_string j then J.get_string j ∷ rest else rest

  abbrev pub string_list : J.Json → Text → List Text
  string_list j k = elim (array_field j k) [ some js ↦ strings js | none ↦ [] ]

  -- `id`, or else `_id`
  abbrev pub id_field : J.Json → Option Text
  id_field j = or_else (string_field j (lit "id")) (string_field j (lit "_id"))

  -- A file reference: a string, or an object that holds its name under `k` or else under `l`.
  abbrev pub file_ref : J.Json → Text → Text → Option Text
  file_ref v k l =
      if J.is_string v
      then some (J.get_string v)
      else if J.is_object v
      then or_else (string_field v k) (string_field v l)
      else none

  -- `j.contains(k) && !j[k].is_null()`, and the reference
  abbrev pub file_field : J.Json → Text → Text → Text → Option Text
  file_field j key k l =
      if J.contains j key && not (J.is_null (J.field j key))
      then file_ref (J.field j key) k l
      else none

module _ (J : JsonLib) where
  -- `if (o) j[k] = *o`
  abbrev pub with_text : J.Json → Text → Option Text → J.Json
  with_text j k none = j
  with_text j k (some s) = J.with_field j k (J.of_text s)

  abbrev pub with_json : J.Json → Text → Option J.Json → J.Json
  with_json j k none = j
  with_json j k (some v) = J.with_field j k v

  abbrev pub texts : List Text → J.Json
  texts ss = J.array (map J.of_text ss)
