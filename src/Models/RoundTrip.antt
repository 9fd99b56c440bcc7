-- ===== src/Models/RoundTrip.antt =====
-- `Role::to_json` and `Role::from_json` of include/stoatpp/models/role.h, one after the other.
use stoatpp.Prelude.{◌≡◌, refl, ◌∙◌, true, false, Option, none, some}
use stoatpp.Prelude.Int.{ℤ}
use stoatpp.Text.{Text, lit, text_eq, text_eq_refl}
use stoatpp.Json.{JsonLib, JsonLaws, IsInt32, string_field, number_field, with_text}
use stoatpp.Models.Role.{Role, role_from_json, role_to_json}

module _ (J : JsonLib) (L : JsonLaws J) where
  string_field-same :
      (j : J.Json) (k s : Text)
      → J.is_object j ≡ true
      → string_field J (J.with_field j k (J.of_text s)) k ≡ some s
  string_field-same j k s o =
      rw
        (
          L.contains-with_field j (J.of_text s) k k o,
          L.field-with_field j (J.of_text s) k k o,
          text_eq_refl k,
          L.is_string-of_text s,
          L.get_string-of_text s,
        )
        refl

  string_field-other :
      (j v : J.Json) (k i : Text)
      → J.is_object j ≡ true
      → text_eq k i ≡ false
      → string_field J (J.with_field j k v) i ≡ string_field J j i
  string_field-other j v k i o other =
      rw (L.contains-with_field j v k i o, L.field-with_field j v k i o, other) refl

  number_field-same :
      (j : J.Json) (k : Text) (n : ℤ)
      → J.is_object j ≡ true
      → IsInt32 n
      → number_field J (J.with_field j k (J.of_int n)) k ≡ some n
  number_field-same j k n o small =
      rw
        (
          L.contains-with_field j (J.of_int n) k k o,
          L.field-with_field j (J.of_int n) k k o,
          text_eq_refl k,
          L.is_number-of_int n,
          L.get_int-of_int n small,
        )
        refl

  number_field-other :
      (j v : J.Json) (k i : Text)
      → J.is_object j ≡ true
      → text_eq k i ≡ false
      → number_field J (J.with_field j k v) i ≡ number_field J j i
  number_field-other j v k i o other =
      rw (L.contains-with_field j v k i o, L.field-with_field j v k i o, other) refl

  is_object-with_text :
      (j : J.Json) (k : Text) (o : Option Text)
      → J.is_object j ≡ true
      → J.is_object (with_text J j k o) ≡ true
  is_object-with_text j k none h = h
  is_object-with_text j k (some s) h = L.is_object-with_field j (J.of_text s) k h

  string_field-with_text_other :
      (j : J.Json) (k i : Text) (o : Option Text)
      → J.is_object j ≡ true
      → text_eq k i ≡ false
      → string_field J (with_text J j k o) i ≡ string_field J j i
  string_field-with_text_other j k i none h other = refl
  string_field-with_text_other j k i (some s) h other =
      string_field-other j (J.of_text s) k i h other

  module _ (r : Role J) (is_map : J.is_object r.raw ≡ true) (small : IsInt32 r.rank) where
    abbrev with_id : J.Json
    with_id = J.with_field r.raw (lit "id") (J.of_text r.id)

    abbrev with_name : J.Json
    with_name = J.with_field with_id (lit "name") (J.of_text r.name)

    abbrev with_colour : J.Json
    with_colour = with_text J with_name (lit "colour") r.colour

    abbrev with_rank : J.Json
    with_rank = J.with_field with_colour (lit "rank") (J.of_int r.rank)

    o1 : J.is_object with_id ≡ true
    o1 = L.is_object-with_field r.raw _ _ is_map

    o2 : J.is_object with_name ≡ true
    o2 = L.is_object-with_field with_id _ _ o1

    o3 : J.is_object with_colour ≡ true
    o3 = is_object-with_text with_name _ r.colour o2

    o4 : J.is_object with_rank ≡ true
    o4 = L.is_object-with_field with_colour _ _ o3

    -- Under the JSON library's laws: a role that was parsed from an object, with a rank in the 32 bits of an `int`,
    -- and is written and read again has the same id, name, rank and permissions.
    pub role_from_json-role_to_json :
        ((role_from_json J (role_to_json J r)).id ≡ r.id)
        × ((role_from_json J (role_to_json J r)).name ≡ r.name)
        × ((role_from_json J (role_to_json J r)).rank ≡ r.rank)
        × ((role_from_json J (role_to_json J r)).permissions ≡ r.permissions)
    unfolding role_from_json role_to_json text_eq
    role_from_json-role_to_json = (id_kept, name_kept, rank_kept, permissions_kept)
      where
        id_read : string_field J (role_to_json J r) (lit "id") ≡ some r.id
        id_read =
            string_field-other with_rank r.permissions (lit "permissions") (lit "id") o4 refl
            ∙ string_field-other with_colour (J.of_int r.rank) (lit "rank") (lit "id") o3 refl
            ∙ string_field-with_text_other with_name (lit "colour") (lit "id") r.colour o2 refl
            ∙ string_field-other with_id (J.of_text r.name) (lit "name") (lit "id") o1 refl
            ∙ string_field-same r.raw (lit "id") r.id is_map

        id_kept : (role_from_json J (role_to_json J r)).id ≡ r.id
        id_kept = rw id_read refl

        name_read : string_field J (role_to_json J r) (lit "name") ≡ some r.name
        name_read =
            string_field-other with_rank r.permissions (lit "permissions") (lit "name") o4 refl
            ∙ string_field-other with_colour (J.of_int r.rank) (lit "rank") (lit "name") o3 refl
            ∙ string_field-with_text_other with_name (lit "colour") (lit "name") r.colour o2 refl
            ∙ string_field-same with_id (lit "name") r.name o1

        name_kept : (role_from_json J (role_to_json J r)).name ≡ r.name
        name_kept = rw name_read refl

        rank_read : number_field J (role_to_json J r) (lit "rank") ≡ some r.rank
        rank_read =
            number_field-other with_rank r.permissions (lit "permissions") (lit "rank") o4 refl
            ∙ number_field-same with_colour (lit "rank") r.rank o3 small

        rank_kept : (role_from_json J (role_to_json J r)).rank ≡ r.rank
        rank_kept = rw rank_read refl

        permissions_kept : (role_from_json J (role_to_json J r)).permissions ≡ r.permissions
        permissions_kept =
            rw
              (
                L.contains-with_field with_rank r.permissions (lit "permissions")
                    (lit "permissions") o4,
                L.field-with_field with_rank r.permissions (lit "permissions") (lit "permissions")
                    o4,
              )
              refl
