-- ===== src/Models/Role.antt =====
-- include/stoatpp/models/role.h
use stoatpp.Prelude.{ℕ, ◌-◌, ◌^◌, ◌%◌, Option, none, some, [], ◌&&◌, if◌then◌else◌}
use stoatpp.Prelude.Int.{ℤ, pos, negsuc}
use stoatpp.Text.{Text, lit}
use stoatpp.Json.{JsonLib, string_field, number_field, id_field, value_or, with_text}

pub record Role (J : JsonLib) : Type 0 where
  pub id : Text
  pub name : Text
  pub colour : Option Text
  -- An `int`: `get_int` gives only values in its range.
  pub rank : ℤ
  pub permissions : J.Json
  pub raw : J.Json

-- The bit pattern of an `int64_t`.
unfoldable pub pattern64 : ℤ → ℕ
pattern64 (pos n) = n % 2 ^ 64
pattern64 (negsuc n) = 2 ^ 64 - 1 - n % 2 ^ 64

module _ (J : JsonLib) where
  -- `d.contains(k) && d[k].is_number()`, and the mask
  abbrev pub mask_field : J.Json → Text → Option ℕ
  mask_field j k =
      if J.contains j k && J.is_number (J.field j k)
      then some (pattern64 (J.get_int64 (J.field j k)))
      else none

  -- `Role::allowed_permissions`
  unfoldable pub allowed_permissions : Role J → ℕ
  allowed_permissions r =
      if J.is_number r.permissions
      then pattern64 (J.get_int64 r.permissions)
      else if J.is_object r.permissions
      then elim (mask_field r.permissions (lit "a")) [
        | some m ↦ m
        | none ↦ elim (mask_field r.permissions (lit "allow")) [
          | some m ↦ m
          | none ↦ elim (mask_field r.permissions (lit "server")) [ some m ↦ m | none ↦ 0 ]
        ]
      ]
      else 0

  -- `Role::from_json`
  unfoldable pub role_from_json : J.Json → Role J
  role_from_json j = record {
    id = value_or (id_field J j) [];
    name = value_or (string_field J j (lit "name")) [];
    colour = string_field J j (lit "colour");
    rank = value_or (number_field J j (lit "rank")) (pos 0);
    permissions =
        if J.contains j (lit "permissions") then J.field j (lit "permissions") else J.null;
    raw = j;
  }

  -- `Role::to_json`
  unfoldable pub role_to_json : Role J → J.Json
  role_to_json r =
      let j = J.with_field r.raw (lit "id") (J.of_text r.id) in
      let j = J.with_field j (lit "name") (J.of_text r.name) in
      let j = with_text J j (lit "colour") r.colour in
      let j = J.with_field j (lit "rank") (J.of_int r.rank) in
      J.with_field j (lit "permissions") r.permissions

  -- `Role{}`
  abbrev pub no_role : Role J
  no_role = record {
    id = [];
    name = [];
    colour = none;
    rank = pos 0;
    permissions = J.null;
    raw = J.null;
  }
