-- ===== src/Cache/Carried.antt =====
-- What the role events carry, apart from the lists that they are put in (src/cluster/cache.cpp).
use mathlib.Core.List.{foldl}
use stoatpp.Prelude.{
  ◌≡◌, refl, ap, ◌∙◌, inl, inr, Bool, true, false, none, some, List, [], ◌∷◌, arith, ◌&&◌, ◌||◌,
  not, is_nil, is_nil-[], sym, Bool-cases, if◌then◌else◌,
}
use stoatpp.Text.{Text, lit, text_eq, text_eq_iff}
use stoatpp.Json.{JsonLib, value_or}
use stoatpp.Models.Role.{Role}
use stoatpp.Events.Event.{RoleCreate, RoleUpdate}
use stoatpp.Cache.Roles.{new_role, updated_role, updated_colour, merge_fields, clear_fields}

module _ (J : JsonLib) where
  -- The role with the fields that an update carries: a string for its name and its colour, a number for its rank,
  -- anything for its permissions; every field of the update is written to its object, one after the other,
  -- and then those that it clears are taken off.
  abbrev pub carried : Role J → RoleUpdate J → Role J
  carried r e =
      let has : Text → Bool = λ k. J.contains e.changes k in
      let at : Text → J.Json = λ k. J.field e.changes k in
      record {
        id = r.id;
        name =
            if has (lit "name") && J.is_string (at (lit "name"))
            then J.get_string (at (lit "name"))
            else r.name;
        colour =
            if has (lit "colour")
              && (not (J.is_null (at (lit "colour"))) && J.is_string (at (lit "colour")))
            then some (J.get_string (at (lit "colour")))
            else r.colour;
        rank =
            if has (lit "rank") && J.is_number (at (lit "rank"))
            then J.get_int (at (lit "rank"))
            else r.rank;
        permissions = if has (lit "permissions") then at (lit "permissions") else r.permissions;
        raw =
            foldl J.without_field
              (foldl (λ raw p. J.with_field raw p.0 p.1) r.raw (J.items e.changes)) e.clear;
      }

  merge_fields-foldl :
      (raw : J.Json) (fields : List (Text × J.Json))
      → merge_fields J raw fields ≡ foldl (λ j p. J.with_field j p.0 p.1) raw fields
  unfolding merge_fields
  merge_fields-foldl raw [] = refl
  merge_fields-foldl raw ((key, val) ∷ fields) =
      merge_fields-foldl (J.with_field raw key val) fields

  clear_fields-foldl :
      (raw : J.Json) (names : List Text)
      → clear_fields J raw names ≡ foldl J.without_field raw names
  unfolding clear_fields
  clear_fields-foldl raw [] = refl
  clear_fields-foldl raw (name ∷ names) = clear_fields-foldl (J.without_field raw name) names

  value_or-if {ℓ} :
      {A : Type ℓ} (b : Bool) (a d : A)
      → value_or (if b then some a else none) d ≡ (if b then a else d)
  value_or-if true a d = refl
  value_or-if false a d = refl

  updated_colour_if :
      (r : Role J) (changes : J.Json)
      → updated_colour J r changes ≡ (
          if J.contains changes (lit "colour")
            && (not (J.is_null (J.field changes (lit "colour")))
                && J.is_string (J.field changes (lit "colour")))
          then some (J.get_string (J.field changes (lit "colour")))
          else r.colour)
  updated_colour_if r changes = ground arith

  pub updated_role-carried : (r : Role J) (e : RoleUpdate J) → updated_role J r e ≡ carried r e
  unfolding updated_role
  updated_role-carried r e i = record {
    id = r.id;
    name =
        value_or-if
          (J.contains e.changes (lit "name") && J.is_string (J.field e.changes (lit "name")))
          (J.get_string (J.field e.changes (lit "name"))) r.name i;
    colour = updated_colour_if r e.changes i;
    rank =
        value_or-if
          (J.contains e.changes (lit "rank") && J.is_number (J.field e.changes (lit "rank")))
          (J.get_int (J.field e.changes (lit "rank"))) r.rank i;
    permissions =
        if J.contains e.changes (lit "permissions")
        then J.field e.changes (lit "permissions")
        else r.permissions;
    raw =
        (clear_fields-foldl (merge_fields J r.raw (J.items e.changes)) e.clear
            ∙ ap (λ raw. foldl J.without_field raw e.clear)
                (merge_fields-foldl r.raw (J.items e.changes)))
          i;
  }

  pub new_role-named :
      (e : RoleCreate J)
      → is_nil e.role.id || text_eq e.role.id e.role_id ≡ true
      → new_role J e ≡ record e.role { id = e.role_id }
  new_role-named e same = elim (Bool-cases (text_eq e.role.id e.role_id)) [
    | inl eq ↦
        let is_id : e.role.id ≡ e.role_id = (text_eq_iff e.role.id e.role_id).0 eq in
        elim (Bool-cases (is_nil e.role.id && not (is_nil e.role_id))) [
          | inl fill ↦ rw fill refl
          | inr keep ↦ rw keep (ap (λ i. record e.role { id = i }) is_id)
        ]
    | inr other ↦ named_nil other
  ]
    where
      named_nil :
          text_eq e.role.id e.role_id ≡ false → new_role J e ≡ record e.role { id = e.role_id }
      named_nil other =
          let empty : is_nil e.role.id ≡ true = ground (arith, same, other) in
          elim (Bool-cases (is_nil e.role_id)) [
            | inl nil ↦
                rw (empty, nil)
                  (ap (λ i. record e.role { id = i })
                    (is_nil-[] e.role.id empty ∙ sym (is_nil-[] e.role_id nil)))
            | inr full ↦ rw (empty, full) refl
          ]
