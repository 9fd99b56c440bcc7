-- ===== src/Cache/Roles.antt =====
-- The role lists of cached servers: what the role listeners of src/cluster/cache.cpp do to them.
use stoatpp.Prelude.{Option, some, List, [], ◌∷◌, if◌then◌else◌, ◌&&◌, ◌||◌, not, is_nil}
use stoatpp.Text.{Text, lit, text_eq}
use stoatpp.Json.{JsonLib, string_field, number_field, value_or}
use stoatpp.Models.Role.{Role}
use stoatpp.Events.Event.{RoleCreate, RoleUpdate}

module _ (J : JsonLib) where
  -- `for (key, val : data.items()) raw[key] = val`
  unfoldable pub merge_fields : J.Json → List (Text × J.Json) → J.Json
  merge_fields raw [] = raw
  merge_fields raw ((key, val) ∷ fields) = merge_fields (J.with_field raw key val) fields

  -- `for (field : clear) raw.erase(field)`
  unfoldable pub clear_fields : J.Json → List Text → J.Json
  clear_fields raw [] = raw
  clear_fields raw (name ∷ names) = clear_fields (J.without_field raw name) names

  -- The role of the event, under the event's role id if it has no id of its own.
  abbrev pub new_role : RoleCreate J → Role J
  new_role e =
      if is_nil e.role.id && not (is_nil e.role_id)
      then record e.role { id = e.role_id }
      else e.role

  -- The search loop: the first role that fits is replaced; if there is none, the role is appended.
  unfoldable pub put_role : Role J → Text → List (Role J) → List (Role J)
  put_role new role_id [] = new ∷ []
  put_role new role_id (r ∷ rs) =
      if text_eq r.id new.id || (not (is_nil r.id) && text_eq r.id role_id)
      then new ∷ rs
      else r ∷ put_role new role_id rs

  abbrev pub updated_colour : Role J → J.Json → Option Text
  updated_colour r changes =
      if J.contains changes (lit "colour") && not (J.is_null (J.field changes (lit "colour")))
      then (if J.is_string (J.field changes (lit "colour"))
          then some (J.get_string (J.field changes (lit "colour")))
          else r.colour)
      else r.colour

  unfoldable pub updated_role : Role J → RoleUpdate J → Role J
  unfolding merge_fields clear_fields
  updated_role r e = record r {
    name = value_or (string_field J e.changes (lit "name")) r.name;
    colour = updated_colour r e.changes;
    rank = value_or (number_field J e.changes (lit "rank")) r.rank;
    permissions =
        if J.contains e.changes (lit "permissions")
        then J.field e.changes (lit "permissions")
        else r.permissions;
    raw = clear_fields (merge_fields r.raw (J.items e.changes)) e.clear;
  }

  -- The first role with the event's id is updated.
  unfoldable pub update_role : RoleUpdate J → List (Role J) → List (Role J)
  unfolding updated_role
  update_role e [] = []
  update_role e (r ∷ rs) =
      if text_eq r.id e.role_id then updated_role r e ∷ rs else r ∷ update_role e rs

  -- `erase(remove_if(... r.id == role_id))`
  unfoldable pub remove_role : Text → List (Role J) → List (Role J)
  remove_role role_id [] = []
  remove_role role_id (r ∷ rs) =
      let rest = remove_role role_id rs in if text_eq r.id role_id then rest else r ∷ rest
