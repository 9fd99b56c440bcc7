-- ===== src/Cache/RoleMap.antt =====
-- The role lists of the cached servers as finite maps: what the role events do to the role of a given id in
-- a given server.
use mathlib.Core.Option
use stoatpp.Prelude.{
  ◌≡◌, refl, ap, ◌∙◌, inl, inr, Bool, true, false, Option, none, some, List, [], ◌∷◌, arith, ◌&&◌,
  ◌||◌, is_nil, Option-cases, if◌then◌else◌,
}
use stoatpp.Text.{Text, text_eq, text_eq_iff}
use stoatpp.Dict.{lookup, lookup-insert}
use stoatpp.Json.{JsonLib}
use stoatpp.Models.Role.{Role}
use stoatpp.Models.Server.{Server}
use stoatpp.Events.Event.{RoleCreate, RoleUpdate}
use stoatpp.Cache.State.{Cache}
use stoatpp.Cache.Carried.{carried, updated_role-carried, new_role-named}
use stoatpp.Cache.Roles.{put_role, update_role, remove_role}
use stoatpp.Cache.Listeners.{with_roles, on_role_create, on_role_update, on_role_delete}
use stoatpp.Cache.Reads.{get_server}

module _ (J : JsonLib) where
  -- The first role of this id.
  unfoldable pub find_role : Text → List (Role J) → Option (Role J)
  find_role id [] = none
  find_role id (r ∷ rs) = if text_eq r.id id then some r else find_role id rs

  abbrev pub role_in : Option (Server J) → Text → Option (Role J)
  role_in none id = none
  role_in (some s) id = find_role id s.roles

  -- The role `id` of the cached server `server_id`.
  abbrev pub role_at : Cache J → Text → Text → Option (Role J)
  role_at c server_id id = role_in (get_server J c server_id) id

  abbrev pub is_some {ℓ} : {A : Type ℓ} → Option A → Bool
  is_some none = false
  is_some (some a) = true

  find_role-put_role :
      (new : Role J) (id : Text) (rs : List (Role J))
      → find_role id (put_role J new new.id rs)
        ≡ (if text_eq new.id id then some new else find_role id rs)
  unfolding find_role put_role
  find_role-put_role new id [] = refl
  find_role-put_role new id (r ∷ rs) = ground (
    arith,
    find_role-put_role new id rs,
    text_eq_iff new.id id,
    text_eq_iff r.id id,
    text_eq_iff r.id new.id,
  )

  find_role-update_role :
      (e : RoleUpdate J) (id : Text) (rs : List (Role J))
      → find_role id (update_role J e rs) ≡ (
          if text_eq e.role_id id
          then Option.map (λ r. carried J r e) (find_role id rs)
          else find_role id rs)
  unfolding find_role update_role
  find_role-update_role e id [] = ground arith
  find_role-update_role e id (r ∷ rs) = ground (
    arith,
    find_role-update_role e id rs,
    updated_role-carried J r e,
    text_eq_iff e.role_id id,
    text_eq_iff r.id id,
    text_eq_iff r.id e.role_id,
  )

  find_role-remove_role :
      (role_id id : Text) (rs : List (Role J))
      → find_role id (remove_role J role_id rs)
        ≡ (if text_eq role_id id then none else find_role id rs)
  unfolding find_role remove_role
  find_role-remove_role role_id id [] = ground arith
  find_role-remove_role role_id id (r ∷ rs) = ground (
    arith,
    find_role-remove_role role_id id rs,
    text_eq_iff role_id id,
    text_eq_iff r.id id,
    text_eq_iff r.id role_id,
  )

  -- Writing the roles of one server changes the roles of that server only.
  get_server-with_roles :
      (c : Cache J) (server_id id : Text) (f : List (Role J) → List (Role J))
      → get_server J (with_roles J c server_id f) id ≡ (
          if text_eq server_id id
          then Option.map (λ (s : Server J). record s { roles = f s.roles }) (get_server J c id)
          else get_server J c id)
  unfolding get_server
  get_server-with_roles c server_id id f = elim (Option-cases (lookup server_id c.server_cache)) [
    | inl miss ↦ rw (miss, with_roles) (ground (arith, text_eq_iff server_id id, miss))
    | inr (s, found) ↦
        rw (found, with_roles)
          (lookup-insert server_id id _ c.server_cache
            ∙ ground (arith, text_eq_iff server_id id, found))
  ]

  role_in-if :
      (b : Bool) (o : Option (Server J)) (f : List (Role J) → List (Role J)) (id : Text)
      (g : Option (Role J) → Option (Role J))
      → ((rs : List (Role J)) → find_role id (f rs) ≡ g (find_role id rs))
      → role_in
          (if b then Option.map (λ (s : Server J). record s { roles = f s.roles }) o else o)
          id
        ≡ (if is_some o && b then g (role_in o id) else role_in o id)
  role_in-if true none f id g h = refl
  role_in-if false none f id g h = refl
  role_in-if true (some s) f id g h = h s.roles
  role_in-if false (some s) f id g h = refl

  role_at-with_roles :
      (c : Cache J) (of server_id id : Text) (f : List (Role J) → List (Role J))
      (g : Option (Role J) → Option (Role J))
      → ((rs : List (Role J)) → find_role id (f rs) ≡ g (find_role id rs))
      → role_at (with_roles J c of f) server_id id ≡ (
          if is_some (get_server J c server_id) && text_eq of server_id
          then g (role_at c server_id id)
          else role_at c server_id id)
  role_at-with_roles c of server_id id f g h =
      ap (λ o. role_in o id) (get_server-with_roles c of server_id f)
      ∙ role_in-if (text_eq of server_id) (get_server J c server_id) f id g h

  module _ (c : Cache J) (server_id id : Text) where
    -- After a `ServerRoleCreate` whose role has no id of its own or the event's role id: if the event's server is cached, the
    -- role is found in it under that id; every other role of every server is found as before.
    pub role_at-on_role_create :
        (e : RoleCreate J)
        → is_nil e.role.id || text_eq e.role.id e.role_id ≡ true
        → role_at (on_role_create J c e) server_id id ≡ (
            if is_some (get_server J c server_id) && text_eq e.server_id server_id
            then (if text_eq e.role_id id
                then some (record e.role { id = e.role_id })
                else role_at c server_id id)
            else role_at c server_id id)
    unfolding on_role_create
    role_at-on_role_create e same =
        role_at-with_roles c e.server_id server_id id _
          (λ o. if text_eq e.role_id id then some (record e.role { id = e.role_id }) else o)
          (λ rs.
            ap (λ (r : Role J). find_role id (put_role J r e.role_id rs)) (new_role-named J e same)
            ∙ find_role-put_role (record e.role { id = e.role_id }) id rs)

    -- After a `ServerRoleUpdate` the role of the event's id in the event's server, if both are cached,
    -- has the fields that the event carries; every other role of every server is found as before.
    pub role_at-on_role_update :
        (e : RoleUpdate J)
        → role_at (on_role_update J c e) server_id id ≡ (
            if is_some (get_server J c server_id) && text_eq e.server_id server_id
            then (if text_eq e.role_id id
                then Option.map (λ r. carried J r e) (role_at c server_id id)
                else role_at c server_id id)
            else role_at c server_id id)
    unfolding on_role_update
    role_at-on_role_update e =
        role_at-with_roles c e.server_id server_id id _
          (λ o. if text_eq e.role_id id then Option.map (λ r. carried J r e) o else o)
          (find_role-update_role e id)

    -- After a `ServerRoleDelete` no role of the event's id is left in the event's server; every other
    -- role of every server is found as before.
    pub role_at-on_role_delete :
        (of role_id : Text)
        → role_at (on_role_delete J c of role_id) server_id id ≡ (
            if is_some (get_server J c server_id) && text_eq of server_id
            then (if text_eq role_id id then none else role_at c server_id id)
            else role_at c server_id id)
    unfolding on_role_delete
    role_at-on_role_delete of role_id =
        role_at-with_roles c of server_id id _ (λ o. if text_eq role_id id then none else o)
          (find_role-remove_role role_id id)

    -- The roles of the cached servers after each of their three events. A created role whose id is the event's
    -- role id, or empty, is found in the event's server under the event's role id, if the server is cached; an
    -- updated role, if it and its server are cached, has the fields that the event carries; of a deleted role's id none is left in its
    -- server. Every other role of every server is found as before.
    pub role_at_events :
        (created : RoleCreate J) (updated : RoleUpdate J) (of role_id : Text)
        → is_nil created.role.id || text_eq created.role.id created.role_id ≡ true
        → (role_at (on_role_create J c created) server_id id ≡ (
            if is_some (get_server J c server_id) && text_eq created.server_id server_id
            then (if text_eq created.role_id id
                then some (record created.role { id = created.role_id })
                else role_at c server_id id)
            else role_at c server_id id))
          × (role_at (on_role_update J c updated) server_id id ≡ (
              if is_some (get_server J c server_id) && text_eq updated.server_id server_id
              then (if text_eq updated.role_id id
                  then Option.map (λ r. carried J r updated) (role_at c server_id id)
                  else role_at c server_id id)
              else role_at c server_id id))
          × (role_at (on_role_delete J c of role_id) server_id id ≡ (
              if is_some (get_server J c server_id) && text_eq of server_id
              then (if text_eq role_id id then none else role_at c server_id id)
              else role_at c server_id id))
    role_at_events created updated of role_id same = (
      role_at-on_role_create created same,
      role_at-on_role_update updated,
      role_at-on_role_delete of role_id,
    )
