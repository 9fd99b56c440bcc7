-- ===== src/Cache/Listeners.antt =====
-- The event listeners that `setup_cache_listeners` of src/cluster/cache.cpp registers. Each runs under the
-- cache's lock, so it is one step.
use stoatpp.Prelude.{none, some, List, [], ◌∷◌}
use stoatpp.Text.{Text, lit}
use stoatpp.Dict.{lookup, insert, erase}
use stoatpp.Json.{JsonLib, string_field, array_field, value_or}
use stoatpp.Models.Role.{Role}
use stoatpp.Models.Server.{Server}
use stoatpp.Models.Channel.{channel_from_json}
use stoatpp.Events.Event.{
  Event, Ready, Update, RoleCreate, RoleUpdate, ready, channel_create, channel_delete,
  server_create, server_update, server_delete, server_member_join, server_member_leave,
  server_role_create, server_role_update, server_role_delete,
}
use stoatpp.Cache.State.{
  Cache, cache_user, cache_server, cache_channel, cache_member, forget_member, each,
}
use stoatpp.Cache.Roles.{merge_fields, clear_fields, new_role, put_role, update_role, remove_role}

module _ (J : JsonLib) where
  -- The listener of `Ready`.
  unfoldable pub on_ready : Cache J → Ready J → Cache J
  unfolding cache_user cache_server cache_member
  on_ready c e =
      let own = record c {
        current_user = e.user;
        user_cache = insert e.user.id e.user c.user_cache;
      } in
      let users = each J (cache_user J) own e.users in
      let servers = each J (cache_server J) users e.servers in
      let channels = each J (cache_channel J) servers e.channels in
      each J (cache_member J) channels e.members

  -- The listener of `ServerCreate`: the server, and the channels that the event carries.
  unfoldable pub on_server_create : Cache J → Server J → J.Json → Cache J
  unfolding cache_server
  on_server_create c s raw =
      each J (λ d j. cache_channel J d (channel_from_json J j)) (cache_server J c s)
        (value_or (array_field J raw (lit "channels")) [])

  unfoldable pub updated_server : Server J → Update J → Server J
  unfolding merge_fields clear_fields
  updated_server s e = record s {
    name = value_or (string_field J e.changes (lit "name")) s.name;
    owner = value_or (string_field J e.changes (lit "owner")) s.owner;
    raw = clear_fields J (merge_fields J s.raw (J.items e.changes)) e.clear;
  }

  -- The listener of `ServerUpdate`.
  unfoldable pub on_server_update : Cache J → Update J → Cache J
  unfolding updated_server
  on_server_update c e = elim (lookup e.id c.server_cache) [
    | none ↦ c
    | some s ↦ record c { server_cache = insert e.id (updated_server s e) c.server_cache }
  ]

  -- Writes the roles of a cached server; nothing happens where it is not cached.
  abbrev pub with_roles : Cache J → Text → (List (Role J) → List (Role J)) → Cache J
  with_roles c server_id f = elim (lookup server_id c.server_cache) [
    | none ↦ c
    | some s ↦ record c {
      server_cache = insert server_id (record s { roles = f s.roles }) c.server_cache;
    }
  ]

  -- The listener of `ServerRoleCreate`.
  unfoldable pub on_role_create : Cache J → RoleCreate J → Cache J
  unfolding put_role
  on_role_create c e = with_roles c e.server_id (put_role J (new_role J e) e.role_id)

  -- The listener of `ServerRoleUpdate`.
  unfoldable pub on_role_update : Cache J → RoleUpdate J → Cache J
  unfolding update_role
  on_role_update c e = with_roles c e.server_id (update_role J e)

  -- The listener of `ServerRoleDelete`.
  unfoldable pub on_role_delete : Cache J → Text → Text → Cache J
  unfolding remove_role
  on_role_delete c server_id role_id = with_roles c server_id (remove_role J role_id)

  -- All cache listeners. A `ServerDelete` only starts the thread that will remove the server.
  unfoldable pub apply : Cache J → Event J → Cache J
  unfolding on_ready on_server_create on_server_update on_role_create on_role_update on_role_delete
      cache_member forget_member
  apply c (ready e) = on_ready c e
  apply c (channel_create ch raw) = cache_channel J c ch
  apply c (channel_delete id) = record c { channel_cache = erase id c.channel_cache }
  apply c (server_create s raw) = on_server_create c s raw
  apply c (server_update e) = on_server_update c e
  apply c (server_delete id) = record c { pending = id ∷ c.pending }
  apply c (server_member_join server_id user_id m) = cache_member J c m
  apply c (server_member_leave server_id user_id) = forget_member J c server_id user_id
  apply c (server_role_create e) = on_role_create c e
  apply c (server_role_update e) = on_role_update c e
  apply c (server_role_delete server_id role_id) = on_role_delete c server_id role_id
  apply c _ = c

  -- The thread of a `ServerDelete` wakes: it removes the server of that id, if one is cached then.
  unfoldable pub remove_server : Cache J → Text → Cache J
  remove_server c id = record c { server_cache = erase id c.server_cache }
