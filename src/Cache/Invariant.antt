-- ===== src/Cache/Invariant.antt =====
-- The cache invariant: whatever is cached stands under its own id.
use stoatpp.Prelude.{
  ◌≡◌, refl, ◌∙◌, inl, inr, some, List, [], ◌∷◌, ◌&&◌, not, is_nil, Bool-cases, Option-cases,
}
use stoatpp.Text.{Text, lit}
use stoatpp.Dict.{Dict, lookup, insert, Keyed, Keyed-nil, Keyed-insert, Keyed-erase}
use stoatpp.Json.{JsonLib, array_field, value_or}
use stoatpp.Models.Role.{Role}
use stoatpp.Models.Member.{Member}
use stoatpp.Models.Server.{Server}
use stoatpp.Models.User.{User}
use stoatpp.Models.Channel.{Channel, channel_from_json}
use stoatpp.Events.Event.{
  Event, Ready, Update, ready, channel_create, channel_delete, server_create, server_update,
  server_delete, server_member_join, server_member_leave, server_role_create, server_role_update,
  server_role_delete,
}
use stoatpp.Cache.State.{
  Cache, cache_user, cache_server, cache_channel, cache_member, forget_member, members_of, each,
}
use stoatpp.Cache.Listeners.{
  on_ready, on_server_create, on_server_update, updated_server, with_roles, on_role_create,
  on_role_update, on_role_delete, apply,
}

module _ (J : JsonLib) where
  abbrev MembersOf : Text → Dict (Member J) → Type 0
  MembersOf server_id = Keyed (λ user_id m. (m.server_id ≡ server_id) × (m.id ≡ user_id))

  pub record IsKeyed (c : Cache J) : Type 0 where
    pub servers : Keyed (λ k (s : Server J). s.id ≡ k) c.server_cache
    pub channels : Keyed (λ k (ch : Channel J). ch.id ≡ k) c.channel_cache
    pub users : Keyed (λ k (u : User J). u.id ≡ k) c.user_cache
    pub members : Keyed MembersOf c.member_cache

  cache_user-IsKeyed : (c : Cache J) (u : User J) → IsKeyed c → IsKeyed (cache_user J c u)
  unfolding cache_user
  cache_user-IsKeyed c u h = elim (Bool-cases (is_nil u.id)) [
    | inl e ↦ rw e h
    | inr e ↦ rw e (record {
      servers = h.servers;
      channels = h.channels;
      users = Keyed-insert _ u.id u c.user_cache refl h.users;
      members = h.members;
    })
  ]

  cache_server-IsKeyed : (c : Cache J) (s : Server J) → IsKeyed c → IsKeyed (cache_server J c s)
  unfolding cache_server
  cache_server-IsKeyed c s h = record {
    servers = Keyed-insert _ s.id s c.server_cache refl h.servers;
    channels = h.channels;
    users = h.users;
    members = h.members;
  }

  cache_channel-IsKeyed :
      (c : Cache J) (ch : Channel J) → IsKeyed c → IsKeyed (cache_channel J c ch)
  cache_channel-IsKeyed c ch h = record {
    servers = h.servers;
    channels = Keyed-insert _ ch.id ch c.channel_cache refl h.channels;
    users = h.users;
    members = h.members;
  }

  members_of-Keyed :
      (c : Cache J) (server_id : Text) → IsKeyed c → MembersOf server_id (members_of J c server_id)
  members_of-Keyed c server_id h = elim (Option-cases (lookup server_id c.member_cache)) [
    | inl e ↦ rw e (Keyed-nil _)
    | inr (ms, e) ↦ rw e (h.members.at_key server_id ms e)
  ]

  cache_member-IsKeyed : (c : Cache J) (m : Member J) → IsKeyed c → IsKeyed (cache_member J c m)
  unfolding cache_member
  cache_member-IsKeyed c m h = elim (Bool-cases (not (is_nil m.server_id) && not (is_nil m.id))) [
    | inl e ↦ rw e (record {
      servers = h.servers;
      channels = h.channels;
      users = h.users;
      members =
          Keyed-insert MembersOf m.server_id _ c.member_cache
            (Keyed-insert _ m.id m _ (refl, refl) (members_of-Keyed c m.server_id h)) h.members;
    })
    | inr e ↦ rw e h
  ]

  forget_member-IsKeyed :
      (c : Cache J) (server_id user_id : Text)
      → IsKeyed c
      → IsKeyed (forget_member J c server_id user_id)
  unfolding forget_member
  forget_member-IsKeyed c server_id user_id h =
      elim (Bool-cases (not (is_nil server_id) && not (is_nil user_id))) [
        | inl e ↦ rw e (record {
          servers = h.servers;
          channels = h.channels;
          users = h.users;
          members =
              Keyed-insert MembersOf server_id _ c.member_cache
                (Keyed-erase _ user_id _ (members_of-Keyed c server_id h)) h.members;
        })
        | inr e ↦ rw e h
      ]

  each-IsKeyed {ℓ} :
      {A : Type ℓ} (f : Cache J → A → Cache J)
      → ((c : Cache J) (a : A) → IsKeyed c → IsKeyed (f c a))
      → (c : Cache J) (xs : List A) → IsKeyed c
      → IsKeyed (each J f c xs)
  each-IsKeyed f keep c [] h = h
  each-IsKeyed f keep c (x ∷ xs) h = each-IsKeyed f keep (f c x) xs (keep c x h)

  on_ready-IsKeyed : (c : Cache J) (e : Ready J) → IsKeyed c → IsKeyed (on_ready J c e)
  unfolding on_ready
  on_ready-IsKeyed c e h = each-IsKeyed (cache_member J) cache_member-IsKeyed _ e.members (
      each-IsKeyed (cache_channel J) cache_channel-IsKeyed _ e.channels (
        each-IsKeyed (cache_server J) cache_server-IsKeyed _ e.servers (
          each-IsKeyed (cache_user J) cache_user-IsKeyed _ e.users (record {
            servers = h.servers;
            channels = h.channels;
            users = Keyed-insert _ e.user.id e.user c.user_cache refl h.users;
            members = h.members;
          }))))

  on_server_create-IsKeyed :
      (c : Cache J) (s : Server J) (raw : J.Json) → IsKeyed c → IsKeyed (on_server_create J c s raw)
  unfolding on_server_create
  on_server_create-IsKeyed c s raw h =
      each-IsKeyed (λ d j. cache_channel J d (channel_from_json J j))
        (λ d j. cache_channel-IsKeyed d (channel_from_json J j)) _
        (value_or (array_field J raw (lit "channels")) []) (cache_server-IsKeyed c s h)

  -- Writing back a changed server under the key where it was found.
  rewrite_server :
      (c : Cache J) (id : Text) (s t : Server J)
      → lookup id c.server_cache ≡ some s
      → t.id ≡ s.id
      → IsKeyed c
      → IsKeyed (record c { server_cache = insert id t c.server_cache })
  rewrite_server c id s t found e h = record {
    servers = Keyed-insert _ id t c.server_cache (e ∙ h.servers.at_key id s found) h.servers;
    channels = h.channels;
    users = h.users;
    members = h.members;
  }

  on_server_update-IsKeyed :
      (c : Cache J) (e : Update J) → IsKeyed c → IsKeyed (on_server_update J c e)
  unfolding on_server_update updated_server
  on_server_update-IsKeyed c e h = elim (Option-cases (lookup e.id c.server_cache)) [
    | inl miss ↦ rw (miss, on_server_update) h
    | inr (s, found) ↦ rw (found, on_server_update) (rewrite_server c e.id s _ found refl h)
  ]

  with_roles-IsKeyed :
      (c : Cache J) (id : Text) (f : List (Role J) → List (Role J))
      → IsKeyed c
      → IsKeyed (with_roles J c id f)
  with_roles-IsKeyed c id f h = elim (Option-cases (lookup id c.server_cache)) [
    | inl miss ↦ rw (miss, with_roles) h
    | inr (s, found) ↦ rw (found, with_roles) (rewrite_server c id s _ found refl h)
  ]

  -- Every event keeps the invariant: each cached server, channel and user stands under its own id, and
  -- each cached member under the ids of its server and its user.
  pub apply-IsKeyed : (c : Cache J) (e : Event J) → IsKeyed c → IsKeyed (apply J c e)
  unfolding apply
  apply-IsKeyed c (ready e) h = on_ready-IsKeyed c e h
  apply-IsKeyed c (channel_create ch raw) h = cache_channel-IsKeyed c ch h
  apply-IsKeyed c (channel_delete id) h = record {
    servers = h.servers;
    channels = Keyed-erase _ id c.channel_cache h.channels;
    users = h.users;
    members = h.members;
  }
  apply-IsKeyed c (server_create s raw) h = on_server_create-IsKeyed c s raw h
  apply-IsKeyed c (server_update e) h = on_server_update-IsKeyed c e h
  apply-IsKeyed c (server_delete id) h = record {
    servers = h.servers;
    channels = h.channels;
    users = h.users;
    members = h.members;
  }
  apply-IsKeyed c (server_member_join server_id user_id m) h = cache_member-IsKeyed c m h
  apply-IsKeyed c (server_member_leave server_id user_id) h =
      forget_member-IsKeyed c server_id user_id h
  apply-IsKeyed c (server_role_create e) h =
      unfold on_role_create in with_roles-IsKeyed c e.server_id _ h
  apply-IsKeyed c (server_role_update e) h =
      unfold on_role_update in with_roles-IsKeyed c e.server_id _ h
  apply-IsKeyed c (server_role_delete server_id role_id) h =
      unfold on_role_delete in with_roles-IsKeyed c server_id _ h
  apply-IsKeyed c _ h = h
