-- ===== src/Cache/Members.antt =====
-- The two-level member map of the cache.
use stoatpp.Prelude.{
  ◌≡◌, ◌∙◌, inl, inr, none, some, arith, ◌&&◌, not, is_nil, Bool-cases, Option-cases, if◌then◌else◌,
}
use stoatpp.Text.{Text, text_eq, text_eq_iff}
use stoatpp.Dict.{Dict, lookup, insert, erase, lookup-insert, lookup-erase}
use stoatpp.Json.{JsonLib}
use stoatpp.Models.Member.{Member}
use stoatpp.Events.Event.{server_member_join, server_member_leave}
use stoatpp.Cache.State.{Cache, cache_member, forget_member, members_of}
use stoatpp.Cache.Listeners.{apply}
use stoatpp.Cache.Reads.{get_member}

module _ (J : JsonLib) where
  -- An unknown server has no members, as if its map were empty.
  get_member-members_of :
      (c : Cache J) (server_id user_id : Text)
      → get_member J c server_id user_id ≡ lookup user_id (members_of J c server_id)
  unfolding get_member lookup
  get_member-members_of c server_id user_id =
      elim (Option-cases (lookup server_id c.member_cache)) [
        | inl e ↦ rw (e, get_member)
        | inr (ms, e) ↦ rw (e, get_member)
      ]

  with_members : Cache J → Text → Dict (Member J) → Cache J
  with_members c server_id ms = record c { member_cache = insert server_id ms c.member_cache }

  get_member-with_members :
      (c : Cache J) (of server_id user_id : Text) (ms : Dict (Member J))
      → get_member J (with_members c of ms) server_id user_id
        ≡ (if text_eq of server_id then lookup user_id ms else get_member J c server_id user_id)
  unfolding with_members get_member
  get_member-with_members c of server_id user_id ms =
      rw (lookup-insert of server_id ms c.member_cache, get_member)
        (ground (arith, text_eq_iff of server_id))

  -- After a `ServerMemberJoin` the member is found under its server and its user, if it names both;
  -- every other member of every server is found as before.
  pub get_member-join :
      (c : Cache J) (m : Member J) (event_server event_user server_id user_id : Text)
      → get_member J (apply J c (server_member_join event_server event_user m)) server_id user_id
        ≡ (if (not (is_nil m.server_id) && not (is_nil m.id))
              && (text_eq m.server_id server_id && text_eq m.id user_id)
            then some m
            else get_member J c server_id user_id)
  unfolding apply cache_member with_members
  get_member-join c m event_server event_user server_id user_id =
      elim (Bool-cases (not (is_nil m.server_id) && not (is_nil m.id))) [
        | inl e ↦ rw e (
            get_member-with_members c m.server_id server_id user_id
              (insert m.id m (members_of J c m.server_id))
            ∙ ground (
              arith,
              text_eq_iff m.server_id server_id,
              lookup-insert m.id user_id m (members_of J c m.server_id),
              get_member-members_of c server_id user_id,
            ))
        | inr e ↦ rw e
      ]

  -- After a `ServerMemberLeave` that names a server and a user, that member is not found; every other
  -- member of every server is found as before.
  pub get_member-leave :
      (c : Cache J) (event_server event_user server_id user_id : Text)
      → get_member J (apply J c (server_member_leave event_server event_user)) server_id user_id ≡ (
          if (not (is_nil event_server) && not (is_nil event_user))
            && (text_eq event_server server_id && text_eq event_user user_id)
          then none
          else get_member J c server_id user_id)
  unfolding apply forget_member with_members
  get_member-leave c event_server event_user server_id user_id =
      elim (Bool-cases (not (is_nil event_server) && not (is_nil event_user))) [
        | inl e ↦ rw e (
            get_member-with_members c event_server server_id user_id
              (erase event_user (members_of J c event_server))
            ∙ ground (
              arith,
              text_eq_iff event_server server_id,
              lookup-erase event_user user_id (members_of J c event_server),
              get_member-members_of c server_id user_id,
            ))
        | inr e ↦ rw e
      ]

  -- After a `ServerMemberJoin` the member is found under its server and its user, if it names both; after a
  -- `ServerMemberLeave` that names a server and a user, that member is not found. Every other member of every
  -- server is found as before.
  pub get_member_events :
      (c : Cache J) (m : Member J) (event_server event_user server_id user_id : Text)
      → (get_member J (apply J c (server_member_join event_server event_user m)) server_id user_id
          ≡ (if (not (is_nil m.server_id) && not (is_nil m.id))
                && (text_eq m.server_id server_id && text_eq m.id user_id)
              then some m
              else get_member J c server_id user_id))
        × (get_member J (apply J c (server_member_leave event_server event_user)) server_id user_id
            ≡ (if (not (is_nil event_server) && not (is_nil event_user))
                  && (text_eq event_server server_id && text_eq event_user user_id)
                then none
                else get_member J c server_id user_id))
  get_member_events c m event_server event_user server_id user_id = (
    get_member-join c m event_server event_user server_id user_id,
    get_member-leave c event_server event_user server_id user_id,
  )
