-- ===== src/Users.antt =====
-- Owners and the fetching of users and members in src/cluster/misc.cpp. What the REST client answers is a
-- parameter; `none` is an exception.
pub mod Fetching
use stoatpp.Prelude.{Bool, true, false, Option, none, some, [], ◌&&◌, not, is_nil, if◌then◌else◌}
use stoatpp.Text.{Text, lit, text_eq}
use stoatpp.Dict.{insert}
use stoatpp.Json.{JsonLib, string_field, file_ref, or_else, value_or}
use stoatpp.Models.User.{User, user_from_json, no_user}
use stoatpp.Models.Member.{Member, member_from_json, no_member}
use stoatpp.Cache.State.{Cache}
use stoatpp.Cache.Reads.{get_user, get_server}
use stoatpp.Rest.Exchange.{Response, success}

-- `cluster::is_owner`
unfoldable pub is_owner : Text → Text → Bool
is_owner owner_id user_id = not (is_nil owner_id) && text_eq owner_id user_id

module _ (J : JsonLib) where
  -- `cluster::is_server_owner`
  unfoldable pub is_server_owner : Cache J → Text → Text → Bool
  is_server_owner c server_id user_id = elim (get_server J c server_id) [
    | none ↦ false
    | some s ↦ text_eq s.owner user_id
  ]

  -- A successful answer's body.
  abbrev pub body_of : Option (Response J) → Option J.Json
  body_of none = none
  body_of (some r) = if success r.status_code then some r.body else none

  abbrev pub profile_banner : User J → J.Json → Option Text
  profile_banner u prof =
      if J.contains prof (lit "background")
      then or_else (file_ref J (J.field prof (lit "background")) (lit "id") (lit "_id")) u.banner
      else u.banner

  -- The user with its profile; without one the bio and the banner are empty.
  abbrev pub with_profile : User J → Option J.Json → User J
  with_profile u none = record u { bio = some []; banner = some [] }
  with_profile u (some prof) = record u {
    bio = or_else (string_field J prof (lit "content")) u.bio;
    banner = profile_banner u prof;
  }

  abbrev pub has_bio : User J → Bool
  has_bio u = elim u.bio [ some b ↦ true | none ↦ false ]

  -- The user to complete: the cached one, or else the one that `rest_.get_user` answers.
  abbrev pub known_user : Option (User J) → Option (Response J) → Option (User J)
  known_user (some u) answer = some u
  known_user none answer = elim (body_of answer) [
    | some j ↦ some (user_from_json J j)
    | none ↦ none
  ]

  -- The thread of `fetch_user`; an exception gives an empty user.
  abbrev pub complete : Cache J → Option (User J) → Option (Response J) → Cache J × (User J × Bool)
  complete c none profile = (c, (no_user J, false))
  complete c (some u) none = (c, (no_user J, false))
  complete c (some u) (some r) =
      let full = with_profile u (body_of (some r)) in
      (record c { user_cache = insert full.id full c.user_cache }, (full, true))

  -- `cluster::fetch_user`: the new cache and what the callback gets.
  unfoldable pub fetch_user :
      Cache J
      → Text
      → (Text → Option (Response J))
      → (Text → Option (Response J))
      → Cache J × (User J × Bool)
  fetch_user c user_id answer profile = elim (get_user J c user_id) [
    | some u ↦ if has_bio u then (c, (u, true)) else complete c (some u) (profile user_id)
    | none ↦ complete c (known_user none (answer user_id)) (profile user_id)
  ]

  -- `cluster::fetch_member`: what the callback gets.
  unfoldable pub fetched_member : Option (Response J) → Member J × Bool
  fetched_member answer = elim (body_of answer) [
    | some j ↦ (member_from_json J j, true)
    | none ↦ (no_member J, false)
  ]
