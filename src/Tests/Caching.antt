-- ===== src/Tests/Caching.antt =====
-- Uses of the theorems on the cache.
use mathlib.Core.Option
use stoatpp.Prelude.{◌≡◌, refl, none, some, [], not, is_nil, ◌&&◌, if◌then◌else◌}
use stoatpp.Text.{lit, text_eq}
use stoatpp.Dict.{Keyed-nil}
use stoatpp.Models.User.{no_user}
use stoatpp.Events.Event.{
  RoleCreate, RoleUpdate, server_create, server_member_join, server_member_leave,
}
use stoatpp.Cache.State.{Cache}
use stoatpp.Cache.Listeners.{apply, on_role_create, on_role_update, on_role_delete}
use stoatpp.Cache.Reads.{get_member, get_server}
use stoatpp.Cache.Invariant.{IsKeyed, apply-IsKeyed}
use stoatpp.Cache.Members.{get_member_events}
use stoatpp.Cache.Carried.{carried}
use stoatpp.Cache.RoleMap.{role_at, is_some, role_at_events}
use stoatpp.Tests.Sample.{null, sample_json, home, bob, moderator, sample_cache}

abbrev pub empty_cache : Cache sample_json
empty_cache = record {
  server_cache = [];
  channel_cache = [];
  user_cache = [];
  member_cache = [];
  current_user = no_user sample_json;
  pending = [];
}

pub empty_cache-IsKeyed : IsKeyed sample_json empty_cache
empty_cache-IsKeyed = record {
  servers = Keyed-nil _;
  channels = Keyed-nil _;
  users = Keyed-nil _;
  members = Keyed-nil _;
}

apply-IsKeyed_example :
    IsKeyed sample_json (apply sample_json empty_cache (server_create home null))
apply-IsKeyed_example =
    apply-IsKeyed sample_json empty_cache (server_create home null) empty_cache-IsKeyed

get_member_events_example :
    (get_member sample_json
        (apply sample_json sample_cache (server_member_join (lit "s1") (lit "alice") bob))
        (lit "s1")
        (lit "bob")
      ≡ (if (not (is_nil bob.server_id) && not (is_nil bob.id))
            && (text_eq bob.server_id (lit "s1") && text_eq bob.id (lit "bob"))
          then some bob
          else get_member sample_json sample_cache (lit "s1") (lit "bob")))
    × (get_member sample_json
          (apply sample_json sample_cache (server_member_leave (lit "s1") (lit "alice")))
          (lit "s1")
          (lit "bob")
        ≡ (if (not (is_nil (lit "s1")) && not (is_nil (lit "alice")))
              && (text_eq (lit "s1") (lit "s1") && text_eq (lit "alice") (lit "bob"))
            then none
            else get_member sample_json sample_cache (lit "s1") (lit "bob")))
get_member_events_example =
    get_member_events sample_json sample_cache bob (lit "s1") (lit "alice") (lit "s1") (lit "bob")

abbrev created : RoleCreate sample_json
created = record {
  server_id = lit "s1";
  role_id = lit "r2";
  role = record moderator { id = lit "r2" };
}

abbrev changed : RoleUpdate sample_json
changed = record { server_id = lit "s1"; role_id = lit "r1"; changes = null; clear = [] }

role_at_events_example :
    (role_at sample_json (on_role_create sample_json sample_cache created) (lit "s1") (lit "r1") ≡ (
      if is_some sample_json (get_server sample_json sample_cache (lit "s1"))
        && text_eq created.server_id (lit "s1")
      then (if text_eq created.role_id (lit "r1")
          then some (record created.role { id = created.role_id })
          else role_at sample_json sample_cache (lit "s1") (lit "r1"))
      else role_at sample_json sample_cache (lit "s1") (lit "r1")))
    × (role_at sample_json (on_role_update sample_json sample_cache changed) (lit "s1") (lit "r1")
        ≡ (if is_some sample_json (get_server sample_json sample_cache (lit "s1"))
              && text_eq changed.server_id (lit "s1")
            then (if text_eq changed.role_id (lit "r1")
                then Option.map
                    (λ r. carried sample_json r changed)
                    (role_at sample_json sample_cache (lit "s1") (lit "r1"))
                else role_at sample_json sample_cache (lit "s1") (lit "r1"))
            else role_at sample_json sample_cache (lit "s1") (lit "r1")))
    × (role_at sample_json
          (on_role_delete sample_json sample_cache (lit "s1") (lit "r1"))
          (lit "s1")
          (lit "r1")
        ≡ (if is_some sample_json (get_server sample_json sample_cache (lit "s1"))
              && text_eq (lit "s1") (lit "s1")
            then (if text_eq (lit "r1") (lit "r1")
                then none
                else role_at sample_json sample_cache (lit "s1") (lit "r1"))
            else role_at sample_json sample_cache (lit "s1") (lit "r1")))
unfolding text_eq
role_at_events_example =
    role_at_events sample_json sample_cache (lit "s1") (lit "r1") created changed (lit "s1")
      (lit "r1") refl
