-- ===== src/Moderation/Actions.antt =====
-- The operations of src/cluster/moderation.cpp that make one request.
use stoatpp.Prelude.{
  ℕ, Bool, true, false, none, some, List, [], if◌then◌else◌, is_nil, ◌&&◌, length,
}
use stoatpp.Prelude.Int.{ℤ, pos}
use stoatpp.Text.{Text, lit}
use stoatpp.Json.{JsonLib}
use stoatpp.Models.Role.{Role, role_from_json, no_role}
use stoatpp.Rest.Exchange.{Response, success}
use stoatpp.Rest.Endpoints.Servers.{edit_member, get_server_members}
use stoatpp.Rest.Endpoints.Channels.{edit_channel, get_channel_permissions, set_channel_permission}
use stoatpp.Moderation.Threads.{Answer, ThreadEffect, Given, thread, outcome, no}
use stoatpp.Rest.Endpoints.Servers

module _ (J : JsonLib) where
  unfoldable pub ban_user : Given Bool → Text → Text → Text → Answer J → List (ThreadEffect J Bool)
  unfolding thread Servers.ban_user
  ban_user g server_id user_id reason =
      thread J g no (some (user_id, lit "ban", reason)) (outcome J)
        (Servers.ban_user J server_id user_id (if is_nil reason then none else some reason))

  unfoldable pub unban_user : Given Bool → Text → Text → Answer J → List (ThreadEffect J Bool)
  unfolding thread Servers.unban_user
  unban_user g server_id user_id =
      thread J g no (some (user_id, lit "unban", [])) (outcome J)
        (Servers.unban_user J server_id user_id)

  unfoldable pub kick_member : Given Bool → Text → Text → Answer J → List (ThreadEffect J Bool)
  unfolding thread Servers.kick_member
  kick_member g server_id user_id =
      thread J g no (some (user_id, lit "kick", [])) (outcome J)
        (Servers.kick_member J server_id user_id)

  unfoldable pub timeout_member :
      Given Bool → Text → Text → Text → Answer J → List (ThreadEffect J Bool)
  unfolding thread edit_member
  timeout_member g server_id user_id duration_iso =
      thread J g no (some (user_id, lit "timeout", duration_iso)) (outcome J) (
        edit_member J server_id user_id
          (J.with_field J.null (lit "timeout") (J.of_text duration_iso)))

  unfoldable pub remove_timeout : Given Bool → Text → Text → Answer J → List (ThreadEffect J Bool)
  unfolding thread edit_member
  remove_timeout g server_id user_id =
      thread J g no (some (user_id, lit "untimeout", [])) (outcome J)
        (edit_member J server_id user_id (J.with_field J.null (lit "timeout") J.null))

  unfoldable pub create_role :
      Given (Role J × Bool) → Text → Text → Answer J → List (ThreadEffect J (Role J × Bool))
  unfolding thread success Servers.create_role
  create_role g server_id name =
      thread J g (λ what. (no_role J, false)) none
        (λ r. if success r.status_code then (role_from_json J r.body, true) else (no_role J, false))
        (Servers.create_role J server_id name)

  unfoldable pub delete_role : Given Bool → Text → Text → Answer J → List (ThreadEffect J Bool)
  unfolding thread Servers.delete_role
  delete_role g server_id role_id =
      thread J g no none (outcome J) (Servers.delete_role J server_id role_id)

  -- The size of an array, or of the array `members` of an object.
  unfoldable pub member_count : Response J → ℕ × Bool
  unfolding success
  member_count r =
      if success r.status_code
      then (if J.is_array r.body
          then (length (J.elements r.body), true)
          else if J.is_object r.body
              && J.contains r.body (lit "members")
              && J.is_array (J.field r.body (lit "members"))
          then (length (J.elements (J.field r.body (lit "members"))), true)
          else (0, false))
      else (0, false)

  unfoldable pub get_member_count :
      Given (ℕ × Bool) → Text → Answer J → List (ThreadEffect J (ℕ × Bool))
  unfolding thread member_count get_server_members
  get_member_count g server_id =
      thread J g (λ what. (0, false)) none member_count (get_server_members J server_id)

  unfoldable pub set_slowmode : Given Bool → Text → ℤ → Answer J → List (ThreadEffect J Bool)
  unfolding thread edit_channel
  set_slowmode g channel_id seconds =
      thread J g no none (outcome J)
        (edit_channel J channel_id (J.with_field J.null (lit "slowmode") (J.of_int seconds)))

  unfoldable pub clear_slowmode : Given Bool → Text → Answer J → List (ThreadEffect J Bool)
  unfolding set_slowmode
  clear_slowmode g channel_id = set_slowmode g channel_id (pos 0)

  unfoldable pub fetch_channel_permissions :
      Given (J.Json × Bool) → Text → Answer J → List (ThreadEffect J (J.Json × Bool))
  unfolding thread success get_channel_permissions
  fetch_channel_permissions g channel_id =
      thread J g (λ what. (J.object, false)) none
        (λ r. if success r.status_code then (r.body, true) else (J.object, false))
        (get_channel_permissions J channel_id)

  unfoldable pub set_channel_permissions :
      Given Bool → Text → Text → ℤ → ℤ → Answer J → List (ThreadEffect J Bool)
  unfolding thread set_channel_permission
  set_channel_permissions g channel_id role_id allow_mask deny_mask =
      thread J g no none (outcome J)
        (set_channel_permission J channel_id role_id allow_mask deny_mask)
