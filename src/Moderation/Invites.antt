-- ===== src/Moderation/Invites.antt =====
-- The invites of src/cluster/moderation.cpp, and its `move_channel_to_category`, which makes up to two requests.
use stoatpp.Prelude.{Bool, true, false, none, List, [], ◌∷◌, map, if◌then◌else◌, ◌&&◌}
use stoatpp.Text.{Text}
use stoatpp.Json.{JsonLib}
use stoatpp.Models.Invite.{Invite, no_invite, invite_from_json}
use stoatpp.Rest.Exchange.{Response, success}
use stoatpp.Rest.Endpoints.Servers.{get_server, get_server_invites}
use stoatpp.Rest.Endpoints.Channels.{create_channel_invite}
use stoatpp.Rest.MoveChannel.{Move, refused, edits, broken}
use stoatpp.Rest.MoveChannel
use stoatpp.Moderation.Threads.{
  Answer, raised, got, ThreadEffect, asked, Given, call, try_call, thread, outcome, no,
}

module _ (J : JsonLib) where
  abbrev invites_result : Response J → List Invite × Bool
  invites_result r =
      if success r.status_code && J.is_array r.body
      then (map (invite_from_json J) (J.elements r.body), true)
      else ([], false)

  unfoldable pub fetch_server_invites :
      Given (List Invite × Bool) → Text → Answer J → List (ThreadEffect J (List Invite × Bool))
  unfolding thread success invite_from_json get_server_invites
  fetch_server_invites g server_id =
      thread J g (λ what. ([], false)) none invites_result (get_server_invites J server_id)

  unfoldable pub create_invite :
      Given (Invite × Bool) → Text → Answer J → List (ThreadEffect J (Invite × Bool))
  unfolding thread success invite_from_json create_channel_invite
  create_invite g channel_id =
      thread J g (λ what. (no_invite, false)) none
        (λ r.
          if success r.status_code then (invite_from_json J r.body, true) else (no_invite, false))
        (create_channel_invite J channel_id)

  -- What the call makes of the answer to its first request: an answer to hand on, an exception with a text, or
  -- a second request with its answer.
  abbrev after_read : Given Bool → Text → Move J → Answer J → List (ThreadEffect J Bool)
  after_read g what (refused r) second = try_call J g no (outcome J r)
  after_read g what broken second = call J g (no what)
  after_read g what (edits q) (raised text) = asked q ∷ call J g (no text)
  after_read g what (edits q) (got r) = asked q ∷ try_call J g no (outcome J r)

  abbrev on_server :
      Given Bool → (Response J → Move J) → Text → Answer J → Answer J → List (ThreadEffect J Bool)
  on_server g move what (raised text) second = call J g (no text)
  on_server g move what (got r) second = after_read g what (move r) second

  -- `cluster::move_channel_to_category`, with the random id of a new category, the text of the library's
  -- exception, and the answers to the GET and to the PATCH.
  unfoldable pub move_channel :
      Given Bool
      → Text
      → Text
      → Text
      → Text
      → Text
      → Answer J
      → Answer J
      → List (ThreadEffect J Bool)
  unfolding success get_server MoveChannel.move_channel_to_category
  move_channel g cat_id what server_id channel_id name first second =
      asked (get_server J server_id)
      ∷ on_server g (MoveChannel.move_channel_to_category J cat_id server_id channel_id name) what
          first second
