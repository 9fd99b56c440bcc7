-- ===== src/Moderation/MemberRoles.antt =====
-- `add_role_to_member` and `remove_role_from_member` of src/cluster/moderation.cpp: a member is read, and
-- its roles are written back where they change.
use stoatpp.Prelude.{Bool, true, false, Option, none, some, List, [], ◌∷◌, ◌++◌, if◌then◌else◌}
use stoatpp.Text.{Text, lit, text_eq}
use stoatpp.Json.{JsonLib, string_field, texts, or_else, value_or}
use stoatpp.Models.Member.{member_from_json}
use stoatpp.Rest.Numerals.{to_string}
use stoatpp.Rest.Exchange.{Response, success}
use stoatpp.Rest.Endpoints.Servers.{get_server_member, edit_member}
use stoatpp.Moderation.Threads.{Answer, raised, got, ThreadEffect, asked, Given, call, try_call}

abbrev pub has_role : Text → List Text → Bool
has_role role_id [] = false
has_role role_id (r ∷ roles) =
    let rest = has_role role_id roles in if text_eq r role_id then true else rest

abbrev pub other_roles : Text → List Text → List Text
other_roles role_id [] = []
other_roles role_id (r ∷ roles) =
    let rest = other_roles role_id roles in if text_eq r role_id then rest else r ∷ rest

-- The roles to write: `none` where nothing changes.
unfoldable pub roles_with : Text → List Text → Option (List Text)
roles_with role_id roles = if has_role role_id roles then none else some (roles ++ role_id ∷ [])

unfoldable pub roles_without : Text → List Text → Option (List Text)
roles_without role_id roles =
    if has_role role_id roles then some (other_roles role_id roles) else none

module _ (J : JsonLib) where
  -- `type`, or else `error`, or else the status.
  unfoldable pub failure_text : Response J → Text
  unfolding to_string
  failure_text r =
      value_or
        (if J.is_object r.body
          then or_else (string_field J r.body (lit "type")) (string_field J r.body (lit "error"))
          else none)
        (lit "HTTP_" ++ to_string r.status_code)

  abbrev pub Verdict : Type 0
  Verdict = Bool × Text

  abbrev failed : Text → Verdict
  failed what = (false, what)

  -- The answer to the PATCH.
  abbrev on_patched : Given Verdict → Answer J → List (ThreadEffect J Verdict)
  on_patched g (raised what) = call J g (failed what)
  on_patched g (got p) =
      try_call J g failed
        (success p.status_code, (if success p.status_code then [] else failure_text p))

  -- The roles to write, and the answer to the PATCH where it is sent.
  abbrev write_roles :
      Given Verdict → Text → Text → Option (List Text) → Answer J → List (ThreadEffect J Verdict)
  write_roles g server_id user_id none patched = try_call J g failed (true, [])
  write_roles g server_id user_id (some roles) patched =
      asked (edit_member J server_id user_id (J.with_field J.null (lit "roles") (texts J roles)))
      ∷ on_patched g patched

  abbrev on_member :
      Given Verdict
      → Text
      → Text
      → (List Text → Option (List Text))
      → Answer J
      → Answer J
      → List (ThreadEffect J Verdict)
  on_member g server_id user_id change (raised what) patched = call J g (failed what)
  on_member g server_id user_id change (got r) patched =
      if success r.status_code
      then write_roles g server_id user_id (change (member_from_json J r.body).roles) patched
      else try_call J g failed (false, lit "GET_MEMBER_FAILED")

  -- With the answers to the GET and to the PATCH.
  unfoldable pub add_role_to_member :
      Given Verdict → Text → Text → Text → Answer J → Answer J → List (ThreadEffect J Verdict)
  unfolding success get_server_member edit_member failure_text roles_with
  add_role_to_member g server_id user_id role_id member patched =
      asked (get_server_member J server_id user_id)
      ∷ on_member g server_id user_id (roles_with role_id) member patched

  unfoldable pub remove_role_from_member :
      Given Verdict → Text → Text → Text → Answer J → Answer J → List (ThreadEffect J Verdict)
  unfolding success get_server_member edit_member failure_text roles_without
  remove_role_from_member g server_id user_id role_id member patched =
      asked (get_server_member J server_id user_id)
      ∷ on_member g server_id user_id (roles_without role_id) member patched
