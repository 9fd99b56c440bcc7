-- ===== src/Moderation/Status.antt =====
-- `cluster::update_status` of src/cluster/misc.cpp, a thread with one request.
use stoatpp.Prelude.{Bool, none, List}
use stoatpp.Text.{Text, lit}
use stoatpp.Json.{JsonLib}
use stoatpp.Rest.Endpoints.Users
use stoatpp.Moderation.Threads.{Answer, ThreadEffect, Given, thread, outcome, no}

module _ (J : JsonLib) where
  abbrev status_body : Text → Text → J.Json
  status_body status presence = J.with_field J.object (lit "status") (
      J.with_field (J.with_field J.null (lit "text") (J.of_text status)) (lit "presence")
        (J.of_text presence))

  unfoldable pub update_status : Given Bool → Text → Text → Answer J → List (ThreadEffect J Bool)
  unfolding thread Users.edit_current_user
  update_status g status presence answer =
      thread J g no none (outcome J) (Users.edit_current_user J (status_body status presence))
        answer
