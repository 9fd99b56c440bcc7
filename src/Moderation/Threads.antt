-- ===== src/Moderation/Threads.antt =====
-- What the threads of src/cluster/moderation.cpp and src/cluster/messaging.cpp have in common: a request, the
-- handler `on_moderation_action`, the callback, and the `catch` round them.
use stoatpp.Prelude.{Bool, false, Option, none, some, List, [], ◌∷◌, if◌then◌else◌}
use stoatpp.Text.{Text}
use stoatpp.Json.{JsonLib}
use stoatpp.Rest.Exchange.{Request, Response, success}

-- What `rest_` does: it throws, with a text, or it answers.
pub data Answer (J : JsonLib) : Type 0 where
  raised : Text → Answer J
  got : Response J → Answer J

-- A request, a call of `on_moderation_action` (user, action, detail), a call of the callback.
pub data ThreadEffect (J : JsonLib) (A : Type 0) : Type 0 where
  asked : Request J → ThreadEffect J A
  acted : Text → Text → Text → ThreadEffect J A
  called : A → ThreadEffect J A

-- What the bot has given: the text of the exception, if any, that the handler and the callback throw.
pub record Given (A : Type 0) : Type 0 where
  pub on_moderation_action : Option (Option Text)
  pub callback : Option (A → Option Text)

module _ (J : JsonLib) {A : Type 0} where
  -- `if (callback) callback(a);` in a `catch`
  abbrev pub call : Given A → A → List (ThreadEffect J A)
  call g a = elim g.callback [ none ↦ [] | some throws ↦ called a ∷ [] ]

  -- The same in the `try`: where the callback throws, the `catch` calls it again.
  abbrev pub try_call : Given A → (Text → A) → A → List (ThreadEffect J A)
  try_call g failed a = elim g.callback [
    | none ↦ []
    | some throws ↦ called a ∷ elim (throws a) as (λ o. List (ThreadEffect J A)) [
      | none ↦ []
      | some what ↦ called (failed what) ∷ []
    ]
  ]

  -- The handler, where the request has succeeded, and then the callback.
  abbrev pub act_and_call : Given A → (Text → A) → Text × Text × Text → A → List (ThreadEffect J A)
  act_and_call g failed (user_id, action, detail) a = elim g.on_moderation_action [
    | none ↦ try_call g failed a
    | some none ↦ acted user_id action detail ∷ try_call g failed a
    | some (some what) ↦ acted user_id action detail ∷ call g (failed what)
  ]

  -- The answer to the one request of a thread.
  unfoldable pub on_answer :
      Given A
      → (Text → A)
      → Option (Text × Text × Text)
      → (Response J → A)
      → Answer J
      → List (ThreadEffect J A)
  unfolding success
  on_answer g failed action result (raised what) = call g (failed what)
  on_answer g failed none result (got r) = try_call g failed (result r)
  on_answer g failed (some action) result (got r) =
      if success r.status_code
      then act_and_call g failed action (result r)
      else try_call g failed (result r)

  -- A whole thread.
  unfoldable pub thread :
      Given A
      → (Text → A)
      → Option (Text × Text × Text)
      → (Response J → A)
      → Request J
      → Answer J
      → List (ThreadEffect J A)
  unfolding on_answer
  thread g failed action result request answer =
      asked request ∷ on_answer g failed action result answer

-- `callback(res.success())`, and `callback(false)` after an exception
abbrev pub outcome : (J : JsonLib) → Response J → Bool
outcome J r = success r.status_code

abbrev pub no : Text → Bool
no what = false
