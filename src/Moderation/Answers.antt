-- ===== src/Moderation/Answers.antt =====
-- The callback of an operation of src/cluster/moderation.cpp or src/cluster/messaging.cpp gets one verdict.
use stoatpp.Prelude.{
  ◌≡◌, refl, Bool, true, false, Option, none, some, List, [], ◌∷◌, if◌then◌else◌, arith,
}
use stoatpp.Text.{Text}
use stoatpp.Json.{JsonLib}
use stoatpp.Rest.Exchange.{Request, Response}
use stoatpp.Moderation.Threads.{
  Answer, raised, got, ThreadEffect, asked, acted, called, on_answer, thread,
}

module _ (J : JsonLib) {A : Type 0} where
  -- The calls of the callback, and of the handler.
  abbrev pub verdicts : List (ThreadEffect J A) → List A
  verdicts [] = []
  verdicts (called a ∷ es) = a ∷ verdicts es
  verdicts (asked q ∷ es) = verdicts es
  verdicts (acted u a d ∷ es) = verdicts es

  -- What the callback should get: the failure of an exception, or what the answer comes to.
  abbrev pub verdict : (Text → A) → (Response J → A) → Answer J → A
  verdict failed result (raised what) = failed what
  verdict failed result (got r) = result r

  -- Where neither the handler nor the callback throws, whether the request throws, fails or succeeds: the
  -- callback is called exactly once, with the failure of the exception or the result of the answer.
  pub thread-verdicts :
      (failed : Text → A) (action : Option (Text × Text × Text)) (result : Response J → A)
      (request : Request J) (answer : Answer J) (handler : Bool)
      → verdicts (
          thread J
            (record {
              on_moderation_action = if handler then some none else none;
              callback = some (λ a. none);
            })
            failed
            action
            result
            request
            answer)
        ≡ verdict failed result answer ∷ []
  unfolding thread on_answer
  thread-verdicts failed action result request (raised what) handler = refl
  thread-verdicts failed none result request (got r) handler = refl
  thread-verdicts failed (some action) result request (got r) true = ground arith
  thread-verdicts failed (some action) result request (got r) false = ground arith
