-- ===== src/Tests/Moderating.antt =====
-- A use of the theorem on the verdicts of moderation, and runs of the role operations.
use stoatpp.Prelude.{◌≡◌, refl, true, none, some, [], ◌∷◌, if◌then◌else◌}
use stoatpp.Prelude.Int.{pos}
use stoatpp.Text.{lit}
use stoatpp.Rest.Verbs.{del}
use stoatpp.Moderation.Threads.{Answer, got, thread, outcome, no}
use stoatpp.Moderation.Answers.{verdicts, verdict, thread-verdicts}
use stoatpp.Moderation.MemberRoles.{roles_with, roles_without}
use stoatpp.Tests.Sample.{null, sample_json}

-- The service refuses.
abbrev forbidden : Answer sample_json
forbidden = got (record { status_code = pos 403; body = null })

thread-verdicts_example :
    verdicts sample_json (
      thread sample_json
        (record {
          on_moderation_action = if true then some none else none;
          callback = some (λ a. none);
        })
        no
        (some (lit "bob", lit "kick", []))
        (outcome sample_json)
        (del sample_json (lit "/servers/s1/members/bob") null)
        forbidden)
    ≡ verdict sample_json no (outcome sample_json) forbidden ∷ []
thread-verdicts_example =
    thread-verdicts sample_json no (some (lit "bob", lit "kick", [])) (outcome sample_json)
      (del sample_json (lit "/servers/s1/members/bob") null) forbidden true

gives : roles_with (lit "r2") (lit "r1" ∷ []) ≡ some (lit "r1" ∷ lit "r2" ∷ [])
unfolding roles_with stoatpp.Text.text_eq
gives = refl

takes : roles_without (lit "r1") (lit "r1" ∷ lit "r2" ∷ []) ≡ some (lit "r2" ∷ [])
unfolding roles_without stoatpp.Text.text_eq
takes = refl
