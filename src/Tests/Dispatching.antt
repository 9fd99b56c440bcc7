-- ===== src/Tests/Dispatching.antt =====
-- Uses of the theorems on the dispatcher.
use stoatpp.Prelude.{
  ℕ, ◌+◌, ◌≡◌, refl, Bool, true, false, none, List, [], ◌∷◌, ◌++◌, ◌==◌, if◌then◌else◌,
}
use stoatpp.Text.{lit}
use stoatpp.Events.Event.{Event, server_member_leave}
use stoatpp.Cache.State.{Cache}
use stoatpp.Cache.Listeners.{apply}
use stoatpp.Dispatcher.Kinds.{server_member_leave_handlers, message_handlers, kind_of}
use stoatpp.Dispatcher.Calls.{Registration, dispatch, call_all, is_ignored}
use stoatpp.Dispatcher.Order.{after_log, handlers_for}
use stoatpp.Dispatcher.Cached.{cache_listener, constructor_log, is_cached, dispatch-cached}
use stoatpp.Tests.Sample.{sample_json, sample_cache}

-- A world of the cache and a count of the calls of other handlers. The handler 7 throws.
abbrev World : Type 0
World = Cache sample_json × ℕ

abbrev run : ℕ → World → Event sample_json → World × List Registration × Bool
run h w e =
    if h == 3
    then ((apply sample_json w.0 e, w.1), [], false)
    else ((w.0, w.1 + 1), (message_handlers, h) ∷ [], h == 7)

abbrev left : Event sample_json
left = server_member_leave (lit "s1") (lit "alice")

abbrev registrations : List Registration
registrations =
    constructor_log true
    ++ (server_member_leave_handlers, 6)
      ∷ (server_member_leave_handlers, 7)
      ∷ (server_member_leave_handlers, 8)
      ∷ []

listens :
    (w : World) (e : Event sample_json) → (run cache_listener w e).0.0 ≡ apply sample_json w.0 e
listens w e = refl

quiet : (w : World) (e : Event sample_json) → (run cache_listener w e).2 ≡ false
quiet w e = refl

passed : is_ignored sample_json World run none left ≡ false
unfolding is_ignored
passed = refl

listened : is_cached (kind_of sample_json left) ≡ true
unfolding kind_of
listened = refl

dispatch-cached_example :
    (w' : World) × (w'.0 ≡ apply sample_json sample_cache left)
    × ((dispatch sample_json World run none
          (after_log (constructor_log true ++ (server_member_leave_handlers, 7) ∷ []))
          (sample_cache, 0)
          left).0
        ≡ (call_all sample_json World run none
            (handlers_for ((server_member_leave_handlers, 7) ∷ []) (kind_of sample_json left))
            w'
            left).0)
dispatch-cached_example =
    dispatch-cached sample_json World run none (λ w. w.0) listens quiet true
      ((server_member_leave_handlers, 7) ∷ []) (sample_cache, 0) left listened passed
