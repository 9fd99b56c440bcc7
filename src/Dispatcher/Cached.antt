-- ===== src/Dispatcher/Cached.antt =====
-- The handlers that a cluster registers before those of its bot: the constructor of src/cluster.cpp, with
-- src/cluster/commands.cpp and src/cluster/cache.cpp.
use stoatpp.Prelude.{
  ℕ, ◌≡◌, refl, ap, ◌∙◌, Bool, true, false, Option, List, [], ◌∷◌, ◌++◌, if◌then◌else◌, Bool-cases,
  inl, inr,
}
use stoatpp.Text.{Text}
use stoatpp.Json.{JsonLib}
use stoatpp.Events.Event.{Event}
use stoatpp.Cache.State.{Cache}
use stoatpp.Cache.Listeners.{apply}
use stoatpp.Dispatcher.Kinds.{
  Kind, same_kind, kind_of, ready_handlers, message_handlers, message_update_handlers,
  message_delete_handlers, message_react_handlers, message_unreact_handlers,
  channel_create_handlers, channel_update_handlers, channel_delete_handlers, server_create_handlers,
  server_update_handlers, server_delete_handlers, server_member_join_handlers,
  server_member_leave_handlers, server_member_update_handlers, server_role_create_handlers,
  server_role_update_handlers, server_role_delete_handlers, user_update_handlers,
  user_settings_update_handlers, user_presence_update_handlers, channel_start_typing_handlers,
  channel_stop_typing_handlers, webhook_update_handlers, voice_state_update_handlers,
  error_handlers, logout_handlers,
}
use stoatpp.Dispatcher.Calls.{
  Registration, Dispatcher, register, Runs, is_ignored, call_all, dispatch,
}
use stoatpp.Dispatcher.Order.{handlers_for, after_log, handlers_of-after_log}

-- `cluster::on_...` hands its argument to the dispatcher.
abbrev pub cluster_on : Dispatcher → Registration → Dispatcher
cluster_on d r = register d r

-- The listeners of the cluster itself.
abbrev pub help_listener : ℕ
help_listener = 0

abbrev pub message_listener : ℕ
message_listener = 1

abbrev pub edit_listener : ℕ
edit_listener = 2

abbrev pub cache_listener : ℕ
cache_listener = 3

-- `setup_cache_listeners`
abbrev pub cache_log : List Registration
cache_log =
    (server_member_join_handlers, cache_listener)
    ∷ (server_member_leave_handlers, cache_listener)
    ∷ (ready_handlers, cache_listener)
    ∷ (channel_create_handlers, cache_listener)
    ∷ (channel_delete_handlers, cache_listener)
    ∷ (server_create_handlers, cache_listener)
    ∷ (server_delete_handlers, cache_listener)
    ∷ (server_update_handlers, cache_listener)
    ∷ (server_role_create_handlers, cache_listener)
    ∷ (server_role_update_handlers, cache_listener)
    ∷ (server_role_delete_handlers, cache_listener)
    ∷ []

-- The constructor: the help command where it is enabled, `setup_message_listener`, `setup_cache_listeners`.
abbrev pub constructor_log : Bool → List Registration
constructor_log enable_default_help =
    (if enable_default_help then (message_react_handlers, help_listener) ∷ [] else [])
    ++ (message_handlers, message_listener) ∷ (message_update_handlers, edit_listener) ∷ cache_log

-- The kinds that the cache listens to.
abbrev pub is_cached : Kind → Bool
is_cached server_member_join_handlers = true
is_cached server_member_leave_handlers = true
is_cached ready_handlers = true
is_cached channel_create_handlers = true
is_cached channel_delete_handlers = true
is_cached server_create_handlers = true
is_cached server_delete_handlers = true
is_cached server_update_handlers = true
is_cached server_role_create_handlers = true
is_cached server_role_update_handlers = true
is_cached server_role_delete_handlers = true
is_cached _ = false

handlers_for-cached :
    (help : Bool) (k : Kind)
    → is_cached k ≡ true
    → handlers_for (constructor_log help) k ≡ cache_listener ∷ []
unfolding handlers_for same_kind
handlers_for-cached true server_member_join_handlers h = refl
handlers_for-cached false server_member_join_handlers h = refl
handlers_for-cached true server_member_leave_handlers h = refl
handlers_for-cached false server_member_leave_handlers h = refl
handlers_for-cached true ready_handlers h = refl
handlers_for-cached false ready_handlers h = refl
handlers_for-cached true channel_create_handlers h = refl
handlers_for-cached false channel_create_handlers h = refl
handlers_for-cached true channel_delete_handlers h = refl
handlers_for-cached false channel_delete_handlers h = refl
handlers_for-cached true server_create_handlers h = refl
handlers_for-cached false server_create_handlers h = refl
handlers_for-cached true server_delete_handlers h = refl
handlers_for-cached false server_delete_handlers h = refl
handlers_for-cached true server_update_handlers h = refl
handlers_for-cached false server_update_handlers h = refl
handlers_for-cached true server_role_create_handlers h = refl
handlers_for-cached false server_role_create_handlers h = refl
handlers_for-cached true server_role_update_handlers h = refl
handlers_for-cached false server_role_update_handlers h = refl
handlers_for-cached true server_role_delete_handlers h = refl
handlers_for-cached false server_role_delete_handlers h = refl
handlers_for-cached help message_handlers h = cc
handlers_for-cached help message_update_handlers h = cc
handlers_for-cached help message_delete_handlers h = cc
handlers_for-cached help message_react_handlers h = cc
handlers_for-cached help message_unreact_handlers h = cc
handlers_for-cached help channel_update_handlers h = cc
handlers_for-cached help server_member_update_handlers h = cc
handlers_for-cached help user_update_handlers h = cc
handlers_for-cached help user_settings_update_handlers h = cc
handlers_for-cached help user_presence_update_handlers h = cc
handlers_for-cached help channel_start_typing_handlers h = cc
handlers_for-cached help channel_stop_typing_handlers h = cc
handlers_for-cached help webhook_update_handlers h = cc
handlers_for-cached help voice_state_update_handlers h = cc
handlers_for-cached help error_handlers h = cc
handlers_for-cached help logout_handlers h = cc

handlers_for-append :
    (log more : List Registration) (k : Kind)
    → handlers_for (log ++ more) k ≡ handlers_for log k ++ handlers_for more k
unfolding handlers_for
handlers_for-append [] more k = refl
handlers_for-append ((kind, handler) ∷ log) more k =
    ap (λ hs. if same_kind kind k then handler ∷ hs else hs) (handlers_for-append log more k)
    ∙ elim (Bool-cases (same_kind kind k)) [ inl e ↦ rw e refl | inr e ↦ rw e refl ]

module _ (J : JsonLib) (W : Type 0) (run : Runs J W)
    (should_ignore_user : Option (Text → Bool)) where
  -- For an event that the cache listens to and that the filter does not stop, the handlers that a bot has
  -- registered after the construction are called, in order, on the world that the cache's listener leaves:
  -- what they read is a cache to which the event has been applied. The cache's listener does not throw.
  pub dispatch-cached :
      (cache_of : W → Cache J)
      → ((w : W) (e : Event J) → cache_of (run cache_listener w e).0 ≡ apply J (cache_of w) e)
      → ((w : W) (e : Event J) → (run cache_listener w e).2 ≡ false)
      → (help : Bool) (user : List Registration) (w : W) (e : Event J)
      → is_cached (kind_of J e) ≡ true
      → is_ignored J W run should_ignore_user e ≡ false
      → (w' : W) × (cache_of w' ≡ apply J (cache_of w) e)
        × ((dispatch J W run should_ignore_user (after_log (constructor_log help ++ user)) w e).0
            ≡ (call_all J W run should_ignore_user (handlers_for user (kind_of J e)) w' e).0)
  unfolding dispatch call_all
  dispatch-cached cache_of listens quiet help user w e cached passed = (
    (run cache_listener w e).0,
    listens w e,
    rw (dispatch, passed)
        (ap (λ hs. (call_all J W run should_ignore_user hs w e).0)
            (handlers_of-after_log (constructor_log help ++ user) (kind_of J e)
              ∙ handlers_for-append (constructor_log help) user (kind_of J e)
              ∙ ap (λ hs. hs ++ handlers_for user (kind_of J e))
                  (handlers_for-cached help (kind_of J e) cached))
          ∙ ap
              (λ (b : Bool).
                let rest =
                  call_all J W run should_ignore_user (handlers_for user (kind_of J e))
                    (run cache_listener w e).0 e in
                let called : W × List Registration × Bool =
                  if b
                  then ((run cache_listener w e).0, (run cache_listener w e).1, true)
                  else (rest.0, (run cache_listener w e).1 ++ rest.1, rest.2) in
                called.0)
              (quiet w e)),
  )
