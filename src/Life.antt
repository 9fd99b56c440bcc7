-- ===== src/Life.antt =====
-- `cluster::start` and `cluster::stop` of src/cluster.cpp. The environment, the answer of the service and what the
-- gateway does are given or effects; each body is one step.
pub mod Runs
use stoatpp.Prelude.{Bool, true, false, Option, none, some, List, [], ◌∷◌, ◌++◌, if◌then◌else◌}
use stoatpp.Text.{Text, lit}
use stoatpp.Json.{JsonLib, string_field}
use stoatpp.Rest.Exchange.{Response, success}

-- `has_timer_thread`: the timer thread is not joined.
pub record Life : Type 0 where
  pub autumn_url : Text
  pub timers_running : Bool
  pub has_timer_thread : Bool
  pub running : Bool

-- `rest_.update_config`, with the address in it; the timer thread; the gateway.
pub data LifeEffect : Type 0 where
  config_updated : Text → LifeEffect
  timer_thread_started : LifeEffect
  timer_thread_joined : LifeEffect
  timer_thread_detached : LifeEffect
  gateway_connected : LifeEffect
  gateway_disconnected : LifeEffect

-- A cluster that is not started.
abbrev pub new_life : Text → Life
new_life autumn_url = record {
  autumn_url = autumn_url;
  timers_running = false;
  has_timer_thread = false;
  running = false;
}

abbrev set_autumn : Option Text → Life → Life × List LifeEffect
set_autumn none life = (life, [])
set_autumn (some url) life = (record life { autumn_url = url }, config_updated url ∷ [])

-- The timer thread is started; one that is not joined must not be replaced: `none` is `std::terminate`.
abbrev start_threads : Life × List LifeEffect → Option (Life × List LifeEffect)
start_threads (life, effects) =
    if life.has_timer_thread
    then none
    else some (
      record life { timers_running = true; has_timer_thread = true; running = true },
      effects ++ timer_thread_started ∷ gateway_connected ∷ [],
    )

-- `cluster::stop`, with whether it runs on the timer thread.
unfoldable pub stop : Bool → Life → Life × List LifeEffect
stop on_timer_thread life = (
  record life { running = false; timers_running = false; has_timer_thread = false },
  (if life.has_timer_thread
        then (if on_timer_thread then timer_thread_detached else timer_thread_joined) ∷ []
        else [])
      ++ gateway_disconnected ∷ [],
)

module _ (J : JsonLib) where
  abbrev url_in : J.Json → Option Text
  url_in features =
      if J.contains features (lit "autumn")
      then string_field J (J.field features (lit "autumn")) (lit "url")
      else none

  -- The address of the file server in the node's description; `none` in place of an answer is an exception.
  unfoldable pub discovered_url : Option (Response J) → Option Text
  unfolding success
  discovered_url none = none
  discovered_url (some node) =
      if success node.status_code
      then (if J.contains node.body (lit "features")
          then url_in (J.field node.body (lit "features"))
          else none)
      else none

  -- `cluster::start`, with the answer to `get_node_info` and the variable `AUTUMN_URL`.
  unfoldable pub start : Option (Response J) → Option Text → Life → Option (Life × List LifeEffect)
  unfolding discovered_url
  start node autumn_env life =
      let (found, effects) = set_autumn (discovered_url node) life in
      let (given, more) = set_autumn autumn_env found in start_threads (given, effects ++ more)
