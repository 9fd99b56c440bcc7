-- ===== src/Lib.antt =====
-- stoat++: a C++ library for bots on the Stoat chat service.
--
-- A bot holds one `cluster` (include/stoatpp/cluster.h). A gateway thread receives events; the event
-- dispatcher calls the handlers that are registered for each; the cluster's own handlers keep a cache of
-- servers, channels, users and members, and turn messages into commands. Commands reach the service through
-- a REST client.
--
-- Prelude, Text, Dict, Bits: shared names, byte strings, finite maps, bits of a mask. Json: the JSON library
-- that the program is written against is a parameter, a record of operations.
-- Models: include/stoatpp/models. Each structure is a record, each `from_json` and `to_json` a function
-- `role_from_json`, `role_to_json` and so on.
-- Events: include/stoatpp/event_handler.h and `Message::from_json` of src/event_handler.cpp.
-- Permissions: `has_permission` of src/cluster/misc.cpp; `get_highest_rank` and `check_hierarchy` of
-- include/stoatpp/models/server.h.
-- Cache: src/cluster/cache.cpp. `apply` is what the listeners do with an event, under the cache's lock; the
-- thread that removes a deleted server after 500 ms is the separate step `remove_server`.
-- Commands: src/cluster/commands.cpp. `dispatch_command` takes the state, the time and a message to the new
-- state and the effects; the answer to `fetch_member` is the separate step `on_member_fetched`. What a bot
-- installs (prefix resolver, preprocessor, run handler, disabled check) is a parameter. Time is in
-- milliseconds. `double`, which scores suggestions, is a parameter.
-- Rest: src/rest.cpp and src/utils/ratelimiter.cpp. `perform_request` takes the list of what the HTTP library
-- answers, attempt by attempt, to the outcome, the effects (requests, sleeps, reports) and the new limits; a
-- list that ends before the request does leaves it `waiting`. `upload_file` likewise; `url_encode` is
-- there too.
-- Watchers: `await_message` of src/cluster/messaging.cpp and the message listener of src/cluster/commands.cpp,
-- as steps that come in any order. Timers: the timers of src/cluster/misc.cpp, the locked section of a round of the loop
-- and each call of a callback as steps of their own.
-- Voice: src/voice_connection.cpp. Protobuf has the writer and the reader, which stands in the memory
-- up to the end of the received message; Requests the requests; Fields the loop that every reader of a message
-- has; Steps and Signals the messages of the server; IceServers the addresses in them; Connection the session's steps in
-- any order. What is handed to the libraries are effects; a read outside the memory, a null pointer and
-- `std::terminate` are results of their own.
-- Help: the help menu of src/cluster/commands.cpp and include/stoatpp/utils/paginator.h; what they ask of the
-- bot are effects. Rest/Fetch: `upload_from_url`.
-- Users: owners, `fetch_user` and `fetch_member` of src/cluster/misc.cpp; the answers of the REST client are
-- parameters.
-- Gateway: src/gateway.cpp. `Session` is the state of the connection; `handle_event` takes an event to the state
-- and the effects that it leaves (frames, calls of the dispatcher), and to how it ends. `act` is one step of the
-- bot, the socket, the worker, a detached thread, the heartbeat or the watchdog, in any order.
-- Dispatcher: src/event_handler.cpp, src/cluster/events.cpp and the constructor of src/cluster.cpp. Handlers have
-- numbers; what they do to the bot's state, what they register and whether they throw is a parameter.
-- Rest/Endpoints: each endpoint of src/rest.cpp is the request that it makes; Rest/MoveChannel is the one that
-- makes two. Models/Payload: what a bot sends.
-- Moderation: src/cluster/moderation.cpp and the message operations of src/cluster/messaging.cpp, as the effects
-- of their threads; what the request, the handler and the callback throw is a parameter.
-- Life: `start` and `stop` of src/cluster.cpp. Voice/Playback: src/pulse_voice.cpp.
-- Tests: sample data, runs, and a use of each result.
--
-- Loops are structural recursion. Fuel: `to_string` has the number itself, which has no more digits;
-- `write_varint` has nine rounds before the last byte, and a 64-bit value has at most ten groups of seven
-- bits.
-- `handle_event` has as many levels as events are nested in a `Bulk`; more than the depth of the event is
-- enough. The loops over the fields of a message have fuel, since a received length can move
-- a reader back; one more than the fields of a message and of each that is nested is enough where it is well
-- formed. Integers of the code that are masks are 64-bit patterns; counters are unbounded natural numbers.
--
-- Not modelled: the socket and HTTP libraries, threads and locks (a locked section, and each body that the
-- gateway runs, is one step, but for `on_disconnected`, which is two; a voice `disconnect` is three, and a
-- handler of the paginator one), logging, PulseAudio, and the
-- peer connections, the encoder and the pace of the
-- sending thread of src/voice_connection.cpp.
pub mod Prelude
pub mod Json
pub mod Models
pub mod Permissions
pub mod Events
pub mod Cache
pub mod Commands
pub mod Bits
pub mod Text
pub mod Dict
pub mod Tests
pub mod Rest
pub mod Watchers
pub mod Timers
pub mod Users
pub mod Voice
pub mod Gateway
pub mod Dispatcher
pub mod Moderation
pub mod Help
pub mod Life
