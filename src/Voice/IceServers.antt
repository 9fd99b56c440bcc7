-- ===== src/Voice/IceServers.antt =====
-- `add_ice_server` of src/voice_connection.cpp: the parts of a STUN or TURN address.
pub mod Parts
use stoatpp.Prelude.{
  ℕ, zero, suc, ◌%◌, ◌^◌, ◌-◌, Bool, true, false, Option, none, some, List, [], ◌∷◌, ◌++◌,
  if◌then◌else◌, ◌&&◌, ◌||◌, ◌==◌, not, is_nil, drop,
}
use stoatpp.Prelude.Int.{ℤ, pos, negsuc}
use stoatpp.Text.{Text, lit, text_eq, starts_with}
use stoatpp.Text.Split.{split_first, split_last}
use stoatpp.Rest.Numerals.{stoi}

-- `rtc::IceServer`: a STUN server, or a relay with its credentials, over TLS or over UDP.
pub data RtcServer : Type 0 where
  stun : Text → ℕ → RtcServer
  turn : Text → ℕ → Text → Text → Bool → RtcServer

-- `url.size() > host_start + 1`, two slashes
abbrev without_slashes : Text → Text
without_slashes s = if starts_with s (lit "//") then drop 2 s else s

-- `static_cast<uint16_t>`
abbrev low_16 : ℤ → ℕ
low_16 (pos n) = n % 2 ^ 16
low_16 (negsuc n) = 2 ^ 16 - 1 - n % 2 ^ 16

-- The port behind the last colon; one that is not a number leaves the default.
abbrev port_of : ℕ → Text → ℕ
port_of default s = elim (stoi s) [ some n ↦ low_16 n | none ↦ default ]

abbrev default_port : Text → ℕ
default_port scheme = if text_eq scheme (lit "turns") then 5349 else 3478

abbrev host_and_port : ℕ → Text → Text × ℕ
host_and_port default s = elim (split_last b':' s) [
  | some (host, digits) ↦ (host, port_of default digits)
  | none ↦ (s, default)
]

abbrev before_query : Text → Text
before_query s = elim (split_first b'?' s) [ some (t, query) ↦ t | none ↦ s ]

abbrev pub server_of : Text → Text → Text → Text × ℕ → Option RtcServer
server_of scheme username credential (host, port) =
    if text_eq scheme (lit "stun")
    then some (stun host port)
    else if (text_eq scheme (lit "turn") || text_eq scheme (lit "turns")) && not (is_nil username)
    then some (turn host port username credential (text_eq scheme (lit "turns")))
    else none

-- The server that is added, if any.
unfoldable pub add_ice_server : Text → Text → Text → Option RtcServer
unfolding split_first split_last stoi starts_with
add_ice_server url username credential = elim (split_first b':' url) [
  | none ↦ none
  | some (scheme, rest) ↦
      server_of scheme username credential
        (host_and_port (default_port scheme) (before_query (without_slashes rest)))
]
