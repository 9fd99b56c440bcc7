-- ===== src/Voice/IceServers/Parts.antt =====
-- The parts of the addresses of ICE servers that src/voice_connection.cpp reads.
use mathlib.Core.List.{append_assoc}
use stoatpp.Prelude.{
  ℕ, ◌^◌, ◌<◌, ◌≡◌, ◌≢◌, refl, sym, ap, ◌∙◌, false, [], ◌∷◌, ◌++◌, arith, Every, Every-append,
  Every-weaken, ◌==◌, is_nil, if◌then◌else◌, true, none, some, subst,
}
use stoatpp.Prelude.Int.{pos}
use stoatpp.Text.{Text, lit, text_eq, text_eq_iff, starts_with}
use stoatpp.Text.Split.{split_first_at, split_last_at}
use stoatpp.Rest.Numerals.{to_string, decimal_digits}
use stoatpp.Rest.Numerals.RoundTrip.{IsDigit, decimal_digits-IsDigit, stoi-to_string}
use stoatpp.Voice.IceServers.{
  before_query, without_slashes, host_and_port, port_of, default_port, server_of, add_ice_server,
  stun, turn,
}

-- The characters of a host name here: no colon, no question mark and no slash.
abbrev pub InHost : ℕ → Type 0
InHost c = (c ≢ b':') × (c ≢ b'?') × (c ≢ b'/')

abbrev pub address : Text → Text → ℕ → Text → Text
address scheme host port query =
    scheme ++ b':' ∷ ((host ++ b':' ∷ to_string (pos port)) ++ b'?' ∷ query)

no_slashes :
    (host rest : Text)
    → Every InHost host
    → without_slashes (host ++ b':' ∷ rest) ≡ host ++ b':' ∷ rest
unfolding starts_with
no_slashes [] rest all = refl
no_slashes (c ∷ host) rest all =
    let other : (c == b'/') ≡ false = ground (arith, all.0.2) in rw (starts_with, other) refl

to_string-Every :
    (P : ℕ → Type 0) → ((c : ℕ) → IsDigit c → P c) → (n : ℕ) → Every P (to_string (pos n))
unfolding to_string
to_string-Every P weaker n =
    Every-weaken IsDigit P weaker (decimal_digits n n) (decimal_digits-IsDigit n n)

host_and_port_written :
    (default port : ℕ) (host : Text)
    → port < 2 ^ 16
    → host_and_port default (host ++ b':' ∷ to_string (pos port)) ≡ (host, port)
host_and_port_written default port host small =
    let digits = to_string-Every (λ c. c ≢ b':') (λ c h e. omega (arith, h.1, e)) port in
    rw
      (
        host_and_port,
        port_of,
        split_last_at b':' host (to_string (pos port)) digits,
        stoi-to_string port (omega (arith, small)),
      )
      (ap (λ (n : ℕ). (host, n)) (omega (arith, small)))

before_query_written :
    (host query : Text) (port : ℕ)
    → Every InHost host
    → before_query ((host ++ b':' ∷ to_string (pos port)) ++ b'?' ∷ query)
      ≡ host ++ b':' ∷ to_string (pos port)
before_query_written host query port in_host =
    let front = Every-weaken InHost (λ c. c ≢ b'?') (λ c h. h.1) host in_host in
    let digits = to_string-Every (λ c. c ≢ b'?') (λ c h e. omega (arith, h.1, e)) port in
    let no_query =
      Every-append (λ c. c ≢ b'?') host (b':' ∷ to_string (pos port)) front
        ((λ e. omega (arith, e)), digits) in
    rw (before_query, split_first_at b'?' (host ++ b':' ∷ to_string (pos port)) query no_query) refl

turn_apart :
    (scheme : Text) → text_eq scheme (lit "turn") ≡ true → text_eq scheme (lit "turns") ≡ false
unfolding text_eq
turn_apart scheme e =
    subst (λ t. text_eq t (lit "turns") ≡ false) (sym ((text_eq_iff scheme (lit "turn")).0 e)) refl

server_of_schemes :
    (scheme host username credential : Text) (port : ℕ)
    → server_of scheme username credential (host, port) ≡ (
        if text_eq scheme (lit "stun")
        then some (stun host port)
        else if text_eq scheme (lit "turn")
        then (if is_nil username then none else some (turn host port username credential false))
        else if text_eq scheme (lit "turns")
        then (if is_nil username then none else some (turn host port username credential true))
        else none)
server_of_schemes scheme host username credential port = ground (arith, turn_apart scheme)

-- From the address of a server, that is its scheme, its host, its port in decimal and a query, the host and the port
-- are read back, whatever the query holds: `stun` adds a STUN server with them, `turn` a relay over UDP and `turns`
-- one over TLS with them and the credentials, if the user's name is not empty; another scheme adds none. The scheme
-- has no colon, the host neither a colon nor a question mark nor a slash, and the port is below 2^16.
pub add_ice_server-address :
    (scheme host query username credential : Text) (port : ℕ)
    → Every (λ c. c ≢ b':') scheme
    → Every InHost host
    → port < 2 ^ 16
    → add_ice_server (address scheme host port query) username credential ≡ (
        if text_eq scheme (lit "stun")
        then some (stun host port)
        else if text_eq scheme (lit "turn")
        then (if is_nil username then none else some (turn host port username credential false))
        else if text_eq scheme (lit "turns")
        then (if is_nil username then none else some (turn host port username credential true))
        else none)
unfolding add_ice_server
add_ice_server-address scheme host query username credential port no_colon in_host small =
    let front = host ++ b':' ∷ to_string (pos port) in
    let rest = front ++ b'?' ∷ query in
    let apart = append_assoc host (b':' ∷ to_string (pos port)) (b'?' ∷ query) in
    let slashes : without_slashes rest ≡ rest =
      ap without_slashes apart
      ∙ no_slashes host (to_string (pos port) ++ b'?' ∷ query) in_host
      ∙ sym apart in
    let default = default_port scheme in
    rw (add_ice_server, split_first_at b':' scheme rest no_colon)
      (ap (server_of scheme username credential) (
          ap (λ t. host_and_port default (before_query t)) slashes
          ∙ ap (host_and_port default) (before_query_written host query port in_host)
          ∙ host_and_port_written default port host small)
        ∙ server_of_schemes scheme host username credential port)
