-- ===== src/Network/Throttle.antt =====
-- The connections of a network::Server (libserver/network/Server): which ones AcceptLoop lets in.
-- Addresses are numbers, and times are seconds of the steady clock; a client is the address that it
-- comes from, its own part of the state is the read loop's. The client counter is a size_t, whose
-- wrap is left out.
pub mod Counts
pub mod Limits
use alicia_server.Common.{
  ℕ, suc, ◌+◌, ◌-◌, Bool, true, false, ◌&&◌, Option, none, some, List, [], ◌∷◌, ◌++◌, ltb, leb,
  ◌==◌, if◌then◌else◌, length,
}
use alicia_server.Common.Dict
use alicia_server.Common.Dict.{Dict}

abbrev pub max_connections_per_address : ℕ
max_connections_per_address = 3

abbrev pub max_connect_rate_per_address : ℕ
max_connect_rate_per_address = 10

abbrev pub rate_window : ℕ
rate_window = 30

-- Server::AddressState
pub record AddressState : Type 0 where
  pub active_connections : ℕ
  pub connection_timestamps : List ℕ

abbrev pub new_state : AddressState
new_state = record { active_connections = 0; connection_timestamps = [] }

-- operator[]
abbrev pub or_new : Option AddressState → AddressState
or_new none = new_state
or_new (some s) = s

-- "Pop the connection timestamps which are over the rate window and have expired."
unfoldable pub pop_expired : ℕ → List ℕ → List ℕ
pop_expired now [] = []
pop_expired now (t ∷ ts) =
    let rest = pop_expired now ts in if ltb (now - t) rate_window then t ∷ ts else rest

-- The state of one address in IsConnectionThrottled, and whether the connection is throttled.
unfoldable pub throttle : ℕ → AddressState → AddressState × Bool
unfolding pop_expired
throttle now state =
    let recent = pop_expired now state.connection_timestamps in
    if leb max_connections_per_address state.active_connections
    then (state, true)
    else if leb max_connect_rate_per_address (length recent)
    then (record state { connection_timestamps = recent }, true)
    else (
      record {
        active_connections = suc state.active_connections;
        connection_timestamps = recent ++ now ∷ [];
      },
      false,
    )

unfoldable pub is_connection_throttled : ℕ → ℕ → Dict AddressState → Dict AddressState × Bool
is_connection_throttled now address states =
    let (state, throttled) = throttle now (or_new (Dict.find address states)) in
    (Dict.assign address state states, throttled)

abbrev pub is_empty : List ℕ → Bool
is_empty [] = true
is_empty (_ ∷ _) = false

-- `--` above 0 is the subtraction of ℕ.
unfoldable pub on_throttle_disconnect : ℕ → Dict AddressState → Dict AddressState
on_throttle_disconnect address states = elim (Dict.find address states) [
  | none ↦ states
  | some state ↦
      let active = state.active_connections - 1 in
      if active == 0 && is_empty state.connection_timestamps
      then Dict.erase address states
      else Dict.assign address (record state { active_connections = active }) states
]

-- `accepting` tells whether an asynchronous accept is pending.
pub record Server : Type 0 where
  pub client_id : ℕ
  pub clients : Dict ℕ
  pub address_states : Dict AddressState
  pub accepting : Bool

abbrev pub new_server : Server
new_server = record { client_id = 0; clients = []; address_states = []; accepting = true }

-- What the acceptor delivers: a connection from an address, or an error, a connection whose remote
-- endpoint is gone included.
pub data Accepted : Type 0 where
  connection : (address : ℕ) → Accepted
  accept_error : Accepted

-- The completion handler of AcceptLoop. An error is logged, and no accept follows it.
unfoldable pub on_accept : ℕ → Accepted → Server → Server
unfolding is_connection_throttled
on_accept now (connection address) s =
    let (states, throttled) = is_connection_throttled now address s.address_states in
    if throttled then record s { address_states = states } else record {
      client_id = suc s.client_id;
      clients = Dict.try_emplace s.client_id address s.clients;
      address_states = states;
      accepting = s.accepting;
    }
on_accept now accept_error s = record s { accepting = false }

unfoldable pub accept : ℕ → Accepted → Server → Server
accept now a s = if s.accepting then on_accept now a s else s

-- Server::OnClientDisconnected, which asserts that the client is there.
unfoldable pub on_client_disconnected : ℕ → Server → Server
on_client_disconnected client s = elim (Dict.find client s.clients) [
  | none ↦ s
  | some address ↦ record s {
    address_states = on_throttle_disconnect address s.address_states;
    clients = Dict.erase client s.clients;
  }
]
