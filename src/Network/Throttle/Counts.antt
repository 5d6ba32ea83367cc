-- ===== src/Network/Throttle/Counts.antt =====
-- Counting the connections of an address and the times at which it was let in.
use alicia_server.Common.{
  ℕ, suc, ◌+◌, ◌-◌, ◌≤◌, ◌≡◌, ◌&&◌, refl, false, none, some, List, [], ◌∷◌, ◌++◌, ◌==◌, ltb,
  if◌then◌else◌, arith, length, length-append,
}
use alicia_server.Common.Dict
use alicia_server.Common.Dict.{Dict}
use alicia_server.Network.Throttle.{
  AddressState, or_new, pop_expired, throttle, is_connection_throttled, is_empty,
  on_throttle_disconnect, max_connections_per_address, max_connect_rate_per_address, rate_window,
}

-- How many of the times lie within the window that ends now.
abbrev pub count_recent : ℕ → List ℕ → ℕ
count_recent now [] = 0
count_recent now (t ∷ ts) =
    let rest = count_recent now ts in if ltb (now - t) rate_window then suc rest else rest

pub count_recent-append :
    (now : ℕ) (ts us : List ℕ)
    → count_recent now (ts ++ us) ≡ count_recent now ts + count_recent now us
count_recent-append now [] us = omega arith
count_recent-append now (t ∷ ts) us = ground (arith, count_recent-append now ts us)

pub count_recent-le : (now : ℕ) (ts : List ℕ) → count_recent now ts ≤ length ts
count_recent-le now [] = omega arith
count_recent-le now (t ∷ ts) = ground (arith, count_recent-le now ts)

-- What is popped is not recent, now or later.
pub count_recent-pop_expired :
    (now later : ℕ) (ts : List ℕ)
    → count_recent (now + later) (pop_expired now ts) ≡ count_recent (now + later) ts
unfolding pop_expired
count_recent-pop_expired now later [] = refl
count_recent-pop_expired now later (t ∷ ts) = ground (arith, count_recent-pop_expired now later ts)

pub length-pop_expired : (now : ℕ) (ts : List ℕ) → length (pop_expired now ts) ≤ length ts
unfolding pop_expired
length-pop_expired now [] = omega arith
length-pop_expired now (t ∷ ts) = ground (arith, length-pop_expired now ts)

-- The clients that are connected from an address.
abbrev pub connections : ℕ → Dict ℕ → ℕ
connections address [] = 0
connections address ((client, a) ∷ clients) =
    let rest = connections address clients in if a == address then suc rest else rest

pub connections-assign :
    (address client a : ℕ) (clients : Dict ℕ)
    → Dict.contains client clients ≡ false
    → connections address (Dict.assign client a clients)
      ≡ (if a == address then suc (connections address clients) else connections address clients)
unfolding Dict.assign Dict.find
connections-assign address client a [] h = refl
connections-assign address client a ((c, b) ∷ clients) h =
    ground (arith, connections-assign address client a clients)

pub connections-try_emplace :
    (address client a : ℕ) (clients : Dict ℕ)
    → Dict.contains client clients ≡ false
    → connections address (Dict.try_emplace client a clients)
      ≡ (if a == address then suc (connections address clients) else connections address clients)
unfolding Dict.try_emplace
connections-try_emplace address client a clients h =
    ground (arith, connections-assign address client a clients h)

pub connections-erase :
    (address client a : ℕ) (clients : Dict ℕ)
    → Dict.IsUnique clients
    → Dict.find client clients ≡ some a
    → connections address clients ≡ (
        if a == address
        then suc (connections address (Dict.erase client clients))
        else connections address (Dict.erase client clients))
unfolding Dict.erase Dict.find
connections-erase address client a [] u h = absurd (let p = h in cc)
connections-erase address client a ((c, b) ∷ clients) u h =
    ground
      (arith, connections-erase address client a clients u.1, Dict.erase_missing client clients)

-- An address without a state counts as one with an empty state, so that erasing an empty one does
-- not show.
pub state-on_throttle_disconnect :
    (address a : ℕ) (states : Dict AddressState)
    → let before = or_new (Dict.find a states) in
      let after = or_new (Dict.find a (on_throttle_disconnect address states)) in
      (after.active_connections
        ≡ (if address == a then before.active_connections - 1 else before.active_connections))
      × (after.connection_timestamps ≡ before.connection_timestamps)
unfolding on_throttle_disconnect
state-on_throttle_disconnect address a states =
    elim (Dict.find address states)
        as (λ o.
          Dict.find address states ≡ o
          → let after = or_new (
              Dict.find a (elim o [
                | none ↦ states
                | some state ↦
                    let active = state.active_connections - 1 in
                    if active == 0 && is_empty state.connection_timestamps
                    then Dict.erase address states
                    else Dict.assign address (record state { active_connections = active }) states
              ])) in
            let before = or_new (Dict.find a states) in
            (after.active_connections
              ≡ (if address == a then before.active_connections - 1 else before.active_connections))
            × (after.connection_timestamps ≡ before.connection_timestamps)) [
              | none ↦ λ e. ground arith
              | some s ↦ λ e. ground (
                arith,
                Dict.find-erase address a states,
                Dict.find-assign address a
                    (record s { active_connections = s.active_connections - 1 }) states,
              )
            ]
      refl

pub state-is_connection_throttled :
    (now address a : ℕ) (states : Dict AddressState)
    → or_new (Dict.find a (is_connection_throttled now address states).0) ≡ (
        if address == a
        then (throttle now (or_new (Dict.find a states))).0
        else or_new (Dict.find a states))
unfolding is_connection_throttled
state-is_connection_throttled now address a states =
    ground (
      arith,
      Dict.find-assign address a (throttle now (or_new (Dict.find address states))).0 states,
    )

-- One address is told how its connection fares.
pub throttle_lem :
    (now : ℕ) (s : AddressState)
    → s.active_connections ≤ max_connections_per_address
    → length s.connection_timestamps ≤ max_connect_rate_per_address
    → let (s', throttled) = throttle now s in
      (s'.active_connections
        ≡ (if throttled then s.active_connections else suc s.active_connections))
      × (s'.active_connections ≤ max_connections_per_address)
      × (length s'.connection_timestamps ≤ max_connect_rate_per_address)
      × ((later : ℕ)
          → count_recent (now + later) s'.connection_timestamps ≡ (
              if throttled
              then count_recent (now + later) s.connection_timestamps
              else count_recent (now + later) (now ∷ s.connection_timestamps)))
unfolding throttle
throttle_lem now s a b = (
  ground arith,
  ground arith,
  ground (
    arith,
    length-pop_expired now s.connection_timestamps,
    length-append (pop_expired now s.connection_timestamps) (now ∷ []),
  ),
  λ later. ground (
    arith,
    count_recent-pop_expired now later s.connection_timestamps,
    count_recent-append (now + later) (pop_expired now s.connection_timestamps) (now ∷ []),
  ),
)
