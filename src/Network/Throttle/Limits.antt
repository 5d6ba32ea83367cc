-- ===== src/Network/Throttle/Limits.antt =====
-- No address has more connections than allowed, and none connects more often than allowed.
use alicia_server.Common.{
  ℕ, suc, ◌+◌, ◌≤◌, ◌<◌, ◌≡◌, refl, ap, sym, subst, ◌∙◌, Bool, true, false, List, [], ◌∷◌, ◌==◌,
  if◌then◌else◌, arith, length, Bool-cases, Option-cases, inl, inr,
}
use alicia_server.Common.Dict
use alicia_server.Common.Dict.{Dict}
use alicia_server.Network.Throttle.{
  AddressState, or_new, throttle, is_connection_throttled, Server, new_server, Accepted, connection,
  accept_error, on_accept, accept, on_client_disconnected, max_connections_per_address,
  max_connect_rate_per_address,
}
use alicia_server.Network.Throttle.Counts.{
  count_recent, connections, count_recent-le, connections-try_emplace, connections-erase,
  state-on_throttle_disconnect, state-is_connection_throttled, throttle_lem,
}

-- A server with the clock and with the connections that it has let in, the latest first.
pub record World : Type 0 where
  pub now : ℕ
  pub server : Server
  pub log : List (ℕ × ℕ)

-- The times at which an address was let in.
abbrev pub times : ℕ → List (ℕ × ℕ) → List ℕ
times address [] = []
times address ((a, t) ∷ log) =
    let rest = times address log in if a == address then t ∷ rest else rest

abbrev pub new_world : World
new_world = record { now = 0; server = new_server; log = [] }

-- Some time passes and the acceptor delivers something, or a client disconnects.
pub data Operation : Type 0 where
  arrives : (elapsed : ℕ) → Accepted → Operation
  leaves : (client : ℕ) → Operation

abbrev pub logged : ℕ → Accepted → Server → Server → List (ℕ × ℕ) → List (ℕ × ℕ)
logged now (connection address) s s' log =
    if s.client_id == s'.client_id then log else (address, now) ∷ log
logged now accept_error s s' log = log

unfoldable pub step : Operation → World → World
step (arrives elapsed a) w =
    let now = w.now + elapsed in
    let s = accept now a w.server in
    record { now = now; server = s; log = logged now a w.server s w.log }
step (leaves client) w = record w { server = on_client_disconnected client w.server }

unfoldable pub run : List Operation → World → World
run [] w = w
run (o ∷ os) w = run os (step o w)

abbrev state_of : ℕ → World → AddressState
state_of address w = or_new (Dict.find address w.server.address_states)

record IsLimited (w : World) : Type 0 where
  unique : Dict.IsUnique w.server.clients
  issued : (c : ℕ) → Dict.contains c w.server.clients ≡ true → c < w.server.client_id
  counted : (a : ℕ) → (state_of a w).active_connections ≡ connections a w.server.clients
  active : (a : ℕ) → (state_of a w).active_connections ≤ max_connections_per_address
  remembered :
      (a later : ℕ)
      → count_recent (w.now + later) (state_of a w).connection_timestamps
        ≡ count_recent (w.now + later) (times a w.log)
  short : (a : ℕ) → length (state_of a w).connection_timestamps ≤ max_connect_rate_per_address

new_world-IsLimited : IsLimited new_world
unfolding Dict.find
new_world-IsLimited = record {
  unique = tt;
  issued = λ c h. absurd (let p = h in cc);
  counted = λ a. refl;
  active = λ a. omega arith;
  remembered = λ a later. refl;
  short = λ a. omega arith;
}

leaves-state :
    (client a : ℕ) (w : World)
    → IsLimited w
    → let after = state_of a (step (leaves client) w) in
      (after.active_connections ≡ connections a (step (leaves client) w).server.clients)
      × (after.active_connections ≤ (state_of a w).active_connections)
      × (after.connection_timestamps ≡ (state_of a w).connection_timestamps)
unfolding step on_client_disconnected
leaves-state client a w l = elim (Option-cases (Dict.find client w.server.clients)) [
  | inl missing ↦ ground (arith, l.counted a)
  | inr (address, there) ↦ ground (
    arith,
    l.counted a,
    state-on_throttle_disconnect address a w.server.address_states,
    connections-erase a client address w.server.clients l.unique there,
  )
]

leaves-IsLimited : (client : ℕ) (w : World) → IsLimited w → IsLimited (step (leaves client) w)
unfolding step on_client_disconnected
leaves-IsLimited client w l = record {
  unique = ground (arith, Dict.erase-IsUnique client w.server.clients l.unique);
  issued = λ c h. ground (arith, l.issued c, Dict.find-erase client c w.server.clients);
  counted = λ a. (leaves-state client a w l).0;
  active = λ a. omega (arith, (leaves-state client a w l).1, l.active a);
  remembered = λ a later.
      ap (count_recent (w.now + later)) (leaves-state client a w l).2 ∙ l.remembered a later;
  short = λ a. omega (arith, ap (λ ts. length ts) (leaves-state client a w l).2, l.short a);
}

add_assoc : (a b c : ℕ) → a + b + c ≡ a + (b + c)
add_assoc a b c = omega arith

-- Nothing is let in: the clock alone goes on.
waits-IsLimited :
    (elapsed : ℕ) (w : World) (accepting : Bool)
    → IsLimited w
    → IsLimited
        (record w { now = w.now + elapsed; server = record w.server { accepting = accepting } })
waits-IsLimited elapsed w accepting l = record {
  unique = l.unique;
  issued = l.issued;
  counted = l.counted;
  active = l.active;
  remembered = λ a later. rw (add_assoc w.now elapsed later) (l.remembered a (elapsed + later));
  short = l.short;
}

connects-IsLimited :
    (elapsed address : ℕ) (w : World)
    → w.server.accepting ≡ true
    → IsLimited w
    → IsLimited (step (arrives elapsed (connection address)) w)
unfolding step accept on_accept
connects-IsLimited elapsed address w on l = record {
  unique = ground (
    arith,
    fresh,
    Dict.try_emplace-IsUnique w.server.client_id address w.server.clients l.unique,
  );
  issued = λ c h. ground (
    arith,
    fresh,
    l.issued c,
    Dict.find-try_emplace w.server.client_id c address w.server.clients,
  );
  counted = λ a. ground (
    arith,
    fresh,
    l.counted a,
    at a,
    told a,
    same,
    connections-try_emplace a w.server.client_id address w.server.clients fresh,
  );
  active = λ a. ground (arith, l.active a, at a, told a);
  remembered = λ a later. ground (arith, at a, same, (told a).3 later, earlier a later);
  short = λ a. ground (arith, l.short a, at a, told a);
}
  where
    now : ℕ
    now = w.now + elapsed

    fresh : Dict.contains w.server.client_id w.server.clients ≡ false
    fresh = ground (arith, l.issued w.server.client_id)

    earlier :
        (a later : ℕ)
        → count_recent (now + later) (state_of a w).connection_timestamps
          ≡ count_recent (now + later) (times a w.log)
    earlier a later = rw (add_assoc w.now elapsed later) (l.remembered a (elapsed + later))

    same :
        (is_connection_throttled now address w.server.address_states).1
        ≡ (throttle now (state_of address w)).1
    same = refl

    at :
        (a : ℕ)
        → or_new (Dict.find a (is_connection_throttled now address w.server.address_states).0)
          ≡ (if address == a then (throttle now (state_of a w)).0 else state_of a w)
    at a = state-is_connection_throttled now address a w.server.address_states

    told :
        (a : ℕ)
        → let (s', throttled) = throttle now (state_of a w) in
          (s'.active_connections ≡ (
            if throttled
            then (state_of a w).active_connections
            else suc (state_of a w).active_connections))
          × (s'.active_connections ≤ max_connections_per_address)
          × (length s'.connection_timestamps ≤ max_connect_rate_per_address)
          × ((later : ℕ)
              → count_recent (now + later) s'.connection_timestamps ≡ (
                  if throttled
                  then count_recent (now + later) (state_of a w).connection_timestamps
                  else count_recent (now + later) (now ∷ (state_of a w).connection_timestamps)))
    told a = throttle_lem now (state_of a w) (l.active a) (l.short a)

logged_same :
    (now : ℕ) (a : Accepted) (s : Server) (log : List (ℕ × ℕ)) → logged now a s s log ≡ log
logged_same now (connection address) s log = ground arith
logged_same now accept_error s log = refl

accept_off : (now : ℕ) (a : Accepted) (s : Server) → s.accepting ≡ false → accept now a s ≡ s
unfolding accept
accept_off now a s off = rw off refl

step-IsLimited : (o : Operation) (w : World) → IsLimited w → IsLimited (step o w)
unfolding step accept on_accept
step-IsLimited (leaves client) w l = leaves-IsLimited client w l
step-IsLimited (arrives elapsed a) w l = elim (Bool-cases w.server.accepting) [
  | inr off ↦
      subst
        (λ s. IsLimited (record {
          now = w.now + elapsed;
          server = s;
          log = logged (w.now + elapsed) a w.server s w.log;
        }))
        (sym (accept_off (w.now + elapsed) a w.server off))
        (rw (logged_same (w.now + elapsed) a w.server w.log)
          (waits-IsLimited elapsed w w.server.accepting l))
  | inl on ↦ arrives_on a on
]
  where
    arrives_on : (a : Accepted) → w.server.accepting ≡ true → IsLimited (step (arrives elapsed a) w)
    arrives_on (connection address) on = connects-IsLimited elapsed address w on l
    arrives_on accept_error on = rw on (waits-IsLimited elapsed w false l)

run_from-IsLimited : (os : List Operation) (w : World) → IsLimited w → IsLimited (run os w)
unfolding run
run_from-IsLimited [] w l = l
run_from-IsLimited (o ∷ os) w l = run_from-IsLimited os (step o w) (step-IsLimited o w l)

-- Whatever arrives at a new server and whoever leaves it, at every moment no address has more than
-- three connections, and none was let in more than ten times in the last thirty seconds.
pub run-new_world_limits :
    (os : List Operation) (address : ℕ)
    → (connections address (run os new_world).server.clients ≤ max_connections_per_address)
      × (count_recent (run os new_world).now (times address (run os new_world).log)
          ≤ max_connect_rate_per_address)
run-new_world_limits os address =
    let w = run os new_world in
    let l = run_from-IsLimited os new_world new_world-IsLimited in
    (
      omega (arith, l.counted address, l.active address),
      omega (
        arith,
        recent w l,
        count_recent-le w.now (state_of address w).connection_timestamps,
        l.short address,
      ),
    )
  where
    recent :
        (w : World)
        → IsLimited w
        → count_recent w.now (state_of address w).connection_timestamps
          ≡ count_recent w.now (times address w.log)
    recent w l = rw add_zero at (l.remembered address 0)
      where
        add_zero : w.now + 0 ≡ w.now
        add_zero = omega arith

connections-erase-le :
    (address client : ℕ) (clients : Dict ℕ)
    → connections address (Dict.erase client clients) ≤ connections address clients
unfolding Dict.erase
connections-erase-le address client [] = omega arith
connections-erase-le address client ((c, a) ∷ clients) =
    ground (arith, connections-erase-le address client clients)

step_closed :
    (o : Operation) (address : ℕ) (w : World)
    → w.server.accepting ≡ false
    → ((step o w).server.accepting ≡ false)
      × (connections address (step o w).server.clients ≤ connections address w.server.clients)
unfolding step accept on_client_disconnected
step_closed (arrives elapsed a) address w off = ground arith
step_closed (leaves client) address w off =
    ground (arith, connections-erase-le address client w.server.clients)

run_closed :
    (os : List Operation) (address : ℕ) (w : World)
    → w.server.accepting ≡ false
    → connections address (run os w).server.clients ≤ connections address w.server.clients
unfolding run
run_closed [] address w off = omega arith
run_closed (o ∷ os) address w off =
    let one = step_closed o address w off in
    omega (arith, one.1, run_closed os address (step o w) one.0)

-- After an error of the acceptor, whatever arrives or leaves, no address has more connections than
-- it had.
pub run_after_error :
    (os : List Operation) (elapsed address : ℕ) (w : World)
    → connections address (run os (step (arrives elapsed accept_error) w)).server.clients
      ≤ connections address w.server.clients
unfolding step accept on_accept
run_after_error os elapsed address w =
    let e = run_closed os address (step (arrives elapsed accept_error) w) (ground arith) in
    ground arith
