-- ===== src/Network/Examples.antt =====
-- The read loop on concrete reads.
use alicia_server.Common.{◌≤◌, ℕ, Bool, List, [], ◌∷◌, ◌==◌}
use alicia_server.Network.ReadLoop.{begin, read_loop, joined}
use alicia_server.Network.ReadLoop.Cuts.{HasRead, read_loop_joined}
use alicia_server.Network.Throttle.{
  connection, accept_error, max_connections_per_address, max_connect_rate_per_address,
}
use alicia_server.Network.Throttle.Counts.{connections, count_recent}
use alicia_server.Network.Throttle.Limits.{
  Operation, arrives, leaves, step, run, times, new_world, run-new_world_limits, run_after_error,
}

abbrev heartbeat_only : ℕ → Bool
heartbeat_only id = id == 0x12e

-- A magic that arrives in two reads, and the start of the next one.
abbrev cut_magic : List (List ℕ)
cut_magic = (0x01 ∷ 0xCD ∷ []) ∷ (0x06 ∷ 0xCD ∷ []) ∷ (9 ∷ []) ∷ []

read_loop_joined_example :
    HasRead heartbeat_only 0 (joined cut_magic) (read_loop heartbeat_only (begin 0) cut_magic)
read_loop_joined_example = read_loop_joined heartbeat_only 0 cut_magic

-- Four connections from one address, of which the last is throttled, and one from another.
abbrev arrivals : List Operation
arrivals =
    arrives 0 (connection 7)
    ∷ arrives 1 (connection 7)
    ∷ arrives 1 (connection 7)
    ∷ arrives 1 (connection 7)
    ∷ arrives 0 (connection 8)
    ∷ leaves 0
    ∷ []

run-new_world_limits_example :
    (connections 7 (run arrivals new_world).server.clients ≤ max_connections_per_address)
    × (count_recent (run arrivals new_world).now (times 7 (run arrivals new_world).log)
        ≤ max_connect_rate_per_address)
run-new_world_limits_example = run-new_world_limits arrivals 7

run_after_error_example :
    connections 7
      (run arrivals (step (arrives 1 accept_error) (run arrivals new_world))).server.clients
    ≤ connections 7 (run arrivals new_world).server.clients
run_after_error_example = run_after_error arrivals 1 7 (run arrivals new_world)
