-- ===== src/Network/ReadLoop.antt =====
-- Client::ReadLoop (libserver/network/Server) over CommandServer's OnClientData. A read delivers
-- some bytes; the socket, its errors and the disconnect notification are outside.
pub mod Cuts
use alicia_server.Common.{
  ℕ, ◌+◌, ◌≡◌, refl, sym, ap, ◌∙◌, ◌≢◌, ◌⊎◌, inl, inr, Bool, true, false, List, [], ◌∷◌, ◌++◌, drop,
  arith, if◌then◌else◌, Bool-cases, drop-append_le, drop-drop,
}
use mathlib.Core.List.{append_assoc, append-nil}
use alicia_server.Protocol.Frame.{Event, Status, waiting, stalled, threw, Outcome, on_client_data}
use alicia_server.Protocol.Frame.Rounds.{prefix}
use alicia_server.Protocol.Frame.Chunks.{
  on_client_data-append, on_client_data-append_threw, consumed-le,
}

-- The client's part of the state: whether it still runs, its rolling code, the bytes in
-- `_readBuffer`, and the events that its commands have led to.
pub record Reader : Type 0 where
  pub should_run : Bool
  pub code : ℕ
  pub read_buffer : List ℕ
  pub events : List Event

abbrev pub is_waiting : Status → Bool
is_waiting waiting = true
is_waiting stalled = false
is_waiting (threw e) = false

module _ (registered : ℕ → Bool) where
  -- `events`, code and buffer after OnClientData; an exception ends the client.
  unfoldable pub consume : Reader → List ℕ → Outcome → Reader
  consume r received done = record {
    should_run = is_waiting done.status;
    code = done.code;
    read_buffer = if is_waiting done.status then drop done.consumed received else received;
    events = r.events ++ done.events;
  }

  -- The completion handler of one read.
  unfoldable pub on_read : Reader → List ℕ → Reader
  unfolding consume
  on_read r bytes =
      if r.should_run
      then consume r (r.read_buffer ++ bytes)
          (on_client_data registered r.code (r.read_buffer ++ bytes))
      else r

  unfoldable pub read_loop : Reader → List (List ℕ) → Reader
  read_loop r [] = r
  read_loop r (bytes ∷ reads) = read_loop (on_read r bytes) reads

pub begin : ℕ → Reader
begin code = record { should_run = true; code = code; read_buffer = []; events = [] }

abbrev pub joined : List (List ℕ) → List ℕ
joined [] = []
joined (bytes ∷ reads) = bytes ++ joined reads
