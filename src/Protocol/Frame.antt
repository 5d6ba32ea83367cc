-- ===== src/Protocol/Frame.antt =====
-- CommandServer::NetworkEventHandler::OnClientData (libserver/network/command/CommandServer): the
-- commands that stand whole in the received bytes are taken off them, checked, decrypted and handed
-- to their handlers. The source stream is the list of the bytes behind its cursor.
-- What a handler does is outside: an exception of it is caught and logged.
pub mod Rounds
pub mod Chunks
pub mod Session
use Prim.Native.Nat.{bit_and}
use alicia_server.Common.{
  ℕ, zero, suc, ◌+◌, ◌-◌, ◌*◌, ◌^◌, Bool, ◌||◌, List, [], ◌∷◌, ltb, leb, if◌then◌else◌, length,
  take, drop,
}
use alicia_server.Protocol.Magic.{MessageMagic, decode_message_magic}
use alicia_server.Protocol.Code.{roll_code, xor_algorithm}

-- protocol::Command::Count
abbrev pub command_count : ℕ
command_count = 0x10a4

abbrev pub magic_size : ℕ
magic_size = 4

abbrev pub max_command_data_size : ℕ
max_command_data_size = 8192

abbrev pub max_command_size : ℕ
max_command_size = max_command_data_size + magic_size

-- The exceptions that OnClientData throws.
pub data Error : Type 0 where
  bad_command_id bad_command_data_size malformed_command : Error

-- What a command leads to: a call of its handler, or a warning that there is none.
pub data Event : Type 0 where
  handled : (id : ℕ) (data_bytes : List ℕ) → Event
  unhandled : (id : ℕ) → Event

-- One round of the loop: the end of the loop, an exception, or a command of `size` bytes. The
-- exception and the command leave the client with the code given.
pub data Round : Type 0 where
  wait : Round
  throw : (code : ℕ) → Error → Round
  next : (code : ℕ) (event : Event) (size : ℕ) (rest : List ℕ) → Round

-- The uint32_t that four bytes stand for, least significant first.
unfoldable pub le_u32 : ℕ → ℕ → ℕ → ℕ → ℕ
le_u32 b0 b1 b2 b3 = b0 + b1 * 2 ^ 8 + b2 * 2 ^ 16 + b3 * 2 ^ 24

-- `registered` tells the IDs that `_handlers` holds.
module _ (registered : ℕ → Bool) where
  unfoldable pub dispatch : ℕ → List ℕ → Event
  dispatch id data_bytes = if registered id then handled id data_bytes else unhandled id

  -- "Validate and process the command data."
  unfoldable pub process_data : ℕ → ℕ → List ℕ → List ℕ → Round
  process_data code id [] rest = next code (dispatch id []) magic_size rest
  process_data code id (b ∷ bs) rest =
      let rolled = roll_code code in
      let size = length (b ∷ bs) in
      let padding = bit_and rolled 7 in
      if leb size padding
      then throw rolled malformed_command
      else next rolled (dispatch id (take (size - padding) (xor_algorithm rolled (b ∷ bs))))
          (magic_size + size) rest

  unfoldable pub read_body : ℕ → MessageMagic → List ℕ → Round
  read_body code magic body =
      if ltb command_count magic.id
      then throw code bad_command_id
      else if ltb magic.length magic_size || ltb max_command_size magic.length
      then throw code bad_command_data_size
      else let command_data_size = magic.length - magic_size in
        if ltb (length body) command_data_size
        then wait
        else process_data code magic.id (take command_data_size body) (drop command_data_size body)

  unfoldable pub read_command : ℕ → List ℕ → Round
  read_command code (b0 ∷ b1 ∷ b2 ∷ b3 ∷ body) =
      read_body code (decode_message_magic (le_u32 b0 b1 b2 b3)) body
  read_command code _ = wait

-- How the loop ends; `stalled` is the end of the fuel.
pub data Status : Type 0 where
  waiting stalled : Status
  threw : Error → Status

pub record Outcome : Type 0 where
  pub events : List Event
  pub code : ℕ
  pub consumed : ℕ
  pub status : Status

module _ (registered : ℕ → Bool) where
  unfoldable pub command_loop : ℕ → ℕ → List ℕ → Outcome
  command_loop zero code bytes = record { events = []; code = code; consumed = 0; status = stalled }
  command_loop (suc fuel) code bytes = elim (read_command registered code bytes) [
    | wait ↦ record { events = []; code = code; consumed = 0; status = waiting }
    | throw code' e ↦ record { events = []; code = code'; consumed = 0; status = threw e }
    | next code' event size rest ↦
        let more = command_loop fuel code' rest in
        record more { events = event ∷ more.events; consumed = size + more.consumed }
  ]

  -- Every round but the last takes bytes off, so that their number is fuel enough.
  unfoldable pub on_client_data : ℕ → List ℕ → Outcome
  unfolding command_loop
  on_client_data code bytes = command_loop (suc (length bytes)) code bytes
