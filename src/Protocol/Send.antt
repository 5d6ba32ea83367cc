-- ===== src/Protocol/Send.antt =====
-- CommandServer::SendCommand (libserver/network/command/CommandServer), as Client::WriteLoop
-- (libserver/network/Server) calls it: what the queued commands put into the write buffer.
-- The data that a supplier writes are a list of bytes.
pub mod Framing
use alicia_server.Common.{
  ℕ, ◌+◌, ◌%◌, ◌^◌, Bool, true, false, Option, none, some, List, [], ◌∷◌, ◌++◌, ltb, if◌then◌else◌,
  length, take,
}
use alicia_server.Protocol.Magic.{encode_message_magic, u32_bytes}
use alicia_server.Protocol.Frame.{magic_size, max_command_size}

-- A command that is queued for sending.
pub record ServerCommand : Type 0 where
  pub id : ℕ
  pub data_bytes : List ℕ

-- `none` is the exception of the sink stream that its buffer is full. What `commit` takes in is as
-- long as the magic says.
unfoldable pub send_command : ServerCommand → Option (List ℕ)
send_command c =
    let command_size = magic_size + length c.data_bytes in
    let magic_length = command_size % 2 ^ 16 in
    if ltb max_command_size command_size
    then none
    else some (
        take magic_length (
          u32_bytes (encode_message_magic (record { id = c.id % 2 ^ 16; length = magic_length }))
          ++ c.data_bytes))

-- "Write the suppliers to the write buffer." The second result tells whether the client goes on: a
-- supplier that throws ends it.
unfoldable pub write_commands : List ServerCommand → List ℕ → List ℕ × Bool
write_commands [] buffer = (buffer, true)
write_commands (c ∷ cs) buffer = elim (send_command c) [
  | none ↦ (buffer, false)
  | some bytes ↦ write_commands cs (buffer ++ bytes)
]
