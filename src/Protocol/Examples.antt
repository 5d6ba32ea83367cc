-- ===== src/Protocol/Examples.antt =====
-- Runs of the protocol on concrete bytes, and the theorems about it applied to concrete cases.
use alicia_server.Protocol.Send.{ServerCommand, write_commands}
use alicia_server.Protocol.Send.Framing.{Carries, write_commands-Carries}
use alicia_server.Common.{true, ℕ, ◌≡◌, ◌≢◌, refl, Bool, List, [], ◌∷◌, ◌++◌, ◌==◌, arith, length}
use alicia_server.Protocol.Magic.{
  MessageMagic, encode_message_magic, decode_message_magic, decode_length, decode_id, encode_length,
}
use alicia_server.Protocol.Magic.RoundTrip.{decode-encode_message_magic}
use alicia_server.Protocol.Code.{roll_code, xor_algorithm, xor_from, key_byte}
use alicia_server.Protocol.Frame.{
  Event, waiting, stalled, threw, bad_command_id, on_client_data, command_loop, read_command,
  read_body, dispatch, le_u32,
}
use alicia_server.Protocol.Frame.Chunks.{on_client_data-ne-stalled, on_client_data-append, resume}
use alicia_server.Protocol.Frame.Session.{
  ClientCommand, AreSendable, stream, code_after, events_of, on_client_data-stream,
}

abbrev heartbeat_only : ℕ → Bool
heartbeat_only id = id == 0x12e

abbrev login_magic : MessageMagic
login_magic = record { id = 7; length = 29 }

-- The magic of TestMagic, which expects 0x8D06CD01 instead.
encodes_login : encode_message_magic login_magic ≡ 0xCD06CD01
unfolding encode_message_magic encode_length
encodes_login = refl

decode-encode_message_magic_example :
    decode_message_magic (encode_message_magic login_magic) ≡ login_magic
decode-encode_message_magic_example =
    decode-encode_message_magic login_magic (omega arith) (omega arith)

-- An empty heartbeat, and a login of three bytes, which rolls the code to 0xa20191cb: its low bits
-- ask for three bytes of padding.
abbrev two_commands : List ClientCommand
two_commands =
    record { id = 0x12e; payload = []; padding = [] }
    ∷ record { id = 7; payload = 1 ∷ 2 ∷ 3 ∷ []; padding = 0 ∷ 0 ∷ 0 ∷ [] }
    ∷ []

two_commands-AreSendable : AreSendable 0 two_commands
unfolding roll_code
two_commands-AreSendable = ((omega arith, omega arith, tt), ((omega arith, omega arith, refl), tt))

rolled_zero : code_after 0 two_commands ≡ 0xa20191cb
unfolding roll_code
rolled_zero = refl

dispatched_two :
    events_of heartbeat_only two_commands ≡ Event.handled 0x12e [] ∷ Event.unhandled 7 ∷ []
unfolding dispatch
dispatched_two = refl

on_client_data-stream_example : on_client_data heartbeat_only 0 (stream 0 two_commands) ≡ record {
  events = events_of heartbeat_only two_commands;
  code = code_after 0 two_commands;
  consumed = length (stream 0 two_commands);
  status = waiting;
}
on_client_data-stream_example =
    on_client_data-stream heartbeat_only 0 two_commands two_commands-AreSendable

-- The first bytes of a login command of 29 bytes, which wait for the rest.
abbrev first_bytes : List ℕ
first_bytes = 0x01 ∷ 0xCD ∷ 0x06 ∷ 0xCD ∷ 9 ∷ 9 ∷ []

abbrev more_bytes : List ℕ
more_bytes = 1 ∷ 2 ∷ 3 ∷ []

first_bytes_wait : (on_client_data heartbeat_only 0 first_bytes).status ≡ waiting
unfolding on_client_data command_loop read_command read_body le_u32 decode_message_magic
    decode_length decode_id
first_bytes_wait = refl

on_client_data-append_example :
    on_client_data heartbeat_only 0 (first_bytes ++ more_bytes)
    ≡ resume heartbeat_only (on_client_data heartbeat_only 0 first_bytes) first_bytes more_bytes
on_client_data-append_example =
    on_client_data-append heartbeat_only 0 first_bytes more_bytes first_bytes_wait

-- A magic with the ID 0x3fff.
abbrev bad_bytes : List ℕ
bad_bytes = 0x00 ∷ 0x00 ∷ 0xff ∷ 0x3f ∷ []

bad_bytes_throw : (on_client_data heartbeat_only 0 bad_bytes).status ≡ threw bad_command_id
unfolding on_client_data command_loop read_command read_body le_u32 decode_message_magic
    decode_length decode_id
bad_bytes_throw = refl

on_client_data-ne-stalled_example : (on_client_data heartbeat_only 0 first_bytes).status ≢ stalled
on_client_data-ne-stalled_example = on_client_data-ne-stalled heartbeat_only 0 first_bytes

abbrev first_code : ℕ
first_code = 0xa20191cb

-- The least significant byte of the code comes first.
xors_bytes :
    xor_algorithm 0xa20191cb (0 ∷ 0 ∷ 0 ∷ 0 ∷ 0 ∷ []) ≡ 0xcb ∷ 0x91 ∷ 0x01 ∷ 0xa2 ∷ 0xcb ∷ []
unfolding xor_algorithm xor_from key_byte
xors_bytes = refl

abbrev two_answers : List ServerCommand
two_answers =
    record { id = 0x12e; data_bytes = [] } ∷ record { id = 8; data_bytes = 1 ∷ 2 ∷ [] } ∷ []

write_commands-Carries_example :
    (bytes : List ℕ) × (write_commands two_answers (7 ∷ []) ≡ ((7 ∷ []) ++ bytes, true))
    × Carries two_answers bytes
write_commands-Carries_example =
    write_commands-Carries two_answers (7 ∷ [])
      ((omega arith, omega arith), ((omega arith, omega arith), tt))
