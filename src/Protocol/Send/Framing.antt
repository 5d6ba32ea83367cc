-- ===== src/Protocol/Send/Framing.antt =====
-- What the server sends can be taken apart into its commands.
use alicia_server.Common.{
  ℕ, ◌+◌, ◌/◌, ◌%◌, ◌^◌, ◌≤◌, ◌<◌, ◌≡◌, sym, ap, ◌∙◌, Bool, true, false, Option, none, some, List,
  [], ◌∷◌, ◌++◌, arith, ltb, length, take, All, take_length-append,
}
use mathlib.Core.List.{append_assoc, append-nil}
use alicia_server.Protocol.Magic.{
  MessageMagic, encode_message_magic, decode_message_magic, u32_bytes,
}
use alicia_server.Protocol.Magic.RoundTrip.{decode-encode_message_magic, encode_message_magic-lt}
use alicia_server.Protocol.Frame.{le_u32, max_command_data_size, max_command_size}
use alicia_server.Protocol.Frame.Session.{le_u32-u32_bytes}
use alicia_server.Protocol.Send.{ServerCommand, send_command, write_commands}

-- Bytes that stand for a sequence of commands to a reader who takes a magic, decodes it and then
-- takes as many bytes as its length says.
pub data Carries : List ServerCommand → List ℕ → Type 0 where
  nothing : Carries [] []
  command :
      (id b0 b1 b2 b3 : ℕ) (data_bytes rest : List ℕ) (cs : List ServerCommand)
      → decode_message_magic (le_u32 b0 b1 b2 b3)
        ≡ record { id = id; length = 4 + length data_bytes }
      → Carries cs rest
      → Carries
          (record { id = id; data_bytes = data_bytes } ∷ cs)
          (b0 ∷ b1 ∷ b2 ∷ b3 ∷ data_bytes ++ rest)

abbrev pub Fits : ServerCommand → Type 0
Fits c = (c.id < 2 ^ 14) × (length c.data_bytes ≤ max_command_data_size)

abbrev magic_of : ServerCommand → MessageMagic
magic_of c = record { id = c.id; length = 4 + length c.data_bytes }

send_command-Fits :
    (c : ServerCommand)
    → Fits c
    → send_command c ≡ some (u32_bytes (encode_message_magic (magic_of c)) ++ c.data_bytes)
unfolding send_command
send_command-Fits c f =
    rw (short, id, len)
      (ap some (
        ap (λ n. take n sent) whole
        ∙ ap (take (length sent)) (sym (append-nil sent))
        ∙ take_length-append sent []))
  where
    sent : List ℕ
    sent = u32_bytes (encode_message_magic (magic_of c)) ++ c.data_bytes

    short : ltb max_command_size (4 + length c.data_bytes) ≡ false
    short = ground (arith, f.1)

    id : c.id % 2 ^ 16 ≡ c.id
    id = omega (arith, f.0)

    len : (4 + length c.data_bytes) % 2 ^ 16 ≡ 4 + length c.data_bytes
    len = omega (arith, f.1)

    whole : 4 + length c.data_bytes ≡ length sent
    whole = omega arith

decode-magic_of :
    (c : ServerCommand)
    → Fits c
    → decode_message_magic (encode_message_magic (magic_of c)) ≡ magic_of c
decode-magic_of c f =
    decode-encode_message_magic (magic_of c) (omega (arith, f.0)) (omega (arith, f.1)) ∙ λ i.
    record { id = id i; length = len i }
  where
    id : c.id % 2 ^ 14 ≡ c.id
    id = omega (arith, f.0)

    len : (4 + length c.data_bytes) % 2 ^ 14 ≡ 4 + length c.data_bytes
    len = omega (arith, f.1)

command-Carries :
    (c : ServerCommand) (cs : List ServerCommand) (rest : List ℕ)
    → Fits c
    → Carries cs rest
    → Carries (c ∷ cs) ((u32_bytes (encode_message_magic (magic_of c)) ++ c.data_bytes) ++ rest)
command-Carries c cs rest f k =
    let v = encode_message_magic (magic_of c) in
    command c.id (v % 2 ^ 8) (v / 2 ^ 8 % 2 ^ 8) (v / 2 ^ 16 % 2 ^ 8) (v / 2 ^ 24 % 2 ^ 8)
      c.data_bytes rest cs
      (ap decode_message_magic (
          le_u32-u32_bytes v
            (encode_message_magic-lt (magic_of c) (omega (arith, f.0)) (omega (arith, f.1))))
        ∙ decode-magic_of c f)
      k

-- The commands that are queued for a client are put behind what is in the write buffer as bytes
-- that stand for exactly these commands, in their order, to a reader who decodes a magic and then
-- takes as many bytes as its length says; and the client goes on. The IDs are below 2 ^ 14 and the
-- data at most 8192 bytes.
pub write_commands-Carries :
    (cs : List ServerCommand) (buffer : List ℕ)
    → All Fits cs
    → (bytes : List ℕ) × (write_commands cs buffer ≡ (buffer ++ bytes, true)) × Carries cs bytes
unfolding write_commands
write_commands-Carries [] buffer f = ([], ap (λ b. (b, true)) (sym (append-nil buffer)), nothing)
write_commands-Carries (c ∷ cs) buffer f =
    let sent = u32_bytes (encode_message_magic (magic_of c)) ++ c.data_bytes in
    let (bytes, e, k) = write_commands-Carries cs (buffer ++ sent) f.1 in
    (
      sent ++ bytes,
      ap after (send_command-Fits c f.0) ∙ e ∙ ap (λ b. (b, true)) (append_assoc buffer sent bytes),
      command-Carries c cs bytes f.0 k,
    )
  where
    after : Option (List ℕ) → List ℕ × Bool
    after o = elim o [ none ↦ (buffer, false) | some bytes ↦ write_commands cs (buffer ++ bytes) ]
