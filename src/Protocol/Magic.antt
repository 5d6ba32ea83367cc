-- ===== src/Protocol/Magic.antt =====
-- The message magic of libserver/network/command/CommandProtocol: a command's ID and length,
-- packed into 32 bits.
pub mod RoundTrip
use Prim.Native.Nat.{bit_and, bit_or, bit_xor}
use alicia_server.Common.{ℕ, ◌+◌, ◌-◌, ◌*◌, ◌/◌, ◌%◌, ◌^◌, ◌==◌, if◌then◌else◌, List, [], ◌∷◌}

-- protocol::MessageMagic; both fields are uint16_t.
pub record MessageMagic : Type 0 where
  pub id : ℕ
  pub length : ℕ

abbrev pub buffer_size : ℕ
buffer_size = 4096

-- The scrambled length, if the bit that marks it is set; `section` is a uint16_t.
unfoldable pub decode_length : ℕ → ℕ
decode_length value =
    if bit_and value (2 ^ 15) == 0
    then 0
    else let section = bit_and value 0x3fff in
      bit_or (bit_or (bit_and value 0xff * 2 ^ 4) (bit_and (section / 2 ^ 8) 0xf))
        (bit_and section 0xf000)
      % 2 ^ 16

-- `~` is taken in 32 bits, as the operand is promoted to int; the result is cut to uint16_t.
unfoldable pub decode_id : ℕ → ℕ
decode_id value =
    let first_two_bytes = bit_and value 0xffff in
    let second_two_bytes = bit_and (value / 2 ^ 16) 0xffff in
    let xor_result = bit_xor first_two_bytes second_two_bytes in
    bit_and (2 ^ 32 - 1 - bit_and xor_result 0xc000) xor_result % 2 ^ 16

unfoldable pub decode_message_magic : ℕ → MessageMagic
unfolding decode_length decode_id
decode_message_magic value = record { id = decode_id value; length = decode_length value }

-- The scrambled length: the first two assignments to `encoded`. A left shift drops what passes
-- 32 bits.
unfoldable pub encode_length : ℕ → ℕ
encode_length len =
    let length = bit_or (buffer_size * 2 ^ 16) len in
    let encoded = bit_and (bit_or (bit_and length 0x3fff) (length * 2 ^ 14 % 2 ^ 32)) 0xffff in
    bit_and
      (bit_or
        (bit_or (bit_or (bit_and encoded 0xf) 0xff80 * 2 ^ 8 % 2 ^ 32)
          (bit_and (length / 2 ^ 4) 0xff))
        (bit_and encoded 0xf000))
      0xffff

unfoldable pub encode_message_magic : MessageMagic → ℕ
unfolding encode_length
encode_message_magic magic =
    let id = bit_and magic.id 0xffff in
    let encoded = encode_length magic.length in
    bit_or encoded (bit_xor encoded id * 2 ^ 16 % 2 ^ 32)

-- The bytes of a uint32_t in memory, least significant first.
abbrev pub u32_bytes : ℕ → List ℕ
u32_bytes v = v % 2 ^ 8 ∷ v / 2 ^ 8 % 2 ^ 8 ∷ v / 2 ^ 16 % 2 ^ 8 ∷ v / 2 ^ 24 % 2 ^ 8 ∷ []
