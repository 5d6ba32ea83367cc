-- ===== src/Protocol/Magic/RoundTrip.antt =====
-- Encoding a message magic and decoding it again.
use Prim.Native.Nat.{bit_and, bit_or, bit_xor}
use alicia_server.Common.{
  ℕ, zero, suc, ◌+◌, ◌-◌, ◌*◌, ◌/◌, ◌%◌, ◌^◌, ◌<◌, ◌≤◌, ◌≡◌, refl, ap, ◌∙◌, Bool, true, false,
  if◌then◌else◌, ◌&&◌, ltb, ◌==◌, arith,
}
use alicia_server.Common.Bits.{
  bit_and-mask, bit_and-shifted_mask, bit_or-disjoint, bit_or_comm, bit_xor_self, bit_xor-lt,
  bit_and_split, bit_and_comm,
}
use alicia_server.Protocol.Magic.{
  MessageMagic, decode_length, decode_id, decode_message_magic, encode_length, encode_message_magic,
}

-- A test passed by `count` numbers from `first` on.
passes : (ℕ → Bool) → (count first : ℕ) → Bool
passes test zero first = true
passes test (suc count) first = if test first then passes test count (suc first) else false

passes-at :
    (test : ℕ → Bool) (count first number : ℕ)
    → first ≤ number
    → number < first + count
    → passes test count first ≡ true
    → test number ≡ true
unfolding passes
passes-at test zero first number low high passed = absurd (omega arith)
passes-at test (suc count) first number low high passed =
    ground (arith, passes-at test count (suc first) number)

-- The length is scrambled within 16 bits, and comes back without its two highest bits.
abbrev length_agrees : ℕ → Bool
length_agrees len =
    decode_length (encode_length len) == len % 2 ^ 14 && ltb (encode_length len) (2 ^ 16)

length_table : passes length_agrees (2 ^ 16) 0 ≡ true
unfolding passes decode_length encode_length
length_table = refl

length_table_at : (len : ℕ) → len < 2 ^ 16 → length_agrees len ≡ true
length_table_at len h =
    passes-at length_agrees (2 ^ 16) 0 len (omega arith) (omega arith) length_table

encode_length-lt : (len : ℕ) → len < 2 ^ 16 → encode_length len < 2 ^ 16
encode_length-lt len h = ground (arith, length_table_at len h)

decode-encode_length : (len : ℕ) → len < 2 ^ 16 → decode_length (encode_length len) ≡ len % 2 ^ 14
decode-encode_length len h = ground (arith, length_table_at len h)

-- Only the low 16 bits of a magic bear on its length.
decode_length-low : (value : ℕ) → decode_length value ≡ decode_length (value % 2 ^ 16)
unfolding decode_length
decode_length-low value = rw (mark, low_byte, section)
  where
    mark : bit_and value (2 ^ 15) ≡ bit_and (value % 2 ^ 16) (2 ^ 15)
    mark = omega (
      arith,
      bit_and-shifted_mask 15 1 value,
      bit_and-shifted_mask 15 1 (value % 2 ^ 16),
      bit_and-mask 1 1 (value / 2 ^ 15) refl,
      bit_and-mask 1 1 (value % 2 ^ 16 / 2 ^ 15) refl,
    )

    low_byte : bit_and value 0xff ≡ bit_and (value % 2 ^ 16) 0xff
    low_byte =
        omega (arith, bit_and-mask 8 0xff value refl, bit_and-mask 8 0xff (value % 2 ^ 16) refl)

    section : bit_and value 0x3fff ≡ bit_and (value % 2 ^ 16) 0x3fff
    section =
        omega
          (arith, bit_and-mask 14 0x3fff value refl, bit_and-mask 14 0x3fff (value % 2 ^ 16) refl)

-- Two bits and their complement share none.
complement_two_bits : (c : ℕ) → c < 4 → bit_and (2 ^ 18 - 1 - c) c ≡ 0
complement_two_bits zero h = refl
complement_two_bits (suc zero) h = refl
complement_two_bits (suc (suc zero)) h = refl
complement_two_bits (suc (suc (suc zero))) h = refl
complement_two_bits (suc (suc (suc (suc c)))) h = absurd (omega arith)

-- `~(x & 0xC000) & x` clears the two highest bits of x.
clear_high : (x : ℕ) → x < 2 ^ 16 → bit_and (2 ^ 32 - 1 - bit_and x 0xc000) x ≡ x % 2 ^ 14
clear_high x h = omega (
  arith,
  bit_and_split 14 (2 ^ 32 - 1 - bit_and x 0xc000) x,
  ap (λ t. bit_and t (x / 2 ^ 14)) high,
  complement_two_bits (x / 2 ^ 14) (omega arith),
  ap (λ t. bit_and t (x % 2 ^ 14)) low,
  bit_and-mask 14 0x3fff (x % 2 ^ 14) refl,
  bit_and_comm 0x3fff (x % 2 ^ 14),
)
  where
    masked : bit_and x 0xc000 ≡ x / 2 ^ 14 * 2 ^ 14
    masked = omega (arith, bit_and-shifted_mask 14 3 x, bit_and-mask 2 3 (x / 2 ^ 14) refl)

    high : (2 ^ 32 - 1 - bit_and x 0xc000) / 2 ^ 14 ≡ 2 ^ 18 - 1 - x / 2 ^ 14
    high = omega (arith, masked)

    low : (2 ^ 32 - 1 - bit_and x 0xc000) % 2 ^ 14 ≡ 0x3fff
    low = omega (arith, masked)

decode_id-pack :
    (e x : ℕ) → e < 2 ^ 16 → x < 2 ^ 16 → decode_id (e + x * 2 ^ 16) ≡ bit_xor e x % 2 ^ 14
unfolding decode_id
decode_id-pack e x he hx = rw (first, second) (omega (arith, clear_high (bit_xor e x) small))
  where
    small : bit_xor e x < 2 ^ 16
    small = bit_xor-lt 16 e x he hx

    first : bit_and (e + x * 2 ^ 16) 0xffff ≡ e
    first = omega (arith, bit_and-mask 16 0xffff (e + x * 2 ^ 16) refl)

    second : bit_and ((e + x * 2 ^ 16) / 2 ^ 16) 0xffff ≡ x
    second = omega (arith, bit_and-mask 16 0xffff ((e + x * 2 ^ 16) / 2 ^ 16) refl)

-- A magic as two halves of 16 bits: the scrambled length, and its exclusive or with the ID.
encode_message_magic-halves :
    (m : MessageMagic)
    → m.id < 2 ^ 16
    → m.length < 2 ^ 16
    → encode_message_magic m
      ≡ encode_length m.length + bit_xor (encode_length m.length) m.id * 2 ^ 16
unfolding encode_message_magic
encode_message_magic-halves m hi hl = rw (id_whole) (
    omega (
      arith,
      ap (λ t. bit_or e t) fits,
      bit_or_comm e (bit_xor e m.id * 2 ^ 16),
      bit_or-disjoint 16 (bit_xor e m.id) e small,
    ))
  where
    e : ℕ
    e = encode_length m.length

    small : e < 2 ^ 16
    small = encode_length-lt m.length hl

    id_whole : bit_and m.id 0xffff ≡ m.id
    id_whole = omega (arith, bit_and-mask 16 0xffff m.id refl)

    fits : bit_xor e m.id * 2 ^ 16 % 2 ^ 32 ≡ bit_xor e m.id * 2 ^ 16
    fits = omega (arith, bit_xor-lt 16 e m.id small hi)

-- A magic of 16-bit fields that is encoded and decoded again comes back with both fields cut to
-- their 14 low bits.
pub decode-encode_message_magic :
    (m : MessageMagic)
    → m.id < 2 ^ 16
    → m.length < 2 ^ 16
    → decode_message_magic (encode_message_magic m)
      ≡ record { id = m.id % 2 ^ 14; length = m.length % 2 ^ 14 }
unfolding decode_message_magic
decode-encode_message_magic m hi hl =
    rw (encode_message_magic-halves m hi hl) λ i. record { id = id i; length = len i }
  where
    e : ℕ
    e = encode_length m.length

    x : ℕ
    x = bit_xor e m.id

    small : e < 2 ^ 16
    small = encode_length-lt m.length hl

    id : decode_id (e + x * 2 ^ 16) ≡ m.id % 2 ^ 14
    id =
        decode_id-pack e x small (bit_xor-lt 16 e m.id small hi)
        ∙ ap (λ t. t % 2 ^ 14) (bit_xor_self e m.id)

    len : decode_length (e + x * 2 ^ 16) ≡ m.length % 2 ^ 14
    len =
        decode_length-low (e + x * 2 ^ 16)
        ∙ ap decode_length (omega (arith, small))
        ∙ decode-encode_length m.length hl

pub encode_message_magic-lt :
    (m : MessageMagic) → m.id < 2 ^ 16 → m.length < 2 ^ 16 → encode_message_magic m < 2 ^ 32
encode_message_magic-lt m hi hl = omega (
  arith,
  encode_message_magic-halves m hi hl,
  encode_length-lt m.length hl,
  bit_xor-lt 16 (encode_length m.length) m.id (encode_length-lt m.length hl) hi,
)
