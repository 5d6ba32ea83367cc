-- ===== src/Protocol/Frame/Session.antt =====
-- What a client sends, described from its side, and that the server gets exactly that.
use Prim.Native.Nat.{bit_and}
use alicia_server.Common.{
  ℕ, ◌+◌, ◌-◌, ◌/◌, ◌%◌, ◌^◌, ◌≤◌, ◌<◌, ◌≡◌, refl, sym, ap, ◌∙◌, Bool, List, [], ◌∷◌, ◌++◌, length,
  take, arith, length-append, take_length-append, drop_length-append,
}
use alicia_server.Protocol.Magic.{
  MessageMagic, decode_message_magic, encode_message_magic, u32_bytes,
}
use alicia_server.Protocol.Magic.RoundTrip.{decode-encode_message_magic, encode_message_magic-lt}
use alicia_server.Protocol.Code.{roll_code, xor_algorithm}
use alicia_server.Protocol.Code.Laws.{xor_algorithm-xor_algorithm, length-xor_algorithm}
use alicia_server.Protocol.Frame.{
  command_count, max_command_data_size, Event, next, waiting, le_u32, dispatch, process_data,
  read_body, read_command, on_client_data,
}
use alicia_server.Protocol.Frame.Rounds.{prefix, follow, on_client_data_unroll, read_command-nil}

-- A command as the client means it: `padding` stands for the bytes that fill it up.
pub record ClientCommand : Type 0 where
  pub id : ℕ
  pub payload : List ℕ
  pub padding : List ℕ

-- An empty command is its magic alone and does not roll the code. Any other rolls it, and goes out
-- with its padding under the XOR algorithm.
abbrev next_code : ℕ → List ℕ → ℕ
next_code code [] = code
next_code code (_ ∷ _) = roll_code code

abbrev command_data : ℕ → List ℕ → List ℕ → List ℕ
command_data code [] padding = []
command_data code (b ∷ bs) padding = xor_algorithm (roll_code code) ((b ∷ bs) ++ padding)

abbrev magic_of : ℕ → ClientCommand → MessageMagic
magic_of code c = record { id = c.id; length = 4 + length (command_data code c.payload c.padding) }

abbrev frame : ℕ → ClientCommand → List ℕ
frame code c =
    u32_bytes (encode_message_magic (magic_of code c)) ++ command_data code c.payload c.padding

-- The client fills a non-empty command up by as many bytes as the low three bits of the code say.
abbrev IsPadded : ℕ → List ℕ → List ℕ → Type 0
IsPadded code [] padding = Unit {0}
IsPadded code (b ∷ bs) padding = length padding ≡ bit_and (roll_code code) 7

abbrev pub IsSendable : ℕ → ClientCommand → Type 0
IsSendable code c =
    (c.id ≤ command_count)
    × (length c.payload + length c.padding ≤ max_command_data_size)
    × IsPadded code c.payload c.padding

pub le_u32-u32_bytes :
    (v : ℕ)
    → v < 2 ^ 32
    → le_u32 (v % 2 ^ 8) (v / 2 ^ 8 % 2 ^ 8) (v / 2 ^ 16 % 2 ^ 8) (v / 2 ^ 24 % 2 ^ 8) ≡ v
unfolding le_u32
le_u32-u32_bytes v h = omega arith

module _ (registered : ℕ → Bool) where
  process_data_nonempty :
      (code id : ℕ) (taken rest : List ℕ)
      → 0 < length taken
      → let padding = bit_and (roll_code code) 7 in
        padding < length taken
        → process_data registered code id taken rest
          ≡ next
              (roll_code code)
              (dispatch registered id
                (take (length taken - padding) (xor_algorithm (roll_code code) taken)))
              (4 + length taken)
              rest
  unfolding process_data
  process_data_nonempty code id [] rest h p = absurd (omega arith)
  process_data_nonempty code id (b ∷ bs) rest h p = ground arith

  process_data-command_data :
      (code id : ℕ) (payload padding rest : List ℕ)
      → IsPadded code payload padding
      → process_data registered code id (command_data code payload padding) rest
        ≡ next
            (next_code code payload)
            (dispatch registered id payload)
            (4 + length (command_data code payload padding))
            rest
  unfolding process_data
  process_data-command_data code id [] padding rest h = refl
  process_data-command_data code id (b ∷ bs) padding rest h =
      process_data_nonempty code id sent rest (omega (arith, size)) (omega (arith, size, h))
      ∙ ap (λ t. next (roll_code code) (dispatch registered id t) (4 + length sent) rest) plain
    where
      sent : List ℕ
      sent = command_data code (b ∷ bs) padding

      size : length sent ≡ length (b ∷ bs) + length padding
      size =
          length-xor_algorithm (roll_code code) ((b ∷ bs) ++ padding)
          ∙ length-append (b ∷ bs) padding

      unpadded : length sent - bit_and (roll_code code) 7 ≡ length (b ∷ bs)
      unpadded = omega (arith, size, h)

      plain :
          take (length sent - bit_and (roll_code code) 7) (xor_algorithm (roll_code code) sent)
          ≡ b ∷ bs
      plain =
          rw (unpadded, xor_algorithm-xor_algorithm (roll_code code) ((b ∷ bs) ++ padding))
            (take_length-append (b ∷ bs) padding)

  length-command_data :
      (code : ℕ) (payload padding : List ℕ)
      → length (command_data code payload padding) ≤ length payload + length padding
  length-command_data code [] padding = omega arith
  length-command_data code (b ∷ bs) padding = omega (
    arith,
    length-xor_algorithm (roll_code code) ((b ∷ bs) ++ padding),
    length-append (b ∷ bs) padding,
  )

  read_body-magic_of :
      (code : ℕ) (c : ClientCommand) (rest : List ℕ)
      → IsSendable code c
      → read_body registered code (magic_of code c) (command_data code c.payload c.padding ++ rest)
        ≡ next
            (next_code code c.payload)
            (dispatch registered c.id c.payload)
            (4 + length (command_data code c.payload c.padding))
            rest
  unfolding read_body
  read_body-magic_of code c rest s =
      rw
        (
          size,
          take_length-append sent rest,
          drop_length-append sent rest,
          process_data-command_data code c.id c.payload c.padding rest s.2,
        )
        (ground (arith, length-append sent rest, length-command_data code c.payload c.padding))
    where
      sent : List ℕ
      sent = command_data code c.payload c.padding

      size : 4 + length sent - 4 ≡ length sent
      size = omega arith

  decode-magic_of :
      (code : ℕ) (c : ClientCommand)
      → IsSendable code c
      → decode_message_magic (encode_message_magic (magic_of code c)) ≡ magic_of code c
  decode-magic_of code c s =
      decode-encode_message_magic (magic_of code c) (omega arith) (omega (arith, bound)) ∙ λ i.
      record { id = id i; length = len i }
    where
      bound : length (command_data code c.payload c.padding) ≤ max_command_data_size
      bound = omega (arith, length-command_data code c.payload c.padding)

      id : c.id % 2 ^ 14 ≡ c.id
      id = omega arith

      len :
          (4 + length (command_data code c.payload c.padding)) % 2 ^ 14
          ≡ 4 + length (command_data code c.payload c.padding)
      len = omega (arith, bound)

  read_command-frame :
      (code : ℕ) (c : ClientCommand) (rest : List ℕ)
      → IsSendable code c
      → read_command registered code (frame code c ++ rest)
        ≡ next
            (next_code code c.payload)
            (dispatch registered c.id c.payload)
            (length (frame code c))
            rest
  unfolding read_command
  read_command-frame code c rest s =
      rw (le_u32-u32_bytes (encode_message_magic (magic_of code c)) small, decode-magic_of code c s)
        (read_body-magic_of code c rest s
          ∙ ap (λ t. next (next_code code c.payload) (dispatch registered c.id c.payload) t rest)
              size)
    where
      small : encode_message_magic (magic_of code c) < 2 ^ 32
      small =
          encode_message_magic-lt (magic_of code c) (omega arith)
            (omega (arith, length-command_data code c.payload c.padding))

      size : 4 + length (command_data code c.payload c.padding) ≡ length (frame code c)
      size = omega arith

-- The bytes of a sequence of commands, and the code behind them.
abbrev pub stream : ℕ → List ClientCommand → List ℕ
stream code [] = []
stream code (c ∷ cs) = frame code c ++ stream (next_code code c.payload) cs

abbrev pub code_after : ℕ → List ClientCommand → ℕ
code_after code [] = code
code_after code (c ∷ cs) = code_after (next_code code c.payload) cs

abbrev pub AreSendable : ℕ → List ClientCommand → Type 0
AreSendable code [] = Unit {0}
AreSendable code (c ∷ cs) = IsSendable code c × AreSendable (next_code code c.payload) cs

abbrev pub events_of : (ℕ → Bool) → List ClientCommand → List Event
events_of registered [] = []
events_of registered (c ∷ cs) = dispatch registered c.id c.payload ∷ events_of registered cs

-- The commands that a client sends are dispatched as they are, in their order: each with its ID and
-- its payload, free of padding and encryption. All bytes are consumed, no exception is thrown, and
-- the server's rolling code ends in step with the client's. The client's commands have an ID of at
-- most Command::Count, at most 8192 bytes with padding, and the padding that their code demands.
pub on_client_data-stream :
    (registered : ℕ → Bool) (code : ℕ) (commands : List ClientCommand)
    → AreSendable code commands
    → on_client_data registered code (stream code commands) ≡ record {
      events = events_of registered commands;
      code = code_after code commands;
      consumed = length (stream code commands);
      status = waiting;
    }
on_client_data-stream registered code [] s =
    on_client_data_unroll registered code []
    ∙ ap (follow registered code) (read_command-nil registered code)
on_client_data-stream registered code (c ∷ cs) s =
    on_client_data_unroll registered code (stream code (c ∷ cs))
    ∙ ap (follow registered code)
        (read_command-frame registered code c (stream (next_code code c.payload) cs) s.0)
    ∙ ap (prefix (dispatch registered c.id c.payload ∷ []) (length (frame code c)))
        (on_client_data-stream registered (next_code code c.payload) cs s.1)
    ∙ λ i. record {
      events = events_of registered (c ∷ cs);
      code = code_after code (c ∷ cs);
      consumed = total i;
      status = waiting;
    }
  where
    total :
        length (frame code c) + length (stream (next_code code c.payload) cs)
        ≡ length (stream code (c ∷ cs))
    total = sym (length-append (frame code c) (stream (next_code code c.payload) cs))
