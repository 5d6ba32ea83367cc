-- ===== src/Chat/Spoken.antt =====
-- Who may speak, and that a command is always answered.
use alicia_server.Common.{ℕ, ◌≡◌, refl, ap, some, List, [], ◌∷◌, ◌<◌, length, arith}
use alicia_server.Util.Tokens.{tokenize_string}
use alicia_server.Util.Tokens.Join.{tokenize_string-AreTokens}
use alicia_server.Chat.{
  Text, CommandManager, handle_tokens, process_command_message, handle_command,
}

first_token :
    (ts : List (List ℕ)) → 0 < length ts → (t : List ℕ) × (rest : List (List ℕ)) × (ts ≡ t ∷ rest)
first_token [] h = absurd (omega arith)
first_token (t ∷ rest) h = (t, rest, refl)

-- There is always a first token, so that a command is looked up whatever the message.
process_command_message-handle_command :
    (character_uid : ℕ) (message : Text) (manager : CommandManager)
    → (literal : Text) × (arguments : List Text) × (process_command_message character_uid message
          manager
        ≡ some (handle_command literal character_uid arguments manager))
unfolding process_command_message
process_command_message-handle_command character_uid message manager =
    let (t, ts, e) =
      first_token (tokenize_string 32 message) (tokenize_string-AreTokens 32 message).some_token in
    (t, ts, ap (λ tokens. handle_tokens character_uid tokens manager) e)
