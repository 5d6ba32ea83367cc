-- ===== src/Chat.antt =====
-- ChatSystem and CommandManager (server/system): what becomes of a chat message. A text is the list
-- of its bytes. The handlers of the commands are arguments.
mod Examples
pub mod Spoken
use alicia_server.Common.{
  ℕ, Bool, true, false, ◌&&◌, Option, none, some, List, [], ◌∷◌, ◌==◌, if◌then◌else◌,
}
use alicia_server.Storage.{DataStorage}
use alicia_server.Login.{UserInstance, Lobby}
use alicia_server.Login.Users.{get_user_by_character_uid}
use alicia_server.Infractions as Infractions
use alicia_server.Infractions.{
  Infraction, Word, Outcome, verdict, threw, undefined, check_outstanding_punishments, moderate,
}
use alicia_server.Util.Tokens.{tokenize_string}

abbrev pub Text : Type 0
Text = List ℕ

-- What a command answers: its handler's lines, or one of the manager's own.
pub data Reply : Type 0 where
  lines : List Text → Reply
  unknown_command server_error : Reply

-- CommandManager::Handler; `none` is an exception.
abbrev pub Handler : Type 0
Handler = (arguments : List Text) → (character_uid : ℕ) → Option (List Text)

abbrev pub CommandManager : Type 0
CommandManager = List (Text × Handler)

unfoldable pub same_text : Text → Text → Bool
same_text [] [] = true
same_text [] (d ∷ ds) = false
same_text (c ∷ cs) [] = false
same_text (c ∷ cs) (d ∷ ds) = (c == d) && same_text cs ds

unfoldable pub register_command : Text → Handler → CommandManager → CommandManager
register_command literal handler [] = (literal, handler) ∷ []
register_command literal handler ((name, h) ∷ commands) =
    let rest = register_command literal handler commands in
    if same_text name literal then (literal, handler) ∷ commands else (name, h) ∷ rest

unfoldable pub find_command : Text → CommandManager → Option Handler
find_command literal [] = none
find_command literal ((name, h) ∷ commands) =
    if same_text name literal then some h else find_command literal commands

abbrev pub answer : Option (List Text) → Reply
answer none = server_error
answer (some result) = lines result

abbrev pub call_handler : Option Handler → (arguments : List Text) → (character_uid : ℕ) → Reply
call_handler none arguments character_uid = unknown_command
call_handler (some h) arguments character_uid = answer (h arguments character_uid)

unfoldable pub handle_command : Text → ℕ → List Text → CommandManager → Reply
handle_command literal character_uid arguments manager =
    call_handler (find_command literal manager) arguments character_uid

-- `command[0]` and the span behind it; `none` stands for the access to an empty vector.
abbrev pub handle_tokens : ℕ → List Text → CommandManager → Option Reply
handle_tokens character_uid [] manager = none
handle_tokens character_uid (literal ∷ arguments) manager =
    some (handle_command literal character_uid arguments manager)

unfoldable pub process_command_message : ℕ → Text → CommandManager → Option Reply
process_command_message character_uid message manager =
    handle_tokens character_uid (tokenize_string 32 message) manager

-- The texts that a verdict carries; that of a mute shows the time point cut to seconds.
pub data Message : Type 0 where
  no_message prevented_by_automod : Message
  muted_until : (time : ℕ) → Message
  passed : Text → Message

-- ChatSystem::ChatVerdict
pub record ChatVerdict : Type 0 where
  pub is_muted : Bool
  pub message : Message
  pub command_verdict : Option Reply

-- An exception in a function that is `noexcept` ends the server.
pub data Processed : Type 0 where
  chat_verdict : ChatVerdict → Processed
  terminated undefined_behaviour : Processed

-- What the systems behind the chat know: the words with the matching of regular expressions, the
-- infractions of a user by its name, and the time.
pub record Systems : Type 0 where
  pub now : ℕ
  pub lobby : Lobby
  pub infractions_of : ℕ → Option (List ℕ)
  pub infractions : DataStorage Infraction
  pub words : List Word
  pub regex_match : Text → ℕ → Bool
  pub manager : CommandManager

-- The message behind `//`, if it is a command.
abbrev pub command_text : Text → Option Text
command_text [] = none
command_text (c ∷ []) = none
command_text (c ∷ d ∷ rest) = if (c == 47) && (d == 47) then some rest else none

abbrev pub command_processed : Option Reply → Processed
command_processed none = undefined_behaviour
command_processed (some reply) =
    chat_verdict record { is_muted = false; message = no_message; command_verdict = some reply }

unfoldable pub judged : Systems → Text → Outcome → Processed
judged s message threw = terminated
judged s message undefined = undefined_behaviour
judged s message (verdict v) =
    if v.mute_active
    then chat_verdict
        record { is_muted = true; message = muted_until v.mute_expires_at; command_verdict = none }
    else if moderate s.regex_match message s.words
    then chat_verdict
        record { is_muted = true; message = prevented_by_automod; command_verdict = none }
    else chat_verdict record { is_muted = false; message = passed message; command_verdict = none }

abbrev pub process_for : Systems → ℕ → Text → Option UserInstance → Option Text → Processed
process_for s character_uid message none command = terminated
process_for s character_uid message (some user) (some command) =
    command_processed (process_command_message character_uid command s.manager)
process_for s character_uid message (some user) none =
    judged s message
      (check_outstanding_punishments s.now (s.infractions_of user.user_name) s.infractions).1

unfoldable pub process_chat_message : Systems → ℕ → Text → Processed
process_chat_message s character_uid message =
    process_for s character_uid message (get_user_by_character_uid character_uid s.lobby)
      (command_text message)
