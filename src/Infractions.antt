-- ===== src/Infractions.antt =====
-- InfractionSystem and ModerationSystem (server/system): what a user is kept from, and what texts
-- are let through. A time point is a signed 64-bit number of nanoseconds and a duration
-- one of seconds, both in two's complement; where their sum overflows, which the language leaves
-- undefined, it wraps around, as it does on the machines that the program runs on.
mod Examples
pub mod Active
use alicia_server.Common.{
  ℕ, ◌+◌, ◌*◌, ◌%◌, ◌-◌, ◌^◌, Bool, true, false, not, ◌&&◌, Option, none, some, List, [], ◌∷◌, ltb,
  ◌==◌, if◌then◌else◌,
}
use alicia_server.Storage.{DataStorage, get_many}

pub data Punishment : Type 0 where
  no_punishment mute ban : Punishment

pub record Infraction : Type 0 where
  pub uid : ℕ
  pub punishment : Punishment
  pub duration : ℕ
  pub created_at : ℕ

abbrev pub blank_infraction : Infraction
blank_infraction = record { uid = 0; punishment = no_punishment; duration = 0; created_at = 0 }

-- InfractionSystem::Verdict
pub record Verdict : Type 0 where
  pub mute_active : Bool
  pub mute_expires_at : ℕ
  pub prevent_server_joining : Bool
  pub prevent_room_joining : Bool
  pub prevent_breeding : Bool

abbrev pub no_verdict : Verdict
no_verdict = record {
  mute_active = false;
  mute_expires_at = 0;
  prevent_server_joining = false;
  prevent_room_joining = false;
  prevent_breeding = false;
}

-- std::chrono::seconds::max
abbrev pub max_duration : ℕ
max_duration = 2 ^ 63 - 1

-- `createdAt + duration`, for which the seconds become nanoseconds first.
unfoldable pub expires_at : Infraction → ℕ
expires_at i = (i.created_at + i.duration * 10 ^ 9) % 2 ^ 64

-- `<` of two time points.
abbrev pub is_before : ℕ → ℕ → Bool
is_before x y = ltb ((x + 2 ^ 63) % 2 ^ 64) ((y + 2 ^ 63) % 2 ^ 64)

unfoldable pub is_expired : (now : ℕ) → Infraction → Bool
is_expired now i = if not (i.duration == max_duration) then is_before (expires_at i) now else false

unfoldable pub punish : Infraction → Punishment → Verdict → Verdict
punish i no_punishment v = v
punish i mute v = record v { mute_active = true; mute_expires_at = expires_at i }
punish i ban v = record v { prevent_server_joining = true }

unfoldable pub check_all : (now : ℕ) → List Infraction → Verdict → Verdict
check_all now [] v = v
check_all now (i ∷ infractions) v =
    check_all now infractions (if is_expired now i then v else punish i i.punishment v)

-- The end of CheckOutstandingPunishments: a user that is not available throws, and infractions that
-- are not are dereferenced all the same.
pub data Outcome : Type 0 where
  verdict : Verdict → Outcome
  threw undefined : Outcome

abbrev pub outcome : (now : ℕ) → Option (List Infraction) → Outcome
outcome now none = undefined
outcome now (some infractions) = verdict (check_all now infractions no_verdict)

-- The infractions of the user, `none` if its record is not available.
unfoldable pub check_outstanding_punishments :
    (now : ℕ) → Option (List ℕ) → DataStorage Infraction → DataStorage Infraction × Outcome
check_outstanding_punishments now none cache = (cache, threw)
check_outstanding_punishments now (some uids) cache =
    let (cache', found) = get_many blank_infraction uids cache in (cache', outcome now found)

-- ModerationSystem::Word; whether a word matches a whole text is an argument.
pub record Word : Type 0 where
  pub is_prevented : Bool
  pub regex : ℕ

unfoldable pub moderate :
    {Text : Type 0} → (regex_match : Text → ℕ → Bool) → Text → List Word → Bool
moderate regex_match input [] = false
moderate regex_match input (word ∷ words) =
    let rest = moderate regex_match input words in
    if not (regex_match input word.regex)
    then rest
    else if not word.is_prevented
    then rest
    else true
