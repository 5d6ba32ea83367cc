-- ===== src/Structures/RoundTrip.antt =====
-- Structures of libserver/network/command/proto that are written to a stream and read again.
use alicia_server.Common.{◌≤◌, ◌≡◌, false, ◌&&◌, ◌||◌, some, length}
use alicia_server.Stream.{SinkStream, SourceStream, IsWithin}
use alicia_server.Stream.Strings.{Locale}
use alicia_server.Stream.Text.{Transcodes}
use alicia_server.Stream.Codes.{read_back}
use alicia_server.Structures.Horse.{Horse, write_horse, read_horse, horse_codes}
use alicia_server.Structures.RanchCharacter.{
  RanchCharacter, write_ranch_character, read_ranch_character, ranch_character_codes,
}
use alicia_server.Structures.Options.{
  Settings, write_settings, read_settings, test, macros, value, gamepad,
}
use alicia_server.Structures.Options.RoundTrip.{SettingsFit, merged_settings, settings_codes}
use alicia_server.Structures.Skills.{
  SkillSet, write_skill_set, read_skill_set, skill_set_codes, write_skill_set-supported,
}

-- Where a reader starts that is given what a sink holds.
abbrev pub reread : SinkStream → SinkStream → SourceStream
reread before after = record { storage = after.storage; cursor = before.cursor }

pub read_horse-write_horse :
    (locale : Locale) (v : Horse) (before after : SinkStream)
    → Transcodes locale v.name
    → IsWithin before
    → write_horse locale v before ≡ some after
    → read_horse locale (reread before after) ≡ some (v, after)
read_horse-write_horse locale v before after plain within written =
    read_back (horse_codes locale v plain) before after within written

-- A ranch character that is written to a sink is read back from what the sink holds, and the reader
-- stops where the writer did: if the sink's cursor is within its storage, the five strings can be
-- sent, there are at most 255 pieces of equipment, and the write throws nothing.
pub read_ranch_character-write_ranch_character :
    (locale : Locale) (v : RanchCharacter) (before after : SinkStream)
    → Transcodes locale v.name
    → Transcodes locale v.introduction
    → Transcodes locale v.mount.name
    → length v.character_equipment ≤ 255
    → Transcodes locale v.guild.name
    → Transcodes locale v.pet.name
    → IsWithin before
    → write_ranch_character locale v before ≡ some after
    → read_ranch_character locale (reread before after) ≡ some (v, after)
read_ranch_character-write_ranch_character locale v before after name introduction mount few guild
      pet within written =
    read_back (ranch_character_codes locale v name introduction mount few guild pet) before after
      within written

-- Settings that fit, and whose mask does not have the gamepad beside the macros or the value, are
-- read back from what a sink holds after a write that throws nothing: the options of the mask as
-- they were written, the others as the reading object held them, and the reader stops where the
-- writer did.
pub read_settings-write_settings :
    (locale : Locale) (held s : Settings) (before after : SinkStream)
    → SettingsFit locale s
    → (test s.type_bitset gamepad && (test s.type_bitset macros || test s.type_bitset value))
      ≡ false
    → IsWithin before
    → write_settings locale s before ≡ some after
    → read_settings locale held (reread before after) ≡ some (merged_settings held s, after)
read_settings-write_settings locale held s before after fit alone within written =
    read_back (settings_codes locale held s fit alone) before after within written

-- Whatever set of skills is written to a sink without an exception or a failed assertion is read
-- back from what the sink holds, its game mode included, which is sent as four bytes.
pub read_skill_set-write_skill_set :
    (v : SkillSet) (before after : SinkStream)
    → IsWithin before
    → write_skill_set v before ≡ some after
    → read_skill_set (reread before after) ≡ some (v, after)
read_skill_set-write_skill_set v before after within written =
    read_back (skill_set_codes v (write_skill_set-supported v before after written)) before after
      within written
