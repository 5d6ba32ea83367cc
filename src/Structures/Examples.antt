-- ===== src/Structures/Examples.antt =====
-- Concrete structures.
use alicia_server.Common.{
  ℕ, zero, suc, ◌≡◌, refl, ap, true, false, ◌&&◌, ◌||◌, Option, none, some, List, [], ◌∷◌, length,
  ◌%◌, arith,
}
use alicia_server.Stream.{
  SinkStream, SourceStream, ◌>>◌, ◌>>=◌, write_bytes, write_loop, set_at, skip, pure, read_bytes,
}
use alicia_server.Stream.Words.{Word, cast, from_le, le_bytes, le_value, write_word, read_word}
use alicia_server.Stream.Strings.{String, Locale, write_string, write_encoded, write_chars}
use alicia_server.Stream.Lists.{write_counted, write_all, read_times, read_counted}
use alicia_server.Stream.Text.{Transcodes}
use alicia_server.Structures.Goods.{write_item}
use alicia_server.Structures.Character.{Character, write_character}
use alicia_server.Structures.Horse as Horses
use alicia_server.Structures.Character as Characters
use alicia_server.Structures.Horse.{Horse, write_horse, read_horse}
use alicia_server.Structures.Ranch.{Guild, Pet, write_guild, write_rent, write_pet}
use alicia_server.Structures.RanchCharacter.{
  RanchCharacter, write_ranch_character, read_ranch_character,
}
use alicia_server.Structures.Options.{
  Settings, write_settings, read_settings, write_options, write_setting, test, read_options,
  read_setting, read_settings_bindings,
}
use alicia_server.Structures.Options.RoundTrip.{SettingsFit, merged_settings}
use alicia_server.Structures.Options.Mismatch.{read_settings-write_settings-gamepad}
use alicia_server.Structures.Skills.{SkillSet, write_skill_set, write_skills, is_supported}
use alicia_server.Structures.RoundTrip.{
  reread, read_horse-write_horse, read_ranch_character-write_ranch_character,
  read_settings-write_settings,
}

-- An encoding that leaves every string as it is.
abbrev ascii : Locale
ascii = record { from_utf8 = λ s. some s; to_utf8 = λ s. some s }

abbrev zeros : ℕ → List ℕ
zeros zero = []
zeros (suc n) = 0 ∷ zeros n

abbrev buffer : SinkStream
buffer = record { storage = zeros 400; cursor = 3 }

abbrev sent : Option SinkStream → SinkStream
sent none = buffer
sent (some s) = s

abbrev n : {k : ℕ} → ℕ → Word k
n {k} v = cast k v

-- "Ab"
abbrev name : String
name = cast 1 65 ∷ cast 1 98 ∷ []

name_plain : Transcodes ascii name
unfolding cast from_le le_value le_bytes
name_plain = record {
  encoded = name;
  sent = refl;
  received = refl;
  no_nul = (omega arith, (omega arith, tt));
}

abbrev horse : Horse
horse = record {
  uid = n 1;
  tid = n 20001;
  name = name;
  parts = record { skin_id = n 2; mane_id = n 3; tail_id = n 4; face_id = n 5 };
  appearance = record {
    scale = n 4;
    leg_length = n 4;
    leg_volume = n 5;
    body_length = n 3;
    body_volume = n 4;
  };
  stats = record { agility = n 9; ambition = n 9; rush = n 9; endurance = n 9; courage = n 9 };
  rating = n 0;
  clazz = n 1;
  val0 = n 1;
  grade = n 1;
  growth_points = n 300;
  mount_condition = record {
    stamina = n 3500;
    charm_point = n 1000;
    friendly_point = n 1000;
    injury_point = n 0;
    plenitude = n 1000;
    body_dirtiness = n 0;
    mane_dirtiness = n 0;
    tail_dirtiness = n 0;
    attachment = n 1000;
    boredom = n 21;
    body_polish = n 0;
    mane_polish = n 0;
    tail_polish = n 0;
    stop_amends_point = n 0;
  };
  vals1 = record {
    type = n 0;
    val1 = n 0;
    date_of_birth = n 70000;
    tendency = n 2;
    spirit = n 0;
    class_progression = n 0;
    val5 = n 0;
    potential_level = n 0;
    potential_type = n 0;
    potential_value = n 0;
    val9 = n 0;
    luck = n 0;
    injury = n 17;
    val12 = n 0;
    fatigue = n 0;
    val14 = n 0;
    emblem = n 0;
  };
  mastery = record {
    spur_magic_count = n 0;
    jump_count = n 0;
    sliding_time = n 0;
    gliding_distance = n 0;
  };
  val16 = n 0;
  visual_cleanliness_bitset = n 1024;
}

horse_written : write_horse ascii horse buffer ≡ some (sent (write_horse ascii horse buffer))
unfolding write_horse Horses.write_parts Horses.write_appearance Horses.write_stats
    Horses.write_mastery ◌>>◌ skip write_bytes write_loop set_at write_word write_string
    write_encoded write_chars cast from_le le_value le_bytes
horse_written = refl

read_horse-write_horse_example :
    read_horse ascii (reread buffer (sent (write_horse ascii horse buffer)))
    ≡ some (horse, sent (write_horse ascii horse buffer))
read_horse-write_horse_example =
    read_horse-write_horse ascii horse buffer (sent (write_horse ascii horse buffer)) name_plain
      (omega arith) horse_written

abbrev guild : Guild
guild = record {
  uid = n 1;
  val1 = n 0;
  val2 = n 0;
  name = name;
  guild_role = n 10;
  val5 = n 0;
  val6 = n 0;
}

abbrev pet : Pet
pet = record { pet_id = n 1; member2 = n 0; name = name; birth_date = n 0 }

abbrev character : Character
character = record {
  parts = record { char_id = n 10; mouth_serial_id = n 1; face_serial_id = n 1; val0 = n 0 };
  appearance = record {
    voice_id = n 1;
    head_size = n 1;
    height = n 1;
    thigh_volume = n 1;
    leg_volume = n 1;
    emblem_id = n 0;
  };
}

abbrev rider : RanchCharacter
rider = record {
  uid = n 5;
  name = name;
  role = n 0;
  age = n 20;
  gender = n 1;
  introduction = name;
  character = character;
  mount = horse;
  character_equipment = record { uid = n 1; tid = n 30001; expires_at = n 0; count = n 1 } ∷ [];
  guild = guild;
  oid = n 3;
  is_busy = n 0;
  unk3 = n 0;
  rent = record { mount_uid = n 0; val1 = n 0; val2 = n 0 };
  pet = pet;
  unk4 = n 0;
  unk5 = n 0;
}

rider_written :
    write_ranch_character ascii rider buffer
    ≡ some (sent (write_ranch_character ascii rider buffer))
unfolding write_ranch_character write_guild write_rent write_pet write_character
    Characters.write_parts Characters.write_appearance write_item write_counted write_all
    write_horse Horses.write_parts Horses.write_appearance Horses.write_stats Horses.write_mastery
    ◌>>◌ skip write_bytes write_loop set_at write_word write_string write_encoded write_chars cast
    from_le le_value le_bytes
rider_written = refl

read_ranch_character-write_ranch_character_example :
    read_ranch_character ascii (reread buffer (sent (write_ranch_character ascii rider buffer)))
    ≡ some (rider, sent (write_ranch_character ascii rider buffer))
read_ranch_character-write_ranch_character_example =
    read_ranch_character-write_ranch_character ascii rider buffer
      (sent (write_ranch_character ascii rider buffer)) name_plain name_plain name_plain
      (omega arith) name_plain name_plain (omega arith) rider_written

-- The bits of the keyboard and the value: 2 ^ 0 + 2 ^ 4.
abbrev keys : Settings
keys = record {
  type_bitset = n 17;
  keyboard_options = record {
    bindings = record { type = n 1; unused = n 0; primary = n 37; secondary = n 65 } ∷ [];
  };
  macro_options = record { macros = name ∷ name ∷ name ∷ name ∷ name ∷ name ∷ name ∷ name ∷ [] };
  value_option = n 100;
  gamepad_options = record { bindings = [] };
  age = n 20;
  hide_age = n 1;
}

keys_fit : SettingsFit ascii keys
keys_fit = record {
  few_keys = omega arith;
  few_buttons = omega arith;
  eight = refl;
  plain = (
    name_plain,
    (
      name_plain,
      (name_plain, (name_plain, (name_plain, (name_plain, (name_plain, (name_plain, tt)))))),
    ),
  );
}

keys_written : write_settings ascii keys buffer ≡ some (sent (write_settings ascii keys buffer))
unfolding write_settings write_options write_setting test write_counted write_all ◌>>◌ skip
    write_bytes write_loop set_at write_word write_string write_encoded write_chars cast from_le
    le_value le_bytes
keys_written = refl

no_gamepad : test keys.type_bitset 5 ≡ false
unfolding test cast from_le le_value le_bytes
no_gamepad = refl

read_settings-write_settings_example :
    read_settings ascii keys (reread buffer (sent (write_settings ascii keys buffer)))
    ≡ some (merged_settings keys keys, sent (write_settings ascii keys buffer))
read_settings-write_settings_example =
    read_settings-write_settings ascii keys keys buffer (sent (write_settings ascii keys buffer))
      keys_fit (ap (λ b. b && (test keys.type_bitset 3 || test keys.type_bitset 4)) no_gamepad)
      (omega arith) keys_written

-- The bits of the value and the gamepad: 2 ^ 4 + 2 ^ 5.
abbrev buttons : Settings
buttons = record {
  type_bitset = n 48;
  keyboard_options = record { bindings = [] };
  macro_options = record { macros = [] };
  value_option = n 0;
  gamepad_options = record {
    bindings = record { type = n 1; unused = n 0; primary = n 2; secondary = n 3 } ∷ [];
  };
  age = n 20;
  hide_age = n 1;
}

buttons_bits :
    (test buttons.type_bitset 0 ≡ false)
    × (test buttons.type_bitset 3 ≡ false)
    × (test buttons.type_bitset 4 ≡ true)
    × (test buttons.type_bitset 5 ≡ true)
unfolding test cast from_le le_value le_bytes
buttons_bits = (refl, refl, refl, refl)

buttons_written :
    write_settings ascii buttons buffer ≡ some (sent (write_settings ascii buttons buffer))
unfolding write_settings write_options write_setting test write_counted write_all ◌>>◌ skip
    write_bytes write_loop set_at write_word cast from_le le_value le_bytes
buttons_written = refl

-- What Settings::Read makes of them.
abbrev got : Option (Settings × SourceStream) → Settings × SourceStream
got none = (buttons, buffer)
got (some r) = r

abbrev buttons_reread : Settings × SourceStream
buttons_reread =
    got (read_settings ascii buttons (reread buffer (sent (write_settings ascii buttons buffer))))

buttons_read :
    read_settings ascii buttons (reread buffer (sent (write_settings ascii buttons buffer)))
    ≡ some (buttons_reread.0, buttons_reread.1)
unfolding write_settings write_options write_setting test write_counted write_all ◌>>◌ skip
    write_bytes write_loop set_at write_word cast from_le le_value le_bytes read_settings
    read_options read_settings_bindings read_counted read_times read_setting ◌>>=◌ pure read_word
    read_bytes
buttons_read = refl

read_settings-write_settings-gamepad_example :
    length buttons_reread.0.gamepad_options.bindings ≡ buttons.value_option.value % 256
read_settings-write_settings-gamepad_example =
    read_settings-write_settings-gamepad ascii buttons buttons buttons_reread.0 buffer
      (sent (write_settings ascii buttons buffer)) buttons_reread.1 (omega arith) (omega arith)
      buttons_bits.0 buttons_bits.1 buttons_bits.2 buttons_bits.3 buttons_written buttons_read

abbrev skill_set : SkillSet
skill_set = record { set_id = n 1; gamemode = n 2; skills = n 7 ∷ n 9 ∷ [] }

skill_set_written :
    write_skill_set skill_set buffer ≡ some (sent (write_skill_set skill_set buffer))
unfolding write_skill_set write_skills is_supported write_counted write_all ◌>>◌ skip write_bytes
    write_loop set_at write_word cast from_le le_value le_bytes
skill_set_written = refl
