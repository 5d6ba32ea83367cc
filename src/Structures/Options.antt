-- ===== src/Structures/Options.antt =====
-- Settings of libserver/network/command/proto/CommonStructureDefinitions: the options that a
-- character keeps, each behind a bit of a mask. An array of eight is a list.
pub mod RoundTrip
pub mod Mismatch
use alicia_server.Common.{ℕ, ◌/◌, ◌%◌, ◌^◌, Bool, true, false, List, ◌==◌, if◌then◌else◌}
use alicia_server.Stream.{Put, Get, ◌>>◌, ◌>>=◌, skip, pure}
use alicia_server.Stream.Words.{U8, U32, write_word, read_u8, read_u32}
use alicia_server.Stream.Strings.{String, Locale, write_string, read_string}
use alicia_server.Stream.Lists.{write_all, read_times, write_counted, read_counted}

-- KeyboardOptions::Option and GamepadOptions::Option, whose keys are buttons.
pub record Binding : Type 0 where
  pub type : U8
  pub unused : U8
  pub primary : U8
  pub secondary : U8

-- The order of KeyboardOptions::Option::Write and GamepadOptions::Option::Write.
unfoldable pub write_binding : Binding → Put
write_binding v =
    write_word v.secondary >> write_word v.type >> write_word v.unused >> write_word v.primary

unfoldable pub read_binding : Get Binding
read_binding = do
  secondary ← read_u8
  type ← read_u8
  unused ← read_u8
  primary ← read_u8
  pure (record { type = type; unused = unused; primary = primary; secondary = secondary })

-- The bindings of KeyboardOptions and of GamepadOptions.
pub record InputOptions : Type 0 where
  pub bindings : List Binding

unfoldable pub write_input_options : InputOptions → Put
write_input_options v = write_counted write_binding v.bindings

unfoldable pub read_input_options : Get InputOptions
read_input_options = do bindings ← read_counted read_binding; pure (record { bindings = bindings })

-- The order of the loops in Settings::Write and Settings::Read, which is another.
unfoldable pub write_setting : Binding → Put
write_setting v =
    write_word v.type >> write_word v.unused >> write_word v.primary >> write_word v.secondary

unfoldable pub read_setting : Get Binding
read_setting = do
  type ← read_u8
  unused ← read_u8
  primary ← read_u8
  secondary ← read_u8
  pure (record { type = type; unused = unused; primary = primary; secondary = secondary })

unfoldable pub read_settings_bindings : Get InputOptions
read_settings_bindings = do
  bindings ← read_counted read_setting
  pure (record { bindings = bindings })

pub record MacroOptions : Type 0 where
  pub macros : List String

pub record Settings : Type 0 where
  pub type_bitset : U32
  pub keyboard_options : InputOptions
  pub macro_options : MacroOptions
  pub value_option : U32
  pub gamepad_options : InputOptions
  pub age : U8
  pub hide_age : U8

-- Settings::Type
abbrev pub keyboard : ℕ
keyboard = 0

abbrev pub macros : ℕ
macros = 3

abbrev pub value : ℕ
value = 4

abbrev pub gamepad : ℕ
gamepad = 5

-- `typeBitset.test`
unfoldable pub test : U32 → ℕ → Bool
test bits type = bits.value / 2 ^ type % 2 == 1

-- An option is written if its bit is set; one that is not read keeps what the object held.
abbrev pub write_if : Bool → Put → Put
write_if set p = if set then p else skip

abbrev pub read_if : {A : Type 0} → Bool → A → Get A → Get A
read_if set held g = if set then g else pure held

module _ (locale : Locale) where
  unfoldable pub write_macro_options : MacroOptions → Put
  write_macro_options v = write_all (write_string locale) v.macros

  unfoldable pub read_macro_options : Get MacroOptions
  read_macro_options = do
    macros ← read_times 8 (read_string locale)
    pure (record { macros = macros })

  -- What follows the mask, by its bits for the keyboard, the macros, the value and the gamepad.
  unfoldable pub write_options : (k m v g : Bool) → Settings → Put
  write_options k m v g s =
      write_if k (write_counted write_setting s.keyboard_options.bindings)
      >> write_if m (write_macro_options s.macro_options)
      >> write_if v (write_word s.value_option)
      >> write_if g (write_counted write_setting s.gamepad_options.bindings)
      >> write_word s.age
      >> write_word s.hide_age

  unfoldable pub read_options : (k m v g : Bool) → U32 → Settings → Get Settings
  read_options k m v g bits held = do
    keyboard_options ← read_if k held.keyboard_options read_settings_bindings
    gamepad_options ← read_if g held.gamepad_options read_settings_bindings
    macro_options ← read_if m held.macro_options read_macro_options
    value_option ← read_if v held.value_option read_u32
    age ← read_u8
    hide_age ← read_u8
    pure (record {
      type_bitset = bits;
      keyboard_options = keyboard_options;
      macro_options = macro_options;
      value_option = value_option;
      gamepad_options = gamepad_options;
      age = age;
      hide_age = hide_age;
    })

  unfoldable pub write_settings : Settings → Put
  write_settings s =
      let bits = s.type_bitset in
      write_word bits
      >> write_options (test bits keyboard) (test bits macros) (test bits value) (test bits gamepad)
          s

  -- Settings::Read, into an object that holds these settings.
  unfoldable pub read_settings : Settings → Get Settings
  read_settings held = do
    bits ← read_u32
    read_options (test bits keyboard) (test bits macros) (test bits value) (test bits gamepad) bits
        held
