-- ===== src/Structures/Options/RoundTrip.antt =====
-- Settings that are written and read, and those that are not read as they were written.
use alicia_server.Common.{
  ◌≤◌, ◌≡◌, subst, Bool, true, false, ◌&&◌, ◌||◌, List, [], ◌∷◌, length, All, if◌then◌else◌,
}
use alicia_server.Stream.{Put, Get, ◌>>◌, ◌>>=◌}
use alicia_server.Stream.Strings.{String, Locale, write_string, read_string}
use alicia_server.Stream.Lists.{write_counted, read_times, write_all}
use alicia_server.Stream.Codes.{Codes, chain, ending, unwritten, unread}
use alicia_server.Stream.Fields.{word, all, counted, every}
use alicia_server.Stream.Text.{Transcodes, text}
use alicia_server.Structures.Options.{
  Binding, InputOptions, MacroOptions, Settings, write_binding, read_binding, write_input_options,
  read_input_options, write_setting, read_setting, read_settings_bindings, write_macro_options,
  read_macro_options, write_options, read_options, write_settings, read_settings, test, write_if,
  read_if, keyboard, macros, value, gamepad,
}

binding_codes : (v : Binding) → Codes (write_binding v) read_binding v
unfolding write_binding read_binding
binding_codes v =
    chain _ (word v.secondary)
      (chain _ (word v.type) (chain _ (word v.unused) (ending _ (word v.primary))))

setting_codes : (v : Binding) → Codes (write_setting v) read_setting v
unfolding write_setting read_setting
setting_codes v =
    chain _ (word v.type)
      (chain _ (word v.unused) (chain _ (word v.primary) (ending _ (word v.secondary))))

-- At most 255 bindings are written and read in the order of their own functions.
pub input_options_codes :
    (v : InputOptions)
    → length v.bindings ≤ 255
    → Codes (write_input_options v) read_input_options v
unfolding write_input_options read_input_options
input_options_codes v short =
    ending _ (counted write_binding read_binding v.bindings short (every binding_codes v.bindings))

pub settings_bindings_codes :
    (v : InputOptions)
    → length v.bindings ≤ 255
    → Codes (write_counted write_setting v.bindings) read_settings_bindings v
unfolding read_settings_bindings
settings_bindings_codes v short =
    ending _ (counted write_setting read_setting v.bindings short (every setting_codes v.bindings))

module _ (locale : Locale) where
  transcoded :
      (vs : List String)
      → All (Transcodes locale) vs
      → All (λ v. Codes (write_string locale v) (read_string locale) v) vs
  transcoded [] h = tt
  transcoded (v ∷ vs) h = (text locale v h.0, transcoded vs h.1)

  macro_options_codes :
      (v : MacroOptions)
      → length v.macros ≡ 8
      → All (Transcodes locale) v.macros
      → Codes (write_macro_options locale v) (read_macro_options locale) v
  unfolding write_macro_options read_macro_options
  macro_options_codes v eight plain = ending _ (
      subst
        (λ n.
          Codes (write_all (write_string locale) v.macros) (read_times n (read_string locale))
            v.macros)
        eight (all (write_string locale) (read_string locale) v.macros (transcoded v.macros plain)))

-- An option that is written and read if its bit is set.
optional :
    {A B : Type 0} {p q : Put} {g : Get A} (set : Bool) (k : A → Get B) {a : A} (held : A) {w : B}
    → Codes p g a
    → Codes q (k (if set then a else held)) w
    → Codes (write_if set p >> q) (read_if set held g >>= k) w
optional true k held c d = chain k c d
optional false k held c d = unwritten (unread k d)

-- What an object holds once settings are read into it: the options whose bits are set, the
-- others as before.
abbrev pub merged : (k m v g : Bool) → Settings → Settings → Settings
merged k m v g held s = record {
  type_bitset = s.type_bitset;
  keyboard_options = if k then s.keyboard_options else held.keyboard_options;
  macro_options = if m then s.macro_options else held.macro_options;
  value_option = if v then s.value_option else held.value_option;
  gamepad_options = if g then s.gamepad_options else held.gamepad_options;
  age = s.age;
  hide_age = s.hide_age;
}

abbrev pub merged_settings : Settings → Settings → Settings
merged_settings held s =
    let bits = s.type_bitset in
    merged (test bits keyboard) (test bits macros) (test bits value) (test bits gamepad) held s

-- The strings can be sent, the array has its eight, and no count passes a uint8_t.
pub record SettingsFit (locale : Locale) (s : Settings) : Type 0 where
  pub few_keys : length s.keyboard_options.bindings ≤ 255
  pub few_buttons : length s.gamepad_options.bindings ≤ 255
  pub eight : length s.macro_options.macros ≡ 8
  pub plain : All (Transcodes locale) s.macro_options.macros

module _ (locale : Locale) (held s : Settings) (fit : SettingsFit locale s) where
  options_codes :
      (k m v g : Bool)
      → (g && (m || v)) ≡ false
      → Codes
          (write_options locale k m v g s)
          (read_options locale k m v g s.type_bitset held)
          (merged k m v g held s)
  unfolding write_options read_options
  options_codes k m v false h =
      optional k _ held.keyboard_options (settings_bindings_codes s.keyboard_options fit.few_keys) (
        unread _ (
          optional m _ held.macro_options
            (macro_options_codes locale s.macro_options fit.eight fit.plain)
            (optional v _ held.value_option (word s.value_option)
              (unwritten (chain _ (word s.age) (ending _ (word s.hide_age)))))))
  options_codes k false false true h =
      optional k _ held.keyboard_options (settings_bindings_codes s.keyboard_options fit.few_keys) (
        unwritten (
          unwritten (
            chain _ (settings_bindings_codes s.gamepad_options fit.few_buttons)
              (unread _ (unread _ (chain _ (word s.age) (ending _ (word s.hide_age))))))))
  options_codes k true v true h = absurd (cc)
  options_codes k false true true h = absurd (cc)

  pub settings_codes :
      let bits = s.type_bitset in
      (test bits gamepad && (test bits macros || test bits value)) ≡ false
      → Codes (write_settings locale s) (read_settings locale held) (merged_settings held s)
  unfolding write_settings read_settings
  settings_codes h = chain _ (word s.type_bitset) (options_codes _ _ _ _ h)
