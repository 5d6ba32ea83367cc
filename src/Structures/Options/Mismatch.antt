-- ===== src/Structures/Options/Mismatch.antt =====
-- Settings::Read takes the gamepad before the macros and the value, and Settings::Write after them.
use alicia_server.Common.{
  ℕ, zero, suc, ◌+◌, ◌%◌, ◌≤◌, ◌≡◌, ◌↔◌, refl, sym, ap, ◌∙◌, subst, Bool, true, false, Option, none,
  some, List, ◌++◌, length, drop, drop-drop, append_assoc, drop_length-append,
}
use alicia_server.Stream.{
  SinkStream, SourceStream, IsWithin, Get, ◌>>◌, ◌>>=◌, skip, pure, go_on, advance,
}
use alicia_server.Stream.Words.{U8, U32, le_bytes, write_word, read_u8, read_u32}
use alicia_server.Stream.Strings.{Locale}
use alicia_server.Stream.Lists.{read_times, read_counted, write_counted}
use alicia_server.Stream.Codes.{Codes, Emits, Emits-chain, chain, >>=_some, written, drop-IsWithin}
use alicia_server.Stream.Fields.{word, write_word-Emits, read_word-Parses, first_byte}
use alicia_server.Structures.Options.{
  InputOptions, Settings, write_setting, read_setting, read_settings_bindings, write_options,
  read_options, write_settings, read_settings, test, keyboard, macros, value, gamepad,
}
use alicia_server.Structures.Options.RoundTrip.{settings_bindings_codes}

-- A chain of reads that does not throw passes through its first read.
go_on-some :
    {A B : Type 0} (o : Option (A × SourceStream)) (k : A → Get B) (b : B) (end : SourceStream)
    → go_on o k ≡ some (b, end)
    → (a : A) × (s : SourceStream) × (o ≡ some (a, s)) × (k a s ≡ some (b, end))
go_on-some none k b end e = absurd (cc)
go_on-some (some (a, s)) k b end e = (a, s, refl, e)

some_fst :
    {A : Type 0} {a b : A} {s t : SourceStream}
    → ◌≡◌ {A = Option (A × SourceStream)} (some (a, s)) (some (b, t))
    → a ≡ b
some_fst e = cc

read_times-length :
    {A : Type 0} (n : ℕ) (g : Get A) (s end : SourceStream) (xs : List A)
    → read_times n g s ≡ some (xs, end)
    → length xs ≡ n
unfolding read_times ◌>>=◌ pure
read_times-length zero g s end xs e = sym (ap length (some_fst e))
read_times-length (suc n) g s end xs e =
    let first = go_on-some (g s) _ xs end e in
    let more = go_on-some (read_times n g first.1) _ xs end first.3 in
    sym (ap length (some_fst more.3)) ∙ ap suc (read_times-length n g first.1 more.1 more.0 more.2)

with_flags :
    (P : Bool → Bool → Bool → Bool → Type 0) {k m v g : Bool}
    → k ≡ false
    → m ≡ false
    → v ≡ true
    → g ≡ true
    → P k m v g ↔ P false false true true
with_flags P {k} {m} {v} {g} hk hm hv hg = (
  λ x. subst (P false false true) hg (
      subst (λ t. P false false t g) hv
        (subst (λ t. P false t v g) hm (subst (λ t. P t m v g) hk x))),
  λ x.
      subst (λ t. P t m v g) (sym hk)
        (subst (λ t. P false t v g) (sym hm)
          (subst (λ t. P false false t g) (sym hv) (subst (P false false true) (sym hg) x))),
)

module _ (locale : Locale) (s : Settings) (few : length s.gamepad_options.bindings ≤ 255) where
  -- The gamepad, the age and the flag that hides it.
  tail :
      Codes
        (write_counted write_setting s.gamepad_options.bindings
          >> write_word s.age
          >> write_word s.hide_age)
        (read_settings_bindings >>= λ _. read_u8 >>= λ _. read_u8)
        s.hide_age
  tail =
      chain _ (settings_bindings_codes s.gamepad_options few)
        (chain _ (word s.age) (word s.hide_age))

  options-Emits :
      Emits
        (write_options locale false false true true s)
        (le_bytes 4 s.value_option.value ++ tail.bytes)
  unfolding write_options ◌>>◌ skip
  options-Emits =
      Emits-chain (write_word s.value_option) _ (le_bytes 4 s.value_option.value) tail.bytes
        (write_word-Emits s.value_option) tail.emits

read_settings_bindings-length :
    (n : U8) (s t end : SourceStream) (v : InputOptions)
    → read_u8 s ≡ some (n, t)
    → read_settings_bindings s ≡ some (v, end)
    → length v.bindings ≡ n.value
unfolding read_settings_bindings read_counted ◌>>=◌ pure
read_settings_bindings-length n s t end v first e =
    let all = go_on-some (read_counted read_setting s) _ v end e in
    let counted = ap (λ o. go_on o (λ k. read_times k.value read_setting)) (sym first) ∙ all.2 in
    sym (ap (λ (o : InputOptions). length o.bindings) (some_fst all.3))
    ∙ read_times-length n.value read_setting t all.1 all.0 counted

-- The reader of options with a value and a gamepad takes the gamepad from where it starts.
read_options-gamepad :
    (locale : Locale) (bits : U32) (held w : Settings) (n : U8) (s t end : SourceStream)
    → read_u8 s ≡ some (n, t)
    → read_options locale false false true true bits held s ≡ some (w, end)
    → length w.gamepad_options.bindings ≡ n.value
unfolding read_options ◌>>=◌ pure
read_options-gamepad locale bits held w n s t end first e =
    let buttons = go_on-some (read_settings_bindings s) _ w end e in
    let value = go_on-some (read_u32 buttons.1) _ w end buttons.3 in
    let age = go_on-some (read_u8 value.1) _ w end value.3 in
    let hide_age = go_on-some (read_u8 age.1) _ w end age.3 in
    sym (ap (λ (o : Settings). length o.gamepad_options.bindings) (some_fst hide_age.3))
    ∙ read_settings_bindings-length n s t buttons.1 buttons.0 first buttons.2

-- Behind the mask.
behind_mask :
    (bits : U32) (s : SourceStream) (rest : List ℕ)
    → IsWithin s
    → drop s.cursor s.storage ≡ le_bytes 4 bits.value ++ rest
    → (drop (s.cursor + length (le_bytes 4 bits.value)) s.storage ≡ rest)
      × (s.cursor + length (le_bytes 4 bits.value) ≤ length s.storage)
behind_mask bits s rest h e = (
  sym (drop-drop (length (le_bytes 4 bits.value)) s.cursor s.storage)
      ∙ ap (drop (length (le_bytes 4 bits.value))) e
      ∙ drop_length-append (le_bytes 4 bits.value) rest,
  drop-IsWithin (le_bytes 4 bits.value) rest s.cursor s.storage h e,
)

-- If the mask of settings has the value and the gamepad but neither the keyboard nor the macros,
-- and there are at most 255 bindings, then whenever the written settings are read back without an
-- exception, the gamepad has as many bindings as the low byte of the value option says.
pub read_settings-write_settings-gamepad :
    (locale : Locale) (held s w : Settings) (before after end : SinkStream)
    → IsWithin before
    → length s.gamepad_options.bindings ≤ 255
    → test s.type_bitset keyboard ≡ false
    → test s.type_bitset macros ≡ false
    → test s.type_bitset value ≡ true
    → test s.type_bitset gamepad ≡ true
    → write_settings locale s before ≡ some after
    → read_settings locale held (record { storage = after.storage; cursor = before.cursor })
      ≡ some (w, end)
    → length w.gamepad_options.bindings ≡ s.value_option.value % 256
unfolding write_settings read_settings
read_settings-write_settings-gamepad locale held s w before after end within few hk hm hv hg wrote
      read =
    let options =
      (with_flags (λ k m v g. Emits (write_options locale k m v g s) bytes) hk hm hv hg).1
        (options-Emits locale s few) in
    let there =
      written (write_settings locale s) (bits ++ bytes)
        (Emits-chain (write_word s.type_bitset) _ bits bytes (write_word-Emits s.type_bitset)
          options)
        before after within wrote in
    let mask = append_assoc bits bytes _ in
    let behind = behind_mask s.type_bitset source _ there.1 (there.0 ∙ mask) in
    let value = append_assoc (le_bytes 4 s.value_option.value) (tail locale s few).bytes _ in
    let count = first_byte s.value_option source' _ behind.1 (behind.0 ∙ value) in
    let options_read =
      (with_flags
          (λ k m v g. read_options locale k m v g s.type_bitset held source' ≡ some (w, end)) hk hm
          hv hg).0
        (sym (
            >>=_some read_u32 _ source source' s.type_bitset
              (read_word-Parses s.type_bitset source _ there.1 (there.0 ∙ mask)))
          ∙ read) in
    read_options-gamepad locale s.type_bitset held w count.0 source' _ end count.2 options_read
    ∙ count.1
  where
    bits : List ℕ
    bits = le_bytes 4 s.type_bitset.value

    bytes : List ℕ
    bytes = le_bytes 4 s.value_option.value ++ (tail locale s few).bytes

    source : SourceStream
    source = record { storage = after.storage; cursor = before.cursor }

    source' : SourceStream
    source' = advance (length bits) source
