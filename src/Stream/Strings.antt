-- ===== src/Stream/Strings.antt =====
-- Strings in a stream: `Write` and `Read` of libserver/util/Stream.cpp. A string is written in the
-- encoding of the client and ends with a NUL.
use alicia_server.Common.{
  ℕ, zero, suc, Option, none, some, List, [], ◌∷◌, ◌++◌, ◌==◌, if◌then◌else◌, length,
}
use alicia_server.Stream.{Put, Get, skip, ◌>>◌, ◌>>=◌, pure}
use alicia_server.Stream.Words.{U8, write_word, read_u8, cast}

abbrev pub String : Type 0
String = List U8

-- The conversions of libserver/util/Locale, which the ICU library does; `none` is an exception.
pub record Locale : Type 0 where
  pub from_utf8 : String → Option String
  pub to_utf8 : String → Option String

unfoldable pub write_chars : String → Put
write_chars [] = skip
write_chars (c ∷ cs) = write_word c >> write_chars cs

-- The loop runs at most once per byte of the storage, since `Read` throws at its end.
unfoldable pub read_chars : ℕ → String → Get String
read_chars zero buffer = λ _. none
read_chars (suc fuel) buffer =
    read_u8 >>= λ c. if c.value == 0 then pure buffer else read_chars fuel (buffer ++ (c ∷ []))

unfoldable pub write_encoded : Option String → Put
write_encoded none = λ _. none
write_encoded (some buffer) = write_chars buffer >> write_word (cast 1 0)

unfoldable pub read_encoded : Option String → Get String
read_encoded none = λ _. none
read_encoded (some value) = pure value

module _ (locale : Locale) where
  unfoldable pub write_string : String → Put
  write_string value = write_encoded (locale.from_utf8 value)

  unfoldable pub read_string : Get String
  read_string s =
      (read_chars (suc (length s.storage)) [] >>= λ buffer. read_encoded (locale.to_utf8 buffer)) s
