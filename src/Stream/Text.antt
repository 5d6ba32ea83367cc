-- ===== src/Stream/Text.antt =====
-- Strings of libserver/util/Stream that are written and read again.
use alicia_server.Common.{
  ℕ, zero, suc, ◌<◌, ◌≡◌, ◌≢◌, refl, sym, ap, ◌∙◌, subst, false, none, some, List, [], ◌∷◌, ◌++◌,
  length, All, arith, length-append, append_assoc, append-nil, ◌==◌, if◌then◌else◌,
}
use alicia_server.Stream.{SinkStream, Put, ◌>>◌, skip, pure, and_then, advance}
use alicia_server.Stream.Words.{U8, le_bytes, write_word, read_u8, cast}
use alicia_server.Stream.Strings.{
  String, Locale, write_encoded, read_encoded, write_chars, read_chars, write_string, read_string,
}
use alicia_server.Stream.Codes.{
  Codes, Emits, Parses, Emits-chain, Parses-chain, >>=_some, drop-IsWithin,
}
use alicia_server.Stream.Fields.{write_word-Emits, read_word-Parses, length-le_bytes, cast-value}

-- A string that the client's encoding can hold, and gives back, in characters other than NUL.
pub record Transcodes (locale : Locale) (value : String) : Type 0 where
  pub encoded : String
  pub sent : locale.from_utf8 value ≡ some encoded
  pub received : locale.to_utf8 encoded ≡ some value
  pub no_nul : All (λ (c : U8). c.value ≢ 0) encoded

>>_assoc : (p q r : Put) (s : SinkStream) → ((p >> q) >> r) s ≡ (p >> (q >> r)) s
unfolding ◌>>◌
>>_assoc p q r s = elim (p s) as (λ o. and_then (and_then o q) r ≡ and_then o (q >> r)) [
  | none ↦ refl
  | some _ ↦ refl
]

not_nul : (c : U8) → c.value ≢ 0 → (c.value == 0) ≡ false
not_nul c h = ground arith

nul : (cast 1 0).value ≡ 0
nul = cast-value 1 0 (omega arith)

-- The bytes of a string, and its NUL.
abbrev string_bytes : String → List ℕ
string_bytes [] = le_bytes 1 (cast 1 0).value
string_bytes (c ∷ cs) = le_bytes 1 c.value ++ string_bytes cs

chars-Emits : (cs : String) → Emits (write_chars cs >> write_word (cast 1 0)) (string_bytes cs)
unfolding write_chars ◌>>◌ skip
chars-Emits [] s h = write_word-Emits (cast 1 0) s h
chars-Emits (c ∷ cs) s h =
    >>_assoc (write_word c) (write_chars cs) (write_word (cast 1 0)) s
    ∙ Emits-chain (write_word c) (write_chars cs >> write_word (cast 1 0)) (le_bytes 1 c.value)
        (string_bytes cs) (write_word-Emits c) (chars-Emits cs) s h

-- A string is read by a loop that is given more rounds than it has characters.
chars-Parses :
    (fuel : ℕ) (buffer cs : String)
    → length cs < fuel
    → All (λ (c : U8). c.value ≢ 0) cs
    → Parses (read_chars fuel buffer) (string_bytes cs) (buffer ++ cs)
unfolding read_chars pure
chars-Parses zero buffer cs h plain s rest inside e = absurd (omega arith)
chars-Parses (suc fuel) buffer [] h plain s rest inside e =
    >>=_some read_u8 _ s _ (cast 1 0) (read_word-Parses (cast 1 0) s rest inside e)
    ∙ ap
        (λ b.
          (if b then pure buffer else read_chars fuel (buffer ++ (cast 1 0 ∷ [])))
            (advance (length (string_bytes [])) s))
        (ap (λ n. n == 0) nul)
    ∙ ap (λ t. some (t, advance (length (string_bytes [])) s)) (sym (append-nil buffer))
chars-Parses (suc fuel) buffer (c ∷ cs) h plain s rest inside e =
    Parses-chain read_u8 _ (le_bytes 1 c.value) (string_bytes cs) c _ (read_word-Parses c)
      (subst
        (λ b.
          Parses (if b then pure buffer else read_chars fuel (buffer ++ (c ∷ []))) (string_bytes cs)
            (buffer ++ (c ∷ cs)))
        (sym (not_nul c plain.0))
        (subst (Parses (read_chars fuel (buffer ++ (c ∷ []))) (string_bytes cs))
          (append_assoc buffer (c ∷ []) cs)
          (chars-Parses fuel (buffer ++ (c ∷ [])) cs (omega arith) plain.1)))
      s rest inside e

length-string_bytes : (cs : String) → length (string_bytes cs) ≡ suc (length cs)
length-string_bytes [] = length-le_bytes 1 (cast 1 0).value
length-string_bytes (c ∷ cs) = omega (
  arith,
  length-append (le_bytes 1 c.value) (string_bytes cs),
  length-le_bytes 1 c.value,
  length-string_bytes cs,
)

-- A string that the encoding can hold is written and read.
pub text :
    (locale : Locale) (value : String)
    → Transcodes locale value
    → Codes (write_string locale value) (read_string locale) value
unfolding write_string read_string write_encoded read_encoded pure
text locale value t = record {
  bytes = string_bytes t.encoded;
  emits = λ s h. ap (λ o. write_encoded o s) t.sent ∙ chars-Emits t.encoded s h;
  parses = λ s rest h e.
      >>=_some (read_chars (suc (length s.storage)) []) _ s _ t.encoded (
        chars-Parses (suc (length s.storage)) [] t.encoded
          (omega (
            arith,
            length-string_bytes t.encoded,
            drop-IsWithin (string_bytes t.encoded) rest s.cursor s.storage h e,
          ))
          t.no_nul s rest h e)
      ∙ ap (λ o. read_encoded o (advance (length (string_bytes t.encoded)) s)) t.received;
}
