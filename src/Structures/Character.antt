-- ===== src/Structures/Character.antt =====
-- A character of libserver/network/command/proto/CommonStructureDefinitions.
use alicia_server.Stream.{Put, Get, ◌>>◌, ◌>>=◌, pure}
use alicia_server.Stream.Words.{U8, U16, write_word, read_u8, read_u16}
use alicia_server.Stream.Codes.{Codes, chain, ending}
use alicia_server.Stream.Fields.{word}

pub record Parts : Type 0 where
  pub char_id : U8
  pub mouth_serial_id : U8
  pub face_serial_id : U8
  pub val0 : U8

unfoldable pub write_parts : Parts → Put
write_parts v =
    write_word v.char_id
    >> write_word v.mouth_serial_id
    >> write_word v.face_serial_id
    >> write_word v.val0

unfoldable pub read_parts : Get Parts
read_parts = do
  char_id ← read_u8
  mouth_serial_id ← read_u8
  face_serial_id ← read_u8
  val0 ← read_u8
  pure (record {
    char_id = char_id;
    mouth_serial_id = mouth_serial_id;
    face_serial_id = face_serial_id;
    val0 = val0;
  })

pub parts_codes : (v : Parts) → Codes (write_parts v) (read_parts) v
unfolding write_parts read_parts
parts_codes v =
    chain _ (word v.char_id)
      (chain _ (word v.mouth_serial_id) (chain _ (word v.face_serial_id) (ending _ (word v.val0))))

pub record Appearance : Type 0 where
  pub voice_id : U16
  pub head_size : U16
  pub height : U16
  pub thigh_volume : U16
  pub leg_volume : U16
  pub emblem_id : U16

unfoldable pub write_appearance : Appearance → Put
write_appearance v =
    write_word v.voice_id
    >> write_word v.head_size
    >> write_word v.height
    >> write_word v.thigh_volume
    >> write_word v.leg_volume
    >> write_word v.emblem_id

unfoldable pub read_appearance : Get Appearance
read_appearance = do
  voice_id ← read_u16
  head_size ← read_u16
  height ← read_u16
  thigh_volume ← read_u16
  leg_volume ← read_u16
  emblem_id ← read_u16
  pure (record {
    voice_id = voice_id;
    head_size = head_size;
    height = height;
    thigh_volume = thigh_volume;
    leg_volume = leg_volume;
    emblem_id = emblem_id;
  })

pub appearance_codes : (v : Appearance) → Codes (write_appearance v) (read_appearance) v
unfolding write_appearance read_appearance
appearance_codes v = chain _ (word v.voice_id) (
    chain _ (word v.head_size) (
      chain _ (word v.height) (
        chain _ (word v.thigh_volume) (chain _ (word v.leg_volume) (ending _ (word v.emblem_id))))))

pub record Character : Type 0 where
  pub parts : Parts
  pub appearance : Appearance

unfoldable pub write_character : Character → Put
write_character v = write_parts v.parts >> write_appearance v.appearance

unfoldable pub read_character : Get Character
read_character = do
  parts ← read_parts
  appearance ← read_appearance
  pure (record { parts = parts; appearance = appearance })

pub character_codes : (v : Character) → Codes (write_character v) (read_character) v
unfolding write_character read_character
character_codes v = chain _ (parts_codes v.parts) (ending _ (appearance_codes v.appearance))
