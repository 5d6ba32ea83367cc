-- ===== src/Structures/RanchCharacter.antt =====
-- A character on a ranch, of libserver/network/command/proto/CommonStructureDefinitions.
use alicia_server.Stream.{Put, Get, ◌>>◌, ◌>>=◌, pure}
use alicia_server.Stream.Words.{U8, U16, U32, write_word, read_u8, read_u16, read_u32}
use alicia_server.Stream.Strings.{String, Locale, write_string, read_string}
use alicia_server.Stream.Codes.{Codes, chain, ending}
use alicia_server.Stream.Fields.{word}
use alicia_server.Stream.Text.{Transcodes, text}
use alicia_server.Common.{List, length, ◌≤◌}
use alicia_server.Stream.Lists.{write_counted, read_counted}
use alicia_server.Stream.Fields.{every, counted}
use alicia_server.Structures.Goods.{Item, write_item, read_item, item_codes}
use alicia_server.Structures.Horse.{Horse, write_horse, read_horse, horse_codes}
use alicia_server.Structures.Character.{Character, write_character, read_character, character_codes}
use alicia_server.Structures.Ranch.{
  Guild, write_guild, read_guild, guild_codes, Rent, write_rent, read_rent, rent_codes, Pet,
  write_pet, read_pet, pet_codes,
}

pub record RanchCharacter : Type 0 where
  pub uid : U32
  pub name : String
  pub role : U8
  pub age : U8
  pub gender : U8
  pub introduction : String
  pub character : Character
  pub mount : Horse
  pub character_equipment : List Item
  pub guild : Guild
  pub oid : U16
  pub is_busy : U8
  pub unk3 : U8
  pub rent : Rent
  pub pet : Pet
  pub unk4 : U8
  pub unk5 : U8

module _ (locale : Locale) where
  unfoldable pub write_ranch_character : RanchCharacter → Put
  write_ranch_character v =
      write_word v.uid
      >> write_string locale v.name
      >> write_word v.role
      >> write_word v.age
      >> write_word v.gender
      >> write_string locale v.introduction
      >> write_character v.character
      >> write_horse locale v.mount
      >> write_counted write_item v.character_equipment
      >> write_guild locale v.guild
      >> write_word v.oid
      >> write_word v.is_busy
      >> write_word v.unk3
      >> write_rent v.rent
      >> write_pet locale v.pet
      >> write_word v.unk4
      >> write_word v.unk5

  unfoldable pub read_ranch_character : Get RanchCharacter
  read_ranch_character = do
    uid ← read_u32
    name ← read_string locale
    role ← read_u8
    age ← read_u8
    gender ← read_u8
    introduction ← read_string locale
    character ← read_character
    mount ← read_horse locale
    character_equipment ← read_counted read_item
    guild ← read_guild locale
    oid ← read_u16
    is_busy ← read_u8
    unk3 ← read_u8
    rent ← read_rent
    pet ← read_pet locale
    unk4 ← read_u8
    unk5 ← read_u8
    pure (record {
      uid = uid;
      name = name;
      role = role;
      age = age;
      gender = gender;
      introduction = introduction;
      character = character;
      mount = mount;
      character_equipment = character_equipment;
      guild = guild;
      oid = oid;
      is_busy = is_busy;
      unk3 = unk3;
      rent = rent;
      pet = pet;
      unk4 = unk4;
      unk5 = unk5;
    })

  pub ranch_character_codes :
      (v : RanchCharacter)
      → Transcodes locale v.name
      → Transcodes locale v.introduction
      → Transcodes locale v.mount.name
      → length v.character_equipment ≤ 255
      → Transcodes locale v.guild.name
      → Transcodes locale v.pet.name
      → Codes (write_ranch_character v) (read_ranch_character) v
  unfolding write_ranch_character read_ranch_character
  ranch_character_codes v h0 h1 h2 h3 h4 h5 = chain _ (word v.uid) (
      chain _ (text locale v.name h0) (
        chain _ (word v.role) (
          chain _ (word v.age) (
            chain _ (word v.gender) (
              chain _ (text locale v.introduction h1) (
                chain _ (character_codes v.character) (
                  chain _ (horse_codes locale v.mount h2) (
                    chain _
                      (counted write_item read_item v.character_equipment h3
                        (every item_codes v.character_equipment))
                      (chain _ (guild_codes locale v.guild h4) (
                        chain _ (word v.oid) (
                          chain _ (word v.is_busy) (
                            chain _ (word v.unk3) (
                              chain _ (rent_codes v.rent) (
                                chain _ (pet_codes locale v.pet h5)
                                  (chain _ (word v.unk4) (ending _ (word v.unk5)))))))))))))))))
