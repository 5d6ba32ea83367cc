-- ===== src/Structures/Ranch.antt =====
-- Guilds, pets and eggs of libserver/network/command/proto/CommonStructureDefinitions.
use alicia_server.Stream.{Put, Get, ◌>>◌, ◌>>=◌, pure}
use alicia_server.Stream.Words.{U8, U16, U32, write_word, read_u8, read_u16, read_u32}
use alicia_server.Stream.Strings.{String, Locale, write_string, read_string}
use alicia_server.Stream.Codes.{Codes, chain, ending}
use alicia_server.Stream.Fields.{word}
use alicia_server.Stream.Text.{Transcodes, text}
use alicia_server.Structures.Goods.{Item, write_item, read_item, item_codes}
use alicia_server.Structures.Horse.{Horse, write_horse, read_horse, horse_codes}

pub record Guild : Type 0 where
  pub uid : U32
  pub val1 : U8
  pub val2 : U32
  pub name : String
  pub guild_role : U8
  pub val5 : U32
  pub val6 : U8

module _ (locale : Locale) where
  unfoldable pub write_guild : Guild → Put
  write_guild v =
      write_word v.uid
      >> write_word v.val1
      >> write_word v.val2
      >> write_string locale v.name
      >> write_word v.guild_role
      >> write_word v.val5
      >> write_word v.val6

  unfoldable pub read_guild : Get Guild
  read_guild = do
    uid ← read_u32
    val1 ← read_u8
    val2 ← read_u32
    name ← read_string locale
    guild_role ← read_u8
    val5 ← read_u32
    val6 ← read_u8
    pure (record {
      uid = uid;
      val1 = val1;
      val2 = val2;
      name = name;
      guild_role = guild_role;
      val5 = val5;
      val6 = val6;
    })

  pub guild_codes : (v : Guild) → Transcodes locale v.name → Codes (write_guild v) (read_guild) v
  unfolding write_guild read_guild
  guild_codes v h0 = chain _ (word v.uid) (
      chain _ (word v.val1) (
        chain _ (word v.val2) (
          chain _ (text locale v.name h0)
            (chain _ (word v.guild_role) (chain _ (word v.val5) (ending _ (word v.val6)))))))

pub record Rent : Type 0 where
  pub mount_uid : U32
  pub val1 : U32
  pub val2 : U32

unfoldable pub write_rent : Rent → Put
write_rent v = write_word v.mount_uid >> write_word v.val1 >> write_word v.val2

unfoldable pub read_rent : Get Rent
read_rent = do
  mount_uid ← read_u32
  val1 ← read_u32
  val2 ← read_u32
  pure (record { mount_uid = mount_uid; val1 = val1; val2 = val2 })

pub rent_codes : (v : Rent) → Codes (write_rent v) (read_rent) v
unfolding write_rent read_rent
rent_codes v = chain _ (word v.mount_uid) (chain _ (word v.val1) (ending _ (word v.val2)))

pub record Pet : Type 0 where
  pub pet_id : U32
  pub member2 : U32
  pub name : String
  pub birth_date : U32

module _ (locale : Locale) where
  unfoldable pub write_pet : Pet → Put
  write_pet v =
      write_word v.pet_id
      >> write_word v.member2
      >> write_string locale v.name
      >> write_word v.birth_date

  unfoldable pub read_pet : Get Pet
  read_pet = do
    pet_id ← read_u32
    member2 ← read_u32
    name ← read_string locale
    birth_date ← read_u32
    pure (record { pet_id = pet_id; member2 = member2; name = name; birth_date = birth_date })

  pub pet_codes : (v : Pet) → Transcodes locale v.name → Codes (write_pet v) (read_pet) v
  unfolding write_pet read_pet
  pet_codes v h0 =
      chain _ (word v.pet_id)
        (chain _ (word v.member2) (chain _ (text locale v.name h0) (ending _ (word v.birth_date))))

pub record Egg : Type 0 where
  pub uid : U32
  pub item_tid : U32
  pub member3 : U32
  pub member4 : U8
  pub member5 : U32
  pub time_remaining : U32
  pub boost : U32
  pub total_hatching_time : U32
  pub member9 : U32

unfoldable pub write_egg : Egg → Put
write_egg v =
    write_word v.uid
    >> write_word v.item_tid
    >> write_word v.member3
    >> write_word v.member4
    >> write_word v.member5
    >> write_word v.time_remaining
    >> write_word v.boost
    >> write_word v.total_hatching_time
    >> write_word v.member9

unfoldable pub read_egg : Get Egg
read_egg = do
  uid ← read_u32
  item_tid ← read_u32
  member3 ← read_u32
  member4 ← read_u8
  member5 ← read_u32
  time_remaining ← read_u32
  boost ← read_u32
  total_hatching_time ← read_u32
  member9 ← read_u32
  pure (record {
    uid = uid;
    item_tid = item_tid;
    member3 = member3;
    member4 = member4;
    member5 = member5;
    time_remaining = time_remaining;
    boost = boost;
    total_hatching_time = total_hatching_time;
    member9 = member9;
  })

pub egg_codes : (v : Egg) → Codes (write_egg v) (read_egg) v
unfolding write_egg read_egg
egg_codes v = chain _ (word v.uid) (
    chain _ (word v.item_tid) (
      chain _ (word v.member3) (
        chain _ (word v.member4) (
          chain _ (word v.member5) (
            chain _ (word v.time_remaining) (
              chain _ (word v.boost)
                (chain _ (word v.total_hatching_time) (ending _ (word v.member9)))))))))

pub record PetInfo : Type 0 where
  pub character_uid : U32
  pub item_uid : U32
  pub pet : Pet
  pub member4 : U32

module _ (locale : Locale) where
  unfoldable pub write_pet_info : PetInfo → Put
  write_pet_info v =
      write_word v.character_uid
      >> write_word v.item_uid
      >> write_pet locale v.pet
      >> write_word v.member4

  unfoldable pub read_pet_info : Get PetInfo
  read_pet_info = do
    character_uid ← read_u32
    item_uid ← read_u32
    pet ← read_pet locale
    member4 ← read_u32
    pure (record {
      character_uid = character_uid;
      item_uid = item_uid;
      pet = pet;
      member4 = member4;
    })

  pub pet_info_codes :
      (v : PetInfo) → Transcodes locale v.pet.name → Codes (write_pet_info v) (read_pet_info) v
  unfolding write_pet_info read_pet_info
  pet_info_codes v h0 =
      chain _ (word v.character_uid) (
        chain _ (word v.item_uid) (chain _ (pet_codes locale v.pet h0) (ending _ (word v.member4))))

pub record PetBirthInfo : Type 0 where
  pub egg_item : Item
  pub member2 : U32
  pub member3 : U32
  pub pet_info : PetInfo

module _ (locale : Locale) where
  unfoldable pub write_pet_birth_info : PetBirthInfo → Put
  write_pet_birth_info v =
      write_item v.egg_item
      >> write_word v.member2
      >> write_word v.member3
      >> write_pet_info locale v.pet_info

  unfoldable pub read_pet_birth_info : Get PetBirthInfo
  read_pet_birth_info = do
    egg_item ← read_item
    member2 ← read_u32
    member3 ← read_u32
    pet_info ← read_pet_info locale
    pure (record { egg_item = egg_item; member2 = member2; member3 = member3; pet_info = pet_info })

  pub pet_birth_info_codes :
      (v : PetBirthInfo)
      → Transcodes locale v.pet_info.pet.name
      → Codes (write_pet_birth_info v) (read_pet_birth_info) v
  unfolding write_pet_birth_info read_pet_birth_info
  pet_birth_info_codes v h0 = chain _ (item_codes v.egg_item) (
      chain _ (word v.member2)
        (chain _ (word v.member3) (ending _ (pet_info_codes locale v.pet_info h0))))

pub record RanchHorse : Type 0 where
  pub horse_oid : U16
  pub horse : Horse

module _ (locale : Locale) where
  unfoldable pub write_ranch_horse : RanchHorse → Put
  write_ranch_horse v = write_word v.horse_oid >> write_horse locale v.horse

  unfoldable pub read_ranch_horse : Get RanchHorse
  read_ranch_horse = do
    horse_oid ← read_u16
    horse ← read_horse locale
    pure (record { horse_oid = horse_oid; horse = horse })

  pub ranch_horse_codes :
      (v : RanchHorse)
      → Transcodes locale v.horse.name
      → Codes (write_ranch_horse v) (read_ranch_horse) v
  unfolding write_ranch_horse read_ranch_horse
  ranch_horse_codes v h0 = chain _ (word v.horse_oid) (ending _ (horse_codes locale v.horse h0))

pub record Housing : Type 0 where
  pub uid : U32
  pub tid : U16
  pub durability : U32

unfoldable pub write_housing : Housing → Put
write_housing v = write_word v.uid >> write_word v.tid >> write_word v.durability

unfoldable pub read_housing : Get Housing
read_housing = do
  uid ← read_u32
  tid ← read_u16
  durability ← read_u32
  pure (record { uid = uid; tid = tid; durability = durability })

pub housing_codes : (v : Housing) → Codes (write_housing v) (read_housing) v
unfolding write_housing read_housing
housing_codes v = chain _ (word v.uid) (chain _ (word v.tid) (ending _ (word v.durability)))
