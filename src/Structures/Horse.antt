-- ===== src/Structures/Horse.antt =====
-- A horse of libserver/network/command/proto/CommonStructureDefinitions.
use alicia_server.Stream.{Put, Get, ◌>>◌, ◌>>=◌, pure}
use alicia_server.Stream.Words.{U8, U16, U32, write_word, read_u8, read_u16, read_u32}
use alicia_server.Stream.Strings.{String, Locale, write_string, read_string}
use alicia_server.Stream.Codes.{Codes, chain, ending}
use alicia_server.Stream.Fields.{word}
use alicia_server.Stream.Text.{Transcodes, text}

pub record Parts : Type 0 where
  pub skin_id : U8
  pub mane_id : U8
  pub tail_id : U8
  pub face_id : U8

unfoldable pub write_parts : Parts → Put
write_parts v =
    write_word v.skin_id >> write_word v.mane_id >> write_word v.tail_id >> write_word v.face_id

unfoldable pub read_parts : Get Parts
read_parts = do
  skin_id ← read_u8
  mane_id ← read_u8
  tail_id ← read_u8
  face_id ← read_u8
  pure (record { skin_id = skin_id; mane_id = mane_id; tail_id = tail_id; face_id = face_id })

pub parts_codes : (v : Parts) → Codes (write_parts v) (read_parts) v
unfolding write_parts read_parts
parts_codes v =
    chain _ (word v.skin_id)
      (chain _ (word v.mane_id) (chain _ (word v.tail_id) (ending _ (word v.face_id))))

pub record Appearance : Type 0 where
  pub scale : U8
  pub leg_length : U8
  pub leg_volume : U8
  pub body_length : U8
  pub body_volume : U8

unfoldable pub write_appearance : Appearance → Put
write_appearance v =
    write_word v.scale
    >> write_word v.leg_length
    >> write_word v.leg_volume
    >> write_word v.body_length
    >> write_word v.body_volume

unfoldable pub read_appearance : Get Appearance
read_appearance = do
  scale ← read_u8
  leg_length ← read_u8
  leg_volume ← read_u8
  body_length ← read_u8
  body_volume ← read_u8
  pure (record {
    scale = scale;
    leg_length = leg_length;
    leg_volume = leg_volume;
    body_length = body_length;
    body_volume = body_volume;
  })

pub appearance_codes : (v : Appearance) → Codes (write_appearance v) (read_appearance) v
unfolding write_appearance read_appearance
appearance_codes v = chain _ (word v.scale) (
    chain _ (word v.leg_length)
      (chain _ (word v.leg_volume) (chain _ (word v.body_length) (ending _ (word v.body_volume)))))

pub record Stats : Type 0 where
  pub agility : U32
  pub ambition : U32
  pub rush : U32
  pub endurance : U32
  pub courage : U32

unfoldable pub write_stats : Stats → Put
write_stats v =
    write_word v.agility
    >> write_word v.ambition
    >> write_word v.rush
    >> write_word v.endurance
    >> write_word v.courage

unfoldable pub read_stats : Get Stats
read_stats = do
  agility ← read_u32
  ambition ← read_u32
  rush ← read_u32
  endurance ← read_u32
  courage ← read_u32
  pure (record {
    agility = agility;
    ambition = ambition;
    rush = rush;
    endurance = endurance;
    courage = courage;
  })

pub stats_codes : (v : Stats) → Codes (write_stats v) (read_stats) v
unfolding write_stats read_stats
stats_codes v = chain _ (word v.agility) (
    chain _ (word v.ambition)
      (chain _ (word v.rush) (chain _ (word v.endurance) (ending _ (word v.courage)))))

pub record Mastery : Type 0 where
  pub spur_magic_count : U32
  pub jump_count : U32
  pub sliding_time : U32
  pub gliding_distance : U32

unfoldable pub write_mastery : Mastery → Put
write_mastery v =
    write_word v.spur_magic_count
    >> write_word v.jump_count
    >> write_word v.sliding_time
    >> write_word v.gliding_distance

unfoldable pub read_mastery : Get Mastery
read_mastery = do
  spur_magic_count ← read_u32
  jump_count ← read_u32
  sliding_time ← read_u32
  gliding_distance ← read_u32
  pure (record {
    spur_magic_count = spur_magic_count;
    jump_count = jump_count;
    sliding_time = sliding_time;
    gliding_distance = gliding_distance;
  })

pub mastery_codes : (v : Mastery) → Codes (write_mastery v) (read_mastery) v
unfolding write_mastery read_mastery
mastery_codes v = chain _ (word v.spur_magic_count) (
    chain _ (word v.jump_count)
      (chain _ (word v.sliding_time) (ending _ (word v.gliding_distance))))

pub record MountCondition : Type 0 where
  pub stamina : U16
  pub charm_point : U16
  pub friendly_point : U16
  pub injury_point : U16
  pub plenitude : U16
  pub body_dirtiness : U16
  pub mane_dirtiness : U16
  pub tail_dirtiness : U16
  pub attachment : U16
  pub boredom : U16
  pub body_polish : U16
  pub mane_polish : U16
  pub tail_polish : U16
  pub stop_amends_point : U16

-- The unnamed structure of `vals1`.
pub record Vals1 : Type 0 where
  pub type : U8
  pub val1 : U32
  pub date_of_birth : U32
  pub tendency : U8
  pub spirit : U8
  pub class_progression : U32
  pub val5 : U32
  pub potential_level : U8
  pub potential_type : U8
  pub potential_value : U8
  pub val9 : U8
  pub luck : U8
  pub injury : U8
  pub val12 : U8
  pub fatigue : U16
  pub val14 : U16
  pub emblem : U16

pub record Horse : Type 0 where
  pub uid : U32
  pub tid : U32
  pub name : String
  pub parts : Parts
  pub appearance : Appearance
  pub stats : Stats
  pub rating : U32
  pub clazz : U8
  pub val0 : U8
  pub grade : U8
  pub growth_points : U16
  pub mount_condition : MountCondition
  pub vals1 : Vals1
  pub mastery : Mastery
  pub val16 : U32
  pub visual_cleanliness_bitset : U32

module _ (locale : Locale) where
  unfoldable pub write_horse : Horse → Put
  write_horse v =
      write_word v.uid
      >> write_word v.tid
      >> write_string locale v.name
      >> write_parts v.parts
      >> write_appearance v.appearance
      >> write_stats v.stats
      >> write_word v.rating
      >> write_word v.clazz
      >> write_word v.val0
      >> write_word v.grade
      >> write_word v.growth_points
      >> write_word v.mount_condition.stamina
      >> write_word v.mount_condition.charm_point
      >> write_word v.mount_condition.friendly_point
      >> write_word v.mount_condition.injury_point
      >> write_word v.mount_condition.plenitude
      >> write_word v.mount_condition.body_dirtiness
      >> write_word v.mount_condition.mane_dirtiness
      >> write_word v.mount_condition.tail_dirtiness
      >> write_word v.mount_condition.attachment
      >> write_word v.mount_condition.boredom
      >> write_word v.mount_condition.body_polish
      >> write_word v.mount_condition.mane_polish
      >> write_word v.mount_condition.tail_polish
      >> write_word v.mount_condition.stop_amends_point
      >> write_word v.vals1.type
      >> write_word v.vals1.val1
      >> write_word v.vals1.date_of_birth
      >> write_word v.vals1.tendency
      >> write_word v.vals1.spirit
      >> write_word v.vals1.class_progression
      >> write_word v.vals1.val5
      >> write_word v.vals1.potential_level
      >> write_word v.vals1.potential_type
      >> write_word v.vals1.potential_value
      >> write_word v.vals1.val9
      >> write_word v.vals1.luck
      >> write_word v.vals1.injury
      >> write_word v.vals1.val12
      >> write_word v.vals1.fatigue
      >> write_word v.vals1.val14
      >> write_word v.vals1.emblem
      >> write_mastery v.mastery
      >> write_word v.val16
      >> write_word v.visual_cleanliness_bitset

  unfoldable pub read_horse : Get Horse
  read_horse = do
    uid ← read_u32
    tid ← read_u32
    name ← read_string locale
    parts ← read_parts
    appearance ← read_appearance
    stats ← read_stats
    rating ← read_u32
    clazz ← read_u8
    val0 ← read_u8
    grade ← read_u8
    growth_points ← read_u16
    stamina ← read_u16
    charm_point ← read_u16
    friendly_point ← read_u16
    injury_point ← read_u16
    plenitude ← read_u16
    body_dirtiness ← read_u16
    mane_dirtiness ← read_u16
    tail_dirtiness ← read_u16
    attachment ← read_u16
    boredom ← read_u16
    body_polish ← read_u16
    mane_polish ← read_u16
    tail_polish ← read_u16
    stop_amends_point ← read_u16
    type ← read_u8
    val1 ← read_u32
    date_of_birth ← read_u32
    tendency ← read_u8
    spirit ← read_u8
    class_progression ← read_u32
    val5 ← read_u32
    potential_level ← read_u8
    potential_type ← read_u8
    potential_value ← read_u8
    val9 ← read_u8
    luck ← read_u8
    injury ← read_u8
    val12 ← read_u8
    fatigue ← read_u16
    val14 ← read_u16
    emblem ← read_u16
    mastery ← read_mastery
    val16 ← read_u32
    visual_cleanliness_bitset ← read_u32
    pure (record {
      uid = uid;
      tid = tid;
      name = name;
      parts = parts;
      appearance = appearance;
      stats = stats;
      rating = rating;
      clazz = clazz;
      val0 = val0;
      grade = grade;
      growth_points = growth_points;
      mount_condition = record {
        stamina = stamina;
        charm_point = charm_point;
        friendly_point = friendly_point;
        injury_point = injury_point;
        plenitude = plenitude;
        body_dirtiness = body_dirtiness;
        mane_dirtiness = mane_dirtiness;
        tail_dirtiness = tail_dirtiness;
        attachment = attachment;
        boredom = boredom;
        body_polish = body_polish;
        mane_polish = mane_polish;
        tail_polish = tail_polish;
        stop_amends_point = stop_amends_point;
      };
      vals1 = record {
        type = type;
        val1 = val1;
        date_of_birth = date_of_birth;
        tendency = tendency;
        spirit = spirit;
        class_progression = class_progression;
        val5 = val5;
        potential_level = potential_level;
        potential_type = potential_type;
        potential_value = potential_value;
        val9 = val9;
        luck = luck;
        injury = injury;
        val12 = val12;
        fatigue = fatigue;
        val14 = val14;
        emblem = emblem;
      };
      mastery = mastery;
      val16 = val16;
      visual_cleanliness_bitset = visual_cleanliness_bitset;
    })

  pub horse_codes : (v : Horse) → Transcodes locale v.name → Codes (write_horse v) (read_horse) v
  unfolding write_horse read_horse
  horse_codes v h0 = chain _ (word v.uid) (
      chain _ (word v.tid) (
        chain _ (text locale v.name h0) (
          chain _ (parts_codes v.parts) (
            chain _ (appearance_codes v.appearance) (
              chain _ (stats_codes v.stats) (
                chain _ (word v.rating) (
                  chain _ (word v.clazz) (
                    chain _ (word v.val0) (
                      chain _ (word v.grade) (
                        chain _ (word v.growth_points) (
                          chain _ (word v.mount_condition.stamina) (
                            chain _ (word v.mount_condition.charm_point) (
                              chain _ (word v.mount_condition.friendly_point) (
                                chain _ (word v.mount_condition.injury_point) (
                                  chain _ (word v.mount_condition.plenitude) (
                                    chain _ (word v.mount_condition.body_dirtiness) (
                                      chain _ (word v.mount_condition.mane_dirtiness) (
                                        chain _ (word v.mount_condition.tail_dirtiness) (
                                          chain _ (word v.mount_condition.attachment) (
                                            chain _ (word v.mount_condition.boredom) (
                                              chain _ (word v.mount_condition.body_polish) (
                                                chain _ (word v.mount_condition.mane_polish) (
                                                  chain _ (word v.mount_condition.tail_polish) (
                                                    chain _
                                                      (word v.mount_condition.stop_amends_point)
                                                      (chain _ (word v.vals1.type) (
                                                        chain _ (word v.vals1.val1) (
                                                          chain _ (word v.vals1.date_of_birth) (
                                                            chain _ (word v.vals1.tendency) (
                                                            chain _ (word v.vals1.spirit) (
                                                            chain _ (word v.vals1.class_progression)
                                                            (chain _ (word v.vals1.val5) (
                                                            chain _ (word v.vals1.potential_level) (
                                                            chain _ (word v.vals1.potential_type) (
                                                            chain _ (word v.vals1.potential_value) (
                                                            chain _ (word v.vals1.val9) (
                                                            chain _ (word v.vals1.luck) (
                                                            chain _ (word v.vals1.injury) (
                                                            chain _ (word v.vals1.val12) (
                                                            chain _ (word v.vals1.fatigue) (
                                                            chain _ (word v.vals1.val14) (
                                                            chain _ (word v.vals1.emblem) (
                                                            chain _ (mastery_codes v.mastery) (
                                                            chain _ (word v.val16) (
                                                            ending _
                                                            (word v.visual_cleanliness_bitset)))))))
                                                            ))))))))))))))))))))))))))))))))))))))
