-- ===== src/Structures/Progress.antt =====
-- Quests, leagues and objectives of libserver/network/command/proto/CommonStructureDefinitions.
use alicia_server.Common.{Bool}
use alicia_server.Stream.{Put, Get, ◌>>◌, ◌>>=◌, pure}
use alicia_server.Stream.Words.{
  U8, U16, U32, write_word, read_u8, read_u16, read_u32, write_bool, read_bool,
}
use alicia_server.Stream.Codes.{Codes, chain, ending}
use alicia_server.Stream.Fields.{word, bool}

pub record Quest : Type 0 where
  pub tid : U16
  pub member0 : U32
  pub member1 : U8
  pub member2 : U32
  pub member3 : U8
  pub member4 : U8

unfoldable pub write_quest : Quest → Put
write_quest v =
    write_word v.tid
    >> write_word v.member0
    >> write_word v.member1
    >> write_word v.member2
    >> write_word v.member3
    >> write_word v.member4

unfoldable pub read_quest : Get Quest
read_quest = do
  tid ← read_u16
  member0 ← read_u32
  member1 ← read_u8
  member2 ← read_u32
  member3 ← read_u8
  member4 ← read_u8
  pure (record {
    tid = tid;
    member0 = member0;
    member1 = member1;
    member2 = member2;
    member3 = member3;
    member4 = member4;
  })

pub quest_codes : (v : Quest) → Codes (write_quest v) (read_quest) v
unfolding write_quest read_quest
quest_codes v = chain _ (word v.tid) (
    chain _ (word v.member0) (
      chain _ (word v.member1)
        (chain _ (word v.member2) (chain _ (word v.member3) (ending _ (word v.member4))))))

pub record League : Type 0 where
  pub type : U8
  pub ranking_percentile : U8

unfoldable pub write_league : League → Put
write_league v = write_word v.type >> write_word v.ranking_percentile

unfoldable pub read_league : Get League
read_league = do
  type ← read_u8
  ranking_percentile ← read_u8
  pure (record { type = type; ranking_percentile = ranking_percentile })

pub league_codes : (v : League) → Codes (write_league v) (read_league) v
unfolding write_league read_league
league_codes v = chain _ (word v.type) (ending _ (word v.ranking_percentile))

pub record DailyQuest : Type 0 where
  pub quest_id : U16
  pub unk_1 : U32
  pub unk_2 : U8
  pub unk_3 : U8

unfoldable pub write_daily_quest : DailyQuest → Put
write_daily_quest v =
    write_word v.quest_id >> write_word v.unk_1 >> write_word v.unk_2 >> write_word v.unk_3

unfoldable pub read_daily_quest : Get DailyQuest
read_daily_quest = do
  quest_id ← read_u16
  unk_1 ← read_u32
  unk_2 ← read_u8
  unk_3 ← read_u8
  pure (record { quest_id = quest_id; unk_1 = unk_1; unk_2 = unk_2; unk_3 = unk_3 })

pub daily_quest_codes : (v : DailyQuest) → Codes (write_daily_quest v) (read_daily_quest) v
unfolding write_daily_quest read_daily_quest
daily_quest_codes v =
    chain _ (word v.quest_id)
      (chain _ (word v.unk_1) (chain _ (word v.unk_2) (ending _ (word v.unk_3))))

pub record ObjectiveProgress : Type 0 where
  pub is_completed : Bool
  pub progress : U32
  pub achievement_tier : U8

unfoldable pub write_objective_progress : ObjectiveProgress → Put
write_objective_progress v =
    write_bool v.is_completed >> write_word v.progress >> write_word v.achievement_tier

unfoldable pub read_objective_progress : Get ObjectiveProgress
read_objective_progress = do
  is_completed ← read_bool
  progress ← read_u32
  achievement_tier ← read_u8
  pure (record {
    is_completed = is_completed;
    progress = progress;
    achievement_tier = achievement_tier;
  })

pub objective_progress_codes :
    (v : ObjectiveProgress) → Codes (write_objective_progress v) (read_objective_progress) v
unfolding write_objective_progress read_objective_progress
objective_progress_codes v =
    chain _ (bool v.is_completed) (chain _ (word v.progress) (ending _ (word v.achievement_tier)))
