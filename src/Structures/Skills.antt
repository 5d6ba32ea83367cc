-- ===== src/Structures/Skills.antt =====
-- A set of skills of libserver/network/command/proto/CommonStructureDefinitions. An assertion that
-- fails ends the call, as it does in a build that checks them.
use alicia_server.Common.{
  ◌≡◌, refl, sym, subst, Bool, true, false, ◌&&◌, ◌||◌, ◌==◌, if◌then◌else◌, none, some, List,
  length, arith, ◌≤◌,
}
use alicia_server.Stream.{SinkStream, Put, Get, ◌>>◌, ◌>>=◌, pure}
use alicia_server.Stream.Words.{U8, U32, write_word, read_u8, read_u32, cast}
use alicia_server.Stream.Lists.{write_counted, read_counted}
use alicia_server.Stream.Codes.{Codes, chain, ending}
use alicia_server.Stream.Fields.{word, counted, every, cast-value, Word-path}

pub record SkillSet : Type 0 where
  pub set_id : U8
  pub gamemode : U8
  pub skills : List U32

-- GameMode::Magic, Speed or Unk4, and two skills.
unfoldable pub is_supported : SkillSet → Bool
is_supported v =
    (v.gamemode.value == 2 || v.gamemode.value == 1 || v.gamemode.value == 4)
    && length v.skills == 2

unfoldable pub read_skill_set : Get SkillSet
read_skill_set = do
  set_id ← read_u8
  gamemode ← read_u32
  skills ← read_counted read_u32
  pure (record { set_id = set_id; gamemode = cast 1 gamemode.value; skills = skills })

-- An enumeration over a byte that is sent as four bytes.
cast-cast : (w : U8) → cast 1 (cast 4 w.value).value ≡ w
cast-cast w =
    let wide : (cast 4 w.value).value ≡ w.value = cast-value 4 w.value (omega (arith, w.fits)) in
    Word-path _ w (
      subst (λ n. (cast 1 n).value ≡ w.value) (sym wide)
        (cast-value 1 w.value (omega (arith, w.fits))))

two_skills : (v : SkillSet) → is_supported v ≡ true → length v.skills ≤ 255
unfolding is_supported
two_skills v h = ground arith

-- What follows the assertions.
unfoldable pub write_skills : SkillSet → Put
write_skills v =
    write_word v.set_id >> write_word (cast 4 v.gamemode.value) >> write_counted write_word v.skills

unfoldable pub write_skill_set : SkillSet → Put
write_skill_set v = if is_supported v then write_skills v else λ _. none

pub skill_set_codes :
    (v : SkillSet) → is_supported v ≡ true → Codes (write_skill_set v) read_skill_set v
unfolding write_skill_set write_skills read_skill_set
skill_set_codes v h =
    subst (λ b. Codes (if b then write_skills v else λ _. none) read_skill_set v) (sym h)
      (subst
        (λ m.
          Codes (write_skills v) read_skill_set
            (record { set_id = v.set_id; gamemode = m; skills = v.skills }))
        (cast-cast v.gamemode)
        (chain _ (word v.set_id) (
          chain _ (word (cast 4 v.gamemode.value)) (
            ending _
              (counted write_word read_u32 v.skills (two_skills v h) (every word v.skills))))))

-- Only a set that passes the assertions is written.
pub write_skill_set-supported :
    (v : SkillSet) (s s' : SinkStream) → write_skill_set v s ≡ some s' → is_supported v ≡ true
unfolding write_skill_set
write_skill_set-supported v s s' =
    elim (is_supported v)
      as (λ b. (if b then write_skills v else λ _. none) s ≡ some s' → b ≡ true) [
        | true ↦ λ e. refl
        | false ↦ λ e. absurd (cc)
      ]
