-- ===== src/RaceDirector/Masters.antt =====
-- Who is the master of a race of server/race/RaceDirector once a client has left.
use alicia_server.Common.{
  ℕ, ◌≡◌, ◌⊎◌, inl, inr, refl, sym, ap, ◌∙◌, subst, true, false, Option, none, some, List, [], ◌∷◌,
  leb, ◌==◌, if◌then◌else◌, arith, Bool-cases, ==_iff,
}
use alicia_server.Common.Dict
use alicia_server.Common.Dict.{Dict}
use alicia_server.Room.{Room, Player, remove_player}
use alicia_server.Tracker.Race.{RacerState, Racer}
use alicia_server.RaceDirector.{
  is_waiting, RaceInstance, RaceDirector, ClientContext, Sent, invalid_uid,
}
use alicia_server.RaceDirector.Handlers.{
  drop_racer, next_master, pass_on, pass_mastership, close_if_empty, leave_race,
}

-- The first player of a room is one of its players.
first_key-contains :
    {V : Type 0} (d : Dict V) (k : ℕ) → Dict.first_key d ≡ some k → Dict.contains k d ≡ true
unfolding Dict.find
first_key-contains [] k e = absurd (cc)
first_key-contains ((j, v) ∷ d) k e = ground (arith, ==_iff j k)

still_there :
    (c k : ℕ) (d : Dict Player)
    → (c == k) ≡ false
    → Dict.contains k d ≡ true
    → Dict.contains k (Dict.erase c d) ≡ true
still_there c k d h e = ground (arith, Dict.find-erase c k d)

pass_on-contains :
    (left : Dict Player) (race : RaceInstance)
    → Dict.contains invalid_uid left ≡ false
    → (left ≡ []) ⊎ (Dict.contains (pass_on (Dict.first_key left) race).0.master_uid left ≡ true)
unfolding Dict.find
pass_on-contains [] race valid = inl refl
pass_on-contains ((j, p) ∷ d) race valid = inr (ground arith)

next_master-waiting :
    (race : RaceInstance) (room : Room)
    → is_waiting race.stage ≡ true
    → next_master race room ≡ Dict.first_key room.players
unfolding next_master
next_master-waiting race room h = ground arith

next_master-racing :
    (race : RaceInstance) (room : Room)
    → is_waiting race.stage ≡ false
    → next_master race room ≡ Dict.first_key (Dict.in_order race.tracker.racers)
unfolding next_master
next_master-racing race room h = ground arith

pass_mastership-master :
    (c : ℕ) (room : Room) (race : RaceInstance)
    → (race.master_uid == c) ≡ true
    → pass_mastership c room race ≡ pass_on (next_master race room) race
unfolding pass_mastership
pass_mastership-master c room race h = ground arith

pass_mastership-other :
    (c : ℕ) (room : Room) (race : RaceInstance)
    → (race.master_uid == c) ≡ false
    → pass_mastership c room race ≡ (race, [])
unfolding pass_mastership
pass_mastership-other c room race h = ground arith

erase-missing :
    (c k : ℕ) (d : Dict Player)
    → Dict.contains k d ≡ false
    → Dict.contains k (Dict.erase c d) ≡ false
erase-missing c k d h = ground (arith, Dict.find-erase c k d)

-- If the master of a waiting race is a player of the room and nobody has the invalid UID, then
-- after any player has left, the room is empty or the master is a player who is left.
pub pass_mastership-contains :
    (c : ℕ) (room : Room) (race : RaceInstance)
    → is_waiting race.stage ≡ true
    → Dict.contains race.master_uid room.players ≡ true
    → Dict.contains invalid_uid room.players ≡ false
    → let left = remove_player c room in
      (left.players ≡ [])
      ⊎ (Dict.contains (pass_mastership c left race).0.master_uid left.players ≡ true)
unfolding remove_player
pass_mastership-contains c room race waits master valid = elim (Bool-cases (race.master_uid == c)) [
  | inr other ↦ inr (
      ap (λ (r : RaceInstance × List Sent). Dict.contains r.0.master_uid left.players)
        (pass_mastership-other c left race other)
      ∙ still_there c race.master_uid room.players
          (ground (arith, ==_iff race.master_uid c, ==_iff c race.master_uid)) master)
  | inl same ↦
      subst
        (λ (r : RaceInstance × List Sent).
          (left.players ≡ []) ⊎ (Dict.contains r.0.master_uid left.players ≡ true))
        (sym (
          pass_mastership-master c left race same
          ∙ ap (λ o. pass_on o race) (next_master-waiting race left waits)))
        (pass_on-contains left.players race (erase-missing c invalid_uid room.players valid))
]
  where
    left : Room
    left = remove_player c room

-- The first of the keys in order does not change with the values.
least : ℕ → Option ℕ → ℕ
least k none = k
least k (some j) = if leb k j then k else j

first_key-insert_ordered :
    {V : Type 0} (k : ℕ) (v : V) (d : Dict V)
    → Dict.first_key (Dict.insert_ordered k v d) ≡ some (least k (Dict.first_key d))
unfolding Dict.insert_ordered least
first_key-insert_ordered k v [] = refl
first_key-insert_ordered k v ((j, w) ∷ d) = ground arith

first_key-modify :
    {V : Type 0} (k : ℕ) (f : V → V) (d : Dict V)
    → Dict.first_key (Dict.in_order (Dict.modify k f d)) ≡ Dict.first_key (Dict.in_order d)
unfolding Dict.in_order Dict.modify
first_key-modify k f [] = refl
first_key-modify k f ((j, w) ∷ d) = ground (
  arith,
  first_key-insert_ordered j w (Dict.in_order (Dict.modify k f d)),
  first_key-insert_ordered j (f w) (Dict.in_order d),
  first_key-insert_ordered j w (Dict.in_order d),
  first_key-modify k f d,
)

module _ (client_id c : ℕ) (race : RaceInstance) where
  drop_racer-first :
      Dict.first_key (Dict.in_order (drop_racer client_id c race).0.tracker.racers)
      ≡ Dict.first_key (Dict.in_order race.tracker.racers)
  unfolding drop_racer
  drop_racer-first = ground (
    arith,
    first_key-modify c (λ (r : Racer). record r { state = RacerState.disconnected })
        race.tracker.racers,
  )

  drop_racer-master : (drop_racer client_id c race).0.master_uid ≡ race.master_uid
  unfolding drop_racer
  drop_racer-master = ground arith

  drop_racer-stage : (drop_racer client_id c race).0.stage ≡ race.stage
  unfolding drop_racer
  drop_racer-stage = ground arith

-- The race that stays behind when its master, the first of its racers, leaves.
Keeps : ℕ → ℕ → RaceInstance → Type 0
Keeps client_id c r = (r.master_uid ≡ c) × (Dict.contains client_id r.clients ≡ false)

pass_on-Keeps :
    (client_id c : ℕ) (race : RaceInstance)
    → Keeps client_id c race
    → Keeps client_id c (pass_on (some c) race).0
unfolding Keeps
pass_on-Keeps client_id c race k = ground (arith, k.0, k.1)

find-close_if_empty :
    (room_uid : ℕ) (race r : RaceInstance) (d : RaceDirector)
    → Dict.find room_uid (close_if_empty room_uid race d).race_instances ≡ some r
    → race ≡ r
unfolding close_if_empty
find-close_if_empty room_uid race r d e = ground (
  arith,
  Dict.find-erase room_uid room_uid d.race_instances,
  Dict.find-assign room_uid room_uid race d.race_instances,
)

-- If the master of a race that is not waiting has the lowest UID of its racers and leaves, and the
-- race goes on with other clients, then its master is still the character who left, although the
-- client is no longer one of the race's.
pub leave_race-master :
    (client_id : ℕ) (c : ClientContext) (race r : RaceInstance) (room : Room) (d : RaceDirector)
    → is_waiting race.stage ≡ false
    → race.master_uid ≡ c.character_uid
    → Dict.first_key (Dict.in_order race.tracker.racers) ≡ some c.character_uid
    → Dict.find c.room_uid (leave_race client_id c race room d).director.race_instances ≡ some r
    → (r.master_uid ≡ c.character_uid) × (Dict.contains client_id r.clients ≡ false)
unfolding leave_race Keeps
leave_race-master client_id c race r room d racing master first stays =
    subst (Keeps client_id uid) (find-close_if_empty c.room_uid _ r _ stays) (
      subst (λ (p : RaceInstance × List Sent). Keeps client_id uid p.0) (sym passed)
        (pass_on-Keeps client_id uid without (
          drop_racer-master client_id uid race ∙ master,
          ground (arith, Dict.find-erase client_id client_id dropped.clients),
        )))
  where
    uid : ℕ
    uid = c.character_uid

    dropped : RaceInstance
    dropped = (drop_racer client_id uid race).0

    without : RaceInstance
    without = record dropped { clients = Dict.erase client_id dropped.clients }

    left : Room
    left = remove_player uid room

    passed : pass_mastership uid left without ≡ pass_on (some uid) without
    passed =
        pass_mastership-master uid left without
          ((==_iff without.master_uid uid).1 (drop_racer-master client_id uid race ∙ master))
        ∙ ap (λ o. pass_on o without)
            (next_master-racing without left
                (ap is_waiting (drop_racer-stage client_id uid race) ∙ racing)
              ∙ drop_racer-first client_id uid race
              ∙ first)
