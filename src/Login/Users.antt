-- ===== src/Login/Users.antt =====
-- What LobbyDirector (server/lobby) says of a client in the queues and of the users who are online.
use alicia_server.Common.{
  ℕ, suc, ◌≡◌, refl, length-append, Bool, false, Option, none, some, List, [], ◌∷◌, ◌++◌, ◌+◌, ◌==◌,
  if◌then◌else◌, member, length, arith,
}
use alicia_server.Common.Dict
use alicia_server.Common.Dict.{Dict}
use alicia_server.Login.{UserInstance, QueuedLogin, Lobby, queue_client_login}

-- How far the client is from the front, 0 if it is not in the queue.
unfoldable pub distance : ℕ → List ℕ → Option ℕ
distance client_id [] = none
distance client_id (x ∷ xs) =
    let rest = distance client_id xs in
    if x == client_id then some 0 else elim rest [ none ↦ none | some n ↦ some (suc n) ]

abbrev pub or_zero : Option ℕ → ℕ
or_zero none = 0
or_zero (some n) = n

unfoldable pub get_client_queue_position : ℕ → Lobby → ℕ
get_client_queue_position client_id l =
    or_zero (distance client_id l.login_response_queue)
    + or_zero (distance client_id l.login_request_queue)

unfoldable pub is_user_online : ℕ → Lobby → Bool
is_user_online user_name l = Dict.contains user_name l.user_instances

-- `none` is an exception.
unfoldable pub get_user : ℕ → Lobby → Option UserInstance
get_user user_name l = Dict.find user_name l.user_instances

unfoldable pub user_with_character : ℕ → Dict UserInstance → Option UserInstance
user_with_character character_uid [] = none
user_with_character character_uid ((name, u) ∷ users) =
    if u.character_uid == character_uid then some u else user_with_character character_uid users

unfoldable pub get_user_by_character_uid : ℕ → Lobby → Option UserInstance
get_user_by_character_uid character_uid l = user_with_character character_uid l.user_instances

unfoldable pub set_user_room : (user_name room_uid : ℕ) → Lobby → Lobby
set_user_room user_name room_uid l = record l {
  user_instances = Dict.modify user_name (λ u. record u { room_uid = room_uid }) l.user_instances;
}

unfoldable pub is_character_forced_into_creator : ℕ → Lobby → Bool
is_character_forced_into_creator character_uid l =
    Dict.contains character_uid l.characters_forced_into_creator

distance-absent : (c : ℕ) (xs : List ℕ) → member c xs ≡ false → distance c xs ≡ none
unfolding distance
distance-absent c [] h = refl
distance-absent c (x ∷ xs) h = ground (arith, distance-absent c xs)

distance-last :
    (c : ℕ) (xs : List ℕ) → member c xs ≡ false → distance c (xs ++ (c ∷ [])) ≡ some (length xs)
unfolding distance
distance-last c [] h = ground arith
distance-last c (x ∷ xs) h = ground (arith, distance-last c xs)

-- A client whose entry is there and who waits in neither queue is told, when it logs in, one more
-- than its queue position and the length of the response queue together: its position then does not
-- count the clients in front of it in the response queue.
pub get_client_queue_position-queue_client_login :
    (c name token : ℕ) (q : QueuedLogin) (l : Lobby)
    → Dict.find c l.client_logins ≡ some q
    → member c l.login_request_queue ≡ false
    → member c l.login_response_queue ≡ false
    → (queue_client_login c name token l).1
      ≡ suc (
          get_client_queue_position c (queue_client_login c name token l).0
          + length l.login_response_queue)
unfolding queue_client_login get_client_queue_position
get_client_queue_position-queue_client_login c name token q l e idle new =
    rw
      (
        e,
        distance-absent c l.login_response_queue new,
        distance-last c l.login_request_queue idle,
        length-append,
      )
      (ground arith)
