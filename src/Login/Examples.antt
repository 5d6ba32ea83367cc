-- ===== src/Login/Examples.antt =====
-- A client that logs in.
use alicia_server.Common.{
  ℕ, ◌++◌, ◌≡◌, ◌≢◌, refl, Bool, true, false, Option, some, [], ◌∷◌, ◌==◌, if◌then◌else◌, arith,
}
use alicia_server.Common.Dict
use alicia_server.Common.Dict.{Dict}
use alicia_server.Authentication.{authenticate, queue_authentication}
use alicia_server.Login.{
  QueuedLogin, blank_login, Lobby, new_lobby, Answers, queue_client_connect, queue_client_login,
}
use alicia_server.Login.Processing.{
  process_login_request, process_login_response, request_of, request_authenticated, admit,
  response_of, response_with, come_online, new_user, apply_verdicts, apply_to_all, poll_verdicts,
  tick,
}
use alicia_server.Login.Vouched.{connects, logs_in, authenticates, ticks, Reach, start, after}
use alicia_server.Login.Reached.{Reach-online}
use alicia_server.Login.Renamed.{process_login_request-queue_client_login}

-- All data are loaded, and no user has a character.
abbrev loaded : Answers
loaded = record {
  are_data_being_loaded = λ name. false;
  are_user_data_loaded = λ name. true;
  are_character_data_loaded = λ name. true;
  character_uid = λ name. some 0;
  prevents_server_joining = λ name. false;
}

-- The token of user 7 is 9, and there is no other user.
abbrev accounts : ℕ → ℕ → Option Bool
accounts name token = if name == 7 then some (token == 9) else some false

abbrev Granted : ℕ → Type 0
Granted name = name ≡ 7

accounts_granted : (name token : ℕ) → accounts name token ≡ some true → Granted name
accounts_granted name token e = ground arith

abbrev ticked : Lobby → Lobby
ticked l = (tick loaded l).0

abbrev connected : Lobby
connected = (queue_client_connect 3 new_lobby).0

abbrev logged_in : Lobby
logged_in = (queue_client_login 3 7 9 connected).0

abbrev authenticated : Lobby
authenticated = record (ticked logged_in) {
  service = authenticate accounts (ticked logged_in).service;
}

abbrev online : Lobby
online = ticked (ticked (ticked (ticked authenticated)))

blank : Dict.find 3 connected.client_logins ≡ some blank_login
unfolding Dict.find Dict.try_emplace Dict.assign queue_client_connect
blank = refl

abbrev token_nine : ℕ
token_nine = 9

token_given : token_nine ≢ 0
token_given e = absurd (let n : 9 ≡ 0 = e in ground arith)

online-Reach : Reach Granted online
online-Reach =
    let a =
      after (after start (connects 3 new_lobby)) (logs_in 3 7 9 connected blank token_given) in
    let b =
      after (after a (ticks loaded logged_in))
        (authenticates accounts (ticked logged_in) accounts_granted) in
    let c = after (after b (ticks loaded authenticated)) (ticks loaded (ticked authenticated)) in
    after (after c (ticks loaded (ticked (ticked authenticated))))
      (ticks loaded (ticked (ticked (ticked authenticated))))

user_seven : Dict.find 7 online.user_instances ≡ some (new_user 7 0)
unfolding Dict.find Dict.try_emplace Dict.assign Dict.modify Dict.erase queue_client_connect
    queue_client_login tick process_login_request process_login_response request_of
    request_authenticated admit response_of response_with come_online apply_verdicts apply_to_all
    poll_verdicts authenticate queue_authentication
user_seven = refl

Reach-online_example : Granted 7
Reach-online_example = Reach-online Granted online online-Reach 7 (new_user 7 0) user_seven

-- The client is at the head of the queue, authenticated, and its data have been asked for.
abbrev waiting : Lobby
waiting = ticked (ticked authenticated)

abbrev seven : QueuedLogin
seven = record blank_login {
  user_name = 7;
  user_token = 9;
  is_authenticated = some true;
  user_authentication_requested = true;
  user_load_requested = true;
}

login_seven : Dict.find 3 waiting.client_logins ≡ some seven
unfolding Dict.find Dict.try_emplace Dict.assign Dict.modify Dict.erase queue_client_connect
    queue_client_login tick process_login_request process_login_response request_of
    request_authenticated admit response_of response_with come_online apply_verdicts apply_to_all
    poll_verdicts authenticate queue_authentication
login_seven = refl

at_head : waiting.login_request_queue ≡ 3 ∷ []
unfolding Dict.find Dict.try_emplace Dict.assign Dict.modify Dict.erase queue_client_connect
    queue_client_login tick process_login_request process_login_response request_of
    request_authenticated admit response_of response_with come_online apply_verdicts apply_to_all
    poll_verdicts authenticate queue_authentication
at_head = refl

process_login_request-queue_client_login_example :
    process_login_request loaded (queue_client_login 3 8 1 waiting).0 ≡ (
      record waiting {
        client_logins =
            Dict.modify 3 (λ x. record x { user_name = 8; user_token = 1 }) waiting.client_logins;
        login_request_queue = 3 ∷ [];
        login_response_queue = waiting.login_response_queue ++ (3 ∷ []);
      },
      [],
    )
process_login_request-queue_client_login_example =
    process_login_request-queue_client_login loaded 3 8 1 seven [] waiting login_seven refl refl
      refl at_head refl refl refl
