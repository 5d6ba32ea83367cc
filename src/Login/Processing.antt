-- ===== src/Login/Processing.antt =====
-- LobbyDirector::Tick (server/lobby) and what it calls: one round of the request queue, one of the
-- response queue, and the verdicts of the authentication service.
use alicia_server.Common.{
  ℕ, Bool, true, false, not, ◌&&◌, ◌||◌, Option, none, some, List, [], ◌∷◌, ◌++◌, ◌==◌,
  if◌then◌else◌,
}
use alicia_server.Common.Dict
use alicia_server.Common.Dict.{Dict}
use alicia_server.Authentication.{Verdict, queue_authentication}
use alicia_server.Login.{
  QueuedLogin, UserInstance, Lobby, Answers, Request, login_of, change_login, with_login,
  invalid_user, generic, disconnect_yourself, duplicated, reject_login, accept_login, load_user,
  load_character,
}

-- The user data are loaded, or could not be.
unfoldable pub admit :
    Answers → (client_id : ℕ) → (rest : List ℕ) → QueuedLogin → Lobby → Lobby × List Request
admit a client_id rest c l =
    let popped = record l { login_request_queue = rest } in
    if not (a.are_user_data_loaded c.user_name)
    then (popped, reject_login client_id generic ∷ [])
    else if a.prevents_server_joining c.user_name
    then (popped, reject_login client_id disconnect_yourself ∷ [])
    else (record popped { login_response_queue = l.login_response_queue ++ (client_id ∷ []) }, [])

-- The head of the request queue, by its authentication.
unfoldable pub request_authenticated :
    Answers
    → (client_id : ℕ) → (rest : List ℕ) → QueuedLogin
    → Lobby
    → Option Bool
    → Lobby × List Request
request_authenticated a client_id rest c l none = (l, [])
request_authenticated a client_id rest c l (some false) =
    (record l { login_request_queue = rest }, reject_login client_id invalid_user ∷ [])
request_authenticated a client_id rest c l (some true) =
    if not c.user_load_requested
    then (
      change_login client_id (λ x. record x { user_load_requested = true }) l,
      load_user c.user_name ∷ [],
    )
    else if a.are_data_being_loaded c.user_name
    then (l, [])
    else admit a client_id rest c l

unfoldable pub request_of :
    Answers → (client_id : ℕ) → (rest : List ℕ) → QueuedLogin → Lobby → Lobby × List Request
request_of a client_id rest c l =
    if not c.user_authentication_requested
    then (
      record (change_login client_id (λ x. record x { user_authentication_requested = true }) l) {
        service = queue_authentication c.user_name c.user_token l.service;
      },
      [],
    )
    else request_authenticated a client_id rest c l c.is_authenticated

abbrev pub process_request : Answers → List ℕ → Lobby → Lobby × List Request
process_request a [] l = (l, [])
process_request a (client_id ∷ rest) l =
    request_of a client_id rest (login_of (Dict.find client_id l.client_logins))
      (with_login client_id l)

unfoldable pub process_login_request : Answers → Lobby → Lobby × List Request
process_login_request a l = process_request a l.login_request_queue l

abbrev pub new_user : (user_name character_uid : ℕ) → UserInstance
new_user user_name character_uid = record {
  ranch_otp_code = 0;
  race_otp_code = 0;
  user_name = user_name;
  character_uid = character_uid;
  room_uid = 0;
  visit_preference = 0;
}

-- The third part tells that an exception has ended the call.
abbrev pub Response : Type 0
Response = Lobby × List Request × Bool

-- The user comes online, unless it already is.
unfoldable pub come_online :
    (client_id : ℕ) → (rest : List ℕ) → QueuedLogin → (character_uid : ℕ) → Lobby → Response
come_online client_id rest c character_uid l =
    let popped = record l { login_response_queue = rest } in
    if Dict.contains c.user_name l.user_instances
    then (popped, reject_login client_id duplicated ∷ [], false)
    else (
      record popped {
        characters_forced_into_creator = Dict.erase character_uid l.characters_forced_into_creator;
        user_instances =
            Dict.assign c.user_name (new_user c.user_name character_uid) l.user_instances;
        client_logins = Dict.erase client_id l.client_logins;
      },
      accept_login client_id
            (Dict.contains character_uid l.characters_forced_into_creator || character_uid == 0)
          ∷ [],
      false,
    )

unfoldable pub response_with :
    Answers → (client_id : ℕ) → (rest : List ℕ) → QueuedLogin → Lobby → Option ℕ → Response
response_with a client_id rest c l none = (l, [], true)
response_with a client_id rest c l (some character_uid) =
    let has_character = not (character_uid == 0) in
    if has_character && not c.user_character_load_requested
    then (
      change_login client_id (λ x. record x { user_character_load_requested = true }) l,
      load_character c.user_name character_uid ∷ [],
      false,
    )
    else if has_character && not (a.are_character_data_loaded c.user_name)
    then (record l { login_response_queue = rest }, reject_login client_id generic ∷ [], false)
    else come_online client_id rest c character_uid l

unfoldable pub response_of :
    Answers → (client_id : ℕ) → (rest : List ℕ) → QueuedLogin → Lobby → Response
response_of a client_id rest c l =
    if c.user_character_load_requested && a.are_data_being_loaded c.user_name
    then (l, [], false)
    else response_with a client_id rest c l (a.character_uid c.user_name)

abbrev pub process_response : Answers → List ℕ → Lobby → Response
process_response a [] l = (l, [], false)
process_response a (client_id ∷ rest) l =
    response_of a client_id rest (login_of (Dict.find client_id l.client_logins))
      (with_login client_id l)

-- LobbyDirector::ProcesLoginResponse
unfoldable pub process_login_response : Answers → Lobby → Response
process_login_response a l = process_response a l.login_response_queue l

-- The verdicts on the user name of a login, the last one last.
unfoldable pub apply_verdicts : List Verdict → QueuedLogin → QueuedLogin
apply_verdicts [] c = c
apply_verdicts (v ∷ verdicts) c =
    let told = apply_verdicts verdicts (record c { is_authenticated = some v.is_authenticated }) in
    let untold = apply_verdicts verdicts c in if v.user_name == c.user_name then told else untold

unfoldable pub apply_to_all : List Verdict → Dict QueuedLogin → Dict QueuedLogin
apply_to_all verdicts [] = []
apply_to_all verdicts ((client_id, c) ∷ logins) =
    (client_id, apply_verdicts verdicts c) ∷ apply_to_all verdicts logins

-- PollAuthenticationVerdicts, and what Tick does with the verdicts.
abbrev pub poll_from : List Verdict → Lobby → Lobby
poll_from [] l = l
poll_from (v ∷ verdicts) l = record l {
  client_logins = apply_to_all (v ∷ verdicts) l.client_logins;
  service = record l.service { verdicts = []; has_verdicts = false };
}

unfoldable pub poll_verdicts : Lobby → Lobby
poll_verdicts l = if l.service.has_verdicts then poll_from l.service.verdicts l else l

-- LobbyDirector::Tick with the answers of the moment; an exception of the first call ends it.
unfoldable pub tick : Answers → Lobby → Lobby × List Request
tick a l =
    let responded = process_login_response a l in
    let requested = process_login_request a responded.0 in
    if responded.2
    then (responded.0, responded.1)
    else (poll_verdicts requested.0, responded.1 ++ requested.1)
