-- ===== src/Login.antt =====
-- The queues of logins and the users of LobbyDirector (server/lobby). Names and tokens are numbers
-- that stand for texts, 0 for the empty one. What the data director and the infraction system answer
-- is an argument.
pub mod Processing
pub mod Vouched
pub mod Granted
pub mod Online
pub mod Reached
pub mod Renamed
pub mod Users
pub mod Clients
pub mod Examples
use alicia_server.Common.{
  ℕ, ◌+◌, Bool, true, false, not, ◌&&◌, ◌||◌, Option, none, some, List, [], ◌∷◌, ◌++◌, ◌==◌,
  if◌then◌else◌, length,
}
use alicia_server.Common.Dict
use alicia_server.Common.Dict.{Dict}
use alicia_server.Authentication.{AuthenticationService, Verdict, new_service, queue_authentication}

-- LobbyDirector::QueuedLogin
pub record QueuedLogin : Type 0 where
  pub user_name : ℕ
  pub user_token : ℕ
  pub is_authenticated : Option Bool
  pub user_authentication_requested : Bool
  pub user_load_requested : Bool
  pub user_character_load_requested : Bool

abbrev pub blank_login : QueuedLogin
blank_login = record {
  user_name = 0;
  user_token = 0;
  is_authenticated = none;
  user_authentication_requested = false;
  user_load_requested = false;
  user_character_load_requested = false;
}

-- LobbyDirector::UserInstance
pub record UserInstance : Type 0 where
  pub ranch_otp_code : ℕ
  pub race_otp_code : ℕ
  pub user_name : ℕ
  pub character_uid : ℕ
  pub room_uid : ℕ
  pub visit_preference : ℕ

-- LobbyDirector, with the authentication service of the server instance.
pub record Lobby : Type 0 where
  pub client_logins : Dict QueuedLogin
  pub user_instances : Dict UserInstance
  pub characters_forced_into_creator : Dict (Unit {0})
  pub login_request_queue : List ℕ
  pub login_response_queue : List ℕ
  pub service : AuthenticationService

abbrev pub new_lobby : Lobby
new_lobby = record {
  client_logins = [];
  user_instances = [];
  characters_forced_into_creator = [];
  login_request_queue = [];
  login_response_queue = [];
  service = new_service;
}

-- What the data director and the infraction system answer, by user name. `character_uid` reads the
-- record of the user, and `none` is an exception.
pub record Answers : Type 0 where
  pub are_data_being_loaded : ℕ → Bool
  pub are_user_data_loaded : ℕ → Bool
  pub are_character_data_loaded : ℕ → Bool
  pub character_uid : ℕ → Option ℕ
  pub prevents_server_joining : ℕ → Bool

-- AcCmdCLLoginCancel::Reason, as far as it is used.
pub data Reason : Type 0 where
  invalid_user generic disconnect_yourself duplicated invalid_login_id : Reason

-- What the director asks of others.
pub data Request : Type 0 where
  reject_login : (client_id : ℕ) → Reason → Request
  accept_login : (client_id : ℕ) → (requires_character_creator : Bool) → Request
  load_user : (user_name : ℕ) → Request
  load_character : (user_name character_uid : ℕ) → Request

unfoldable pub queue_client_connect : ℕ → Lobby → Lobby × Bool
queue_client_connect client_id l = (
  record l { client_logins = Dict.try_emplace client_id blank_login l.client_logins },
  not (Dict.contains client_id l.client_logins),
)

unfoldable pub queue_client_login : (client_id user_name user_token : ℕ) → Lobby → Lobby × ℕ
queue_client_login client_id user_name user_token l =
    let requests = l.login_request_queue ++ (client_id ∷ []) in
    if Dict.contains client_id l.client_logins
    then (
      record l {
        client_logins =
            Dict.modify client_id (λ c. record c { user_name = user_name; user_token = user_token })
              l.client_logins;
        login_request_queue = requests;
      },
      length requests + length l.login_response_queue,
    )
    else (l, 99)

-- std::list::remove
unfoldable pub remove : ℕ → List ℕ → List ℕ
remove a [] = []
remove a (x ∷ xs) = let rest = remove a xs in if x == a then rest else x ∷ rest

unfoldable pub queue_client_disconnect : ℕ → Lobby → Lobby
queue_client_disconnect client_id l = record l {
  login_request_queue = remove client_id l.login_request_queue;
  login_response_queue = remove client_id l.login_response_queue;
  client_logins = Dict.erase client_id l.client_logins;
}

unfoldable pub queue_client_logout : ℕ → Lobby → Lobby
queue_client_logout user_name l = record l {
  user_instances = Dict.erase user_name l.user_instances;
}

unfoldable pub set_character_forced_into_creator : ℕ → Bool → Lobby → Lobby
set_character_forced_into_creator character_uid forced l = record l {
  characters_forced_into_creator =
      if forced
      then Dict.try_emplace character_uid tt l.characters_forced_into_creator
      else Dict.erase character_uid l.characters_forced_into_creator;
}

-- `_clientLogins[clientId]`
abbrev pub login_of : Option QueuedLogin → QueuedLogin
login_of none = blank_login
login_of (some c) = c

abbrev pub change_login : ℕ → (QueuedLogin → QueuedLogin) → Lobby → Lobby
change_login client_id f l = record l { client_logins = Dict.modify client_id f l.client_logins }

-- The entry of a client is made where it is missing.
abbrev pub with_login : ℕ → Lobby → Lobby
with_login client_id l = record l {
  client_logins = Dict.try_emplace client_id blank_login l.client_logins;
}
