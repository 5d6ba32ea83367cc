-- ===== src/Login/Clients.antt =====
-- The clients of LobbyNetworkHandler (server/lobby), in front of the queues of logins. What the
-- handlers queue on the director's scheduler is part of their results.
use alicia_server.Common.{
  ℕ, ◌≡◌, ◌≢◌, refl, ◌-◌, Bool, true, false, not, ◌&&◌, ◌||◌, Option, none, some, List, [], ◌∷◌,
  ltb, ◌==◌, if◌then◌else◌, arith, is_some,
}
use alicia_server.Common.Dict
use alicia_server.Common.Dict.{Dict}
use alicia_server.Login.{Reason, invalid_login_id, duplicated}

-- LobbyNetworkHandler::ClientContext; a time point is a number of seconds.
pub record ClientContext : Type 0 where
  pub is_authenticated : Bool
  pub is_in_character_creator : Bool
  pub just_created_character : Bool
  pub last_heartbeat : ℕ
  pub user_name : ℕ
  pub character_uid : ℕ
  pub rancher_visit_preference : ℕ

abbrev pub new_context : ClientContext
new_context = record {
  is_authenticated = false;
  is_in_character_creator = false;
  just_created_character = false;
  last_heartbeat = 0;
  user_name = 0;
  character_uid = 0;
  rancher_visit_preference = 0;
}

abbrev pub Clients : Type 0
Clients = Dict ClientContext

abbrev pub if_authenticated :
    (require_authentication : Bool) → Option ClientContext → Option ClientContext
if_authenticated require_authentication none = none
if_authenticated require_authentication (some c) =
    if require_authentication && not c.is_authenticated then none else some c

-- `none` is an exception, here and below.
unfoldable pub get_client_context :
    ℕ → (require_authentication : Bool) → Clients → Option ClientContext
get_client_context client_id require_authentication clients =
    if_authenticated require_authentication (Dict.find client_id clients)

unfoldable pub get_client_id_by_user_name : ℕ → (requires_authorization : Bool) → Clients → Option ℕ
get_client_id_by_user_name user_name requires_authorization [] = none
get_client_id_by_user_name user_name requires_authorization ((client_id, c) ∷ clients) =
    let rest = get_client_id_by_user_name user_name requires_authorization clients in
    if not (c.user_name == user_name)
    then rest
    else if c.is_authenticated || not requires_authorization
    then some client_id
    else rest

unfoldable pub get_client_id_by_character_uid :
    ℕ → (requires_authorization : Bool) → Clients → Option ℕ
get_client_id_by_character_uid character_uid requires_authorization [] = none
get_client_id_by_character_uid character_uid requires_authorization ((client_id, c) ∷ clients) =
    let rest = get_client_id_by_character_uid character_uid requires_authorization clients in
    if not (c.character_uid == character_uid)
    then rest
    else if c.is_authenticated || not requires_authorization
    then some client_id
    else rest

unfoldable pub has_reached_timeout : (now : ℕ) → ClientContext → Bool
has_reached_timeout now c =
    ltb (if c.is_in_character_creator then 900 else 60) (now - c.last_heartbeat)

-- The clients to disconnect, with the characters that leave the ranch and the race.
unfoldable pub handle_network_tick : (now : ℕ) → Clients → List (ℕ × ℕ)
handle_network_tick now [] = []
handle_network_tick now ((client_id, c) ∷ clients) =
    let rest = handle_network_tick now clients in
    if not (has_reached_timeout now c) then rest else (client_id, c.character_uid) ∷ rest

unfoldable pub handle_client_connected : (now client_id : ℕ) → Clients → Clients
handle_client_connected now client_id clients =
    Dict.modify client_id (λ c. record c { last_heartbeat = now })
      (Dict.try_emplace client_id new_context clients)

-- The name whose logout is queued, if the client is authenticated; its disconnect always is.
abbrev pub logout_of : ClientContext → Option ℕ
logout_of c = if c.is_authenticated then some c.user_name else none

abbrev pub disconnected : ℕ → Clients → Option ClientContext → Option (Clients × Option ℕ)
disconnected client_id clients none = none
disconnected client_id clients (some c) = some (Dict.erase client_id clients, logout_of c)

unfoldable pub handle_client_disconnected : ℕ → Clients → Option (Clients × Option ℕ)
unfolding get_client_context
handle_client_disconnected client_id clients =
    disconnected client_id clients (get_client_context client_id false clients)

pub data LoginResult : Type 0 where
  cancelled : Reason → LoginResult
  queued : (clients : Clients) → LoginResult
  threw : LoginResult

unfoldable pub is_name_taken : ℕ → Clients → Bool
is_name_taken login_id [] = false
is_name_taken login_id ((client_id, c) ∷ clients) =
    let rest = is_name_taken login_id clients in
    if not (c.user_name == login_id) || not c.is_authenticated then rest else true

abbrev pub named : (client_id login_id : ℕ) → Clients → Option ClientContext → LoginResult
named client_id login_id clients none = threw
named client_id login_id clients (some c) =
    queued (Dict.modify client_id (λ x. record x { user_name = login_id }) clients)

unfoldable pub handle_login : (client_id login_id auth_key : ℕ) → Clients → LoginResult
unfolding get_client_context
handle_login client_id login_id auth_key clients =
    if (login_id == 0) || (auth_key == 0)
    then cancelled invalid_login_id
    else if is_name_taken login_id clients
    then cancelled duplicated
    else named client_id login_id clients (get_client_context client_id false clients)

-- AcceptLogin, as far as it concerns the context; of a client that has gone nothing is done.
unfoldable pub accept : ℕ → Clients → Clients
accept client_id = Dict.modify client_id (λ c. record c { is_authenticated = true })

abbrev is_queued : LoginResult → Bool
is_queued (cancelled reason) = false
is_queued (queued clients) = true
is_queued threw = false

-- A login that is queued has a name and a token, and no client that is authenticated has the name.
handle_login-is_name_taken :
    (client_id login_id auth_key : ℕ) (clients : Clients)
    → is_queued (handle_login client_id login_id auth_key clients) ≡ true
    → (login_id ≢ 0) × (auth_key ≢ 0) × (is_name_taken login_id clients ≡ false)
unfolding handle_login
handle_login-is_name_taken client_id login_id auth_key clients h = ground arith

-- A name is free exactly when looking for an authenticated client of the name throws.
get_client_id_by_user_name-is_name_taken :
    (login_id : ℕ) (clients : Clients)
    → is_some (get_client_id_by_user_name login_id true clients) ≡ is_name_taken login_id clients
unfolding get_client_id_by_user_name is_name_taken
get_client_id_by_user_name-is_name_taken login_id [] = refl
get_client_id_by_user_name-is_name_taken login_id ((client_id, c) ∷ clients) =
    ground (arith, get_client_id_by_user_name-is_name_taken login_id clients)
