-- ===== src/Login/Renamed.antt =====
-- A client that logs in a second time, under another name.
use alicia_server.Common.{
  ℕ, ◌≡◌, refl, ap, ◌∙◌, true, false, Option, some, List, [], ◌∷◌, ◌++◌, arith,
}
use alicia_server.Common.Dict
use alicia_server.Common.Dict.{Dict}
use alicia_server.Login.{QueuedLogin, Lobby, Answers, queue_client_login, login_of}
use alicia_server.Login.Processing.{
  admit, request_authenticated, request_of, process_login_request, process_request,
}
use alicia_server.Login.Granted.{with_login_present}

-- A login that has been authenticated, and whose data are loaded, is admitted.
request_of_authenticated :
    (a : Answers) (c : ℕ) (rest : List ℕ) (q : QueuedLogin) (l : Lobby)
    → q.is_authenticated ≡ some true
    → q.user_authentication_requested ≡ true
    → q.user_load_requested ≡ true
    → a.are_data_being_loaded q.user_name ≡ false
    → a.are_user_data_loaded q.user_name ≡ true
    → a.prevents_server_joining q.user_name ≡ false
    → request_of a c rest q l ≡ (
      record l {
        login_request_queue = rest;
        login_response_queue = l.login_response_queue ++ (c ∷ []);
      },
      [],
    )
unfolding request_of request_authenticated admit
request_of_authenticated a c rest q l h asked loading busy loaded free =
    rw (asked, h, loading, busy, loaded, free) refl

queue_client_login_present :
    (c name token : ℕ) (q : QueuedLogin) (l : Lobby)
    → Dict.find c l.client_logins ≡ some q
    → (queue_client_login c name token l).0 ≡ record l {
      client_logins =
          Dict.modify c (λ x. record x { user_name = name; user_token = token }) l.client_logins;
      login_request_queue = l.login_request_queue ++ (c ∷ []);
    }
unfolding queue_client_login
queue_client_login_present c name token q l e = rw e refl

process_request_present :
    (a : Answers) (c : ℕ) (rest : List ℕ) (q : QueuedLogin) (l : Lobby)
    → Dict.find c l.client_logins ≡ some q
    → process_request a (c ∷ rest) l ≡ request_of a c rest q l
process_request_present a c rest q l e =
    ap (λ (p : Option QueuedLogin × Lobby). request_of a c rest (login_of p.0) p.1)
      (λ i. (e i, with_login_present c q l e i))

-- If a client whose login has been authenticated is at the head of the request queue, with its user
-- data asked for, and logs in again under any name and token, and the data of that name are loaded
-- and nothing prevents it from joining, then the next request that is processed moves the client to
-- the response queue under the new name, and the authentication service is not asked about the new
-- name.
pub process_login_request-queue_client_login :
    (a : Answers) (c name token : ℕ) (q : QueuedLogin) (rest : List ℕ) (l : Lobby)
    → Dict.find c l.client_logins ≡ some q
    → q.is_authenticated ≡ some true
    → q.user_authentication_requested ≡ true
    → q.user_load_requested ≡ true
    → l.login_request_queue ≡ c ∷ rest
    → a.are_data_being_loaded name ≡ false
    → a.are_user_data_loaded name ≡ true
    → a.prevents_server_joining name ≡ false
    → process_login_request a (queue_client_login c name token l).0 ≡ (
      record l {
        client_logins =
            Dict.modify c (λ x. record x { user_name = name; user_token = token }) l.client_logins;
        login_request_queue = rest ++ (c ∷ []);
        login_response_queue = l.login_response_queue ++ (c ∷ []);
      },
      [],
    )
unfolding process_login_request
process_login_request-queue_client_login a c name token q rest l e h asked loading head busy loaded
      free =
    let f = (λ (x : QueuedLogin). record x { user_name = name; user_token = token }) in
    let m = record l {
      client_logins = Dict.modify c f l.client_logins;
      login_request_queue = l.login_request_queue ++ (c ∷ []);
    } in
    let entry : Dict.find c m.client_logins ≡ some (f q) =
      ground (arith, Dict.find-modify c c f l.client_logins) in
    ap (process_login_request a) (queue_client_login_present c name token q l e)
    ∙ ap (λ queue. process_request a (queue ++ (c ∷ [])) m) head
    ∙ process_request_present a c (rest ++ (c ∷ [])) (f q) m entry
    ∙ request_of_authenticated a c (rest ++ (c ∷ [])) (f q) m h asked loading busy loaded free
