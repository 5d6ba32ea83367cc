-- ===== src/Login/Vouched.antt =====
-- Who is online has been vouched for by the backend, as long as every client logs in once.
use alicia_server.Common.{
  ℕ, ◌≡◌, ◌≢◌, refl, ap, ◌∙◌, subst, Bool, true, false, not, ◌&&◌, ◌||◌, Option, none, some, List,
  [], ◌∷◌, ◌++◌, ◌==◌, member, All, arith,
}
use alicia_server.Common.Dict
use alicia_server.Common.Dict.{Dict}
use alicia_server.Authentication.{Verdict, authenticate}
use alicia_server.Login.{
  QueuedLogin, blank_login, UserInstance, Lobby, new_lobby, Answers, queue_client_connect,
  queue_client_login, remove, queue_client_disconnect, queue_client_logout,
  set_character_forced_into_creator,
}
use alicia_server.Login.Processing.{tick}

-- What can happen to a lobby, if the backend answers yes only for names that are `Granted`. A client
-- logs in once, on the entry that was made when it connected, and with a token.
pub data Step (Granted : ℕ → Type 0) : Lobby → Lobby → Type 0 where
  connects : (c : ℕ) (l : Lobby) → Step Granted l (queue_client_connect c l).0
  logs_in :
      (c name token : ℕ) (l : Lobby)
      → Dict.find c l.client_logins ≡ some blank_login
      → token ≢ 0
      → Step Granted l (queue_client_login c name token l).0
  disconnects : (c : ℕ) (l : Lobby) → Step Granted l (queue_client_disconnect c l)
  logs_out : (name : ℕ) (l : Lobby) → Step Granted l (queue_client_logout name l)
  forces :
      (character : ℕ) (forced : Bool) (l : Lobby)
      → Step Granted l (set_character_forced_into_creator character forced l)
  authenticates :
      (backend : ℕ → ℕ → Option Bool) (l : Lobby)
      → ((name token : ℕ) → backend name token ≡ some true → Granted name)
      → Step Granted l (record l { service = authenticate backend l.service })
  ticks : (a : Answers) (l : Lobby) → Step Granted l (tick a l).0

pub data Reach (Granted : ℕ → Type 0) : Lobby → Type 0 where
  start : Reach Granted new_lobby
  after : {l l' : Lobby} → Reach Granted l → Step Granted l l' → Reach Granted l'

-- The name and the token of a login.
abbrev pub keys : Option QueuedLogin → Option (ℕ × ℕ)
keys none = none
keys (some q) = some (q.user_name, q.user_token)

abbrev pub Distinct : List ℕ → Type 0
Distinct [] = Unit {0}
Distinct (x ∷ xs) = (member x xs ≡ false) × Distinct xs

-- A client in the request queue has a login with a token.
pub record Waits (logins : Dict QueuedLogin) (c : ℕ) : Type 0 where
  pub name : ℕ
  pub token : ℕ
  pub entry : keys (Dict.find c logins) ≡ some (name, token)
  pub has_token : token ≢ 0

-- The users who come online next, and those who are, are granted.
pub record Vouched (G : ℕ → Type 0) (l : Lobby) : Type 0 where
  pub verdicts : All (λ (v : Verdict). v.is_authenticated ≡ true → G v.user_name) l.service.verdicts
  pub logins :
      (c : ℕ) (q : QueuedLogin)
      → Dict.find c l.client_logins ≡ some q
      → q.is_authenticated ≡ some true
      → G q.user_name
  pub requests : (c : ℕ) → member c l.login_request_queue ≡ true → Waits l.client_logins c
  pub responses :
      (c : ℕ) → member c l.login_response_queue ≡ true → (w : Waits l.client_logins c) × G w.name
  pub requests_once : Distinct l.login_request_queue
  pub responses_once : Distinct l.login_response_queue
  pub apart :
      (c : ℕ) → member c l.login_request_queue ≡ true → member c l.login_response_queue ≡ false
  pub online : (name : ℕ) (u : UserInstance) → Dict.find name l.user_instances ≡ some u → G name

pub new_lobby-Vouched : (G : ℕ → Type 0) → Vouched G new_lobby
unfolding Dict.find
new_lobby-Vouched G = record {
  verdicts = tt;
  logins = λ c q e. absurd (let p = e in cc);
  requests = λ c e. absurd (let p = e in cc);
  responses = λ c e. absurd (let p = e in cc);
  requests_once = tt;
  responses_once = tt;
  apart = λ c e. refl;
  online = λ n u e. absurd (let p = e in cc);
}

pub member-append : (c : ℕ) (xs ys : List ℕ) → member c (xs ++ ys) ≡ (member c xs || member c ys)
member-append c [] ys = refl
member-append c (x ∷ xs) ys = ground (arith, member-append c xs ys)

pub member-remove : (c d : ℕ) (xs : List ℕ) → member c (remove d xs) ≡ (member c xs && not (c == d))
unfolding remove
member-remove c d [] = refl
member-remove c d (x ∷ xs) = ground (arith, member-remove c d xs)

pub Distinct-append :
    (xs : List ℕ) (c : ℕ) → Distinct xs → member c xs ≡ false → Distinct (xs ++ (c ∷ []))
Distinct-append [] c d h = (refl, tt)
Distinct-append (x ∷ xs) c d h =
    ground (arith, Distinct-append xs c d.1, member-append x xs (c ∷ []))

pub remove-Distinct : (c : ℕ) (xs : List ℕ) → Distinct xs → Distinct (remove c xs)
unfolding remove
remove-Distinct c [] d = tt
remove-Distinct c (x ∷ xs) d = ground (arith, remove-Distinct c xs d.1, member-remove x c xs)

-- Entries that keep their names and tokens.
abbrev pub waits_on :
    (d d' : Dict QueuedLogin) (c : ℕ)
    → keys (Dict.find c d') ≡ keys (Dict.find c d)
    → Waits d c
    → Waits d' c
waits_on d d' c same w = record {
  name = w.name;
  token = w.token;
  entry = same ∙ w.entry;
  has_token = w.has_token;
}

module _ (G : ℕ → Type 0) (l : Lobby) (v : Vouched G l) where
  -- New entries under the old names and tokens.
  pub relogged :
      (d : Dict QueuedLogin)
      → ((c : ℕ) → keys (Dict.find c d) ≡ keys (Dict.find c l.client_logins))
      → ((c : ℕ) (q : QueuedLogin)
          → Dict.find c d ≡ some q
          → q.is_authenticated ≡ some true
          → G q.user_name)
      → Vouched G (record l { client_logins = d })
  relogged d same granted = record {
    verdicts = v.verdicts;
    logins = granted;
    requests = λ c h. waits_on l.client_logins d c (same c) (v.requests c h);
    responses = λ c h. let w = v.responses c h in (waits_on l.client_logins d c (same c) w.0, w.1);
    requests_once = v.requests_once;
    responses_once = v.responses_once;
    apart = v.apart;
    online = v.online;
  }

  pub request_popped :
      (c : ℕ) (rest : List ℕ)
      → l.login_request_queue ≡ c ∷ rest
      → Vouched G (record l { login_request_queue = rest })
  request_popped c rest e = record {
    verdicts = v.verdicts;
    logins = v.logins;
    requests = λ j h. v.requests j (ap (member j) e ∙ ground arith);
    responses = v.responses;
    requests_once = (subst Distinct e v.requests_once).1;
    responses_once = v.responses_once;
    apart = λ j h. v.apart j (ap (member j) e ∙ ground arith);
    online = v.online;
  }

  pub response_popped :
      (c : ℕ) (rest : List ℕ)
      → l.login_response_queue ≡ c ∷ rest
      → Vouched G (record l { login_response_queue = rest })
  response_popped c rest e = record {
    verdicts = v.verdicts;
    logins = v.logins;
    requests = v.requests;
    responses = λ j h. v.responses j (ap (member j) e ∙ ground arith);
    requests_once = v.requests_once;
    responses_once = (subst Distinct e v.responses_once).1;
    apart = λ j h. let k = v.apart j h in let f = ap (member j) e in ground arith;
    online = v.online;
  }
