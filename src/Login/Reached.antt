-- ===== src/Login/Reached.antt =====
-- What the lobby can come to, with the operations that clients call.
use alicia_server.Common.{
  ℕ, ◌≡◌, ◌≢◌, inl, inr, sym, ap, ◌∙◌, subst, Bool, true, false, Option, none, some, List, [], ◌∷◌,
  ◌++◌, ◌==◌, member, All, All-append, arith, Bool-cases, Option-cases, ==_iff,
}
use alicia_server.Common.Dict
use alicia_server.Common.Dict.{Dict}
use alicia_server.Authentication.{
  Authentication, Verdict, AuthenticationService, conclude, authenticate, authenticate_first,
}
use alicia_server.Login.{
  QueuedLogin, blank_login, UserInstance, Lobby, queue_client_connect, queue_client_login,
  queue_client_disconnect, queue_client_logout, set_character_forced_into_creator,
}
use alicia_server.Login.Vouched.{
  Step, connects, logs_in, disconnects, logs_out, forces, authenticates, ticks, Reach, start, after,
  keys, Waits, Vouched, new_lobby-Vouched, member-append, member-remove, Distinct-append,
  remove-Distinct, waits_on,
}
use alicia_server.Login.Granted.{either, entry_of, erase_waits, erase_found, served}
use alicia_server.Login.Online.{tick-Vouched}

-- The entry of a client that is there stays, and a new one is blank.
connected :
    (c j : ℕ) (d : Dict QueuedLogin) (q : QueuedLogin)
    → Dict.find j d ≡ some q
    → Dict.find j (Dict.try_emplace c blank_login d) ≡ some q
unfolding Dict.try_emplace
connected c j d q e = elim (Bool-cases (c == j)) [
  | inl h ↦ let s = (==_iff c j).0 h in ground (arith, Dict.find-assign c j blank_login d)
  | inr h ↦ ground (arith, Dict.find-assign c j blank_login d)
]

connected_grants :
    (c j : ℕ) (d : Dict QueuedLogin) (q : QueuedLogin)
    → Dict.find j (Dict.try_emplace c blank_login d) ≡ some q
    → q.is_authenticated ≡ some true
    → Dict.find j d ≡ some q
unfolding Dict.try_emplace
connected_grants c j d q e a = elim (Option-cases (Dict.find j d)) [
  | inl n ↦
      let f = Dict.find-assign c j blank_login d in
      elim (Bool-cases (c == j)) [
        | inl h ↦
            let s = (==_iff c j).0 h in
            let blank : some blank_login ≡ some q = (ground arith) in absurd (let z = a in cc)
        | inr h ↦ ground arith
      ]
  | inr (p, h) ↦ h ∙ sym (connected c j d p h) ∙ e
]

abbrev connected_waits :
    (c j : ℕ) (d : Dict QueuedLogin) → Waits d j → Waits (Dict.try_emplace c blank_login d) j
connected_waits c j d w =
    let q = entry_of (Dict.find j d) w.name w.token w.entry in
    waits_on d (Dict.try_emplace c blank_login d) j
      (ap keys (connected c j d q.0 q.1) ∙ sym (ap keys q.1)) w

-- A client whose entry is blank waits nowhere.
blank_idle :
    (c : ℕ) (d : Dict QueuedLogin)
    → Dict.find c d ≡ some blank_login
    → (w : Waits d c) → w.token ≡ 0
blank_idle c d e w = let k = sym (ap keys e) ∙ w.entry in cc

find-modify_other :
    (c j : ℕ) (f : QueuedLogin → QueuedLogin) (d : Dict QueuedLogin)
    → (c == j) ≡ false
    → Dict.find j (Dict.modify c f d) ≡ Dict.find j d
find-modify_other c j f d h = ground (arith, Dict.find-modify c j f d)

find-modify_self :
    (c : ℕ) (f : QueuedLogin → QueuedLogin) (d : Dict QueuedLogin) (q : QueuedLogin)
    → Dict.find c d ≡ some q
    → Dict.find c (Dict.modify c f d) ≡ some (f q)
find-modify_self c f d q e = ground (arith, Dict.find-modify c c f d)

conclude-granted :
    (G : ℕ → Type 0) (r : Authentication) (rest : List Authentication) (s : AuthenticationService)
    → All (λ (x : Verdict). x.is_authenticated ≡ true → G x.user_name) s.verdicts
    → (o : Option Bool) → (o ≡ some true → G r.user_name)
    → All
        (λ (x : Verdict). x.is_authenticated ≡ true → G x.user_name)
        (conclude r rest s o).verdicts
conclude-granted G r rest s h none g = h
conclude-granted G r rest s h (some b) g =
    All-append (λ (x : Verdict). x.is_authenticated ≡ true → G x.user_name) s.verdicts
      (record { user_name = r.user_name; is_authenticated = b } ∷ []) h ((λ e. g (ap some e)), tt)

authenticate-granted :
    (G : ℕ → Type 0) (backend : ℕ → ℕ → Option Bool)
    → ((name token : ℕ) → backend name token ≡ some true → G name)
    → (s : AuthenticationService)
    → All (λ (x : Verdict). x.is_authenticated ≡ true → G x.user_name) s.verdicts
    → (queue : List Authentication)
    → All
        (λ (x : Verdict). x.is_authenticated ≡ true → G x.user_name)
        (authenticate_first backend queue s).verdicts
authenticate-granted G backend granted s h [] = h
authenticate-granted G backend granted s h (r ∷ rest) =
    conclude-granted G r rest s h (backend r.user_name r.user_token)
      (granted r.user_name r.user_token)

module _ (G : ℕ → Type 0) (l : Lobby) (v : Vouched G l) where
  queue_client_logout-Vouched : (name : ℕ) → Vouched G (queue_client_logout name l)
  unfolding queue_client_logout
  queue_client_logout-Vouched name = record {
    verdicts = v.verdicts;
    logins = v.logins;
    requests = v.requests;
    responses = v.responses;
    requests_once = v.requests_once;
    responses_once = v.responses_once;
    apart = v.apart;
    online = λ n u e. v.online n u (ground (arith, Dict.find-erase name n l.user_instances));
  }

  set_character_forced_into_creator-Vouched :
      (character : ℕ) (forced : Bool)
      → Vouched G (set_character_forced_into_creator character forced l)
  unfolding set_character_forced_into_creator
  set_character_forced_into_creator-Vouched character forced = record {
    verdicts = v.verdicts;
    logins = v.logins;
    requests = v.requests;
    responses = v.responses;
    requests_once = v.requests_once;
    responses_once = v.responses_once;
    apart = v.apart;
    online = v.online;
  }

  queue_client_disconnect-Vouched : (c : ℕ) → Vouched G (queue_client_disconnect c l)
  unfolding queue_client_disconnect
  queue_client_disconnect-Vouched c = record {
    verdicts = v.verdicts;
    logins = λ j p f a. v.logins j p (erase_found c j p l.client_logins f) a;
    requests = λ j h.
        let m = member-remove j c l.login_request_queue in
        erase_waits c j l.client_logins (ground arith) (v.requests j (ground arith));
    responses = λ j h.
        let m = member-remove j c l.login_response_queue in
        let w = v.responses j (ground arith) in
        (erase_waits c j l.client_logins (ground arith) w.0, w.1);
    requests_once = remove-Distinct c l.login_request_queue v.requests_once;
    responses_once = remove-Distinct c l.login_response_queue v.responses_once;
    apart = λ j h.
        let m = member-remove j c l.login_request_queue in
        let n = member-remove j c l.login_response_queue in
        let k = v.apart j (ground arith) in ground arith;
    online = v.online;
  }

  queue_client_connect-Vouched : (c : ℕ) → Vouched G (queue_client_connect c l).0
  unfolding queue_client_connect
  queue_client_connect-Vouched c = record {
    verdicts = v.verdicts;
    logins = λ j q e a. v.logins j q (connected_grants c j l.client_logins q e a) a;
    requests = λ j h. connected_waits c j l.client_logins (v.requests j h);
    responses = λ j h. let w = v.responses j h in (connected_waits c j l.client_logins w.0, w.1);
    requests_once = v.requests_once;
    responses_once = v.responses_once;
    apart = v.apart;
    online = v.online;
  }

  -- The client that logs in waits nowhere yet.
  module _ (c name token : ℕ) (blank : Dict.find c l.client_logins ≡ some blank_login)
      (given : token ≢ 0) where
    not_requested : member c l.login_request_queue ≡ false
    not_requested = elim (Bool-cases (member c l.login_request_queue)) [
      | inl h ↦
          let w = v.requests c h in absurd (w.has_token (blank_idle c l.client_logins blank w))
      | inr h ↦ h
    ]

    not_responded : member c l.login_response_queue ≡ false
    not_responded = elim (Bool-cases (member c l.login_response_queue)) [
      | inl h ↦
          let w = (v.responses c h).0 in absurd (w.has_token (blank_idle c l.client_logins blank w))
      | inr h ↦ h
    ]

    abbrev named : QueuedLogin → QueuedLogin
    named q = record q { user_name = name; user_token = token }

    elsewhere : (j : ℕ) (xs : List ℕ) → member c xs ≡ false → member j xs ≡ true → (c == j) ≡ false
    elsewhere j xs h m = elim (Bool-cases (c == j)) [
      | inl e ↦ absurd (let k = ap (λ i. member i xs) ((==_iff c j).0 e) in ground arith)
      | inr e ↦ e
    ]

    named_grants :
        (j : ℕ) (q : QueuedLogin)
        → Dict.find j (Dict.modify c named l.client_logins) ≡ some q
        → q.is_authenticated ≡ some true
        → G q.user_name
    named_grants j q e a = elim (Bool-cases (c == j)) [
      | inl h ↦
          let s = find-modify_self c named l.client_logins blank_login blank in
          let k = ap (λ i. Dict.find i (Dict.modify c named l.client_logins)) ((==_iff c j).0 h) in
          let z : some (named blank_login) ≡ some q = (sym s ∙ k ∙ e) in absurd (let y = a in cc)
      | inr h ↦ v.logins j q (sym (find-modify_other c j named l.client_logins h) ∙ e) a
    ]

    abbrev named_waits :
        (j : ℕ)
        → (c == j) ≡ false
        → Waits l.client_logins j
        → Waits (Dict.modify c named l.client_logins) j
    named_waits j h w =
        waits_on l.client_logins (Dict.modify c named l.client_logins) j
          (ap keys (find-modify_other c j named l.client_logins h)) w

    queued :
        (j : ℕ)
        → member j (l.login_request_queue ++ (c ∷ [])) ≡ true
        → Waits (Dict.modify c named l.client_logins) j
    queued j m = elim (Bool-cases (c == j)) [
      | inl h ↦ subst (Waits (Dict.modify c named l.client_logins)) ((==_iff c j).0 h) record {
        name = name;
        token = token;
        entry = ap keys (find-modify_self c named l.client_logins blank_login blank);
        has_token = given;
      }
      | inr h ↦
          named_waits j h
            (v.requests j (let x = member-append j l.login_request_queue (c ∷ []) in ground arith))
    ]

    queue_client_login-Vouched : Vouched G (queue_client_login c name token l).0
    unfolding queue_client_login
    queue_client_login-Vouched =
        either (λ (r : Lobby × ℕ). Vouched G r.0) (Dict.contains c l.client_logins)
          record {
            verdicts = v.verdicts;
            logins = named_grants;
            requests = queued;
            responses = λ j h.
                let w = v.responses j h in
                (named_waits j (elsewhere j l.login_response_queue not_responded h) w.0, w.1);
            requests_once = Distinct-append l.login_request_queue c v.requests_once not_requested;
            responses_once = v.responses_once;
            apart = λ j h. elim (Bool-cases (c == j)) [
              | inl e ↦
                  subst (λ i. member i l.login_response_queue ≡ false) ((==_iff c j).0 e)
                    not_responded
              | inr e ↦
                  v.apart j (let x = member-append j l.login_request_queue (c ∷ []) in ground arith)
            ];
            online = v.online;
          }
          v

Step-Vouched : (G : ℕ → Type 0) {l l' : Lobby} → Vouched G l → Step G l l' → Vouched G l'
unfolding authenticate
Step-Vouched G v (connects c l) = queue_client_connect-Vouched G l v c
Step-Vouched G v (logs_in c name token l blank given) =
    queue_client_login-Vouched G l v c name token blank given
Step-Vouched G v (disconnects c l) = queue_client_disconnect-Vouched G l v c
Step-Vouched G v (logs_out name l) = queue_client_logout-Vouched G l v name
Step-Vouched G v (forces character forced l) =
    set_character_forced_into_creator-Vouched G l v character forced
Step-Vouched G v (authenticates backend l granted) =
    served v (authenticate-granted G backend granted l.service v.verdicts l.service.queue)
Step-Vouched G v (ticks a l) = tick-Vouched G a l v

Reach-Vouched : (G : ℕ → Type 0) {l : Lobby} → Reach G l → Vouched G l
Reach-Vouched G start = new_lobby-Vouched G
Reach-Vouched G (after r s) = Step-Vouched G (Reach-Vouched G r) s

-- Whatever happens to a lobby that starts empty, every user who is online has a name for which the
-- backend has once answered yes, as long as each client that logs in does so with a token and on
-- the blank entry that was made when it connected.
pub Reach-online :
    (Granted : ℕ → Type 0) (l : Lobby)
    → Reach Granted l
    → (name : ℕ) (u : UserInstance) → Dict.find name l.user_instances ≡ some u
    → Granted name
Reach-online Granted l r = (Reach-Vouched Granted r).online
