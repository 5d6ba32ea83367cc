-- ===== src/Login/Granted.antt =====
-- Every step of the lobby keeps who is online vouched for.
use alicia_server.Common.{
  ℕ, ◌≡◌, inl, inr, refl, sym, ap, ◌∙◌, subst, Bool, true, false, not, ◌&&◌, Option, none, some,
  List, [], ◌∷◌, ◌==◌, if◌then◌else◌, member, All, arith, Bool-cases, ==_iff,
}
use alicia_server.Common.Dict
use alicia_server.Common.Dict.{Dict}
use alicia_server.Authentication.{Verdict, AuthenticationService, queue_authentication}
use alicia_server.Login.{
  QueuedLogin, UserInstance, Lobby, Answers, Request, change_login, with_login,
}
use alicia_server.Login.Processing.{
  Response, admit, request_authenticated, request_of, new_user, come_online, response_with,
  response_of,
}
use alicia_server.Login.Vouched.{
  keys, Distinct, Waits, Vouched, member-append, Distinct-append, waits_on, relogged,
  request_popped, response_popped,
}

pub either : {A : Type 0} (P : A → Type 0) (b : Bool) {x y : A} → P x → P y → P (if b then x else y)
either P true p q = p
either P false p q = q

-- The entry that a client waits on.
pub entry_of :
    (o : Option QueuedLogin) (name token : ℕ)
    → keys o ≡ some (name, token)
    → (q : QueuedLogin) × (o ≡ some q) × (q.user_name ≡ name)
entry_of none name token e = absurd (let p = e in cc)
entry_of (some q) name token e = (q, refl, cc)

pub with_login_present :
    (c : ℕ) (q : QueuedLogin) (l : Lobby)
    → Dict.find c l.client_logins ≡ some q
    → with_login c l ≡ l
unfolding Dict.try_emplace
with_login_present c q l e = rw e refl

abbrev pub Keeps : (QueuedLogin → QueuedLogin) → Type 0
Keeps f =
    (q : QueuedLogin)
    → ((f q).user_name ≡ q.user_name)
      × ((f q).user_token ≡ q.user_token)
      × ((f q).is_authenticated ≡ q.is_authenticated)

keys_kept :
    (f : QueuedLogin → QueuedLogin) (b : Bool) (o : Option QueuedLogin)
    → Keeps f
    → keys (if b then elim o [ none ↦ none | some q ↦ some (f q) ] else o) ≡ keys o
keys_kept f true none k = refl
keys_kept f true (some q) k = let h = k q in cc
keys_kept f false o k = refl

grants_kept :
    (G : ℕ → Type 0) (f : QueuedLogin → QueuedLogin) (b : Bool) (o : Option QueuedLogin)
    → Keeps f
    → ((q : QueuedLogin) → o ≡ some q → q.is_authenticated ≡ some true → G q.user_name)
    → (q : QueuedLogin) → (if b then elim o [ none ↦ none | some p ↦ some (f p) ] else o) ≡ some q
    → q.is_authenticated ≡ some true
    → G q.user_name
grants_kept G f true none k g q e a = absurd (let p = e in cc)
grants_kept G f true (some p) k g q e a =
    let h = k p in
    let same : f p ≡ q = (let d = e in cc) in
    subst G (sym (k p).0 ∙ ap (λ (x : QueuedLogin). x.user_name) same)
      (g p refl (let d = a in sym h.2 ∙ ap (λ (x : QueuedLogin). x.is_authenticated) same ∙ a))
grants_kept G f false o k g q e a = g q e a

pub find-erase_other :
    (c j : ℕ) (d : Dict QueuedLogin)
    → (c == j) ≡ false
    → Dict.find j (Dict.erase c d) ≡ Dict.find j d
find-erase_other c j d h = ground (arith, Dict.find-erase c j d)

abbrev pub erase_waits :
    (c j : ℕ) (d : Dict QueuedLogin) → (c == j) ≡ false → Waits d j → Waits (Dict.erase c d) j
erase_waits c j d h w = waits_on d (Dict.erase c d) j (ap keys (find-erase_other c j d h)) w

pub erase_found :
    (c j : ℕ) (q : QueuedLogin) (d : Dict QueuedLogin)
    → Dict.find j (Dict.erase c d) ≡ some q
    → Dict.find j d ≡ some q
erase_found c j q d e = ground (arith, Dict.find-erase c j d)

-- A client whose login is vouched for.
granted_waits :
    (G : ℕ → Type 0) (d : Dict QueuedLogin) (c : ℕ) (q : QueuedLogin)
    → Dict.find c d ≡ some q
    → G q.user_name
    → Waits d c
    → (w : Waits d c) × G w.name
granted_waits G d c q f g w = (w, subst G (let k = sym (ap keys f) ∙ w.entry in cc) g)

-- Whoever is found after an assignment was there or is the one assigned.
assign_online :
    (G : ℕ → Type 0) (name : ℕ) (w : UserInstance) (d : Dict UserInstance)
    → G name
    → ((n : ℕ) (u : UserInstance) → Dict.find n d ≡ some u → G n)
    → (n : ℕ) (u : UserInstance) → Dict.find n (Dict.assign name w d) ≡ some u
    → G n
assign_online G name w d g old n u e =
    let f = Dict.find-assign name n w d in
    elim (Bool-cases (name == n)) [
      | inl h ↦ subst G ((==_iff name n).0 h) g
      | inr h ↦ old n u (ground arith)
    ]

-- The service may hold other verdicts that are vouched for.
pub served :
    {G : ℕ → Type 0} {l : Lobby} {s : AuthenticationService}
    → Vouched G l
    → All (λ (v : Verdict). v.is_authenticated ≡ true → G v.user_name) s.verdicts
    → Vouched G (record l { service = s })
served v h = record {
  verdicts = h;
  logins = v.logins;
  requests = v.requests;
  responses = v.responses;
  requests_once = v.requests_once;
  responses_once = v.responses_once;
  apart = v.apart;
  online = v.online;
}

module _ (G : ℕ → Type 0) (l : Lobby) (v : Vouched G l) where
  -- A change that keeps what the login says.
  flagged : (c : ℕ) (f : QueuedLogin → QueuedLogin) → Keeps f → Vouched G (change_login c f l)
  flagged c f same =
      relogged G l v (Dict.modify c f l.client_logins)
        (λ j.
          ap keys (Dict.find-modify c j f l.client_logins)
          ∙ keys_kept f (c == j) (Dict.find j l.client_logins) same)
        (λ j q e a.
          grants_kept G f (c == j) (Dict.find j l.client_logins) same (v.logins j) q
            (sym (Dict.find-modify c j f l.client_logins) ∙ e) a)

  -- A user comes online by a login that was vouched for, which is over then.
  onlined :
      (c : ℕ) (rest : List ℕ) (q : QueuedLogin) (character : ℕ)
      → l.login_response_queue ≡ c ∷ rest
      → G q.user_name
      → Vouched G (come_online c rest q character l).0
  unfolding come_online
  onlined c rest q character e g =
      either (λ (r : Response). Vouched G r.0) (Dict.contains q.user_name l.user_instances)
        (response_popped G l v c rest e)
        record {
          verdicts = v.verdicts;
          logins = λ j p f a. v.logins j p (erase_found c j p l.client_logins f) a;
          requests = λ j h.
              let k = v.apart j h in
              let m = ap (member j) e in
              erase_waits c j l.client_logins (ground arith) (v.requests j h);
          responses = λ j h.
              let m = ap (member j) e in
              let w = v.responses j (m ∙ ground arith) in
              let n = (subst Distinct e v.responses_once).0 in
              (
                erase_waits c j l.client_logins
                    (elim (Bool-cases (c == j)) [
                      | inl x ↦
                          absurd
                            (let y = ap (λ i. member i rest) ((==_iff c j).0 x) in ground arith)
                      | inr x ↦ x
                    ])
                    w.0,
                w.1,
              );
          requests_once = v.requests_once;
          responses_once = (subst Distinct e v.responses_once).1;
          apart = λ j h. let k = v.apart j h in let m = ap (member j) e in ground arith;
          online =
              assign_online G q.user_name (new_user q.user_name character) l.user_instances g
                v.online;
        }

  -- The data of a vouched login are loaded.
  admitted :
      (a : Answers) (c : ℕ) (rest : List ℕ) (q : QueuedLogin)
      → l.login_request_queue ≡ c ∷ rest
      → Dict.find c l.client_logins ≡ some q
      → q.is_authenticated ≡ some true
      → Vouched G (admit a c rest q l).0
  unfolding admit
  admitted a c rest q e f h =
      let popped = request_popped G l v c rest e in
      let P = (λ (r : Lobby × List Request). Vouched G r.0) in
      either P (not (a.are_user_data_loaded q.user_name)) popped (
        either P (a.prevents_server_joining q.user_name) popped record {
          verdicts = v.verdicts;
          logins = v.logins;
          requests = popped.requests;
          responses = λ j m. elim (Bool-cases (member j l.login_response_queue)) [
            | inl k ↦ v.responses j k
            | inr k ↦
                let same : c ≡ j =
                  ((==_iff c j).0
                    (let x = member-append j l.login_response_queue (c ∷ []) in ground arith)) in
                subst (λ i. (w : Waits l.client_logins i) × G w.name) same
                  (granted_waits G l.client_logins c q f (v.logins c q f h)
                    (v.requests c (ap (member c) e ∙ ground arith)))
          ];
          requests_once = popped.requests_once;
          responses_once =
              Distinct-append l.login_response_queue c v.responses_once
                (v.apart c (ap (member c) e ∙ ground arith));
          apart = λ j m.
              let k = popped.apart j m in
              let n = (subst Distinct e v.requests_once).0 in
              let x = member-append j l.login_response_queue (c ∷ []) in
              elim (Bool-cases (c == j)) [
                | inl y ↦
                    absurd (let z = ap (λ i. member i rest) ((==_iff c j).0 y) in ground arith)
                | inr y ↦ ground arith
              ];
          online = v.online;
        })

  request_authenticated-Vouched :
      (a : Answers) (c : ℕ) (rest : List ℕ) (q : QueuedLogin)
      → l.login_request_queue ≡ c ∷ rest
      → Dict.find c l.client_logins ≡ some q
      → (o : Option Bool) → q.is_authenticated ≡ o
      → Vouched G (request_authenticated a c rest q l o).0
  unfolding request_authenticated
  request_authenticated-Vouched a c rest q e f none h = v
  request_authenticated-Vouched a c rest q e f (some false) h = request_popped G l v c rest e
  request_authenticated-Vouched a c rest q e f (some true) h =
      let P = (λ (r : Lobby × List Request). Vouched G r.0) in
      either P (not q.user_load_requested)
        (flagged c (λ x. record x { user_load_requested = true }) (λ x. (refl, refl, refl)))
        (either P (a.are_data_being_loaded q.user_name) v (admitted a c rest q e f h))

  pub request_of-Vouched :
      (a : Answers) (c : ℕ) (rest : List ℕ) (q : QueuedLogin)
      → l.login_request_queue ≡ c ∷ rest
      → Dict.find c l.client_logins ≡ some q
      → Vouched G (request_of a c rest q l).0
  unfolding request_of queue_authentication
  request_of-Vouched a c rest q e f =
      let asked =
        flagged c (λ x. record x { user_authentication_requested = true })
          (λ x. (refl, refl, refl)) in
      either (λ (r : Lobby × List Request). Vouched G r.0) (not q.user_authentication_requested)
        (served asked v.verdicts)
        (request_authenticated-Vouched a c rest q e f q.is_authenticated refl)

  response_with-Vouched :
      (a : Answers) (c : ℕ) (rest : List ℕ) (q : QueuedLogin)
      → l.login_response_queue ≡ c ∷ rest
      → G q.user_name
      → (o : Option ℕ) → Vouched G (response_with a c rest q l o).0
  unfolding response_with
  response_with-Vouched a c rest q e g none = v
  response_with-Vouched a c rest q e g (some character) =
      let P = (λ (r : Response). Vouched G r.0) in
      either P (not (character == 0) && not q.user_character_load_requested)
        (flagged c (λ x. record x { user_character_load_requested = true })
          (λ x. (refl, refl, refl)))
        (either P (not (character == 0) && not (a.are_character_data_loaded q.user_name))
          (response_popped G l v c rest e) (onlined c rest q character e g))

  pub response_of-Vouched :
      (a : Answers) (c : ℕ) (rest : List ℕ) (q : QueuedLogin)
      → l.login_response_queue ≡ c ∷ rest
      → G q.user_name
      → Vouched G (response_of a c rest q l).0
  unfolding response_of
  response_of-Vouched a c rest q e g =
      either (λ (r : Response). Vouched G r.0)
        (q.user_character_load_requested && a.are_data_being_loaded q.user_name) v
        (response_with-Vouched a c rest q e g (a.character_uid q.user_name))
