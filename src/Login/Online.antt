-- ===== src/Login/Online.antt =====
-- Every user who is online has been vouched for by the backend.
use alicia_server.Common.{
  ℕ, ◌≡◌, inl, inr, refl, sym, ap, ◌∙◌, subst, true, Option, none, some, List, [], ◌∷◌, ◌==◌,
  if◌then◌else◌, member, All, arith, Bool-cases, ==_iff,
}
use alicia_server.Common.Dict
use alicia_server.Common.Dict.{Dict}
use alicia_server.Authentication.{Verdict}
use alicia_server.Login.{QueuedLogin, Lobby, Answers, Request, login_of}
use alicia_server.Login.Processing.{
  request_of, process_login_request, process_request, process_response, response_of,
  process_login_response, apply_verdicts, apply_to_all, poll_from, poll_verdicts, tick,
}
use alicia_server.Login.Vouched.{keys, Vouched, relogged}
use alicia_server.Login.Granted.{
  either, entry_of, with_login_present, request_of-Vouched, response_of-Vouched, served,
}

module _ (G : ℕ → Type 0) (a : Answers) (l : Lobby) (v : Vouched G l) where
  process_request-Vouched :
      (queue : List ℕ) → l.login_request_queue ≡ queue → Vouched G (process_request a queue l).0
  process_request-Vouched [] e = v
  process_request-Vouched (c ∷ rest) e =
      let w = v.requests c (ap (member c) e ∙ ground arith) in
      let q = entry_of (Dict.find c l.client_logins) w.name w.token w.entry in
      subst
        (λ (p : Option QueuedLogin × Lobby). Vouched G (request_of a c rest (login_of p.0) p.1).0)
        (λ i. (sym q.1 i, sym (with_login_present c q.0 l q.1) i))
        (request_of-Vouched G l v a c rest q.0 e q.1)

  process_response-Vouched :
      (queue : List ℕ) → l.login_response_queue ≡ queue → Vouched G (process_response a queue l).0
  process_response-Vouched [] e = v
  process_response-Vouched (c ∷ rest) e =
      let w = v.responses c (ap (member c) e ∙ ground arith) in
      let q = entry_of (Dict.find c l.client_logins) w.0.name w.0.token w.0.entry in
      subst
        (λ (p : Option QueuedLogin × Lobby). Vouched G (response_of a c rest (login_of p.0) p.1).0)
        (λ i. (sym q.1 i, sym (with_login_present c q.0 l q.1) i))
        (response_of-Vouched G l v a c rest q.0 e (subst G (sym q.2) w.1))

apply_verdicts-same :
    (verdicts : List Verdict) (q : QueuedLogin)
    → ((apply_verdicts verdicts q).user_name ≡ q.user_name)
      × ((apply_verdicts verdicts q).user_token ≡ q.user_token)
unfolding apply_verdicts
apply_verdicts-same [] q = (refl, refl)
apply_verdicts-same (v ∷ vs) q =
    either (λ (x : QueuedLogin). (x.user_name ≡ q.user_name) × (x.user_token ≡ q.user_token))
      (v.user_name == q.user_name)
      (apply_verdicts-same vs (record q { is_authenticated = some v.is_authenticated }))
      (apply_verdicts-same vs q)

-- A login that the verdicts accept is of a name that they vouch for.
apply_verdicts-granted :
    (G : ℕ → Type 0) (verdicts : List Verdict) (q : QueuedLogin)
    → All (λ (v : Verdict). v.is_authenticated ≡ true → G v.user_name) verdicts
    → (q.is_authenticated ≡ some true → G q.user_name)
    → (apply_verdicts verdicts q).is_authenticated ≡ some true
    → G q.user_name
unfolding apply_verdicts
apply_verdicts-granted G [] q h g a = g a
apply_verdicts-granted G (v ∷ vs) q h g a = elim (Bool-cases (v.user_name == q.user_name)) [
  | inl e ↦
      apply_verdicts-granted G vs (record q { is_authenticated = some v.is_authenticated }) h.1
        (λ y. subst G ((==_iff v.user_name q.user_name).0 e) (h.0 (let z = y in cc)))
        (ap
            (λ b.
              (if b
                then apply_verdicts vs (record q { is_authenticated = some v.is_authenticated })
                else apply_verdicts vs q).is_authenticated)
            (sym e)
          ∙ a)
  | inr e ↦ apply_verdicts-granted G vs q h.1 g (
      ap
        (λ b.
          (if b
            then apply_verdicts vs (record q { is_authenticated = some v.is_authenticated })
            else apply_verdicts vs q).is_authenticated)
        (sym e)
      ∙ a)
]

find-apply_to_all :
    (verdicts : List Verdict) (c : ℕ) (d : Dict QueuedLogin)
    → Dict.find c (apply_to_all verdicts d)
      ≡ elim (Dict.find c d) [ none ↦ none | some q ↦ some (apply_verdicts verdicts q) ]
unfolding apply_to_all Dict.find
find-apply_to_all verdicts c [] = refl
find-apply_to_all verdicts c ((j, q) ∷ d) = ground (arith, find-apply_to_all verdicts c d)

applied_keys :
    (verdicts : List Verdict) (o : Option QueuedLogin)
    → keys (elim o [ none ↦ none | some q ↦ some (apply_verdicts verdicts q) ]) ≡ keys o
applied_keys verdicts none = refl
applied_keys verdicts (some q) = let h = apply_verdicts-same verdicts q in cc

applied_grants :
    (G : ℕ → Type 0) (verdicts : List Verdict) (o : Option QueuedLogin)
    → All (λ (v : Verdict). v.is_authenticated ≡ true → G v.user_name) verdicts
    → ((q : QueuedLogin) → o ≡ some q → q.is_authenticated ≡ some true → G q.user_name)
    → (q : QueuedLogin)
    → elim o [ none ↦ none | some p ↦ some (apply_verdicts verdicts p) ] ≡ some q
    → q.is_authenticated ≡ some true
    → G q.user_name
applied_grants G verdicts none h g q e a = absurd (let p = e in cc)
applied_grants G verdicts (some p) h g q e a =
    let same : apply_verdicts verdicts p ≡ q = (let d = e in cc) in
    subst G (sym (apply_verdicts-same verdicts p).0 ∙ ap (λ (x : QueuedLogin). x.user_name) same) (
      apply_verdicts-granted G verdicts p h (g p refl)
        (ap (λ (x : QueuedLogin). x.is_authenticated) same ∙ a))

poll_from-Vouched :
    (G : ℕ → Type 0) (l : Lobby) (verdicts : List Verdict)
    → All (λ (v : Verdict). v.is_authenticated ≡ true → G v.user_name) verdicts
    → Vouched G l
    → Vouched G (poll_from verdicts l)
poll_from-Vouched G l [] h v = v
poll_from-Vouched G l (x ∷ xs) h v =
    served
      (relogged G l v (apply_to_all (x ∷ xs) l.client_logins)
        (λ c.
          ap keys (find-apply_to_all (x ∷ xs) c l.client_logins)
          ∙ applied_keys (x ∷ xs) (Dict.find c l.client_logins))
        (λ c q e.
          applied_grants G (x ∷ xs) (Dict.find c l.client_logins) h (v.logins c) q
            (sym (find-apply_to_all (x ∷ xs) c l.client_logins) ∙ e)))
      tt

pub tick-Vouched : (G : ℕ → Type 0) (a : Answers) (l : Lobby) → Vouched G l → Vouched G (tick a l).0
unfolding tick process_login_response process_login_request poll_verdicts
tick-Vouched G a l v =
    let responded = process_login_response a l in
    let w = process_response-Vouched G a l v l.login_response_queue refl in
    let u = process_request-Vouched G a responded.0 w responded.0.login_request_queue refl in
    let requested = process_login_request a responded.0 in
    either (λ (r : Lobby × List Request). Vouched G r.0) responded.2 w
      (either (Vouched G) requested.0.service.has_verdicts
        (poll_from-Vouched G requested.0 requested.0.service.verdicts u.verdicts u) u)
