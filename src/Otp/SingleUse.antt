-- ===== src/Otp/SingleUse.antt =====
-- A code is good for one authorisation.
use alicia_server.Common.{
  ℕ, ◌+◌, ◌≤◌, ◌≡◌, ◌⊎◌, inl, inr, refl, Bool, true, false, ◌&&◌, none, some, List, [], ◌∷◌, ◌==◌,
  if◌then◌else◌, arith, All, Bool-cases,
}
use alicia_server.Common.Dict
use alicia_server.Otp.{Code, OtpSystem, lifetime, grant_code, is_authorized, authorize_code}

-- A grant, or an attempt that consumes the code if it succeeds.
pub data Call : Type 0 where
  grants : (now random key : ℕ) → Call
  attempts : (now key code : ℕ) → Call

-- The attempts for a key that succeed, with their times and codes.
unfoldable pub accepted : ℕ → List Call → OtpSystem → List (ℕ × ℕ)
accepted key [] codes = []
accepted key (grants now random k ∷ calls) codes =
    accepted key calls (grant_code now random k codes).0
accepted key (attempts now k code ∷ calls) codes =
    let (codes', authorized) = authorize_code now k code true codes in
    let rest = accepted key calls codes' in
    if authorized && k == key then (now, code) ∷ rest else rest

-- The call grants no code to the key.
abbrev pub is_grant_for : ℕ → Call → Bool
is_grant_for key (grants now random k) = k == key
is_grant_for key (attempts now k code) = false

accepted-none :
    (key : ℕ) (calls : List Call) (codes : OtpSystem)
    → All (λ c. is_grant_for key c ≡ false) calls
    → Dict.find key codes ≡ none
    → accepted key calls codes ≡ []
unfolding accepted grant_code authorize_code is_authorized
accepted-none key [] codes g e = refl
accepted-none key (grants now random k ∷ calls) codes g e =
    accepted-none key calls (grant_code now random k codes).0 g.1 (
      ground
        (arith, Dict.find-assign k key (record { expiry = now + lifetime; code = random }) codes))
accepted-none key (attempts now k code ∷ calls) codes g e = ground (
  arith,
  accepted-none key calls (authorize_code now k code true codes).0 g.1,
  Dict.find-erase k key codes,
)

-- At most one attempt, with this code and not after its expiry.
abbrev AtMostOnce : Code → List (ℕ × ℕ) → Type 0
AtMostOnce c done = (done ≡ []) ⊎ ((now : ℕ) × (done ≡ (now, c.code) ∷ []) × (now ≤ c.expiry))

accepted-AtMostOnce :
    (key : ℕ) (calls : List Call) (codes : OtpSystem) (c : Code)
    → All (λ c. is_grant_for key c ≡ false) calls
    → Dict.find key codes ≡ some c
    → AtMostOnce c (accepted key calls codes)
unfolding accepted grant_code authorize_code is_authorized
accepted-AtMostOnce key [] codes c g e = inl refl
accepted-AtMostOnce key (grants now random k ∷ calls) codes c g e =
    accepted-AtMostOnce key calls (grant_code now random k codes).0 c g.1 (
      ground
        (arith, Dict.find-assign k key (record { expiry = now + lifetime; code = random }) codes))
accepted-AtMostOnce key (attempts now k code ∷ calls) codes c g e =
    elim (Bool-cases (is_authorized now code (Dict.find k codes) && k == key)) [
      | inl t ↦ rw t (
          inr (
            now,
            (let mine : code ≡ c.code = ground (arith, e) in
                let rest =
                  accepted-none key calls left g.1 (ground (arith, Dict.find-erase k key codes)) in
                λ i. (now, mine i) ∷ rest i),
            ground (arith, e),
          ))
      | inr f ↦ rw f (
          accepted-AtMostOnce key calls left c g.1 (ground (arith, Dict.find-erase k key codes, e)))
    ]
  where
    left : OtpSystem
    left = (authorize_code now k code true codes).0

-- After a code has been granted to a key, of any attempts that consume, with any codes and for any
-- keys, at most one succeeds for the key until it is granted another code: one with the code that
-- was granted, not later than thirty seconds after the grant.
pub accepted-grant_code :
    (now random key : ℕ) (calls : List Call) (codes : OtpSystem)
    → All (λ c. is_grant_for key c ≡ false) calls
    → let done = accepted key calls (grant_code now random key codes).0 in
      (done ≡ []) ⊎ ((at : ℕ) × (done ≡ (at, random) ∷ []) × (at ≤ now + lifetime))
unfolding grant_code
accepted-grant_code now random key calls codes g =
    let c : Code = record { expiry = now + lifetime; code = random } in
    accepted-AtMostOnce key calls (grant_code now random key codes).0 c g
      (ground (arith, Dict.find-assign key key c codes))
