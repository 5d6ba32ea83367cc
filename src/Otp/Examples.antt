-- ===== src/Otp/Examples.antt =====
-- A code that is used twice.
use alicia_server.Common.{ℕ, ◌+◌, ◌≤◌, ◌≡◌, ◌⊎◌, refl, List, [], ◌∷◌}
use alicia_server.Common.Dict
use alicia_server.Otp.{lifetime, grant_code, authorize_code, is_authorized}
use alicia_server.Otp.SingleUse.{Call, grants, attempts, accepted, accepted-grant_code}

-- A wrong code, the right one, the right one again, and a grant for another key between.
abbrev calls : List Call
calls = attempts 5 1 99 ∷ grants 6 77 2 ∷ attempts 7 1 42 ∷ attempts 8 1 42 ∷ []

accepts_once : accepted 1 calls (grant_code 0 42 1 []).0 ≡ (7, 42) ∷ []
unfolding accepted grant_code authorize_code is_authorized Dict.find Dict.assign Dict.erase
accepts_once = refl

accepted-grant_code_example :
    let done = accepted 1 calls (grant_code 0 42 1 []).0 in
    (done ≡ []) ⊎ ((at : ℕ) × (done ≡ (at, 42) ∷ []) × (at ≤ 0 + lifetime))
accepted-grant_code_example = accepted-grant_code 0 42 1 calls [] (refl, (refl, (refl, (refl, tt))))
