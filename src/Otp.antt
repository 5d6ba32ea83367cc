-- ===== src/Otp.antt =====
-- OtpSystem (server/system/OtpSystem): codes that authorise a key once. Times are seconds of the
-- steady clock, and the random device is an argument.
pub mod SingleUse
mod Examples
use alicia_server.Common.{
  ℕ, ◌+◌, Bool, true, false, not, ◌&&◌, Option, none, some, ltb, ◌==◌, if◌then◌else◌,
}
use alicia_server.Common.Dict
use alicia_server.Common.Dict.{Dict}

-- OtpSystem::Code
pub record Code : Type 0 where
  pub expiry : ℕ
  pub code : ℕ

abbrev pub OtpSystem : Type 0
OtpSystem = Dict Code

abbrev pub lifetime : ℕ
lifetime = 30

unfoldable pub grant_code : (now random key : ℕ) → OtpSystem → OtpSystem × ℕ
grant_code now random key codes =
    (Dict.assign key (record { expiry = now + lifetime; code = random }) codes, random)

-- Whether the code that is granted, if any, is the one given and has not expired.
unfoldable pub is_authorized : ℕ → ℕ → Option Code → Bool
is_authorized now code none = false
is_authorized now code (some ctx) = not (ltb ctx.expiry now) && ctx.code == code

unfoldable pub authorize_code : (now key code : ℕ) → Bool → OtpSystem → OtpSystem × Bool
unfolding is_authorized
authorize_code now key code consume codes =
    let authorized = is_authorized now code (Dict.find key codes) in
    (if authorized && consume then Dict.erase key codes else codes, authorized)
