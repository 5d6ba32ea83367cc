-- ===== src/Protocol/Code.antt =====
-- The rolling code of a client and the XOR algorithm (libserver/network/command/CommandServer).
-- The four bytes of `_rollingCode` are the 32-bit number that `GetRollingCodeInt` reads from them,
-- least significant byte first.
pub mod Laws
use Prim.Native.Nat.{bit_xor}
use alicia_server.Common.{ℕ, suc, ◌+◌, ◌-◌, ◌*◌, ◌/◌, ◌%◌, ◌^◌, List, [], ◌∷◌}

abbrev pub xor_control : ℕ
xor_control = 0xa20191cb

abbrev pub xor_multiplier : ℕ
xor_multiplier = 0x20080825

-- CommandClient::RollCode, in 32-bit arithmetic that wraps.
unfoldable pub roll_code : ℕ → ℕ
roll_code code = (xor_control + 2 ^ 32 - code * xor_multiplier % 2 ^ 32) % 2 ^ 32

-- `key[shift]`
unfoldable pub key_byte : ℕ → ℕ → ℕ
key_byte code shift = code / 2 ^ (8 * shift) % 2 ^ 8

-- The loop of XorAlgorithm from index `idx` on.
unfoldable pub xor_from : ℕ → ℕ → List ℕ → List ℕ
xor_from code idx [] = []
xor_from code idx (v ∷ source) =
    bit_xor v (key_byte code (idx % 4)) ∷ xor_from code (idx + 1) source

unfoldable pub xor_algorithm : ℕ → List ℕ → List ℕ
unfolding xor_from
xor_algorithm code source = xor_from code 0 source
