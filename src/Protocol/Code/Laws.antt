-- ===== src/Protocol/Code/Laws.antt =====
-- The rolling code can be rolled back, and the XOR algorithm undoes itself.
use Prim.Native.Nat.{bit_xor}
use alicia_server.Common.{
  ℕ, ◌+◌, ◌-◌, ◌*◌, ◌%◌, ◌^◌, ◌<◌, ◌≡◌, refl, sym, ap, ◌∙◌, List, [], ◌∷◌, arith, length,
}
use alicia_server.Common.Bits.{bit_xor_self, bit_xor_comm}
use alicia_server.Protocol.Code.{xor_control, roll_code, key_byte, xor_from, xor_algorithm}

-- The inverse of the multiplier modulo 2 ^ 32.
abbrev inverse_multiplier : ℕ
inverse_multiplier = 1202508717

-- The code before a roll, from the code after it.
pub unroll_code : ℕ → ℕ
unroll_code code = (xor_control + 2 ^ 32 - code) % 2 ^ 32 * inverse_multiplier % 2 ^ 32

-- Rolling loses nothing: the former code can be computed from the next one.
pub unroll-roll_code : (code : ℕ) → code < 2 ^ 32 → unroll_code (roll_code code) ≡ code
unfolding unroll_code roll_code
unroll-roll_code code h = omega arith

pub roll_code-lt : (code : ℕ) → roll_code code < 2 ^ 32
unfolding roll_code
roll_code-lt code = omega arith

-- Two clients that hold different 32-bit codes do not come to hold the same one by rolling.
pub roll_code-injective : (a b : ℕ) → a < 2 ^ 32 → b < 2 ^ 32 → roll_code a ≡ roll_code b → a ≡ b
roll_code-injective a b ha hb e =
    sym (unroll-roll_code a ha) ∙ ap unroll_code e ∙ unroll-roll_code b hb

xor_from-xor_from :
    (code idx : ℕ) (source : List ℕ) → xor_from code idx (xor_from code idx source) ≡ source
unfolding xor_from
xor_from-xor_from code idx [] = refl
xor_from-xor_from code idx (v ∷ source) =
    rw
      (
        bit_xor_comm (bit_xor v (key_byte code (idx % 4))) (key_byte code (idx % 4)),
        bit_xor_comm v (key_byte code (idx % 4)),
        bit_xor_self (key_byte code (idx % 4)) v,
      )
      (ap (◌∷◌ v) (xor_from-xor_from code (idx + 1) source))

-- The XOR algorithm under one code undoes itself.
pub xor_algorithm-xor_algorithm :
    (code : ℕ) (source : List ℕ) → xor_algorithm code (xor_algorithm code source) ≡ source
unfolding xor_algorithm
xor_algorithm-xor_algorithm code source = xor_from-xor_from code 0 source

length-xor_from :
    (code idx : ℕ) (source : List ℕ) → length (xor_from code idx source) ≡ length source
unfolding xor_from
length-xor_from code idx [] = refl
length-xor_from code idx (v ∷ source) = omega (arith, length-xor_from code (idx + 1) source)

pub length-xor_algorithm :
    (code : ℕ) (source : List ℕ) → length (xor_algorithm code source) ≡ length source
unfolding xor_algorithm
length-xor_algorithm code source = length-xor_from code 0 source
