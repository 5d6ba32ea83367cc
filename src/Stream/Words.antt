-- ===== src/Stream/Words.antt =====
-- Numeric values in a stream: `Write` and `Read` of libserver/util/Stream.hpp, by their bytes in
-- memory, least significant first.
use alicia_server.Common.{
  ℕ, zero, suc, ◌+◌, ◌*◌, ◌/◌, ◌%◌, ◌<◌, Bool, not, List, [], ◌∷◌, ◌==◌, if◌then◌else◌, arith,
}
use alicia_server.Stream.{Put, Get, write_bytes, read_bytes, ◌>>=◌, pure}

-- 256 to the power of a number of bytes.
abbrev pub bound : ℕ → ℕ
bound zero = 1
bound (suc n) = 256 * bound n

-- An unsigned integer of `n` bytes, or an enumeration over one, which may hold any value of it.
pub record Word (n : ℕ) : Type 0 where
  pub value : ℕ
  pub fits : value < bound n

abbrev pub U8 : Type 0
U8 = Word 1

abbrev pub U16 : Type 0
U16 = Word 2

abbrev pub U32 : Type 0
U32 = Word 4

unfoldable pub le_bytes : ℕ → ℕ → List ℕ
le_bytes zero v = []
le_bytes (suc n) v = v % 256 ∷ le_bytes n (v / 256)

unfoldable pub le_value : ℕ → List ℕ → ℕ
le_value zero bs = 0
le_value (suc n) [] = 0
le_value (suc n) (b ∷ bs) = b % 256 + 256 * le_value n bs

pub le_value-lt : (n : ℕ) (bs : List ℕ) → le_value n bs < bound n
unfolding le_value
le_value-lt zero bs = omega arith
le_value-lt (suc n) [] = omega (arith, le_value-lt n [])
le_value-lt (suc n) (b ∷ bs) = omega (arith, le_value-lt n bs)

unfoldable pub from_le : (n : ℕ) → List ℕ → Word n
from_le n bs = record { value = le_value n bs; fits = le_value-lt n bs }

-- `static_cast` to an unsigned integer of `n` bytes.
unfoldable pub cast : (n : ℕ) → ℕ → Word n
cast n v = from_le n (le_bytes n v)

unfoldable pub write_word : {n : ℕ} → Word n → Put
write_word {n} w = write_bytes (le_bytes n w.value)

unfoldable pub read_word : (n : ℕ) → Get (Word n)
read_word n = read_bytes n >>= λ bs. pure (from_le n bs)

abbrev pub read_u8 : Get U8
read_u8 = read_word 1

abbrev pub read_u16 : Get U16
read_u16 = read_word 2

abbrev pub read_u32 : Get U32
read_u32 = read_word 4

-- A bool is one byte.
unfoldable pub write_bool : Bool → Put
write_bool b = write_word (cast 1 (if b then 1 else 0))

unfoldable pub read_bool : Get Bool
read_bool = read_u8 >>= λ w. pure (not (w.value == 0))
