-- ===== src/Common/Bits/Digits.antt =====
-- The native bit operations digit by digit: one law for the lowest digit of each, and what follows
-- from it by induction on the digits.
use Prim.Native.Nat.{
  ℕ, zero, suc, ◌+◌, ◌-◌, ◌*◌, ◌/◌, ◌%◌, ◌≤◌, ◌<◌, min, max, bit_and, bit_or, bit_xor, digits,
  differ, bit_and-bitwise, bit_or-bitwise, bit_xor-bitwise,
}
use mathlib.Core.Path.{◌≡◌, refl, sym, ◌∙◌, ap}
use native.Mathlib.Nat.{min_comm, max_comm}
use native.Mathlib.Omega.{arith}

-- Induction on the binary digits of a number.
module _ {ℓ} (P : ℕ → Type ℓ) (none_left : P 0) (digit : (a : ℕ) → P (a / 2) → P a) where
  by_digits_below : (limit a : ℕ) → a < limit → P a
  by_digits_below zero a h = absurd (omega arith)
  by_digits_below (suc limit) zero h = none_left
  by_digits_below (suc limit) (suc a) h =
      digit (suc a) (by_digits_below limit (suc a / 2) (omega arith))

  by_digits : (a : ℕ) → P a
  by_digits a = by_digits_below (suc a) a (omega arith)

-- `bitwise` recurses on fuel. Fuel that is not used up can be taken away, step by step, down to the
-- first number itself.
module _ (ended : ℕ → ℕ) (combine : ℕ → ℕ → ℕ) where
  abbrev read : ℕ → ℕ → ℕ → ℕ
  read = digits ended combine

  one_less :
      (fuel first second : ℕ) → first ≤ fuel → read (suc fuel) first second ≡ read fuel first second
  one_less zero zero second h = refl
  one_less (suc fuel) zero second h = refl
  one_less (suc fuel) (suc first) second h =
      ap (λ upper. upper * 2 + combine (suc first % 2) (second % 2))
        (one_less fuel (suc first / 2) (second / 2) (omega arith))
  one_less zero (suc first) second h = absurd (omega arith)

  enough : (spare first second : ℕ) → read (spare + first) first second ≡ read first first second
  enough zero first second = ap (λ fuel. read fuel first second) total
    where
      total : zero + first ≡ first
      total = omega arith
  enough (suc spare) first second =
      ap (λ fuel. read fuel first second) total
      ∙ one_less (spare + first) first second (omega arith)
      ∙ enough spare first second
    where
      total : suc spare + first ≡ suc (spare + first)
      total = omega arith

  lowest_digit :
      ((second : ℕ) → ended second ≡ ended (second / 2) * 2 + combine 0 (second % 2))
      → (first second : ℕ)
      → read first first second
        ≡ read (first / 2) (first / 2) (second / 2) * 2 + combine (first % 2) (second % 2)
  lowest_digit at_end zero second = at_end second
  lowest_digit at_end (suc first) second =
      ap (λ upper. upper * 2 + combine (suc first % 2) (second % 2))
        (ap (λ fuel. read fuel (suc first / 2) (second / 2)) split
          ∙ enough (first - suc first / 2) (suc first / 2) (second / 2))
    where
      split : first ≡ first - suc first / 2 + suc first / 2
      split = omega arith

pub bit_xor_step : (a b : ℕ) → bit_xor a b ≡ bit_xor (a / 2) (b / 2) * 2 + differ (a % 2) (b % 2)
bit_xor_step a b =
    let law = lowest_digit (λ second. second) differ (λ second. omega arith) a b in
    rw (bit_xor-bitwise a b, bit_xor-bitwise (a / 2) (b / 2)) law

pub bit_and_step :
    (first second : ℕ)
    → bit_and first second ≡ bit_and (first / 2) (second / 2) * 2 + min (first % 2) (second % 2)
bit_and_step first second =
    let law = lowest_digit (λ _. 0) min (λ last. omega arith) first second in
    rw (bit_and-bitwise first second, bit_and-bitwise (first / 2) (second / 2)) law

pub bit_or_step : (a b : ℕ) → bit_or a b ≡ bit_or (a / 2) (b / 2) * 2 + max (a % 2) (b % 2)
bit_or_step a b =
    let law = lowest_digit (λ second. second) max (λ second. omega arith) a b in
    rw (bit_or-bitwise a b, bit_or-bitwise (a / 2) (b / 2)) law

-- An operation that follows a symmetric one on digits is symmetric.
module _ (op low : ℕ → ℕ → ℕ) where
  comm_by_digits :
      ((a b : ℕ) → op a b ≡ op (a / 2) (b / 2) * 2 + low (a % 2) (b % 2))
      → ((x y : ℕ) → low x y ≡ low y x)
      → (a b : ℕ) → op a b ≡ op b a
  comm_by_digits step low_comm = by_digits (λ a. (b : ℕ) → op a b ≡ op b a) with_zero swap
    where
      swap : (a : ℕ) → ((b : ℕ) → op (a / 2) b ≡ op b (a / 2)) → (b : ℕ) → op a b ≡ op b a
      swap a upper b =
          step a b ∙ (λ i. upper (b / 2) i * 2 + low_comm (a % 2) (b % 2) i) ∙ sym (step b a)

      with_zero : (b : ℕ) → op 0 b ≡ op b 0
      with_zero =
          by_digits (λ b. op 0 b ≡ op b 0) refl
            (λ b upper. step 0 b ∙ (λ i. upper i * 2 + low_comm 0 (b % 2) i) ∙ sym (step b 0))

pub bit_and_comm : (a b : ℕ) → bit_and a b ≡ bit_and b a
bit_and_comm = comm_by_digits bit_and min bit_and_step min_comm

pub bit_or_comm : (a b : ℕ) → bit_or a b ≡ bit_or b a
bit_or_comm = comm_by_digits bit_or max bit_or_step max_comm

differ_comm : (x y : ℕ) → differ x y ≡ differ y x
differ_comm zero zero = refl
differ_comm zero (suc y) = refl
differ_comm (suc x) zero = refl
differ_comm (suc x) (suc y) = differ_comm x y

pub bit_xor_comm : (a b : ℕ) → bit_xor a b ≡ bit_xor b a
bit_xor_comm = comm_by_digits bit_xor differ bit_xor_step differ_comm

pub bit_and-zero : (a : ℕ) → bit_and a 0 ≡ 0
bit_and-zero =
    by_digits (λ a. bit_and a 0 ≡ 0) refl (λ a upper. omega (arith, bit_and_step a 0, upper))

pub bit_or-zero : (a : ℕ) → bit_or a 0 ≡ a
bit_or-zero =
    by_digits (λ a. bit_or a 0 ≡ a) refl (λ a upper. omega (arith, bit_or_step a 0, upper))

differ_self : (x y : ℕ) → x < 2 → y < 2 → differ x (differ x y) ≡ y
differ_self zero y h k = refl
differ_self (suc zero) zero h k = refl
differ_self (suc zero) (suc zero) h k = refl
differ_self (suc zero) (suc (suc y)) h k = absurd (omega arith)
differ_self (suc (suc x)) y h k = absurd (omega arith)

pub differ_bit : (x y : ℕ) → x < 2 → y < 2 → differ x y < 2
differ_bit zero y h k = k
differ_bit (suc zero) zero h k = omega arith
differ_bit (suc zero) (suc zero) h k = omega arith
differ_bit (suc zero) (suc (suc y)) h k = absurd (omega arith)
differ_bit (suc (suc x)) y h k = absurd (omega arith)

-- Exclusive or with one key, twice, gives the number back.
pub bit_xor_self : (a b : ℕ) → bit_xor a (bit_xor a b) ≡ b
bit_xor_self = by_digits (λ a. (b : ℕ) → bit_xor a (bit_xor a b) ≡ b) with_zero digit
  where
    with_zero : (b : ℕ) → bit_xor 0 (bit_xor 0 b) ≡ b
    with_zero b = bit_xor-bitwise zero (bit_xor zero b) ∙ bit_xor-bitwise zero b

    digit :
        (a : ℕ)
        → ((b : ℕ) → bit_xor (a / 2) (bit_xor (a / 2) b) ≡ b)
        → (b : ℕ) → bit_xor a (bit_xor a b) ≡ b
    digit a upper b = omega (
      arith,
      bit_xor_step a (bit_xor a b),
      ap (λ t. bit_xor (a / 2) t) high,
      upper (b / 2),
      ap (λ t. differ (a % 2) t) low,
      differ_self (a % 2) (b % 2) (omega arith) (omega arith),
    )
      where
        bit : differ (a % 2) (b % 2) < 2
        bit = differ_bit (a % 2) (b % 2) (omega arith) (omega arith)

        high : bit_xor a b / 2 ≡ bit_xor (a / 2) (b / 2)
        high = omega (arith, bit_xor_step a b, bit)

        low : bit_xor a b % 2 ≡ differ (a % 2) (b % 2)
        low = omega (arith, bit_xor_step a b, bit)
