-- ===== src/Common/Bits.antt =====
-- Laws of the bit operations of the native numbers at variables: a mask is a remainder, a
-- disjunction of separate fields is a sum, and exclusive or is its own inverse.
mod Digits
pub use Digits.*
use Prim.Native.Nat.{
  ℕ, zero, suc, ◌+◌, ◌-◌, ◌*◌, ◌/◌, ◌%◌, ◌^◌, ◌≤◌, ◌<◌, min, max, bit_and, bit_or, bit_xor, digits,
  differ, bit_and-bitwise, bit_or-bitwise, bit_xor-bitwise,
}
use mathlib.Core.Path.{◌≡◌, refl, sym, ◌∙◌, ap, ap₂}
use native.Mathlib.Nat.{
  mul-add-mod_self_left, mod-eq_of_lt, div-add-mod, mod-lt, pow-suc, div-one, div-div-eq-div-mul,
  mul_comm, one-le-pow,
}
use native.Mathlib.Omega.{arith}

mod_double : (a p : ℕ) → 0 < p → a % (p * 2) ≡ a / 2 % p * 2 + a % 2
mod_double a p h =
    ap (λ n. n % (p * 2)) split ∙ mul-add-mod_self_left (p * 2) q r ∙ mod-eq_of_lt small
  where
    q : ℕ
    q = a / 2 / p

    r : ℕ
    r = a / 2 % p * 2 + a % 2

    split : a ≡ p * 2 * q + r
    split = omega (arith, div-add-mod (a / 2) p)

    small : r < p * 2
    small = omega (arith, mod-lt (a / 2) h)

-- A mask of k ones takes the remainder by 2 ^ k.
pub bit_and-mask : (k m a : ℕ) → suc m ≡ 2 ^ k → bit_and a m ≡ a % suc m
bit_and-mask zero m a e = let e' : m ≡ 0 = omega arith in subst_mask m e'
  where
    subst_mask : (m : ℕ) → m ≡ 0 → bit_and a m ≡ a % suc m
    subst_mask zero e = omega (arith, bit_and-zero a)
    subst_mask (suc m) e = absurd (omega arith)
bit_and-mask (suc k) m a e = omega (
  arith,
  bit_and_step a m,
  bit_and-mask k (m / 2) (a / 2) half,
  mod_double a (suc (m / 2)) (omega arith),
  ap (λ n. a % n) whole,
)
  where
    half : suc (m / 2) ≡ 2 ^ k
    half = omega (arith, e ∙ pow-suc 2 k)

    whole : suc m ≡ suc (m / 2) * 2
    whole = omega (arith, e ∙ pow-suc 2 k)

-- A mask of ones above k zeros.
pub bit_and-shifted_mask : (k m a : ℕ) → bit_and a (m * 2 ^ k) ≡ bit_and (a / 2 ^ k) m * 2 ^ k
bit_and-shifted_mask zero m a = rw (div-one a) (omega (arith, ap (λ t. bit_and a t) one_mul))
  where
    one_mul : m * 2 ^ zero ≡ m
    one_mul = omega arith
bit_and-shifted_mask (suc k) m a = omega (
  arith,
  bit_and_step a (m * 2 ^ suc k),
  ap (λ t. bit_and (a / 2) t) halved,
  bit_and-shifted_mask k m (a / 2),
  ap (λ t. bit_and t m * 2 ^ k) (div-div-eq-div-mul a 2 (2 ^ k)),
  ap (λ t. bit_and (a / t) m * t) (pow-suc 2 k ∙ mul_comm (2 ^ k) 2),
  doubled,
)
  where
    doubled : m * 2 ^ suc k ≡ m * 2 ^ k * 2
    doubled = omega (arith, ap (λ t. m * t) (pow-suc 2 k))

    halved : m * 2 ^ suc k / 2 ≡ m * 2 ^ k
    halved = omega (arith, doubled)

-- Two fields that share no digit.
pub bit_or-disjoint : (k a b : ℕ) → b < 2 ^ k → bit_or (a * 2 ^ k) b ≡ a * 2 ^ k + b
bit_or-disjoint zero a zero h = omega (arith, bit_or-zero (a * 2 ^ zero))
bit_or-disjoint zero a (suc b) h = absurd (omega arith)
bit_or-disjoint (suc k) a b h = omega (
  arith,
  bit_or_step (a * 2 ^ suc k) b,
  ap (λ t. bit_or t (b / 2)) halved,
  bit_or-disjoint k a (b / 2) (omega (arith, pow-suc 2 k)),
  doubled,
)
  where
    doubled : a * 2 ^ suc k ≡ a * 2 ^ k * 2
    doubled = omega (arith, ap (λ t. a * t) (pow-suc 2 k))

    halved : a * 2 ^ suc k / 2 ≡ a * 2 ^ k
    halved = omega (arith, doubled)

pub bit_xor-lt : (k a b : ℕ) → a < 2 ^ k → b < 2 ^ k → bit_xor a b < 2 ^ k
bit_xor-lt zero zero zero h l = omega arith
bit_xor-lt zero zero (suc b) h l = absurd (omega arith)
bit_xor-lt zero (suc a) b h l = absurd (omega arith)
bit_xor-lt (suc k) a b h l = omega (
  arith,
  bit_xor_step a b,
  pow-suc 2 k,
  bit_xor-lt k (a / 2) (b / 2) (omega (arith, pow-suc 2 k)) (omega (arith, pow-suc 2 k)),
  differ_bit (a % 2) (b % 2) (omega arith) (omega arith),
)

-- A conjunction, field by field.
pub bit_and_split :
    (k a b : ℕ)
    → bit_and a b ≡ bit_and (a / 2 ^ k) (b / 2 ^ k) * 2 ^ k + bit_and (a % 2 ^ k) (b % 2 ^ k)
bit_and_split zero a b = omega (
  arith,
  ap₂ bit_and (div-one a) (div-one b),
  bit_and-zero (a % 2 ^ zero),
  ap (λ t. bit_and (a % 2 ^ zero) t) last,
)
  where
    last : b % 2 ^ zero ≡ 0
    last = omega arith
bit_and_split (suc k) a b = omega (
  arith,
  bit_and_step a b,
  bit_and_split k (a / 2) (b / 2),
  ap₂ (λ s t. bit_and s t * 2 ^ k) (high a) (high b),
  bit_and_step (a % 2 ^ suc k) (b % 2 ^ suc k),
  ap₂ bit_and (low a) (low b),
  ap₂ min (last a) (last b),
  ap (λ t. bit_and (a / 2 ^ suc k) (b / 2 ^ suc k) * t) (pow-suc 2 k),
)
  where
    positive : 0 < 2 ^ k
    positive = one-le-pow k 2 (omega arith)

    split : (n : ℕ) → n % 2 ^ suc k ≡ n / 2 % 2 ^ k * 2 + n % 2
    split n = ap (λ t. n % t) (pow-suc 2 k) ∙ mod_double n (2 ^ k) positive

    low : (n : ℕ) → n % 2 ^ suc k / 2 ≡ n / 2 % 2 ^ k
    low n = omega (arith, split n)

    last : (n : ℕ) → n % 2 ^ suc k % 2 ≡ n % 2
    last n = omega (arith, split n)

    high : (n : ℕ) → n / 2 ^ suc k ≡ n / 2 / 2 ^ k
    high n =
        ap (λ t. n / t) (pow-suc 2 k ∙ mul_comm (2 ^ k) 2) ∙ sym (div-div-eq-div-mul n 2 (2 ^ k))
