-- ===== src/Common/Bits.antt =====
-- Bit operations at variables, from the digits that the native operations stand for.
use Prim.Native.Nat.{
  ℕ, zero, suc, ◌+◌, ◌-◌, ◌*◌, ◌/◌, ◌%◌, ◌^◌, ◌≤◌, ◌<◌, min, max, bit_and, bit_or, digits,
  bit_and-bitwise, bit_or-bitwise,
}
use mathlib.Core.Path.{◌≡◌, refl, ap, ap₂}
use mathlib.Core.Logic.{◌≢◌}
use native.Mathlib.Decide.{ℕ_discrete}
use native.Mathlib.Omega.{arith}
use native.Mathlib.Nat.{pow-suc, mod-eq_of_lt, mod-lt, div-add-mod, mul-add-mod_self_left}

-- Both operations recur on the first argument, on fuel; any fuel from that argument on will do.
module _ (z : ℕ → ℕ) (op : ℕ → ℕ → ℕ) where
  by_digits_fuel : (n m a b : ℕ) → a ≤ n → a ≤ m → digits z op n a b ≡ digits z op m a b
  by_digits_fuel zero zero a b p q = refl
  by_digits_fuel zero (suc m) zero b p q = refl
  by_digits_fuel zero (suc m) (suc a) b p q = absurd (omega arith)
  by_digits_fuel (suc n) zero zero b p q = refl
  by_digits_fuel (suc n) zero (suc a) b p q = absurd (omega arith)
  by_digits_fuel (suc n) (suc m) zero b p q = refl
  by_digits_fuel (suc n) (suc m) (suc a) b p q =
      omega (arith, by_digits_fuel n m (suc a / 2) (b / 2) (omega arith) (omega arith))

-- The last binary digit of `a & b`, and the rest.
pub bit_and_step : (a b : ℕ) → bit_and a b ≡ bit_and (a / 2) (b / 2) * 2 + min (a % 2) (b % 2)
bit_and_step zero b = omega (arith, bit_and-bitwise 0 b, bit_and-bitwise 0 (b / 2))
bit_and_step (suc a) b = omega (
  arith,
  bit_and-bitwise (suc a) b,
  bit_and-bitwise (suc a / 2) (b / 2),
  by_digits_fuel (λ b. zero) min a (suc a / 2) (suc a / 2) (b / 2) (omega arith) (omega arith),
)

pub zero-bit_and : (b : ℕ) → bit_and 0 b ≡ 0
zero-bit_and b = bit_and-bitwise 0 b

bit_and-zero_below : (n a : ℕ) → a ≤ n → bit_and a 0 ≡ 0
bit_and-zero_below n zero h = refl
bit_and-zero_below zero (suc a) h = absurd (omega arith)
bit_and-zero_below (suc n) (suc a) h =
    omega (arith, bit_and_step (suc a) 0, bit_and-zero_below n (suc a / 2) (omega arith))

pub bit_and-zero : (a : ℕ) → bit_and a 0 ≡ 0
bit_and-zero a = bit_and-zero_below a a (omega arith)

bit_and-self_below : (n a : ℕ) → a ≤ n → bit_and a a ≡ a
bit_and-self_below n zero h = refl
bit_and-self_below zero (suc a) h = absurd (omega arith)
bit_and-self_below (suc n) (suc a) h =
    omega (arith, bit_and_step (suc a) (suc a), bit_and-self_below n (suc a / 2) (omega arith))

pub bit_and_self : (a : ℕ) → bit_and a a ≡ a
bit_and_self a = bit_and-self_below a a (omega arith)

pub two_pow_pos : (k : ℕ) → 1 ≤ 2 ^ k
two_pow_pos zero = omega arith
two_pow_pos (suc k) = omega (arith, pow-suc 2 k, two_pow_pos k)

pub mod_unique : (n q r : ℕ) → r < n → (n * q + r) % n ≡ r
mod_unique n q r h = rw (mul-add-mod_self_left, mod-eq_of_lt h)

double_mod : (p x : ℕ) → 1 ≤ p → x % (p * 2) ≡ x / 2 % p * 2 + x % 2
double_mod p x h =
    rw (← mod_unique (p * 2) (x / 2 / p) (x / 2 % p * 2 + x % 2) below)
      (ap (λ t. t % (p * 2)) whole)
  where
    below : x / 2 % p * 2 + x % 2 < p * 2
    below = omega (arith, mod-lt (x / 2) h)

    whole : x ≡ p * 2 * (x / 2 / p) + (x / 2 % p * 2 + x % 2)
    whole = omega (arith, div-add-mod (x / 2) p)

-- `x & (2^k - 1)` is the remainder modulo 2^k.
pub bit_and_mask : (k x : ℕ) → bit_and x (2 ^ k - 1) ≡ x % 2 ^ k
bit_and_mask zero x = omega (arith, bit_and-zero x)
bit_and_mask (suc k) x =
    rw (pow-suc 2 k, double_mod (2 ^ k) x (two_pow_pos k), ← bit_and_mask k (x / 2))
      (omega (arith, bit_and_step x (2 ^ k * 2 - 1), halved, odd))
  where
    halved : bit_and (x / 2) ((2 ^ k * 2 - 1) / 2) ≡ bit_and (x / 2) (2 ^ k - 1)
    halved = ap (bit_and (x / 2)) (omega (arith, two_pow_pos k))

    odd : (2 ^ k * 2 - 1) % 2 ≡ 1
    odd = omega (arith, two_pow_pos k)

-- `n & (n - 1)` clears the lowest one, so it is 0 for the powers of two alone.
pub pred_mask_pow : (k : ℕ) → bit_and (2 ^ k) (2 ^ k - 1) ≡ 0
pred_mask_pow zero = refl
pred_mask_pow (suc k) = omega (
  arith,
  pow-suc 2 k,
  two_pow_pos k,
  bit_and_step (2 ^ suc k) (2 ^ suc k - 1),
  halved,
  pred_mask_pow k,
)
  where
    halved : bit_and (2 ^ suc k / 2) ((2 ^ suc k - 1) / 2) ≡ bit_and (2 ^ k) (2 ^ k - 1)
    halved = ap₂ bit_and (omega (arith, pow-suc 2 k)) (omega (arith, pow-suc 2 k, two_pow_pos k))

pow_of_pred_mask_below : (m n : ℕ) → n ≤ m → 1 ≤ n → bit_and n (n - 1) ≡ 0 → (k : ℕ) × (n ≡ 2 ^ k)
pow_of_pred_mask_below zero n b h e = absurd (omega arith)
pow_of_pred_mask_below (suc m) n b h e = elim (ℕ_discrete (n % 2) 0) [
  | yes even ↦
      let (k, p) =
        pow_of_pred_mask_below m (n / 2) (omega arith) (omega arith)
          (omega (arith, bit_and_step n (n - 1), ap (bit_and (n / 2)) (half_pred even))) in
      (suc k, omega (arith, pow-suc 2 k))
  | no odd ↦ (
    0,
    omega
        (arith, bit_and_step n (n - 1), ap (bit_and (n / 2)) (half_same odd), bit_and_self (n / 2)),
  )
]
  where
    half_pred : n % 2 ≡ 0 → (n - 1) / 2 ≡ n / 2 - 1
    half_pred even = omega arith

    half_same : n % 2 ≢ 0 → (n - 1) / 2 ≡ n / 2
    half_same odd = omega arith

pub pow_of_pred_mask : (n : ℕ) → 1 ≤ n → bit_and n (n - 1) ≡ 0 → (k : ℕ) × (n ≡ 2 ^ k)
pow_of_pred_mask n = pow_of_pred_mask_below n n (omega arith)

-- The last binary digit of `a | b`, and the rest.
bit_or_step : (a b : ℕ) → bit_or a b ≡ bit_or (a / 2) (b / 2) * 2 + max (a % 2) (b % 2)
bit_or_step zero b = omega (arith, bit_or-bitwise 0 b, bit_or-bitwise 0 (b / 2))
bit_or_step (suc a) b = omega (
  arith,
  bit_or-bitwise (suc a) b,
  bit_or-bitwise (suc a / 2) (b / 2),
  by_digits_fuel (λ b. b) max a (suc a / 2) (suc a / 2) (b / 2) (omega arith) (omega arith),
)

mul-rotate : (p b : ℕ) → p * 2 * b ≡ p * b * 2
mul-rotate p b = grind arith

-- Below bit k and from bit k on, `|` is a sum.
pub bit_or_disjoint : (k a b : ℕ) → a < 2 ^ k → bit_or a (2 ^ k * b) ≡ a + 2 ^ k * b
bit_or_disjoint zero zero b h = omega (arith, bit_or-bitwise 0 (2 ^ 0 * b))
bit_or_disjoint zero (suc a) b h = absurd (omega arith)
bit_or_disjoint (suc k) a b h = omega (
  arith,
  pow-suc 2 k,
  doubled,
  bit_or_step a (2 ^ suc k * b),
  bit_or_disjoint k (a / 2) b (omega (arith, pow-suc 2 k)),
  ap (bit_or (a / 2)) halved,
)
  where
    doubled : 2 ^ suc k * b ≡ 2 ^ k * b * 2
    doubled = omega (arith, ap (λ t. t * b) (pow-suc 2 k), mul-rotate (2 ^ k) b)

    halved : 2 ^ suc k * b / 2 ≡ 2 ^ k * b
    halved = omega (arith, doubled)
