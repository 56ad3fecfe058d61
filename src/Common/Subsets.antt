-- ===== src/Common/Subsets.antt =====
-- Laws of `&` and `&^` on numbers as sets of bits.
use Prim.Native.Nat.{ℕ, zero, suc, ◌-◌, ◌/◌, ◌%◌, ◌≤◌, min, bit_and}
use mathlib.Core.Path.{◌≡◌, ap, ◌∙◌, sym}
use native.Mathlib.Omega.{arith}
use hqq.Common.Bits.{bit_and_step, bit_and-zero, bit_and_self, zero-bit_and}

bit_and-halves :
    (a b : ℕ)
    → (bit_and a b / 2 ≡ bit_and (a / 2) (b / 2)) × (bit_and a b % 2 ≡ min (a % 2) (b % 2))
bit_and-halves a b = (omega (arith, bit_and_step a b), omega (arith, bit_and_step a b))

comm_below : (n a b : ℕ) → a ≤ n → bit_and a b ≡ bit_and b a
comm_below zero zero b h = zero-bit_and b ∙ sym (bit_and-zero b)
comm_below zero (suc a) b h = absurd (omega arith)
comm_below (suc n) zero b h = zero-bit_and b ∙ sym (bit_and-zero b)
comm_below (suc n) (suc a) b h = omega (
  arith,
  bit_and_step (suc a) b,
  bit_and_step b (suc a),
  comm_below n (suc a / 2) (b / 2) (omega arith),
)

pub bit_and_comm : (a b : ℕ) → bit_and a b ≡ bit_and b a
bit_and_comm a b = comm_below a a b (omega arith)

zero_assoc : (b c : ℕ) → bit_and (bit_and 0 b) c ≡ bit_and 0 (bit_and b c)
zero_assoc b c =
    ap (λ t. bit_and t c) (zero-bit_and b) ∙ zero-bit_and c ∙ sym (zero-bit_and (bit_and b c))

assoc_below : (n a b c : ℕ) → a ≤ n → bit_and (bit_and a b) c ≡ bit_and a (bit_and b c)
assoc_below zero zero b c h = zero_assoc b c
assoc_below zero (suc a) b c h = absurd (omega arith)
assoc_below (suc n) zero b c h = zero_assoc b c
assoc_below (suc n) (suc a) b c h =
    let l = bit_and-halves (suc a) b in
    let r = bit_and-halves b c in
    omega (
      arith,
      bit_and_step (bit_and (suc a) b) c,
      bit_and_step (suc a) (bit_and b c),
      l.1,
      r.1,
      ap (λ t. bit_and t (c / 2)) l.0,
      ap (bit_and (suc a / 2)) r.0,
      assoc_below n (suc a / 2) (b / 2) (c / 2) (omega arith),
    )

pub bit_and_assoc : (a b c : ℕ) → bit_and (bit_and a b) c ≡ bit_and a (bit_and b c)
bit_and_assoc a b c = assoc_below a a b c (omega arith)

le_below : (n a b : ℕ) → a ≤ n → bit_and a b ≤ a
le_below n zero b h = omega (arith, bit_and_comm 0 b, bit_and-zero b)
le_below zero (suc a) b h = absurd (omega arith)
le_below (suc n) (suc a) b h =
    omega (arith, bit_and_step (suc a) b, le_below n (suc a / 2) (b / 2) (omega arith))

pub bit_and-le : (a b : ℕ) → bit_and a b ≤ a
bit_and-le a b = le_below a a b (omega arith)

-- The bits of `a` are bits of `b`.
abbrev pub IsSubset : ℕ → ℕ → Type 0
IsSubset a b = bit_and a b ≡ a

pub IsSubset-left : (a b : ℕ) → IsSubset (bit_and a b) a
IsSubset-left a b =
    bit_and_comm (bit_and a b) a
    ∙ sym (bit_and_assoc a a b)
    ∙ ap (λ t. bit_and t b) (bit_and_self a)

pub IsSubset-right : (a b : ℕ) → IsSubset (bit_and a b) b
IsSubset-right a b = bit_and_assoc a b b ∙ ap (bit_and a) (bit_and_self b)

pub IsSubset-trans : (a b c : ℕ) → IsSubset a b → IsSubset b c → IsSubset a c
IsSubset-trans a b c p q =
    ap (λ t. bit_and t c) (sym p) ∙ bit_and_assoc a b c ∙ ap (bit_and a) q ∙ p

pub IsSubset-meet : (a b c : ℕ) → IsSubset a b → IsSubset a c → IsSubset a (bit_and b c)
IsSubset-meet a b c p q = sym (bit_and_assoc a b c) ∙ ap (λ t. bit_and t c) p ∙ q

-- `a &^ b`
minus_below : (n a b : ℕ) → a ≤ n → IsSubset (a - bit_and a b) a
minus_below n zero b h = ap (λ t. bit_and t 0) (none b) ∙ zero-bit_and 0 ∙ sym (none b)
  where
    none : (b : ℕ) → 0 - bit_and 0 b ≡ 0
    none b = omega arith
minus_below zero (suc a) b h = absurd (omega arith)
minus_below (suc n) (suc a) b h =
    let x = suc a in
    let d = x - bit_and x b in
    let s = bit_and_step x b in
    let l = bit_and-le (x / 2) (b / 2) in
    let half : d / 2 ≡ x / 2 - bit_and (x / 2) (b / 2) = omega arith in
    let odd : d % 2 ≡ x % 2 - min (x % 2) (b % 2) = omega arith in
    omega (
      arith,
      bit_and_step d x,
      ap (λ t. bit_and t (x / 2)) half,
      minus_below n (x / 2) (b / 2) (omega arith),
    )

pub IsSubset-minus : (a b : ℕ) → IsSubset (a - bit_and a b) a
IsSubset-minus a b = minus_below a a b (omega arith)

pub IsSubset-of_minus : (a b : ℕ) → a - bit_and a b ≡ 0 → IsSubset a b
IsSubset-of_minus a b e = omega (arith, bit_and-le a b)
