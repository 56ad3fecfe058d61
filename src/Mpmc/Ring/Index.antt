-- ===== src/Mpmc/Ring/Index.antt =====
-- Slot indices and position differences, while positions are far from the end of the 64-bit range.
use hqq.Common.{ℕ, ◌+◌, ◌-◌, ◌%◌, ◌^◌, ◌≤◌, ◌<◌, ◌≡◌, ◌≢◌, sym, ap, ◌∙◌, arith, dec_lt, true}
use native.Mathlib.Nat.{mod-eq_of_lt, mod-lt, mod-le, add-mod_right, mod-add-mod, mod-eq-sub-mod}
use hqq.Common.Bits.{bit_and_mask}
use hqq.Mpmc.Layout.{MpmcRing, valid_ring_size}
use hqq.Mpmc.Layout.Sizes.{valid_ring_size_iff}
use hqq.Mpmc.Ring.{same, behind, diff, elem}

-- A handle as `Attach` makes it.
pub record IsHandle (m : MpmcRing) : Type 0 where
  pub size_valid : valid_ring_size m.size ≡ true
  pub masked : m.mask ≡ m.size - 1

pub two-le-size : {m : MpmcRing} → IsHandle m → 2 ≤ m.size
two-le-size {m} h = ((valid_ring_size_iff m.size).0 h.size_valid).0

-- The mask takes the position modulo the number of slots.
pub elem-eq-mod : {m : MpmcRing} → IsHandle m → (pos : ℕ) → elem m pos ≡ pos % m.size
unfolding elem
elem-eq-mod {m} h pos =
    let (two, k, p) = (valid_ring_size_iff m.size).0 h.size_valid in
    rw h.masked (rw p (bit_and_mask k pos))

pub elem-lt-size : {m : MpmcRing} → IsHandle m → (pos : ℕ) → elem m pos < m.size
elem-lt-size {m} h pos = rw (elem-eq-mod h) (mod-lt pos (omega (arith, two-le-size h)))

pub elem-le : {m : MpmcRing} → IsHandle m → (pos : ℕ) → elem m pos ≤ pos
elem-le {m} h pos = rw (elem-eq-mod h) (mod-le pos m.size)

pub elem-add-size : {m : MpmcRing} → IsHandle m → (pos : ℕ) → elem m (pos + m.size) ≡ elem m pos
elem-add-size {m} h pos =
    elem-eq-mod h (pos + m.size) ∙ add-mod_right pos m.size ∙ sym (elem-eq-mod h pos)

-- Neighbouring positions have different slots: this is why one slot is not enough.
pub elem_neighbours : {m : MpmcRing} → IsHandle m → (p q : ℕ) → p ≡ q + 1 → elem m p ≢ elem m q
elem_neighbours {m} h p q e s = elim (dec_lt (q % m.size + 1) m.size) [
  | yes inside ↦ omega (arith, stepped, mod-eq_of_lt inside)
  | no last ↦ omega (
    arith,
    stepped,
    two-le-size h,
    mod-lt q {m = m.size} (omega (arith, two-le-size h)),
    mod-eq-sub-mod {n = q % m.size + 1} {m = m.size} (omega arith),
    mod-eq_of_lt {n = q % m.size + 1 - m.size} {m = m.size}
        (omega (arith, two-le-size h, mod-lt q {m = m.size} (omega (arith, two-le-size h)))),
  )
]
  where
    stepped : (q % m.size + 1) % m.size ≡ q % m.size
    stepped =
        mod-add-mod q m.size 1
        ∙ ap (λ x. x % m.size) (sym e)
        ∙ sym (elem-eq-mod h p)
        ∙ s
        ∙ elem-eq-mod h q

-- Below 2^63 the wrapped difference compares.
pub diff-same : (a b : ℕ) → a < 2 ^ 63 → b < 2 ^ 63 → diff a b ≡ same → a ≡ b
unfolding diff
diff-same a b ha hb e = ground arith

pub diff-behind : (a b : ℕ) → a < 2 ^ 63 → b < 2 ^ 63 → diff a b ≡ behind → a < b
unfolding diff
diff-behind a b ha hb e = ground arith
