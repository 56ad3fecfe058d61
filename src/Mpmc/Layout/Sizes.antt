-- ===== src/Mpmc/Layout/Sizes.antt =====
-- Ring sizes: which are accepted, and that `SizeMPMCRing` does not overflow.
use hqq.Common.{
  ℕ, ◌+◌, ◌-◌, ◌*◌, ◌/◌, ◌%◌, ◌^◌, ◌≤◌, ◌<◌, ◌≡◌, ◌↔◌, ◌⊎◌, true, false, bit_and, arith, dec_lt,
}
use native.Mathlib.Nat.{div-lt_iff_lt-mul}
use hqq.Common.Bits.{pred_mask_pow, pow_of_pred_mask}
use hqq.Mpmc.Layout.{valid_ring_size, stride, size_mpmc_ring}

-- A ring size is accepted exactly when it is a power of two of at least 2.
pub valid_ring_size_iff : (n : ℕ) → (valid_ring_size n ≡ true) ↔ ((2 ≤ n) × (k : ℕ) × (n ≡ 2 ^ k))
unfolding valid_ring_size
valid_ring_size_iff n = (accepted, rejected)
  where
    accepted : valid_ring_size n ≡ true → (2 ≤ n) × (k : ℕ) × (n ≡ 2 ^ k)
    accepted h =
        let two : 2 ≤ n = ground arith in
        let masked : bit_and n (n - 1) ≡ 0 = ground arith in
        let (k, p) = pow_of_pred_mask n (omega arith) masked in (two, k, p)

    rejected : (2 ≤ n) × (k : ℕ) × (n ≡ 2 ^ k) → valid_ring_size n ≡ true
    rejected (two, k, p) =
        let masked : bit_and n (n - 1) ≡ 0 = rw p (pred_mask_pow k) in ground arith

-- The stride is a multiple of 64 that holds the element, with less than 64 bytes to spare.
pub stride_bounds :
    (elem : ℕ)
    → elem + 63 < 2 ^ 64
    → (stride elem % 64 ≡ 0) × (elem ≤ stride elem) × (stride elem < elem + 64)
unfolding stride
stride_bounds elem h = omega arith

-- For an element of 1 to 2^64 - 64 bytes, the size of a ring with an accepted number of slots that
-- fits the address space is the sum, in which nothing wraps; for every other slot count it is 0.
pub size_mpmc_ring_lem :
    (elem n : ℕ)
    → 1 ≤ elem
    → elem + 63 < 2 ^ 64
    → ((valid_ring_size n ≡ true)
        × (512 + stride elem * n < 2 ^ 64)
        × (size_mpmc_ring elem n ≡ 512 + stride elem * n))
      ⊎ ((size_mpmc_ring elem n ≡ 0)
          × ((valid_ring_size n ≡ false) ⊎ (2 ^ 64 ≤ 512 + stride elem * n)))
unfolding size_mpmc_ring
size_mpmc_ring_lem elem n h k = elim (dec_lt (2 ^ 64 - 1 - 512) (n * stride elem)) [
  | yes big ↦
      let over : (2 ^ 64 - 1 - 512) / stride elem < n = (div-lt_iff_lt-mul wide).1 big in
      ground (arith, commute)
  | no small ↦
      let fits : ¬ ((2 ^ 64 - 1 - 512) / stride elem < n) =
        λ over. small ((div-lt_iff_lt-mul wide).0 over) in
      ground (arith, commute)
]
  where
    wide : 0 < stride elem
    wide = omega (arith, stride_bounds elem k)

    commute : stride elem * n ≡ n * stride elem
    commute = omega arith
