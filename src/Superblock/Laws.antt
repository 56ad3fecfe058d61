-- ===== src/Superblock/Laws.antt =====
-- The regions of a segment follow each other on page boundaries, and every accepted configuration
-- has a layout.
use hqq.Common.{
  ℕ, ◌+◌, ◌-◌, ◌*◌, ◌/◌, ◌%◌, ◌^◌, ◌<◌, ◌≤◌, ◌≡◌, inl, inr, ◌↔◌, true, some, arith, refl, ap, ◌∙◌,
  Option-cases, Bool-cases,
}
use native.Mathlib.Nat.{div-add-mod, mod-lt}
use hqq.Common.Bits.{mod_unique}
use hqq.Mpmc.Layout.{size_mpmc_ring, stride, valid_ring_size}
use hqq.Mpmc.Layout.Sizes.{size_mpmc_ring_lem}
use hqq.Superblock.{
  SegmentLayout, align_page, aligned_sum, compute_layout, size_standard_link, valid_config,
  is_power_of_two, superblock_size, packet_elem,
}

module _ (pagesize : ℕ) (some_page : 1 ≤ pagesize) where
  round_up :
      (x : ℕ)
      → let s = (x + (pagesize - 1)) / pagesize * pagesize in
        (s % pagesize ≡ 0) × (x ≤ s) × (s < x + pagesize)
  round_up x =
      let y = x + (pagesize - 1) in
      let whole = div-add-mod y pagesize in
      let small : y % pagesize < pagesize = mod-lt y some_page in
      let turn : y / pagesize * pagesize ≡ pagesize * (y / pagesize) = omega arith in
      let aligned : (pagesize * (y / pagesize) + 0) % pagesize ≡ 0 =
        mod_unique pagesize (y / pagesize) 0 some_page in
      (
        ap (λ t. t % pagesize) (omega (arith, turn)) ∙ aligned,
        omega (arith, whole, small, turn),
        omega (arith, whole, small, turn),
      )

  -- A sum of two region bounds that is given back is on a page boundary, and less than a page above.
  aligned_sum_lem :
      (a b s : ℕ)
      → aligned_sum pagesize a b ≡ some s
      → (s % pagesize ≡ 0) × (a + b ≤ s) × (s < a + b + pagesize)
  unfolding aligned_sum
  aligned_sum_lem a b s e = ground (arith, round_up (a + b))

  aligned_sum-succeeds :
      (a b : ℕ) → a + b + pagesize < 2 ^ 64 → (s : ℕ) × (aligned_sum pagesize a b ≡ some s)
  unfolding aligned_sum
  aligned_sum-succeeds a b h = ((a + b + (pagesize - 1)) / pagesize * pagesize, ground arith)

-- Every region of a layout that is given back starts on a page boundary, behind the end of the one
-- before it, and the whole is addressable with an int.
pub IsLaidOut : ℕ → ℕ → ℕ → SegmentLayout → Type 0
IsLaidOut pagesize buffer_count buffer_size l =
    (superblock_size ≤ l.ring0)
    × (l.ring0 + size_mpmc_ring packet_elem buffer_count ≤ l.buf0)
    × (l.buf0 + buffer_count * buffer_size ≤ l.ring1)
    × (l.ring1 + size_mpmc_ring packet_elem buffer_count ≤ l.buf1)
    × (l.buf1 + buffer_count * buffer_size ≤ l.total)
    × (l.total < 2 ^ 63)
    × (l.ring0 % pagesize ≡ 0)
    × (l.buf0 % pagesize ≡ 0)
    × (l.ring1 % pagesize ≡ 0)
    × (l.buf1 % pagesize ≡ 0)
    × (l.total % pagesize ≡ 0)

module _ (pagesize : ℕ) (some_page : 1 ≤ pagesize) (page_fits : pagesize ≤ 2 ^ 30) where
  align_page_lem :
      (align_page pagesize superblock_size % pagesize ≡ 0)
      × (superblock_size ≤ align_page pagesize superblock_size)
      × (align_page pagesize superblock_size < superblock_size + pagesize)
  unfolding align_page
  align_page_lem =
      let e : (superblock_size + pagesize - 1) % 2 ^ 64 ≡ superblock_size + (pagesize - 1) =
        omega arith in
      rw e (round_up pagesize some_page superblock_size)

  -- In every layout that is computed, each region starts on a page boundary behind the end of the
  -- one before it, and the whole is addressable with an int.
  pub compute_layout-regions :
      (buffer_count buffer_size : ℕ) (l : SegmentLayout)
      → compute_layout pagesize buffer_count buffer_size ≡ some l
      → IsLaidOut pagesize buffer_count buffer_size l
  unfolding compute_layout IsLaidOut
  compute_layout-regions buffer_count buffer_size l e =
      let ring = size_mpmc_ring packet_elem buffer_count in
      let bufs = buffer_count * buffer_size in
      let ring0 = align_page pagesize superblock_size in
      elim (Option-cases (aligned_sum pagesize ring0 ring)) [
        | inl x ↦ absurd (ground arith)
        | inr (buf0, x) ↦ elim (Option-cases (aligned_sum pagesize buf0 bufs)) [
          | inl y ↦ absurd (ground arith)
          | inr (ring1, y) ↦ elim (Option-cases (aligned_sum pagesize ring1 ring)) [
            | inl z ↦ absurd (ground arith)
            | inr (buf1, z) ↦ elim (Option-cases (aligned_sum pagesize buf1 bufs)) [
              | inl w ↦ absurd (ground arith)
              | inr (total, w) ↦ ground (
                arith,
                align_page_lem,
                aligned_sum_lem pagesize some_page ring0 ring buf0 x,
                aligned_sum_lem pagesize some_page buf0 bufs ring1 y,
                aligned_sum_lem pagesize some_page ring1 ring buf1 z,
                aligned_sum_lem pagesize some_page buf1 bufs total w,
              )
            ]
          ]
        ]
      ]

  product_bound : (c s : ℕ) → c ≤ 2 ^ 24 → s ≤ 2 ^ 30 → c * s ≤ 2 ^ 54
  product_bound c s h k = grind arith

  ring_size_bound :
      (c s : ℕ)
      → valid_config c s ≡ true
      → (1 ≤ size_mpmc_ring packet_elem c)
        × (size_mpmc_ring packet_elem c ≤ 2 ^ 32)
        × (c ≤ 2 ^ 24)
        × (s ≤ 2 ^ 30)
        × (1 ≤ c * s)
  unfolding valid_config valid_ring_size stride
  ring_size_bound c s e =
      let facts : (2 ≤ c) × (c ≤ 2 ^ 24) × (8 ≤ s) × (s ≤ 2 ^ 30) × (valid_ring_size c ≡ true) =
        unfold is_power_of_two in ground arith in
      let wide : stride packet_elem ≡ 128 = refl in
      let positive : 1 ≤ c * s = grind arith in
      ground (arith, facts, positive, size_mpmc_ring_lem packet_elem c (omega arith) (omega arith))

  -- With a page size from 1 to 2^30 bytes, a configuration has a size exactly when it is valid: no
  -- overflow test of the computation ever refuses one.
  pub size_standard_link_iff :
      (c s : ℕ) → (1 ≤ size_standard_link pagesize c s) ↔ (valid_config c s ≡ true)
  unfolding size_standard_link compute_layout
  size_standard_link_iff c s = (forth, back)
    where
      ring : ℕ
      ring = size_mpmc_ring packet_elem c

      forth : 1 ≤ size_standard_link pagesize c s → valid_config c s ≡ true
      forth h = elim (Bool-cases (valid_config c s)) [ inl e ↦ e | inr e ↦ absurd (ground arith) ]

      back : valid_config c s ≡ true → 1 ≤ size_standard_link pagesize c s
      back e =
          let r = ring_size_bound c s e in
          let p = product_bound c s (omega (arith, r)) (omega (arith, r)) in
          let ring0 = align_page pagesize superblock_size in
          let (buf0, x) =
            aligned_sum-succeeds pagesize some_page ring0 ring (omega (arith, align_page_lem, r)) in
          let x' = aligned_sum_lem pagesize some_page ring0 ring buf0 x in
          let (ring1, y) =
            aligned_sum-succeeds pagesize some_page buf0 (c * s)
              (omega (arith, align_page_lem, r, p, x')) in
          let y' = aligned_sum_lem pagesize some_page buf0 (c * s) ring1 y in
          let (buf1, z) =
            aligned_sum-succeeds pagesize some_page ring1 ring
              (omega (arith, align_page_lem, r, p, x', y')) in
          let z' = aligned_sum_lem pagesize some_page ring1 ring buf1 z in
          let (total, w) =
            aligned_sum-succeeds pagesize some_page buf1 (c * s)
              (omega (arith, align_page_lem, r, p, x', y', z')) in
          let w' = aligned_sum_lem pagesize some_page buf1 (c * s) total w in
          ground (arith, align_page_lem, r, p, x, x', y, y', z, z', w, w')
