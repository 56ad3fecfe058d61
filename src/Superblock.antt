-- ===== src/Superblock.antt =====
-- The layout of a standard link's segment (superblock.go), on a machine with 64-bit int and uintptr.
pub mod Claim
pub mod Laws
pub mod Peer
pub mod Publish
pub mod Segment
pub mod Session
mod Tests
use hqq.Common.{
  ℕ, ◌+◌, ◌-◌, ◌*◌, ◌/◌, ◌%◌, ◌^◌, bit_and, Bool, true, false, not, ◌&&◌, ◌||◌, Option, some, none,
  leb, ltb, ◌==◌, if◌then◌else◌,
}
use hqq.Mpmc.Layout.{size_mpmc_ring}

-- `MinBufferCount`, `maxBufferCount`, `MinBufferSize`, `maxBufferSize`, `BufferSizeAlignment`
abbrev pub min_buffer_count : ℕ
min_buffer_count = 2

abbrev pub max_buffer_count : ℕ
max_buffer_count = 2 ^ 24

abbrev pub min_buffer_size : ℕ
min_buffer_size = 8

abbrev pub max_buffer_size : ℕ
max_buffer_size = 2 ^ 30

abbrev pub buffer_size_alignment : ℕ
buffer_size_alignment = 8

-- The size of a ring element with a `protocol.Packet`: a 64-bit sequence and 64 bytes
abbrev pub packet_elem : ℕ
packet_elem = 72

-- The size of `standardSuperblock`: 128 bytes and two endpoint records of 128 bytes
abbrev pub superblock_size : ℕ
superblock_size = 384

-- `isPowerOfTwo`, of an int that is not negative
unfoldable pub is_power_of_two : ℕ → Bool
is_power_of_two v = ltb 0 v && bit_and v (v - 1) == 0

-- `validConfig`; negative arguments are refused like small ones.
unfoldable pub valid_config : ℕ → ℕ → Bool
unfolding is_power_of_two
valid_config buffer_count buffer_size =
    is_power_of_two buffer_count
    && leb min_buffer_count buffer_count
    && leb buffer_count max_buffer_count
    && leb min_buffer_size buffer_size
    && leb buffer_size max_buffer_size
    && buffer_size % buffer_size_alignment == 0

-- `segmentLayout`
pub record SegmentLayout : Type 0 where
  pub ring0 : ℕ
  pub buf0 : ℕ
  pub ring1 : ℕ
  pub buf1 : ℕ
  pub total : ℕ

abbrev and_then : {A B : Type 0} → Option A → (A → Option B) → Option B
and_then none f = none
and_then (some a) f = f a

-- The page size is read from the system.
module _ (pagesize : ℕ) where
  -- `alignPage`
  unfoldable pub align_page : ℕ → ℕ
  align_page size = (size + pagesize - 1) % 2 ^ 64 / pagesize * pagesize

  -- `alignedSum`: `bits.Add` gives the carry.
  unfoldable pub aligned_sum : ℕ → ℕ → Option ℕ
  aligned_sum a b =
      if leb (2 ^ 64) (a + b)
      then none
      else if leb (2 ^ 64) (a + b + (pagesize - 1))
      then none
      else some ((a + b + (pagesize - 1)) / pagesize * pagesize)

  -- `computeLayout`; none for `ok == false`
  unfoldable pub compute_layout : ℕ → ℕ → Option SegmentLayout
  compute_layout buffer_count buffer_size =
      let ring_size = size_mpmc_ring packet_elem buffer_count in
      let buffers_size = buffer_count * buffer_size in
      if not (valid_config buffer_count buffer_size)
      then none
      else if ring_size == 0
      then none
      else if leb (2 ^ 63) buffers_size
      then none
      else let ring0 = align_page superblock_size in
        and_then (aligned_sum ring0 ring_size) (λ buf0.
          and_then (aligned_sum buf0 buffers_size) (λ ring1.
            and_then (aligned_sum ring1 ring_size) (λ buf1.
              and_then (aligned_sum buf1 buffers_size) (λ total.
                if ltb total (2 ^ 63)
                then some (record {
                  ring0 = ring0;
                  buf0 = buf0;
                  ring1 = ring1;
                  buf1 = buf1;
                  total = total;
                })
                else none))))

  -- `SizeStandardLink`
  unfoldable pub size_standard_link : ℕ → ℕ → ℕ
  size_standard_link buffer_count buffer_size = elim (compute_layout buffer_count buffer_size) [
    | none ↦ 0
    | some l ↦ l.total
  ]
