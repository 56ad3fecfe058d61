-- ===== src/Superblock/Tests.antt =====
-- A link of 16 buffers of 1024 bytes, with pages of 4096 bytes.
use hqq.Common.{◌≤◌, ◌≡◌, ◌↔◌, true, some, arith, refl}
use hqq.Mpmc.Layout.{size_mpmc_ring, stride, valid_ring_size}
use hqq.Superblock.{
  SegmentLayout, align_page, aligned_sum, compute_layout, size_standard_link, valid_config,
  is_power_of_two,
}
use hqq.Superblock.Laws.{IsLaidOut, compute_layout-regions, size_standard_link_iff}

abbrev small_layout : SegmentLayout
small_layout = record { ring0 = 4096; buf0 = 8192; ring1 = 24576; buf1 = 28672; total = 45056 }

small_layout-computed : compute_layout 4096 16 1024 ≡ some small_layout
unfolding compute_layout aligned_sum align_page size_mpmc_ring stride valid_ring_size valid_config
    is_power_of_two
small_layout-computed = refl

compute_layout-regions_example : IsLaidOut 4096 16 1024 small_layout
compute_layout-regions_example =
    compute_layout-regions 4096 (omega arith) (omega arith) 16 1024 small_layout
      small_layout-computed

size_standard_link_iff_example :
    (1 ≤ size_standard_link 4096 16 1024) ↔ (valid_config 16 1024 ≡ true)
size_standard_link_iff_example = size_standard_link_iff 4096 (omega arith) (omega arith) 16 1024
