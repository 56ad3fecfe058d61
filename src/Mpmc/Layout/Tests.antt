-- ===== src/Mpmc/Layout/Tests.antt =====
-- A ring of two slots, formatted and attached to.
use hqq.Common.{ℕ, ◌+◌, ◌%◌, ◌≤◌, ◌<◌, ◌≡◌, ◌⊎◌, true, refl, arith, if◌then◌else◌, ltb, some, none}
use hqq.Mpmc.Layout.{
  Memory, formatted, stopped, Check, no_check, format_guarded, format_slots, slice_check, slice_due,
  valid_ring_size, stride, attach_once, attached, complete_header, clear_header, write_slot,
}
use hqq.Mpmc.Layout.Sizes.{stride_bounds}
use hqq.Mpmc.Layout.Format.{format_guarded-formatted, format_guarded-stopped, attach-format}

abbrev blank : Memory ℕ
blank = record {
  head = record {
    magic = 0;
    size = 0;
    flag = 0;
    stride = 0;
    version = 0;
    r = 9;
    w = 9;
    not_empty = 0;
    empty_waiters = 0;
    not_full = 0;
    full_waiters = 0;
  };
  slots = λ i. record { seq = 5; payload = i };
}

-- The callback refuses at its second call, after the slots are written.
abbrev refuse_late : Check ℕ
refuse_late = some (λ calls. if ltb calls 1 then none else some 7)

abbrev half_way : Memory ℕ
half_way = write_slot 0 1 (write_slot 0 0 (clear_header blank))

abbrev ready : Memory ℕ
ready = complete_header 64 2 half_way

stride_bounds_example : (stride 40 % 64 ≡ 0) × (40 ≤ stride 40) × (stride 40 < 40 + 64)
stride_bounds_example = stride_bounds 40 (ground arith)

two_is_valid : valid_ring_size 2 ≡ true
unfolding valid_ring_size
two_is_valid = refl

format_completes : format_guarded 0 64 2 (no_check ℕ) blank ≡ formatted ready
unfolding format_guarded format_slots slice_check slice_due valid_ring_size
format_completes = ground arith

late_refusal : format_guarded 0 64 2 refuse_late blank ≡ stopped 7 half_way
unfolding format_guarded format_slots slice_check slice_due valid_ring_size
late_refusal = ground arith

format_guarded-formatted_example :
    (valid_ring_size 2 ≡ true)
    × (ready.head ≡ record {
      magic = 0xc9d8c1d43f096702;
      size = 2;
      flag = 2;
      stride = 64;
      version = 2;
      r = 0;
      w = 0;
      not_empty = 0;
      empty_waiters = 0;
      not_full = 0;
      full_waiters = 0;
    })
    × (ready.slots 1 ≡ (if ltb 1 2 then record { seq = 1; payload = 0 } else blank.slots 1))
format_guarded-formatted_example =
    format_guarded-formatted 0 64 2 (no_check ℕ) blank ready 1 format_completes

format_guarded-stopped_example :
    ((half_way ≡ blank) ⊎ ((half_way.head.magic ≡ 0) × (half_way.head.flag ≡ 0)))
    × (half_way.slots 2 ≡ blank.slots 2)
format_guarded-stopped_example =
    format_guarded-stopped 0 64 2 refuse_late blank half_way 7 2 (ground arith) late_refusal

attach-format_example :
    (mem' : Memory ℕ) × (format_guarded 0 64 2 (no_check ℕ) blank ≡ formatted mem')
    × (attach_once 64 mem'.head ≡ attached (record { mask = 1; size = 2; stride = 64 }))
attach-format_example = attach-format 0 64 2 blank two_is_valid
