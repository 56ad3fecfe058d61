-- ===== src/Mpmc/Layout.antt =====
-- The ring's memory (internal/mpmc/mpmc.go): header, slots, sizes, `Format` and `Attach`.
pub mod Sizes
pub mod Format
mod Tests
use hqq.Common.{
  ℕ, zero, suc, ◌+◌, ◌-◌, ◌*◌, ◌/◌, ◌%◌, ◌^◌, bit_and, Bool, true, false, not, ◌&&◌, ◌||◌, Option,
  none, some, List, [], ◌∷◌, ltb, leb, ◌==◌, if◌then◌else◌,
}

abbrev pub header_size : ℕ
header_size = 512

abbrev pub slot_align : ℕ
slot_align = 64

abbrev pub layout_version : ℕ
layout_version = 2

abbrev pub mpmc_magic : ℕ
mpmc_magic = 0xc9d8c1d43f096702

-- `_mpmc_init`, the second of the iota bits
abbrev pub mpmc_init : ℕ
mpmc_init = 2

abbrev pub format_slice : ℕ
format_slice = 1024

-- `_mring`; the padding between the lines holds no state.
pub record Mring : Type 0 where
  pub magic : ℕ
  pub size : ℕ
  pub flag : ℕ
  pub stride : ℕ
  pub version : ℕ
  pub r : ℕ
  pub w : ℕ
  pub not_empty : ℕ
  pub empty_waiters : ℕ
  pub not_full : ℕ
  pub full_waiters : ℕ

-- `_melem[T]`
pub record Melem {ℓ} (A : Type ℓ) : Type ℓ where
  pub seq : ℕ
  pub payload : A

-- The memory behind the ring's pointer: the header and, by slot index, what lies behind it. The
-- index is not bounded, so that a write past the last slot would be seen.
pub record Memory {ℓ} (A : Type ℓ) : Type ℓ where
  pub head : Mring
  pub slots : ℕ → Melem A

-- One store to the slot `i`.
abbrev pub update {ℓ} : {B : Type ℓ} → (ℕ → B) → ℕ → B → ℕ → B
update f i b j = if i == j then b else f j

-- `stride[T]` for an element of `size` bytes (`unsafe.Sizeof(_melem[T]{})`), in 64-bit words:
-- `&^ 63` clears the low six bits.
unfoldable pub stride : ℕ → ℕ
stride size = let s : ℕ = (size + slot_align - 1) % 2 ^ 64 in s - s % slot_align

-- `validRingSize`; `n - 1` is read only at `n >= 2`.
unfoldable pub valid_ring_size : ℕ → Bool
valid_ring_size n = leb 2 n && bit_and n (n - 1) == 0

-- `SizeMPMCRing`, on a machine with 64-bit uintptr
unfoldable pub size_mpmc_ring : ℕ → ℕ → ℕ
size_mpmc_ring elem n =
    if not (valid_ring_size n)
    then 0
    else if ltb ((2 ^ 64 - 1 - header_size) / stride elem) n
    then 0
    else (header_size + stride elem * n % 2 ^ 64) % 2 ^ 64

-- What `FormatGuarded` leaves: a panic before any access, the error of `check` with the memory at
-- that moment, or the formatted memory.
pub data Formatted {ℓ} (A : Type ℓ) (E : Type 0) : Type ℓ where
  panicked : Formatted A E
  stopped : E → Memory A → Formatted A E
  formatted : Memory A → Formatted A E

-- `check` may answer differently at each of its calls: call `n` returns `check n`. `none` as the
-- callback is Go's nil.
abbrev pub Check : Type 0 → Type 0
Check E = Option (ℕ → Option E)

-- `Format` passes nil.
abbrev pub no_check : (E : Type 0) → Check E
no_check E = none

abbrev pub run_check : {E : Type 0} → Check E → ℕ → Option E
run_check none calls = none
run_check (some check) calls = check calls

module _ {ℓ} {A : Type ℓ} where
  abbrev pub write_slot : A → ℕ → Memory A → Memory A
  write_slot zero_value i mem = record mem {
    slots = update mem.slots i (record { seq = i; payload = zero_value });
  }

  -- The stores to the header that complete the ring.
  abbrev pub complete_header : ℕ → ℕ → Memory A → Memory A
  complete_header st size mem = record mem {
    head = record {
      magic = mpmc_magic;
      size = size;
      flag = mpmc_init;
      stride = st;
      version = layout_version;
      r = 0;
      w = 0;
      not_empty = 0;
      empty_waiters = 0;
      not_full = 0;
      full_waiters = 0;
    };
  }

  abbrev pub clear_header : Memory A → Memory A
  clear_header mem = record mem { head = record mem.head { flag = 0; magic = 0 } }

-- `check` runs again before every `format_slice` slots.
unfoldable pub slice_due : ℕ → Bool
slice_due i = not (i == 0) && i % format_slice == 0

unfoldable pub slice_check : {E : Type 0} → Check E → ℕ → ℕ → Option E
unfolding slice_due
slice_check check calls i = if slice_due i then run_check check calls else none

module _ {ℓ} {A : Type ℓ} (zero_value : A) {E : Type 0} where
  -- The loop over the slots from `i` on, with `left` of them to write; it also returns how often
  -- `check` was called.
  unfoldable pub format_slots : Check E → ℕ → ℕ → ℕ → Memory A → Option E × ℕ × Memory A
  format_slots check calls zero i mem = (none, calls, mem)
  format_slots check calls (suc left) i mem = elim (slice_check check calls i) [
    | some e ↦ (some e, calls + 1, mem)
    | none ↦
        format_slots check (if slice_due i then calls + 1 else calls) left (i + 1)
          (write_slot zero_value i mem)
  ]

  -- `FormatGuarded` for slots of `st` bytes
  unfoldable pub format_guarded : ℕ → ℕ → Check E → Memory A → Formatted A E
  format_guarded st size check mem =
      if not (valid_ring_size size) then panicked else elim (run_check check 0) [
        | some e ↦ stopped e mem
        | none ↦
            let (failure, calls, mem') = format_slots check 1 size 0 (clear_header mem) in
            elim failure [
              | some e ↦ stopped e mem'
              | none ↦ elim (run_check check calls) [
                | some e ↦ stopped e mem'
                | none ↦ formatted (complete_header st size mem')
              ]
            ]
      ]

-- `MPMCRing`, less the addresses: the ring it is attached to is the memory passed beside it.
pub record MpmcRing : Type 0 where
  pub mask : ℕ
  pub size : ℕ
  pub stride : ℕ

-- One round of the loop of `Attach`.
pub data Attached : Type 0 where
  retry : Attached
  incompatible : Attached
  attached : MpmcRing → Attached

-- `_flag & _mpmc_init != 0`
unfoldable pub attach_once : ℕ → Mring → Attached
attach_once st hdr =
    if hdr.magic == mpmc_magic && not (bit_and hdr.flag mpmc_init == 0)
    then (if not (hdr.stride == st)
          || not (hdr.version == layout_version)
          || not (valid_ring_size hdr.size)
        then incompatible
        else attached (record { mask = hdr.size - 1; size = hdr.size; stride = st }))
    else retry

-- `Attach`: each round sees the header as it then is, and the time since the start. The result is
-- `none` for Go's nil. Rounds that are not listed have not happened yet: the outer `none`.
unfoldable pub attach : ℕ → ℕ → List (Mring × ℕ) → Option (Option MpmcRing)
unfolding attach_once
attach st timeout [] = none
attach st timeout ((hdr, since) ∷ rest) =
    let later = attach st timeout rest in
    elim (attach_once st hdr) [
      | attached ring ↦ some (some ring)
      | incompatible ↦ some none
      | retry ↦ if ltb 0 timeout && leb timeout since then some none else later
    ]
