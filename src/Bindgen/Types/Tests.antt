-- ===== src/Bindgen/Types/Tests.antt =====
-- A struct of a byte, a 64-bit integer and three 16-bit integers, and an array of at most two bytes.
use hqq.Common.{◌+◌, ◌^◌, ◌≤◌, ◌<◌, ◌≡◌, true, [], ◌∷◌, arith, refl}
use hqq.Bindgen.Types.{
  IdlType, scalar, array, fixed_array, struct_of, k_u8, k_u16, k_u64, Members, no_member, member,
  info_of, scalar_info, scalar_size, varying, fixed_array_info, add_member, finish_struct, sat_add,
  sat_mul, round_up, member_offsets, offsets_from, size_of, worst_case,
}
use hqq.Bindgen.Types.Offsets.{LaidOut, member_offsets-LaidOut}
use hqq.Bindgen.Types.Encoding.{
  Encodes, scalar_at, array_at, fixed_struct_at, one_more, none_left, field, no_field,
}
use hqq.Bindgen.Types.Extent.{size_of-extent}
use hqq.Bindgen.Types.Worst.{worst_case_bounds}

abbrev ms : Members
ms = member (scalar k_u8) (member (scalar k_u64) (member (fixed_array 3 (scalar k_u16)) no_member))

offsets : member_offsets ms ≡ 0 ∷ 8 ∷ 16 ∷ []
unfolding member_offsets offsets_from size_of info_of scalar_info scalar_size fixed_array_info
    add_member finish_struct sat_add sat_mul round_up
offsets = refl

ms_fixed : (info_of (struct_of ms)).fixed ≡ true
unfolding info_of scalar_info scalar_size fixed_array_info add_member finish_struct
ms_fixed = refl

ms_small : (info_of (struct_of ms)).size < 2 ^ 61
unfolding info_of scalar_info scalar_size fixed_array_info add_member finish_struct sat_add sat_mul
    round_up
ms_small = omega arith

member_offsets-LaidOut_example : LaidOut (info_of (struct_of ms)).size 0 ms (member_offsets ms)
member_offsets-LaidOut_example = member_offsets-LaidOut ms ms_fixed ms_small

ms_size : size_of (struct_of ms) ≡ (24, 8, true)
unfolding size_of info_of scalar_info scalar_size fixed_array_info add_member finish_struct sat_add
    sat_mul round_up
ms_size = refl

abbrev pair : Members
pair = member (scalar k_u8) (member (scalar k_u16) no_member)

pair_size : size_of (struct_of pair) ≡ (4, 2, true)
unfolding size_of info_of scalar_info scalar_size add_member finish_struct sat_add round_up
pair_size = refl

-- The struct of a byte and a 16-bit integer, from the position 5: a byte of padding, the byte at 6, and
-- the integer at 8.
pair_at_5 : Encodes (struct_of pair) 5 10
unfolding info_of scalar_info scalar_size add_member finish_struct sat_add round_up
pair_at_5 =
    fixed_struct_at 5 refl (field (scalar_at k_u8 6) (field (scalar_at k_u16 7) (no_field 10)))

size_of-extent_example : 10 ≡ round_up 5 2 + 4
size_of-extent_example = size_of-extent (struct_of pair) 5 10 4 2 pair_at_5 pair_size (omega arith)

abbrev bytes_of_two : IdlType
bytes_of_two = array 2 (scalar k_u8)

two_at_1 : Encodes bytes_of_two 1 10
unfolding scalar_size round_up
two_at_1 =
    array_at 2 2 1 (λ h. omega arith)
      (one_more (scalar_at k_u8 8) (one_more (scalar_at k_u8 9) (none_left (scalar k_u8) 10)))

two_worst : worst_case bytes_of_two ≡ (9, true)
unfolding worst_case info_of scalar_info scalar_size varying sat_add sat_mul
two_worst = refl

worst_case_bounds_example : 10 ≤ 1 + 9
worst_case_bounds_example = worst_case_bounds bytes_of_two 1 10 9 two_at_1 two_worst (omega arith)
