-- ===== src/Bindgen/Types.antt =====
-- The sizes of the types of an interface (bindgen/idl/types.go). A type that passes the check for
-- cycles is a tree: the guards against a busy declaration and the stored results do not show.
pub mod Laws
pub mod Offsets
pub mod Encoding
pub mod Extent
pub mod Worst
mod Tests
use hqq.Common.{
  ℕ, ◌+◌, ◌-◌, ◌*◌, ◌/◌, ◌^◌, max, Bool, true, false, not, ◌&&◌, ◌||◌, List, [], ◌∷◌, ltb, leb,
  ◌==◌, if◌then◌else◌,
}

-- The kinds of `Kind` that are scalars
pub data ScalarKind : Type 0 where
  k_bool : ScalarKind
  k_i8 : ScalarKind
  k_i16 : ScalarKind
  k_i32 : ScalarKind
  k_i64 : ScalarKind
  k_u8 : ScalarKind
  k_u16 : ScalarKind
  k_u32 : ScalarKind
  k_u64 : ScalarKind
  k_size : ScalarKind
  k_f32 : ScalarKind
  k_f64 : ScalarKind

-- `Type`, by its `Kind`. The maximum of a string, of bytes and of an array is 0 when there is none. The
-- members of a struct and the cases of a union are without their names; a case may have no type.
mutual
  pub data IdlType : Type 0 where
    scalar : ScalarKind → IdlType
    handle : IdlType
    str : ℕ → IdlType
    bytes : ℕ → IdlType
    fixed_array : ℕ → IdlType → IdlType
    array : ℕ → IdlType → IdlType
    struct_of : Members → IdlType
    union_of : Cases → IdlType

  pub data Members : Type 0 where
    no_member : Members
    member : IdlType → Members → Members

  pub data Cases : Type 0 where
    no_case : Cases
    bare_case : Cases → Cases
    typed_case : IdlType → Cases → Cases

-- `satCap`
abbrev pub sat_cap : ℕ
sat_cap = 2 ^ 61

-- `satAdd`
unfoldable pub sat_add : ℕ → ℕ → ℕ
sat_add a b = if ltb (a + b) sat_cap then a + b else sat_cap

-- `satMul`; a product with a high word is one from `sat_cap` on.
unfoldable pub sat_mul : ℕ → ℕ → ℕ
sat_mul a b = if a == 0 || b == 0 then 0 else if leb sat_cap (a * b) then sat_cap else a * b

-- `roundUp`
unfoldable pub round_up : ℕ → ℕ → ℕ
round_up n a = if leb a 1 then n else (n + a - 1) / a * a

-- `tinfo`
pub record Tinfo : Type 0 where
  pub size : ℕ
  pub align : ℕ
  pub fixed : Bool
  pub least : ℕ
  pub wc : ℕ
  pub wc_finite : Bool

-- `scalarSize`
unfoldable pub scalar_size : ScalarKind → ℕ
scalar_size k_bool = 1
scalar_size k_i8 = 1
scalar_size k_i16 = 2
scalar_size k_i32 = 4
scalar_size k_i64 = 8
scalar_size k_u8 = 1
scalar_size k_u16 = 2
scalar_size k_u32 = 4
scalar_size k_u64 = 8
scalar_size k_size = 8
scalar_size k_f32 = 4
scalar_size k_f64 = 8

-- The case of a scalar in `infoOf`
unfoldable pub scalar_info : ℕ → Tinfo
scalar_info s = record {
  size = s;
  align = s;
  fixed = true;
  least = s;
  wc = s + s - 1;
  wc_finite = true;
}

-- A type of the alignment 4 that is not fixed
unfoldable pub varying : ℕ → Bool → ℕ → Tinfo
varying least finite wc = record {
  size = 0;
  align = 4;
  fixed = false;
  least = least;
  wc = if finite then wc else 0;
  wc_finite = finite;
}

-- The case `KFixedArray`, of the element's info
unfoldable pub fixed_array_info : ℕ → Tinfo → Tinfo
fixed_array_info len e =
    let body = sat_mul len (round_up e.size e.align) in
    if not e.fixed || ltb len 1
    then record {
      size = 0;
      align = max e.align 1;
      fixed = false;
      least = 4;
      wc = 0;
      wc_finite = false;
    }
    else record {
      size = body;
      align = e.align;
      fixed = true;
      least = body;
      wc = sat_add (e.align - 1) body;
      wc_finite = true;
    }

-- The turn of the loop of `structInfo` for a member, with the offset `off` and the info so far
unfoldable pub add_member : Tinfo → ℕ × Tinfo → ℕ × Tinfo
add_member mi (off, ti) = (
  if mi.fixed then sat_add (round_up off mi.align) mi.size else off,
  record ti {
    align = max ti.align mi.align;
    least = sat_add ti.least mi.least;
    wc = if mi.wc_finite then sat_add ti.wc mi.wc else ti.wc;
    wc_finite = ti.wc_finite && mi.wc_finite;
    fixed = ti.fixed && mi.fixed;
  },
)

-- What follows the loop
unfoldable pub finish_struct : ℕ × Tinfo → Tinfo
finish_struct (off, ti) =
    let size = round_up off ti.align in
    if ti.fixed
    then record ti { size = size; wc = sat_add (ti.align - 1) size; wc_finite = true }
    else if ti.wc_finite
    then ti
    else record ti { wc = 0 }

abbrev pub struct_start : ℕ × Tinfo
struct_start =
    (0, record { size = 0; align = 1; fixed = true; least = 0; wc = 0; wc_finite = true })

-- `infoOf`, `structInfo` and `unionInfo`
unfoldable mutual
  pub info_of : IdlType → Tinfo
  info_of (scalar k) = scalar_info (scalar_size k)
  info_of handle = scalar_info 4
  info_of (str m) = varying 5 (ltb 0 m) (sat_add 8 m)
  info_of (bytes m) = varying 4 (ltb 0 m) (sat_add 7 m)
  info_of (fixed_array len t) = fixed_array_info len (info_of t)
  info_of (array m t) =
      let e = info_of t in varying 4 (ltb 0 m && e.wc_finite) (sat_add 7 (sat_mul m e.wc))
  info_of (struct_of ms) = finish_struct (members_info ms struct_start)
  info_of (union_of cs) =
      let (payload, finite) = cases_info cs (0, true) in varying 4 finite (sat_add 7 payload)

  pub members_info : Members → ℕ × Tinfo → ℕ × Tinfo
  members_info no_member acc = acc
  members_info (member t ms) acc = members_info ms (add_member (info_of t) acc)

  pub cases_info : Cases → ℕ × Bool → ℕ × Bool
  cases_info no_case acc = acc
  cases_info (bare_case cs) acc = cases_info cs acc
  cases_info (typed_case t cs) (payload, finite) =
      let ci = info_of t in
      cases_info cs (if ci.wc_finite then max payload ci.wc else payload, finite && ci.wc_finite)

-- `SizeOf`, `Stride`, `MinSize` and `WorstCase`
unfoldable pub size_of : IdlType → ℕ × ℕ × Bool
size_of t = let ti = info_of t in (ti.size, ti.align, ti.fixed)

unfoldable pub stride : IdlType → ℕ
stride t = let (size, align, fixed) = size_of t in if not fixed then 0 else round_up size align

unfoldable pub min_size : IdlType → ℕ
min_size t = (info_of t).least

unfoldable pub worst_case : IdlType → ℕ × Bool
worst_case t = let ti = info_of t in (ti.wc, ti.wc_finite)

-- `MemberOffsets`: the loop, and its result, empty for a struct that is not fixed
unfoldable pub offsets_from : ℕ → Members → List ℕ
offsets_from off no_member = []
offsets_from off (member t ms) =
    let (size, align, fixed) = size_of t in
    let start = round_up off align in start ∷ offsets_from (sat_add start size) ms

unfoldable pub member_offsets : Members → List ℕ
member_offsets ms = if not (info_of (struct_of ms)).fixed then [] else offsets_from 0 ms
