-- ===== src/Bindgen/Types/Worst.antt =====
-- No encoding is longer than the worst case of its type.
use hqq.Common.{
  ℕ, suc, ◌+◌, ◌-◌, ◌*◌, ◌≤◌, ◌<◌, ◌≡◌, max, Bool, true, false, ◌&&◌, ltb, if◌then◌else◌, arith,
  refl, ap, inl, inr,
}
use hqq.Bindgen.Types.{
  IdlType, struct_of, Members, no_member, member, Cases, no_case, bare_case, typed_case, sat_cap,
  sat_add, sat_mul, round_up, Tinfo, scalar_info, scalar_size, varying, fixed_array_info,
  add_member, finish_struct, struct_start, info_of, members_info, cases_info, worst_case,
}
use hqq.Bindgen.Types.Laws.{round_up_bounds, info_of-IsConsistent, scalar_size-IsAlign}
use hqq.Bindgen.Types.Offsets.{sat_add_exact}
use hqq.Bindgen.Types.Extent.{fixed_extent, sat_mul_exact, le_mul}
use hqq.Bindgen.Types.Encoding.{
  Encodes, scalar_at, handle_at, str_at, bytes_at, array_at, fixed_array_at, fixed_struct_at,
  open_struct_at, union_at, Repeats, none_left, one_more, Fields, no_field, field, Picks, bare,
  payload, after_bare, after_typed,
}

mul_mono : (n m s : ℕ) → n ≤ m → n * s ≤ m * s
mul_mono n m s h = grind arith

pad4 : (pos : ℕ) → round_up pos 4 ≤ pos + 3
pad4 pos = omega (arith, round_up_bounds pos 4 (inr (inr (inl refl))))

fixed_worst :
    {t : IdlType} {pos end : ℕ}
    → Encodes t pos end
    → (info_of t).fixed ≡ true
    → (info_of t).wc < sat_cap
    → end ≤ pos + (info_of t).wc
fixed_worst {t} {pos} e f k =
    let ti = info_of t in
    let c = info_of-IsConsistent t in
    let exact = sat_add_exact (ti.align - 1) ti.size (omega (arith, (c.fixes f).worst, k)) in
    let small : ti.size < sat_cap = omega (arith, (c.fixes f).worst, exact, k) in
    omega (
      arith,
      fixed_extent e f small,
      round_up_bounds pos ti.align c.aligned,
      (c.fixes f).worst,
      exact,
    )

array_is_fixed : (n : ℕ) (e : Tinfo) → e.fixed ≡ true → 1 ≤ n → (fixed_array_info n e).fixed ≡ true
unfolding fixed_array_info
array_is_fixed n e f l = ground arith

member_wc :
    (mi : Tinfo) (off : ℕ) (ti : Tinfo)
    → (add_member mi (off, ti)).1.wc_finite ≡ true
    → (ti.wc_finite ≡ true)
      × (mi.wc_finite ≡ true)
      × ((add_member mi (off, ti)).1.wc ≡ sat_add ti.wc mi.wc)
unfolding add_member
member_wc mi off ti h = ground arith

members_wc :
    (ms : Members) (acc : ℕ × Tinfo)
    → (members_info ms acc).1.wc_finite ≡ true
    → (members_info ms acc).1.wc < sat_cap
    → (acc.1.wc_finite ≡ true) × (acc.1.wc ≤ (members_info ms acc).1.wc)
unfolding members_info
members_wc no_member acc f k = (f, omega arith)
members_wc (member t ms) (off, ti) f k =
    let mi = info_of t in
    let acc = add_member mi (off, ti) in
    let (af, b) = members_wc ms acc f k in
    let (tf, mf, e) = member_wc mi off ti af in
    let exact = sat_add_exact ti.wc mi.wc (omega (arith, e, b, k)) in
    (tf, omega (arith, e, b, exact))

open_struct :
    (ms : Members)
    → (info_of (struct_of ms)).fixed ≡ false
    → (info_of (struct_of ms)).wc_finite ≡ true
    → ((members_info ms struct_start).1.wc_finite ≡ true)
      × ((members_info ms struct_start).1.wc ≡ (info_of (struct_of ms)).wc)
unfolding info_of finish_struct
open_struct ms f w = ground arith

cases_wc :
    (cs : Cases) (acc : ℕ × Bool)
    → (cases_info cs acc).1 ≡ true
    → (acc.1 ≡ true) × (acc.0 ≤ (cases_info cs acc).0)
unfolding cases_info
cases_wc no_case acc f = (f, omega arith)
cases_wc (bare_case cs) acc f = cases_wc cs acc f
cases_wc (typed_case t cs) (top, finite) f =
    let ci = info_of t in
    ground
      (arith, cases_wc cs (if ci.wc_finite then max top ci.wc else top, finite && ci.wc_finite) f)

varying_wc :
    (least : ℕ) (finite : Bool) (wc : ℕ)
    → (varying least finite wc).wc_finite ≡ true
    → (finite ≡ true) × ((varying least finite wc).wc ≡ wc)
unfolding varying
varying_wc least finite wc h = ground arith

mutual
  unfolding info_of scalar_info members_info cases_info

  -- The same of the stored info
  worst_extent :
      {t : IdlType} {pos end : ℕ}
      → Encodes t pos end
      → (info_of t).wc_finite ≡ true
      → (info_of t).wc < sat_cap
      → end ≤ pos + (info_of t).wc
  worst_extent (scalar_at k pos) w s =
      omega (arith, round_up_bounds pos (scalar_size k) (scalar_size-IsAlign k))
  worst_extent (handle_at pos) w s = omega (arith, pad4 pos)
  worst_extent (str_at m n pos h) w s =
      let (f, e) = varying_wc 5 (ltb 0 m) (sat_add 8 m) w in
      let some : 1 ≤ m = ground (arith, f) in
      let exact = sat_add_exact 8 m (omega (arith, e, s)) in
      omega (arith, pad4 pos, h some, e, exact)
  worst_extent (bytes_at m n pos h) w s =
      let (f, e) = varying_wc 4 (ltb 0 m) (sat_add 7 m) w in
      let some : 1 ≤ m = ground (arith, f) in
      let exact = sat_add_exact 7 m (omega (arith, e, s)) in
      omega (arith, pad4 pos, h some, e, exact)
  worst_extent (array_at {t} {end} m n pos h r) w s =
      let top = (info_of t).wc in
      let (f, e) = varying_wc 4 (ltb 0 m && (info_of t).wc_finite) (sat_add 7 (sat_mul m top)) w in
      let some : (1 ≤ m) × ((info_of t).wc_finite ≡ true) = ground (arith, f) in
      let exact = sat_add_exact 7 (sat_mul m top) (omega (arith, e, s)) in
      let product = sat_mul_exact m top (omega (arith, e, s, exact)) in
      let small : top < sat_cap = omega (arith, le_mul m top some.0, product, exact, e, s) in
      omega (
        arith,
        pad4 pos,
        Repeats-worst r some.1 small,
        mul_mono n m top (h some.0),
        e,
        exact,
        product,
      )
  worst_extent (fixed_array_at {t} n pos g l p) w s =
      fixed_worst (fixed_array_at n pos g l p) (array_is_fixed n (info_of t) g l) s
  worst_extent (fixed_struct_at pos g p) w s = fixed_worst (fixed_struct_at pos g p) g s
  worst_extent (open_struct_at {ms} pos g p) w s =
      let (f, e) = open_struct ms g w in
      omega (arith, Fields-worst 0 struct_start.1 p f (omega (arith, e, s)), e)
  worst_extent (union_at {cs} pos p) w s =
      let (top, finite) = cases_info cs (0, true) in
      let (f, e) = varying_wc 4 finite (sat_add 7 top) w in
      let exact = sat_add_exact 7 top (omega (arith, e, s)) in
      omega (arith, pad4 pos, Picks-worst (0, true) p f (omega (arith, e, exact, s)), e, exact)

  Repeats-worst :
      {t : IdlType} {n pos end : ℕ}
      → Repeats t n pos end
      → (info_of t).wc_finite ≡ true
      → (info_of t).wc < sat_cap
      → end ≤ pos + n * (info_of t).wc
  Repeats-worst (none_left t pos) w s = omega arith
  Repeats-worst (one_more {t} {n} e r) w s =
      let more : (info_of t).wc + n * (info_of t).wc ≡ suc n * (info_of t).wc = grind arith in
      omega (arith, worst_extent e w s, Repeats-worst r w s, more)

  Fields-worst :
      {ms : Members} {pos end : ℕ} (off : ℕ) (ti : Tinfo)
      → Fields ms pos end
      → (members_info ms (off, ti)).1.wc_finite ≡ true
      → (members_info ms (off, ti)).1.wc < sat_cap
      → end + ti.wc ≤ pos + (members_info ms (off, ti)).1.wc
  Fields-worst off ti (no_field pos) w s = omega arith
  Fields-worst off ti (field {t} {ms} p ps) w s =
      let mi = info_of t in
      let acc = add_member mi (off, ti) in
      let (af, b) = members_wc ms acc w s in
      let (tf, mf, e) = member_wc mi off ti af in
      let exact = sat_add_exact ti.wc mi.wc (omega (arith, e, b, s)) in
      omega (
        arith,
        worst_extent p mf (omega (arith, exact, e, b, s)),
        Fields-worst acc.0 acc.1 ps w s,
        exact,
        e,
      )

  Picks-worst :
      {cs : Cases} {pos end : ℕ} (acc : ℕ × Bool)
      → Picks cs pos end
      → (cases_info cs acc).1 ≡ true
      → (cases_info cs acc).0 < sat_cap
      → end ≤ pos + (cases_info cs acc).0
  Picks-worst acc (bare cs pos) w s = omega arith
  Picks-worst (top, finite) (payload {t} cs e) w s =
      let ci = info_of t in
      let acc : ℕ × Bool = (if ci.wc_finite then max top ci.wc else top, finite && ci.wc_finite) in
      let (f, b) = cases_wc cs acc w in
      let finite_here : ci.wc_finite ≡ true = ground (arith, f) in
      let above : ci.wc ≤ acc.0 = ground (arith, finite_here) in
      omega (arith, worst_extent e finite_here (omega (arith, above, b, s)), above, b)
  Picks-worst acc (after_bare p) w s = Picks-worst acc p w s
  Picks-worst (top, finite) (after_typed t p) w s =
      Picks-worst
        (
          if (info_of t).wc_finite then max top (info_of t).wc else top,
          finite && (info_of t).wc_finite,
        )
        p w s

-- An encoding of a type whose worst case is finite and below the limit takes at most that many bytes,
-- the padding before it included, wherever it starts.
pub worst_case_bounds :
    (t : IdlType) (pos end wc : ℕ)
    → Encodes t pos end
    → worst_case t ≡ (wc, true)
    → wc < sat_cap
    → end ≤ pos + wc
unfolding worst_case
worst_case_bounds t pos end wc e h k =
    let w : (info_of t).wc ≡ wc = ap (λ x. x.0) h in
    omega (arith, worst_extent e (ap (λ x. x.1) h) (omega (arith, w, k)), w)
