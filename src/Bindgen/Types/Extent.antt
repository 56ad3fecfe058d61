-- ===== src/Bindgen/Types/Extent.antt =====
-- How far an encoding reaches: to the size of a fixed type, and never past the worst case.
use hqq.Common.{
  ℕ, zero, suc, ◌+◌, ◌-◌, ◌*◌, ◌≤◌, ◌<◌, ◌≡◌, true, not, if◌then◌else◌, arith, refl, sym, ap, ap₂,
  ◌∙◌, subst,
}
use hqq.Bindgen.Types.{
  IdlType, struct_of, Members, no_member, member, sat_cap, sat_add, sat_mul, round_up, Tinfo,
  scalar_info, varying, fixed_array_info, add_member, struct_start, info_of, members_info, size_of,
  stride, min_size, worst_case,
}
use hqq.Bindgen.Types.Laws.{
  IsAlign, Multiple, by_align, round_up-Multiple, round_up_bounds, finish_fixed, finish_shape,
  info_of-IsConsistent,
}
use hqq.Bindgen.Types.Offsets.{members_fixed, member_step, sat_add_exact}
use hqq.Bindgen.Types.Encoding.{
  Encodes, scalar_at, handle_at, str_at, bytes_at, array_at, fixed_array_at, fixed_struct_at,
  open_struct_at, union_at, Packs, all_packed, pack, Fields, no_field, field,
}

-- Padding does not depend on a start that is a multiple of a larger alignment.
round_up-shift :
    (k off a b : ℕ)
    → IsAlign a
    → IsAlign b
    → a ≤ b
    → round_up (k * b + off) a ≡ k * b + round_up off a
unfolding round_up
round_up-shift k off a b h j l =
    by_align (λ b. a ≤ b → round_up (k * b + off) a ≡ k * b + round_up off a)
      (by_align (λ a. a ≤ 1 → round_up (k * 1 + off) a ≡ k * 1 + round_up off a) (λ l. omega arith)
        (λ l. omega arith) (λ l. omega arith) (λ l. omega arith) a h)
      (by_align (λ a. a ≤ 2 → round_up (k * 2 + off) a ≡ k * 2 + round_up off a) (λ l. omega arith)
        (λ l. omega arith) (λ l. omega arith) (λ l. omega arith) a h)
      (by_align (λ a. a ≤ 4 → round_up (k * 4 + off) a ≡ k * 4 + round_up off a) (λ l. omega arith)
        (λ l. omega arith) (λ l. omega arith) (λ l. omega arith) a h)
      (by_align (λ a. a ≤ 8 → round_up (k * 8 + off) a ≡ k * 8 + round_up off a) (λ l. omega arith)
        (λ l. omega arith) (λ l. omega arith) (λ l. omega arith) a h)
      b j l

round_up-whole : (n a : ℕ) → IsAlign a → Multiple n a → round_up n a ≡ n
unfolding round_up
round_up-whole n a h (k, e) =
    by_align (λ a. n ≡ k * a → round_up n a ≡ n) (λ e. omega arith) (λ e. omega arith)
      (λ e. omega arith) (λ e. omega arith) a h e

pub sat_mul_exact : (a b : ℕ) → sat_mul a b < sat_cap → sat_mul a b ≡ a * b
unfolding sat_mul
sat_mul_exact zero b h = ground arith
sat_mul_exact (suc a) zero h = ground arith
sat_mul_exact (suc a) (suc b) h = ground arith

members_align : (ms : Members) (acc : ℕ × Tinfo) → acc.1.align ≤ (members_info ms acc).1.align
unfolding members_info add_member
members_align no_member acc = omega arith
members_align (member t ms) (off, ti) =
    omega (arith, members_align ms (add_member (info_of t) (off, ti)))

members_grow :
    (ms : Members) (acc : ℕ × Tinfo)
    → (members_info ms acc).1.fixed ≡ true
    → (members_info ms acc).0 < sat_cap
    → acc.0 ≤ (members_info ms acc).0
unfolding members_info
members_grow no_member acc f k = omega arith
members_grow (member t ms) (off, ti) f k =
    let mi = info_of t in
    let acc = add_member mi (off, ti) in
    let e = member_step mi off ti (members_fixed ms acc f) in
    let b = members_grow ms acc f k in
    let exact = sat_add_exact (round_up off mi.align) mi.size (omega (arith, e, b, k)) in
    omega (arith, e, exact, b, round_up_bounds off mi.align (info_of-IsConsistent t).aligned)

-- A struct that is fixed has fixed members only, and its size is that of its members, rounded up.
struct_fixed :
    (ms : Members)
    → (info_of (struct_of ms)).fixed ≡ true
    → let (off, ti) = members_info ms struct_start in
      (ti.fixed ≡ true)
      × (ti.align ≡ (info_of (struct_of ms)).align)
      × ((info_of (struct_of ms)).size ≡ round_up off (info_of (struct_of ms)).align)
unfolding info_of
struct_fixed ms f =
    let (off, ti) = members_info ms struct_start in
    let (shape, align) = finish_shape off ti in
    let fixed = sym shape ∙ f in
    (fixed, sym align, ap (λ x. x.size) (finish_fixed off ti fixed) ∙ ap (round_up off) (sym align))

-- The parts of the info of a fixed array that is fixed
array_fixed :
    (len : ℕ) (e : Tinfo)
    → (fixed_array_info len e).fixed ≡ true
    → (e.fixed ≡ true)
      × (1 ≤ len)
      × ((fixed_array_info len e).align ≡ e.align)
      × ((fixed_array_info len e).size ≡ sat_mul len (round_up e.size e.align))
unfolding fixed_array_info
array_fixed len e f = ground arith

pub le_mul : (n s : ℕ) → 1 ≤ n → s ≤ n * s
le_mul zero s h = absurd (omega arith)
le_mul (suc n) s h = grind arith

Multiple-add : (m n a : ℕ) → Multiple m a → Multiple n a → Multiple (m + n) a
Multiple-add m n a (q, e) (r, d) =
    let both : q * a + r * a ≡ (q + r) * a = grind arith in (q + r, omega (arith, e, d, both))

pub member_fixed :
    (mi : Tinfo) (off : ℕ) (ti : Tinfo)
    → (add_member mi (off, ti)).1.fixed ≡ true
    → (mi.fixed ≡ true) × (mi.align ≤ (add_member mi (off, ti)).1.align)
unfolding add_member
member_fixed mi off ti h = ground arith

mutual
  unfolding info_of scalar_info varying

  -- An encoding of a fixed type below the limit is its size, behind the padding.
  pub fixed_extent :
      {t : IdlType} {pos end : ℕ}
      → Encodes t pos end
      → (info_of t).fixed ≡ true
      → (info_of t).size < sat_cap
      → end ≡ round_up pos (info_of t).align + (info_of t).size
  fixed_extent (scalar_at k pos) f s = refl
  fixed_extent (handle_at pos) f s = refl
  fixed_extent (str_at m n pos h) f s = absurd (ground arith)
  fixed_extent (bytes_at m n pos h) f s = absurd (ground arith)
  fixed_extent (array_at m n pos h r) f s = absurd (ground arith)
  fixed_extent (fixed_array_at {t} n pos g l p) f s =
      let ti = info_of t in
      let (ef, len, al, sz) = array_fixed n ti f in
      let c = info_of-IsConsistent t in
      let stride : round_up ti.size ti.align ≡ ti.size =
        round_up-whole ti.size ti.align c.aligned (c.fixes ef).whole in
      let body : sat_mul n (round_up ti.size ti.align) ≡ n * round_up ti.size ti.align =
        sat_mul_exact n (round_up ti.size ti.align) (omega (arith, sz, s)) in
      let total : n * round_up ti.size ti.align ≡ n * ti.size = ap (λ x. n * x) stride in
      let small : ti.size < sat_cap = omega (arith, le_mul n ti.size len, sz, s, body, total) in
      let start : round_up pos (fixed_array_info n ti).align ≡ round_up pos ti.align =
        ap (round_up pos) al in
      omega (
        arith,
        Packs-extent p ef small (round_up-Multiple pos ti.align c.aligned),
        sz,
        body,
        total,
        start,
      )
  fixed_extent (fixed_struct_at {ms} {end} pos g p) f s =
      let ti = info_of (struct_of ms) in
      let last = (members_info ms struct_start).0 in
      let (tf, al, sz) = struct_fixed ms f in
      let aligned : IsAlign ti.align = (info_of-IsConsistent (struct_of ms)).aligned in
      let (q, start) = round_up-Multiple pos ti.align aligned in
      let ends =
        Fields-extent 0 q ti.align struct_start.1 p (omega (arith, start)) aligned
          (omega (arith, al)) tf (omega (arith, sz, s, round_up_bounds last ti.align aligned)) in
      let padded : round_up end ti.align ≡ q * ti.align + round_up last ti.align =
        ap (λ x. round_up x ti.align) ends
        ∙ round_up-shift q last ti.align ti.align aligned aligned (omega arith) in
      omega (arith, padded, start, sz)
  fixed_extent (open_struct_at pos g p) f s = absurd (ground arith)
  fixed_extent (union_at pos p) f s = absurd (ground arith)

  Packs-extent :
      {t : IdlType} {n pos end : ℕ}
      → Packs t n pos end
      → (info_of t).fixed ≡ true
      → (info_of t).size < sat_cap
      → Multiple pos (info_of t).align
      → end ≡ pos + n * (info_of t).size
  Packs-extent (all_packed t pos) f s w = omega arith
  Packs-extent (pack {t} {n} {pos} {mid} e p) f s w =
      let ti = info_of t in
      let c = info_of-IsConsistent t in
      let first : mid ≡ pos + ti.size =
        omega (arith, fixed_extent e f s, round_up-whole pos ti.align c.aligned w) in
      let whole : Multiple mid ti.align =
        subst (λ x. Multiple x ti.align) (sym first)
          (Multiple-add pos ti.size ti.align w (c.fixes f).whole) in
      let next : round_up mid ti.align ≡ mid = round_up-whole mid ti.align c.aligned whole in
      let more : ti.size + n * ti.size ≡ suc n * ti.size = grind arith in
      omega
        (arith, Packs-extent p f s (round_up-Multiple mid ti.align c.aligned), first, next, more)

  Fields-extent :
      {ms : Members} {pos end : ℕ} (off k a : ℕ) (ti : Tinfo)
      → Fields ms pos end
      → pos ≡ k * a + off
      → IsAlign a
      → (members_info ms (off, ti)).1.align ≤ a
      → (members_info ms (off, ti)).1.fixed ≡ true
      → (members_info ms (off, ti)).0 < sat_cap
      → end ≡ k * a + (members_info ms (off, ti)).0
  Fields-extent off k a ti (no_field pos) e h l f s = e
  Fields-extent off k a ti (field {t} {ms} {pos} {mid} p ps) e h l f s =
      let mi = info_of t in
      let acc = add_member mi (off, ti) in
      let af : acc.1.fixed ≡ true = members_fixed ms acc f in
      let (mf, ma) = member_fixed mi off ti af in
      let small : acc.0 < sat_cap = omega (arith, members_grow ms acc f s, s) in
      let step : acc.0 ≡ sat_add (round_up off mi.align) mi.size = member_step mi off ti af in
      let exact = sat_add_exact (round_up off mi.align) mi.size (omega (arith, step, small)) in
      let shift =
        round_up-shift k off mi.align a (info_of-IsConsistent t).aligned h
          (omega (arith, ma, members_align ms acc, l)) in
      let padded : round_up pos mi.align ≡ k * a + round_up off mi.align =
        ap (λ x. round_up x mi.align) e ∙ shift in
      let first = fixed_extent p mf (omega (arith, exact, step, small)) in
      Fields-extent acc.0 k a acc.1 ps (omega (arith, first, padded, step, exact)) h l f s

-- Of a fixed type: the stride is the size and a multiple of the alignment, which is 1, 2, 4 or 8; the
-- smallest encoding is not larger; and the worst case is the size with the largest padding before it.
pub fixed_sizes :
    (t : IdlType) (size align : ℕ)
    → size_of t ≡ (size, align, true)
    → (stride t ≡ size)
      × IsAlign align
      × Multiple size align
      × (min_size t ≤ size)
      × (worst_case t ≡ (sat_add (align - 1) size, true))
unfolding size_of stride min_size worst_case
fixed_sizes t size align e =
    let ti = info_of t in
    let c = info_of-IsConsistent t in
    let f : ti.fixed ≡ true = ap (λ x. x.2) e in
    let s : ti.size ≡ size = ap (λ x. x.0) e in
    let a : ti.align ≡ align = ap (λ x. x.1) e in
    let x = c.fixes f in
    (
      ap (λ b. if not b then 0 else round_up ti.size ti.align) f
          ∙ round_up-whole ti.size ti.align c.aligned x.whole
          ∙ s,
      subst IsAlign a c.aligned,
      subst (Multiple size) a (subst (λ n. Multiple n ti.align) s x.whole),
      omega (arith, x.enough, s),
      ap₂ (λ m b. (m, b)) (x.worst ∙ ap₂ (λ a n. sat_add (a - 1) n) a s) x.finite,
    )

-- An encoding of a fixed type whose size is below the limit is the padding to its alignment and its
-- size.
pub size_of-extent :
    (t : IdlType) (pos end size align : ℕ)
    → Encodes t pos end
    → size_of t ≡ (size, align, true)
    → size < sat_cap
    → end ≡ round_up pos align + size
unfolding size_of
size_of-extent t pos end size align e h k =
    let f : (info_of t).fixed ≡ true = ap (λ x. x.2) h in
    let s : (info_of t).size ≡ size = ap (λ x. x.0) h in
    fixed_extent e f (omega (arith, s, k)) ∙ ap₂ (λ a n. round_up pos a + n) (ap (λ x. x.1) h) s
