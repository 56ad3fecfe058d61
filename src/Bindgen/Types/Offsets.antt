-- ===== src/Bindgen/Types/Offsets.antt =====
-- The members of a fixed struct do not overlap.
use hqq.Common.{
  ℕ, ◌+◌, ◌≤◌, ◌<◌, ◌≡◌, true, not, ◌&&◌, List, [], ◌∷◌, if◌then◌else◌, arith, sym, ap, ◌∙◌, subst,
}
use hqq.Bindgen.Types.{
  struct_of, Members, no_member, member, sat_cap, sat_add, round_up, Tinfo, add_member,
  finish_struct, struct_start, info_of, members_info, size_of, offsets_from, member_offsets,
}
use hqq.Bindgen.Types.Laws.{
  IsAlign, Multiple, round_up-Multiple, round_up_bounds, finish_fixed, finish_shape,
  info_of-IsConsistent,
}

-- Every member stands at a multiple of its alignment, from the end of the one before it, and the last
-- ends by `total`.
unfoldable pub LaidOut : ℕ → ℕ → Members → List ℕ → Type 0
LaidOut total from no_member [] = from ≤ total
LaidOut total from no_member (o ∷ os) = ⊥
LaidOut total from (member t ms) [] = ⊥
LaidOut total from (member t ms) (o ∷ os) =
    (from ≤ o) × Multiple o (info_of t).align × LaidOut total (o + (info_of t).size) ms os

pub members_fixed :
    (ms : Members) (acc : ℕ × Tinfo) → (members_info ms acc).1.fixed ≡ true → acc.1.fixed ≡ true
unfolding members_info add_member
members_fixed no_member acc h = h
members_fixed (member t ms) (off, ti) h =
    let both : (ti.fixed && (info_of t).fixed) ≡ true =
      members_fixed ms (add_member (info_of t) (off, ti)) h in
    ground arith

pub member_step :
    (mi : Tinfo) (off : ℕ) (ti : Tinfo)
    → (add_member mi (off, ti)).1.fixed ≡ true
    → (add_member mi (off, ti)).0 ≡ sat_add (round_up off mi.align) mi.size
unfolding add_member
member_step mi off ti h = ground arith

pub sat_add_exact : (a b : ℕ) → sat_add a b < sat_cap → sat_add a b ≡ a + b
unfolding sat_add
sat_add_exact a b h = ground arith

offsets-LaidOut :
    (total : ℕ) (ms : Members) (off : ℕ) (ti : Tinfo)
    → (members_info ms (off, ti)).1.fixed ≡ true
    → (members_info ms (off, ti)).0 ≤ total
    → total < sat_cap
    → LaidOut total off ms (offsets_from off ms) × (off ≤ total)
unfolding members_info offsets_from size_of LaidOut
offsets-LaidOut total no_member off ti f h k = (h, h)
offsets-LaidOut total (member t ms) off ti f h k =
    let mi = info_of t in
    let start = round_up off mi.align in
    let c = info_of-IsConsistent t in
    let acc = add_member mi (off, ti) in
    let e : acc.0 ≡ sat_add start mi.size = member_step mi off ti (members_fixed ms acc f) in
    let (l, b) = offsets-LaidOut total ms acc.0 acc.1 f h k in
    let exact : sat_add start mi.size ≡ start + mi.size =
      sat_add_exact start mi.size (omega (arith, e, b, k)) in
    let next : LaidOut total (start + mi.size) ms (offsets_from (sat_add start mi.size) ms) =
      subst (λ x. LaidOut total x ms (offsets_from (sat_add start mi.size) ms)) exact
        (subst (λ x. LaidOut total x ms (offsets_from x ms)) e l) in
    (
      ((round_up_bounds off mi.align c.aligned).0, round_up-Multiple off mi.align c.aligned, next),
      omega (arith, round_up_bounds off mi.align c.aligned, exact, e, b),
    )

-- In a fixed struct whose size is below the limit, every member stands at a multiple of its alignment,
-- from the end of the one before it on, and the last ends within the size.
pub member_offsets-LaidOut :
    (ms : Members)
    → (info_of (struct_of ms)).fixed ≡ true
    → (info_of (struct_of ms)).size < sat_cap
    → LaidOut (info_of (struct_of ms)).size 0 ms (member_offsets ms)
unfolding member_offsets info_of
member_offsets-LaidOut ms f k =
    let (off, ti) = members_info ms struct_start in
    let (shape, align) = finish_shape off ti in
    let fixed : ti.fixed ≡ true = sym shape ∙ f in
    let size : (finish_struct (off, ti)).size ≡ round_up off ti.align =
      ap (λ x. x.size) (finish_fixed off ti fixed) in
    let aligned : IsAlign ti.align =
      subst IsAlign align (info_of-IsConsistent (struct_of ms)).aligned in
    let within : off ≤ (finish_struct (off, ti)).size =
      omega (arith, size, round_up_bounds off ti.align aligned) in
    let whole = offsets-LaidOut (finish_struct (off, ti)).size ms 0 struct_start.1 fixed within k in
    subst
      (λ b. LaidOut (finish_struct (off, ti)).size 0 ms (if not b then [] else offsets_from 0 ms))
      (sym f) whole.0
