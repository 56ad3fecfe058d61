-- ===== src/Bindgen/Types/Laws.antt =====
-- What the sizes of every type have in common.
use hqq.Common.{
  ℕ, ◌+◌, ◌-◌, ◌*◌, ◌/◌, ◌^◌, ◌≤◌, ◌<◌, ◌≡◌, ◌⊎◌, inl, inr, max, Bool, true, not, ◌&&◌, ◌||◌, ltb,
  leb, ◌==◌, if◌then◌else◌, arith, refl, sym, subst, Bool-cases, dec_lt,
}
use hqq.Bindgen.Types.{
  ScalarKind, k_bool, k_i8, k_i16, k_i32, k_i64, k_u8, k_u16, k_u32, k_u64, k_size, k_f32, k_f64,
  IdlType, scalar, handle, str, bytes, fixed_array, array, struct_of, union_of, Members, no_member,
  member, sat_cap, sat_add, sat_mul, round_up, Tinfo, scalar_size, scalar_info, varying,
  fixed_array_info, add_member, finish_struct, struct_start, info_of, members_info, cases_info,
}

abbrev pub IsAlign : ℕ → Type 0
IsAlign a = (a ≡ 1) ⊎ ((a ≡ 2) ⊎ ((a ≡ 4) ⊎ (a ≡ 8)))

abbrev pub Multiple : ℕ → ℕ → Type 0
Multiple n a = (q : ℕ) × (n ≡ q * a)

-- What holds of a fixed type: the size is a multiple of the alignment, within the limit, at least the
-- smallest encoding, and with the padding before it the worst case.
pub record IsFixed (ti : Tinfo) : Type 0 where
  pub whole : Multiple ti.size ti.align
  pub limited : ti.size ≤ sat_cap
  pub enough : ti.least ≤ ti.size
  pub worst : ti.wc ≡ sat_add (ti.align - 1) ti.size
  pub finite : ti.wc_finite ≡ true

pub record IsConsistent (ti : Tinfo) : Type 0 where
  pub aligned : IsAlign ti.align
  pub fixes : ti.fixed ≡ true → IsFixed ti

pub by_align : (P : ℕ → Type 0) → P 1 → P 2 → P 4 → P 8 → (a : ℕ) → IsAlign a → P a
by_align P p1 p2 p4 p8 a (inl e) = subst P (sym e) p1
by_align P p1 p2 p4 p8 a (inr (inl e)) = subst P (sym e) p2
by_align P p1 p2 p4 p8 a (inr (inr (inl e))) = subst P (sym e) p4
by_align P p1 p2 p4 p8 a (inr (inr (inr e))) = subst P (sym e) p8

pub round_up-Multiple : (n a : ℕ) → IsAlign a → Multiple (round_up n a) a
unfolding round_up
round_up-Multiple n =
    by_align (λ a. Multiple (round_up n a) a) (n, omega arith) ((n + 2 - 1) / 2, refl)
      ((n + 4 - 1) / 4, refl) ((n + 8 - 1) / 8, refl)

pub round_up_bounds : (n a : ℕ) → IsAlign a → (n ≤ round_up n a) × (round_up n a < n + a)
unfolding round_up
round_up_bounds n =
    by_align (λ a. (n ≤ round_up n a) × (round_up n a < n + a)) (omega arith) (omega arith)
      (omega arith) (omega arith)

pub round_up-limited : (n a : ℕ) → IsAlign a → n ≤ sat_cap → round_up n a ≤ sat_cap
unfolding round_up
round_up-limited n =
    by_align (λ a. n ≤ sat_cap → round_up n a ≤ sat_cap) (λ h. omega arith) (λ h. omega arith)
      (λ h. omega arith) (λ h. omega arith)

sat_cap-Multiple : (a : ℕ) → IsAlign a → Multiple sat_cap a
sat_cap-Multiple =
    by_align (Multiple sat_cap) (2 ^ 61, refl) (2 ^ 60, refl) (2 ^ 59, refl) (2 ^ 58, refl)

sat_mul-Multiple :
    (len n a : ℕ)
    → IsAlign a
    → Multiple n a
    → Multiple (sat_mul len n) a × (sat_mul len n ≤ sat_cap)
unfolding sat_mul
sat_mul-Multiple len n a h (q, e) =
    let product : len * n ≡ len * q * a = rw e (grind arith) in
    let (c, f) = sat_cap-Multiple a h in
    elim (Bool-cases (len == 0 || n == 0)) [
      | inl x ↦ rw x ((0, omega arith), omega arith)
      | inr x ↦ elim (Bool-cases (leb sat_cap (len * n))) [
        | inl y ↦ rw (x, y) ((c, f), omega arith)
        | inr y ↦ rw (x, y) ((len * q, product), ground arith)
      ]
    ]

pub sat_add_bounds : (a b : ℕ) → (sat_add a b ≤ sat_cap) × (sat_add a b ≤ a + b)
unfolding sat_add
sat_add_bounds a b = ground arith

pub max-IsAlign : (a b : ℕ) → IsAlign a → IsAlign b → IsAlign (max a b)
max-IsAlign a b h k = elim (dec_lt a b) [
  | yes l ↦ subst IsAlign (omega arith) k
  | no l ↦ subst IsAlign (omega arith) h
]

scalar_info-IsConsistent : (s : ℕ) → IsAlign s → IsConsistent (scalar_info s)
unfolding scalar_info sat_add
scalar_info-IsConsistent s h = record {
  aligned = h;
  fixes = λ f. record {
    whole = (1, omega arith);
    limited = omega (arith, h);
    enough = omega arith;
    worst = ground arith;
    finite = refl;
  };
}

pub scalar_size-IsAlign : (k : ScalarKind) → IsAlign (scalar_size k)
unfolding scalar_size
scalar_size-IsAlign k_bool = inl refl
scalar_size-IsAlign k_i8 = inl refl
scalar_size-IsAlign k_i16 = inr (inl refl)
scalar_size-IsAlign k_i32 = inr (inr (inl refl))
scalar_size-IsAlign k_i64 = inr (inr (inr refl))
scalar_size-IsAlign k_u8 = inl refl
scalar_size-IsAlign k_u16 = inr (inl refl)
scalar_size-IsAlign k_u32 = inr (inr (inl refl))
scalar_size-IsAlign k_u64 = inr (inr (inr refl))
scalar_size-IsAlign k_size = inr (inr (inr refl))
scalar_size-IsAlign k_f32 = inr (inr (inl refl))
scalar_size-IsAlign k_f64 = inr (inr (inr refl))

varying-IsConsistent : (least : ℕ) (finite : Bool) (wc : ℕ) → IsConsistent (varying least finite wc)
unfolding varying
varying-IsConsistent least finite wc = record {
  aligned = inr (inr (inl refl));
  fixes = λ h. absurd (ground arith);
}

fixed_array_info-IsConsistent :
    (len : ℕ) (e : Tinfo) → IsConsistent e → IsConsistent (fixed_array_info len e)
unfolding fixed_array_info
fixed_array_info-IsConsistent len e c = elim (Bool-cases (not e.fixed || ltb len 1)) [
  | inl x ↦ rw x (record {
    aligned = max-IsAlign e.align 1 c.aligned (inl refl);
    fixes = λ h. absurd (ground arith);
  })
  | inr x ↦
      let body =
        sat_mul-Multiple len (round_up e.size e.align) e.align c.aligned
          (round_up-Multiple e.size e.align c.aligned) in
      rw x (record {
        aligned = c.aligned;
        fixes = λ h. record {
          whole = body.0;
          limited = body.1;
          enough = omega arith;
          worst = refl;
          finite = refl;
        };
      })
]

-- The loop of `structInfo` so far: the smallest encodings fit before the offset.
abbrev IsGood : ℕ × Tinfo → Type 0
IsGood (off, ti) = IsAlign ti.align × (ti.fixed ≡ true → (ti.least ≤ off) × (off ≤ sat_cap))

add_member-IsGood :
    (mi : Tinfo) (acc : ℕ × Tinfo) → IsConsistent mi → IsGood acc → IsGood (add_member mi acc)
unfolding add_member sat_add
add_member-IsGood mi (off, ti) c (h, g) = (max-IsAlign ti.align mi.align h c.aligned, fits)
  where
    fits :
        (ti.fixed && mi.fixed) ≡ true
        → (sat_add ti.least mi.least
            ≤ (if mi.fixed then sat_add (round_up off mi.align) mi.size else off))
          × ((if mi.fixed then sat_add (round_up off mi.align) mi.size else off) ≤ sat_cap)
    fits f =
        let both : (ti.fixed ≡ true) × (mi.fixed ≡ true) = ground arith in
        let m = c.fixes both.1 in
        ground (arith, both, g both.0, m.enough, round_up_bounds off mi.align c.aligned)

-- A struct with fixed members only, behind its last member
abbrev closed : ℕ → Tinfo → Tinfo
closed off ti =
    let size = round_up off ti.align in
    record ti { size = size; wc = sat_add (ti.align - 1) size; wc_finite = true }

pub finish_fixed :
    (off : ℕ) (ti : Tinfo) → ti.fixed ≡ true → finish_struct (off, ti) ≡ closed off ti
unfolding finish_struct
finish_fixed off ti h = ground arith

pub finish_shape :
    (off : ℕ) (ti : Tinfo)
    → ((finish_struct (off, ti)).fixed ≡ ti.fixed) × ((finish_struct (off, ti)).align ≡ ti.align)
unfolding finish_struct
finish_shape off ti = ground arith

closed-IsConsistent :
    (off : ℕ) (ti : Tinfo) → ti.fixed ≡ true → IsGood (off, ti) → IsConsistent (closed off ti)
closed-IsConsistent off ti x (h, g) =
    let b = round_up_bounds off ti.align h in
    record {
      aligned = h;
      fixes = λ f. record {
        whole = round_up-Multiple off ti.align h;
        limited = round_up-limited off ti.align h (g x).1;
        enough = omega (arith, b, g x);
        worst = refl;
        finite = refl;
      };
    }

finish_struct-IsConsistent : (acc : ℕ × Tinfo) → IsGood acc → IsConsistent (finish_struct acc)
finish_struct-IsConsistent (off, ti) g = elim (Bool-cases ti.fixed) [
  | inl x ↦ subst IsConsistent (sym (finish_fixed off ti x)) (closed-IsConsistent off ti x g)
  | inr x ↦
      let (f, a) = finish_shape off ti in
      record { aligned = subst IsAlign (sym a) g.0; fixes = λ y. absurd (ground arith) }
]

mutual
  unfolding info_of

  -- Every type has an alignment of 1, 2, 4 or 8. The size of a fixed type is a multiple of it, at most
  -- 2^61 and at least the smallest encoding, and its worst case is that size and the padding before.
  pub info_of-IsConsistent : (t : IdlType) → IsConsistent (info_of t)
  info_of-IsConsistent (scalar k) = scalar_info-IsConsistent (scalar_size k) (scalar_size-IsAlign k)
  info_of-IsConsistent handle = scalar_info-IsConsistent 4 (inr (inr (inl refl)))
  info_of-IsConsistent (str m) = varying-IsConsistent 5 (ltb 0 m) (sat_add 8 m)
  info_of-IsConsistent (bytes m) = varying-IsConsistent 4 (ltb 0 m) (sat_add 7 m)
  info_of-IsConsistent (fixed_array len t) =
      fixed_array_info-IsConsistent len (info_of t) (info_of-IsConsistent t)
  info_of-IsConsistent (array m t) =
      varying-IsConsistent 4 (ltb 0 m && (info_of t).wc_finite)
        (sat_add 7 (sat_mul m (info_of t).wc))
  info_of-IsConsistent (struct_of ms) =
      finish_struct-IsConsistent (members_info ms struct_start)
        (members_info-IsGood ms struct_start (inl refl, λ h. omega arith))
  info_of-IsConsistent (union_of cs) =
      varying-IsConsistent 4 (cases_info cs (0, true)).1 (sat_add 7 (cases_info cs (0, true)).0)

  members_info-IsGood : (ms : Members) (acc : ℕ × Tinfo) → IsGood acc → IsGood (members_info ms acc)
  members_info-IsGood no_member acc g = g
  members_info-IsGood (member t ms) acc g =
      members_info-IsGood ms (add_member (info_of t) acc)
        (add_member-IsGood (info_of t) acc (info_of-IsConsistent t) g)
