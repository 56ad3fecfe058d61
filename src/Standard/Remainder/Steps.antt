-- ===== src/Standard/Remainder/Steps.antt =====
-- The steps that the methods of a remainder are made of keep it valid.
use hqq.Common.{
  ℕ, zero, suc, ◌+◌, ◌≤◌, ◌<◌, ◌≡◌, ◌⊎◌, inl, inr, refl, subst, sym, ap, ◌∙◌, true, false, none,
  some, List, [], ◌∷◌, All, length, get_elem?, set, drop, length-set, ltb, ◌==◌, if◌then◌else◌,
  arith, Bool-cases, dec_lt,
}
use hqq.Common.Slices.{drop-all}
use hqq.Common.Counts.{count, take_out, count-take_out}
use hqq.Standard.Remainder.{
  Tail, RecvRemainder, max_spare_tails, empty_tail, put_buf, pop_locked, oldest,
}
use hqq.Standard.Remainder.Inv.{live, bufs, uses, Fits, IsValid}

at_head :
    (h : ℕ) (xs : List Tail)
    → h ≤ length xs
    → ((h ≡ length xs) × (drop h xs ≡ []))
      ⊎ ((t : Tail) × (h < length xs)
          × (get_elem? xs h ≡ some t)
          × (drop h xs ≡ t ∷ drop (suc h) xs))
at_head zero [] l = inl (refl, refl)
at_head zero (x ∷ xs) l = inr (x, omega arith, refl, refl)
at_head (suc h) [] l = absurd (omega arith)
at_head (suc h) (x ∷ xs) l = elim (at_head h xs (omega arith)) [
  | inl (e, d) ↦ inl (ap suc e, d)
  | inr (t, k, g, d) ↦ inr (t, omega (arith, k), g, d)
]

-- The oldest tail is the first of those that are live.
pub oldest-cases :
    (r : RecvRemainder)
    → IsValid r
    → ((oldest r ≡ none) × (live r ≡ []))
      ⊎ ((t : Tail) × (oldest r ≡ some t)
          × (r.pending ≡ true)
          × (r.head < length r.queue)
          × (live r ≡ t ∷ drop (suc r.head) r.queue))
unfolding oldest
oldest-cases r v = elim (Bool-cases r.pending) [
  | inr p ↦ inl (rw p refl, v.waiting p)
  | inl p ↦ elim (at_head r.head r.queue v.in_queue) [
    | inl (e, d) ↦ inl (ground arith, d)
    | inr (t, k, g, d) ↦ inr (t, ground arith, p, k, d)
  ]
]

drop-set : (h : ℕ) (xs : List Tail) (x : Tail) → drop (suc h) (set xs h x) ≡ drop (suc h) xs
drop-set zero [] x = refl
drop-set zero (y ∷ xs) x = refl
drop-set (suc h) [] x = refl
drop-set (suc h) (y ∷ xs) x = drop-set h xs x

pub set_at :
    (h : ℕ) (xs : List Tail) (x : Tail) → h < length xs → drop h (set xs h x) ≡ x ∷ drop (suc h) xs
set_at zero [] x l = absurd (omega arith)
set_at zero (y ∷ xs) x l = refl
set_at (suc h) [] x l = absurd (omega arith)
set_at (suc h) (y ∷ xs) x l = set_at h xs x (omega arith)

pop_more :
    (r : RecvRemainder)
    → r.head + 1 < length r.queue
    → pop_locked r ≡ record r { queue = set r.queue r.head empty_tail; head = r.head + 1 }
unfolding pop_locked
pop_more r h = ground (arith, length-set r.queue r.head empty_tail)

pop_last :
    (r : RecvRemainder)
    → r.head + 1 ≡ length r.queue
    → pop_locked r ≡ record r { queue = []; head = 0; pending = false }
unfolding pop_locked
pop_last r h = ground (arith, length-set r.queue r.head empty_tail)

-- What a pop changes
pub pop_locked_lem :
    (r : RecvRemainder)
    → r.pending ≡ true
    → r.head < length r.queue
    → let r' = pop_locked r in
      (live r' ≡ drop (suc r.head) r.queue)
      × (r'.heap ≡ r.heap)
      × (r'.free ≡ r.free)
      × (r'.lent ≡ r.lent)
      × (r'.next_buf ≡ r.next_buf)
      × (r'.head ≤ length r'.queue)
      × (r'.pending ≡ false → live r' ≡ [])
pop_locked_lem r p h = elim (dec_lt (r.head + 1) (length r.queue)) [
  | yes k ↦
      let e : r.head + 1 ≡ suc r.head = omega arith in
      let d : drop (r.head + 1) (set r.queue r.head empty_tail) ≡ drop (suc r.head) r.queue =
        ap (λ n. drop n (set r.queue r.head empty_tail)) e ∙ drop-set r.head r.queue empty_tail in
      rw (pop_more r k) (
        d,
        refl,
        refl,
        refl,
        refl,
        omega (arith, length-set r.queue r.head empty_tail, k),
        λ q. absurd (ground arith),
      )
  | no k ↦ rw (pop_last r (omega (arith, k, h))) (
    sym (drop-all (suc r.head) r.queue (omega (arith, k))),
    refl,
    refl,
    refl,
    refl,
    omega arith,
    λ q. refl,
  )
]

abbrev hit : ℕ → ℕ → ℕ
hit x i = if x == i then 1 else 0

count_cons : (i x : ℕ) (xs : List ℕ) → count i (x ∷ xs) ≡ hit x i + count i xs
unfolding count
count_cons i x xs = ground arith

-- Without its first tail, a remainder is valid, and the buffer of that tail is not in use.
pub pop_locked-IsValid :
    (r : RecvRemainder) (t : Tail)
    → IsValid r
    → r.pending ≡ true
    → r.head < length r.queue
    → live r ≡ t ∷ drop (suc r.head) r.queue
    → IsValid (pop_locked r) × (uses t.buf (pop_locked r) ≡ 0) × (t.buf < r.next_buf)
pop_locked-IsValid r t v p h e =
    let (l, heap, free, lent, next, within, waits) = pop_locked_lem r p h in
    let used : (i : ℕ) → uses i r ≡ hit t.buf i + uses i (pop_locked r) = λ i.
      let whole : bufs (live r) ≡ t.buf ∷ bufs (live (pop_locked r)) =
        ap bufs (e ∙ ap (λ ts. t ∷ ts) (sym l)) in
      let first : count i (t.buf ∷ bufs (live (pop_locked r)))
          ≡ hit t.buf i + count i (bufs (live (pop_locked r))) =
        count_cons i t.buf (bufs (live (pop_locked r))) in
      omega (arith, ap (count i) whole, first, ap (count i) free, ap (count i) lent) in
    let self : hit t.buf t.buf ≡ 1 = ground arith in
    let fits : All (Fits r.heap) (t ∷ drop (suc r.head) r.queue) =
      subst (All (Fits r.heap)) e v.fitting in
    (
      record {
        in_queue = within;
        waiting = waits;
        owned = λ i. omega (arith, used i, v.owned i);
        made = λ i k. omega (arith, used i, v.made i (omega (arith, k, next)));
        fitting = rw (l, heap) fits.1;
      },
      omega (arith, used t.buf, self, v.owned t.buf),
      omega (arith, made_before (used t.buf) self),
    )
  where
    made_before :
        uses t.buf r ≡ hit t.buf t.buf + uses t.buf (pop_locked r)
        → hit t.buf t.buf ≡ 1
        → r.next_buf ≤ t.buf
        → ⊥
    made_before u o k = omega (arith, u, o, v.made t.buf k)

pub put_buf-IsValid :
    (b : ℕ) (r : RecvRemainder) → IsValid r → uses b r ≡ 0 → b < r.next_buf → IsValid (put_buf b r)
unfolding put_buf count
put_buf-IsValid b r v u n = elim (Bool-cases (ltb (length r.free) max_spare_tails)) [
  | inr x ↦ rw x v
  | inl x ↦ rw x (record {
    in_queue = v.in_queue;
    waiting = v.waiting;
    owned = λ i. ground (arith, v.owned i, u);
    made = λ i h. ground (arith, v.made i h, n);
    fitting = v.fitting;
  })
]

pub lend-IsValid :
    (b : ℕ) (r : RecvRemainder)
    → IsValid r
    → uses b r ≡ 0
    → b < r.next_buf
    → IsValid (record r { lent = b ∷ r.lent })
unfolding count
lend-IsValid b r v u n = record {
  in_queue = v.in_queue;
  waiting = v.waiting;
  owned = λ i. ground (arith, v.owned i, u);
  made = λ i h. ground (arith, v.made i h, n);
  fitting = v.fitting;
}

pub unlend-IsValid :
    (b : ℕ) (r : RecvRemainder)
    → IsValid r
    → 1 ≤ count b r.lent
    → let r' = record r { lent = take_out b r.lent } in
      IsValid r' × (uses b r' ≡ 0) × (b < r.next_buf)
unlend-IsValid b r v h = (
  record {
    in_queue = v.in_queue;
    waiting = v.waiting;
    owned = λ i. ground (arith, v.owned i, count-take_out i b r.lent h);
    made = λ i k. ground (arith, v.made i k, count-take_out i b r.lent h);
    fitting = v.fitting;
  },
  ground (arith, v.owned b, count-take_out b b r.lent h),
  omega (arith, made_before),
)
  where
    made_before : r.next_buf ≤ b → ⊥
    made_before k = omega (arith, v.made b k, h)

pub pop_locked-put_buf :
    (b : ℕ) (r : RecvRemainder) → pop_locked (put_buf b r) ≡ put_buf b (pop_locked r)
unfolding pop_locked put_buf
pop_locked-put_buf b r = ground arith

-- The first tail is replaced by a later part of itself.
pub advance-IsValid :
    (r : RecvRemainder) (t : Tail) (off : ℕ)
    → IsValid r
    → r.pending ≡ true
    → r.head < length r.queue
    → live r ≡ t ∷ drop (suc r.head) r.queue
    → off ≤ t.end
    → IsValid (record r { queue = set r.queue r.head (record t { off = off }) })
advance-IsValid r t off v p h e o =
    let t' : Tail = record t { off = off } in
    let l : drop r.head (set r.queue r.head t') ≡ t' ∷ drop (suc r.head) r.queue =
      set_at r.head r.queue t' h in
    let same : bufs (drop r.head (set r.queue r.head t')) ≡ bufs (live r) =
      ap bufs l ∙ sym (ap bufs e) in
    let fits : All (Fits r.heap) (t ∷ drop (suc r.head) r.queue) =
      subst (All (Fits r.heap)) e v.fitting in
    record {
      in_queue = omega (arith, v.in_queue, length-set r.queue r.head t');
      waiting = λ q. absurd (ground arith);
      owned = λ i. omega (arith, v.owned i, ap (count i) same);
      made = λ i k. omega (arith, v.made i k, ap (count i) same);
      fitting = subst (All (Fits r.heap)) (sym l) ((o, fits.0.1), fits.1);
    }
