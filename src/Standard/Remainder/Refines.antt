-- ===== src/Standard/Remainder/Refines.antt =====
-- A valid remainder behaves as the queue of the tails that it holds.
use hqq.Common.{
  ℕ, suc, ◌+◌, ◌-◌, ◌<◌, ◌≡◌, inl, inr, subst, sym, ap, ap₂, ◌∙◌, Bool, true, false, ◌||◌, Option,
  none, some, List, ◌∷◌, map, All, length, set, take, drop, min, length-take, length-drop, leb,
  ◌==◌, if◌then◌else◌, arith, Bool-cases, dec_lt,
}
use hqq.Common.Slices.{drop-drop, take-all}
use hqq.Standard.Remainder.{
  Tail, RecvRemainder, view, put_buf, pop_locked, read_tail, read, take_tail, take_oldest,
}
use hqq.Standard.Remainder.Queue
use hqq.Standard.Remainder.Inv.{live, Fits, IsValid}
use hqq.Standard.Remainder.Steps.{
  oldest-cases, set_at, advance-IsValid, pop_locked-put_buf, pop_locked_lem, pop_locked-IsValid,
  put_buf-IsValid, lend-IsValid,
}

-- The unread bytes, oldest first
abbrev pub contents : RecvRemainder → List (List ℕ)
contents r = map (view r.heap) (live r)

pub contents-put_buf : (b : ℕ) (r : RecvRemainder) → contents (put_buf b r) ≡ contents r
unfolding put_buf
contents-put_buf b r = ground arith

contents-pop_locked :
    (r : RecvRemainder)
    → r.pending ≡ true
    → r.head < length r.queue
    → contents (pop_locked r) ≡ map (view r.heap) (drop (suc r.head) r.queue)
contents-pop_locked r p h =
    let l = pop_locked_lem r p h in ap₂ (λ heap ts. map (view heap) ts) l.1 l.0

-- A result and a valid remainder that stand for those of the queue
abbrev pub Refined : Option (List ℕ) × List (List ℕ) → Option (List ℕ) × RecvRemainder → Type 0
Refined q (out, r) = ((out, contents r) ≡ q) × IsValid r

contents_of :
    (r : RecvRemainder) (t : Tail)
    → live r ≡ t ∷ drop (suc r.head) r.queue
    → contents r ≡ view r.heap t ∷ map (view r.heap) (drop (suc r.head) r.queue)
contents_of r t l = ap (map (view r.heap)) l

-- `take` lends the oldest of the queue.
pub take_oldest_refines :
    (r : RecvRemainder) → IsValid r → Refined (Queue.take_oldest (contents r)) (take_oldest r)
unfolding take_oldest take_tail Queue.take_oldest
take_oldest_refines r v = elim (oldest-cases r v) [
  | inl (o, l) ↦
      subst (λ x. Refined (Queue.take_oldest (contents r)) (take_tail x r)) (sym o)
        (
          ap (λ ts. (none, map (view r.heap) ts)) l
              ∙ sym (ap (λ ts. Queue.take_oldest (map (view r.heap) ts)) l),
          v,
        )
  | inr (t, o, p, h, l) ↦
      let (valid, free, before) = pop_locked-IsValid r t v p h l in
      let next : t.buf < (pop_locked r).next_buf = omega (arith, (pop_locked_lem r p h).4) in
      subst (λ x. Refined (Queue.take_oldest (contents r)) (take_tail x r)) (sym o)
        (
          ap (λ c. (some (view r.heap t), c)) (contents-pop_locked r p h)
              ∙ sym (ap Queue.take_oldest (contents_of r t l)),
          lend-IsValid t.buf (pop_locked r) valid free next,
        )
]

length-view : (heap : ℕ → List ℕ) (t : Tail) → Fits heap t → length (view heap t) ≡ t.end - t.off
unfolding view
length-view heap t f =
    omega (arith, length-drop t.off (take t.end (heap t.buf)), length-take t.end (heap t.buf), f)

take-min : (n : ℕ) (xs : List ℕ) → take (min n (length xs)) xs ≡ take n xs
take-min n xs = elim (dec_lt n (length xs)) [
  | yes h ↦ ap (λ k. take k xs) (omega arith)
  | no h ↦ take-all (min n (length xs)) xs (omega arith) ∙ sym (take-all n xs (omega arith))
]

view_advance :
    (heap : ℕ → List ℕ) (t : Tail) (n : ℕ)
    → view heap (record t { off = t.off + n }) ≡ drop n (view heap t)
unfolding view
view_advance heap t n = sym (drop-drop t.off n (take t.end (heap t.buf)))

module _ (dst : ℕ) (discard : Bool) (r : RecvRemainder) (t : Tail) (v : IsValid r)
    (p : r.pending ≡ true) (h : r.head < length r.queue)
    (l : live r ≡ t ∷ drop (suc r.head) r.queue) where
  whole : List ℕ
  whole = view r.heap t

  fits : Fits r.heap t
  fits = (subst (All (Fits r.heap)) l v.fitting).0

  at_end : (t.off + min dst (length whole) == t.end) ≡ leb (length whole) dst
  unfolding whole
  at_end = ground (arith, length-view r.heap t fits, fits)

  rest : List (List ℕ)
  rest = map (view r.heap) (drop (suc r.head) r.queue)

  out : Option (List ℕ)
  out = some (take (min dst (length whole)) whole)

  gone : Option (List ℕ) × RecvRemainder
  gone = (out, pop_locked (put_buf t.buf r))

  kept : Option (List ℕ) × RecvRemainder
  unfolding whole
  kept = (
    out,
    record r { queue = set r.queue r.head (record t { off = t.off + min dst (length whole) }) },
  )

  asked : Option (List ℕ) × List (List ℕ)
  asked = Queue.read dst discard (contents r)

  -- Both sides split on the same test.
  by_test :
      (b : Bool)
      → (discard || leb (length whole) dst) ≡ b
      → (read_tail (some t) dst discard r ≡ (if b then gone else kept))
        × (asked ≡ (some (take dst whole), if b then rest else drop dst whole ∷ rest))
  unfolding read_tail whole rest out gone kept asked Queue.read
  by_test b e = (
    ap (λ c. if discard || c then gone else kept) at_end ∙ ap (λ c. if c then gone else kept) e,
    ap (Queue.read dst discard) (contents_of r t l)
        ∙ ap (λ c. (some (take dst whole), if c then rest else drop dst whole ∷ rest)) e,
  )

  gone-Refined : (discard || leb (length whole) dst) ≡ true → Refined asked gone
  unfolding whole rest out gone
  gone-Refined e =
      let (valid, free, before) = pop_locked-IsValid r t v p h l in
      let next : t.buf < (pop_locked r).next_buf =
        omega (arith, (pop_locked_lem r p h).4, before) in
      let left : contents (pop_locked (put_buf t.buf r)) ≡ rest =
        ap contents (pop_locked-put_buf t.buf r)
        ∙ contents-put_buf t.buf (pop_locked r)
        ∙ contents-pop_locked r p h in
      (
        ap₂ (λ a c. (some a, c)) (take-min dst whole) left ∙ sym (by_test true e).1,
        subst IsValid (sym (pop_locked-put_buf t.buf r))
            (put_buf-IsValid t.buf (pop_locked r) valid free next),
      )

  kept-Refined : (discard || leb (length whole) dst) ≡ false → Refined asked kept
  unfolding whole rest out kept
  kept-Refined e =
      let n = min dst (length whole) in
      let all : length whole ≡ t.end - t.off = length-view r.heap t fits in
      let short : n ≡ dst = ground arith in
      let t' : Tail = record t { off = t.off + n } in
      let first : view r.heap t' ≡ drop dst whole =
        view_advance r.heap t n ∙ ap (λ k. drop k whole) short in
      let left : map (view r.heap) (drop r.head (set r.queue r.head t')) ≡ drop dst whole ∷ rest =
        ap (map (view r.heap)) (set_at r.head r.queue t' h) ∙ ap (λ x. x ∷ rest) first in
      (
        ap₂ (λ a c. (some a, c)) (take-min dst whole) left ∙ sym (by_test false e).1,
        advance-IsValid r t (t.off + n) v p h l (omega (arith, all, fits)),
      )

  read-Refined : Refined asked (read_tail (some t) dst discard r)
  read-Refined = elim (Bool-cases (discard || leb (length whole) dst)) [
    | inl e ↦ subst (Refined asked) (sym (by_test true e).0) (gone-Refined e)
    | inr e ↦ subst (Refined asked) (sym (by_test false e).0) (kept-Refined e)
  ]

-- `read` gives the first bytes of the oldest of the queue, and leaves the rest.
pub read_refines :
    (dst : ℕ) (discard : Bool) (r : RecvRemainder)
    → IsValid r
    → Refined (Queue.read dst discard (contents r)) (read dst discard r)
unfolding read read_tail Queue.read
read_refines dst discard r v = elim (oldest-cases r v) [
  | inl (o, l) ↦
      subst (λ x. Refined (Queue.read dst discard (contents r)) (read_tail x dst discard r)) (sym o)
        (
          ap (λ ts. (none, map (view r.heap) ts)) l
              ∙ sym (ap (λ ts. Queue.read dst discard (map (view r.heap) ts)) l),
          v,
        )
  | inr (t, o, p, h, l) ↦
      subst (λ x. Refined (Queue.read dst discard (contents r)) (read_tail x dst discard r)) (sym o)
        (unfold asked in read-Refined dst discard r t v p h l)
]
