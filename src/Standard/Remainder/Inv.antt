-- ===== src/Standard/Remainder/Inv.antt =====
-- The buffers of a remainder: no two uses share one, and every tail lies in its own.
use hqq.Common.{
  ℕ, suc, ◌+◌, ◌≤◌, ◌<◌, ◌≡◌, ◌≢◌, inl, inr, refl, false, List, [], ◌∷◌, map, All, length, drop,
  replicate, length-replicate, max, leb, arith, leb→le, Bool-cases,
}
use hqq.Common.Counts.{count}
use hqq.Standard.Remainder.{Tail, RecvRemainder, view, update, make_buf, get_from, get_buf}

abbrev pub live : RecvRemainder → List Tail
live r = drop r.head r.queue

abbrev pub bufs : List Tail → List ℕ
bufs = map (λ t. t.buf)

-- How often a buffer is in use
abbrev pub uses : ℕ → RecvRemainder → ℕ
uses i r = count i (bufs (live r)) + count i r.free + count i r.lent

abbrev pub Fits : (ℕ → List ℕ) → Tail → Type 0
Fits heap t = (t.off ≤ t.end) × (t.end ≤ length (heap t.buf))

pub record IsValid (r : RecvRemainder) : Type 0 where
  pub in_queue : r.head ≤ length r.queue
  pub waiting : r.pending ≡ false → live r ≡ []
  pub owned : (i : ℕ) → uses i r ≤ 1
  pub made : (i : ℕ) → r.next_buf ≤ i → uses i r ≡ 0
  pub fitting : All (Fits r.heap) (live r)

-- A write to a buffer that none of the tails has changes none of them.
pub other_views :
    (b : ℕ) (heap heap' : ℕ → List ℕ) (ts : List Tail)
    → ((i : ℕ) → b ≢ i → heap' i ≡ heap i)
    → count b (bufs ts) ≡ 0
    → map (view heap') ts ≡ map (view heap) ts
unfolding count view
other_views b heap heap' [] h c = refl
other_views b heap heap' (t ∷ ts) h c =
    let e : heap' t.buf ≡ heap t.buf = h t.buf (ground arith) in
    rw (e, other_views b heap heap' ts h (ground arith)) refl

pub other_fits :
    (b : ℕ) (heap heap' : ℕ → List ℕ) (ts : List Tail)
    → ((i : ℕ) → b ≢ i → heap' i ≡ heap i)
    → count b (bufs ts) ≡ 0
    → All (Fits heap) ts
    → All (Fits heap') ts
unfolding count
other_fits b heap heap' [] h c f = tt
other_fits b heap heap' (t ∷ ts) h c (f, fs) =
    let e : heap' t.buf ≡ heap t.buf = h t.buf (ground arith) in
    (rw e f, other_fits b heap heap' ts h (ground arith) fs)

-- What a call of `getBuf` gives: a buffer that is long enough, that nothing uses, and no other change.
unfoldable pub Grants : ℕ → RecvRemainder → ℕ × RecvRemainder → Type 0
Grants n r (b, r') =
    (r'.queue ≡ r.queue)
    × (r'.head ≡ r.head)
    × (r'.lent ≡ r.lent)
    × ((i : ℕ) → count i r'.free ≤ count i r.free)
    × (count b (bufs (live r)) + count b r'.free + count b r.lent ≡ 0)
    × (b < r'.next_buf)
    × (r.next_buf ≤ r'.next_buf)
    × (n ≤ length (r'.heap b))
    × ((i : ℕ) → b ≢ i → r'.heap i ≡ r.heap i)

pub update_self : (b : ℕ) (v : List ℕ) (heap : ℕ → List ℕ) → update b v heap b ≡ v
unfolding update
update_self b v heap = ground arith

pub update_ne :
    (b : ℕ) (v : List ℕ) (heap : ℕ → List ℕ) (i : ℕ) → b ≢ i → update b v heap i ≡ heap i
unfolding update
update_ne b v heap i h = ground arith

make_buf-Grants :
    (n : ℕ) (r : RecvRemainder) (free : List ℕ)
    → ((i : ℕ) → count i free ≤ count i r.free)
    → uses r.next_buf r ≡ 0
    → Grants n r (make_buf n (record r { free = free }))
unfolding make_buf Grants
make_buf-Grants n r free f u =
    let zeros : List ℕ = replicate (max n r.size) 0 in
    (
      refl,
      refl,
      refl,
      f,
      omega (arith, f r.next_buf, u),
      omega arith,
      omega arith,
      rw (update_self r.next_buf zeros r.heap)
          (omega (arith, length-replicate {A = ℕ} (max n r.size) 0)),
      update_ne r.next_buf zeros r.heap,
    )

get_from-Grants :
    (free : List ℕ) (n : ℕ) (r : RecvRemainder)
    → r.free ≡ free
    → IsValid r
    → Grants n r (get_from free n r)
unfolding get_from
get_from-Grants [] n r e v =
    make_buf-Grants n r r.free (λ i. omega arith) (v.made r.next_buf (omega arith))
get_from-Grants (b ∷ free) n r e v = elim (Bool-cases (leb n (length (r.heap b)))) [
  | inr x ↦ rw x (make_buf-Grants n r free fewer (v.made r.next_buf (omega arith)))
  | inl x ↦ rw x (reused (leb→le n (length (r.heap b)) x))
]
  where
    fewer : (i : ℕ) → count i free ≤ count i r.free
    fewer i = unfold count in rw e (ground arith)

    once : count b r.free ≡ suc (count b free)
    once = unfold count in rw e (ground arith)

    in_use : r.next_buf ≤ b → ⊥
    in_use h = omega (arith, v.made b h, once)

    reused : n ≤ length (r.heap b) → Grants n r (b, record r { free = free })
    reused h =
        unfold Grants in
        (
          refl,
          refl,
          refl,
          fewer,
          omega (arith, v.owned b, once),
          omega (arith, in_use),
          omega arith,
          h,
          λ i d. refl,
        )

pub get_buf-Grants : (n : ℕ) (r : RecvRemainder) → IsValid r → Grants n r (get_buf n r)
unfolding get_buf
get_buf-Grants n r v = get_from-Grants r.free n r refl v
