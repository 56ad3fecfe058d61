-- ===== src/Standard/Remainder/Runs.antt =====
-- `store`, and every sequence of calls, refine the queue.
use hqq.Common.{
  ℕ, zero, suc, ◌+◌, ◌-◌, ◌≤◌, ◌≡◌, ◌≢◌, refl, sym, subst, ap, ap₂, ◌∙◌, Bool, true, not, ◌&&◌,
  Option, none, some, List, [], ◌∷◌, ◌++◌, map, All, length, get_elem?, take, drop, min,
  length-append, ◌==◌, arith, Bool-cases, inl, inr,
}
use hqq.Common.Slices.{drop-append, take_left, take-all}
use hqq.Common.Counts.{count, take_out, count-append}
use hqq.Standard.Remainder.{
  Tail, RecvRemainder, view, update, get_buf, read, take_oldest, give_back, reclaim, append_tail,
  store,
}
use hqq.Standard.Remainder.Queue
use hqq.Standard.Remainder.Inv.{
  live, bufs, uses, Fits, IsValid, Grants, get_buf-Grants, other_views, other_fits, update_ne,
  update_self,
}
use hqq.Standard.Remainder.Steps.{put_buf-IsValid, unlend-IsValid}
use hqq.Standard.Remainder.Refines.{contents, contents-put_buf, take_oldest_refines, read_refines}

-- What `reclaim` changes: nothing of what is live, not even when a tail is appended
reclaim_lem :
    (full : Bool) (r : RecvRemainder) (t : Tail)
    → r.head ≤ length r.queue
    → let r' = reclaim full r in
      (drop r'.head (r'.queue ++ (t ∷ [])) ≡ live r ++ (t ∷ []))
      × (r'.head ≤ length (r'.queue ++ (t ∷ [])))
      × (r'.heap ≡ r.heap)
      × (r'.free ≡ r.free)
      × (r'.lent ≡ r.lent)
      × (r'.next_buf ≡ r.next_buf)
unfolding reclaim
reclaim_lem full r t h = elim (Bool-cases (not (r.head == 0) && full)) [
  | inl e ↦ rw e (refl, omega arith, refl, refl, refl, refl)
  | inr e ↦
      let z : r.head - length r.queue ≡ 0 = omega arith in
      rw e (
        drop-append r.head r.queue (t ∷ []) ∙ ap (λ k. live r ++ drop k (t ∷ [])) z,
        omega (arith, length-append r.queue (t ∷ [])),
        refl,
        refl,
        refl,
        refl,
      )
]

All-append :
    (P : Tail → Type 0) (xs : List Tail) (t : Tail) → All P xs → P t → All P (xs ++ (t ∷ []))
All-append P [] t h p = (p, tt)
All-append P (x ∷ xs) t h p = (h.0, All-append P xs t h.1 p)

map-append :
    {A : Type 0} (f : Tail → A) (xs : List Tail) (t : Tail)
    → map f (xs ++ (t ∷ [])) ≡ map f xs ++ (f t ∷ [])
map-append f [] t = refl
map-append f (x ∷ xs) t = ap (λ l. f x ∷ l) (map-append f xs t)

module _ (src : List ℕ) (full : Bool) (b : ℕ) (r r1 : RecvRemainder) (v : IsValid r)
    (g : Grants (length src) r (b, r1)) where
  heap : ℕ → List ℕ
  heap = update b (src ++ drop (length src) (r1.heap b)) r1.heap

  tail : Tail
  tail = record { buf = b; off = 0; end = length src }

  written : RecvRemainder
  written = record r1 { heap = heap }

  same_live : live written ≡ live r
  unfolding written Grants
  same_live = ap₂ drop g.1 g.0

  within : written.head ≤ length written.queue
  unfolding written Grants
  within = omega (arith, v.in_queue, g.1, ap length g.0)

  appended : RecvRemainder
  appended =
      let r' = reclaim full written in record r' { queue = r'.queue ++ (tail ∷ []); pending = true }

  append_tail-appended : append_tail src full b r1 ≡ appended
  unfolding append_tail appended written heap tail Grants
  append_tail-appended =
      let n : min (length (r1.heap b)) (length src) ≡ length src = omega (arith, g.7) in
      let whole : take (length src) src ≡ src = take-all (length src) src (omega arith) in
      rw (n, whole) refl

  others : (i : ℕ) → b ≢ i → heap i ≡ r.heap i
  unfolding heap Grants
  others i h = update_ne b (src ++ drop (length src) (r1.heap b)) r1.heap i h ∙ g.8 i h

  unused : count b (bufs (live r)) ≡ 0
  unfolding Grants
  unused = omega (arith, g.4)

  view-tail : view heap tail ≡ src
  unfolding view heap tail
  view-tail =
      ap (take (length src)) (update_self b (src ++ drop (length src) (r1.heap b)) r1.heap)
      ∙ take_left (length src) src (drop (length src) (r1.heap b)) refl

  append_contents : contents appended ≡ contents r ++ (src ∷ [])
  unfolding appended written
  append_contents =
      let (l, w, h, f, n, x) = reclaim_lem full written tail within in
      ap₂ (λ m ts. map (view m) ts) h (l ∙ ap (λ ts. ts ++ (tail ∷ [])) same_live)
      ∙ map-append (view heap) (live r) tail
      ∙ ap₂ (λ xs y. xs ++ (y ∷ [])) (other_views b r.heap heap (live r) others unused) view-tail

  used :
      (i : ℕ)
      → uses i appended
        ≡ count i (bufs (live r)) + count i (b ∷ []) + count i r1.free + count i r.lent
  unfolding appended written tail Grants
  used i =
      let (l, w, h, f, n, x) = reclaim_lem full written tail within in
      let all : bufs (live appended) ≡ bufs (live r) ++ (b ∷ []) =
        ap bufs (l ∙ ap (λ ts. ts ++ (tail ∷ [])) same_live)
        ∙ map-append (λ t. t.buf) (live r) tail in
      omega (
        arith,
        ap (count i) all,
        count-append i (bufs (live r)) (b ∷ []),
        ap (count i) f,
        ap (count i) (n ∙ g.2),
      )

  tail_fits : Fits heap tail
  unfolding heap tail
  tail_fits =
      let kept = drop (length src) (r1.heap b) in
      (
        omega arith,
        omega (arith, ap length (update_self b (src ++ kept) r1.heap), length-append src kept),
      )

  append-IsValid : IsValid appended
  unfolding appended written tail Grants count
  append-IsValid =
      let (l, w, h, f, n, x) = reclaim_lem full written tail within in
      let live_eq : live appended ≡ live r ++ (tail ∷ []) =
        l ∙ ap (λ ts. ts ++ (tail ∷ [])) same_live in
      let fits : All (Fits heap) (live r ++ (tail ∷ [])) =
        All-append (Fits heap) (live r) tail
          (other_fits b r.heap heap (live r) others unused v.fitting) tail_fits in
      record {
        in_queue = w;
        waiting = λ q. absurd (ground arith);
        owned = λ i. ground (arith, used i, v.owned i, g.3 i, g.4);
        made = λ i k. ground (arith, used i, v.made i, x, g.3 i, g.5, g.6);
        fitting =
            subst (λ m. All (Fits m) (live appended)) (sym h)
              (subst (All (Fits heap)) (sym live_eq) fits);
      }

-- `store` appends to the queue.
pub store_refines :
    (src : List ℕ) (full : Bool) (r : RecvRemainder)
    → IsValid r
    → (contents (store src full r) ≡ Queue.store src (contents r)) × IsValid (store src full r)
unfolding store Queue.store
store_refines src full r v =
    let (b, r1) = get_buf (length src) r in
    let g = get_buf-Grants (length src) r v in
    let e = append_tail-appended src full b r r1 v g in
    (
      ap contents e ∙ append_contents src full b r r1 v g,
      subst IsValid (sym e) (append-IsValid src full b r r1 v g),
    )

-- A call of a method; `return_call k` gives the buffer with the number `k` of those that are lent back.
pub data Call : Type 0 where
  store_call : List ℕ → Bool → Call
  read_call : ℕ → Bool → Call
  take_call : Call
  return_call : ℕ → Call

unfoldable pub give_back_lent : Option ℕ → RecvRemainder → RecvRemainder
give_back_lent none r = r
give_back_lent (some b) r = give_back b r

-- What a sequence of calls returns
unfoldable pub run : List Call → RecvRemainder → List (Option (List ℕ))
run [] r = []
run (store_call src full ∷ cs) r = run cs (store src full r)
run (read_call dst discard ∷ cs) r = let (out, r') = read dst discard r in out ∷ run cs r'
run (take_call ∷ cs) r = let (out, r') = take_oldest r in out ∷ run cs r'
run (return_call k ∷ cs) r = run cs (give_back_lent (get_elem? r.lent k) r)

-- What it returns on a queue
unfoldable pub run_queue : List Call → List (List ℕ) → List (Option (List ℕ))
run_queue [] q = []
run_queue (store_call src full ∷ cs) q = run_queue cs (Queue.store src q)
run_queue (read_call dst discard ∷ cs) q =
    let (out, q') = Queue.read dst discard q in out ∷ run_queue cs q'
run_queue (take_call ∷ cs) q = let (out, q') = Queue.take_oldest q in out ∷ run_queue cs q'
run_queue (return_call k ∷ cs) q = run_queue cs q

count-get_elem? : (xs : List ℕ) (k b : ℕ) → get_elem? xs k ≡ some b → 1 ≤ count b xs
unfolding count
count-get_elem? [] k b h = absurd (ground arith)
count-get_elem? (x ∷ xs) zero b h = ground arith
count-get_elem? (x ∷ xs) (suc k) b h = ground (arith, count-get_elem? xs k b h)

-- `giveBack` changes nothing of the queue.
give_back_refines :
    (o : Option ℕ) (k : ℕ) (r : RecvRemainder)
    → IsValid r
    → get_elem? r.lent k ≡ o
    → (contents (give_back_lent o r) ≡ contents r) × IsValid (give_back_lent o r)
unfolding give_back_lent give_back
give_back_refines none k r v h = (refl, v)
give_back_refines (some b) k r v h =
    let r' : RecvRemainder = record r { lent = take_out b r.lent } in
    let (valid, free, made) = unlend-IsValid b r v (count-get_elem? r.lent k b h) in
    (contents-put_buf b r', put_buf-IsValid b r' valid free made)

-- No sequence of calls tells a valid remainder from the queue of the tails that it holds.
pub run_refines :
    (cs : List Call) (r : RecvRemainder) → IsValid r → run cs r ≡ run_queue cs (contents r)
unfolding run run_queue
run_refines [] r v = refl
run_refines (store_call src full ∷ cs) r v =
    let (e, v') = store_refines src full r v in
    run_refines cs (store src full r) v' ∙ ap (run_queue cs) e
run_refines (read_call dst discard ∷ cs) r v =
    let (e, v') = read_refines dst discard r v in
    ap (λ l. (read dst discard r).0 ∷ l) (run_refines cs (read dst discard r).1 v')
    ∙ ap (λ x. x.0 ∷ run_queue cs x.1) e
run_refines (take_call ∷ cs) r v =
    let (e, v') = take_oldest_refines r v in
    ap (λ l. (take_oldest r).0 ∷ l) (run_refines cs (take_oldest r).1 v')
    ∙ ap (λ x. x.0 ∷ run_queue cs x.1) e
run_refines (return_call k ∷ cs) r v =
    let (e, v') = give_back_refines (get_elem? r.lent k) k r v refl in
    run_refines cs (give_back_lent (get_elem? r.lent k) r) v' ∙ ap (run_queue cs) e
