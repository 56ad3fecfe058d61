-- ===== src/Advanced/Calls/Abandoned.antt =====
-- The memory of abandoned calls (`abandoned` and `abandonedOrder`) is bounded.
use hqq.Common.{
  ℕ, suc, ◌+◌, ◌-◌, ◌≡◌, ◌≤◌, Bool, true, false, List, [], ◌∷◌, ◌++◌, if◌then◌else◌, length,
  length-append, arith, refl, ap, Bool-cases, inl, inr,
}
use hqq.Advanced.Calls.{
  CallKey, Calls, same_call, delete_call, has_call, remove_call, register, route_response,
  is_registered, unregister, evict_oldest, remember, abandon_call,
}
use hqq.Advanced.Calls.Steps.{
  Channels, Step, call_fresh, call_pooled, route, send, receive, give_back, abandon, fail, Reach,
  start, later,
}

count_key : CallKey → List CallKey → ℕ
count_key k [] = 0
count_key k (j ∷ s) = if same_call j k then suc (count_key k s) else count_key k s

count_key-remove_call :
    (n k : CallKey) (s : List CallKey)
    → count_key n (remove_call k s) + (if same_call k n then (if has_call k s then 1 else 0) else 0)
      ≡ count_key n s
unfolding count_key remove_call has_call same_call
count_key-remove_call n k [] = ground arith
count_key-remove_call n k (j ∷ s) = ground (arith, count_key-remove_call n k s)

length-remove_call :
    (k : CallKey) (s : List CallKey)
    → length (remove_call k s) + (if has_call k s then 1 else 0) ≡ length s
unfolding remove_call has_call
length-remove_call k [] = ground arith
length-remove_call k (j ∷ s) = ground (arith, length-remove_call k s)

has_call-count_key : (k : CallKey) (s : List CallKey) → 1 ≤ count_key k s → has_call k s ≡ true
unfolding count_key has_call
has_call-count_key k [] h = absurd (omega arith)
has_call-count_key k (j ∷ s) h = ground (arith, has_call-count_key k s)

count_key-absent : (k : CallKey) (s : List CallKey) → has_call k s ≡ false → count_key k s ≡ 0
unfolding count_key has_call
count_key-absent k [] h = refl
count_key-absent k (j ∷ s) h = ground (arith, count_key-absent k s)

same_call_self : (k : CallKey) → same_call k k ≡ true
unfolding same_call
same_call_self k = ground arith

-- A list that has every key at most as often as another is at most as long.
length-within :
    (xs ys : List CallKey)
    → ((n : CallKey) → count_key n xs ≤ count_key n ys)
    → length xs ≤ length ys
unfolding count_key
length-within [] ys h = omega arith
length-within (x ∷ xs) ys h =
    let here : has_call x ys ≡ true =
      has_call-count_key x ys (ground (arith, h x, same_call_self x)) in
    ground (
      arith,
      here,
      length-remove_call x ys,
      length-within xs (remove_call x ys)
          (λ n. ground (arith, here, h n, count_key-remove_call n x ys)),
    )

count_key-append :
    (n k : CallKey) (s : List CallKey)
    → count_key n (s ++ (k ∷ [])) ≡ count_key n s + (if same_call k n then 1 else 0)
unfolding count_key
count_key-append n k [] = ground arith
count_key-append n k (j ∷ s) = ground (arith, count_key-append n k s)

record IsBounded (c : Calls) : Type 0 where
  queued : (n : CallKey) → count_key n c.abandoned ≤ count_key n c.abandoned_order
  distinct : (n : CallKey) → count_key n c.abandoned ≤ 1
  few : length c.abandoned_order ≤ 4096

count_key-same :
    (n k : CallKey) (s : List CallKey) → same_call k n ≡ true → count_key n s ≡ count_key k s
unfolding count_key same_call
count_key-same n k [] h = refl
count_key-same n k (j ∷ s) h = ground (arith, count_key-same n k s h)

-- Dropping the front of the queue, and that key from the set.
evicted-queued :
    (n oldest : CallKey) (order abandoned : List CallKey)
    → count_key n abandoned ≤ count_key n (oldest ∷ order)
    → count_key n (remove_call oldest abandoned) ≤ count_key n order
unfolding count_key
evicted-queued n oldest order abandoned h = ground (
  arith,
  count_key-remove_call n oldest abandoned,
  count_key-absent oldest abandoned,
  count_key-same n oldest abandoned,
)

evict_oldest-IsBounded : (c : Calls) → IsBounded c → IsBounded (evict_oldest c)
unfolding evict_oldest
evict_oldest-IsBounded c v = evicted c.abandoned_order refl
  where
    evicted : (order : List CallKey) → c.abandoned_order ≡ order → IsBounded (evict_oldest c)
    evicted [] e = rw e (record {
      queued = λ n. omega (arith, v.queued n, ap (count_key n) e);
      distinct = v.distinct;
      few = omega arith;
    })
    evicted (oldest ∷ order) e = rw e (record {
      queued = λ n.
          evicted-queued n oldest order c.abandoned (omega (arith, v.queued n, ap (count_key n) e));
      distinct = λ n. omega (arith, count_key-remove_call n oldest c.abandoned, v.distinct n);
      few = omega (arith, v.few, ap length e);
    })

evict_oldest-length :
    (c : Calls) → length (evict_oldest c).abandoned_order ≡ length c.abandoned_order - 1
unfolding evict_oldest
evict_oldest-length c = ground arith

remember-IsBounded : (k : CallKey) (c : Calls) → IsBounded c → IsBounded (remember k c)
unfolding remember count_key
remember-IsBounded k c v =
    let w = evict_oldest-IsBounded c v in
    record {
      queued = λ n. ground (
        arith,
        v.queued n,
        w.queued n,
        count_key-append n k c.abandoned_order,
        count_key-append n k (evict_oldest c).abandoned_order,
      );
      distinct = λ n. ground (
        arith,
        v.distinct n,
        w.distinct n,
        count_key-same n k c.abandoned,
        count_key-same n k (evict_oldest c).abandoned,
        count_key-absent k c.abandoned,
        count_key-absent k (evict_oldest c).abandoned,
      );
      few = ground (
        arith,
        v.few,
        evict_oldest-length c,
        length-append c.abandoned_order (k ∷ []),
        length-append (evict_oldest c).abandoned_order (k ∷ []),
      );
    }

route_response-IsBounded :
    (k : CallKey) (has_message : Bool) (c : Calls)
    → IsBounded c
    → IsBounded (route_response k has_message c).1
unfolding route_response
route_response-IsBounded k has_message c v = record {
  queued = λ n. ground (arith, v.queued n, count_key-remove_call n k c.abandoned);
  distinct = λ n. ground (arith, v.distinct n, count_key-remove_call n k c.abandoned);
  few = ground (arith, v.few);
}

Step-IsBounded : {s t : Channels} → Step s t → IsBounded s.calls → IsBounded t.calls
unfolding register unregister abandon_call
Step-IsBounded (call_fresh k) v = record { queued = v.queued; distinct = v.distinct; few = v.few }
Step-IsBounded (call_pooled k ch h) v = record {
  queued = v.queued;
  distinct = v.distinct;
  few = v.few;
}
Step-IsBounded {s} (route k has_message) v = route_response-IsBounded k has_message s.calls v
Step-IsBounded (send ch h) v = v
Step-IsBounded (receive ch h) v = v
Step-IsBounded {s} (give_back k ch) v = elim (Bool-cases (is_registered k ch s.calls)) [
  | inl e ↦ rw e (record { queued = v.queued; distinct = v.distinct; few = v.few })
  | inr e ↦ rw e v
]
Step-IsBounded {s} (abandon k ch) v = elim (Bool-cases (is_registered k ch s.calls)) [
  | inl e ↦ rw e (
      remember-IsBounded k (record s.calls { pending = delete_call k s.calls.pending })
        (record { queued = v.queued; distinct = v.distinct; few = v.few }))
  | inr e ↦ rw e v
]
Step-IsBounded fail v = record { queued = v.queued; distinct = v.distinct; few = v.few }

Reach-IsBounded : {s : Channels} → Reach s → IsBounded s.calls
unfolding count_key
Reach-IsBounded start = record {
  queued = λ n. omega arith;
  distinct = λ n. omega arith;
  few = omega arith;
}
Reach-IsBounded (later r st) = Step-IsBounded st (Reach-IsBounded r)

-- However the goroutines interleave, at most 4096 abandoned calls are remembered, in the set and in
-- the queue beside it.
pub abandoned_bounded :
    {s : Channels}
    → Reach s
    → (length s.calls.abandoned ≤ 4096) × (length s.calls.abandoned_order ≤ 4096)
abandoned_bounded {s} r =
    let v = Reach-IsBounded r in
    omega (arith, v.few, length-within s.calls.abandoned s.calls.abandoned_order v.queued)
