-- ===== src/Advanced/Calls/Laws.antt =====
-- A result is sent only on an empty channel, and the memory of abandoned calls is bounded.
use hqq.Common.{
  ℕ, ◌+◌, ◌≡◌, ◌≤◌, ◌⊎◌, Bool, some, List, [], ◌∷◌, ◌==◌, if◌then◌else◌, arith, Option-cases, inl,
  inr,
}
use hqq.Common.Counts.{count, count-take_out}
use hqq.Advanced.Calls.{
  CallKey, Calls, find_call, delete_call, insert_call, register, route_response, is_registered,
  unregister, evict_oldest, remember, abandon_call,
}
use hqq.Advanced.Calls.Steps.{
  count_calls, Channels, add_if, recycle, fail_all, Step, call_fresh, call_pooled, route, send,
  receive, give_back, abandon, fail, Reach, start, later,
}

count-insert_call :
    (n : ℕ) (k : CallKey) (ch : ℕ) (m : List (CallKey × ℕ))
    → count_calls n (insert_call k ch m) ≤ count_calls n m + (if ch == n then 1 else 0)
unfolding count_calls insert_call
count-insert_call n k ch [] = ground arith
count-insert_call n k ch ((j, c) ∷ m) = ground (arith, count-insert_call n k ch m)

count-delete_call :
    (n : ℕ) (k : CallKey) (ch : ℕ) (m : List (CallKey × ℕ))
    → find_call k m ≡ some ch
    → count_calls n (delete_call k m) + (if ch == n then 1 else 0) ≡ count_calls n m
unfolding count_calls delete_call find_call
count-delete_call n k ch [] e = absurd (ground arith)
count-delete_call n k ch ((j, c) ∷ m) e = ground (arith, count-delete_call n k ch m)

-- How often a channel is in use or at hand.
abbrev places : Channels → ℕ → ℕ
places s ch =
    count_calls ch s.calls.pending + count ch s.sending + count ch s.filled + count ch s.pool

-- A channel is in one place at most, and a number that is not yet a channel is nowhere.
pub record IsSound (s : Channels) : Type 0 where
  pub one_place : (ch : ℕ) → places s ch ≤ 1
  pub unused : (ch : ℕ) → s.fresh ≤ ch → places s ch ≡ 0

count-fail_all :
    (n : ℕ) (m : List (CallKey × ℕ)) (filled : List ℕ)
    → count n (fail_all m filled) ≤ count_calls n m + count n filled
unfolding fail_all count_calls count
count-fail_all n [] filled = omega arith
count-fail_all n ((k, ch) ∷ m) filled = ground (arith, count-fail_all n m filled)

count-route :
    (n : ℕ) (k : CallKey) (has_message : Bool) (c : Calls) (sending : List ℕ)
    → count_calls n (route_response k has_message c).1.pending
        + count n (add_if (route_response k has_message c).0 sending)
      ≤ count_calls n c.pending + count n sending
unfolding route_response count
count-route n k has_message c sending = elim (Option-cases (find_call k c.pending)) [
  | inl x ↦ ground arith
  | inr (ch, x) ↦ ground (arith, count-delete_call n k ch c.pending x)
]

count-unregister :
    (n : ℕ) (k : CallKey) (ch : ℕ) (c : Calls) (pool : List ℕ)
    → count_calls n (unregister k ch c).1.pending + count n (recycle (unregister k ch c).0 ch pool)
      ≤ count_calls n c.pending + count n pool
unfolding unregister is_registered count
count-unregister n k ch c pool = elim (Option-cases (find_call k c.pending)) [
  | inl x ↦ ground arith
  | inr (d, x) ↦ ground (arith, count-delete_call n k d c.pending x)
]

count-abandon_call :
    (n : ℕ) (k : CallKey) (ch : ℕ) (c : Calls)
    → count_calls n (abandon_call k ch c).1.pending ≤ count_calls n c.pending
unfolding abandon_call remember evict_oldest is_registered
count-abandon_call n k ch c = elim (Option-cases (find_call k c.pending)) [
  | inl x ↦ ground arith
  | inr (d, x) ↦ ground (arith, count-delete_call n k d c.pending x)
]

-- No step puts a channel in one place more, but for the one that makes it.
Step-places :
    {s t : Channels} (ch : ℕ)
    → Step s t
    → (s.fresh ≤ t.fresh)
      × ((places t ch ≤ places s ch)
          ⊎ ((ch ≡ s.fresh) × (t.fresh ≡ s.fresh + 1) × (places t ch ≤ places s ch + 1)))
unfolding register count
Step-places {s} n (call_fresh k) = ground (arith, count-insert_call n k s.fresh s.calls.pending)
Step-places {s} n (call_pooled k ch h) =
    ground (arith, count-insert_call n k ch s.calls.pending, count-take_out n ch s.pool h)
Step-places {s} n (route k has_message) =
    ground (arith, count-route n k has_message s.calls s.sending)
Step-places {s} n (send ch h) = ground (arith, count-take_out n ch s.sending h)
Step-places {s} n (receive ch h) = ground (arith, count-take_out n ch s.filled h)
Step-places {s} n (give_back k ch) = ground (arith, count-unregister n k ch s.calls s.pool)
Step-places {s} n (abandon k ch) = ground (arith, count-abandon_call n k ch s.calls)
Step-places {s} n fail =
    unfold count_calls in ground (arith, count-fail_all n s.calls.pending s.filled)

Reach-IsSound : {s : Channels} → Reach s → IsSound s
unfolding count count_calls
Reach-IsSound start = record { one_place = λ ch. omega arith; unused = λ ch h. omega arith }
Reach-IsSound (later r st) =
    let v = Reach-IsSound r in
    record {
      one_place = λ ch. ground (arith, Step-places ch st, v.one_place ch, v.unused ch);
      unused = λ ch h. ground (arith, Step-places ch st, v.unused ch);
    }

-- However the goroutines interleave, a channel from which a call is removed to be answered, and on
-- which a result is about to be sent, is empty: the send does not block. It belongs to no other
-- call, and it is not in the pool.
pub send_never_blocks :
    {s : Channels} (ch : ℕ)
    → Reach s
    → 1 ≤ count ch s.sending
    → (count ch s.filled ≡ 0)
      × (count_calls ch s.calls.pending ≡ 0)
      × (count ch s.pool ≡ 0)
      × (count ch s.sending ≡ 1)
send_never_blocks ch r h = omega (arith, (Reach-IsSound r).one_place ch)

-- However the goroutines interleave, a channel in the pool is empty, and no call waits on it and no
-- goroutine is about to send on it: the next call finds no result of another.
pub pooled_channel_empty :
    {s : Channels} (ch : ℕ)
    → Reach s
    → 1 ≤ count ch s.pool
    → (count ch s.filled ≡ 0) × (count_calls ch s.calls.pending ≡ 0) × (count ch s.sending ≡ 0)
pooled_channel_empty ch r h = omega (arith, (Reach-IsSound r).one_place ch)
