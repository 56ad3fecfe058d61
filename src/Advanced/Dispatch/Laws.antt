-- ===== src/Advanced/Dispatch/Laws.antt =====
-- No message is lost or doubled on its route, nor while the dispatcher waits for room.
use hqq.Common.{
  ℕ, ◌+◌, ◌≡◌, ◌⊎◌, Bool, Option, some, List, [], ◌∷◌, arith, refl, Option-cases, List-cases, inl,
  inr,
}
use hqq.Advanced.Flags.{AdvHeader}
use hqq.Advanced.Assembly.Chunk.{Message}
use hqq.Advanced.Dispatch.{
  Queue, Stream, Dispatcher, Destination, to_requests, to_stream, Routed, routed, stalled,
  incoming_overflow, Wake, route,
}
use hqq.Advanced.Dispatch.Loop.{
  pop, pop_stream, receive_queued, mark_closed, drain, QueueEvent, takes, closes, drains, happen,
  meanwhile, dispatch_one,
}
use hqq.Advanced.Dispatch.Counts.{
  count, count-append, count_one, count_streams, held_by, count-snoc, route-counts,
  deliver_blocking-counts,
}

module _ (test : Message → Bool) where
  count-pop :
      (q q' : Queue) (m : Message)
      → pop q ≡ some (m, q')
      → count test q'.items + count_one test (some m) ≡ count test q.items
  unfolding pop count
  count-pop q q' m e = elim (List-cases q.items) [
    | inl x ↦ ground (arith, x)
    | inr (k, rest, x) ↦ ground (arith, x)
  ]

  count-pop_stream :
      (id : ℕ) (ss ss' : List Stream) (m : Message)
      → pop_stream id ss ≡ some (m, ss')
      → count_streams test ss' + count_one test (some m) ≡ count_streams test ss
  unfolding pop_stream count_streams
  count-pop_stream id [] ss' m e = ground arith
  count-pop_stream id (s ∷ ss) ss' m e = elim (Option-cases (pop s.queue)) [
    | inl x ↦ elim (Option-cases (pop_stream id ss)) [
      | inl y ↦ ground arith
      | inr ((n, rest), y) ↦ ground (arith, count-pop_stream id ss rest n y)
    ]
    | inr ((k, q), x) ↦ elim (Option-cases (pop_stream id ss)) [
      | inl y ↦ ground (arith, count-pop s.queue q k x)
      | inr ((n, rest), y) ↦
          ground (arith, count-pop s.queue q k x, count-pop_stream id ss rest n y)
    ]
  ]

  count-mark_closed :
      (id : ℕ) (ss : List Stream) → count_streams test (mark_closed id ss) ≡ count_streams test ss
  unfolding mark_closed count_streams
  count-mark_closed id [] = refl
  count-mark_closed id (s ∷ ss) = ground (arith, count-mark_closed id ss)

  count-drain :
      (id : ℕ) (ss : List Stream)
      → let r = drain id ss in count_streams test r.1 + count test r.0 ≡ count_streams test ss
  unfolding drain count_streams count
  count-drain id [] = refl
  count-drain id (s ∷ ss) = ground (arith, count-drain id ss)

  receive_queued-counts :
      (to : Destination) (d : Dispatcher) → held_by test (receive_queued to d) ≡ held_by test d
  unfolding receive_queued
  receive_queued-counts to_requests d = elim (Option-cases (pop d.requests)) [
    | inl x ↦ ground (arith, x)
    | inr ((m, q), x) ↦ ground (arith, x, count-pop d.requests q m x, count-snoc test d.taken m)
  ]
  receive_queued-counts (to_stream id) d = elim (Option-cases (pop_stream id d.streams)) [
    | inl x ↦ ground (arith, x)
    | inr ((m, ss), x) ↦
        ground (arith, x, count-pop_stream id d.streams ss m x, count-snoc test d.taken m)
  ]

  happen-counts : (e : QueueEvent) (d : Dispatcher) → held_by test (happen e d) ≡ held_by test d
  unfolding happen
  happen-counts (takes to) d = receive_queued-counts to d
  happen-counts (closes id) d = omega (arith, count-mark_closed id d.streams)
  happen-counts (drains id) d =
      omega (arith, count-drain id d.streams, count-append test d.released (drain id d.streams).0)

  meanwhile-counts :
      (es : List QueueEvent) (d : Dispatcher) → held_by test (meanwhile es d) ≡ held_by test d
  unfolding meanwhile
  meanwhile-counts [] d = refl
  meanwhile-counts (e ∷ es) d = omega (arith, meanwhile-counts es (happen e d), happen-counts e d)

  Routed-cases :
      (x : Routed)
      → (x ≡ routed)
        ⊎ ((x ≡ incoming_overflow) ⊎ ((n : Message) × (to : Destination) × (x ≡ stalled n to)))
  Routed-cases routed = inl refl
  Routed-cases incoming_overflow = inr (inl refl)
  Routed-cases (stalled n to) = inr (inr (n, to, refl))

  -- The queues of the link, the calls that were answered, `Serve` and `Recv`, which take messages from
  -- the queues, and the pool have together one message more that passes a test when the dispatcher is
  -- done with a message that passes it, and as many as before when the message does not pass it or
  -- there is none: under every overflow policy, whatever `Serve` and `Recv` take and whichever streams
  -- are closed and drained while the dispatcher waits for room, and however that wait ends.
  pub dispatch_one-conserves :
      (events : List QueueEvent) (wake : Wake) (hdr : AdvHeader) (m : Option Message)
      (d d' : Dispatcher)
      → dispatch_one events wake hdr m d ≡ some d'
      → held_by test d' ≡ held_by test d + count_one test m
  unfolding dispatch_one
  dispatch_one-conserves events wake hdr m d d' e =
      let r = route hdr m d in
      elim (Routed-cases r.0) [
        | inl x ↦ ground (arith, x, route-counts test hdr m d)
        | inr (inl x) ↦ ground (arith, x, route-counts test hdr m d)
        | inr (inr (n, to, x)) ↦ ground (
          arith,
          x,
          route-counts test hdr m d,
          meanwhile-counts events r.1,
          deliver_blocking-counts test wake to n (meanwhile events r.1) d',
        )
      ]
