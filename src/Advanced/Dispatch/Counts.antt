-- ===== src/Advanced/Dispatch/Counts.antt =====
-- How many messages a link holds, before and after they are routed.
use hqq.Common.{
  ℕ, ◌+◌, ◌≡◌, Bool, Option, some, none, List, [], ◌∷◌, ◌++◌, if◌then◌else◌, arith, Option-cases,
  inl, inr,
}
use hqq.Advanced.Flags.{AdvHeader}
use hqq.Advanced.Assembly.Chunk.{Message}
use hqq.Advanced.Calls.{route_response}
use hqq.Advanced.Dispatch.{
  Queue, Stream, Dispatcher, Destination, to_requests, to_stream, Routed, routed, stalled,
  incoming_overflow, release_message, drop_message, lookup_stream, push, push_stream, offer_message,
  Wake, has_room, stream_closed, context_done, deliver_blocking, deliver, is_message, respond,
  route_request, route,
}

-- How many messages pass a test.
unfoldable pub count : (Message → Bool) → List Message → ℕ
count test [] = 0
count test (m ∷ ms) = (if test m then 1 else 0) + count test ms

pub count-append :
    (test : Message → Bool) (xs ys : List Message)
    → count test (xs ++ ys) ≡ count test xs + count test ys
unfolding count
count-append test [] ys = omega arith
count-append test (x ∷ xs) ys = omega (arith, count-append test xs ys)

module _ (test : Message → Bool) where
  abbrev pub count_one : Option Message → ℕ
  count_one none = 0
  count_one (some m) = if test m then 1 else 0

  unfoldable pub count_results : List (ℕ × Option Message) → ℕ
  count_results [] = 0
  count_results ((ch, m) ∷ rs) = count_one m + count_results rs

  unfoldable pub count_streams : List Stream → ℕ
  count_streams [] = 0
  count_streams (s ∷ ss) = count test s.queue.items + count_streams ss

  -- The messages that the link holds, has handed to calls or has released.
  abbrev pub held_by : Dispatcher → ℕ
  held_by d =
      count test d.requests.items
      + count_streams d.streams
      + count_results d.results
      + count test d.taken
      + count test d.released

  abbrev pub held_back : Routed → ℕ
  held_back routed = 0
  held_back (stalled m to) = count_one (some m)
  held_back incoming_overflow = 0

  pub count-snoc :
      (xs : List Message) (m : Message)
      → count test (xs ++ (m ∷ [])) ≡ count test xs + count_one (some m)
  unfolding count
  count-snoc xs m = omega (arith, count-append test xs (m ∷ []))

  count_results-snoc :
      (rs : List (ℕ × Option Message)) (ch : ℕ) (m : Option Message)
      → count_results (rs ++ ((ch, m) ∷ [])) ≡ count_results rs + count_one m
  unfolding count_results
  count_results-snoc [] ch m = omega arith
  count_results-snoc ((c, n) ∷ rs) ch m = omega (arith, count_results-snoc rs ch m)

  count-push :
      (m : Message) (q q' : Queue)
      → push m q ≡ some q'
      → count test q'.items ≡ count test q.items + count_one (some m)
  unfolding push
  count-push m q q' e = ground (arith, count-snoc q.items m)

  count-push_stream :
      (id : ℕ) (m : Message) (ss ss' : List Stream)
      → push_stream id m ss ≡ some ss'
      → count_streams ss' ≡ count_streams ss + count_one (some m)
  unfolding push_stream count_streams
  count-push_stream id m [] ss' e = ground arith
  count-push_stream id m (s ∷ ss) ss' e = elim (Option-cases (push m s.queue)) [
    | inl x ↦ elim (Option-cases (push_stream id m ss)) [
      | inl y ↦ ground arith
      | inr (rest, y) ↦ ground (arith, count-push_stream id m ss rest y)
    ]
    | inr (q, x) ↦ elim (Option-cases (push_stream id m ss)) [
      | inl y ↦ ground (arith, count-push m s.queue q x)
      | inr (rest, y) ↦ ground (arith, count-push m s.queue q x, count-push_stream id m ss rest y)
    ]
  ]

  offer_message-counts :
      (to : Destination) (m : Message) (d d' : Dispatcher)
      → offer_message to m d ≡ some d'
      → held_by d' ≡ held_by d + count_one (some m)
  unfolding offer_message
  offer_message-counts to_requests m d d' e = elim (Option-cases (push m d.requests)) [
    | inl x ↦ ground arith
    | inr (q, x) ↦ ground (arith, count-push m d.requests q x)
  ]
  offer_message-counts (to_stream id) m d d' e = elim (Option-cases (push_stream id m d.streams)) [
    | inl x ↦ ground arith
    | inr (ss, x) ↦ ground (arith, count-push_stream id m d.streams ss x)
  ]

  release-counts :
      (m : Option Message) (d : Dispatcher)
      → held_by (release_message m d) ≡ held_by d + count_one m
  unfolding release_message
  release-counts none d = omega arith
  release-counts (some m) d = omega (arith, count-snoc d.released m)

  drop_message-counts :
      (m : Message) (d : Dispatcher) → held_by (drop_message m d) ≡ held_by d + count_one (some m)
  unfolding drop_message
  drop_message-counts m d = omega (arith, count-snoc d.released m)

  deliver-counts :
      (to : Destination) (m : Message) (d : Dispatcher)
      → let r = deliver to m d in held_by r.1 + held_back r.0 ≡ held_by d + count_one (some m)
  unfolding deliver
  deliver-counts to m d = elim (Option-cases (offer_message to m d)) [
    | inl x ↦ ground (arith, x, drop_message-counts m d, release-counts (some m) d)
    | inr (d', x) ↦ ground (arith, x, offer_message-counts to m d d' x)
  ]

  respond-counts :
      (hdr : AdvHeader) (m : Option Message) (d : Dispatcher)
      → held_by (respond hdr m d) ≡ held_by d + count_one m
  unfolding respond
  respond-counts hdr m d =
      let r =
        route_response (record { stream_id = hdr.stream_id; message_id = hdr.message_id })
          (is_message m) d.calls in
      elim (Option-cases r.0) [
        | inl x ↦ rw (x, respond) (release-counts m (record d { calls = r.1 }))
        | inr (ch, x) ↦ rw (x, respond) (omega (arith, count_results-snoc d.results ch m))
      ]

  pub route-counts :
      (hdr : AdvHeader) (m : Option Message) (d : Dispatcher)
      → let r = route hdr m d in held_by r.1 + held_back r.0 ≡ held_by d + count_one m
  unfolding route route_request
  route-counts hdr none d = omega (arith, respond-counts hdr none d)
  route-counts hdr (some m) d = elim (Option-cases (lookup_stream m.hdr.stream_id d.streams)) [
    | inl x ↦ ground (
      arith,
      x,
      respond-counts m.hdr (some m) d,
      deliver-counts to_requests m d,
      drop_message-counts m d,
      release-counts (some m) (record d { refused_requests = d.refused_requests + 1 }),
    )
    | inr (s, x) ↦ ground (
      arith,
      x,
      respond-counts m.hdr (some m) d,
      deliver-counts to_requests m d,
      deliver-counts (to_stream m.hdr.stream_id) m d,
      drop_message-counts m d,
      release-counts (some m) (record d { refused_requests = d.refused_requests + 1 }),
    )
  ]

  pub deliver_blocking-counts :
      (w : Wake) (to : Destination) (m : Message) (d d' : Dispatcher)
      → deliver_blocking w to m d ≡ some d'
      → held_by d' ≡ held_by d + count_one (some m)
  unfolding deliver_blocking
  deliver_blocking-counts has_room to m d d' e = offer_message-counts to m d d' e
  deliver_blocking-counts stream_closed to m d d' e = ground (arith, drop_message-counts m d)
  deliver_blocking-counts context_done to m d d' e = ground (arith, release-counts (some m) d)
