-- ===== src/Advanced/Dispatch.antt =====
-- The routes of received messages (advanced_dispatch.go, and routeRequest of advanced_request.go).
pub mod Loop
pub mod Counts
pub mod Laws
mod Tests
use hqq.Common.{
  ℕ, ◌+◌, Bool, true, false, not, ◌&&◌, ◌||◌, Option, some, none, List, [], ◌∷◌, ◌++◌, ltb, ◌==◌,
  if◌then◌else◌, length,
}
use hqq.Advanced.Flags.{AdvHeader, is_request, is_response}
use hqq.Advanced.Assembly.Chunk.{Message}
use hqq.Advanced.Calls.{Calls, CallKey, route_response}
use hqq.Advanced.Streams.{Overflow, overflow_block, overflow_drop, overflow_fail}

-- A channel of messages: `cap` and what is buffered, the oldest first.
pub record Queue : Type 0 where
  pub capacity : ℕ
  pub items : List Message

-- A `Stream`, as far as messages are routed to it; `is_open` is that its state is 0.
pub record Stream : Type 0 where
  pub id : ℕ
  pub is_open : Bool
  pub queue : Queue

-- The fields of `AdvancedLink` that routes read and write. `results` is what was sent on the channels of
-- calls, none for an error; `taken` is what `Serve` and `Recv` took from the queues; `released` is what
-- went back to the pool; `streams` begins with stream 0.
pub record Dispatcher : Type 0 where
  pub overflow : Overflow
  pub shutting_down : Bool
  pub calls : Calls
  pub requests : Queue
  pub streams : List Stream
  pub results : List (ℕ × Option Message)
  pub taken : List Message
  pub released : List Message
  pub refused_requests : ℕ

-- The destination of a message: the requests, or a stream
pub data Destination : Type 0 where
  to_requests : Destination
  to_stream : ℕ → Destination

-- What `route` returns: nil, a `stalledDelivery`, or `ErrIncomingOverflow`.
pub data Routed : Type 0 where
  routed : Routed
  stalled : Message → Destination → Routed
  incoming_overflow : Routed

-- `Release`; of nil it does nothing
unfoldable pub release_message : Option Message → Dispatcher → Dispatcher
release_message none d = d
release_message (some m) d = record d { released = d.released ++ (m ∷ []) }

-- `dropMessage`
unfoldable pub drop_message : Message → Dispatcher → Dispatcher
unfolding release_message
drop_message m d =
    release_message (some m)
      (record d { calls = record d.calls { dropped_messages = d.calls.dropped_messages + 1 } })

-- `lookupStream`
unfoldable pub lookup_stream : ℕ → List Stream → Option Stream
lookup_stream id [] = none
lookup_stream id (s ∷ rest) = if s.id == id then some s else lookup_stream id rest

-- `q <- m`, where the buffer has room
unfoldable pub push : Message → Queue → Option Queue
push m q =
    if ltb (length q.items) q.capacity
    then some (record q { items = q.items ++ (m ∷ []) })
    else none

unfoldable pub push_stream : ℕ → Message → List Stream → Option (List Stream)
push_stream id m [] = none
push_stream id m (s ∷ rest) =
    if s.id == id
    then elim (push m s.queue) [ none ↦ none | some q ↦ some (record s { queue = q } ∷ rest) ]
    else elim (push_stream id m rest) [ none ↦ none | some rest' ↦ some (s ∷ rest') ]

unfoldable pub offer_message : Destination → Message → Dispatcher → Option Dispatcher
offer_message to_requests m d = elim (push m d.requests) [
  | none ↦ none
  | some q ↦ some (record d { requests = q })
]
offer_message (to_stream id) m d = elim (push_stream id m d.streams) [
  | none ↦ none
  | some ss ↦ some (record d { streams = ss })
]

-- How `deliverBlocking` goes on waiting: its context ends, its stream is closed, or there is room.
pub data Wake : Type 0 where
  has_room stream_closed context_done : Wake

-- `done` of the stream that owns the queue; that of the requests is nil, which is never ready.
unfoldable pub is_done : Destination → Dispatcher → Bool
is_done to_requests d = false
is_done (to_stream id) d = elim (lookup_stream id d.streams) [
  | none ↦ false
  | some s ↦ not s.is_open
]

-- `deliverBlocking`, from the case that its select takes; none if that case is not ready.
unfoldable pub deliver_blocking : Wake → Destination → Message → Dispatcher → Option Dispatcher
unfolding is_done
deliver_blocking has_room to m d = offer_message to m d
deliver_blocking stream_closed to m d = if is_done to d then some (drop_message m d) else none
deliver_blocking context_done to m d = some (release_message (some m) d)

-- `deliver`; where the caller may wait, the message stays with it until `deliver_blocking` is done.
unfoldable pub deliver : Destination → Message → Dispatcher → Routed × Dispatcher
unfolding drop_message release_message
deliver to m d = elim (offer_message to m d) [
  | some d' ↦ (routed, d')
  | none ↦ elim d.overflow [
    | overflow_drop ↦ (routed, drop_message m d)
    | overflow_fail ↦ (incoming_overflow, release_message (some m) d)
    | overflow_block ↦ (stalled m to, d)
  ]
]

abbrev pub is_message : Option Message → Bool
is_message none = false
is_message (some m) = true

-- `routeResponse`
unfoldable pub respond : AdvHeader → Option Message → Dispatcher → Dispatcher
unfolding release_message
respond hdr m d =
    let (waiting, calls) =
      route_response (record { stream_id = hdr.stream_id; message_id = hdr.message_id })
        (is_message m) d.calls in
    elim waiting [
      | some ch ↦ record d { calls = calls; results = d.results ++ ((ch, m) ∷ []) }
      | none ↦ release_message m (record d { calls = calls })
    ]

-- `routeRequest`, without the context of the request and the refusal that is sent to the peer
unfoldable pub route_request : Message → Dispatcher → Routed × Dispatcher
unfolding release_message
route_request m d =
    if d.shutting_down
    then (routed, release_message (some m) (record d { refused_requests = d.refused_requests + 1 }))
    else deliver to_requests m d

-- `route`; none is a response that was aborted or refused
unfoldable pub route : AdvHeader → Option Message → Dispatcher → Routed × Dispatcher
unfolding respond route_request drop_message
route hdr none d = (routed, respond hdr none d)
route hdr (some m) d =
    if is_response m.hdr
    then (routed, respond m.hdr (some m) d)
    else if is_request m.hdr
    then route_request m d
    else elim (lookup_stream m.hdr.stream_id d.streams) [
      | none ↦ (routed, drop_message m d)
      | some s ↦
          if s.is_open then deliver (to_stream m.hdr.stream_id) m d else (routed, drop_message m d)
    ]
