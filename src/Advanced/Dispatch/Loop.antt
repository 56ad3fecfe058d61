-- ===== src/Advanced/Dispatch/Loop.antt =====
-- A round of `dispatchLoop` (advanced_dispatch.go), with what the others do to the queues while it waits:
-- `Recv` and `Serve` take messages (`receiveQueued` of advanced_io.go), and streams close (stream.go).
use hqq.Common.{ℕ, false, Option, some, none, List, [], ◌∷◌, ◌++◌, ◌==◌, if◌then◌else◌}
use hqq.Advanced.Flags.{AdvHeader}
use hqq.Advanced.Assembly.Chunk.{Message}
use hqq.Advanced.Dispatch.{
  Queue, Stream, Dispatcher, Destination, to_requests, to_stream, routed, stalled,
  incoming_overflow, Wake, deliver_blocking, route,
}

-- `m := <-q`, where there is a message
unfoldable pub pop : Queue → Option (Message × Queue)
pop q = elim q.items [ [] ↦ none | m ∷ rest ↦ some (m, record q { items = rest }) ]

unfoldable pub pop_stream : ℕ → List Stream → Option (Message × List Stream)
pop_stream id [] = none
pop_stream id (s ∷ rest) =
    if s.id == id
    then elim (pop s.queue) [ none ↦ none | some (m, q) ↦ some (m, record s { queue = q } ∷ rest) ]
    else elim (pop_stream id rest) [ none ↦ none | some (m, rest') ↦ some (m, s ∷ rest') ]

-- `receiveQueued` for the requests (`Serve`) or for a stream (`Recv`): a message that is queued is
-- taken; without one it waits, which changes nothing.
unfoldable pub receive_queued : Destination → Dispatcher → Dispatcher
receive_queued to_requests d = elim (pop d.requests) [
  | none ↦ d
  | some (m, q) ↦ record d { requests = q; taken = d.taken ++ (m ∷ []) }
]
receive_queued (to_stream id) d = elim (pop_stream id d.streams) [
  | none ↦ d
  | some (m, ss) ↦ record d { streams = ss; taken = d.taken ++ (m ∷ []) }
]

-- `markClosed`
unfoldable pub mark_closed : ℕ → List Stream → List Stream
mark_closed id [] = []
mark_closed id (s ∷ rest) =
    let rest' = mark_closed id rest in
    if s.id == id then record s { is_open = false } ∷ rest else s ∷ rest'

-- `drain`: what was queued on the stream, and the streams without it
unfoldable pub drain : ℕ → List Stream → List Message × List Stream
drain id [] = ([], [])
drain id (s ∷ rest) =
    let (released, rest') = drain id rest in
    if s.id == id
    then (s.queue.items, record s { queue = record s.queue { items = [] } } ∷ rest)
    else (released, s ∷ rest')

-- What another goroutine does to the queues.
pub data QueueEvent : Type 0 where
  takes : Destination → QueueEvent
  closes : ℕ → QueueEvent
  drains : ℕ → QueueEvent

unfoldable pub happen : QueueEvent → Dispatcher → Dispatcher
unfolding receive_queued
happen (takes to) d = receive_queued to d
happen (closes id) d = record d { streams = mark_closed id d.streams }
happen (drains id) d =
    let (released, ss) = drain id d.streams in
    record d { streams = ss; released = d.released ++ released }

unfoldable pub meanwhile : List QueueEvent → Dispatcher → Dispatcher
meanwhile [] d = d
meanwhile (e ∷ es) d = meanwhile es (happen e d)

-- A round of `dispatchLoop` behind the receive: the route, and the wait that it may end in. The others
-- do `events` during the wait, and then the case `wake` of its select is taken; none if that case is
-- not ready then.
unfoldable pub dispatch_one :
    List QueueEvent → Wake → AdvHeader → Option Message → Dispatcher → Option Dispatcher
dispatch_one events wake hdr m d =
    let (how, d') = route hdr m d in
    elim how [
      | routed ↦ some d'
      | incoming_overflow ↦ some d'
      | stalled n to ↦ deliver_blocking wake to n (meanwhile events d')
    ]
