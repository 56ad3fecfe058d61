-- ===== src/Advanced/Streams/Laws.antt =====
-- Ids of the two endpoints never meet, and the requests in waiting always have room.
use hqq.Common.{
  ℕ, suc, ◌+◌, ◌-◌, ◌<◌, ◌≤◌, ◌≡◌, ◌⊎◌, Bool, true, false, not, List, [], ◌∷◌, ◌++◌, length,
  length-append, arith,
}
use hqq.Advanced.Streams.{
  Refusal, buffer_overflow, invalid_op, conn_not_found, Streams, Job, refuse_job, accept_job,
  connection_id, peer_owns, delete_stream, enqueue_control, refuse_stream, release_slot, forget,
  answer_create, hold_create, handle_conn_create, admit_create, admit_all, listen_streams,
  expire_held, release_all, release_held,
}

-- An id that an endpoint allocates is one that its peer accepts, and none that it would accept
-- itself; 0, the id of no stream, is accepted by neither.
pub peer_owns-connection_id :
    (primary : Bool) (n : ℕ)
    → 1 ≤ connection_id primary n
    → (peer_owns (not primary) (connection_id primary n) ≡ true)
      × (peer_owns primary (connection_id primary n) ≡ false)
      × (peer_owns primary 0 ≡ false)
unfolding peer_owns connection_id
peer_owns-connection_id true n h = ground arith
peer_owns-connection_id false n h = ground arith

-- The held requests and the accept slots taken are within the size of the incoming queue, and while
-- the link listens nothing is held.
pub record HasRoom (s : Streams) : Type 0 where
  pub room : length s.held + s.accept_slots ≤ s.queue_size
  pub none_held : (s.listening ≡ false) ⊎ (s.held ≡ [])

refuse_stream-fields :
    (id : ℕ) (code : Refusal) (s : Streams)
    → ((refuse_stream id code s).held ≡ s.held)
      × ((refuse_stream id code s).accept_slots ≡ s.accept_slots)
      × ((refuse_stream id code s).queue_size ≡ s.queue_size)
      × ((refuse_stream id code s).listening ≡ s.listening)
unfolding refuse_stream enqueue_control
refuse_stream-fields id code s = ground arith

answer_create-fields :
    (id : ℕ) (s : Streams)
    → ((answer_create id s).held ≡ s.held)
      × ((answer_create id s).accept_slots ≤ s.accept_slots)
      × ((answer_create id s).queue_size ≡ s.queue_size)
      × ((answer_create id s).listening ≡ s.listening)
unfolding answer_create enqueue_control release_slot forget
answer_create-fields id s = ground arith

admit_create-fields :
    (id : ℕ) (s : Streams)
    → ((admit_create id s).held ≡ s.held)
      × ((admit_create id s).accept_slots ≤ s.accept_slots + 1)
      × ((admit_create id s).queue_size ≡ s.queue_size)
      × ((admit_create id s).listening ≡ s.listening)
unfolding admit_create
admit_create-fields id s = ground (
  arith,
  refuse_stream-fields id invalid_op s,
  refuse_stream-fields id buffer_overflow (record s { dropped_messages = s.dropped_messages + 1 }),
  answer_create-fields id
      (record s { streams = id ∷ s.streams; accept_slots = s.accept_slots + 1 }),
)

-- How many refusals for lack of room are queued.
abbrev pub overflows : List Job → ℕ
overflows [] = 0
overflows (accept_job id ∷ jobs) = overflows jobs
overflows (refuse_job id invalid_op ∷ jobs) = overflows jobs
overflows (refuse_job id buffer_overflow ∷ jobs) = suc (overflows jobs)
overflows (refuse_job id conn_not_found ∷ jobs) = overflows jobs

overflows-append :
    (jobs : List Job) (j : Job) → overflows (jobs ++ (j ∷ [])) ≡ overflows jobs + overflows (j ∷ [])
overflows-append [] j = omega arith
overflows-append (accept_job id ∷ jobs) j = overflows-append jobs j
overflows-append (refuse_job id invalid_op ∷ jobs) j = overflows-append jobs j
overflows-append (refuse_job id buffer_overflow ∷ jobs) j = omega (arith, overflows-append jobs j)
overflows-append (refuse_job id conn_not_found ∷ jobs) j = overflows-append jobs j

-- With a free slot a held request is not refused for lack of room.
admit_create-overflows :
    (id : ℕ) (s : Streams)
    → s.accept_slots < s.queue_size
    → overflows (admit_create id s).control ≡ overflows s.control
unfolding admit_create answer_create refuse_stream enqueue_control release_slot forget
admit_create-overflows id s h = ground (
  arith,
  overflows-append s.control (accept_job id),
  overflows-append s.control (refuse_job id invalid_op),
)

admit_all-fields :
    (ids : List ℕ) (s : Streams)
    → length ids + s.accept_slots ≤ s.queue_size
    → ((admit_all ids s).held ≡ s.held)
      × ((admit_all ids s).accept_slots ≤ length ids + s.accept_slots)
      × ((admit_all ids s).queue_size ≡ s.queue_size)
      × ((admit_all ids s).listening ≡ s.listening)
      × (overflows (admit_all ids s).control ≡ overflows s.control)
unfolding admit_all
admit_all-fields [] s h = ground arith
admit_all-fields (id ∷ ids) s h =
    let here = admit_create-fields id s in
    let kept : overflows (admit_create id s).control ≡ overflows s.control =
      admit_create-overflows id s (omega arith) in
    let rest = admit_all-fields ids (admit_create id s) (omega (arith, here)) in
    ground (arith, here, kept, rest)

-- While the bound holds, `ListenStreams` finds room for every held request: none of them is refused
-- for lack of room, the bound holds afterwards, and nothing is held.
pub listen_streams-admits :
    (s : Streams)
    → HasRoom s
    → HasRoom (listen_streams s)
      × (overflows (listen_streams s).control ≡ overflows s.control)
      × ((listen_streams s).held ≡ [])
      × ((listen_streams s).listening ≡ true)
unfolding listen_streams
listen_streams-admits s v =
    let t : Streams = record s { listening = true; held = [] } in
    ground (arith, v, v.room, v.none_held, admit_all-fields s.held t v.room)

-- Whatever request to open a stream arrives, the held requests and the accept slots taken stay within
-- the size of the incoming queue, and while the link listens nothing is held: under every overflow
-- policy, and where the request waits for a slot, however many are given back and however it ends.
pub handle_conn_create-HasRoom :
    (released : ℕ) (ended : Bool) (id : ℕ) (s : Streams)
    → HasRoom s
    → HasRoom (handle_conn_create released ended id s).1
unfolding handle_conn_create hold_create forget
handle_conn_create-HasRoom released ended id s v =
    let t : Streams = record s { streams = id ∷ s.streams } in
    ground (
      arith,
      v.room,
      v.none_held,
      length-append s.held (id ∷ []),
      refuse_stream-fields id conn_not_found s,
      refuse_stream-fields id invalid_op s,
      refuse_stream-fields id buffer_overflow
          (record (forget id t) { dropped_messages = s.dropped_messages + 1 }),
      answer_create-fields id (record t { accept_slots = s.accept_slots + 1 }),
      answer_create-fields id (record t { accept_slots = s.accept_slots - released + 1 }),
    )

length-delete_stream : (id : ℕ) (js : List ℕ) → length (delete_stream id js) ≤ length js
unfolding delete_stream
length-delete_stream id [] = omega arith
length-delete_stream id (j ∷ js) = ground (arith, length-delete_stream id js)

release_all-fields :
    (refuse : Bool) (ids : List ℕ) (s : Streams)
    → ((release_all refuse ids s).accept_slots ≡ s.accept_slots)
      × ((release_all refuse ids s).queue_size ≡ s.queue_size)
unfolding release_all
release_all-fields refuse [] s = ground arith
release_all-fields true (id ∷ ids) s = ground (
  arith,
  refuse_stream-fields id conn_not_found s,
  release_all-fields true ids (refuse_stream id conn_not_found s),
)
release_all-fields false (id ∷ ids) s =
    ground
      (arith, release_all-fields false ids (record s { dropped_messages = s.dropped_messages + 1 }))

-- The end of a grace period, the end of all holds, and the release of a slot keep the bound too.
pub releases-HasRoom :
    (id : ℕ) (refuse : Bool) (s : Streams)
    → HasRoom s
    → HasRoom (expire_held id s) × HasRoom (release_held refuse s) × HasRoom (release_slot s)
unfolding expire_held release_held release_slot delete_stream
releases-HasRoom id refuse s v = ground (
  arith,
  v.room,
  v.none_held,
  length-delete_stream id s.held,
  refuse_stream-fields id conn_not_found (record s { held = delete_stream id s.held }),
  release_all-fields refuse s.held s,
)
