-- ===== src/Advanced/Streams/Tests.antt =====
-- Two requests that arrive before the link listens.
use hqq.Common.{◌≡◌, inl, inr, [], ◌∷◌, true, false, arith, refl}
use hqq.Advanced.Streams.{
  Streams, overflow_drop, overflow_block, handled, accept_job, has_stream, peer_owns, answer_create,
  enqueue_control, handle_conn_create, listen_streams, expire_held, release_held, release_slot,
}
use hqq.Advanced.Streams.Laws.{
  HasRoom, overflows, handle_conn_create-HasRoom, listen_streams-admits, releases-HasRoom,
}

abbrev waiting : Streams
waiting = record {
  primary = true;
  overflow = overflow_drop;
  queue_size = 3;
  may_hold = true;
  listening = false;
  streams = 4 ∷ [];
  held = 1 ∷ 3 ∷ [];
  accept_slots = 0;
  control = [];
  control_size = 16;
  closing = false;
  dropped_messages = 0;
}

waiting-HasRoom : HasRoom waiting
waiting-HasRoom = record { room = omega arith; none_held = inl refl }

-- A link that listens, with every slot taken, one of which is given back while a request waits.
abbrev no_slot : Streams
no_slot = record waiting {
  overflow = overflow_block;
  listening = true;
  held = [];
  accept_slots = 3;
}

slot_comes_free :
    handle_conn_create 1 false 5 no_slot
    ≡ (handled, record no_slot { streams = 5 ∷ 4 ∷ []; control = accept_job 5 ∷ [] })
unfolding handle_conn_create has_stream peer_owns answer_create enqueue_control
slot_comes_free = refl

handle_conn_create-HasRoom_example : HasRoom (handle_conn_create 1 false 5 no_slot).1
handle_conn_create-HasRoom_example =
    handle_conn_create-HasRoom 1 false 5 no_slot
      (record { room = omega arith; none_held = inr refl })

listen_streams-admits_example :
    HasRoom (listen_streams waiting)
    × (overflows (listen_streams waiting).control ≡ overflows waiting.control)
    × ((listen_streams waiting).held ≡ [])
    × ((listen_streams waiting).listening ≡ true)
listen_streams-admits_example = listen_streams-admits waiting waiting-HasRoom

releases-HasRoom_example :
    HasRoom (expire_held 3 waiting)
    × HasRoom (release_held true waiting)
    × HasRoom (release_slot waiting)
releases-HasRoom_example = releases-HasRoom 3 true waiting waiting-HasRoom
