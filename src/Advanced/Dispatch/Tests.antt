-- ===== src/Advanced/Dispatch/Tests.antt =====
-- A second message for a stream whose queue has one place.
use hqq.Common.{◌+◌, ◌≡◌, Bool, true, false, some, none, [], ◌∷◌, refl, ◌==◌}
use hqq.Advanced.Flags.{is_request, is_response, has}
use hqq.Advanced.Assembly.Chunk.{Message}
use hqq.Advanced.Streams.{overflow_block}
use hqq.Advanced.Dispatch.{
  Dispatcher, to_stream, has_room, context_done, route, lookup_stream, deliver, offer_message,
  push_stream, push, deliver_blocking, release_message,
}
use hqq.Advanced.Dispatch.Loop.{
  dispatch_one, takes, meanwhile, happen, receive_queued, pop, pop_stream,
}
use hqq.Advanced.Dispatch.Counts.{held_by, count_one}
use hqq.Advanced.Dispatch.Laws.{dispatch_one-conserves}

abbrev second : Message
second = record {
  hdr = record { stream_id = 0; message_id = 2; flags = 3; aux = 0 };
  payload = 7 ∷ [];
  meta = none;
}

abbrev first : Message
first = record second { payload = 6 ∷ [] }

abbrev full : Dispatcher
full = record {
  overflow = overflow_block;
  shutting_down = false;
  calls = record {
    pending = [];
    abandoned = [];
    abandoned_order = [];
    abandoned_responses = 0;
    dropped_messages = 0;
  };
  requests = record { capacity = 1; items = [] };
  streams =
      record { id = 0; is_open = true; queue = record { capacity = 1; items = first ∷ [] } } ∷ [];
  results = [];
  taken = [];
  released = [];
  refused_requests = 0;
}

abbrev released : Dispatcher
released = record full { released = second ∷ [] }

waits_then_released : dispatch_one [] context_done second.hdr (some second) full ≡ some released
unfolding dispatch_one meanwhile route lookup_stream deliver offer_message push_stream push
    deliver_blocking release_message is_request is_response has
waits_then_released = refl

-- Without an event the queue stays full.
no_room_yet : dispatch_one [] has_room second.hdr (some second) full ≡ none
unfolding dispatch_one meanwhile route lookup_stream deliver offer_message push_stream push
    deliver_blocking is_request is_response has
no_room_yet = refl

-- `Recv` takes the first message, and there is room for the second.
abbrev taken : Dispatcher
taken = record full {
  streams =
      record { id = 0; is_open = true; queue = record { capacity = 1; items = second ∷ [] } } ∷ [];
  taken = first ∷ [];
}

waits_for_room :
    dispatch_one (takes (to_stream 0) ∷ []) has_room second.hdr (some second) full ≡ some taken
unfolding dispatch_one meanwhile happen receive_queued pop_stream pop route lookup_stream deliver
    offer_message push_stream push deliver_blocking is_request is_response has
waits_for_room = refl

abbrev seven : Message → Bool
seven m = elim m.payload [ [] ↦ false | b ∷ rest ↦ b == 7 ]

dispatch_one-conserves_example :
    held_by seven taken ≡ held_by seven full + count_one seven (some second)
dispatch_one-conserves_example =
    dispatch_one-conserves seven (takes (to_stream 0) ∷ []) has_room second.hdr (some second) full
      taken waits_for_room
