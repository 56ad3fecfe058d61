-- ===== src/Advanced/Calls/Tests.antt =====
-- A call that is answered, one that is abandoned, and the theorems at them.
use hqq.Common.{◌≡◌, ◌≤◌, [], ◌∷◌, arith, length, true}
use hqq.Common.Counts.{count, take_out}
use hqq.Advanced.Calls.{
  CallKey, same_call, find_call, delete_call, insert_call, register, route_response, is_registered,
  abandon_call, remember, has_call, evict_oldest,
}
use hqq.Advanced.Calls.Steps.{
  Channels, Reach, start, later, call_fresh, route, send, receive, abandon, count_calls,
}
use hqq.Advanced.Calls.Laws.{send_never_blocks}
use hqq.Advanced.Calls.Abandoned.{abandoned_bounded}

abbrev first : CallKey
first = record { stream_id = 0; message_id = 1 }

abbrev second : CallKey
second = record { stream_id = 0; message_id = 3 }

-- The first call is about to be answered on channel 0; the second waits on channel 1.
abbrev answering : Channels
answering = record {
  calls = record {
    pending = (second, 1) ∷ [];
    abandoned = [];
    abandoned_order = [];
    abandoned_responses = 0;
    dropped_messages = 0;
  };
  sending = 0 ∷ [];
  filled = [];
  pool = [];
  fresh = 2;
}

answering-reached : Reach answering
unfolding register route_response insert_call find_call delete_call same_call
answering-reached =
    later (later (later start (call_fresh first)) (call_fresh second)) (route first true)

-- The second call gave up, and the first has its answer.
abbrev answered_state : Channels
answered_state = record {
  calls = record {
    pending = [];
    abandoned = second ∷ [];
    abandoned_order = second ∷ [];
    abandoned_responses = 0;
    dropped_messages = 0;
  };
  sending = [];
  filled = [];
  pool = 0 ∷ [];
  fresh = 2;
}

answered-reached : Reach answered_state
unfolding abandon_call is_registered remember find_call delete_call same_call has_call evict_oldest
    count take_out
answered-reached =
    later (later (later answering-reached (send 0 (omega arith))) (receive 0 (omega arith)))
      (abandon second 1)

send_never_blocks_example :
    (count 0 answering.filled ≡ 0)
    × (count_calls 0 answering.calls.pending ≡ 0)
    × (count 0 answering.pool ≡ 0)
    × (count 0 answering.sending ≡ 1)
send_never_blocks_example = send_never_blocks 0 answering-reached (unfold count in omega arith)

abandoned_bounded_example :
    (length answered_state.calls.abandoned ≤ 4096)
    × (length answered_state.calls.abandoned_order ≤ 4096)
abandoned_bounded_example = abandoned_bounded answered-reached
