-- ===== src/Advanced/Sender/Tests.antt =====
-- A request of five bytes over a ring of slots of two bytes.
use hqq.Common.{
  ℕ, zero, suc, ◌≡◌, inr, false, true, List, [], ◌∷◌, none, some, ◌++◌, refl, ap, arith, replicate,
  length,
}
use hqq.Advanced.Flags.{flag_request, has}
use hqq.Advanced.Assembly.State.{Receiver, find, is_rejected, contains}
use hqq.Advanced.Assembly.Chunk.{Frame, complete, partial}
use hqq.Advanced.Meta.{MsgMeta, put_meta, le_bytes}
use hqq.Advanced.Sender.{
  Outgoing, Ring, send_payload, send_from, payload_frame, chunk_frame, copied, sent,
}
use hqq.Advanced.Sender.Progress.{receive_all}
use hqq.Advanced.Sender.Transfer.{Admits}
use hqq.Advanced.Sender.RoundTrip.{Sends, with_meta, receive_all-send_payload}

abbrev receiver : Receiver
receiver = record {
  negotiated = 0;
  max_message_size = 100;
  max_reassembly_bytes = 1000;
  assemblies = [];
  assembly_bytes = 0;
  chunks = 0;
  chunks_at_sweep = 0;
  rejected = [];
  rejected_order = [];
  rejected_evicted = false;
  dropped_messages = 0;
  reclaimed = [];
}

abbrev pool : ℕ → List ℕ
pool n = replicate n 0

abbrev five_bytes : Outgoing
five_bytes = record {
  connection_id = 4;
  message_id = 9;
  base_flags = flag_request;
  aux = 77;
  prefix = 1 ∷ 2 ∷ 3 ∷ [];
  payload = 4 ∷ 5 ∷ [];
}

abbrev open_ring : Ring ℕ
open_ring = record { stale = λ _. 0 ∷ []; refusal = λ _. none; takes_abort = true }

abbrev frames_of : List Frame
frames_of = (send_from 2 open_ring five_bytes 5 0).0

three_frames :
    (send_payload 100 2 open_ring five_bytes ≡ sent frames_of none) × (length frames_of ≡ 3)
unfolding send_payload send_from payload_frame chunk_frame copied
three_frames = (refl, refl)

pool_sized : (k : ℕ) → length (pool k) ≡ k
pool_sized zero = refl
pool_sized (suc k) = ap suc (pool_sized k)

-- A request with a budget, whose block is in front of its payload.
abbrev budgeted : Outgoing
budgeted = record five_bytes {
  base_flags = 72;
  prefix = 10 ∷ 0 ∷ 1 ∷ 8 ∷ 244 ∷ 1 ∷ 0 ∷ 0 ∷ 0 ∷ 0 ∷ 0 ∷ 0 ∷ [];
}

abbrev with_metadata : Receiver
with_metadata = record receiver { negotiated = 15 }

block_of_500 : put_meta 500 0 (replicate 16 0) ≡ some budgeted.prefix
unfolding put_meta le_bytes
block_of_500 = refl

budgeted-Admits : Admits budgeted 15 with_metadata
unfolding find is_rejected contains
budgeted-Admits = record {
  accepts = record { same_features = refl; short = inr (omega arith) };
  unknown = refl;
  not_rejected = refl;
  room = omega arith;
}

abbrev budget_of_500 : MsgMeta
budget_of_500 = record { has_budget = true; budget = 500; caller = 0; trace = replicate 16 0 }

budgeted-Sends : Sends 15 budgeted (4 ∷ 5 ∷ []) (some budget_of_500)
budgeted-Sends =
    with_meta 500 0 (replicate 16 0) refl (unfold has in refl) (omega arith) (omega arith) refl
      block_of_500 refl refl

receive_all-send_payload_example :
    (frames : List Frame) × (k : ℕ) × (send_payload 100 8 open_ring budgeted ≡ sent frames none)
    × (let received = receive_all pool with_metadata frames in
        (received.1
          ≡ replicate k partial
            ++ (complete (record {
              hdr = record { stream_id = 4; message_id = 9; flags = 75; aux = 77 };
              payload = 4 ∷ 5 ∷ [];
              meta = some budget_of_500;
            })
                ∷ []))
        × (received.0.assembly_bytes ≡ 0))
receive_all-send_payload_example =
    receive_all-send_payload pool 8 open_ring budgeted 15 (4 ∷ 5 ∷ []) (some budget_of_500) 100
      with_metadata budgeted-Sends (omega arith) (omega arith) (λ _. refl) pool_sized
      budgeted-Admits (inr (omega arith))
