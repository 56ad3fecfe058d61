-- ===== src/Advanced/Sender.antt =====
-- The sender of chunked messages (advanced_io.go, `sendAdvancedPayload` and `sendAdvancedChunk`).
pub mod Flagged
pub mod Frames
pub mod Progress
pub mod Delivery
pub mod Transfer
pub mod RoundTrip
mod Tests
use hqq.Common.{
  ℕ, zero, suc, ◌+◌, ◌-◌, ◌%◌, ◌^◌, Bool, true, false, ◌&&◌, Option, some, none, List, [], ◌∷◌,
  ◌++◌, ltb, leb, ◌==◌, if◌then◌else◌, length, take, drop, min, max, bit_or,
}
use hqq.Advanced.Flags.{flag_begin, flag_end, flag_abort}
use hqq.Advanced.Assembly.Chunk.{Frame}

-- The arguments of `sendAdvancedPayload`.
pub record Outgoing : Type 0 where
  pub connection_id : ℕ
  pub message_id : ℕ
  pub base_flags : ℕ
  pub aux : ℕ
  pub prefix : List ℕ
  pub payload : List ℕ

-- The ring, as the sender meets it: what each slot held behind the bytes that are copied into it, and
-- how `EnqueueZeroCopyCancel` ends, by the offset of the chunk; and whether a last frame, which aborts
-- the message, can still be enqueued.
pub record Ring (E : Type 0) : Type 0 where
  pub stale : ℕ → List ℕ
  pub refusal : ℕ → Option E
  pub takes_abort : Bool

abbrev pub total_size : Outgoing → ℕ
total_size m = length m.prefix + length m.payload

-- The two copies of `sendAdvancedChunk` into a slot of `buffer_size` bytes.
unfoldable pub copied : ℕ → List ℕ → List ℕ → List ℕ
copied buffer_size head tail =
    let first = take buffer_size head in first ++ take (buffer_size - length first) tail

-- `sendAdvancedChunk`
unfoldable pub chunk_frame : ℕ → List ℕ → Outgoing → ℕ → ℕ → ℕ → ℕ → List ℕ → List ℕ → Frame
chunk_frame buffer_size stale m total offset flags aux head tail = record {
  connection_id = m.connection_id;
  message_id = m.message_id;
  total_size = total;
  chunk_offset = offset;
  chunk_size = length (copied buffer_size head tail);
  flags = flags;
  aux = aux;
  buffer = copied buffer_size head tail ++ stale;
}

module _ {E : Type 0} (buffer_size : ℕ) (ring : Ring E) (m : Outgoing) where
  -- One round of the loop: the bytes [offset, end) of the prefix and the payload.
  unfoldable pub payload_frame : ℕ → Frame
  payload_frame offset =
      let end = min ((offset + buffer_size) % 2 ^ 64) (total_size m) in
      let first = if offset == 0 then bit_or m.base_flags flag_begin else m.base_flags in
      let flags = if end == total_size m then bit_or first flag_end else first in
      chunk_frame buffer_size (ring.stale offset) m (total_size m) offset flags
        (if offset == 0 then m.aux else 0)
        (if ltb offset (length m.prefix)
          then drop offset (take (min end (length m.prefix)) m.prefix)
          else [])
        (if ltb (length m.prefix) end
          then drop (max offset (length m.prefix) - length m.prefix)
              (take (end - length m.prefix) m.payload)
          else [])

  unfoldable pub abort_frame : Frame
  abort_frame = chunk_frame buffer_size [] m 0 0 (bit_or flag_abort m.base_flags) 0 [] []

  -- The loop from an offset on, for at most `rounds` rounds: the frames in the ring, and the error.
  unfoldable pub send_from : ℕ → ℕ → List Frame × Option E
  send_from zero offset = ([], none)
  send_from (suc rounds) offset =
      let rest = send_from rounds ((offset + buffer_size) % 2 ^ 64) in
      if leb (total_size m) offset then ([], none) else elim (ring.refusal offset) [
        | some e ↦ (if ltb 0 offset && ring.takes_abort then abort_frame ∷ [] else [], some e)
        | none ↦ (payload_frame offset ∷ rest.0, rest.1)
      ]

-- How `sendAdvancedPayload` ends: refused for its size before anything is sent, or the frames in the
-- ring and the error of the ring. The link is attached: `enterTx` is not modelled.
pub data Sent (E : Type 0) : Type 0 where
  too_large : Sent E
  sent : List Frame → Option E → Sent E

-- `sendAdvancedPayload`. A round sends a byte or more, so `total_size` rounds are enough.
unfoldable pub send_payload : {E : Type 0} → ℕ → ℕ → Ring E → Outgoing → Sent E
send_payload max_message_size buffer_size ring m =
    if ltb 0 max_message_size && ltb max_message_size (total_size m)
    then too_large
    else if total_size m == 0
    then elim (ring.refusal 0) [
      | some e ↦ sent [] (some e)
      | none ↦
          sent
            (chunk_frame buffer_size (ring.stale 0) m 0 0
                (bit_or (bit_or flag_begin flag_end) m.base_flags) m.aux [] []
              ∷ [])
            none
    ]
    else let r = send_from buffer_size ring m (total_size m) 0 in sent r.0 r.1
