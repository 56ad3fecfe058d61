-- ===== src/Advanced/Sender/RoundTrip.antt =====
-- A message from `sendAdvancedPayload` to the `Message` of the receiver (advanced_io.go).
use hqq.Common.{
  ℕ, ◌+◌, ◌-◌, ◌^◌, ◌<◌, ◌≤◌, ◌≡◌, ◌≢◌, ◌⊎◌, true, false, Option, some, none, List, [], ◌∷◌, ◌++◌,
  length, replicate, ltb, bit_or, arith, refl, ap, ◌∙◌, drop,
}
use hqq.Common.Slices.{drop-append, drop-all}
use hqq.Advanced.Flags.{has, flag_meta, flag_begin, flag_end, feature_metadata}
use hqq.Advanced.Meta.{MsgMeta, put_meta}
use hqq.Advanced.Meta.RoundTrip.{parse_meta-put_meta}
use hqq.Advanced.Assembly.State.{Receiver}
use hqq.Advanced.Assembly.Chunk.{Frame, Message, complete, partial, finish}
use hqq.Advanced.Sender.{Outgoing, Ring, total_size, send_payload, sent}
use hqq.Advanced.Sender.Flagged.{IsBase, is_data, is_request, is_response, is_error, is_meta}
use hqq.Advanced.Sender.Frames.{whole}
use hqq.Advanced.Sender.Progress.{receive_all, final_header}
use hqq.Advanced.Sender.Transfer.{Admits, send_payload-Delivers}

-- What is sent, and what of it the receiver is to get as payload and as metadata: a message without
-- metadata is its prefix and its payload; a request with metadata has the block of `putMeta` as prefix.
pub data Sends (negotiated : ℕ) (m : Outgoing) (payload : List ℕ) (meta : Option MsgMeta)
    : Type 0 where
  plain :
      IsBase negotiated m.base_flags
      → m.base_flags ≢ 72
      → payload ≡ m.prefix ++ m.payload
      → meta ≡ none
      → Sends negotiated m payload meta
  with_meta :
      (budget caller : ℕ) (trace : List ℕ)
      → m.base_flags ≡ 72
      → has negotiated feature_metadata ≡ true
      → budget < 2 ^ 63
      → caller < 2 ^ 64
      → length trace ≡ 16
      → put_meta budget caller trace ≡ some m.prefix
      → payload ≡ m.payload
      → meta
        ≡ some
            (record { has_budget = ltb 0 budget; budget = budget; caller = caller; trace = trace })
      → Sends negotiated m payload meta

Sends-IsBase :
    (negotiated : ℕ) (m : Outgoing) (payload : List ℕ) (meta : Option MsgMeta)
    → Sends negotiated m payload meta
    → IsBase negotiated m.base_flags
Sends-IsBase negotiated m payload meta (plain base other p q) = base
Sends-IsBase negotiated m payload meta (with_meta b c t flags known x y z e p q) =
    is_meta flags known

no_block :
    (negotiated base : ℕ)
    → IsBase negotiated base
    → base ≢ 72
    → has (bit_or base (bit_or flag_begin flag_end)) flag_meta ≡ false
unfolding has
no_block negotiated base (is_data e) other = rw e refl
no_block negotiated base (is_request e) other = rw e refl
no_block negotiated base (is_response e) other = rw e refl
no_block negotiated base (is_error e) other = rw e refl
no_block negotiated base (is_meta e h) other = absurd (other e)

behind : (xs ys : List ℕ) → drop (length xs) (xs ++ ys) ≡ ys
behind xs ys =
    drop-append (length xs) xs ys
    ∙ ap (λ t. t ++ drop (length xs - length xs) ys) (drop-all (length xs) xs (omega arith))
    ∙ ap (λ k. drop k ys) {x = length xs - length xs} {y = 0} (omega arith)

-- The message at the receiver, whose flags are the base flags and the lowest two bits.
abbrev pub arrived : Outgoing → List ℕ → Option MsgMeta → Message
arrived m payload meta = record {
  hdr = record {
    stream_id = m.connection_id;
    message_id = m.message_id;
    flags = bit_or m.base_flags 3;
    aux = m.aux;
  };
  payload = payload;
  meta = meta;
}

finish-arrived :
    (negotiated : ℕ) (m : Outgoing) (payload : List ℕ) (meta : Option MsgMeta)
    → Sends negotiated m payload meta
    → finish (final_header m) (whole m) ≡ complete (arrived m payload meta)
unfolding finish
finish-arrived negotiated m payload meta (plain base other p q) =
    rw (no_block negotiated m.base_flags base other, p, q) refl
finish-arrived negotiated m payload meta (with_meta b c t flags known x y z e p q) =
    let read = parse_meta-put_meta b c t m.prefix m.payload x y z e in
    let block : has (bit_or m.base_flags (bit_or flag_begin flag_end)) flag_meta ≡ true =
      unfold has in rw flags refl in
    rw (block, read, behind m.prefix m.payload, p, q) refl

-- Where the ring takes every chunk, a message that the sender's bound allows is sent; the receiver,
-- given the frames in this order, returns nothing before the last of them, and then the message with
-- its connection and id, its aux, its base flags and the flags of a beginning and an end. A message
-- without metadata (data, a request, a response or an error response) has the bytes of the prefix and
-- the payload. A request with metadata, where that is negotiated, has the bytes of the payload alone,
-- and the budget, caller and trace with which `putMeta` wrote the prefix. What the message took of the
-- receiver's account is given back. The message and a slot together have less than 2^63 bytes, and a
-- slot has one at least. The receiver has the sender's features, its bound on messages allows the
-- message, its account has room for it, and it knows no message of the same key.
pub receive_all-send_payload :
    {E : Type 0} (pool : ℕ → List ℕ) (buffer_size : ℕ) (ring : Ring E) (m : Outgoing)
    (negotiated : ℕ) (payload : List ℕ) (meta : Option MsgMeta) (max_message_size : ℕ)
    (l : Receiver)
    → Sends negotiated m payload meta
    → 1 ≤ buffer_size
    → total_size m + buffer_size < 2 ^ 63
    → ((o : ℕ) → ring.refusal o ≡ none)
    → ((k : ℕ) → length (pool k) ≡ k)
    → Admits m negotiated l
    → (max_message_size ≡ 0) ⊎ (total_size m ≤ max_message_size)
    → (frames : List Frame) × (k : ℕ) × (send_payload max_message_size buffer_size ring m
        ≡ sent frames none)
      × (let received = receive_all pool l frames in
          (received.1 ≡ replicate k partial ++ (complete (arrived m payload meta) ∷ []))
          × (received.0.assembly_bytes ≡ l.assembly_bytes))
receive_all-send_payload pool size ring m negotiated payload meta max_size l what some_room
      addressable willing sized admits allowed =
    let base = Sends-IsBase negotiated m payload meta what in
    let (frames, is_sent, ((k, outcomes), account)) =
      send_payload-Delivers pool size ring m negotiated base some_room addressable willing sized
        max_size l admits allowed in
    let whole_message = finish-arrived negotiated m payload meta what in
    (
      frames,
      k,
      is_sent,
      (outcomes ∙ ap (λ x. replicate k partial ++ (x ∷ [])) whole_message, account),
    )
