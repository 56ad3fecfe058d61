-- ===== src/Advanced/Sender/Frames.antt =====
-- What a frame of `sendAdvancedPayload` holds.
use hqq.Common.{
  ℕ, ◌+◌, ◌-◌, ◌%◌, ◌^◌, ◌<◌, ◌≤◌, ◌≡◌, Bool, List, [], ◌++◌, ltb, ◌==◌, if◌then◌else◌, length,
  take, drop, min, max, bit_or, bit_and, arith, refl, sym, ap, ◌∙◌, length-take, length-drop,
  length-append,
}
use hqq.Common.Slices.{slice-append, take-all, take_left}
use hqq.Advanced.Flags.{flag_request, flag_response}
use hqq.Advanced.Assembly.State.{MessageKey}
use hqq.Advanced.Assembly.Chunk.{Frame, frame_key}
use hqq.Advanced.Sender.{Outgoing, Ring, total_size, copied, chunk_frame, payload_frame}
use hqq.Advanced.Sender.Flagged.{IsBase, IsBase-Tested, Tested, flags_of}

-- The bytes of the message, and its key at the receiver.
abbrev pub whole : Outgoing → List ℕ
whole m = m.prefix ++ m.payload

abbrev pub key_of : Outgoing → MessageKey
key_of m = record {
  connection_id = m.connection_id;
  message_id = m.message_id;
  kind = bit_and m.base_flags (bit_or flag_request flag_response);
}

-- `f` carries the `n` bytes from `o` on, and the flags of its place.
pub record IsChunk (m : Outgoing) (negotiated : ℕ) (f : Frame) (o n : ℕ) (first last : Bool)
    : Type 0 where
  pub key : frame_key f ≡ key_of m
  pub connection : f.connection_id ≡ m.connection_id
  pub message : f.message_id ≡ m.message_id
  pub total : f.total_size ≡ total_size m
  pub offset : f.chunk_offset ≡ o
  pub size : f.chunk_size ≡ n
  pub content : take n f.buffer ≡ drop o (take (o + n) (whole m))
  pub long : n ≤ length f.buffer
  pub flags : f.flags ≡ flags_of m.base_flags first last
  pub tested : Tested negotiated m.base_flags first last
  pub aux : f.aux ≡ (if first then m.aux else 0)

-- Copies that fit lose nothing.
pub copied_lem :
    (buffer_size : ℕ) (head tail : List ℕ)
    → length head + length tail ≤ buffer_size
    → copied buffer_size head tail ≡ head ++ tail
unfolding copied
copied_lem buffer_size head tail h =
    let e : take buffer_size head ≡ head = take-all buffer_size head (omega arith) in
    let t : take (buffer_size - length (take buffer_size head)) tail ≡ tail =
      take-all (buffer_size - length (take buffer_size head)) tail (omega (arith, ap length e)) in
    rw (t, e)

length-slice : (o e : ℕ) (xs : List ℕ) → e ≤ length xs → length (drop o (take e xs)) ≡ e - o
length-slice o e xs h = omega (arith, length-drop o (take e xs), length-take e xs)

module _ {E : Type 0} (buffer_size negotiated : ℕ) (ring : Ring E) (m : Outgoing) where
  pub payload_frame-IsChunk :
      (o : ℕ) (first last : Bool)
      → IsBase negotiated m.base_flags
      → 1 ≤ buffer_size
      → o < total_size m
      → o + buffer_size < 2 ^ 64
      → (o == 0) ≡ first
      → (min (o + buffer_size) (total_size m) == total_size m) ≡ last
      → IsChunk m negotiated
          (payload_frame buffer_size ring m o)
          o
          (min (o + buffer_size) (total_size m) - o)
          first
          last
  unfolding payload_frame chunk_frame
  payload_frame-IsChunk o first last b some_room more fits at_start at_end =
      let end = min (o + buffer_size) (total_size m) in
      let wrap : (o + buffer_size) % 2 ^ 64 ≡ o + buffer_size = omega arith in
      let head =
        (if ltb o (length m.prefix)
          then drop o (take (min end (length m.prefix)) m.prefix)
          else []) in
      let tail =
        (if ltb (length m.prefix) end
          then drop (max o (length m.prefix) - length m.prefix)
              (take (end - length m.prefix) m.payload)
          else []) in
      let parts : drop o (take end (whole m)) ≡ head ++ tail =
        slice-append o end m.prefix m.payload (omega arith) in
      let n : length (head ++ tail) ≡ end - o =
        ap length (sym parts)
        ∙ length-slice o end (whole m) (omega (arith, length-append m.prefix m.payload)) in
      let c : copied buffer_size head tail ≡ head ++ tail =
        copied_lem buffer_size head tail (omega (arith, n, length-append head tail)) in
      let t = IsBase-Tested negotiated m.base_flags (o == 0) (end == total_size m) b in
      rw (wrap, c, ← at_start, ← at_end)
        (record {
          key =
              ap
                (λ k.
                  let q : MessageKey = record {
                    connection_id = m.connection_id;
                    message_id = m.message_id;
                    kind = k;
                  } in
                  q)
                t.kind;
          connection = refl;
          message = refl;
          total = refl;
          offset = refl;
          size = n;
          content =
              take_left (end - o) (head ++ tail) (ring.stale o) n
              ∙ sym parts
              ∙ ap (λ k. drop o (take k (whole m)))
                  (let e : end ≡ o + (end - o) = omega arith in e);
          long = omega (arith, n, length-append (head ++ tail) (ring.stale o));
          flags = refl;
          tested = t;
          aux = refl;
        })
