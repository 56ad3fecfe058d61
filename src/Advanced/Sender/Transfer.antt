-- ===== src/Advanced/Sender/Transfer.antt =====
-- Messages of one frame and of many (advanced_io.go, `sendAdvancedPayload` against `consumeAdvancedChunk`),
-- up to the end of the assembly.
use hqq.Common.{
  ℕ, suc, ◌+◌, ◌-◌, ◌%◌, ◌^◌, ◌<◌, ◌≤◌, ◌≡◌, ◌⊎◌, true, false, none, List, [], ◌∷◌, ◌++◌, length,
  take, min, bit_or, arith, refl, sym, ap, ◌∙◌, length-append, append-nil, dec_lt,
}
use hqq.Common.Slices.{take-all, drop-all}
use hqq.Advanced.Flags.{flag_begin, flag_end}
use hqq.Advanced.Assembly.State.{Receiver, find, insert, is_rejected, assembled, assembly_overhead}
use hqq.Advanced.Assembly.Chunk.{
  Frame, partial, size_error, copy_at, finish, begin_chunk, new_assembly, consume_chunk,
}
use hqq.Advanced.Assembly.Budget.{find-insert_self}
use hqq.Advanced.Sender.{
  Outgoing, Ring, total_size, copied, chunk_frame, payload_frame, send_from, send_payload, sent,
}
use hqq.Advanced.Sender.Flagged.{IsBase, IsBase-Tested, whole_flags}
use hqq.Advanced.Sender.Frames.{whole, key_of, IsChunk, payload_frame-IsChunk, copied_lem}
use hqq.Advanced.Sender.Progress.{
  receive_all, receive_all-cons, receive_all-nil, final_header, Accepts, sizes_pass, grown,
  grown-InProgress, middle_chunk,
}
use hqq.Advanced.Sender.Delivery.{
  Delivers, charge-grown, send_step, send_end, rest_delivered, first_chunk,
}

-- What the receiver needs at the start of a message.
pub record Admits (m : Outgoing) (negotiated : ℕ) (l : Receiver) : Type 0 where
  pub accepts : Accepts m negotiated l
  pub unknown : find (key_of m) l.assemblies ≡ none
  pub not_rejected : is_rejected (key_of m) l ≡ false
  pub room : l.assembly_bytes + (total_size m + assembly_overhead) ≤ l.max_reassembly_bytes

module _ {E : Type 0} (pool : ℕ → List ℕ) (buffer_size : ℕ) (ring : Ring E) (m : Outgoing)
    (negotiated : ℕ) (base : IsBase negotiated m.base_flags) (some_room : 1 ≤ buffer_size)
    (addressable : total_size m + buffer_size < 2 ^ 63) (willing : (o : ℕ) → ring.refusal o ≡ none)
    (sized : (k : ℕ) → length (pool k) ≡ k) where
  overwritten : (dst xs : List ℕ) → length dst ≡ length xs → copy_at dst 0 xs ≡ xs
  unfolding copy_at
  overwritten dst xs same =
      ap (λ t. xs ++ t) (drop-all (0 + length xs) dst (omega arith)) ∙ append-nil xs

  -- A message that fits into one frame needs no assembly.
  only_chunk :
      (l : Receiver) (f : Frame)
      → Admits m negotiated l
      → IsChunk m negotiated f 0 (total_size m) true true
      → 1 ≤ total_size m
      → consume_chunk pool l f
        ≡ (record l { chunks = (l.chunks + 1) % 2 ^ 64 }, finish (final_header m) (whole m))
  unfolding consume_chunk begin_chunk assembled is_rejected
  only_chunk l f w c some_bytes =
      let t = c.tested in
      let e =
        sizes_pass pool m negotiated (omega arith) base l f 0 (total_size m) true true w.accepts c
          some_bytes (omega arith) (ground arith) in
      let all : length (whole m) ≡ total_size m = omega (arith, length-append m.prefix m.payload) in
      let bytes : take f.chunk_size f.buffer ≡ whole m =
        ap (λ k. take k f.buffer) c.size
        ∙ c.content
        ∙ take-all (0 + total_size m) (whole m) (omega (arith, all)) in
      let copy : copy_at (pool f.total_size) 0 (take f.chunk_size f.buffer) ≡ whole m =
        ap (copy_at (pool f.total_size) 0) bytes
        ∙ overwritten (pool f.total_size) (whole m) (sized f.total_size ∙ c.total ∙ sym all) in
      let flags = (whole_flags negotiated m.base_flags base).0 in
      ground (
        arith, w.accepts.same_features, c.key, c.flags, c.total, c.offset, c.size, t.formed,
        t.no_abort, t.begins, t.ends, e, w.unknown, w.not_rejected, copy, c.connection, c.message,
        c.aux, flags,
      )

  -- Nor does the empty message.
  empty_delivered :
      (l : Receiver)
      → Admits m negotiated l
      → total_size m ≡ 0
      → consume_chunk pool l (
          chunk_frame buffer_size
            (ring.stale 0)
            m
            0
            0
            (bit_or (bit_or flag_begin flag_end) m.base_flags)
            m.aux
            []
            [])
        ≡ (record l { chunks = (l.chunks + 1) % 2 ^ 64 }, finish (final_header m) (whole m))
  unfolding consume_chunk begin_chunk assembled is_rejected chunk_frame copied size_error
  empty_delivered l w none_left =
      let t = IsBase-Tested negotiated m.base_flags true true base in
      let flags = whole_flags negotiated m.base_flags base in
      let no_bytes : whole m ≡ [] =
        sym (take-all 0 (whole m) (omega (arith, length-append m.prefix m.payload))) in
      let copy : copy_at (pool 0) 0 [] ≡ [] = overwritten (pool 0) [] (sized 0) in
      let nothing : copied buffer_size [] [] ≡ [] = copied_lem buffer_size [] [] (omega arith) in
      rw nothing (
        ground (
          arith, w.accepts.same_features, flags.0, flags.1, t.formed, t.no_abort, t.begins, t.ends,
          t.kind, w.unknown, w.not_rejected, copy, no_bytes,
        ))

  first_step :
      1 ≤ total_size m
      → let rest = send_from buffer_size ring m (total_size m - 1) (0 + buffer_size) in
        send_from buffer_size ring m (total_size m) 0
        ≡ (payload_frame buffer_size ring m 0 ∷ rest.0, rest.1)
  first_step some_bytes =
      let e : total_size m ≡ suc (total_size m - 1) = omega arith in
      ap (λ k. send_from buffer_size ring m k 0) e
      ∙ send_step pool buffer_size ring m negotiated base some_room addressable willing
          (total_size m - 1) 0 (omega arith)

  one_frame :
      (l : Receiver)
      → Admits m negotiated l
      → 1 ≤ total_size m
      → total_size m ≤ buffer_size
      → let r = send_from buffer_size ring m (total_size m) 0 in
        let received = receive_all pool l r.0 in
        (r.1 ≡ none) × Delivers m received.1 × (received.0.assembly_bytes ≡ l.assembly_bytes)
  one_frame l w some_bytes short =
      let f = payload_frame buffer_size ring m 0 in
      let l' : Receiver = record l { chunks = (l.chunks + 1) % 2 ^ 64 } in
      let n : min (0 + buffer_size) (total_size m) - 0 ≡ total_size m = omega arith in
      let c' =
        payload_frame-IsChunk buffer_size negotiated ring m 0 true true base some_room (omega arith)
          (omega arith) refl (ground arith) in
      let c : IsChunk m negotiated f 0 (total_size m) true true = rw n at c' in
      let consumed = only_chunk l f w c some_bytes in
      rw
        (
          first_step some_bytes,
          send_end pool buffer_size ring m negotiated base some_room addressable willing
              (total_size m - 1) (0 + buffer_size) (omega arith),
          receive_all-cons pool l l' f [] (finish (final_header m) (whole m)) consumed,
          receive_all-nil pool l',
        )
        (refl, (0, refl), refl)

  many_frames :
      (l : Receiver)
      → Admits m negotiated l
      → buffer_size < total_size m
      → let r = send_from buffer_size ring m (total_size m) 0 in
        let received = receive_all pool l r.0 in
        (r.1 ≡ none) × Delivers m received.1 × (received.0.assembly_bytes ≡ l.assembly_bytes)
  many_frames l w long =
      let f = payload_frame buffer_size ring m 0 in
      let n : min (0 + buffer_size) (total_size m) - 0 ≡ buffer_size = omega arith in
      let c' =
        payload_frame-IsChunk buffer_size negotiated ring m 0 true false base some_room
          (omega arith) (omega arith) refl (ground arith) in
      let c : IsChunk m negotiated f 0 buffer_size true false = rw n at c' in
      let seen = (l.chunks + 1) % 2 ^ 64 in
      let a = new_assembly pool f seen in
      let l' : Receiver = record l {
        chunks = seen;
        assemblies = insert (key_of m) a l.assemblies;
        assembly_bytes = l.assembly_bytes + (total_size m + assembly_overhead);
      } in
      let l'' : Receiver = record l' {
        assemblies = insert (key_of m) (grown a f seen) l'.assemblies;
      } in
      let start =
        first_chunk pool buffer_size ring m negotiated base some_room addressable willing l f
          buffer_size sized w.accepts c some_room (omega arith) w.unknown w.not_rejected w.room in
      let consumed : consume_chunk pool l f ≡ (l'', partial) =
        start.0
        ∙ middle_chunk pool m negotiated (omega arith) base l' a f 0 buffer_size true c start.1 in
      let rest =
        rest_delivered pool buffer_size ring m negotiated base some_room addressable willing
          (total_size m - 1) (0 + buffer_size) l'' (grown a f seen)
          (record { same_features = w.accepts.same_features; short = w.accepts.short })
          (find-insert_self (key_of m) (grown a f seen) l'.assemblies)
          (grown-InProgress pool m negotiated (omega arith) base a f 0 buffer_size seen true false c
            start.1 (omega arith))
          (omega arith) (omega arith) (omega arith) in
      rw
        (
          first_step (omega arith),
          receive_all-cons pool l l'' f
              (send_from buffer_size ring m (total_size m - 1) (0 + buffer_size)).0 partial
              consumed,
        )
        (
          rest.0,
          (suc rest.1.0, ap (◌∷◌ partial) rest.1.1),
          omega (arith, rest.2, charge-grown a f seen, start.2),
        )

  -- The receiver finishes the message that was sent.
  pub send_payload-Delivers :
      (max_message_size : ℕ) (l : Receiver)
      → Admits m negotiated l
      → (max_message_size ≡ 0) ⊎ (total_size m ≤ max_message_size)
      → (frames : List Frame) × (send_payload max_message_size buffer_size ring m
          ≡ sent frames none)
        × (let received = receive_all pool l frames in
            Delivers m received.1 × (received.0.assembly_bytes ≡ l.assembly_bytes))
  unfolding send_payload
  send_payload-Delivers max_message_size l w allowed = elim (dec_lt 0 (total_size m)) [
    | yes some_bytes ↦
        let r = send_from buffer_size ring m (total_size m) 0 in
        let d =
          elim (dec_lt buffer_size (total_size m))
            as (λ _.
              (r.1 ≡ none)
              × Delivers m (receive_all pool l r.0).1
              × ((receive_all pool l r.0).0.assembly_bytes ≡ l.assembly_bytes)) [
                | yes long ↦ many_frames l w long
                | no short ↦ one_frame l w some_bytes (omega arith)
              ] in
        (r.0, ground (arith, d.0), (d.1, d.2))
    | no empty ↦
        let f =
          chunk_frame buffer_size (ring.stale 0) m 0 0
            (bit_or (bit_or flag_begin flag_end) m.base_flags) m.aux [] [] in
        let l' : Receiver = record l { chunks = (l.chunks + 1) % 2 ^ 64 } in
        (
          f ∷ [],
          ground (arith, willing 0),
          rw
              (
                receive_all-cons pool l l' f [] (finish (final_header m) (whole m))
                    (empty_delivered l w (omega arith)),
                receive_all-nil pool l',
              )
              ((0, refl), refl),
        )
  ]
