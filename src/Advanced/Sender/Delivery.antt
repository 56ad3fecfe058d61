-- ===== src/Advanced/Sender/Delivery.antt =====
-- What `sendAdvancedPayload` sends, `consumeAdvancedChunk` puts together again.
use hqq.Common.{
  ℕ, zero, suc, ◌+◌, ◌-◌, ◌%◌, ◌^◌, ◌<◌, ◌≤◌, ◌≡◌, true, false, some, none, List, [], ◌∷◌, ◌++◌,
  ◌==◌, length, min, replicate, arith, refl, ap, ◌∙◌, dec_lt,
}
use hqq.Advanced.Assembly.State.{
  Assembly, Receiver, find, insert, drop_assembly, is_rejected, assembled, charge, reclaim_idle,
  fits, assembly_overhead,
}
use hqq.Advanced.Assembly.Chunk.{
  Frame, Outcome, partial, finish, add_chunk, begin_chunk, begin_assembly, new_assembly,
  consume_chunk,
}
use hqq.Advanced.Assembly.Budget.{find-insert_self}
use hqq.Advanced.Sender.{Outgoing, Ring, total_size, payload_frame, send_from}
use hqq.Advanced.Sender.Flagged.{IsBase}
use hqq.Advanced.Sender.Frames.{whole, key_of, IsChunk, payload_frame-IsChunk}
use hqq.Advanced.Sender.Progress.{
  receive_all, receive_all-cons, receive_all-nil, final_header, InProgress, Accepts, sizes_pass,
  later_chunk, grown, grown-InProgress, middle_chunk, last_chunk,
}

pub charge-grown : (a : Assembly) (f : Frame) (seen : ℕ) → charge (grown a f seen) ≡ charge a
unfolding grown charge
charge-grown a f seen = refl

-- The outcomes are those of a message that arrives whole.
abbrev pub Delivers : Outgoing → List Outcome → Type 0
Delivers m outcomes =
    (k : ℕ) × (outcomes ≡ replicate k partial ++ (finish (final_header m) (whole m) ∷ []))

module _ {E : Type 0} (pool : ℕ → List ℕ) (buffer_size : ℕ) (ring : Ring E) (m : Outgoing)
    (negotiated : ℕ) (base : IsBase negotiated m.base_flags) (some_room : 1 ≤ buffer_size)
    (addressable : total_size m + buffer_size < 2 ^ 63)
    (willing : (o : ℕ) → ring.refusal o ≡ none) where
  -- The end of a message takes its bytes off the account.
  dropped_bytes :
      (l : Receiver) (a : Assembly)
      → (drop_assembly
          (key_of m)
          (record l { assemblies = insert (key_of m) a l.assemblies })).assembly_bytes
        ≡ l.assembly_bytes - charge a
  unfolding drop_assembly
  dropped_bytes l a = rw (find-insert_self (key_of m) a l.assemblies, drop_assembly)

  pub send_step :
      (rounds o : ℕ)
      → o < total_size m
      → let rest = send_from buffer_size ring m rounds (o + buffer_size) in
        send_from buffer_size ring m (suc rounds) o
        ≡ (payload_frame buffer_size ring m o ∷ rest.0, rest.1)
  unfolding send_from
  send_step rounds o more =
      let wrap : (o + buffer_size) % 2 ^ 64 ≡ o + buffer_size = omega arith in
      ground (arith, wrap, willing o)

  pub send_end :
      (rounds o : ℕ) → total_size m ≤ o → send_from buffer_size ring m rounds o ≡ ([], none)
  unfolding send_from
  send_end zero o past = refl
  send_end (suc rounds) o past = ground arith

  pub rest_delivered :
      (rounds o : ℕ) (l : Receiver) (a : Assembly)
      → Accepts m negotiated l
      → find (key_of m) l.assemblies ≡ some a
      → InProgress m a o
      → 1 ≤ o
      → o < total_size m
      → total_size m ≤ o + rounds
      → let r = send_from buffer_size ring m rounds o in
        let received = receive_all pool l r.0 in
        (r.1 ≡ none)
        × Delivers m received.1
        × (received.0.assembly_bytes ≡ l.assembly_bytes - charge a)
  unfolding send_from
  rest_delivered zero o l a w here v later more enough = absurd (omega arith)
  rest_delivered (suc rounds) o l a w here v later more enough =
      let f = payload_frame buffer_size ring m o in
      let n = min (o + buffer_size) (total_size m) - o in
      let l' : Receiver = record l { chunks = (l.chunks + 1) % 2 ^ 64 } in
      let l'' : Receiver = record l' {
        assemblies = insert (key_of m) (grown a f l'.chunks) l'.assemblies;
      } in
      let middle : (o == 0) ≡ false = ground arith in
      elim (dec_lt (o + buffer_size) (total_size m)) [
        | yes further ↦
            let c : IsChunk m negotiated f o n false false =
              payload_frame-IsChunk buffer_size negotiated ring m o false false base some_room more
                (omega arith) middle (ground arith) in
            let consumed : consume_chunk pool l f ≡ (l'', partial) =
              later_chunk pool m negotiated (omega arith) base l a f o n false w c here
                (omega arith) later (omega arith)
              ∙ middle_chunk pool m negotiated (omega arith) base l' a f o n false c v in
            rw
              (
                send_step rounds o more,
                receive_all-cons pool l l'' f
                    (send_from buffer_size ring m rounds (o + buffer_size)).0 partial consumed,
              )
              (let ih =
                  rest_delivered rounds (o + buffer_size) l'' (grown a f l'.chunks)
                    (record { same_features = w.same_features; short = w.short })
                    (find-insert_self (key_of m) (grown a f l'.chunks) l.assemblies)
                    (let e : o + n ≡ o + buffer_size = omega arith in
                      let u : InProgress m (grown a f l'.chunks) (o + buffer_size) = rw (← e) (
                        grown-InProgress pool m negotiated (omega arith) base a f o n l'.chunks
                          false false c v (omega arith)) in
                      u)
                    (omega arith) further (omega arith) in
                (
                  ih.0,
                  (suc ih.1.0, ap (◌∷◌ partial) ih.1.1),
                  ih.2 ∙ ap (λ k. l.assembly_bytes - k) (charge-grown a f l'.chunks),
                ))
        | no last ↦
            let c : IsChunk m negotiated f o n false true =
              payload_frame-IsChunk buffer_size negotiated ring m o false true base some_room more
                (omega arith) middle (ground arith) in
            let consumed : consume_chunk pool l f
                ≡ (drop_assembly (key_of m) l'', finish (final_header m) (whole m)) =
              later_chunk pool m negotiated (omega arith) base l a f o n true w c here (omega arith)
                later (omega arith)
              ∙ last_chunk pool m negotiated (omega arith) base l' a f o n false c v
                  (omega arith) in
            rw
              (
                send_step rounds o more,
                send_end rounds (o + buffer_size) (omega arith),
                receive_all-cons pool l (drop_assembly (key_of m) l'') f []
                    (finish (final_header m) (whole m)) consumed,
                receive_all-nil pool (drop_assembly (key_of m) l''),
              )
              (
                refl,
                (0, refl),
                dropped_bytes l' (grown a f l'.chunks)
                    ∙ ap (λ k. l.assembly_bytes - k) (charge-grown a f l'.chunks),
              )
      ]

  -- The first frame of a longer message starts its assembly, where nothing is in the way.
  pub first_chunk :
      (l : Receiver) (f : Frame) (n : ℕ)
      → ((k : ℕ) → length (pool k) ≡ k)
      → Accepts m negotiated l
      → IsChunk m negotiated f 0 n true false
      → 1 ≤ n
      → n ≤ total_size m
      → find (key_of m) l.assemblies ≡ none
      → is_rejected (key_of m) l ≡ false
      → l.assembly_bytes + (total_size m + assembly_overhead) ≤ l.max_reassembly_bytes
      → let l' : Receiver = record l { chunks = (l.chunks + 1) % 2 ^ 64 } in
        let a = new_assembly pool f l'.chunks in
        (consume_chunk pool l f
          ≡ add_chunk (key_of m) a f (record l' {
            assemblies = insert (key_of m) a l.assemblies;
            assembly_bytes = l.assembly_bytes + (total_size m + assembly_overhead);
          }))
        × InProgress m a 0
        × (charge a ≡ total_size m + assembly_overhead)
  unfolding consume_chunk begin_chunk begin_assembly new_assembly reclaim_idle fits assembled charge
      is_rejected
  first_chunk l f n sized w c some_bytes within gone known room =
      let t = c.tested in
      let e =
        sizes_pass pool m negotiated (omega arith) base l f 0 n true false w c some_bytes
          (omega arith) (ground arith) in
      (
        ground (
          arith, w.same_features, c.key, c.flags, c.total, c.offset, t.formed, t.no_abort, t.begins,
          t.ends, e, gone, known,
        ),
        record {
          hdr = ground (arith, c.connection, c.message, c.flags, c.aux, t.cleared);
          size = c.total;
          next = refl;
          room = sized f.total_size ∙ c.total;
          done_bytes = refl;
        },
        omega (arith, c.total),
      )
