-- ===== src/Advanced/Sender/Progress.antt =====
-- The receiver in the middle of a message that `sendAdvancedPayload` sends: how a frame changes it.
use hqq.Common.{
  ℕ, ◌+◌, ◌%◌, ◌^◌, ◌<◌, ◌≤◌, ◌≡◌, ◌⊎◌, Bool, true, false, some, none, List, [], ◌∷◌, ◌++◌, ◌==◌,
  length, take, drop, bit_or, arith, refl, sym, ap, ◌∙◌, length-take, length-drop, length-append,
  append_assoc,
}
use hqq.Common.Slices.{take-all, take-split, take_left}
use hqq.Advanced.Flags.{AdvHeader, flag_begin, flag_end}
use hqq.Advanced.Assembly.State.{Assembly, Receiver, find, insert, drop_assembly, fits}
use hqq.Advanced.Assembly.Chunk.{
  Frame, Outcome, partial, size_error, copy_at, finish, add_chunk, consume_chunk,
}
use hqq.Advanced.Sender.{Outgoing, total_size}
use hqq.Advanced.Sender.Flagged.{IsBase}
use hqq.Advanced.Sender.Frames.{whole, key_of, IsChunk}

-- `consumeAdvancedChunk` on one frame after another.
unfoldable pub receive_all : (ℕ → List ℕ) → Receiver → List Frame → Receiver × List Outcome
receive_all pool l [] = (l, [])
receive_all pool l (f ∷ fs) =
    let step = consume_chunk pool l f in
    let rest = receive_all pool step.0 fs in (rest.0, step.1 ∷ rest.1)

pub receive_all-cons :
    (pool : ℕ → List ℕ) (l l' : Receiver) (f : Frame) (fs : List Frame) (out : Outcome)
    → consume_chunk pool l f ≡ (l', out)
    → receive_all pool l (f ∷ fs) ≡ ((receive_all pool l' fs).0, out ∷ (receive_all pool l' fs).1)
unfolding receive_all
receive_all-cons pool l l' f fs out e =
    ap (λ t. ((receive_all pool t.0 fs).0, t.1 ∷ (receive_all pool t.0 fs).1)) e

pub receive_all-nil : (pool : ℕ → List ℕ) (l : Receiver) → receive_all pool l [] ≡ (l, [])
unfolding receive_all
receive_all-nil pool l = refl

-- The header of the whole message, and of its assembly.
abbrev pub header_of : Outgoing → ℕ → AdvHeader
header_of m flags = record {
  stream_id = m.connection_id;
  message_id = m.message_id;
  flags = flags;
  aux = m.aux;
}

abbrev pub final_header : Outgoing → AdvHeader
final_header m = header_of m (bit_or m.base_flags (bit_or flag_begin flag_end))

-- The first `o` bytes of the message are in the assembly.
pub record InProgress (m : Outgoing) (a : Assembly) (o : ℕ) : Type 0 where
  pub hdr : a.hdr ≡ header_of m m.base_flags
  pub size : a.size ≡ total_size m
  pub next : a.next ≡ o
  pub room : length a.buffer ≡ total_size m
  pub done_bytes : take o a.buffer ≡ take o (whole m)

copy_at-next :
    (dst xs : List ℕ) (o n : ℕ)
    → length dst ≡ length xs
    → o + n ≤ length xs
    → take o dst ≡ take o xs
    → (take (o + n) (copy_at dst o (drop o (take (o + n) xs))) ≡ take (o + n) xs)
      × (length (copy_at dst o (drop o (take (o + n) xs))) ≡ length xs)
unfolding copy_at
copy_at-next dst xs o n same fits before =
    let new = drop o (take (o + n) xs) in
    let l : length new ≡ n =
      omega (arith, length-drop o (take (o + n) xs), length-take (o + n) xs) in
    let j : take o dst ++ new ≡ take (o + n) xs =
      ap (λ t. t ++ new) before ∙ take-split o (o + n) xs (omega arith) in
    let k : length (take o dst ++ new) ≡ o + n =
      ap length j ∙ omega (arith, length-take (o + n) xs) in
    let tail = drop (o + length new) dst in
    let whole_list : take o dst ++ (new ++ tail) ≡ (take o dst ++ new) ++ tail =
      sym (append_assoc (take o dst) new tail) in
    (
      ap (take (o + n)) whole_list ∙ take_left (o + n) (take o dst ++ new) tail k ∙ j,
      ap length whole_list
          ∙ omega (
            arith,
            length-append (take o dst ++ new) tail,
            k,
            l,
            length-drop (o + length new) dst,
          ),
    )

-- The state of the receiver that a message needs besides its assembly: these fields no frame changes.
pub record Accepts (m : Outgoing) (negotiated : ℕ) (l : Receiver) : Type 0 where
  pub same_features : l.negotiated ≡ negotiated
  pub short : (l.max_message_size ≡ 0) ⊎ (total_size m ≤ l.max_message_size)

-- The assembly with a frame's bytes added.
unfoldable pub grown : Assembly → Frame → ℕ → Assembly
grown a f seen = record a {
  buffer = copy_at a.buffer f.chunk_offset (take f.chunk_size f.buffer);
  next = a.next + f.chunk_size;
  seen = seen;
}

module _ (pool : ℕ → List ℕ) (m : Outgoing) (negotiated : ℕ) (addressable : total_size m < 2 ^ 63)
    (base : IsBase negotiated m.base_flags) where
  pub sizes_pass :
      (l : Receiver) (f : Frame) (o n : ℕ) (first last : Bool)
      → Accepts m negotiated l
      → IsChunk m negotiated f o n first last
      → 1 ≤ n
      → o + n ≤ total_size m
      → first ≡ (o == 0)
      → size_error l.max_message_size f ≡ none
  unfolding size_error
  sizes_pass l f o n first last w c some_bytes fits place =
      ground (arith, w.short, c.total, c.offset, c.size, c.long, c.aux)

  -- A frame behind the first goes to the assembly.
  pub later_chunk :
      (l : Receiver) (a : Assembly) (f : Frame) (o n : ℕ) (last : Bool)
      → Accepts m negotiated l
      → IsChunk m negotiated f o n false last
      → find (key_of m) l.assemblies ≡ some a
      → 1 ≤ n
      → 1 ≤ o
      → o + n ≤ total_size m
      → consume_chunk pool l f
        ≡ add_chunk (key_of m) a f (record l { chunks = (l.chunks + 1) % 2 ^ 64 })
  unfolding consume_chunk
  later_chunk l a f o n last w c here some_bytes later fits =
      let t = c.tested in
      let e = sizes_pass l f o n false last w c some_bytes fits (ground arith) in
      ground (arith, w.same_features, c.key, c.flags, t.formed, t.no_abort, t.begins, e, here)

  pub grown-InProgress :
      (a : Assembly) (f : Frame) (o n seen : ℕ) (first last : Bool)
      → IsChunk m negotiated f o n first last
      → InProgress m a o
      → o + n ≤ total_size m
      → InProgress m (grown a f seen) (o + n)
  unfolding grown
  grown-InProgress a f o n seen first last c v fits =
      let all : length (whole m) ≡ total_size m = omega (arith, length-append m.prefix m.payload) in
      let new : take f.chunk_size f.buffer ≡ drop o (take (o + n) (whole m)) =
        ap (λ k. take k f.buffer) c.size ∙ c.content in
      let p =
        copy_at-next a.buffer (whole m) o n (v.room ∙ sym all) (omega (arith, all)) v.done_bytes in
      let buffer : copy_at a.buffer f.chunk_offset (take f.chunk_size f.buffer)
          ≡ copy_at a.buffer o (drop o (take (o + n) (whole m))) =
        ap (λ k. copy_at a.buffer k (take f.chunk_size f.buffer)) c.offset
        ∙ ap (copy_at a.buffer o) new in
      record {
        hdr = v.hdr;
        size = v.size;
        next = omega (arith, v.next, c.size);
        room = ap length buffer ∙ p.1 ∙ all;
        done_bytes = ap (take (o + n)) buffer ∙ p.0;
      }

  -- An assembly that has every byte holds the message.
  all_bytes : (a : Assembly) → InProgress m a (total_size m) → a.buffer ≡ whole m
  all_bytes a v =
      sym (take-all (total_size m) a.buffer (omega (arith, v.room)))
      ∙ v.done_bytes
      ∙ take-all (total_size m) (whole m) (omega (arith, length-append m.prefix m.payload))

  -- A frame in the middle, and the last one.
  pub middle_chunk :
      (l : Receiver) (a : Assembly) (f : Frame) (o n : ℕ) (first : Bool)
      → IsChunk m negotiated f o n first false
      → InProgress m a o
      → add_chunk (key_of m) a f l
        ≡ (record l { assemblies = insert (key_of m) (grown a f l.chunks) l.assemblies }, partial)
  unfolding add_chunk grown
  middle_chunk l a f o n first c v =
      let t = c.tested in ground (arith, c.offset, c.total, c.flags, t.ends, v.next, v.size)

  pub last_chunk :
      (l : Receiver) (a : Assembly) (f : Frame) (o n : ℕ) (first : Bool)
      → IsChunk m negotiated f o n first true
      → InProgress m a o
      → o + n ≡ total_size m
      → add_chunk (key_of m) a f l ≡ (
        drop_assembly
            (key_of m)
            (record l { assemblies = insert (key_of m) (grown a f l.chunks) l.assemblies }),
        finish (final_header m) (whole m),
      )
  unfolding add_chunk grown
  last_chunk l a f o n first c v end =
      let t = c.tested in
      let w = grown-InProgress a f o n l.chunks first true c v (omega arith) in
      let e =
        all_bytes (grown a f l.chunks)
          (let u : InProgress m (grown a f l.chunks) (total_size m) = rw (← end) w in u) in
      ground (arith, c.offset, c.total, c.size, c.flags, t.ends, v.next, v.size, v.hdr, e, end)
