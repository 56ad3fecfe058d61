-- ===== src/Advanced/Assembly/Chunk.antt =====
-- `consumeAdvancedChunk` (advanced_io.go).
use hqq.Common.{
  ℕ, ◌+◌, ◌-◌, ◌%◌, ◌^◌, not, ◌&&◌, ◌||◌, Option, some, none, List, ◌++◌, ltb, ◌==◌, if◌then◌else◌,
  length, take, drop, bit_and, bit_or,
}
use hqq.Advanced.Flags.{
  AdvHeader, has, and_not, flags_malformed, flag_begin, flag_end, flag_abort, flag_request,
  flag_response, flag_meta,
}
use hqq.Advanced.Meta.{MsgMeta, parse_meta}
use hqq.Advanced.Assembly.State.{
  MessageKey, Assembly, Receiver, find, assembled, insert, drop_assembly, is_rejected,
  reject_message, forget_rejected, reclaim_idle, fits, assembly_overhead,
}

pub data ChunkError : Type 0 where
  protocol invalid_size buffer_overflow : ChunkError

-- A complete message: its header, its payload, and the metadata of a request that carries some.
pub record Message : Type 0 where
  pub hdr : AdvHeader
  pub payload : List ℕ
  pub meta : Option MsgMeta

-- What `consumeAdvancedChunk` returns: a `chunkOutcome`, or its error.
pub data Outcome : Type 0 where
  partial : Outcome
  complete : Message → Outcome
  aborted : AdvHeader → Outcome
  refused : AdvHeader → Outcome
  failed : ChunkError → Outcome

-- `stripMeta`, if the message has a metadata block; the arrival time is not modelled.
unfoldable pub finish : AdvHeader → List ℕ → Outcome
finish hdr bytes =
    if has hdr.flags flag_meta
    then elim (parse_meta bytes) [
      | none ↦ failed protocol
      | some (meta, size) ↦
          complete (record { hdr = hdr; payload = drop size bytes; meta = some meta })
    ]
    else complete (record { hdr = hdr; payload = bytes; meta = none })

-- The operands of an `OpConnCopy` packet, with the payload buffer of its slot.
pub record Frame : Type 0 where
  pub connection_id : ℕ
  pub message_id : ℕ
  pub total_size : ℕ
  pub chunk_offset : ℕ
  pub chunk_size : ℕ
  pub flags : ℕ
  pub aux : ℕ
  pub buffer : List ℕ

abbrev pub frame_key : Frame → MessageKey
frame_key f = record {
  connection_id = f.connection_id;
  message_id = f.message_id;
  kind = bit_and f.flags (bit_or flag_request flag_response);
}

abbrev pub frame_header : Frame → AdvHeader
frame_header f = record {
  stream_id = f.connection_id;
  message_id = f.message_id;
  flags = f.flags;
  aux = f.aux;
}

-- The switch on sizes; the cases are tried in order, and `total_size - chunk_offset` is read only
-- where it does not wrap. The largest Go int is 2^63 - 1.
unfoldable pub size_error : ℕ → Frame → Option ChunkError
size_error max_message_size f =
    if ltb (length f.buffer) f.chunk_size
      || ltb f.total_size f.chunk_offset
      || ltb (f.total_size - f.chunk_offset) f.chunk_size
    then some invalid_size
    else if ltb 0 max_message_size && ltb max_message_size f.total_size
    then some buffer_overflow
    else if f.total_size == 0
        && (not (f.chunk_offset == 0)
            || not (f.chunk_size == 0)
            || not (has f.flags flag_begin && has f.flags flag_end))
    then some invalid_size
    else if ltb 0 f.total_size && f.chunk_size == 0
    then some invalid_size
    else if not (f.chunk_offset == 0) && not (f.aux == 0)
    then some invalid_size
    else if ltb (2 ^ 63 - 1) f.total_size
    then some buffer_overflow
    else none

-- `fail`
unfoldable pub fail_chunk : MessageKey → ChunkError → Receiver → Receiver × Outcome
fail_chunk k e l = ((forget_rejected k (drop_assembly k l)).0, failed e)

-- `copy(data[off:off+len(bytes)], bytes)`
unfoldable pub copy_at : List ℕ → ℕ → List ℕ → List ℕ
copy_at dst off bytes = take off dst ++ (bytes ++ drop (off + length bytes) dst)

-- A chunk of an assembly that exists, from the comparison of offsets on.
unfoldable pub add_chunk : MessageKey → Assembly → Frame → Receiver → Receiver × Outcome
add_chunk k a f l =
    if not (f.chunk_offset == a.next) || not (a.size == f.total_size)
    then fail_chunk k invalid_size l
    else let a' = record a {
      buffer = copy_at a.buffer f.chunk_offset (take f.chunk_size f.buffer);
      next = a.next + f.chunk_size;
      seen = l.chunks;
    } in
      let l' = record l { assemblies = insert k a' l.assemblies } in
      if not (has f.flags flag_end)
      then (l', partial)
      else if not (a'.next == f.total_size)
      then fail_chunk k invalid_size l'
      else (
        drop_assembly k l',
        finish (record a.hdr { flags = bit_or a.hdr.flags (bit_or flag_begin flag_end) }) a'.buffer,
      )

-- A chunk without `AdvFlagBegin`, and with no assembly.
unfoldable pub orphan_chunk : MessageKey → Frame → Receiver → Receiver × Outcome
orphan_chunk k f l =
    if is_rejected k l || l.rejected_evicted
    then (if has f.flags flag_end then (forget_rejected k l).0 else l, partial)
    else (l, failed protocol)

-- `pool n` is what the first n bytes of a recycled buffer hold.
module _ (pool : ℕ → List ℕ) where
  unfoldable pub new_assembly : Frame → ℕ → Assembly
  new_assembly f seen = record {
    hdr = record (frame_header f) { flags = and_not f.flags (bit_or flag_begin flag_end) };
    buffer = pool f.total_size;
    size = f.total_size;
    next = 0;
    seen = seen;
  }

  -- A chunk with `AdvFlagBegin` and without `AdvFlagEnd`, after the tests.
  unfoldable pub begin_assembly : MessageKey → Frame → Receiver → Receiver × Outcome
  begin_assembly k f l =
      let bytes = f.total_size + assembly_overhead in
      let l' = reclaim_idle bytes l in
      if not (fits bytes l')
      then (
        reject_message k l',
        refused (record (frame_header f) {
          flags = bit_or (and_not f.flags (bit_or flag_begin flag_end)) flag_abort;
        }),
      )
      else let a = new_assembly f l.chunks in
        add_chunk k a f (record l' {
          assemblies = insert k a l'.assemblies;
          assembly_bytes = l'.assembly_bytes + bytes;
        })

  unfoldable pub begin_chunk : MessageKey → Frame → Receiver → Receiver × Outcome
  begin_chunk k f l =
      if not (f.chunk_offset == 0) || assembled k l || is_rejected k l
      then fail_chunk k invalid_size l
      else if has f.flags flag_end
      then (if not (f.chunk_size == f.total_size) then fail_chunk k invalid_size l else (
        l,
        finish (frame_header f) (copy_at (pool f.total_size) 0 (take f.chunk_size f.buffer)),
      ))
      else begin_assembly k f l

  -- `consumeAdvancedChunk`
  unfoldable pub consume_chunk : Receiver → Frame → Receiver × Outcome
  consume_chunk l₀ f =
      let l = record l₀ { chunks = (l₀.chunks + 1) % 2 ^ 64 } in
      let k = frame_key f in
      if flags_malformed l.negotiated f.flags
      then (l, failed protocol)
      else if has f.flags flag_abort
      then (let (l', known) = forget_rejected k (drop_assembly k l) in
          (l', if known then partial else aborted (frame_header f)))
      else elim (size_error l.max_message_size f) [
        | some e ↦ fail_chunk k e l
        | none ↦ if has f.flags flag_begin then begin_chunk k f l else elim (find k l.assemblies) [
          | none ↦ orphan_chunk k f l
          | some a ↦ add_chunk k a f l
        ]
      ]
