-- ===== src/Advanced/Assembly/Tests.antt =====
-- A message of 3 bytes, half received, and its last frame.
use hqq.Common.{ℕ, ◌+◌, ◌≡◌, false, List, [], ◌∷◌, none, refl, replicate}
use hqq.Advanced.Flags.{AdvHeader, flag_request, flag_end, flag_begin, has, flags_malformed}
use hqq.Advanced.Assembly.State.{Assembly, Receiver, find, insert, same_key}
use hqq.Advanced.Assembly.Chunk.{
  Frame, complete, consume_chunk, add_chunk, finish, size_error, copy_at,
}

abbrev hdr : AdvHeader
hdr = record { stream_id = 4; message_id = 9; flags = flag_request; aux = 77 }

abbrev half : Assembly
half = record { hdr = hdr; buffer = 10 ∷ 11 ∷ 0 ∷ []; size = 3; next = 2; seen = 1 }

abbrev receiver : Receiver
receiver = record {
  negotiated = 0;
  max_message_size = 100;
  max_reassembly_bytes = 1000;
  assemblies = (record { connection_id = 4; message_id = 9; kind = flag_request }, half) ∷ [];
  assembly_bytes = 259;
  chunks = 1;
  chunks_at_sweep = 0;
  rejected = [];
  rejected_order = [];
  rejected_evicted = false;
  dropped_messages = 0;
  reclaimed = [];
}

abbrev last_frame : Frame
last_frame = record {
  connection_id = 4;
  message_id = 9;
  total_size = 3;
  chunk_offset = 2;
  chunk_size = 1;
  flags = flag_request + flag_end;
  aux = 0;
  buffer = 12 ∷ 0 ∷ [];
}

abbrev pool : ℕ → List ℕ
pool n = replicate n 0

last_frame_completes :
    (consume_chunk pool receiver last_frame).1
    ≡ complete (record {
      hdr = record hdr { flags = flag_begin + flag_end + flag_request };
      payload = 10 ∷ 11 ∷ 12 ∷ [];
      meta = none;
    })
unfolding consume_chunk add_chunk finish size_error flags_malformed has find insert same_key copy_at
last_frame_completes = refl
