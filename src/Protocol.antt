-- ===== src/Protocol.antt =====
-- internal/protocol/protocol.go: the 64-byte packet of eight little-endian words.
pub mod OpCode
pub mod Laws
mod Tests
use hqq.Common.{
  ℕ, zero, suc, ◌+◌, ◌*◌, ◌%◌, ◌^◌, ◌<◌, Bool, List, [], ◌∷◌, leb, ltb, if◌then◌else◌, replicate,
}
use hqq.Common.Bytes.{put_le, read_le}
use OpCode

abbrev pub packet_word_count : ℕ
packet_word_count = 8

abbrev pub packet_operand_count : ℕ
packet_operand_count = 7

abbrev pub packet_size : ℕ
packet_size = 64

-- `Packet`, an array of 64 bytes
abbrev pub Packet : Type 0
Packet = List ℕ

-- `var p Packet`
abbrev pub zero_packet : Packet
zero_packet = replicate packet_size 0

-- `binary.LittleEndian.PutUint64(p[8*i:8*i+8], v)` and the load
unfoldable pub put_word : Packet → ℕ → ℕ → Packet
put_word p i v = put_le 8 p (8 * i) v

unfoldable pub word : Packet → ℕ → ℕ
word p i = read_le 8 p (8 * i)

unfoldable pub set_op : Packet → ℕ → Packet
set_op p op = put_word p 0 op

-- `& 0xFF` takes the low byte.
unfoldable pub op : Packet → ℕ
op p = word p 0 % 256

-- `i` is Go's int; a negative index is out of range like one from 7 on.
unfoldable pub set_operand : Packet → ℕ → ℕ → Packet
set_operand p i v = if leb packet_operand_count i then p else put_word p (i + 1) v

unfoldable pub operand : Packet → ℕ → ℕ
operand p i = if leb packet_operand_count i then 0 else word p (i + 1)

-- The loop over the operands, which stops at the eighth.
unfoldable pub set_operands : Packet → ℕ → List ℕ → Packet
set_operands p i [] = p
set_operands p i (v ∷ vs) =
    if leb packet_operand_count i then p else set_operands (set_operand p i v) (i + 1) vs

unfoldable pub new_packet : ℕ → List ℕ → Packet
new_packet code operands = set_operands (set_op zero_packet code) 0 operands

unfoldable pub new_standard_link_copy_packet : ℕ → ℕ → ℕ → Packet
new_standard_link_copy_packet copy_id buffer_index size =
    put_word
      (put_word (put_word (put_word zero_packet 0 OpCode.standard_link_copy) 1 copy_id) 2
        buffer_index)
      3 size

unfoldable pub new_standard_link_tombstone_packet : ℕ → ℕ → ℕ → Packet
new_standard_link_tombstone_packet copy_id buffer_index reason =
    put_word
      (put_word (put_word (put_word zero_packet 0 OpCode.standard_link_tombstone) 1 copy_id) 2
        buffer_index)
      3 reason

unfoldable pub new_conn_copy_packet : ℕ → ℕ → ℕ → ℕ → ℕ → ℕ → ℕ → Packet
new_conn_copy_packet connection_id message_id total_size chunk_offset chunk_size flags aux =
    let p = put_word (put_word zero_packet 0 OpCode.conn_copy) 1 connection_id in
    let p' = put_word (put_word (put_word p 2 message_id) 3 total_size) 4 chunk_offset in
    put_word (put_word (put_word p' 5 chunk_size) 6 flags) 7 aux
