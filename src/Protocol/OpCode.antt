-- ===== src/Protocol/OpCode.antt =====
-- The opcodes of internal/protocol/protocol.go, a `uint8` each.
use hqq.Common.{ℕ}

abbrev pub error : ℕ
error = 0x00

abbrev pub conn_create : ℕ
conn_create = 0x01

abbrev pub conn_accept : ℕ
conn_accept = 0x02

abbrev pub conn_close : ℕ
conn_close = 0x03

abbrev pub conn_copy : ℕ
conn_copy = 0x04

abbrev pub proto_negotiate : ℕ
proto_negotiate = 0x05

abbrev pub proto_ack : ℕ
proto_ack = 0x06

abbrev pub cancel : ℕ
cancel = 0x07

abbrev pub standard_link_tombstone : ℕ
standard_link_tombstone = 0xfe

abbrev pub standard_link_copy : ℕ
standard_link_copy = 0xff
