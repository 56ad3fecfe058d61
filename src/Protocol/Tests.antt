-- ===== src/Protocol/Tests.antt =====
-- Packets at concrete operands.
use hqq.Common.{◌≡◌, refl, arith, [], ◌∷◌, replicate}
use hqq.Common.Bytes.{put_le}
use hqq.Protocol.OpCode
use hqq.Protocol.{
  zero_packet, new_packet, set_op, set_operand, put_word, word, op, operand,
  new_standard_link_copy_packet,
}
use hqq.Protocol.Laws.{IsPacket, operand-set_operand, op-set_op, new_packet_lem, direct-new_packet}

copy_packet_bytes :
    new_standard_link_copy_packet 1 2 0x0304
    ≡ 0xff
      ∷ 0
      ∷ 0
      ∷ 0
      ∷ 0
      ∷ 0
      ∷ 0
      ∷ 0
      ∷ 1
      ∷ 0
      ∷ 0
      ∷ 0
      ∷ 0
      ∷ 0
      ∷ 0
      ∷ 0
      ∷ 2
      ∷ 0
      ∷ 0
      ∷ 0
      ∷ 0
      ∷ 0
      ∷ 0
      ∷ 0
      ∷ 4
      ∷ 3
      ∷ replicate 38 0
unfolding new_standard_link_copy_packet put_word put_le
copy_packet_bytes = refl

operand-set_operand_example :
    (operand (set_operand zero_packet 3 9) 3 ≡ 9)
    × (op (set_operand zero_packet 3 9) ≡ op zero_packet)
operand-set_operand_example = operand-set_operand zero_packet 3 3 9 refl (omega arith)

op-set_op_example :
    (op (set_op zero_packet 5) ≡ 5)
    × (word (set_op zero_packet 5) 0 ≡ 5)
    × (operand (set_op zero_packet 5) 2 ≡ operand zero_packet 2)
op-set_op_example = op-set_op zero_packet 5 2 refl (omega arith)

new_packet_example :
    IsPacket (new_packet 5 (257 ∷ 3 ∷ []))
    × (op (new_packet 5 (257 ∷ 3 ∷ [])) ≡ 5)
    × (operand (new_packet 5 (257 ∷ 3 ∷ [])) 1 ≡ 3)
new_packet_example = new_packet_lem 5 (257 ∷ 3 ∷ []) 1 (omega arith) (omega arith)

direct-new_packet_example :
    new_standard_link_copy_packet 1 2 3 ≡ new_packet OpCode.standard_link_copy (1 ∷ 2 ∷ 3 ∷ [])
direct-new_packet_example = (direct-new_packet 1 2 3 4 5 6 7).0
