-- ===== src/Advanced/Negotiation/Tests.antt =====
-- Two fresh endpoints, and a peer that acknowledges too much.
use hqq.Common.{◌≡◌, bit_and, ◌==◌, if◌then◌else◌, true, false, [], ◌∷◌, refl, arith, map}
use hqq.Protocol.{Packet, new_packet}
use hqq.Protocol.OpCode
use hqq.Advanced.Negotiation.{
  Endpoint, state_none, current_version, arrives, agreed, negotiate, encode,
}
use hqq.Advanced.Negotiation.Settled.{Settled, negotiate-Settled}
use hqq.Advanced.Negotiation.Agreement.{open_link, negotiate-agrees}

abbrev left : Endpoint
left = record {
  primary = true;
  state = state_none;
  version = current_version;
  features = 0;
  word = 0;
}

abbrev right : Endpoint
right = record left { primary = false }

abbrev greedy : Packet
greedy = new_packet OpCode.proto_ack (encode current_version ∷ 31 ∷ 0 ∷ [])

negotiate-Settled_example :
    Settled (if 3 == 0 then 15 else 3) (negotiate open_link 3 left (arrives greedy ∷ []))
negotiate-Settled_example = negotiate-Settled open_link 3 left (arrives greedy ∷ []) refl

negotiate-agrees_example :
    let request = (negotiate open_link 7 left []).sent in
    let answer = negotiate open_link 0 right (map arrives request) in
    let answered = negotiate open_link 7 left (map arrives answer.sent) in
    (answer.ending ≡ agreed)
    × (answered.ending ≡ agreed)
    × (answer.endpoint.version ≡ current_version)
    × (answered.endpoint.version ≡ current_version)
    × (answer.endpoint.features
        ≡ bit_and (bit_and (if 7 == 0 then 15 else 7) 15) (if 0 == 0 then 15 else 0))
    × (answered.endpoint.features ≡ answer.endpoint.features)
negotiate-agrees_example = negotiate-agrees 7 0 left right (omega arith) refl refl refl refl
