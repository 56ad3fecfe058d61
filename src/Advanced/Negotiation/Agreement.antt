-- ===== src/Advanced/Negotiation/Agreement.antt =====
-- Both endpoints of a link negotiate with each other.
use hqq.Common.{
  ℕ, ◌^◌, ◌==◌, ◌<◌, ◌≡◌, true, false, Option, none, List, [], ◌∷◌, if◌then◌else◌, bit_and, arith,
  refl, ap, ◌∙◌, map, All,
}
use hqq.Common.Subsets.{IsSubset, IsSubset-left, bit_and-le}
use hqq.Protocol.{Packet, new_packet, op, operand}
use hqq.Protocol.Laws.{new_packet_lem}
use hqq.Protocol.OpCode
use hqq.Advanced.Flags.{and_not}
use hqq.Advanced.Negotiation.{
  supported_features, current_version, encode, decode_version, state_none, negotiating, Endpoint,
  Arrival, arrives, agreed, Attempt, set_negotiated, acknowledged, offer, answer_negotiation,
  negotiate_loop, negotiate_protocol, wait_loop, wait_for_negotiation, wanted, negotiate,
}
use hqq.Advanced.Negotiation.Settled.{negotiate_protocol-fresh, wait_for_negotiation-fresh}

-- A link that takes every packet.
abbrev pub open_link : Packet → Option ℕ
open_link p = none

abbrev message : ℕ → ℕ → Packet
message code features = new_packet code (encode current_version ∷ features ∷ 0 ∷ [])

-- The packets of the negotiation carry what was put in.
message_lem :
    (code features : ℕ)
    → code < 256
    → features < 2 ^ 64
    → (op (message code features) ≡ code)
      × (operand (message code features) 0 ≡ 257)
      × (operand (message code features) 1 ≡ features)
message_lem code features small fits =
    let version : encode current_version ≡ 257 = unfold encode in refl in
    let fit : All (λ v. v < 2 ^ 64) (encode current_version ∷ features ∷ 0 ∷ []) =
      (omega (arith, version), (fits, (omega arith, tt))) in
    let first = new_packet_lem code (encode current_version ∷ features ∷ 0 ∷ []) 0 small fit in
    let second = new_packet_lem code (encode current_version ∷ features ∷ 0 ∷ []) 1 small fit in
    (first.1, first.2 ∙ version, second.2)

-- The features on which both sides agree.
abbrev pub shared : ℕ → ℕ → ℕ
shared mine theirs = bit_and (bit_and mine supported_features) theirs

answered :
    (asked allowed : ℕ) (e : Endpoint)
    → asked < 2 ^ 64
    → answer_negotiation open_link allowed (message OpCode.proto_negotiate asked) [] e ≡ record {
      endpoint = set_negotiated current_version (shared asked allowed) e;
      sent = message OpCode.proto_ack (shared asked allowed) ∷ [];
      ending = agreed;
    }
unfolding answer_negotiation offer decode_version
answered asked allowed e fits =
    let (code, version, features) = message_lem OpCode.proto_negotiate asked (omega arith) fits in
    ground (arith, version, features)

accepted :
    (asked allowed : ℕ) (sent : List Packet) (e : Endpoint)
    → asked < 2 ^ 64
    → acknowledged asked (message OpCode.proto_ack (shared asked allowed)) sent e ≡ record {
      endpoint = set_negotiated current_version (shared asked allowed) e;
      sent = sent;
      ending = agreed;
    }
unfolding acknowledged decode_version and_not
accepted asked allowed sent e fits =
    let f = shared asked allowed in
    let s = bit_and asked supported_features in
    let small : f < 2 ^ 64 =
      omega (arith, bit_and-le s allowed, bit_and-le asked supported_features) in
    let (code, version, features) = message_lem OpCode.proto_ack f (omega arith) small in
    let within : IsSubset f s = IsSubset-left s allowed in ground (arith, version, features, within)

read_request :
    (allowed : ℕ) (p : Packet) (e : Endpoint)
    → op p ≡ OpCode.proto_negotiate
    → wait_loop open_link allowed (arrives p ∷ []) e ≡ answer_negotiation open_link allowed p [] e
unfolding wait_loop
read_request allowed p e code = ground arith

read_ack :
    (asked : ℕ) (p : Packet) (sent : List Packet) (e : Endpoint)
    → op p ≡ OpCode.proto_ack
    → negotiate_loop open_link asked (arrives p ∷ []) sent e ≡ acknowledged asked p sent e
unfolding negotiate_loop
read_ack asked p sent e code = ground arith

wanted-fits : (features : ℕ) → features < 2 ^ 64 → wanted features < 2 ^ 64
unfolding wanted
wanted-fits features fits = ground arith

primary_side :
    (features : ℕ) (e : Endpoint) (inbox : List Arrival)
    → e.primary ≡ true
    → e.state ≡ state_none
    → let asked = wanted features in
      negotiate open_link features e inbox
      ≡ negotiate_loop open_link asked inbox
          (message OpCode.proto_negotiate asked ∷ [])
          (record e { state = negotiating })
unfolding negotiate
primary_side features e inbox is_primary fresh =
    ap
      (λ b.
        if b
        then negotiate_protocol open_link current_version (wanted features) e inbox
        else wait_for_negotiation open_link (wanted features) e inbox)
      is_primary
    ∙ negotiate_protocol-fresh open_link (wanted features) e inbox fresh

secondary_side :
    (features : ℕ) (e : Endpoint) (inbox : List Arrival)
    → e.primary ≡ false
    → e.state ≡ state_none
    → negotiate open_link features e inbox
      ≡ wait_loop open_link (wanted features) inbox (record e { state = negotiating })
unfolding negotiate
secondary_side features e inbox is_secondary fresh =
    ap
      (λ b.
        if b
        then negotiate_protocol open_link current_version (wanted features) e inbox
        else wait_for_negotiation open_link (wanted features) e inbox)
      is_secondary
    ∙ wait_for_negotiation-fresh open_link (wanted features) e inbox fresh

-- When a Primary and a Secondary that have not been negotiated negotiate with each other, with whatever
-- features of 64 bits, on a link that takes every packet, the Secondary answers the request that the
-- Primary sends, the Primary accepts that answer, and both have negotiated the current version with
-- the same features: the supported ones, those of the
-- lowest four bits, that both asked for, where asking for 0 asks for all four.
pub negotiate-agrees :
    (features features' : ℕ) (primary secondary : Endpoint)
    → features < 2 ^ 64
    → primary.primary ≡ true
    → secondary.primary ≡ false
    → primary.state ≡ state_none
    → secondary.state ≡ state_none
    → let request = (negotiate open_link features primary []).sent in
      let answer = negotiate open_link features' secondary (map arrives request) in
      let answered = negotiate open_link features primary (map arrives answer.sent) in
      (answer.ending ≡ agreed)
      × (answered.ending ≡ agreed)
      × (answer.endpoint.version ≡ current_version)
      × (answered.endpoint.version ≡ current_version)
      × (answer.endpoint.features
          ≡ bit_and
              (bit_and (if features == 0 then 15 else features) 15)
              (if features' == 0 then 15 else features'))
      × (answered.endpoint.features ≡ answer.endpoint.features)
unfolding set_negotiated negotiate_loop wanted
negotiate-agrees features features' primary secondary fits is_primary is_secondary fresh fresh' =
    let asked = wanted features in
    let allowed = wanted features' in
    let request = message OpCode.proto_negotiate asked in
    let ack = message OpCode.proto_ack (shared asked allowed) in
    let small : asked < 2 ^ 64 = wanted-fits features fits in
    let s = bit_and asked supported_features in
    let sends : (negotiate open_link features primary []).sent ≡ request ∷ [] =
      ap (λ (r : Attempt). r.sent) (primary_side features primary [] is_primary fresh) in
    let answers =
      secondary_side features' secondary (arrives request ∷ []) is_secondary fresh'
      ∙ read_request allowed request (record secondary { state = negotiating })
          (message_lem OpCode.proto_negotiate asked (omega arith) small).0
      ∙ answered asked allowed (record secondary { state = negotiating }) small in
    let accepts =
      primary_side features primary (arrives ack ∷ []) is_primary fresh
      ∙ read_ack asked ack (request ∷ []) (record primary { state = negotiating })
          (message_lem OpCode.proto_ack (shared asked allowed) (omega arith)
            (omega (arith, bit_and-le s allowed, bit_and-le asked supported_features))).0
      ∙ accepted asked allowed (request ∷ []) (record primary { state = negotiating }) small in
    rw (sends, answers, accepts) (refl, refl, refl, refl, refl, refl)
