-- ===== src/Advanced/Negotiation.antt =====
-- Negotiation of the Advanced Protocol (advanced.go), an attempt at a time: the packets that arrive are
-- a list, a packet may be refused by the link, and one may fail to arrive.
pub mod Settled
pub mod Agreement
mod Tests
use hqq.Common.{
  ℕ, ◌+◌, ◌*◌, ◌-◌, ◌/◌, ◌%◌, ◌^◌, Bool, true, false, not, ◌&&◌, ◌||◌, Option, some, none, List, [],
  ◌∷◌, ◌++◌, ltb, leb, ◌==◌, if◌then◌else◌, min, bit_or, bit_and, map,
}
use hqq.Protocol.{Packet, new_packet, op, operand}
use hqq.Protocol.OpCode
use hqq.Advanced.Flags.{and_not}

-- `supportedFeatures` and `featuresSince11`
abbrev pub supported_features : ℕ
supported_features = 15

abbrev pub features_since_1_1 : ℕ
features_since_1_1 = 12

-- `negotiatedBit`
abbrev pub negotiated_bit : ℕ
negotiated_bit = 2 ^ 63

abbrev pub major_version : ℕ
major_version = 1

abbrev pub minor_version : ℕ
minor_version = 1

-- `ProtocolVersion`, two bytes
pub record ProtocolVersion : Type 0 where
  pub major : ℕ
  pub minor : ℕ

abbrev pub current_version : ProtocolVersion
current_version = record { major = major_version; minor = minor_version }

unfoldable pub encode : ProtocolVersion → ℕ
encode v = bit_or (v.major * 256) v.minor

unfoldable pub decode_version : ℕ → ProtocolVersion
decode_version v = record { major = v / 256 % 256; minor = v % 256 }

-- `ProtocolState`
pub data ProtocolState : Type 0 where
  state_none negotiating negotiated failed : ProtocolState

-- The fields of `AdvancedLink` that negotiation reads and writes; `word` is the atomic `negotiated`.
pub record Endpoint : Type 0 where
  pub primary : Bool
  pub state : ProtocolState
  pub version : ProtocolVersion
  pub features : ℕ
  pub word : ℕ

pub data NegotiationError : Type 0 where
  negotiation_failed already_negotiated rejected unexpected_packet : NegotiationError
  link_error : ℕ → NegotiationError

-- What `recvPacket` returns.
pub data Arrival : Type 0 where
  arrives : Packet → Arrival
  breaks : ℕ → Arrival

-- How far an attempt has come.
pub data Ending : Type 0 where
  agreed waiting : Ending
  refused : NegotiationError → Ending

pub record Attempt : Type 0 where
  pub endpoint : Endpoint
  pub sent : List Packet
  pub ending : Ending

-- `beginNegotiation`
unfoldable pub begin_negotiation : Endpoint → Endpoint × Option NegotiationError
begin_negotiation e = elim e.state [
  | state_none ↦ (record e { state = negotiating }, none)
  | negotiating ↦ (e, some already_negotiated)
  | negotiated ↦ (e, some already_negotiated)
  | failed ↦ (e, some negotiation_failed)
]

-- `setProtocolFailed`, and the return of an error
unfoldable pub fails : Endpoint → List Packet → NegotiationError → Attempt
fails e sent x = record { endpoint = record e { state = failed }; sent = sent; ending = refused x }

-- `setNegotiated`
unfoldable pub set_negotiated : ProtocolVersion → ℕ → Endpoint → Endpoint
set_negotiated version features e = record e {
  state = negotiated;
  version = version;
  features = features;
  word = bit_or negotiated_bit features;
}

-- The answer to an acknowledgment in `NegotiateProtocol`
unfoldable pub acknowledged : ℕ → Packet → List Packet → Endpoint → Attempt
acknowledged features p sent e =
    let version = decode_version (operand p 0) in
    let ack_features = operand p 1 in
    if not (version.major == major_version)
      || ltb minor_version version.minor
      || not (and_not ack_features (bit_and features supported_features) == 0)
    then fails e sent rejected
    else record { endpoint = set_negotiated version ack_features e; sent = sent; ending = agreed }

-- The features that `Negotiate` asks for; `FeatureNone` is 0.
unfoldable pub wanted : ℕ → ℕ
wanted features = if features == 0 then supported_features else features

-- `send p` is the error of `sendPacket`, if there is one.
module _ (send : Packet → Option ℕ) where
  -- The version and the features of `answerNegotiation`.
  unfoldable pub offer : ℕ → Packet → ProtocolVersion × ℕ
  offer allowed p =
      let minor = min (decode_version (operand p 0)).minor minor_version in
      let features = bit_and (bit_and (operand p 1) supported_features) allowed in
      (
        record { major = (decode_version (operand p 0)).major; minor = minor },
        if ltb minor 1 then and_not features features_since_1_1 else features,
      )

  -- `answerNegotiation`
  unfoldable pub answer_negotiation : ℕ → Packet → List Packet → Endpoint → Attempt
  answer_negotiation allowed p sent e =
      let (version, features) = offer allowed p in
      let ack = new_packet OpCode.proto_ack (encode version ∷ features ∷ 0 ∷ []) in
      if not ((decode_version (operand p 0)).major == major_version)
      then (let refusal = new_packet OpCode.error (0 ∷ 6 ∷ []) in
          fails e (elim (send refusal) [ none ↦ sent ++ (refusal ∷ []) | some x ↦ sent ]) rejected)
      else elim (send ack) [
        | some x ↦ fails e sent (link_error x)
        | none ↦ record {
          endpoint = set_negotiated version features e;
          sent = sent ++ (ack ∷ []);
          ending = agreed;
        }
      ]

  -- The loop of `NegotiateProtocol`
  unfoldable pub negotiate_loop : ℕ → List Arrival → List Packet → Endpoint → Attempt
  negotiate_loop features [] sent e = record { endpoint = e; sent = sent; ending = waiting }
  negotiate_loop features (breaks x ∷ inbox) sent e = fails e sent (link_error x)
  negotiate_loop features (arrives p ∷ inbox) sent e =
      let rest = negotiate_loop features inbox sent e in
      if op p == OpCode.standard_link_tombstone
      then rest
      else if op p == OpCode.proto_ack
      then acknowledged features p sent e
      else if op p == OpCode.proto_negotiate
      then (if e.primary then rest else answer_negotiation features p sent e)
      else fails e sent (if op p == OpCode.error then rejected else unexpected_packet)

  -- `NegotiateProtocol`
  unfoldable pub negotiate_protocol : ProtocolVersion → ℕ → Endpoint → List Arrival → Attempt
  negotiate_protocol version features e inbox =
      let request = new_packet OpCode.proto_negotiate (encode version ∷ features ∷ 0 ∷ []) in
      let (e', x) = begin_negotiation e in
      elim x [
        | some err ↦ record { endpoint = e'; sent = []; ending = refused err }
        | none ↦ elim (send request) [
          | some err ↦ fails e' [] (link_error err)
          | none ↦ negotiate_loop features inbox (request ∷ []) e'
        ]
      ]

  -- The loop of `waitForNegotiation`
  unfoldable pub wait_loop : ℕ → List Arrival → Endpoint → Attempt
  wait_loop allowed [] e = record { endpoint = e; sent = []; ending = waiting }
  wait_loop allowed (breaks x ∷ inbox) e = fails e [] (link_error x)
  wait_loop allowed (arrives p ∷ inbox) e =
      let rest = wait_loop allowed inbox e in
      if op p == OpCode.standard_link_tombstone
      then rest
      else if op p == OpCode.proto_negotiate
      then answer_negotiation allowed p [] e
      else fails e [] (if op p == OpCode.error then rejected else unexpected_packet)

  -- `waitForNegotiation`
  unfoldable pub wait_for_negotiation : ℕ → Endpoint → List Arrival → Attempt
  wait_for_negotiation allowed e inbox =
      let (e', x) = begin_negotiation e in
      elim x [
        | some err ↦ record { endpoint = e'; sent = []; ending = refused err }
        | none ↦ wait_loop allowed inbox e'
      ]

  -- `Negotiate`
  unfoldable pub negotiate : ℕ → Endpoint → List Arrival → Attempt
  negotiate features e inbox =
      if e.primary
      then negotiate_protocol current_version (wanted features) e inbox
      else wait_for_negotiation (wanted features) e inbox

-- `requireFeature`, whether it returns nil; `requireNegotiated` is its first test
unfoldable pub has_feature : ℕ → Endpoint → Bool
has_feature feature e =
    not (bit_and e.word negotiated_bit == 0) && not (bit_and e.word feature == 0)
