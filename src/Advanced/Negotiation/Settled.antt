-- ===== src/Advanced/Negotiation/Settled.antt =====
-- What an attempt leaves behind, whatever the peer sends.
use hqq.Common.{
  ℕ, ◌-◌, ◌≤◌, ◌≡◌, ◌≢◌, Bool, true, false, not, ◌||◌, Option, some, none, List, [], ◌∷◌, ltb, ◌==◌,
  if◌then◌else◌, min, bit_or, bit_and, arith, refl, ap, Bool-cases, Option-cases, inl, inr,
}
use hqq.Common.Subsets.{
  IsSubset, IsSubset-left, IsSubset-right, IsSubset-trans, IsSubset-minus, IsSubset-of_minus,
}
use hqq.Protocol.{Packet, new_packet, operand}
use hqq.Protocol.OpCode
use hqq.Advanced.Flags.{and_not}
use hqq.Advanced.Negotiation.{
  supported_features, features_since_1_1, negotiated_bit, major_version, minor_version,
  current_version, decode_version, state_none, negotiating, negotiated, failed, Endpoint,
  NegotiationError, link_error, Arrival, arrives, breaks, Ending, agreed, waiting, refused, Attempt,
  begin_negotiation, fails, set_negotiated, acknowledged, offer, answer_negotiation, negotiate_loop,
  negotiate_protocol, wait_loop, wait_for_negotiation, encode, wanted, negotiate,
}

-- The link is negotiated, with a version of ours and features that were asked for and are supported.
pub record IsNegotiated (features : ℕ) (e : Endpoint) : Type 0 where
  pub state : e.state ≡ negotiated
  pub major : e.version.major ≡ major_version
  pub minor : e.version.minor ≤ minor_version
  pub asked : IsSubset e.features features
  pub known : IsSubset e.features supported_features
  pub published : e.word ≡ bit_or negotiated_bit e.features

-- The state of the link tells how the attempt has ended.
abbrev pub Settles : ℕ → Ending → Endpoint → Type 0
Settles features agreed e = IsNegotiated features e
Settles features waiting e = e.state ≡ negotiating
Settles features (refused x) e = e.state ≡ failed

abbrev pub Settled : ℕ → Attempt → Type 0
Settled features r = Settles features r.ending r.endpoint

fails-Settled :
    (features : ℕ) (e : Endpoint) (sent : List Packet) (x : NegotiationError)
    → Settled features (fails e sent x)
unfolding fails
fails-Settled features e sent x = refl

if-Settled :
    (features : ℕ) (b : Bool) (r q : Attempt)
    → (b ≡ true → Settled features r)
    → (b ≡ false → Settled features q)
    → Settled features (if b then r else q)
if-Settled features true r q p s = p refl
if-Settled features false r q p s = s refl

acknowledged-Settled :
    (features : ℕ) (p : Packet) (sent : List Packet) (e : Endpoint)
    → Settled features (acknowledged features p sent e)
unfolding acknowledged
acknowledged-Settled features p sent e =
    let version = decode_version (operand p 0) in
    if-Settled features
      (not (version.major == major_version)
        || ltb minor_version version.minor
        || not (and_not (operand p 1) (bit_and features supported_features) == 0))
      (fails e sent _) _ (λ _. fails-Settled features e sent _)
      λ passed.
        let meets : IsSubset (operand p 1) (bit_and features supported_features) =
          IsSubset-of_minus (operand p 1) (bit_and features supported_features)
            (unfold and_not in ground arith) in
        unfold set_negotiated in
        record {
          state = refl;
          major = ground arith;
          minor = ground arith;
          asked =
              IsSubset-trans (operand p 1) (bit_and features supported_features) features meets
                (IsSubset-left features supported_features);
          known =
              IsSubset-trans (operand p 1) (bit_and features supported_features) supported_features
                meets (IsSubset-right features supported_features);
          published = refl;
        }

module _ (send : Packet → Option ℕ) where
  offer-IsSubset :
      (allowed : ℕ) (p : Packet)
      → (IsSubset (offer send allowed p).1 allowed)
        × (IsSubset (offer send allowed p).1 supported_features)
  unfolding offer and_not
  offer-IsSubset allowed p =
      let s = bit_and (operand p 1) supported_features in
      let f = bit_and s allowed in
      let in_s : IsSubset f supported_features =
        IsSubset-trans f s supported_features (IsSubset-left s allowed)
          (IsSubset-right (operand p 1) supported_features) in
      let less = IsSubset-minus f features_since_1_1 in
      let g = f - bit_and f features_since_1_1 in
      elim (Bool-cases (ltb (min (decode_version (operand p 0)).minor minor_version) 1)) [
        | inl x ↦ rw x (
          IsSubset-trans g f allowed less (IsSubset-right s allowed),
          IsSubset-trans g f supported_features less in_s,
        )
        | inr x ↦ rw x (IsSubset-right s allowed, in_s)
      ]

  answer_negotiation-Settled :
      (allowed : ℕ) (p : Packet) (sent : List Packet) (e : Endpoint)
      → Settled allowed (answer_negotiation send allowed p sent e)
  unfolding answer_negotiation
  answer_negotiation-Settled allowed p sent e =
      let v = (offer send allowed p).0 in
      let f = (offer send allowed p).1 in
      let ack = new_packet OpCode.proto_ack (encode v ∷ f ∷ 0 ∷ []) in
      let subset = offer-IsSubset allowed p in
      if-Settled allowed (not ((decode_version (operand p 0)).major == major_version)) (fails e _ _)
        _ (λ _. fails-Settled allowed e _ _)
        λ ours. elim (Option-cases (send ack)) [
          | inl x ↦ rw x (
              unfold set_negotiated in
              record {
                state = refl;
                major = unfold offer in ground arith;
                minor = unfold offer in omega arith;
                asked = subset.0;
                known = subset.1;
                published = refl;
              })
          | inr (x, y) ↦ rw y (fails-Settled allowed e sent _)
        ]

  negotiate_loop-Settled :
      (features : ℕ) (inbox : List Arrival) (sent : List Packet) (e : Endpoint)
      → e.state ≡ negotiating
      → Settled features (negotiate_loop send features inbox sent e)
  unfolding negotiate_loop
  negotiate_loop-Settled features [] sent e h = h
  negotiate_loop-Settled features (breaks x ∷ inbox) sent e h = fails-Settled features e sent _
  negotiate_loop-Settled features (arrives p ∷ inbox) sent e h =
      search
        (
          if-Settled,
          fails-Settled,
          negotiate_loop-Settled features inbox sent e h,
          acknowledged-Settled features p sent e,
          answer_negotiation-Settled features p sent e,
        )
        depth 20

  wait_loop-Settled :
      (allowed : ℕ) (inbox : List Arrival) (e : Endpoint)
      → e.state ≡ negotiating
      → Settled allowed (wait_loop send allowed inbox e)
  unfolding wait_loop
  wait_loop-Settled allowed [] e h = h
  wait_loop-Settled allowed (breaks x ∷ inbox) e h = fails-Settled allowed e [] _
  wait_loop-Settled allowed (arrives p ∷ inbox) e h =
      search
        (
          if-Settled,
          fails-Settled,
          wait_loop-Settled allowed inbox e h,
          answer_negotiation-Settled allowed p [] e,
        )
        depth 20

  pub begin-fresh :
      (e : Endpoint)
      → e.state ≡ state_none
      → begin_negotiation e ≡ (record e { state = negotiating }, none)
  unfolding begin_negotiation
  begin-fresh e fresh = ground arith

  -- The attempts behind `beginNegotiation`
  abbrev pub requested : ℕ → List Arrival → Endpoint → Attempt
  requested features inbox e =
      let request =
        new_packet OpCode.proto_negotiate (encode current_version ∷ features ∷ 0 ∷ []) in
      elim (send request) [
        | some err ↦ fails e [] (link_error err)
        | none ↦ negotiate_loop send features inbox (request ∷ []) e
      ]

  pub negotiate_protocol-fresh :
      (features : ℕ) (e : Endpoint) (inbox : List Arrival)
      → e.state ≡ state_none
      → negotiate_protocol send current_version features e inbox
        ≡ requested features inbox (record e { state = negotiating })
  unfolding negotiate_protocol
  negotiate_protocol-fresh features e inbox fresh =
      ap
        (λ (b : Endpoint × Option NegotiationError). elim b.1 as (λ _. Attempt) [
          | some err ↦ record { endpoint = b.0; sent = []; ending = refused err }
          | none ↦ requested features inbox b.0
        ])
        (begin-fresh e fresh)

  pub wait_for_negotiation-fresh :
      (allowed : ℕ) (e : Endpoint) (inbox : List Arrival)
      → e.state ≡ state_none
      → wait_for_negotiation send allowed e inbox
        ≡ wait_loop send allowed inbox (record e { state = negotiating })
  unfolding wait_for_negotiation
  wait_for_negotiation-fresh allowed e inbox fresh =
      ap
        (λ (b : Endpoint × Option NegotiationError). elim b.1 as (λ _. Attempt) [
          | some err ↦ record { endpoint = b.0; sent = []; ending = refused err }
          | none ↦ wait_loop send allowed inbox b.0
        ])
        (begin-fresh e fresh)

  requested-Settled :
      (features : ℕ) (inbox : List Arrival) (e : Endpoint)
      → e.state ≡ negotiating
      → Settled features (requested features inbox e)
  requested-Settled features inbox e h =
      let request =
        new_packet OpCode.proto_negotiate (encode current_version ∷ features ∷ 0 ∷ []) in
      elim (Option-cases (send request)) [
        | inl x ↦ rw (x, requested) (negotiate_loop-Settled features inbox (request ∷ []) e h)
        | inr (x, y) ↦ rw (y, requested) (fails-Settled features e [] _)
      ]

  -- An attempt on a link that has not been negotiated ends, if it ends, in the state that tells how:
  -- a link is negotiated only with a version that this side speaks, and with features that this side
  -- asked for (all, if it asked for none) and supports, whatever packets arrive.
  pub negotiate-Settled :
      (features : ℕ) (e : Endpoint) (inbox : List Arrival)
      → e.state ≡ state_none
      → Settled (if features == 0 then 15 else features) (negotiate send features e inbox)
  unfolding negotiate wanted
  negotiate-Settled features e inbox fresh =
      if-Settled (wanted features) e.primary _ _
        (λ _.
          rw (negotiate_protocol-fresh (wanted features) e inbox fresh)
            (requested-Settled (wanted features) inbox (record e { state = negotiating }) refl))
        (λ _.
          rw (wait_for_negotiation-fresh (wanted features) e inbox fresh)
            (wait_loop-Settled (wanted features) inbox (record e { state = negotiating }) refl))

  -- An attempt on a link with another state changes nothing, sends nothing and is refused.
  begun_once :
      (features : ℕ) (e : Endpoint) (inbox : List Arrival)
      → e.state ≢ state_none
      → let r = negotiate send features e inbox in
        (r.endpoint ≡ e) × (r.sent ≡ []) × (r.ending ≢ agreed) × (r.ending ≢ waiting)
  unfolding negotiate negotiate_protocol wait_for_negotiation begin_negotiation
  begun_once features e inbox begun =
      (ground arith, ground arith, λ x. ground arith, λ x. ground arith)
