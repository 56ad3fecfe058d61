-- ===== src/Protocol/Laws.antt =====
-- Packets read back what was stored, whatever the order of the stores.
use hqq.Common.{
  ℕ, zero, suc, ◌+◌, ◌*◌, ◌^◌, ◌<◌, ◌≡◌, ◌≢◌, refl, ◌∙◌, ap, List, [], ◌∷◌, leb, ltb, ◌==◌,
  if◌then◌else◌, length, get_or, arith, ◌&&◌, dec_lt, ℕ_discrete, All, ◌-◌, replicate,
}
use hqq.Common.Bytes.{read_le, length-put_le, read_le-put_le, read_le-put_le_other}
use hqq.Protocol.OpCode
use hqq.Protocol.{
  Packet, zero_packet, put_word, word, set_op, op, set_operand, operand, set_operands, new_packet,
  new_standard_link_copy_packet, new_standard_link_tombstone_packet, new_conn_copy_packet,
}

abbrev pub IsPacket : Packet → Type 0
IsPacket p = length p ≡ 64

abbrev pub IsU64 : ℕ → Type 0
IsU64 v = v < 2 ^ 64

put_word-IsPacket : (p : Packet) (i v : ℕ) → IsPacket p → IsPacket (put_word p i v)
unfolding put_word
put_word-IsPacket p i v h = length-put_le 8 p (8 * i) v ∙ h

word-put_word_self :
    (p : Packet) (i v : ℕ) → IsPacket p → i < 8 → IsU64 v → word (put_word p i v) i ≡ v
unfolding put_word word
word-put_word_self p i v h lt small = omega (arith, read_le-put_le 8 p (8 * i) v (omega arith))

word-put_word_other : (p : Packet) (i j v : ℕ) → i ≢ j → word (put_word p i v) j ≡ word p j
unfolding put_word word
word-put_word_other p i j v ne = read_le-put_le_other 8 8 p (8 * i) v (8 * j) (omega arith)

-- Storing an operand keeps the packet's length.
pub set_operand-IsPacket : (p : Packet) (i v : ℕ) → IsPacket p → IsPacket (set_operand p i v)
unfolding set_operand
set_operand-IsPacket p i v h = ground (arith, put_word-IsPacket p (i + 1) v h)

-- After a store of operand `i`, that operand reads the stored word if it exists; every other one,
-- and the opcode, read what they did.
pub operand-set_operand :
    (p : Packet) (i j v : ℕ)
    → IsPacket p
    → IsU64 v
    → (operand (set_operand p i v) j ≡ (if i == j && ltb i 7 then v else operand p j))
      × (op (set_operand p i v) ≡ op p)
unfolding set_operand operand op
operand-set_operand p i j v h small = (
  elim (ℕ_discrete i j) [
    | yes e ↦ rw e (ground (arith, word-put_word_self p (j + 1) v h))
    | no ne ↦ ground (arith, word-put_word_other p (i + 1) (j + 1) v)
  ],
  ground (arith, word-put_word_other p (i + 1) 0 v),
)

-- A store of the opcode clears the rest of the first word and leaves the operands alone.
pub op-set_op :
    (p : Packet) (code j : ℕ)
    → IsPacket p
    → code < 256
    → (op (set_op p code) ≡ code)
      × (word (set_op p code) 0 ≡ code)
      × (operand (set_op p code) j ≡ operand p j)
unfolding set_op op operand
op-set_op p code j h small = (
  omega (arith, word-put_word_self p 0 code h),
  word-put_word_self p 0 code h (omega arith) (omega arith),
  ground (arith, word-put_word_other p 0 (j + 1) code),
)

set_operands-IsPacket :
    (p : Packet) (i : ℕ) (vs : List ℕ) → IsPacket p → IsPacket (set_operands p i vs)
unfolding set_operands
set_operands-IsPacket p i [] h = h
set_operands-IsPacket p i (v ∷ vs) h =
    ground
      (arith, set_operand-IsPacket p i v h, set_operands-IsPacket (set_operand p i v) (i + 1) vs)

get_or-cons : (v : ℕ) (vs : List ℕ) (i : ℕ) → 0 < i → get_or (v ∷ vs) i 0 ≡ get_or vs (i - 1) 0
get_or-cons v vs zero h = absurd (omega arith)
get_or-cons v vs (suc i) h = ap (λ n. get_or vs n 0) (omega arith)

operand-set_operands :
    (p : Packet) (i : ℕ) (vs : List ℕ) (j : ℕ)
    → IsPacket p
    → All IsU64 vs
    → (operand (set_operands p i vs) j ≡ (
        if leb i j && ltb j (i + length vs) && ltb j 7 then get_or vs (j - i) 0 else operand p j))
      × (op (set_operands p i vs) ≡ op p)
unfolding set_operands
operand-set_operands p i [] j h small = (ground arith, refl)
operand-set_operands p i (v ∷ vs) j h (sv, svs) = elim (dec_lt i 7) [
  | no full ↦ (unfold operand in ground arith, ground arith)
  | yes lt ↦ ground (
    arith,
    operand-set_operand p i j v h sv,
    operand-set_operands (set_operand p i v) (i + 1) vs j (set_operand-IsPacket p i v h) svs,
    get_or-cons v vs (j - i),
    shifted,
    get_or-head (j - i),
  )
]
  where
    shifted : get_or vs (j - i - 1) 0 ≡ get_or vs (j - (i + 1)) 0
    shifted = ap (λ n. get_or vs n 0) (omega arith)

    get_or-head : (n : ℕ) → n ≡ 0 → get_or (v ∷ vs) n 0 ≡ v
    get_or-head zero e = refl
    get_or-head (suc n) e = absurd (omega arith)

length-zero_packet : IsPacket zero_packet
length-zero_packet = refl

get_or-replicate : (n i : ℕ) → get_or {A = ℕ} (replicate n 0) i 0 ≡ 0
get_or-replicate zero i = refl
get_or-replicate (suc n) zero = refl
get_or-replicate (suc n) (suc i) = get_or-replicate n i

read_le-replicate : (k n off : ℕ) → read_le k (replicate n 0) off ≡ 0
unfolding read_le
read_le-replicate zero n off = refl
read_le-replicate (suc k) n off =
    omega (arith, get_or-replicate n off, read_le-replicate k n (off + 1))

operand-zero_packet : (j : ℕ) → operand zero_packet j ≡ 0
unfolding operand word
operand-zero_packet j = ground (arith, read_le-replicate 8 64 (8 * (j + 1)))

-- A new packet has 64 bytes, its opcode, and the operands given, the first seven of them; the
-- others are zero.
pub new_packet_lem :
    (code : ℕ) (vs : List ℕ) (j : ℕ)
    → code < 256
    → All IsU64 vs
    → IsPacket (new_packet code vs)
      × (op (new_packet code vs) ≡ code)
      × (operand (new_packet code vs) j
          ≡ (if ltb j 7 && ltb j (length vs) then get_or vs j 0 else 0))
unfolding new_packet
new_packet_lem code vs j small svs = ground (
  arith,
  set_operands-IsPacket (set_op zero_packet code) 0 vs blank,
  operand-set_operands (set_op zero_packet code) 0 vs j blank svs,
  op-set_op zero_packet code j length-zero_packet small,
  operand-zero_packet j,
  ap (λ n. get_or vs n 0) unshifted,
)
  where
    blank : IsPacket (set_op zero_packet code)
    blank = unfold set_op in put_word-IsPacket zero_packet 0 code length-zero_packet

    unshifted : j - 0 ≡ j
    unshifted = omega arith

-- The three packets that are built without the loop are those that `NewPacket` builds.
pub direct-new_packet :
    (a b c d e f g : ℕ)
    → (new_standard_link_copy_packet a b c ≡ new_packet OpCode.standard_link_copy (a ∷ b ∷ c ∷ []))
      × (new_standard_link_tombstone_packet a b c
          ≡ new_packet OpCode.standard_link_tombstone (a ∷ b ∷ c ∷ []))
      × (new_conn_copy_packet a b c d e f g
          ≡ new_packet OpCode.conn_copy (a ∷ b ∷ c ∷ d ∷ e ∷ f ∷ g ∷ []))
unfolding new_packet set_op set_operands set_operand new_standard_link_copy_packet
    new_standard_link_tombstone_packet new_conn_copy_packet
direct-new_packet a b c d e f g = (refl, refl, refl)
