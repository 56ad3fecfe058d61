-- ===== src/Bindgen/Wire/Laws.antt =====
-- A header is read back as it was written; ids are never 0; handles stay with their session.
use hqq.Common.{
  ℕ, ◌+◌, ◌*◌, ◌/◌, ◌%◌, ◌^◌, ◌<◌, ◌≤◌, ◌≡◌, ◌≢◌, inl, Bool, List, length, get_or, ◌==◌,
  if◌then◌else◌, some, none, arith, refl, ◌∙◌,
}
use hqq.Common.Bits.{bit_or_disjoint}
use hqq.Common.Bytes.{put_le, read_le, length-put_le, read_le-put_le, read_le-put_le_other}
use hqq.Bindgen.Wire.{
  Header, load_header, put_header, first_word, next_id, foreign_handle, invalid_arg, new_handle,
  check_handle,
}

-- The fields fit their Go types: uint8, uint8, uint16, and three of uint32.
pub record IsHeader (h : Header) : Type 0 where
  pub kind_fits : h.kind < 2 ^ 8
  pub flags_fit : h.flags < 2 ^ 8
  pub op_fits : h.op < 2 ^ 16
  pub id_fits : h.id < 2 ^ 32
  pub total_fits : h.total < 2 ^ 32
  pub aux_fits : h.aux < 2 ^ 32

first_word_lem :
    (h : Header)
    → IsHeader h
    → first_word h ≡ h.kind + 2 ^ 8 * h.flags + 2 ^ 16 * h.op + 2 ^ 32 * h.id
unfolding first_word
first_word_lem h v =
    rw
      (
        bit_or_disjoint 8 h.kind h.flags v.kind_fits,
        bit_or_disjoint 16 (h.kind + 2 ^ 8 * h.flags) h.op
            (omega (arith, v.kind_fits, v.flags_fit)),
      )
      (bit_or_disjoint 32 (h.kind + 2 ^ 8 * h.flags + 2 ^ 16 * h.op) h.id
        (omega (arith, v.kind_fits, v.flags_fit, v.op_fits)))

-- A word of 8 bytes, written as its four parts.
put_le-parts :
    (b : List ℕ) (w : ℕ)
    → put_le 8 b 0 w
      ≡ put_le 4
          (put_le 2 (put_le 1 (put_le 1 b 0 w) 1 (w / 256)) 2 (w / 256 / 256))
          4
          (w / 256 / 256 / 256 / 256)
unfolding put_le
put_le-parts b w = refl

-- The four fields that share the first word.
module _ (b : List ℕ) (w : ℕ) (long : 16 ≤ length b) where
  abbrev b₁ : List ℕ
  b₁ = put_le 1 b 0 w

  abbrev b₂ : List ℕ
  b₂ = put_le 1 b₁ 1 (w / 256)

  abbrev b₃ : List ℕ
  b₃ = put_le 2 b₂ 2 (w / 256 / 256)

  lengths : (length b₁ ≡ length b) × (length b₂ ≡ length b) × (length b₃ ≡ length b)
  lengths = omega (
    arith,
    length-put_le 1 b 0 w,
    length-put_le 1 b₁ 1 (w / 256),
    length-put_le 2 b₂ 2 (w / 256 / 256),
  )

  -- What the last of the four writes leaves before it.
  before_last : (l j : ℕ) → j + l ≤ 4 → read_le l (put_le 8 b 0 w) j ≡ read_le l b₃ j
  before_last l j h =
      rw (put_le-parts b w) (read_le-put_le_other 4 l b₃ 4 (w / 256 / 256 / 256 / 256) j (inl h))

  read_parts :
      (read_le 1 (put_le 8 b 0 w) 0 ≡ w % 256)
      × (read_le 1 (put_le 8 b 0 w) 1 ≡ w / 256 % 256)
      × (read_le 2 (put_le 8 b 0 w) 2 ≡ w / 256 / 256 % 256 ^ 2)
      × (read_le 4 (put_le 8 b 0 w) 4 ≡ w / 256 / 256 / 256 / 256 % 256 ^ 4)
  read_parts = (
    omega (
      arith,
      before_last 1 0 (omega arith),
      read_le-put_le_other 2 1 b₂ 2 (w / 256 / 256) 0 (inl (omega arith)),
      read_le-put_le_other 1 1 b₁ 1 (w / 256) 0 (inl (omega arith)),
      read_le-put_le 1 b 0 w (omega arith),
    ),
    omega (
      arith,
      before_last 1 1 (omega arith),
      read_le-put_le_other 2 1 b₂ 2 (w / 256 / 256) 1 (inl (omega arith)),
      read_le-put_le 1 b₁ 1 (w / 256) (omega (arith, lengths)),
    ),
    omega (
      arith,
      before_last 2 2 (omega arith),
      read_le-put_le 2 b₂ 2 (w / 256 / 256) (omega (arith, lengths)),
    ),
    rw (put_le-parts b w)
        (read_le-put_le 4 b₃ 4 (w / 256 / 256 / 256 / 256) (omega (arith, lengths))),
  )

byte : (b : List ℕ) (i : ℕ) → read_le 1 b i ≡ get_or b i 0
unfolding read_le
byte b i = omega arith

same_fields :
    (g h : Header)
    → g.kind ≡ h.kind
    → g.flags ≡ h.flags
    → g.op ≡ h.op
    → g.id ≡ h.id
    → g.total ≡ h.total
    → g.aux ≡ h.aux
    → g ≡ h
same_fields g h e₁ e₂ e₃ e₄ e₅ e₆ =
    λ i. record { kind = e₁ i; flags = e₂ i; op = e₃ i; id = e₄ i; total = e₅ i; aux = e₆ i }

-- A header that fits its types is read back as it was written, from any slice of 16 bytes or more.
pub load_header-put_header :
    (b : List ℕ) (h : Header) → 16 ≤ length b → IsHeader h → load_header (put_header b h) ≡ h
unfolding load_header put_header
load_header-put_header b h long v =
    let w = first_word h in
    let b₁ = put_le 8 b 0 w in
    let b₂ = put_le 4 b₁ 8 h.total in
    let keep : (l j : ℕ) → j + l ≤ 8 → read_le l (put_le 4 b₂ 12 h.aux) j ≡ read_le l b₁ j =
      λ l j below.
        read_le-put_le_other 4 l b₂ 12 h.aux j (inl (omega arith))
        ∙ read_le-put_le_other 4 l b₁ 8 h.total j (inl below) in
    let whole = first_word_lem h v in
    let (kind, flags, op, id) = read_parts b w long in
    let total : read_le 4 (put_le 4 b₂ 12 h.aux) 8 ≡ h.total =
      read_le-put_le_other 4 4 b₂ 12 h.aux 8 (inl (omega arith))
      ∙ omega (
        arith,
        read_le-put_le 4 b₁ 8 h.total (omega (arith, length-put_le 8 b 0 w)),
        v.total_fits,
      ) in
    let aux : read_le 4 (put_le 4 b₂ 12 h.aux) 12 ≡ h.aux = omega (
      arith,
      read_le-put_le 4 b₂ 12 h.aux
          (omega (arith, length-put_le 8 b 0 w, length-put_le 4 b₁ 8 h.total)),
      v.aux_fits,
    ) in
    same_fields (load_header (put_header b h)) h
      (omega (arith, byte (put_header b h) 0, keep 1 0 (omega arith), kind, whole, v.kind_fits))
      (omega (
        arith,
        byte (put_header b h) 1,
        keep 1 1 (omega arith),
        flags,
        whole,
        v.kind_fits,
        v.flags_fit,
      ))
      (omega (arith, keep 2 2 (omega arith), op, whole, v.kind_fits, v.flags_fit, v.op_fits))
      (omega
        (arith, keep 4 4 (omega arith), id, whole, v.kind_fits, v.flags_fit, v.op_fits, v.id_fits))
      total aux

-- The successor of an id that fits 32 bits fits them, is never 0, and is another id.
pub next_id_lem :
    (id : ℕ) → id < 2 ^ 32 → (1 ≤ next_id id) × (next_id id < 2 ^ 32) × (next_id id ≢ id)
unfolding next_id
next_id_lem id h = ground arith

-- A handle that a session makes for an id passes that session's check, unless the id is 0 and the
-- parameter is not nullable; another session refuses it as foreign, if the id is not 0.
pub check_handle-new_handle :
    (sess other id : ℕ) (nullable : Bool)
    → sess ≢ other
    → (check_handle sess (new_handle sess id) nullable
        ≡ (if id == 0 then (if nullable then none else some invalid_arg) else none))
      × (check_handle other (new_handle sess id) nullable ≡ (
          if id == 0 then (if nullable then none else some invalid_arg) else some foreign_handle))
unfolding check_handle new_handle
check_handle-new_handle sess other id nullable ne = ground arith
