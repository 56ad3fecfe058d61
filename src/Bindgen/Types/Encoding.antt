-- ===== src/Bindgen/Types/Encoding.antt =====
-- How a value of a type is laid out in a message body, from its first position to the one behind it:
-- every part is padded to its alignment, a string and bytes have a length of 4 bytes, a string an end
-- byte, an array a count, and a union a tag.
use hqq.Common.{ℕ, suc, ◌+◌, ◌≤◌, ◌≡◌, true, false}
use hqq.Bindgen.Types.{
  IdlType, ScalarKind, scalar, handle, str, bytes, fixed_array, array, struct_of, union_of, Members,
  no_member, member, Cases, bare_case, typed_case, round_up, scalar_size, info_of,
}

mutual
  pub data Encodes : IdlType → ℕ → ℕ → Type 0 where
    scalar_at :
        (k : ScalarKind) (pos : ℕ)
        → Encodes (scalar k) pos (round_up pos (scalar_size k) + scalar_size k)
    handle_at : (pos : ℕ) → Encodes handle pos (round_up pos 4 + 4)
    str_at : (m n pos : ℕ) → (1 ≤ m → n ≤ m) → Encodes (str m) pos (round_up pos 4 + 4 + n + 1)
    bytes_at : (m n pos : ℕ) → (1 ≤ m → n ≤ m) → Encodes (bytes m) pos (round_up pos 4 + 4 + n)
    array_at :
        {t : IdlType} {end : ℕ} (m n pos : ℕ)
        → (1 ≤ m → n ≤ m)
        → Repeats t n (round_up pos 4 + 4) end
        → Encodes (array m t) pos end
    fixed_array_at :
        {t : IdlType} {end : ℕ} (n pos : ℕ)
        → (info_of t).fixed ≡ true
        → 1 ≤ n
        → Packs t n (round_up pos (info_of t).align) end
        → Encodes (fixed_array n t) pos end
    fixed_struct_at :
        {ms : Members} {end : ℕ} (pos : ℕ)
        → (info_of (struct_of ms)).fixed ≡ true
        → Fields ms (round_up pos (info_of (struct_of ms)).align) end
        → Encodes (struct_of ms) pos (round_up end (info_of (struct_of ms)).align)
    open_struct_at :
        {ms : Members} {end : ℕ} (pos : ℕ)
        → (info_of (struct_of ms)).fixed ≡ false
        → Fields ms pos end
        → Encodes (struct_of ms) pos end
    union_at :
        {cs : Cases} {end : ℕ} (pos : ℕ)
        → Picks cs (round_up pos 4 + 4) end
        → Encodes (union_of cs) pos end

  -- A number of elements in a row
  pub data Repeats : IdlType → ℕ → ℕ → ℕ → Type 0 where
    none_left : (t : IdlType) (pos : ℕ) → Repeats t 0 pos pos
    one_more :
        {t : IdlType} {n pos mid end : ℕ}
        → Encodes t pos mid
        → Repeats t n mid end
        → Repeats t (suc n) pos end

  -- A number of elements, each followed by the padding of the next
  pub data Packs : IdlType → ℕ → ℕ → ℕ → Type 0 where
    all_packed : (t : IdlType) (pos : ℕ) → Packs t 0 pos pos
    pack :
        {t : IdlType} {n pos mid end : ℕ}
        → Encodes t pos mid
        → Packs t n (round_up mid (info_of t).align) end
        → Packs t (suc n) pos end

  -- The members in their order
  pub data Fields : Members → ℕ → ℕ → Type 0 where
    no_field : (pos : ℕ) → Fields no_member pos pos
    field :
        {t : IdlType} {ms : Members} {pos mid end : ℕ}
        → Encodes t pos mid
        → Fields ms mid end
        → Fields (member t ms) pos end

  -- The payload of one of the cases
  pub data Picks : Cases → ℕ → ℕ → Type 0 where
    bare : (cs : Cases) (pos : ℕ) → Picks (bare_case cs) pos pos
    payload :
        {t : IdlType} {pos end : ℕ} (cs : Cases)
        → Encodes t pos end
        → Picks (typed_case t cs) pos end
    after_bare : {cs : Cases} {pos end : ℕ} → Picks cs pos end → Picks (bare_case cs) pos end
    after_typed :
        {cs : Cases} {pos end : ℕ} (t : IdlType)
        → Picks cs pos end
        → Picks (typed_case t cs) pos end
