-- ===== src/Bindgen/Codec.antt =====
-- The encoding of strings in the runtime of generated clients (bindgen/rt/codec.go).
pub mod RoundTrip
mod Tests
use hqq.Common.{
  ℕ, ◌+◌, ◌-◌, ◌%◌, ◌^◌, Bool, true, false, not, ◌&&◌, ◌||◌, Option, some, none, List, [], ◌∷◌,
  ◌++◌, ltb, leb, ◌==◌, if◌then◌else◌, length, take, drop, bit_and, get_or,
}
use hqq.Common.Bytes.{put_le, read_le}

-- `NullLen`
abbrev pub null_len : ℕ
null_len = 2 ^ 32 - 1

-- `Align`
unfoldable pub align : ℕ → ℕ → ℕ
align off n = let x = off + n - 1 in x - bit_and x (n - 1)

abbrev pub has_nul : List ℕ → Bool
has_nul [] = false
has_nul (c ∷ cs) = c == 0 || has_nul cs

-- `CheckStr`, whether it returns nil
unfoldable pub check_str : List ℕ → ℕ → Bool
check_str s limit = not (ltb 0 limit && ltb limit (length s)) && not (has_nul s)

-- `copy(b[off:off+len(bytes)], bytes)`
unfoldable pub write_at : List ℕ → ℕ → List ℕ → List ℕ
write_at b off bytes = take off b ++ (bytes ++ drop (off + length bytes) b)

-- `PutStr`, with the bytes as it leaves them
unfoldable pub put_str : List ℕ → ℕ → List ℕ → List ℕ × ℕ
put_str b off s =
    let end = off + 4 + length s in
    (write_at (write_at (put_le 4 b off (length s % 2 ^ 32)) (off + 4) s) end (0 ∷ []), end + 1)

-- `getLen`
unfoldable pub get_len : List ℕ → ℕ → Option (ℕ × ℕ)
get_len b off =
    if ltb (length b) off
    then none
    else if ltb (length b) (align off 4) || ltb (length b - align off 4) 4
    then none
    else some (read_le 4 b (align off 4), align off 4 + 4)

-- `lengthOK`
unfoldable pub length_ok : ℕ → ℕ → Bool
length_ok n limit = not (n == null_len) && (limit == 0 || leb n limit)

-- `GetStr`: the string and the offset behind it; none is `errValue`.
unfoldable pub get_str : List ℕ → ℕ → ℕ → Option (List ℕ × ℕ)
get_str b off limit = elim (get_len b off) [
  | none ↦ none
  | some (n, p) ↦
      let end = p + n in
      let text = drop p (take end b) in
      if not (length_ok n limit) || ltb (length b - p) (n + 1)
      then none
      else if not (get_or b end 0 == 0) || has_nul text
      then none
      else some (text, end + 1)
]
