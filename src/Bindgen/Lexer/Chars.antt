-- ===== src/Bindgen/Lexer/Chars.antt =====
-- Character classes, UTF-8 sequences and keywords for bindgen/idl/lex.go; characters are bytes.
use hqq.Common.{
  ℕ, ◌+◌, ◌*◌, ◌-◌, Bool, true, false, ◌&&◌, ◌||◌, Option, some, none, List, [], ◌∷◌, ltb, leb,
  ◌==◌, if◌then◌else◌, get_or,
}

abbrev pub between : ℕ → ℕ → ℕ → Bool
between low high c = leb low c && leb c high

-- `isIdentStart`
unfoldable pub is_ident_start : ℕ → Bool
is_ident_start c = c == 95 || between 97 122 c || between 65 90 c

-- `isDigit`
unfoldable pub is_digit : ℕ → Bool
is_digit c = between 48 57 c

-- `isIdentPart`
unfoldable pub is_ident_part : ℕ → Bool
is_ident_part c = is_ident_start c || is_digit c

-- `isHexDigit`
unfoldable pub is_hex_digit : ℕ → Bool
is_hex_digit c = is_digit c || between 97 102 c || between 65 70 c

abbrev pub is_continuation : ℕ → Bool
is_continuation = between 128 191

-- `utf8.DecodeRune`: the length of the sequence that a slice starts with, none if it is not valid.
-- A missing byte is read as 0, which continues nothing.
unfoldable pub rune_length : List ℕ → Option ℕ
rune_length [] = none
rune_length (c ∷ rest) =
    let second = get_or rest 0 0 in
    if ltb c 128
    then some 1
    else if between 194 223 c
    then (if is_continuation second then some 2 else none)
    else if between 224 239 c
    then (if between (if c == 224 then 160 else 128) (if c == 237 then 159 else 191) second
          && is_continuation (get_or rest 1 0)
        then some 3
        else none)
    else if between 240 244 c
    then (if between (if c == 240 then 144 else 128) (if c == 244 then 143 else 191) second
          && is_continuation (get_or rest 1 0)
          && is_continuation (get_or rest 2 0)
        then some 4
        else none)
    else none

-- The longest prefix whose bytes satisfy the test.
unfoldable pub take_while : (ℕ → Bool) → List ℕ → List ℕ
take_while test [] = []
take_while test (c ∷ rest) = if test c then c ∷ take_while test rest else []

unfoldable pub same_bytes : List ℕ → List ℕ → Bool
same_bytes [] [] = true
same_bytes [] (d ∷ ds) = false
same_bytes (c ∷ cs) [] = false
same_bytes (c ∷ cs) (d ∷ ds) = c == d && same_bytes cs ds

unfoldable pub is_among : List (List ℕ) → List ℕ → Bool
is_among [] text = false
is_among (word ∷ words) text = same_bytes word text || is_among words text

abbrev pub digit_value : ℕ → ℕ
digit_value c = if leb 97 c then c - 87 else if leb 65 c then c - 55 else c - 48

-- `SetString` of `big.Int`, of digits of the base
unfoldable pub digits_value : ℕ → ℕ → List ℕ → ℕ
digits_value base acc [] = acc
digits_value base acc (c ∷ rest) = digits_value base (acc * base + digit_value c) rest

-- The keywords of `keywords`, as bytes: idl, service, include, const, handle, struct, union, case, fn, shim, in, out, inout, destroy,
-- owned_by, ret, bool, i8, i16, i32, i64, u8, u16, u32, u64, f32, f64, size, str, bytes.
abbrev pub keywords : List (List ℕ)
keywords =
    (105 ∷ 100 ∷ 108 ∷ [])
    ∷ (115 ∷ 101 ∷ 114 ∷ 118 ∷ 105 ∷ 99 ∷ 101 ∷ [])
    ∷ (105 ∷ 110 ∷ 99 ∷ 108 ∷ 117 ∷ 100 ∷ 101 ∷ [])
    ∷ (99 ∷ 111 ∷ 110 ∷ 115 ∷ 116 ∷ [])
    ∷ (104 ∷ 97 ∷ 110 ∷ 100 ∷ 108 ∷ 101 ∷ [])
    ∷ (115 ∷ 116 ∷ 114 ∷ 117 ∷ 99 ∷ 116 ∷ [])
    ∷ (117 ∷ 110 ∷ 105 ∷ 111 ∷ 110 ∷ [])
    ∷ (99 ∷ 97 ∷ 115 ∷ 101 ∷ [])
    ∷ (102 ∷ 110 ∷ [])
    ∷ (115 ∷ 104 ∷ 105 ∷ 109 ∷ [])
    ∷ (105 ∷ 110 ∷ [])
    ∷ (111 ∷ 117 ∷ 116 ∷ [])
    ∷ (105 ∷ 110 ∷ 111 ∷ 117 ∷ 116 ∷ [])
    ∷ (100 ∷ 101 ∷ 115 ∷ 116 ∷ 114 ∷ 111 ∷ 121 ∷ [])
    ∷ (111 ∷ 119 ∷ 110 ∷ 101 ∷ 100 ∷ 95 ∷ 98 ∷ 121 ∷ [])
    ∷ (114 ∷ 101 ∷ 116 ∷ [])
    ∷ (98 ∷ 111 ∷ 111 ∷ 108 ∷ [])
    ∷ (105 ∷ 56 ∷ [])
    ∷ (105 ∷ 49 ∷ 54 ∷ [])
    ∷ (105 ∷ 51 ∷ 50 ∷ [])
    ∷ (105 ∷ 54 ∷ 52 ∷ [])
    ∷ (117 ∷ 56 ∷ [])
    ∷ (117 ∷ 49 ∷ 54 ∷ [])
    ∷ (117 ∷ 51 ∷ 50 ∷ [])
    ∷ (117 ∷ 54 ∷ 52 ∷ [])
    ∷ (102 ∷ 51 ∷ 50 ∷ [])
    ∷ (102 ∷ 54 ∷ 52 ∷ [])
    ∷ (115 ∷ 105 ∷ 122 ∷ 101 ∷ [])
    ∷ (115 ∷ 116 ∷ 114 ∷ [])
    ∷ (98 ∷ 121 ∷ 116 ∷ 101 ∷ 115 ∷ [])
    ∷ []
