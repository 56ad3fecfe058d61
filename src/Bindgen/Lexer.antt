-- ===== src/Bindgen/Lexer.antt =====
-- The lexer of bindgen/idl/lex.go.
pub mod Chars
pub mod Loop
mod Source
pub mod Space
pub mod Tokens
pub mod Laws
pub mod Limits
mod Tests
use hqq.Common.{
  ℕ, zero, suc, ◌+◌, ◌-◌, ◌^◌, Bool, true, false, not, ◌&&◌, ◌||◌, Option, some, none, List, [],
  ◌∷◌, ◌++◌, ltb, leb, ◌==◌, if◌then◌else◌, get_or, length, take, drop,
}
use Chars.{
  is_ident_start, is_digit, is_ident_part, is_hex_digit, rune_length, take_while, is_among,
  keywords, digits_value, between,
}
use Loop.{Once, leave, again, refuse, exhausted, Result, done, stopped, out_of_fuel, loop, bind}
unfoldable pub use Source.*

abbrev pub token : TokKind → List ℕ → Pos → Token
token kind text pos = record { kind = kind; text = text; val = none; pos = pos }

-- `ident`
unfoldable pub ident : Pos → Lexer → Result SyntaxError (Token × Lexer)
ident pos lx =
    let text = take_while is_ident_part lx.rest in
    let lx' = advance (length text) lx in
    if ltb 128 (length text)
    then fail pos identifier_too_long
    else if is_among keywords text
    then done (token t_kw text pos, lx')
    else done (token t_ident text pos, lx')

-- The end of `number`, from the test of the byte that follows the digits; the digits are not empty,
-- so `SetString` succeeds.
unfoldable pub number_end :
    Pos → Bool → ℕ → List ℕ → List ℕ → Lexer → Result SyntaxError (Token × Lexer)
number_end pos neg base text digits lx =
    let magnitude = digits_value base 0 digits in
    if ltb 0 (length lx.rest) && is_ident_part (peek_at 0 lx)
    then fail pos malformed_integer
    else if ltb (if neg then 2 ^ 63 else 2 ^ 64 - 1) magnitude
    then fail pos integer_out_of_range
    else done (
      record {
        kind = t_int;
        text = text;
        val = some (record { negative = neg && not (magnitude == 0); magnitude = magnitude });
        pos = pos;
      },
      lx,
    )

-- `number` behind the sign, whose bytes are `sign`
unfoldable pub unsigned : Pos → Bool → List ℕ → Lexer → Result SyntaxError (Token × Lexer)
unfolding number_end
unsigned pos neg sign lx =
    if peek_at 0 lx == 48 && peek_at 1 lx == 120
    then (let digits = take_while is_hex_digit (drop 2 lx.rest) in
        if length digits == 0
        then fail pos hex_without_digits
        else number_end pos neg 16 (sign ++ (48 ∷ 120 ∷ digits)) digits
            (advance (2 + length digits) lx))
    else (let digits = take_while is_digit lx.rest in
        number_end pos neg 10 (sign ++ digits) digits (advance (length digits) lx))

-- `number`
unfoldable pub number : Pos → Lexer → Result SyntaxError (Token × Lexer)
number pos lx =
    if peek_at 0 lx == 45
    then unsigned pos true (45 ∷ []) (advance 1 lx)
    else unsigned pos false [] lx

-- The test of the length at the end of a round of `str`.
abbrev pub str_next : Pos → Lexer → List ℕ → Once SyntaxError (Lexer × List ℕ) (Token × Lexer)
str_next pos lx out =
    if ltb 256 (length out)
    then refuse (record { pos = pos; msg = string_too_long })
    else again (lx, out)

-- A round of the loop of `str`, with what is decoded so far.
unfoldable pub str_once : Pos → Lexer × List ℕ → Once SyntaxError (Lexer × List ℕ) (Token × Lexer)
str_once pos (lx, out) = elim lx.rest [
  | [] ↦ refuse (record { pos = pos; msg = unterminated_string })
  | c ∷ rest ↦
      if c == 34
      then leave (token t_str out pos, advance 1 lx)
      else if c == 92
      then (if not (peek_at 1 lx == 92) && not (peek_at 1 lx == 34)
          then refuse (record { pos = lx.pos; msg = invalid_escape })
          else str_next pos (advance 2 lx) (out ++ (peek_at 1 lx ∷ [])))
      else if ltb c 32 || ltb 126 c
      then refuse (record { pos = lx.pos; msg = non_printable })
      else str_next pos (advance 1 lx) (out ++ (c ∷ []))
]

-- `str`
unfoldable pub str : Pos → Lexer → Result SyntaxError (Token × Lexer)
str pos lx = loop (str_once pos) (enough (advance 1 lx)) (advance 1 lx, [])

abbrev pub is_punct : ℕ → Bool
is_punct c =
    c == 123
    || c == 125
    || c == 40
    || c == 41
    || c == 91
    || c == 93
    || c == 60
    || c == 62
    || c == 44
    || c == 59
    || c == 58
    || c == 61

-- `next` behind the space: punctuation is tried after the other tokens, `<=` and `->` before `<`.
unfoldable pub punctuation : Lexer → Result SyntaxError (Token × Lexer)
punctuation lx =
    let c = peek_at 0 lx in
    let d = peek_at 1 lx in
    if (c == 60 && d == 61) || (c == 45 && d == 62)
    then done (token t_punct (c ∷ d ∷ []) lx.pos, advance 2 lx)
    else if is_punct c
    then done (token t_punct (c ∷ []) lx.pos, advance 1 lx)
    else if leb 128 c
    then fail lx.pos non_ascii
    else fail lx.pos unexpected_character

-- `@name`
unfoldable pub annotation : Lexer → Result SyntaxError (Token × Lexer)
annotation lx =
    if not (is_ident_start (peek_at 1 lx))
    then fail lx.pos annotation_name
    else elim (ident (advance 1 lx).pos (advance 1 lx)) [
      | done (t, lx') ↦ done (token t_ann t.text lx.pos, lx')
      | stopped e ↦ stopped e
      | out_of_fuel ↦ out_of_fuel
    ]

-- `next`, from the first byte that is no space
unfoldable pub next_token : Lexer → Result SyntaxError (Token × Lexer)
next_token lx = elim lx.rest [
  | [] ↦ done (token t_eof [] lx.pos, lx)
  | c ∷ rest ↦
      if is_ident_start c
      then ident lx.pos lx
      else if is_digit c
      then number lx.pos lx
      else if c == 45 && is_digit (peek_at 1 lx)
      then number lx.pos lx
      else if c == 34
      then str lx.pos lx
      else if c == 64
      then annotation lx
      else punctuation lx
]

-- `next`
unfoldable pub next : Lexer → Result SyntaxError (Token × Lexer)
next lx = bind (skip_space lx) next_token

-- A round of the loop of `lex`.
unfoldable pub lex_once : Lexer × List Token → Once SyntaxError (Lexer × List Token) (List Token)
lex_once (lx, toks) = elim (next lx) [
  | done (t, lx') ↦ elim t.kind [
    | t_eof ↦ leave (toks ++ (t ∷ []))
    | _ ↦ again (lx', toks ++ (t ∷ []))
  ]
  | stopped e ↦ refuse e
  | out_of_fuel ↦ exhausted
]

-- `lex`
unfoldable pub lex : List ℕ → Result SyntaxError (List Token)
lex src =
    let start : Lexer = record { rest = src; pos = record { line = 1; col = 1 } } in
    if leb 3 (length src) && get_or src 0 0 == 239 && get_or src 1 0 == 187 && get_or src 2 0 == 191
    then fail start.pos byte_order_mark
    else loop lex_once (enough start) (start, [])
