-- ===== src/Bindgen/Lexer/Source.antt =====
-- The source, its tokens, and the space between them (bindgen/idl/lex.go).
use hqq.Common.{
  ℕ, suc, ◌+◌, Bool, ◌&&◌, ◌||◌, Option, some, none, List, [], ◌∷◌, ◌==◌, if◌then◌else◌, get_or,
  length, drop,
}
use hqq.Bindgen.Lexer.Chars.{rune_length}
use hqq.Bindgen.Lexer.Loop.{
  Once, leave, again, refuse, exhausted, Result, done, stopped, out_of_fuel, loop,
}

-- `tokKind`
pub data TokKind : Type 0 where
  t_eof t_ident t_kw t_int t_str t_punct t_ann : TokKind

pub record Pos : Type 0 where
  pub line : ℕ
  pub col : ℕ

-- A `*big.Int`: whether it is negative, and its magnitude
pub record BigInt : Type 0 where
  pub negative : Bool
  pub magnitude : ℕ

-- `token`
pub record Token : Type 0 where
  pub kind : TokKind
  pub text : List ℕ
  pub val : Option BigInt
  pub pos : Pos

-- The messages of `syntaxError`
pub data Message : Type 0 where
  byte_order_mark unterminated_comment invalid_utf8 : Message
  annotation_name non_ascii unexpected_character identifier_too_long : Message
  hex_without_digits malformed_integer integer_out_of_range : Message
  unterminated_string invalid_escape non_printable string_too_long : Message

-- `syntaxError`
pub record SyntaxError : Type 0 where
  pub pos : Pos
  pub msg : Message

-- `lexer`, with `src[i:]` for the slice and the index
pub record Lexer : Type 0 where
  pub rest : List ℕ
  pub pos : Pos

abbrev pub fail {ℓ} : {A : Type ℓ} → Pos → Message → Result SyntaxError A
fail pos msg = stopped (record { pos = pos; msg = msg })

abbrev pub peek_at : ℕ → Lexer → ℕ
peek_at n lx = get_or lx.rest n 0

abbrev pub advance : ℕ → Lexer → Lexer
advance n lx = record {
  rest = drop n lx.rest;
  pos = record { line = lx.pos.line; col = lx.pos.col + n };
}

abbrev pub newline : Lexer → Lexer
newline lx = record { rest = drop 1 lx.rest; pos = record { line = lx.pos.line + 1; col = 1 } }

-- `skipRune`, then the next round of the comment's loop
unfoldable pub skip_rune : Lexer → Once SyntaxError Lexer Lexer
skip_rune lx = elim (rune_length lx.rest) [
  | none ↦ refuse (record { pos = lx.pos; msg = invalid_utf8 })
  | some n ↦ again (advance n lx)
]

-- A round of the loop over a line comment; no byte is a newline's before the end.
unfoldable pub line_once : Lexer → Once SyntaxError Lexer Lexer
line_once lx = elim lx.rest [
  | [] ↦ leave lx
  | c ∷ rest ↦ if c == 10 then leave lx else skip_rune lx
]

-- A round of the loop over a block comment that began at `start`.
unfoldable pub block_once : Pos → Lexer → Once SyntaxError Lexer Lexer
block_once start lx = elim lx.rest [
  | [] ↦ refuse (record { pos = start; msg = unterminated_comment })
  | c ∷ rest ↦
      if c == 42 && peek_at 1 lx == 47
      then leave (advance 2 lx)
      else if c == 10
      then again (newline lx)
      else skip_rune lx
]

-- Every loop gets one round more than there are bytes left.
abbrev pub enough : Lexer → ℕ
enough lx = suc (length lx.rest)

abbrev pub and_again : Result SyntaxError Lexer → Once SyntaxError Lexer Lexer
and_again (done lx) = again lx
and_again (stopped e) = refuse e
and_again out_of_fuel = exhausted

-- A round of the loop of `skipSpace`.
unfoldable pub space_once : Lexer → Once SyntaxError Lexer Lexer
space_once lx = elim lx.rest [
  | [] ↦ leave lx
  | c ∷ rest ↦
      if c == 10
      then again (newline lx)
      else if c == 32 || c == 9 || c == 13
      then again (advance 1 lx)
      else if c == 47 && peek_at 1 lx == 47
      then and_again (loop line_once (enough lx) lx)
      else if c == 47 && peek_at 1 lx == 42
      then and_again (loop (block_once lx.pos) (enough (advance 2 lx)) (advance 2 lx))
      else leave lx
]

-- `skipSpace`
unfoldable pub skip_space : Lexer → Result SyntaxError Lexer
skip_space lx = loop space_once (enough lx) lx
