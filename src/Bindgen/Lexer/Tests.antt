-- ===== src/Bindgen/Lexer/Tests.antt =====
-- A line of an interface file.
use hqq.Common.{ℕ, ◌≡◌, ◌⊎◌, List, [], ◌∷◌, true, refl, length}
use hqq.Bindgen.Lexer.{
  Token, SyntaxError, lex, lex_once, next, skip_space, space_once, line_once, skip_rune, next_token,
  ident, number, unsigned, number_end, str, str_once, punctuation,
}
use hqq.Bindgen.Lexer.Chars.{
  is_ident_start, is_digit, is_ident_part, rune_length, take_while, is_among, same_bytes,
  digits_value,
}
use hqq.Bindgen.Lexer.Loop.{Result, done, stopped, out_of_fuel, loop}
use hqq.Bindgen.Lexer.Laws.{lex-ends}
use hqq.Bindgen.Lexer.Limits.{lex_complete, are_complete}

abbrev source : List ℕ
source =
    99 ∷ 111 ∷ 110 ∷ 115 ∷ 116 ∷ 32 ∷ 97 ∷ 49 ∷ 32 ∷ 61 ∷ 32 ∷ 45 ∷ 55 ∷ 59 ∷ 32 ∷ 47 ∷ 47 ∷ 32
    ∷ 120 ∷ 10 ∷ 105 ∷ 100 ∷ 101 ∷ 110 ∷ 116 ∷ 32 ∷ 34 ∷ 97 ∷ 92 ∷ 34 ∷ 98 ∷ 34 ∷ []

abbrev tokens : Result SyntaxError (List Token) → List Token
tokens (done toks) = toks
tokens (stopped e) = []
tokens out_of_fuel = []

source_lexed : lex source ≡ done (tokens (lex source))
unfolding lex loop lex_once next skip_space space_once line_once skip_rune next_token ident number
    unsigned number_end str str_once punctuation is_ident_start is_digit is_ident_part rune_length
    take_while is_among same_bytes digits_value
source_lexed = refl

eight_tokens : length (tokens (lex source)) ≡ 8
unfolding lex loop lex_once next skip_space space_once line_once skip_rune next_token ident number
    unsigned number_end str str_once punctuation is_ident_start is_digit is_ident_part rune_length
    take_while is_among same_bytes digits_value
eight_tokens = refl

lex-ends_example :
    ((toks : List Token) × (lex source ≡ done toks))
    ⊎ ((e : SyntaxError) × (lex source ≡ stopped e))
lex-ends_example = lex-ends source

lex_complete_example : are_complete (tokens (lex source)) ≡ true
lex_complete_example = lex_complete source (tokens (lex source)) source_lexed
