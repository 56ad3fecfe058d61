-- ===== src/Bindgen/Parser/Tests.antt =====
-- The line of an interface file with a nested annotation.
use hqq.Common.{◌++◌, true, false, some, none}
use hqq.Bindgen.Lexer.{Pos, Token, TokKind, t_eof, t_int, t_ident, t_kw, t_punct}
use hqq.Bindgen.Parser.Words.{
  kw_struct, kw_i32, open_brace, close_brace, open_bracket, close_bracket, at_most, colon,
  semicolon,
}
use hqq.Bindgen.Parser.Monad.{Parser, parsed}
use hqq.Bindgen.Parser.Decls.{new_parser}
use hqq.Bindgen.Parser.Sentences.{
  sized_array, bounded, StructSentence, struct_tokens, struct_fits, struct_node,
}
use hqq.Bindgen.Parser.Reads.{left_with}
use hqq.Bindgen.Parser.Accepts.{struct_decl-reads}
use hqq.Bindgen.Parser.Monad.{
  pure, fail, gives_up, ◌>>=◌, cur, advance, is_punct, is_kw, report, edit, while_cur, comma_list,
  enough,
}
use hqq.Bindgen.Parser.Grammar.{
  expect_punct, expect_kw, expect_kind, expect_ident, expect_decl_name, enter_args, leave_args,
  ann_arg, arg_list, ann_args, annotation, annotations, int_ref, array_suffix, bound_suffix, typ,
}
use hqq.Bindgen.Parser.Decls.{
  const_decl, handle_decl, struct_member, struct_decl, union_case, union_decl, param_dir, param,
  fn_result, fn_decl, include_decl, second_service, no_declaration, annotated_decl, decl, file0,
  parse_file,
}
use hqq.Bindgen.Lexer.{
  lex, lex_once, next, skip_space, space_once, line_once, skip_rune, next_token, ident, number,
  unsigned, number_end, str, str_once, punctuation,
}
use hqq.Bindgen.Lexer
use hqq.Bindgen.Lexer.Chars.{
  is_ident_start, is_digit, is_ident_part, rune_length, take_while, is_among, same_bytes,
  digits_value,
}
use hqq.Bindgen.Lexer.Loop.{loop}
use hqq.Common.{ℕ, ◌≡◌, ◌≢◌, List, [], ◌∷◌, refl, length}
use hqq.Bindgen.Parser.Decls.{front_end, FrontEnd, raw_file, lex_error, parse_error, crashed}
use hqq.Bindgen.Parser.Laws.{front_end-safe}
use hqq.Bindgen.Parser.Monad.{
  pure, fail, gives_up, ◌>>=◌, cur, advance, is_punct, is_kw, report, edit, while_cur, comma_list,
  enough,
}
use hqq.Bindgen.Parser.Grammar.{
  expect_punct, expect_kw, expect_kind, expect_ident, expect_decl_name, enter_args, leave_args,
  ann_arg, arg_list, ann_args, annotation, annotations, int_ref, array_suffix, bound_suffix, typ,
}
use hqq.Bindgen.Parser.Decls.{
  const_decl, handle_decl, struct_member, struct_decl, union_case, union_decl, param_dir, param,
  fn_result, fn_decl, include_decl, second_service, no_declaration, annotated_decl, decl, file0,
  parse_file,
}
use hqq.Bindgen.Lexer.{
  lex, lex_once, next, skip_space, space_once, line_once, skip_rune, next_token, ident, number,
  unsigned, number_end, str, str_once, punctuation,
}
use hqq.Bindgen.Lexer
use hqq.Bindgen.Lexer.Chars.{
  is_ident_start, is_digit, is_ident_part, rune_length, take_while, is_among, same_bytes,
  digits_value,
}
use hqq.Bindgen.Lexer.Loop.{loop}

abbrev source : List ℕ
source =
    105 ∷ 100 ∷ 108 ∷ 32 ∷ 49 ∷ 59 ∷ 32 ∷ 64 ∷ 97 ∷ 40 ∷ 111 ∷ 107 ∷ 40 ∷ 49 ∷ 41 ∷ 41 ∷ 32 ∷ 115
    ∷ 101 ∷ 114 ∷ 118 ∷ 105 ∷ 99 ∷ 101 ∷ 32 ∷ 115 ∷ 59 ∷ 32 ∷ 115 ∷ 116 ∷ 114 ∷ 117 ∷ 99 ∷ 116 ∷ 32
    ∷ 112 ∷ 32 ∷ 123 ∷ 32 ∷ 120 ∷ 58 ∷ 32 ∷ 105 ∷ 51 ∷ 50 ∷ 91 ∷ 52 ∷ 93 ∷ 32 ∷ 60 ∷ 61 ∷ 32 ∷ 110
    ∷ 59 ∷ 32 ∷ 125 ∷ 32 ∷ 102 ∷ 110 ∷ 32 ∷ 102 ∷ 40 ∷ 111 ∷ 117 ∷ 116 ∷ 32 ∷ 113 ∷ 58 ∷ 32 ∷ 112
    ∷ 41 ∷ 59 ∷ []

front_end-safe_example : front_end source ≢ crashed
front_end-safe_example = front_end-safe source

abbrev counts : FrontEnd → List ℕ
counts (raw_file f ds) = length f.structs ∷ length f.funcs ∷ length f.service_anns ∷ length ds ∷ []
counts (lex_error e) = e.pos.line ∷ e.pos.col ∷ []
counts (parse_error e ds) = 0 ∷ e.pos.col ∷ []
counts crashed = []

one_of_each : counts (front_end source) ≡ 1 ∷ 1 ∷ 1 ∷ 0 ∷ []
unfolding front_end pure fail gives_up ◌>>=◌ cur advance is_punct is_kw report edit while_cur
    comma_list enough expect_punct expect_kw expect_kind expect_ident expect_decl_name enter_args
    leave_args ann_arg arg_list ann_args annotation annotations int_ref array_suffix bound_suffix
    typ const_decl handle_decl struct_member struct_decl union_case union_decl param_dir param
    fn_result fn_decl include_decl second_service no_declaration annotated_decl decl file0
    parse_file lex loop lex_once next skip_space space_once line_once skip_rune next_token ident
    number unsigned number_end str str_once punctuation hqq.Bindgen.Lexer.annotation is_ident_start
    is_digit is_ident_part rune_length take_while is_among same_bytes digits_value
one_of_each = refl

-- struct p { x: i32[4] <= n; }
abbrev at : Pos
at = record { line = 1; col = 1 }

abbrev mark : List ℕ → Token
mark text = record { kind = t_punct; text = text; val = none; pos = at }

abbrev word : TokKind → List ℕ → Token
word kind text = record { kind = kind; text = text; val = none; pos = at }

abbrev sentence : StructSentence
sentence = record {
  start_token = word t_kw kw_struct;
  struct_name = word t_ident (112 ∷ []);
  open_token = mark open_brace;
  first = record {
    name_token = word t_ident (120 ∷ []);
    colon_token = mark colon;
    type_part = record {
      elem_token = word t_kw kw_i32;
      array =
          sized_array (mark open_bracket)
            (record {
              kind = t_int;
              text = 52 ∷ [];
              val = some (record { negative = false; magnitude = 4 });
              pos = at;
            })
            (mark close_bracket);
      bound = bounded (mark at_most) (word t_ident (110 ∷ []));
    };
    end_token = mark semicolon;
  };
  more = [];
  close_token = mark close_brace;
}

abbrev before : Parser
before = new_parser [] []

sentence_fits : struct_fits sentence ≡ true
unfolding same_bytes is_among
sentence_fits = refl

struct_decl-reads_example :
    struct_decl [] (left_with before (struct_tokens sentence ++ (word t_eof [] ∷ [])))
    ≡ parsed tt (record before {
      rest = word t_eof [] ∷ [];
      file = record before.file { structs = struct_node [] sentence ∷ [] };
    })
struct_decl-reads_example = struct_decl-reads [] before sentence (word t_eof [] ∷ []) sentence_fits
