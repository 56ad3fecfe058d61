-- ===== src/Bindgen/Parser/Decls.antt =====
-- Declarations and files (bindgen/idl/parse.go).
use hqq.Common.{ℕ, Bool, Option, some, none, List, [], ◌∷◌, ◌++◌, if◌then◌else◌, not, ◌||◌, ◌&&◌}
use hqq.Bindgen.Lexer.{SyntaxError, lex, Pos, Token, t_eof, t_int, t_str, t_kw}
use hqq.Bindgen.Lexer.Loop.{done, stopped, out_of_fuel}
use hqq.Bindgen.Lexer.Chars.{is_among}
use hqq.Bindgen.Parser.Words.{
  kw_idl, kw_service, kw_include, kw_const, kw_handle, kw_struct, kw_union, kw_case, kw_fn, kw_shim,
  kw_in, kw_out, kw_inout, kw_destroy, kw_owned_by, open_paren, close_paren, comma, semicolon,
  colon, equals, open_brace, close_brace, arrow, int_type_names,
}
use hqq.Bindgen.Parser.Syntax.{
  RawType, RawAnn, RawName, RawMember, RawCase, RawParam, RawFile, Dir, dir_in, dir_out, dir_in_out,
}
use hqq.Bindgen.Parser.Monad.{
  the_idl_version, the_service_name, the_include_path, the_const_name, the_const_value,
  the_handle_name, the_parent_handle_name, the_destroy_function_name, the_struct_name, a_field_name,
  the_union_name, the_case_number, the_case_name, the_function_name, a_parameter_name,
  a_declaration, an_integer_type, expected, misplaced_annotations, unterminated_struct,
  unterminated_union, Diagnostic, Parser, Parsed, Parse, parsed, failed, out_of_range,
  out_of_rounds, v3, v5, ParseError, pure, fail, ◌>>=◌, ◌>>◌, cur, is_kind, advance, punct, kw,
  is_punct, is_kw, report, edit, while_cur, comma_list, enough,
}
use hqq.Bindgen.Parser.Grammar.{
  expect_punct, expect_kw, expect_kind, expect_ident, expect_decl_name, annotations, typ,
}

-- `constDecl`
unfoldable pub const_decl : Parse (Unit {0})
const_decl = do
  start ← advance
  name ← expect_decl_name the_const_name
  expect_punct colon
  t ← cur
  if is_kind t_kw t && is_among int_type_names t.text
      then advance
      else fail t.pos (expected an_integer_type t)
  expect_punct equals
  v ← expect_kind t_int the_const_value
  expect_punct semicolon
  edit λ f. record f {
    consts =
        f.consts
        ++ (record {
          pos = start.pos;
          name = name;
          typ = t.text;
          tpos = t.pos;
          val = v.val;
          vpos = v.pos;
        }
            ∷ []);
  }

-- `handleDecl`
unfoldable pub handle_decl : List RawAnn → Parse (Unit {0})
handle_decl anns = do
  start ← advance
  name ← expect_decl_name the_handle_name
  owned ← is_kw kw_owned_by
  parent ←
      if owned
      then (do advance; n ← expect_ident the_parent_handle_name; pure (some n))
      else pure none
  expect_kw kw_destroy
  destroy ← expect_ident the_destroy_function_name
  expect_punct semicolon
  edit λ f. record f {
    handles =
        f.handles
        ++ (record {
          pos = start.pos;
          anns = anns;
          name = name;
          owned_by = parent;
          destroy = destroy;
        }
            ∷ []);
  }

abbrev pub not_closed : Token → Bool
not_closed t = not (punct close_brace t)

-- A round of the loop of `structDecl`
unfoldable pub struct_member : RawName → Parse RawMember
struct_member owner = do
  t ← cur
  if is_kind t_eof t then fail t.pos (unterminated_struct owner.text) else do
    name ← expect_decl_name a_field_name
    expect_punct colon
    ty ← typ
    expect_punct semicolon
    pure (record { pos = t.pos; name = name; typ = ty })

abbrev pub report_empty : {A : Type 0} → List A → RawName → Parse (Unit {0})
report_empty [] name = report name.pos (v5 name.text)
report_empty (x ∷ xs) name = pure tt

-- `structDecl`
unfoldable pub struct_decl : List RawAnn → Parse (Unit {0})
struct_decl anns = do
  start ← advance
  name ← expect_decl_name the_struct_name
  expect_punct open_brace
  members ← enough (while_cur not_closed (struct_member name))
  advance
  report_empty members name
  edit λ f. record f {
    structs =
        f.structs ++ (record { pos = start.pos; anns = anns; name = name; members = members } ∷ []);
  }

-- A round of the loop of `unionDecl`
unfoldable pub union_case : RawName → Parse RawCase
union_case owner = do
  t ← cur
  if is_kind t_eof t then fail t.pos (unterminated_union owner.text) else do
    expect_kw kw_case
    tag ← expect_kind t_int the_case_number
    name ← expect_decl_name the_case_name
    typed ← is_punct colon
    ty ← if typed then (do advance; ty ← typ; pure (some ty)) else pure none
    expect_punct semicolon
    pure (record { pos = t.pos; tag = tag.val; tpos = tag.pos; name = name; typ = ty })

-- `unionDecl`
unfoldable pub union_decl : List RawAnn → Parse (Unit {0})
union_decl anns = do
  start ← advance
  name ← expect_decl_name the_union_name
  expect_punct open_brace
  cases ← enough (while_cur not_closed (union_case name))
  advance
  report_empty cases name
  edit λ f. record f {
    unions = f.unions ++ (record { pos = start.pos; anns = anns; name = name; cases = cases } ∷ []);
  }

-- The switch of `param`
unfoldable pub param_dir : Parse Dir
param_dir = do
  t ← cur
  if kw kw_in t
      then (do advance; pure dir_in)
      else if kw kw_out t
      then (do advance; pure dir_out)
      else if kw kw_inout t
      then (do advance; pure dir_in_out)
      else pure dir_in

-- `param`
unfoldable pub param : Parse RawParam
param = do
  t ← cur
  dir ← param_dir
  name ← expect_decl_name a_parameter_name
  expect_punct colon
  ty ← typ
  anns ← annotations
  pure (record { pos = t.pos; dir = dir; name = name; typ = ty; anns = anns })

-- The result of `fnDecl`: its position, its type and its annotations
unfoldable pub fn_result : Parse (Option Pos × Option RawType × List RawAnn)
fn_result = do
  returns ← is_punct arrow
  if returns
      then (do advance; t ← cur; ty ← typ; anns ← annotations; pure (some t.pos, some ty, anns))
      else pure (none, none, [])

-- `fnDecl`
unfoldable pub fn_decl : List RawAnn → Parse (Unit {0})
fn_decl anns = do
  start ← cur
  shim ← is_kw kw_shim
  if shim then (do advance; pure tt) else pure tt
  expect_kw kw_fn
  name ← expect_decl_name the_function_name
  expect_punct open_paren
  empty ← is_punct close_paren
  params ← if empty then pure [] else enough (comma_list comma param)
  expect_punct close_paren
  result ← fn_result
  expect_punct semicolon
  edit λ f. record f {
    funcs =
        f.funcs
        ++ (record {
          pos = start.pos;
          anns = anns;
          shim = shim;
          name = name;
          params = params;
          ret = result.1;
          ret_anns = result.2;
          ret_pos = result.0;
        }
            ∷ []);
  }

-- The include of `decl`
unfoldable pub include_decl : Parse (Unit {0})
include_decl = do
  advance
  s ← expect_kind t_str the_include_path
  expect_punct semicolon
  edit λ f. record f { includes = f.includes ++ (record { pos = s.pos; text = s.text } ∷ []) }

-- The second service of `decl`; its annotations are dropped.
unfoldable pub second_service : Token → Parse (Unit {0})
second_service t = do
  report t.pos v3
  advance
  expect_decl_name the_service_name
  expect_punct semicolon
  pure tt

unfoldable pub no_declaration : List RawAnn → Token → Parse (Unit {0})
no_declaration [] t = fail t.pos (expected a_declaration t)
no_declaration (a ∷ anns) t = fail a.pos (misplaced_annotations t)

-- `decl` behind the annotations
unfoldable pub annotated_decl : List RawAnn → Parse (Unit {0})
annotated_decl anns = do
  t ← cur
  if kw kw_service t
      then second_service t
      else if not (is_kind t_kw t)
      then fail t.pos (expected a_declaration t)
      else if kw kw_handle t
      then handle_decl anns
      else if kw kw_struct t
      then struct_decl anns
      else if kw kw_union t
      then union_decl anns
      else if kw kw_fn t || kw kw_shim t
      then fn_decl anns
      else no_declaration anns t

-- `decl`
unfoldable pub decl : Parse (Unit {0})
decl = do
  t ← cur
  if kw kw_include t
      then include_decl
      else if kw kw_const t
      then const_decl
      else do anns ← annotations; annotated_decl anns

-- `file0`
unfoldable pub file0 : Parse (Unit {0})
file0 = do
  expect_kw kw_idl
  v ← expect_kind t_int the_idl_version
  edit λ f. record f { idl_version = v.val; idl_pos = some v.pos }
  expect_punct semicolon
  anns ← annotations
  edit λ f. record f { service_anns = anns }
  s ← expect_kw kw_service
  edit λ f. record f { service_pos = some s.pos }
  name ← expect_decl_name the_service_name
  edit λ f. record f { service = some name }
  expect_punct semicolon
  enough (while_cur (λ t. not (is_kind t_eof t)) decl)
  pure tt

abbrev pub empty_file : RawFile
empty_file = record {
  idl_version = none;
  idl_pos = none;
  service_anns = [];
  service = none;
  service_pos = none;
  includes = [];
  consts = [];
  handles = [];
  structs = [];
  unions = [];
  funcs = [];
}

abbrev pub new_parser : List Token → List Diagnostic → Parser
new_parser toks sink = record { rest = toks; depth = 0; file = empty_file; sink = sink }

-- `parseFile`; the syntax error is recovered, and it is the result
unfoldable pub parse_file : List Token → List Diagnostic → Parsed RawFile
parse_file toks sink = elim (file0 (new_parser toks sink)) [
  | parsed u p ↦ parsed p.file p
  | failed e ds ↦ failed e ds
  | out_of_range ↦ out_of_range
  | out_of_rounds ↦ out_of_rounds
]

-- How the parts of `Parse` before the checks end: with a raw file and the diagnostics so far, or with
-- the diagnostics, the last of which is for the syntax error. They are not sorted yet.
pub data FrontEnd : Type 0 where
  raw_file : RawFile → List Diagnostic → FrontEnd
  lex_error : SyntaxError → FrontEnd
  parse_error : ParseError → List Diagnostic → FrontEnd
  crashed : FrontEnd

-- `Parse`, up to the checks
unfoldable pub front_end : List ℕ → FrontEnd
front_end src = elim (lex src) [
  | done toks ↦ elim (parse_file toks []) [
    | parsed file p ↦ raw_file file p.sink
    | failed e ds ↦ parse_error e ds
    | out_of_range ↦ crashed
    | out_of_rounds ↦ crashed
  ]
  | stopped e ↦ lex_error e
  | out_of_fuel ↦ crashed
]
