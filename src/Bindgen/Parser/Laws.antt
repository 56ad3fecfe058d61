-- ===== src/Bindgen/Parser/Laws.antt =====
-- The parser ends on what the lexer returns, with a file or a syntax error.
use hqq.Common.{ℕ, ◌≡◌, ◌≢◌, ◌⊎◌, true, not, List, [], ◌∷◌, length, arith, refl, inl, inr}
use hqq.Bindgen.Lexer.{Token, t_eof, t_kw}
use hqq.Bindgen.Lexer.Laws.{lex-ends}
use hqq.Bindgen.Lexer.Limits.{are_complete, lex_complete}
use hqq.Bindgen.Parser.Syntax.{RawAnn, RawName, RawFile}
use hqq.Bindgen.Parser.Monad.{
  Parser, ParseError, Diagnostic, Parsed, parsed, failed, out_of_range, out_of_rounds, is_kind,
  advance, kw, while_cur, enough,
}
use hqq.Bindgen.Parser.Sound.{
  Within, Sound, Moves, Sound-pure, Sound-report, Moves-later, Moves-fail, Moves-if, Moves-bind,
  Moves-cur, Moves-report, Moves-advance,
}
use hqq.Bindgen.Parser.Loops.{while_cur-Sound}
use hqq.Bindgen.Parser.Methods.{
  basics, expected_rules, kind-open, expect_kw-Moves, expect_decl_name-Moves, annotations-Sound,
  typ-Sound,
}
use hqq.Bindgen.Parser.Decls.{
  const_decl, handle_decl, not_closed, struct_member, report_empty, struct_decl, union_case,
  union_decl, param_dir, param, fn_result, fn_decl, include_decl, second_service, no_declaration,
  annotated_decl, decl, file0, new_parser, parse_file, front_end, crashed,
}

ruleset decl_rules = (expected_rules, annotations-Sound, typ-Sound)

report_empty-Sound : {A : Type 0} → (xs : List A) (name : RawName) → Sound 0 (report_empty xs name)
report_empty-Sound [] name = Sound-report name.pos _
report_empty-Sound (x ∷ xs) name = Sound-pure tt

struct_member-Moves : (owner : RawName) (t : Token) → Moves t 0 (struct_member owner)
unfolding struct_member
struct_member-Moves owner t =
    search (decl_rules, Moves-cur, Moves-if, Moves-fail, Moves-bind, expect_decl_name-Moves) depth
      20

members-Sound : (owner : RawName) → Sound 0 (enough (while_cur not_closed (struct_member owner)))
members-Sound owner =
    while_cur-Sound not_closed (struct_member owner) λ t _. struct_member-Moves owner t

union_case-Moves : (owner : RawName) (t : Token) → Moves t 0 (union_case owner)
unfolding union_case
union_case-Moves owner t =
    search (decl_rules, Moves-cur, Moves-if, Moves-fail, Moves-bind, expect_kw-Moves) depth 20

cases-Sound : (owner : RawName) → Sound 0 (enough (while_cur not_closed (union_case owner)))
cases-Sound owner = while_cur-Sound not_closed (union_case owner) λ t _. union_case-Moves owner t

param_dir-Sound : Sound 0 param_dir
unfolding param_dir
param_dir-Sound = search basics depth 20

param-Sound : Sound 0 param
unfolding param
param-Sound = search (decl_rules, param_dir-Sound) depth 20

fn_result-Sound : Sound 0 fn_result
unfolding fn_result
fn_result-Sound = search decl_rules depth 20

-- Each declaration moves from the keyword that it begins with.
module _ (t : Token) (word : is_kind t_kw t ≡ true) where
  first_word : Moves t 0 advance
  first_word = Moves-advance t (kind-open t_kw t refl word)

  const_decl-Moves : Moves t 0 const_decl
  unfolding const_decl
  const_decl-Moves = search (decl_rules, Moves-bind, first_word) depth 20

  include_decl-Moves : Moves t 0 include_decl
  unfolding include_decl
  include_decl-Moves = search (decl_rules, Moves-bind, first_word) depth 20

  handle_decl-Moves : (anns : List RawAnn) → Moves t 0 (handle_decl anns)
  unfolding handle_decl
  handle_decl-Moves anns = search (decl_rules, Moves-bind, first_word) depth 20

  struct_decl-Moves : (anns : List RawAnn) → Moves t 0 (struct_decl anns)
  unfolding struct_decl
  struct_decl-Moves anns =
      search (decl_rules, Moves-bind, first_word, members-Sound, report_empty-Sound) depth 20

  union_decl-Moves : (anns : List RawAnn) → Moves t 0 (union_decl anns)
  unfolding union_decl
  union_decl-Moves anns =
      search (decl_rules, Moves-bind, first_word, cases-Sound, report_empty-Sound) depth 20

  second_service-Moves : Moves t 0 (second_service t)
  unfolding second_service
  second_service-Moves = search (decl_rules, Moves-report, Moves-bind, first_word) depth 20

fn_decl-Moves : (anns : List RawAnn) (t : Token) → Moves t 0 (fn_decl anns)
unfolding fn_decl
fn_decl-Moves anns t =
    search (decl_rules, Moves-later, Moves-bind, expect_kw-Moves, param-Sound, fn_result-Sound)
      depth 30

no_declaration-Moves : (anns : List RawAnn) (t u : Token) → Moves t 0 (no_declaration anns u)
unfolding no_declaration
no_declaration-Moves [] t u = Moves-fail t u.pos _
no_declaration-Moves (a ∷ anns) t u = Moves-fail t a.pos _

word_kind : (s : List ℕ) (t : Token) → kw s t ≡ true → is_kind t_kw t ≡ true
word_kind s t e = ground arith

annotated_decl-Moves : (anns : List RawAnn) (t : Token) → Moves t 0 (annotated_decl anns)
unfolding annotated_decl
annotated_decl-Moves anns t =
    search
      (
        Moves-cur, Moves-if, Moves-fail, word_kind, handle_decl-Moves, struct_decl-Moves,
        union_decl-Moves, fn_decl-Moves, second_service-Moves, no_declaration-Moves,
      )
      depth 20

decl-Moves : (t : Token) → Moves t 0 decl
unfolding decl
decl-Moves t =
    search
      (
        Moves-cur, Moves-if, word_kind, include_decl-Moves, const_decl-Moves, Moves-later,
        annotations-Sound, annotated_decl-Moves,
      )
      depth 20

decls-Sound : Sound 0 (enough (while_cur (λ t. not (is_kind t_eof t)) decl))
decls-Sound = while_cur-Sound (λ t. not (is_kind t_eof t)) decl λ t _. decl-Moves t

file0-Sound : Sound 0 file0
unfolding file0
file0-Sound = search (decl_rules, decls-Sound) depth 30

parse_file-ends :
    (toks : List Token) (sink : List Diagnostic)
    → are_complete toks ≡ true
    → ((file : RawFile) × (p : Parser) × (parse_file toks sink ≡ parsed file p))
      ⊎ ((e : ParseError) × (ds : List Diagnostic) × (parse_file toks sink ≡ failed e ds))
unfolding parse_file
parse_file-ends toks sink c =
    ends (file0 (new_parser toks sink)) (file0-Sound.at (new_parser toks sink) c refl)
  where
    ends :
        (r : Parsed (Unit {0}))
        → Within (length toks) 0 r
        → let whole = elim r as (λ _. Parsed RawFile) [
          | parsed u p ↦ parsed p.file p
          | failed e ds ↦ failed e ds
          | out_of_range ↦ out_of_range
          | out_of_rounds ↦ out_of_rounds
        ] in
          ((file : RawFile) × (p : Parser) × (whole ≡ parsed file p))
          ⊎ ((e : ParseError) × (ds : List Diagnostic) × (whole ≡ failed e ds))
    ends (parsed u p) w = inl (p.file, p, refl)
    ends (failed e ds) w = inr (e, ds, refl)
    ends out_of_range w = absurd w
    ends out_of_rounds w = absurd w

-- The front end ends on every source, with a raw file or with an error: the parser never reads past
-- the tokens of the lexer, and the rounds that the loops of both are given are enough.
pub front_end-safe : (src : List ℕ) → front_end src ≢ crashed
unfolding front_end
front_end-safe src e = elim (lex-ends src) [
  | inl (toks, x) ↦ elim (parse_file-ends toks [] (lex_complete src toks x)) [
    | inl (file, p, y) ↦ ground (arith, x, y)
    | inr (f, ds, y) ↦ ground (arith, x, y)
  ]
  | inr (f, x) ↦ ground (arith, x)
]
