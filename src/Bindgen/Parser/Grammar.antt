-- ===== src/Bindgen/Parser/Grammar.antt =====
-- Expected tokens, annotations and types (bindgen/idl/parse.go).
use hqq.Common.{
  ℕ, zero, suc, ◌+◌, ◌-◌, Bool, true, false, not, ◌&&◌, ◌||◌, Option, some, none, List, [], ◌∷◌,
  if◌then◌else◌, ltb,
}
use hqq.Bindgen.Lexer.{Pos, Token, TokKind, t_ident, t_kw, t_int, t_str, t_ann}
use hqq.Bindgen.Lexer.Chars.{is_among}
use hqq.Bindgen.Parser.Words.{
  kw_ret, open_paren, close_paren, comma, open_bracket, close_bracket, at_most, int_type_names,
  other_type_names,
}
use hqq.Bindgen.Parser.Syntax.{
  RawIntRef, RawType, RawArg, RawArgs, raw_arg, no_args, arg, a_int, a_str, a_ret, a_ident, RawAnn,
  RawName,
}
use hqq.Bindgen.Parser.Monad.{
  What, an_annotation_argument, a_type, an_integer_or_a_const_name, expected_text, expected,
  nested_too_deep, Parse, parsed, out_of_range, v1, pure, fail, gives_up, ◌>>=◌, ◌>>◌, cur, is_kind,
  advance, punct, kw, is_punct, report, while_cur, comma_list, enough,
}

-- `expectPunct` and `expectKw`
unfoldable pub expect_punct : List ℕ → Parse Token
expect_punct s = do t ← cur; if punct s t then advance else fail t.pos (expected_text s t)

unfoldable pub expect_kw : List ℕ → Parse Token
expect_kw s = do t ← cur; if kw s t then advance else fail t.pos (expected_text s t)

-- `expectIdent`, `expectInt` and `expectString`
unfoldable pub expect_kind : TokKind → What → Parse Token
expect_kind kind what = do t ← cur; if is_kind kind t then advance else fail t.pos (expected what t)

abbrev pub name_of : Token → RawName
name_of t = record { pos = t.pos; text = t.text }

unfoldable pub expect_ident : What → Parse RawName
expect_ident what = do t ← expect_kind t_ident what; pure (name_of t)

-- `expectDeclName`
unfoldable pub expect_decl_name : What → Parse RawName
expect_decl_name what = do
  t ← cur
  if is_kind t_kw t
      then (do report t.pos (v1 what t.text); advance; pure (name_of t))
      else expect_ident what

abbrev pub max_ann_depth : ℕ
max_ann_depth = 8

abbrev pub raw_args : List RawArg → RawArgs
raw_args [] = no_args
raw_args (a ∷ more) = arg a (raw_args more)

-- The head of `annArgs`, and its deferred end
unfoldable pub enter_args : Parse (Unit {0})
enter_args p = elim p.rest [
  | [] ↦
      if ltb max_ann_depth (p.depth + 1)
      then out_of_range
      else parsed tt (record p { depth = p.depth + 1 })
  | t ∷ ts ↦
      if ltb max_ann_depth (p.depth + 1)
      then fail t.pos nested_too_deep p
      else parsed tt (record p { depth = p.depth + 1 })
]

unfoldable pub leave_args : Parse (Unit {0})
leave_args p = parsed tt (record p { depth = p.depth - 1 })

-- `annArg`, with `annArgs` for the nested arguments
unfoldable pub ann_arg : Parse RawArgs → Parse RawArg
ann_arg nested = do
  t ← cur
  if is_kind t_int t
      then (do advance; pure (raw_arg t.pos a_int t.val [] false no_args))
      else if is_kind t_str t
      then (do advance; pure (raw_arg t.pos a_str none t.text false no_args))
      else if kw kw_ret t
      then (do advance; pure (raw_arg t.pos a_ret none kw_ret false no_args))
      else if is_kind t_ident t
      then (do
        advance
        parens ← is_punct open_paren
        if parens
            then (do inner ← nested; pure (raw_arg t.pos a_ident none t.text true inner))
            else pure (raw_arg t.pos a_ident none t.text false no_args))
      else fail t.pos (expected an_annotation_argument t)

-- The parenthesised list of `annArgs`
unfoldable pub arg_list : Parse RawArg → Parse RawArgs
arg_list one = do
  expect_punct open_paren
  empty ← is_punct close_paren
  inner ← if empty then pure [] else enough (comma_list comma one)
  expect_punct close_paren
  pure (raw_args inner)

-- `annArgs`, for at most so many levels
unfoldable pub ann_args : ℕ → Parse RawArgs
ann_args zero = gives_up
ann_args (suc levels) = do
  enter_args
  inner ← arg_list (ann_arg (ann_args levels))
  leave_args
  pure inner

-- `annotation`; nine levels are one more than there can be
unfoldable pub annotation : Parse RawAnn
annotation = do
  t ← advance
  parens ← is_punct open_paren
  if parens
      then (do
        inner ← ann_args (suc max_ann_depth)
        pure (record { pos = t.pos; name = t.text; has_parens = true; args = inner }))
      else pure (record { pos = t.pos; name = t.text; has_parens = false; args = no_args })

-- `annotations`
unfoldable pub annotations : Parse (List RawAnn)
annotations = enough (while_cur (is_kind t_ann) annotation)

-- `intRef`
unfoldable pub int_ref : Parse RawIntRef
int_ref = do
  t ← cur
  if is_kind t_int t
      then (do advance; pure (record { pos = t.pos; is_name = false; name = []; val = t.val }))
      else if is_kind t_ident t
      then (do advance; pure (record { pos = t.pos; is_name = true; name = t.text; val = none }))
      else fail t.pos (expected an_integer_or_a_const_name t)

abbrev pub is_type_name : Token → Bool
is_type_name t =
    is_kind t_kw t && (is_among int_type_names t.text || is_among other_type_names t.text)

-- The array suffix of `typ`: whether there is one, and its length
unfoldable pub array_suffix : Parse (Bool × Option RawIntRef)
array_suffix = do
  has_arr ← is_punct open_bracket
  if has_arr
      then (do
        advance
        empty ← is_punct close_bracket
        arr_len ← if empty then pure none else (do r ← int_ref; pure (some r))
        expect_punct close_bracket
        pure (true, arr_len))
      else pure (false, none)

-- The bound of `typ`, with the position of its mark
unfoldable pub bound_suffix : Parse (Option Pos × Option RawIntRef)
bound_suffix = do
  has_bound ← is_punct at_most
  if has_bound
      then (do mark ← advance; r ← int_ref; pure (some mark.pos, some r))
      else pure (none, none)

-- `typ`
unfoldable pub typ : Parse RawType
typ = do
  t ← cur
  if is_type_name t || is_kind t_ident t then advance else fail t.pos (expected a_type t)
  arr ← array_suffix
  bound ← bound_suffix
  pure (record {
    pos = t.pos;
    elem_name = t.text;
    named = not (is_type_name t);
    has_arr = arr.0;
    arr_len = arr.1;
    bound = bound.1;
    bound_pos = bound.0;
  })
