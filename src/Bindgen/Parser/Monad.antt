-- ===== src/Bindgen/Parser/Monad.antt =====
-- The parser of bindgen/idl/parse.go as actions on its state: a failing method panics with a syntax
-- error, which `parseFile` recovers; any other panic it passes on.
use hqq.Common.{ℕ, zero, suc, ◌++◌, Bool, true, false, ◌&&◌, List, [], ◌∷◌, if◌then◌else◌, length}
use hqq.Bindgen.Lexer.{Pos, Token, TokKind, t_eof, t_ident, t_kw, t_int, t_str, t_punct, t_ann}
use hqq.Bindgen.Lexer.Chars.{same_bytes}
use hqq.Bindgen.Parser.Syntax.{RawFile}

-- What `fail` is told that was expected.
pub data What : Type 0 where
  the_idl_version the_service_name the_include_path the_const_name the_const_value : What
  the_handle_name the_parent_handle_name the_destroy_function_name : What
  the_struct_name a_field_name the_union_name the_case_number the_case_name : What
  the_function_name a_parameter_name an_annotation_argument a_declaration : What
  an_integer_type a_type an_integer_or_a_const_name : What

-- The messages of `fail`, with the token that was found
pub data Complaint : Type 0 where
  expected_text : List ℕ → Token → Complaint
  expected : What → Token → Complaint
  nested_too_deep : Complaint
  misplaced_annotations : Token → Complaint
  unterminated_struct unterminated_union : List ℕ → Complaint

pub record ParseError : Type 0 where
  pub pos : Pos
  pub complaint : Complaint

-- The diagnostics of `sink`: a declared name that is a keyword (V1), a second service (V3), and a struct
-- or a union without members (V5).
pub data Rule : Type 0 where
  v1 : What → List ℕ → Rule
  v3 : Rule
  v5 : List ℕ → Rule

pub record Diagnostic : Type 0 where
  pub pos : Pos
  pub rule : Rule

-- `parser`, with `toks[i:]` for the slice and the index
pub record Parser : Type 0 where
  pub rest : List Token
  pub depth : ℕ
  pub file : RawFile
  pub sink : List Diagnostic

-- How a method ends: it returns, it fails and leaves its diagnostics behind, it indexes past the tokens, or its loops are out of rounds.
pub data Parsed (A : Type 0) : Type 0 where
  parsed : A → Parser → Parsed A
  failed : ParseError → List Diagnostic → Parsed A
  out_of_range : Parsed A
  out_of_rounds : Parsed A

abbrev pub Parse : Type 0 → Type 0
Parse A = Parser → Parsed A

module _ {A : Type 0} where
  unfoldable pub pure : A → Parse A
  pure a p = parsed a p

  -- `fail`
  unfoldable pub fail : Pos → Complaint → Parse A
  fail pos complaint p = failed (record { pos = pos; complaint = complaint }) p.sink

  unfoldable pub gives_up : Parse A
  gives_up p = out_of_rounds

module _ {A B : Type 0} where
  abbrev pub continue : Parsed A → (A → Parse B) → Parsed B
  continue (parsed a p) f = f a p
  continue (failed e ds) f = failed e ds
  continue out_of_range f = out_of_range
  continue out_of_rounds f = out_of_rounds

  infixl 10 ◌>>=◌ ◌>>◌
  unfoldable pub ◌>>=◌ : Parse A → (A → Parse B) → Parse B
  ◌>>=◌ m f p = continue (m p) f

  abbrev pub ◌>>◌ : Parse A → Parse B → Parse B
  m >> n = m >>= λ _. n

-- `cur`
unfoldable pub cur : Parse Token
cur p = elim p.rest [ [] ↦ out_of_range | t ∷ ts ↦ parsed t p ]

abbrev pub is_kind : TokKind → Token → Bool
is_kind t_eof t = elim t.kind [ t_eof ↦ true | _ ↦ false ]
is_kind t_ident t = elim t.kind [ t_ident ↦ true | _ ↦ false ]
is_kind t_kw t = elim t.kind [ t_kw ↦ true | _ ↦ false ]
is_kind t_int t = elim t.kind [ t_int ↦ true | _ ↦ false ]
is_kind t_str t = elim t.kind [ t_str ↦ true | _ ↦ false ]
is_kind t_punct t = elim t.kind [ t_punct ↦ true | _ ↦ false ]
is_kind t_ann t = elim t.kind [ t_ann ↦ true | _ ↦ false ]

-- `advance`
unfoldable pub advance : Parse Token
advance p = elim p.rest [
  | [] ↦ out_of_range
  | t ∷ ts ↦ if is_kind t_eof t then parsed t p else parsed t (record p { rest = ts })
]

abbrev pub punct : List ℕ → Token → Bool
punct s t = is_kind t_punct t && same_bytes t.text s

abbrev pub kw : List ℕ → Token → Bool
kw s t = is_kind t_kw t && same_bytes t.text s

-- `isPunct` and `isKw`
unfoldable pub is_punct : List ℕ → Parse Bool
is_punct s = do t ← cur; pure (punct s t)

unfoldable pub is_kw : List ℕ → Parse Bool
is_kw s = do t ← cur; pure (kw s t)

-- `sink.add`
unfoldable pub report : Pos → Rule → Parse Unit
report pos rule p =
    parsed tt (record p { sink = p.sink ++ (record { pos = pos; rule = rule } ∷ []) })

-- An assignment to `file`.
unfoldable pub edit : (RawFile → RawFile) → Parse Unit
edit change p = parsed tt (record p { file = change p.file })

-- A loop whose condition reads the current token, for at most so many rounds; what the rounds return.
unfoldable pub while_cur : {A : Type 0} → (Token → Bool) → Parse A → ℕ → Parse (List A)
while_cur test body zero = gives_up
while_cur test body (suc rounds) = do
  t ← cur
  if test t then (do a ← body; others ← while_cur test body rounds; pure (a ∷ others)) else pure []

-- `for { ...; if !p.isPunct(",") { break }; p.advance() }`
unfoldable pub comma_list : {A : Type 0} → List ℕ → Parse A → ℕ → Parse (List A)
comma_list mark body zero = gives_up
comma_list mark body (suc rounds) = do
  a ← body
  more ← is_punct mark
  if more
      then (do advance; others ← comma_list mark body rounds; pure (a ∷ others))
      else pure (a ∷ [])

-- As many rounds as there are tokens left.
unfoldable pub enough : {A : Type 0} → (ℕ → Parse A) → Parse A
enough loop p = loop (length p.rest) p
