-- ===== src/Bindgen/Parser/Sentences.antt =====
-- The grammar of types, members and structs, as trees of tokens: the tokens of a sentence, what is
-- written at each place, and the raw node that the sentence stands for.
use hqq.Common.{Bool, true, false, not, ◌&&◌, ◌||◌, Option, some, none, List, [], ◌∷◌, ◌++◌, map}
use hqq.Bindgen.Lexer.{Pos, Token, t_int, t_ident}
use hqq.Bindgen.Parser.Words.{
  open_bracket, close_bracket, at_most, colon, semicolon, open_brace, close_brace, kw_struct,
}
use hqq.Bindgen.Parser.Syntax.{RawIntRef, RawType, RawMember, RawAnn, RawStruct}
use hqq.Bindgen.Parser.Monad.{is_kind, punct, kw}
use hqq.Bindgen.Parser.Grammar.{is_type_name, name_of}

-- IntRef = Int | Ident
abbrev pub is_ref : Token → Bool
is_ref t = is_kind t_int t || is_kind t_ident t

abbrev pub ref_node : Token → RawIntRef
ref_node t = elim t.kind [
  | t_int ↦ record { pos = t.pos; is_name = false; name = []; val = t.val }
  | _ ↦ record { pos = t.pos; is_name = true; name = t.text; val = none }
]

-- [ "[" [ IntRef ] "]" ]
pub data ArraySentence : Type 0 where
  no_array : ArraySentence
  open_array : Token → Token → ArraySentence
  sized_array : Token → Token → Token → ArraySentence

abbrev pub array_tokens : ArraySentence → List Token
array_tokens no_array = []
array_tokens (open_array l r) = l ∷ r ∷ []
array_tokens (sized_array l n r) = l ∷ n ∷ r ∷ []

abbrev pub array_fits : ArraySentence → Bool
array_fits no_array = true
array_fits (open_array l r) = punct open_bracket l && punct close_bracket r
array_fits (sized_array l n r) = punct open_bracket l && is_ref n && punct close_bracket r

abbrev pub array_node : ArraySentence → Bool × Option RawIntRef
array_node no_array = (false, none)
array_node (open_array l r) = (true, none)
array_node (sized_array l n r) = (true, some (ref_node n))

-- [ "<=" IntRef ]
pub data BoundSentence : Type 0 where
  no_bound : BoundSentence
  bounded : Token → Token → BoundSentence

abbrev pub bound_tokens : BoundSentence → List Token
bound_tokens no_bound = []
bound_tokens (bounded m n) = m ∷ n ∷ []

abbrev pub bound_fits : BoundSentence → Bool
bound_fits no_bound = true
bound_fits (bounded m n) = punct at_most m && is_ref n

abbrev pub bound_node : BoundSentence → Option Pos × Option RawIntRef
bound_node no_bound = (none, none)
bound_node (bounded m n) = (some m.pos, some (ref_node n))

-- Type = Elem [ "[" [ IntRef ] "]" ] [ "<=" IntRef ]
pub record TypeSentence : Type 0 where
  pub elem_token : Token
  pub array : ArraySentence
  pub bound : BoundSentence

abbrev pub type_tokens : TypeSentence → List Token
type_tokens s = s.elem_token ∷ (array_tokens s.array ++ bound_tokens s.bound)

abbrev pub type_fits : TypeSentence → Bool
type_fits s =
    (is_type_name s.elem_token || is_kind t_ident s.elem_token)
    && array_fits s.array
    && bound_fits s.bound

abbrev pub type_node : TypeSentence → RawType
type_node s = record {
  pos = s.elem_token.pos;
  elem_name = s.elem_token.text;
  named = not (is_type_name s.elem_token);
  has_arr = (array_node s.array).0;
  arr_len = (array_node s.array).1;
  bound = (bound_node s.bound).1;
  bound_pos = (bound_node s.bound).0;
}

-- Field = Ident ":" Type ";"
pub record MemberSentence : Type 0 where
  pub name_token : Token
  pub colon_token : Token
  pub type_part : TypeSentence
  pub end_token : Token

abbrev pub member_tokens : MemberSentence → List Token
member_tokens s = s.name_token ∷ s.colon_token ∷ (type_tokens s.type_part ++ (s.end_token ∷ []))

abbrev pub member_fits : MemberSentence → Bool
member_fits s =
    is_kind t_ident s.name_token
    && punct colon s.colon_token
    && type_fits s.type_part
    && punct semicolon s.end_token

abbrev pub member_node : MemberSentence → RawMember
member_node s = record {
  pos = s.name_token.pos;
  name = name_of s.name_token;
  typ = type_node s.type_part;
}

abbrev pub members_tokens : List MemberSentence → List Token
members_tokens [] = []
members_tokens (s ∷ more) = member_tokens s ++ members_tokens more

abbrev pub members_fit : List MemberSentence → Bool
members_fit [] = true
members_fit (s ∷ more) = member_fits s && members_fit more

-- "struct" Ident "{" Field { Field } "}"
pub record StructSentence : Type 0 where
  pub start_token : Token
  pub struct_name : Token
  pub open_token : Token
  pub first : MemberSentence
  pub more : List MemberSentence
  pub close_token : Token

abbrev pub struct_tokens : StructSentence → List Token
struct_tokens s =
    s.start_token
    ∷ s.struct_name
    ∷ s.open_token
    ∷ (members_tokens (s.first ∷ s.more) ++ (s.close_token ∷ []))

abbrev pub struct_fits : StructSentence → Bool
struct_fits s =
    kw kw_struct s.start_token
    && is_kind t_ident s.struct_name
    && punct open_brace s.open_token
    && members_fit (s.first ∷ s.more)
    && punct close_brace s.close_token

abbrev pub struct_node : List RawAnn → StructSentence → RawStruct
struct_node anns s = record {
  pos = s.start_token.pos;
  anns = anns;
  name = name_of s.struct_name;
  members = map member_node (s.first ∷ s.more);
}
