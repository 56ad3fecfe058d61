-- ===== src/Bindgen/Parser/Accepts.antt =====
-- The parser accepts every struct of the grammar.
use hqq.Common.{
  ℕ, zero, suc, ◌≡◌, ◌≤◌, ◌<◌, true, false, ◌&&◌, List, [], ◌∷◌, ◌++◌, map, length, arith, refl, ap,
  ◌∙◌, append_assoc, length-append,
}
use hqq.Bindgen.Lexer.{Token, t_ident, t_kw, t_eof}
use hqq.Bindgen.Lexer.Chars.{same_bytes}
use hqq.Bindgen.Parser.Words.{
  open_bracket, at_most, semicolon, colon, open_brace, close_brace, kw_struct,
}
use hqq.Bindgen.Parser.Syntax.{RawAnn, RawName, RawFile}
use hqq.Bindgen.Parser.Monad.{
  What, Parser, parsed, fail, ◌>>=◌, cur, advance, edit, is_kind, punct, kw, while_cur, enough,
}
use hqq.Bindgen.Parser.Grammar.{
  expect_punct, expect_kind, expect_ident, expect_decl_name, name_of, typ,
}
use hqq.Bindgen.Parser.Decls.{not_closed, struct_member, struct_decl}
use hqq.Bindgen.Parser.Sentences.{
  type_tokens, type_fits, MemberSentence, member_tokens, member_fits, member_node, members_tokens,
  members_fit, StructSentence, struct_tokens, struct_fits, struct_node,
}
use hqq.Bindgen.Parser.Reads.{
  left_with, after_type, cur-reads, advance-reads, typ-reads, both, pure_reads, guard_reads,
  otherwise_reads, then_reads,
}

expect_punct-reads :
    (s : List ℕ) (p : Parser) (t : Token) (ts : List Token)
    → punct s t ≡ true
    → expect_punct s (left_with p (t ∷ ts)) ≡ parsed t (left_with p ts)
unfolding expect_punct ◌>>=◌ cur advance fail
expect_punct-reads s p t ts e = ground arith

no_keyword : (t : Token) → is_kind t_ident t ≡ true → is_kind t_kw t ≡ false
no_keyword t e = ground arith

expect_ident_token :
    (what : What) (p : Parser) (t : Token) (ts : List Token)
    → is_kind t_ident t ≡ true
    → expect_kind t_ident what (left_with p (t ∷ ts)) ≡ parsed t (left_with p ts)
unfolding expect_kind ◌>>=◌ cur advance fail
expect_ident_token what p t ts e = ground arith

expect_decl_name-reads :
    (what : What) (p : Parser) (t : Token) (ts : List Token)
    → is_kind t_ident t ≡ true
    → expect_decl_name what (left_with p (t ∷ ts)) ≡ parsed (name_of t) (left_with p ts)
unfolding expect_decl_name expect_ident
expect_decl_name-reads what p t ts e = then_reads _ _ (cur-reads p t ts) (
    otherwise_reads _ _ _ (no_keyword t e)
      (then_reads _ _ (expect_ident_token what p t ts e) (pure_reads (name_of t) (left_with p ts))))

one_byte :
    (xs : List ℕ)
    → same_bytes xs semicolon ≡ true
    → (same_bytes xs open_bracket ≡ false) × (same_bytes xs at_most ≡ false)
unfolding same_bytes
one_byte [] e = ground arith
one_byte (c ∷ []) e = ground arith
one_byte (c ∷ d ∷ ds) e = ground arith

semicolon_after :
    (t : Token) (ts : List Token) → punct semicolon t ≡ true → after_type (t ∷ ts) ≡ true
semicolon_after t ts e = ground (arith, one_byte t.text)

ident_open :
    (t : Token) → is_kind t_ident t ≡ true → (is_kind t_eof t ≡ false) × (not_closed t ≡ true)
ident_open t e = ground arith

struct_member-reads :
    (owner : RawName) (p : Parser) (s : MemberSentence) (rest : List Token)
    → member_fits s ≡ true
    → struct_member owner (left_with p (member_tokens s ++ rest))
      ≡ parsed (member_node s) (left_with p rest)
unfolding struct_member
struct_member-reads owner p s rest e =
    let (front, end_ok) =
      both (is_kind t_ident s.name_token && punct colon s.colon_token && type_fits s.type_part)
        (punct semicolon s.end_token) e in
    let (names, type_ok) =
      both (is_kind t_ident s.name_token && punct colon s.colon_token) (type_fits s.type_part)
        front in
    let (name_ok, colon_ok) =
      both (is_kind t_ident s.name_token) (punct colon s.colon_token) names in
    let joined : (type_tokens s.type_part ++ (s.end_token ∷ [])) ++ rest
        ≡ type_tokens s.type_part ++ (s.end_token ∷ rest) =
      append_assoc (type_tokens s.type_part) (s.end_token ∷ []) rest in
    let more = (type_tokens s.type_part ++ (s.end_token ∷ [])) ++ rest in
    then_reads _ _ (cur-reads p s.name_token (s.colon_token ∷ more)) (
      otherwise_reads _ _ _ (ident_open s.name_token name_ok).0 (
        then_reads _ _ (expect_decl_name-reads _ p s.name_token (s.colon_token ∷ more) name_ok) (
          then_reads _ _ (expect_punct-reads colon p s.colon_token more colon_ok) (
            then_reads _ _
              (ap (λ us. typ (left_with p us)) joined
                ∙ typ-reads p s.type_part (s.end_token ∷ rest) type_ok
                    (semicolon_after s.end_token rest end_ok))
              (then_reads _ _ (expect_punct-reads semicolon p s.end_token rest end_ok)
                (pure_reads (member_node s) (left_with p rest)))))))

closed : (t : Token) → punct close_brace t ≡ true → not_closed t ≡ false
closed t e = ground arith

members-reads :
    (owner : RawName) (p : Parser) (ss : List MemberSentence) (close : Token) (rest : List Token)
    (rounds : ℕ)
    → members_fit ss ≡ true
    → punct close_brace close ≡ true
    → length ss < rounds
    → while_cur not_closed
        (struct_member owner)
        rounds
        (left_with p (members_tokens ss ++ (close ∷ rest)))
      ≡ parsed (map member_node ss) (left_with p (close ∷ rest))
unfolding while_cur
members-reads owner p ss close rest zero e c h = absurd (ground arith)
members-reads owner p [] close rest (suc rounds) e c h =
    then_reads _ _ (cur-reads p close rest)
      (otherwise_reads _ _ _ (closed close c) (pure_reads [] (left_with p (close ∷ rest))))
members-reads owner p (s ∷ ss) close rest (suc rounds) e c h =
    let (one_ok, more_ok) = both (member_fits s) (members_fit ss) e in
    let tail = members_tokens ss ++ (close ∷ rest) in
    let joined : (member_tokens s ++ members_tokens ss) ++ (close ∷ rest)
        ≡ member_tokens s ++ tail =
      append_assoc (member_tokens s) (members_tokens ss) (close ∷ rest) in
    let (front, end_ok) =
      both (is_kind t_ident s.name_token && punct colon s.colon_token && type_fits s.type_part)
        (punct semicolon s.end_token) one_ok in
    let (names, type_ok) =
      both (is_kind t_ident s.name_token && punct colon s.colon_token) (type_fits s.type_part)
        front in
    let (name_ok, colon_ok) =
      both (is_kind t_ident s.name_token) (punct colon s.colon_token) names in
    then_reads _ _ (cur-reads p s.name_token _) (
      guard_reads _ _ _ (ident_open s.name_token name_ok).1 (
        then_reads _ _
          (ap (λ us. struct_member owner (left_with p us)) joined
            ∙ struct_member-reads owner p s tail one_ok)
          (then_reads _ _ (members-reads owner p ss close rest rounds more_ok c (omega arith))
            (pure_reads (member_node s ∷ map member_node ss) (left_with p (close ∷ rest))))))

length-members : (ss : List MemberSentence) → length ss ≤ length (members_tokens ss)
length-members [] = omega arith
length-members (s ∷ ss) =
    omega (arith, length-members ss, length-append (member_tokens s) (members_tokens ss))

all_members :
    (owner : RawName) (p : Parser) (ss : List MemberSentence) (close : Token) (rest : List Token)
    → members_fit ss ≡ true
    → punct close_brace close ≡ true
    → enough
        (while_cur not_closed (struct_member owner))
        (left_with p (members_tokens ss ++ (close ∷ rest)))
      ≡ parsed (map member_node ss) (left_with p (close ∷ rest))
unfolding enough
all_members owner p ss close rest e c =
    members-reads owner p ss close rest (length (members_tokens ss ++ (close ∷ rest))) e c
      (omega (arith, length-members ss, length-append (members_tokens ss) (close ∷ rest)))

word_open : (t : Token) → kw kw_struct t ≡ true → is_kind t_eof t ≡ false
word_open t e = ground arith

mark_open : (t : Token) → punct close_brace t ≡ true → is_kind t_eof t ≡ false
mark_open t e = ground arith

edit_reads :
    (change : RawFile → RawFile) (p : Parser)
    → edit change p ≡ parsed tt (record p { file = change p.file })
unfolding edit
edit_reads change p = refl

-- A struct of the grammar is read to its node, which is added to the structs of the file behind the
-- others, with its members in their order and no diagnostic.
pub struct_decl-reads :
    (anns : List RawAnn) (p : Parser) (s : StructSentence) (rest : List Token)
    → struct_fits s ≡ true
    → struct_decl anns (left_with p (struct_tokens s ++ rest))
      ≡ parsed tt (record p {
        rest = rest;
        file = record p.file { structs = p.file.structs ++ (struct_node anns s ∷ []) };
      })
unfolding struct_decl
struct_decl-reads anns p s rest e =
    let ss = s.first ∷ s.more in
    let (front, close_ok) =
      both
        (kw kw_struct s.start_token
          && is_kind t_ident s.struct_name
          && punct open_brace s.open_token
          && members_fit ss)
        (punct close_brace s.close_token) e in
    let (head, members_ok) =
      both
        (kw kw_struct s.start_token
          && is_kind t_ident s.struct_name
          && punct open_brace s.open_token)
        (members_fit ss) front in
    let (names, open_ok) =
      both (kw kw_struct s.start_token && is_kind t_ident s.struct_name)
        (punct open_brace s.open_token) head in
    let (word_ok, name_ok) =
      both (kw kw_struct s.start_token) (is_kind t_ident s.struct_name) names in
    let owner = name_of s.struct_name in
    let body = (members_tokens ss ++ (s.close_token ∷ [])) ++ rest in
    let joined : body ≡ members_tokens ss ++ (s.close_token ∷ rest) =
      append_assoc (members_tokens ss) (s.close_token ∷ []) rest in
    then_reads _ _
      (advance-reads p s.start_token (s.struct_name ∷ s.open_token ∷ body)
        (word_open s.start_token word_ok))
      (then_reads _ _ (expect_decl_name-reads _ p s.struct_name (s.open_token ∷ body) name_ok) (
        then_reads _ _ (expect_punct-reads open_brace p s.open_token body open_ok) (
          then_reads _ _
            (ap (λ us. enough (while_cur not_closed (struct_member owner)) (left_with p us)) joined
              ∙ all_members owner p ss s.close_token rest members_ok close_ok)
            (then_reads _ _ (advance-reads p s.close_token rest (mark_open s.close_token close_ok))
              (then_reads _ _ (pure_reads tt (left_with p rest))
                (edit_reads _ (left_with p rest)))))))
