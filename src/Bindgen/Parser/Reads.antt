-- ===== src/Bindgen/Parser/Reads.antt =====
-- The parser reads every sentence of the grammar to its node.
use hqq.Common.{
  ℕ, ◌≡◌, Bool, true, false, not, ◌&&◌, ◌||◌, List, [], ◌∷◌, ◌++◌, if◌then◌else◌, arith, refl, sym,
  ap, ◌∙◌, append_assoc,
}
use hqq.Bindgen.Lexer.{Token, t_ident, t_eof}
use hqq.Bindgen.Lexer.Chars.{same_bytes}
use hqq.Bindgen.Parser.Words.{open_bracket, at_most}
use hqq.Bindgen.Parser.Monad.{
  Parser, Parse, Parsed, parsed, continue, pure, fail, ◌>>=◌, cur, advance, is_kind, punct,
  is_punct,
}
use hqq.Bindgen.Parser.Grammar.{
  expect_punct, int_ref, array_suffix, bound_suffix, typ, is_type_name,
}
use hqq.Bindgen.Parser.Sentences.{
  is_ref, ref_node, ArraySentence, no_array, open_array, sized_array, array_tokens, array_fits,
  array_node, BoundSentence, no_bound, bounded, bound_tokens, bound_fits, bound_node, TypeSentence,
  type_tokens, type_fits, type_node,
}

-- The state with other tokens left
abbrev pub left_with : Parser → List Token → Parser
left_with p ts = record p { rest = ts }

int_ref-reads :
    (p : Parser) (t : Token) (ts : List Token)
    → is_ref t ≡ true
    → int_ref (left_with p (t ∷ ts)) ≡ parsed (ref_node t) (left_with p ts)
unfolding int_ref ◌>>=◌ pure fail cur advance
int_ref-reads p t ts e = ground arith

-- No token is two marks.
two_bytes : (xs : List ℕ) → same_bytes xs at_most ≡ true → same_bytes xs open_bracket ≡ false
unfolding same_bytes
two_bytes [] e = ground arith
two_bytes (c ∷ []) e = ground arith
two_bytes (c ∷ d ∷ ds) e = ground arith

open_is_no_bound : (t : Token) → punct at_most t ≡ true → punct open_bracket t ≡ false
open_is_no_bound t e = ground (arith, two_bytes t.text)

-- A token follows, and it does not go on with a type.
abbrev pub after_type : List Token → Bool
after_type [] = false
after_type (t ∷ ts) = not (punct open_bracket t) && not (punct at_most t)

bound_suffix-reads :
    (p : Parser) (s : BoundSentence) (rest : List Token)
    → bound_fits s ≡ true
    → after_type rest ≡ true
    → bound_suffix (left_with p (bound_tokens s ++ rest)) ≡ parsed (bound_node s) (left_with p rest)
unfolding bound_suffix is_punct ◌>>=◌ pure cur advance
bound_suffix-reads p no_bound [] e h = absurd (ground arith)
bound_suffix-reads p no_bound (t ∷ ts) e h = ground arith
bound_suffix-reads p (bounded m n) rest e h = ground (arith, int_ref-reads p n rest)

array_suffix-reads :
    (p : Parser) (s : ArraySentence) (t : Token) (rest : List Token)
    → array_fits s ≡ true
    → punct open_bracket t ≡ false
    → array_suffix (left_with p (array_tokens s ++ t ∷ rest))
      ≡ parsed (array_node s) (left_with p (t ∷ rest))
unfolding array_suffix is_punct expect_punct ◌>>=◌ pure cur advance fail
array_suffix-reads p no_array t rest e h = ground arith
array_suffix-reads p (open_array l r) t rest e h = ground arith
array_suffix-reads p (sized_array l n r) t rest e h =
    ground (arith, int_ref-reads p n (r ∷ t ∷ rest))

-- The bound and what follows begin with no bracket.
bound_first :
    (s : BoundSentence) (rest : List Token)
    → bound_fits s ≡ true
    → after_type rest ≡ true
    → (t : Token) × (ts : List Token) × (bound_tokens s ++ rest ≡ t ∷ ts)
      × (punct open_bracket t ≡ false)
bound_first no_bound [] e h = absurd (ground arith)
bound_first no_bound (t ∷ ts) e h = (t, ts, refl, ground arith)
bound_first (bounded m n) rest e h = (m, n ∷ rest, refl, open_is_no_bound m (ground arith))

pub cur-reads :
    (p : Parser) (t : Token) (ts : List Token)
    → cur (left_with p (t ∷ ts)) ≡ parsed t (left_with p (t ∷ ts))
unfolding cur
cur-reads p t ts = refl

pub advance-reads :
    (p : Parser) (t : Token) (ts : List Token)
    → is_kind t_eof t ≡ false
    → advance (left_with p (t ∷ ts)) ≡ parsed t (left_with p ts)
unfolding advance
advance-reads p t ts e = ground arith

module _ {A : Type 0} where
  pub pure_reads : (a : A) (p : Parser) → pure a p ≡ parsed a p
  unfolding pure
  pure_reads a p = refl

  pub guard_reads :
      {p : Parser} {r : Parsed A}
      → (b : Bool) (m n : Parse A) → b ≡ true
      → m p ≡ r
      → (if b then m else n) p ≡ r
  guard_reads true m n e x = x
  guard_reads false m n e x = absurd (ground arith)

  pub otherwise_reads :
      {p : Parser} {r : Parsed A}
      → (b : Bool) (m n : Parse A) → b ≡ false
      → n p ≡ r
      → (if b then m else n) p ≡ r
  otherwise_reads true m n e x = absurd (ground arith)
  otherwise_reads false m n e x = x

module _ {A B : Type 0} where
  -- One method, then the rest.
  pub then_reads :
      {p q : Parser} {a : A} {r : Parsed B}
      → (m : Parse A) (f : A → Parse B) → m p ≡ parsed a q
      → f a q ≡ r
      → (m >>= f) p ≡ r
  unfolding ◌>>=◌
  then_reads m f e x = ap (λ y. continue y f) e ∙ x

pub both : (a b : Bool) → (a && b) ≡ true → (a ≡ true) × (b ≡ true)
both true b e = (refl, e)
both false b e = absurd (ground arith)

elem-open : (t : Token) → (is_type_name t || is_kind t_ident t) ≡ true → is_kind t_eof t ≡ false
elem-open t e = ground arith

pub typ-reads :
    (p : Parser) (s : TypeSentence) (rest : List Token)
    → type_fits s ≡ true
    → after_type rest ≡ true
    → typ (left_with p (type_tokens s ++ rest)) ≡ parsed (type_node s) (left_with p rest)
unfolding typ
typ-reads p s rest e h =
    let (front, bound_ok) =
      both ((is_type_name s.elem_token || is_kind t_ident s.elem_token) && array_fits s.array)
        (bound_fits s.bound) e in
    let (elem_first, array_ok) =
      both (is_type_name s.elem_token || is_kind t_ident s.elem_token) (array_fits s.array) front in
    let (t, ts, x, y) = bound_first s.bound rest bound_ok h in
    let tail = array_tokens s.array ++ bound_tokens s.bound in
    let joined : tail ++ rest ≡ array_tokens s.array ++ (t ∷ ts) =
      append_assoc (array_tokens s.array) (bound_tokens s.bound) rest
      ∙ ap (λ us. array_tokens s.array ++ us) x in
    then_reads _ _ (cur-reads p s.elem_token (tail ++ rest)) (
      then_reads _ _
        (guard_reads _ _ _ elem_first
          (advance-reads p s.elem_token (tail ++ rest) (elem-open s.elem_token elem_first)))
        (then_reads _ _
          (ap (λ us. array_suffix (left_with p us)) joined
            ∙ array_suffix-reads p s.array t ts array_ok y)
          (then_reads _ _
            (ap (λ us. bound_suffix (left_with p us)) (sym x)
              ∙ bound_suffix-reads p s.bound rest bound_ok h)
            (pure_reads (type_node s) (left_with p rest)))))
