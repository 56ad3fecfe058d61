-- ===== src/Bindgen/Lexer/Limits.antt =====
-- The tokens that the lexer returns are within the limits of the language, and end at the end.
use hqq.Common.{
  ℕ, ◌-◌, ◌^◌, ◌≤◌, ◌≡◌, Bool, true, false, not, ◌&&◌, some, none, List, [], ◌∷◌, ◌++◌, leb,
  if◌then◌else◌, length, arith, inl, inr,
}
use hqq.Bindgen.Lexer.Chars.{is_among, keywords}
use hqq.Bindgen.Lexer.Loop.{done, loop, loop-keeps}
use hqq.Bindgen.Lexer.{
  t_eof, t_ident, t_kw, t_int, t_str, Pos, Token, Lexer, advance, enough, skip_space, ident,
  number_end, unsigned, number, str_once, str, punctuation, annotation, next_token, next, lex_once,
  lex,
}
use hqq.Bindgen.Lexer.Space.{Result-cases}

abbrev is_eof : Token → Bool
is_eof t = elim t.kind [ t_eof ↦ true | _ ↦ false ]

-- A name has at most 128 bytes and is a keyword just as its kind says, a string has at most 256
-- bytes, and an integer is between -2^63 and 2^64 - 1.
abbrev token_fits : Token → Bool
token_fits t = elim t.kind [
  | t_ident ↦ leb (length t.text) 128 && not (is_among keywords t.text)
  | t_kw ↦ leb (length t.text) 128 && is_among keywords t.text
  | t_str ↦ leb (length t.text) 256
  | t_int ↦ elim t.val [
    | none ↦ false
    | some v ↦ leb v.magnitude (if v.negative then 2 ^ 63 else 2 ^ 64 - 1)
  ]
  | _ ↦ true
]

-- Tokens that fit, none of which is the end of the file.
abbrev are_open : List Token → Bool
are_open [] = true
are_open (t ∷ ts) = token_fits t && not (is_eof t) && are_open ts

-- Tokens that fit, the last of which, and no other, is the end of the file.
abbrev pub are_complete : List Token → Bool
are_complete [] = false
are_complete (t ∷ []) = token_fits t && is_eof t
are_complete (t ∷ u ∷ ts) = token_fits t && not (is_eof t) && are_complete (u ∷ ts)

open-append :
    (ts : List Token) (t : Token)
    → are_open ts ≡ true
    → token_fits t ≡ true
    → is_eof t ≡ false
    → are_open (ts ++ (t ∷ [])) ≡ true
open-append [] t e f g = ground arith
open-append (u ∷ ts) t e f g = ground (arith, open-append ts t)

complete-append :
    (ts : List Token) (t : Token)
    → are_open ts ≡ true
    → token_fits t ≡ true
    → is_eof t ≡ true
    → are_complete (ts ++ (t ∷ [])) ≡ true
complete-append [] t e f g = ground arith
complete-append (u ∷ []) t e f g = ground arith
complete-append (u ∷ v ∷ ts) t e f g = ground (arith, complete-append (v ∷ ts) t)

ident-fits : (pos : Pos) (s r : Lexer) (t : Token) → ident pos s ≡ done (t, r) → token_fits t ≡ true
unfolding ident
ident-fits pos s r t e = ground arith

number-fits :
    (pos : Pos) (s r : Lexer) (t : Token) → number pos s ≡ done (t, r) → token_fits t ≡ true
unfolding number unsigned number_end
number-fits pos s r t e = ground arith

str_loop-fits :
    (pos : Pos) (fuel : ℕ) (s : Lexer × List ℕ) (r : Token × Lexer)
    → loop (str_once pos) fuel s ≡ done r
    → length s.1 ≤ 256
    → token_fits r.0 ≡ true
str_loop-fits pos =
    loop-keeps (str_once pos) (λ s r. length s.1 ≤ 256 → token_fits r.0 ≡ true)
      (λ s r e h. unfold str_once in ground arith)
      (λ s t r e p h. unfold str_once in p (ground arith))

annotation-fits : (s r : Lexer) (t : Token) → annotation s ≡ done (t, r) → token_fits t ≡ true
unfolding annotation
annotation-fits s r t e = elim (Result-cases (ident (advance 1 s).pos (advance 1 s))) [
  | inl (q, x) ↦ ground arith
  | inr (inl (f, x)) ↦ absurd (ground arith)
  | inr (inr x) ↦ absurd (ground arith)
]

next-fits : (s r : Lexer) (t : Token) → next s ≡ done (t, r) → token_fits t ≡ true
unfolding next next_token str punctuation
next-fits s r t e = elim (Result-cases (skip_space s)) [
  | inl (q, x) ↦ ground (
    arith,
    ident-fits q.pos q r t,
    number-fits q.pos q r t,
    annotation-fits q r t,
    str_loop-fits q.pos (enough (advance 1 q)) (advance 1 q, []) (t, r),
  )
  | inr (inl (f, x)) ↦ absurd (ground arith)
  | inr (inr x) ↦ absurd (ground arith)
]

lex_loop_complete :
    (fuel : ℕ) (s : Lexer × List Token) (toks : List Token)
    → loop lex_once fuel s ≡ done toks
    → are_open s.1 ≡ true
    → are_complete toks ≡ true
lex_loop_complete =
    loop-keeps lex_once (λ s toks. are_open s.1 ≡ true → are_complete toks ≡ true)
      (λ s toks e h. elim (Result-cases (next s.0)) [
        | inl (q, x) ↦
            unfold lex_once in ground (arith, next-fits s.0 q.1 q.0 x, complete-append s.1 q.0 h)
        | inr (inl (f, x)) ↦ unfold lex_once in absurd (ground arith)
        | inr (inr x) ↦ unfold lex_once in absurd (ground arith)
      ])
      (λ s t toks e p h. elim (Result-cases (next s.0)) [
        | inl (q, x) ↦
            unfold lex_once in p (ground (arith, next-fits s.0 q.1 q.0 x, open-append s.1 q.0 h))
        | inr (inl (f, x)) ↦ unfold lex_once in absurd (ground arith)
        | inr (inr x) ↦ unfold lex_once in absurd (ground arith)
      ])

-- What the lexer returns ends with the end of the file and has it nowhere else, its names have at
-- most 128 bytes and are keywords just as their kinds say, its strings have at most 256 bytes, and
-- its integers are between -2^63 and 2^64 - 1.
pub lex_complete :
    (src : List ℕ) (toks : List Token) → lex src ≡ done toks → are_complete toks ≡ true
unfolding lex
lex_complete src toks e =
    let start : Lexer = record { rest = src; pos = record { line = 1; col = 1 } } in
    ground (arith, lex_loop_complete (enough start) (start, []) toks)
