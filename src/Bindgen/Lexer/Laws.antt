-- ===== src/Bindgen/Lexer/Laws.antt =====
-- What the lexer promises: it stops, and its tokens are within the limits of the language.
use hqq.Common.{
  ℕ, ◌<◌, ◌≤◌, ◌≡◌, ◌≢◌, true, List, [], ◌∷◌, get_or, length, drop, length-drop, arith, Bool-cases,
  dec_lt, inl, inr, ◌⊎◌,
}
use hqq.Bindgen.Lexer.Chars.{is_ident_start, is_digit}
use hqq.Bindgen.Lexer.Loop.{again, exhausted, done, stopped, out_of_fuel, loop-ends}
use hqq.Bindgen.Lexer.{
  t_eof, Token, SyntaxError, Lexer, peek_at, advance, enough, skip_space, ident, number,
  punctuation, annotation, next_token, next, lex_once, lex,
}
use hqq.Bindgen.Lexer.Space.{left, Result-cases, skip_space-ends, skip_space-shrinks}
use hqq.Bindgen.Lexer.Tokens.{
  Shrinks, ident-ends, ident-Shrinks, number-ends, number-Shrinks, str-ends, str-Shrinks,
  punctuation-Shrinks,
}

annotation-ends : (s : Lexer) → annotation s ≢ out_of_fuel
unfolding annotation
annotation-ends s e = elim (Result-cases (ident (advance 1 s).pos (advance 1 s))) [
  | inl (r, x) ↦ ground arith
  | inr (inl (f, x)) ↦ ground arith
  | inr (inr x) ↦ ident-ends (advance 1 s).pos (advance 1 s) x
]

annotation-Shrinks : (s : Lexer) → Shrinks s (annotation s)
unfolding annotation is_ident_start
annotation-Shrinks s t r e = elim (Result-cases (ident (advance 1 s).pos (advance 1 s))) [
  | inl (q, x) ↦ elim (Bool-cases (is_ident_start (peek_at 1 s))) [
    | inl start ↦ ground (
      arith,
      ident-Shrinks (advance 1 s).pos (advance 1 s) (behind s.rest start) (behind_left s.rest start)
          q.0 q.1 x,
      length-drop 1 s.rest,
    )
    | inr other ↦ absurd (ground arith)
  ]
  | inr (inl (f, x)) ↦ absurd (ground arith)
  | inr (inr x) ↦ absurd (ground arith)
]
  where
    behind :
        (xs : List ℕ)
        → is_ident_start (get_or xs 1 0) ≡ true
        → is_ident_start (get_or (drop 1 xs) 0 0) ≡ true
    behind [] e = e
    behind (x ∷ xs) e = e

    behind_left : (xs : List ℕ) → is_ident_start (get_or xs 1 0) ≡ true → 1 ≤ length (drop 1 xs)
    behind_left [] e = absurd (ground arith)
    behind_left (x ∷ []) e = absurd (ground arith)
    behind_left (x ∷ y ∷ xs) e = omega arith

next_token-ends : (s : Lexer) → next_token s ≢ out_of_fuel
unfolding next_token punctuation
next_token-ends s e =
    ground (arith, ident-ends s.pos s, number-ends s.pos s, str-ends s.pos s, annotation-ends s)

next_token-shrinks :
    (s : Lexer) (t : Token) (r : Lexer)
    → next_token s ≡ done (t, r)
    → (t.kind ≡ t_eof) ⊎ (left r < left s)
unfolding next_token
next_token-shrinks s t r e = elim (dec_lt 0 (left s)) [
  | yes some_left ↦
      let name : is_ident_start (peek_at 0 s) ≡ true
          → ident s.pos s ≡ done (t, r)
          → left r < left s =
        λ h. ident-Shrinks s.pos s h some_left t r in
      let digits : (is_digit (peek_at 0 s) ≡ true)
            ⊎ ((peek_at 0 s ≡ 45) × (is_digit (peek_at 1 s) ≡ true))
          → number s.pos s ≡ done (t, r)
          → left r < left s =
        λ h. number-Shrinks s.pos s h some_left t r in
      ground (
        arith,
        name,
        digits,
        str-Shrinks s.pos s some_left t r,
        punctuation-Shrinks s some_left t r,
        annotation-Shrinks s t r,
      )
  | no none_left ↦ ground arith
]

next-ends : (s : Lexer) → next s ≢ out_of_fuel
unfolding next
next-ends s e = elim (Result-cases (skip_space s)) [
  | inl (r, x) ↦ ground (arith, next_token-ends r)
  | inr (inl (f, x)) ↦ ground arith
  | inr (inr x) ↦ skip_space-ends s x
]

next-shrinks :
    (s : Lexer) (t : Token) (r : Lexer)
    → next s ≡ done (t, r)
    → (t.kind ≡ t_eof) ⊎ (left r < left s)
unfolding next
next-shrinks s t r e = elim (Result-cases (skip_space s)) [
  | inl (q, x) ↦ ground (arith, skip_space-shrinks s q x, next_token-shrinks q t r)
  | inr (inl (f, x)) ↦ absurd (ground arith)
  | inr (inr x) ↦ absurd (ground arith)
]

lex_once-ways : (s : Lexer × List Token) → lex_once s ≢ exhausted
unfolding lex_once
lex_once-ways s e = elim (Result-cases (next s.0)) [
  | inl (r, x) ↦ ground arith
  | inr (inl (f, x)) ↦ ground arith
  | inr (inr x) ↦ next-ends s.0 x
]

lex_once-down : (s t : Lexer × List Token) → lex_once s ≡ again t → left t.0 < left s.0
unfolding lex_once
lex_once-down s t e = elim (Result-cases (next s.0)) [
  | inl (r, x) ↦ ground (arith, next-shrinks s.0 r.0 r.1 x)
  | inr (inl (f, x)) ↦ absurd (ground arith)
  | inr (inr x) ↦ absurd (ground arith)
]

-- The lexer ends on every source, with its tokens or with the first error: the rounds that its
-- loops are given are enough.
pub lex-ends :
    (src : List ℕ)
    → ((toks : List Token) × (lex src ≡ done toks)) ⊎ ((e : SyntaxError) × (lex src ≡ stopped e))
unfolding lex
lex-ends src = elim (Result-cases (lex src)) [
  | inl (toks, x) ↦ inl (toks, x)
  | inr (inl (e, x)) ↦ inr (e, x)
  | inr (inr x) ↦ absurd (
      ground (
        arith,
        loop-ends lex_once (λ s. left s.0) lex_once-ways lex_once-down (enough start) (start, [])
            (omega arith),
      ))
]
  where
    start : Lexer
    start = record { rest = src; pos = record { line = 1; col = 1 } }
