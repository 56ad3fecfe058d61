-- ===== src/Bindgen/Lexer/Tokens.antt =====
-- The lexer's tokens: each but the last takes at least one byte away.
use hqq.Common.{
  ℕ, ◌+◌, ◌<◌, ◌≤◌, ◌≡◌, ◌≢◌, Bool, true, false, List, [], ◌∷◌, get_or, length, drop, length-drop,
  arith, inl, inr, ◌⊎◌,
}
use hqq.Bindgen.Lexer.Chars.{is_ident_start, is_digit, is_ident_part, is_hex_digit, take_while}
use hqq.Bindgen.Lexer.Loop.{
  again, exhausted, Result, done, out_of_fuel, loop, loop-ends, loop-keeps,
}
use hqq.Bindgen.Lexer.{
  Pos, Token, SyntaxError, Lexer, peek_at, advance, enough, ident, number_end, unsigned, number,
  str_once, str, punctuation,
}
use hqq.Bindgen.Lexer.Space.{left}

length-take_while : (test : ℕ → Bool) (xs : List ℕ) → length (take_while test xs) ≤ length xs
unfolding take_while
length-take_while test [] = omega arith
length-take_while test (c ∷ rest) = ground (arith, length-take_while test rest)

take_while-starts :
    (test : ℕ → Bool) (xs : List ℕ)
    → 1 ≤ length xs
    → test (get_or xs 0 0) ≡ true
    → 1 ≤ length (take_while test xs)
unfolding take_while
take_while-starts test [] h e = absurd (omega arith)
take_while-starts test (c ∷ rest) h e = ground arith

abbrev pub Shrinks : Lexer → Result SyntaxError (Token × Lexer) → Type 0
Shrinks s x = (t : Token) (r : Lexer) → x ≡ done (t, r) → left r < left s

pub ident-ends : (pos : Pos) (s : Lexer) → ident pos s ≢ out_of_fuel
unfolding ident
ident-ends pos s e = ground arith

pub ident-Shrinks :
    (pos : Pos) (s : Lexer)
    → is_ident_start (peek_at 0 s) ≡ true
    → 1 ≤ left s
    → Shrinks s (ident pos s)
unfolding ident is_ident_part
ident-Shrinks pos s start some_left t r e = ground (
  arith,
  take_while-starts is_ident_part s.rest some_left,
  length-drop (length (take_while is_ident_part s.rest)) s.rest,
)

pub number-ends : (pos : Pos) (s : Lexer) → number pos s ≢ out_of_fuel
unfolding number unsigned number_end
number-ends pos s e = ground arith

unsigned-Shrinks :
    (pos : Pos) (neg : Bool) (sign : List ℕ) (s : Lexer)
    → is_digit (peek_at 0 s) ≡ true
    → 1 ≤ left s
    → Shrinks s (unsigned pos neg sign s)
unfolding unsigned number_end
unsigned-Shrinks pos neg sign s digit some_left t r e =
    let hex = take_while is_hex_digit (drop 2 s.rest) in
    let decimal = take_while is_digit s.rest in
    ground (
      arith,
      take_while-starts is_digit s.rest some_left digit,
      length-drop (length decimal) s.rest,
      length-drop (2 + length hex) s.rest,
    )

pub number-Shrinks :
    (pos : Pos) (s : Lexer)
    → (is_digit (peek_at 0 s) ≡ true) ⊎ ((peek_at 0 s ≡ 45) × (is_digit (peek_at 1 s) ≡ true))
    → 1 ≤ left s
    → Shrinks s (number pos s)
unfolding number is_digit
number-Shrinks pos s (inl digit) some_left t r e =
    ground (arith, unsigned-Shrinks pos false [] s digit some_left t r)
number-Shrinks pos s (inr (sign, digit)) some_left t r e = ground (
  arith,
  unsigned-Shrinks pos true (45 ∷ []) (advance 1 s) (behind s.rest digit) (behind_left s.rest digit)
      t r,
  length-drop 1 s.rest,
)
  where
    behind :
        (xs : List ℕ) → is_digit (get_or xs 1 0) ≡ true → is_digit (get_or (drop 1 xs) 0 0) ≡ true
    behind [] e = e
    behind (x ∷ xs) e = e

    behind_left : (xs : List ℕ) → is_digit (get_or xs 1 0) ≡ true → 1 ≤ length (drop 1 xs)
    behind_left [] e = absurd (ground arith)
    behind_left (x ∷ []) e = absurd (ground arith)
    behind_left (x ∷ y ∷ xs) e = omega arith

str_once-ways : (pos : Pos) (s : Lexer × List ℕ) → str_once pos s ≢ exhausted
unfolding str_once
str_once-ways pos s e = ground arith

str_once-down : (pos : Pos) (s t : Lexer × List ℕ) → str_once pos s ≡ again t → left t.0 < left s.0
unfolding str_once
str_once-down pos s t e = ground (arith, length-drop 1 s.0.rest, length-drop 2 s.0.rest)

pub str-ends : (pos : Pos) (s : Lexer) → str pos s ≢ out_of_fuel
unfolding str
str-ends pos s =
    loop-ends (str_once pos) (λ s. left s.0) (str_once-ways pos) (str_once-down pos)
      (enough (advance 1 s)) (advance 1 s, []) (omega arith)

str_loop-shrinks :
    (pos : Pos) (fuel : ℕ) (s : Lexer × List ℕ) (r : Token × Lexer)
    → loop (str_once pos) fuel s ≡ done r
    → left r.1 ≤ left s.0
str_loop-shrinks pos =
    loop-keeps (str_once pos) (λ s r. left r.1 ≤ left s.0)
      (λ s r e. unfold str_once in ground (arith, length-drop 1 s.0.rest))
      (λ s t r e p. omega (arith, str_once-down pos s t e, p))

pub str-Shrinks : (pos : Pos) (s : Lexer) → 1 ≤ left s → Shrinks s (str pos s)
unfolding str
str-Shrinks pos s some_left t r e = omega (
  arith,
  str_loop-shrinks pos (enough (advance 1 s)) (advance 1 s, []) (t, r) e,
  length-drop 1 s.rest,
)

pub punctuation-Shrinks : (s : Lexer) → 1 ≤ left s → Shrinks s (punctuation s)
unfolding punctuation
punctuation-Shrinks s some_left t r e = ground (arith, length-drop 1 s.rest, length-drop 2 s.rest)
