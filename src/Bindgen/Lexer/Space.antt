-- ===== src/Bindgen/Lexer/Space.antt =====
-- Space and comments: every round of every loop takes at least one byte away.
use hqq.Common.{
  ℕ, ◌<◌, ◌≤◌, ◌≡◌, ◌≢◌, some, List, [], ◌∷◌, get_or, length, length-drop, arith, refl,
  Option-cases, inl, inr, ◌⊎◌,
}
use hqq.Bindgen.Lexer.Chars.{rune_length}
use hqq.Bindgen.Lexer.Loop.{
  leave, again, exhausted, Result, done, stopped, out_of_fuel, loop, loop-ends, loop-keeps,
}
use hqq.Bindgen.Lexer.{
  Pos, SyntaxError, Lexer, advance, skip_rune, line_once, block_once, enough, and_again, space_once,
  skip_space,
}

abbrev pub left : Lexer → ℕ
left lx = length lx.rest

rune_length_lem : (xs : List ℕ) (n : ℕ) → rune_length xs ≡ some n → (1 ≤ n) × (1 ≤ length xs)
unfolding rune_length
rune_length_lem [] n e = absurd (ground arith)
rune_length_lem (c ∷ rest) n e = ground arith

skip_rune-down : (s t : Lexer) → skip_rune s ≡ again t → left t < left s
unfolding skip_rune
skip_rune-down s t e = elim (Option-cases (rune_length s.rest)) [
  | inl x ↦ absurd (ground arith)
  | inr (n, x) ↦ ground (arith, rune_length_lem s.rest n x, length-drop n s.rest)
]

skip_rune-ways : (s : Lexer) → (skip_rune s ≢ exhausted) × ((r : Lexer) → skip_rune s ≢ leave r)
unfolding skip_rune
skip_rune-ways s = elim (Option-cases (rune_length s.rest)) [
  | inl x ↦ ground arith
  | inr (n, x) ↦ ground arith
]

line_once-ways : (s : Lexer) → line_once s ≢ exhausted
unfolding line_once
line_once-ways s e = ground (arith, skip_rune-ways s)

line_once-down : (s t : Lexer) → line_once s ≡ again t → left t < left s
unfolding line_once
line_once-down s t e = ground (arith, skip_rune-down s t)

block_once-ways : (start : Pos) (s : Lexer) → block_once start s ≢ exhausted
unfolding block_once
block_once-ways start s e = ground (arith, skip_rune-ways s)

block_once-down : (start : Pos) (s t : Lexer) → block_once start s ≡ again t → left t < left s
unfolding block_once
block_once-down start s t e = ground (arith, skip_rune-down s t, length-drop 1 s.rest)

-- A line comment ends behind its first byte, if that is no newline.
line-shrinks :
    (fuel : ℕ) (s r : Lexer)
    → loop line_once fuel s ≡ done r
    → (left r ≤ left s) × ((get_or s.rest 0 10 ≡ 10) ⊎ (left r < left s))
unfolding line_once
line-shrinks =
    loop-keeps line_once
      (λ s r. (left r ≤ left s) × ((get_or s.rest 0 10 ≡ 10) ⊎ (left r < left s)))
      (λ s r e. ground (arith, (skip_rune-ways s).1 r))
      (λ s t r e p. ground (arith, line_once-down s t e))

block-shrinks :
    (start : Pos) (fuel : ℕ) (s r : Lexer)
    → loop (block_once start) fuel s ≡ done r
    → left r ≤ left s
unfolding block_once
block-shrinks start =
    loop-keeps (block_once start) (λ s r. left r ≤ left s)
      (λ s r e. ground (arith, (skip_rune-ways s).1 r, length-drop 2 s.rest))
      (λ s t r e p. ground (arith, block_once-down start s t e))

line-ends : (s : Lexer) → loop line_once (enough s) s ≢ out_of_fuel
line-ends s = loop-ends line_once left line_once-ways line_once-down (enough s) s (omega arith)

block-ends : (start : Pos) (s : Lexer) → loop (block_once start) (enough s) s ≢ out_of_fuel
block-ends start s =
    loop-ends (block_once start) left (block_once-ways start) (block_once-down start) (enough s) s
      (omega arith)

pub Result-cases :
    {E R : Type 0} (x : Result E R)
    → ((r : R) × (x ≡ done r)) ⊎ (((e : E) × (x ≡ stopped e)) ⊎ (x ≡ out_of_fuel))
Result-cases (done r) = inl (r, refl)
Result-cases (stopped e) = inr (inl (e, refl))
Result-cases out_of_fuel = inr (inr refl)

space_once-ways : (s : Lexer) → space_once s ≢ exhausted
unfolding space_once
space_once-ways s e =
    let s' = advance 2 s in
    elim (Result-cases (loop line_once (enough s) s)) [
      | inl (r, x) ↦ elim (Result-cases (loop (block_once s.pos) (enough s') s')) [
        | inl (q, y) ↦ ground arith
        | inr (inl (f, y)) ↦ ground arith
        | inr (inr y) ↦ block-ends s.pos s' y
      ]
      | inr (inl (g, x)) ↦ elim (Result-cases (loop (block_once s.pos) (enough s') s')) [
        | inl (q, y) ↦ ground arith
        | inr (inl (f, y)) ↦ ground arith
        | inr (inr y) ↦ block-ends s.pos s' y
      ]
      | inr (inr x) ↦ line-ends s x
    ]

space_once-down : (s t : Lexer) → space_once s ≡ again t → left t < left s
unfolding space_once
space_once-down s t e =
    let s' = advance 2 s in
    elim (Result-cases (loop line_once (enough s) s)) [
      | inl (r, x) ↦ elim (Result-cases (loop (block_once s.pos) (enough s') s')) [
        | inl (q, y) ↦ ground (
          arith,
          line-shrinks (enough s) s r x,
          block-shrinks s.pos (enough s') s' q y,
          length-drop 1 s.rest,
          length-drop 2 s.rest,
        )
        | inr (inl (f, y)) ↦
            ground
              (arith, line-shrinks (enough s) s r x, length-drop 1 s.rest, length-drop 2 s.rest)
        | inr (inr y) ↦ absurd (block-ends s.pos s' y)
      ]
      | inr (inl (g, x)) ↦ elim (Result-cases (loop (block_once s.pos) (enough s') s')) [
        | inl (q, y) ↦ ground (
          arith,
          block-shrinks s.pos (enough s') s' q y,
          length-drop 1 s.rest,
          length-drop 2 s.rest,
        )
        | inr (inl (f, y)) ↦ ground (arith, length-drop 1 s.rest, length-drop 2 s.rest)
        | inr (inr y) ↦ absurd (block-ends s.pos s' y)
      ]
      | inr (inr x) ↦ absurd (line-ends s x)
    ]

pub skip_space-ends : (s : Lexer) → skip_space s ≢ out_of_fuel
unfolding skip_space
skip_space-ends s =
    loop-ends space_once left space_once-ways space_once-down (enough s) s (omega arith)

and_again-stays : (x : Result SyntaxError Lexer) (r : Lexer) → and_again x ≢ leave r
and_again-stays (done y) r e = ground arith
and_again-stays (stopped y) r e = ground arith
and_again-stays out_of_fuel r e = ground arith

space_once-leaves : (s r : Lexer) → space_once s ≡ leave r → left r ≤ left s
unfolding space_once
space_once-leaves s r e =
    let s' = advance 2 s in
    ground (
      arith,
      and_again-stays (loop line_once (enough s) s) r,
      and_again-stays (loop (block_once s.pos) (enough s') s') r,
    )

space-shrinks : (fuel : ℕ) (s r : Lexer) → loop space_once fuel s ≡ done r → left r ≤ left s
space-shrinks =
    loop-keeps space_once (λ s r. left r ≤ left s) space_once-leaves
      (λ s t r e p. omega (arith, space_once-down s t e, p))

pub skip_space-shrinks : (s r : Lexer) → skip_space s ≡ done r → left r ≤ left s
unfolding skip_space
skip_space-shrinks s r e = space-shrinks (enough s) s r e
