-- ===== src/Bindgen/Parser/Sound.antt =====
-- What every method of the parser does to its state, with a rule for each way to build a method.
use hqq.Common.{
  ℕ, ◌≤◌, ◌≡◌, Bool, true, false, List, [], ◌∷◌, if◌then◌else◌, length, arith, refl, ap, Bool-cases,
  inl, inr,
}
use hqq.Bindgen.Lexer.{Token, t_eof}
use hqq.Bindgen.Lexer.Limits.{are_complete}
use hqq.Bindgen.Parser.Monad.{
  Parser, Parsed, Parse, parsed, failed, out_of_range, out_of_rounds, continue, Complaint, Rule,
  pure, fail, ◌>>=◌, cur, is_kind, advance, punct, kw, is_punct, is_kw, report, edit,
}
use hqq.Bindgen.Lexer.{Pos}
use hqq.Bindgen.Parser.Syntax.{RawFile}

-- A result that no index out of range and no lack of rounds caused, and that leaves tokens up to the
-- end of the file, at most so many, at a depth of annotation arguments.
abbrev pub Within : {A : Type 0} → ℕ → ℕ → Parsed A → Type 0
Within most depth (parsed a p) =
    (are_complete p.rest ≡ true) × (length p.rest ≤ most) × (p.depth ≡ depth)
Within most depth (failed e ds) = Unit
Within most depth out_of_range = ⊥
Within most depth out_of_rounds = ⊥

-- From every state at depth `d`, a method ends, and where it returns the depth is the same.
pub record Sound {A : Type 0} (d : ℕ) (m : Parse A) : Type 0 where
  pub at : (p : Parser) → are_complete p.rest ≡ true → p.depth ≡ d → Within (length p.rest) d (m p)

-- From a state whose current token is `t`, it also moves past a token.
pub record Moves {A : Type 0} (t : Token) (d : ℕ) (m : Parse A) : Type 0 where
  pub at :
      (p : Parser) (ts : List Token)
      → p.rest ≡ t ∷ ts
      → are_complete p.rest ≡ true
      → p.depth ≡ d
      → Within (length ts) d (m p)

-- Tokens up to the end of the file are at least one.
pub some_token :
    (ts : List Token) → are_complete ts ≡ true → (t : Token) × (us : List Token) × (ts ≡ t ∷ us)
some_token [] c = absurd (ground arith)
some_token (t ∷ us) c = (t, us, refl)

module _ {A B : Type 0} where
  pub continue_lem :
      (most k d e : ℕ) (r : Parsed A) (f : A → Parse B)
      → Within most d r
      → ((a : A) (p : Parser)
          → are_complete p.rest ≡ true
          → length p.rest ≤ most
          → p.depth ≡ d
          → Within k e (f a p))
      → Within k e (continue r f)
  continue_lem most k d e (parsed a p) f w rest = rest a p w.0 w.1 w.2
  continue_lem most k d e (failed x ds) f w rest = tt
  continue_lem most k d e out_of_range f w rest = absurd w
  continue_lem most k d e out_of_rounds f w rest = absurd w

module _ {A : Type 0} where
  pub Within-mono : (n k d : ℕ) (r : Parsed A) → n ≤ k → Within n d r → Within k d r
  Within-mono n k d (parsed a p) h w = (w.0, omega (arith, w.1), w.2)
  Within-mono n k d (failed x ds) h w = tt
  Within-mono n k d out_of_range h w = w
  Within-mono n k d out_of_rounds h w = w

  pub Sound-pure : {d : ℕ} → (a : A) → Sound d (pure a)
  unfolding pure
  Sound-pure a = record { at = λ p c h. (c, omega arith, h) }

  pub Sound-fail : {d : ℕ} → (pos : Pos) (x : Complaint) → Sound {A = A} d (fail pos x)
  unfolding fail
  Sound-fail pos x = record { at = λ p c h. tt }

  pub Sound-if :
      {d : ℕ} → (b : Bool) (m n : Parse A) → Sound d m → Sound d n → Sound d (if b then m else n)
  Sound-if true m n sm sn = sm
  Sound-if false m n sm sn = sn

  pub Moves-fail :
      {d : ℕ} → (t : Token) (pos : Pos) (x : Complaint) → Moves {A = A} t d (fail pos x)
  unfolding fail
  Moves-fail t pos x = record { at = λ p ts r c h. tt }

  pub Moves-if :
      {d : ℕ}
      → (t : Token) (b : Bool) (m n : Parse A) → (b ≡ true → Moves t d m)
      → (b ≡ false → Moves t d n)
      → Moves t d (if b then m else n)
  Moves-if t true m n sm sn = sm refl
  Moves-if t false m n sm sn = sn refl

  pub Sound-Moves : {d : ℕ} → (m : Parse A) → ((t : Token) → Moves t d m) → Sound d m
  Sound-Moves m moves = record {
    at = λ p c h.
        let (t, us, r) = some_token p.rest c in
        Within-mono (length us) (length p.rest) _ (m p) (omega (arith, ap length r))
          ((moves t).at p us r c h);
  }

module _ {A B : Type 0} where
  pub Sound-bind :
      {d : ℕ}
      → (m : Parse A) (f : A → Parse B) → Sound d m
      → ((a : A) → Sound d (f a))
      → Sound d (m >>= f)
  unfolding ◌>>=◌
  Sound-bind m f sm sf = record {
    at = λ p c h.
        continue_lem (length p.rest) (length p.rest) _ _ (m p) f (sm.at p c h) λ a q c' l h'.
          Within-mono (length q.rest) (length p.rest) _ (f a q) l ((sf a).at q c' h');
  }

  pub Moves-bind :
      {d : ℕ}
      → (t : Token) (m : Parse A) (f : A → Parse B) → Moves t d m
      → ((a : A) → Sound d (f a))
      → Moves t d (m >>= f)
  unfolding ◌>>=◌
  Moves-bind t m f sm sf = record {
    at = λ p ts r c h.
        continue_lem (length ts) (length ts) _ _ (m p) f (sm.at p ts r c h)
          λ a q c' l h'. Within-mono (length q.rest) (length ts) _ (f a q) l ((sf a).at q c' h');
  }

  -- A method that moves, behind one that may not.
  pub Moves-later :
      {d : ℕ}
      → (t : Token) (m : Parse A) (f : A → Parse B) → Sound d m
      → ((a : A) (u : Token) → Moves u d (f a))
      → Moves t d (m >>= f)
  unfolding ◌>>=◌
  Moves-later t m f sm sf = record {
    at = λ p ts r c h.
        continue_lem (length p.rest) (length ts) _ _ (m p) f (sm.at p c h) λ a q c' l h'.
          let (u, us, r') = some_token q.rest c' in
          Within-mono (length us) (length ts) _ (f a q) (omega (arith, ap length r', ap length r))
            ((sf a u).at q us r' c' h');
  }

pub Sound-cur : {d : ℕ} → Sound d cur
unfolding cur
Sound-cur = record { at = λ p c h. ground arith }

cur_lem : (p : Parser) (t : Token) (ts : List Token) → p.rest ≡ t ∷ ts → cur p ≡ parsed t p
unfolding cur
cur_lem p t ts r = ground arith

module _ {A : Type 0} where
  pub cur-bind :
      (f : Token → Parse A) (p : Parser) (t : Token) (ts : List Token)
      → p.rest ≡ t ∷ ts
      → (cur >>= f) p ≡ f t p
  unfolding ◌>>=◌
  cur-bind f p t ts r = ap (λ x. continue x f) (cur_lem p t ts r)

  pub Moves-cur :
      {d : ℕ} → (t : Token) (f : Token → Parse A) → Moves t d (f t) → Moves t d (cur >>= f)
  Moves-cur t f s = record { at = λ p ts r c h. rw (cur-bind f p t ts r) (s.at p ts r c h) }

complete-rest :
    (t : Token) (ts : List Token)
    → is_kind t_eof t ≡ false
    → are_complete (t ∷ ts) ≡ true
    → are_complete ts ≡ true
complete-rest t [] e c = ground arith
complete-rest t (u ∷ us) e c = ground arith

pub Moves-advance : {d : ℕ} → (t : Token) → is_kind t_eof t ≡ false → Moves t d advance
unfolding advance
Moves-advance t e = record {
  at = λ p ts r c h. rw (r, e) (complete-rest t ts e (rw r at c), omega arith, h);
}

pub Sound-advance : {d : ℕ} → Sound d advance
unfolding advance
Sound-advance = record {
  at = λ p c h.
      let (t, ts, r) = some_token p.rest c in
      elim (Bool-cases (is_kind t_eof t)) [
        | inl e ↦ ground (arith, r, e)
        | inr e ↦
            Within-mono (length ts) (length p.rest) _ (advance p) (omega (arith, ap length r))
              ((Moves-advance t e).at p ts r c h)
      ];
}

pub Sound-report : {d : ℕ} → (pos : Pos) (rule : Rule) → Sound d (report pos rule)
unfolding report
Sound-report pos rule = record { at = λ p c h. (c, omega arith, h) }

pub Sound-edit : {d : ℕ} → (change : RawFile → RawFile) → Sound d (edit change)
unfolding edit
Sound-edit change = record { at = λ p c h. (c, omega arith, h) }

pub Sound-is_punct : {d : ℕ} → (s : List ℕ) → Sound d (is_punct s)
unfolding is_punct
Sound-is_punct s = Sound-bind cur (λ t. pure (punct s t)) Sound-cur λ t. Sound-pure (punct s t)

pub Sound-is_kw : {d : ℕ} → (s : List ℕ) → Sound d (is_kw s)
unfolding is_kw
Sound-is_kw s = Sound-bind cur (λ t. pure (kw s t)) Sound-cur λ t. Sound-pure (kw s t)

module _ {A : Type 0} where
  pub Moves-report :
      {d : ℕ}
      → (t : Token) (pos : Pos) (rule : Rule) (m : Parse A) → Moves t d m
      → Moves t d (report pos rule >>= λ _. m)
  unfolding report ◌>>=◌
  Moves-report t pos rule m s = record { at = λ p ts r c h. s.at _ ts r c h }
