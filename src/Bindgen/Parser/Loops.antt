-- ===== src/Bindgen/Parser/Loops.antt =====
-- The loops of the parser end: as many rounds as there are tokens are enough.
use hqq.Common.{
  ℕ, zero, suc, ◌≤◌, ◌≡◌, Bool, true, false, List, [], ◌∷◌, if◌then◌else◌, length, arith, ap,
  Bool-cases, inl, inr,
}
use hqq.Bindgen.Lexer.{Token, t_eof}
use hqq.Bindgen.Lexer.Limits.{are_complete}
use hqq.Bindgen.Parser.Monad.{
  Parser, Parse, continue, pure, ◌>>=◌, is_kind, advance, punct, is_punct, while_cur, comma_list,
  enough,
}
use hqq.Bindgen.Parser.Sound.{
  Within, Sound, Moves, continue_lem, Within-mono, some_token, Sound-pure, Moves-advance, cur-bind,
}

-- The method is sound in the states with at most so many tokens left.
record Bounded {A : Type 0} (rounds d : ℕ) (m : Parse A) : Type 0 where
  at :
      (p : Parser)
      → are_complete p.rest ≡ true
      → length p.rest ≤ rounds
      → p.depth ≡ d
      → Within (length p.rest) d (m p)

module _ {A B : Type 0} where
  Bounded-moves :
      (rounds d : ℕ) (t : Token) (ts : List Token) (m : Parse A) (f : A → Parse B) (p : Parser)
      → Moves t d m
      → ((a : A) → Bounded rounds d (f a))
      → p.rest ≡ t ∷ ts
      → are_complete p.rest ≡ true
      → length p.rest ≤ suc rounds
      → p.depth ≡ d
      → Within (length ts) d ((m >>= f) p)
  unfolding ◌>>=◌
  Bounded-moves rounds d t ts m f p sm sf r c l h =
      continue_lem (length ts) (length ts) d d (m p) f (sm.at p ts r c h) λ a q c' l' h'.
        Within-mono (length q.rest) (length ts) d (f a q) l'
          ((sf a).at q c' (omega (arith, ap length r)) h')

  Bounded-bind :
      (rounds d : ℕ) (m : Parse A) (f : A → Parse B)
      → Bounded rounds d m
      → ((a : A) → Sound d (f a))
      → Bounded rounds d (m >>= f)
  unfolding ◌>>=◌
  Bounded-bind rounds d m f sm sf = record {
    at = λ p c l h.
        continue_lem (length p.rest) (length p.rest) d d (m p) f (sm.at p c l h) λ a q c' l' h'.
          Within-mono (length q.rest) (length p.rest) d (f a q) l' ((sf a).at q c' h');
  }

pub punct-open : (s : List ℕ) (t : Token) → punct s t ≡ true → is_kind t_eof t ≡ false
punct-open s t e = ground arith

module _ {A : Type 0} where
  is_punct-bind :
      (s : List ℕ) (f : Bool → Parse A) (p : Parser) (t : Token) (ts : List Token)
      → p.rest ≡ t ∷ ts
      → (is_punct s >>= f) p ≡ f (punct s t) p
  unfolding is_punct ◌>>=◌ pure
  is_punct-bind s f p t ts r = ap (λ x. continue x f) (cur-bind (λ u. pure (punct s u)) p t ts r)

module _ {A : Type 0} where
  Bounded-Sound : (rounds d : ℕ) (m : Parse A) → Sound d m → Bounded rounds d m
  Bounded-Sound rounds d m s = record { at = λ p c l h. s.at p c h }

  while_cur-Bounded :
      (d : ℕ) (test : Token → Bool) (body : Parse A)
      → ((t : Token) → test t ≡ true → Moves t d body)
      → (rounds : ℕ) → Bounded rounds d (while_cur test body rounds)
  unfolding while_cur
  while_cur-Bounded d test body moves zero = record {
    at = λ p c l h. let (t, ts, r) = some_token p.rest c in absurd (omega (arith, ap length r));
  }
  while_cur-Bounded d test body moves (suc rounds) = record {
    at = λ p c l h.
        let (t, ts, r) = some_token p.rest c in
        let again = λ (a : A). (do others ← while_cur test body rounds; pure (a ∷ others)) in
        rw (cur-bind (λ u. if test u then body >>= again else pure []) p t ts r)
          (elim (Bool-cases (test t)) [
            | inl e ↦ rw e (
                Within-mono (length ts) (length p.rest) d ((body >>= again) p)
                  (omega (arith, ap length r))
                  (Bounded-moves rounds d t ts body again p (moves t e)
                    (λ a.
                      Bounded-bind rounds d (while_cur test body rounds)
                        (λ others. pure (a ∷ others)) (while_cur-Bounded d test body moves rounds)
                        (λ others. Sound-pure (a ∷ others)))
                    r c l h))
            | inr e ↦ rw e ((Sound-pure {A = List A} []).at p c h)
          ]);
  }

  pub while_cur-Sound :
      {d : ℕ}
      → (test : Token → Bool) (body : Parse A) → ((t : Token) → test t ≡ true → Moves t d body)
      → Sound d (enough (while_cur test body))
  unfolding enough
  while_cur-Sound test body moves = record {
    at = λ p c h. (while_cur-Bounded _ test body moves (length p.rest)).at p c (omega arith) h;
  }

  comma_list-Bounded :
      (d : ℕ) (mark : List ℕ) (body : Parse A)
      → Sound d body
      → (rounds : ℕ) → Bounded rounds d (comma_list mark body rounds)
  unfolding comma_list ◌>>=◌
  comma_list-Bounded d mark body s zero = record {
    at = λ p c l h. let (t, ts, r) = some_token p.rest c in absurd (omega (arith, ap length r));
  }
  comma_list-Bounded d mark body s (suc rounds) = record {
    at = λ p c l h.
        let again = λ (a : A). (do others ← comma_list mark body rounds; pure (a ∷ others)) in
        let then_more =
          λ (a : A) (b : Bool). if b then (advance >>= λ _. again a) else pure (a ∷ []) in
        continue_lem (length p.rest) (length p.rest) d d (body p)
          (λ a. is_punct mark >>= then_more a) (s.at p c h)
          λ a q c' l' h'.
            let (t, ts, r) = some_token q.rest c' in
            Within-mono (length q.rest) (length p.rest) d ((is_punct mark >>= then_more a) q) l' (
              rw (is_punct-bind mark (then_more a) q t ts r) (elim (Bool-cases (punct mark t)) [
                | inl e ↦ rw e (
                    Within-mono (length ts) (length q.rest) d ((advance >>= λ _. again a) q)
                      (omega (arith, ap length r))
                      (Bounded-moves rounds d t ts advance (λ _. again a) q
                        (Moves-advance t (punct-open mark t e))
                        (λ _.
                          Bounded-bind rounds d (comma_list mark body rounds)
                            (λ others. pure (a ∷ others)) (comma_list-Bounded d mark body s rounds)
                            (λ others. Sound-pure (a ∷ others)))
                        r c' (omega arith) h'))
                | inr e ↦ rw e ((Sound-pure (a ∷ [])).at q c' h')
              ]));
  }

  pub comma_list-Sound :
      {d : ℕ}
      → (mark : List ℕ) (body : Parse A) → Sound d body
      → Sound d (enough (comma_list mark body))
  unfolding enough
  comma_list-Sound mark body s = record {
    at = λ p c h. (comma_list-Bounded _ mark body s (length p.rest)).at p c (omega arith) h;
  }
