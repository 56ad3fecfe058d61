-- ===== src/Bindgen/Lexer/Loop.antt =====
-- Loops with early returns: rounds on fuel, and two rules for what they do.
use hqq.Common.{ℕ, zero, suc, ◌<◌, ◌≡◌, ◌≢◌, arith, refl, ◌⊎◌, inl, inr}

pub data Once (E S R : Type 0) : Type 0 where
  leave : R → Once E S R
  again : S → Once E S R
  refuse : E → Once E S R
  exhausted : Once E S R

pub data Result {ℓ} (E : Type 0) (R : Type ℓ) : Type ℓ where
  done : R → Result E R
  stopped : E → Result E R
  out_of_fuel : Result E R

abbrev pub bind : {E A B : Type 0} → Result E A → (A → Result E B) → Result E B
bind (done a) f = f a
bind (stopped e) f = stopped e
bind out_of_fuel f = out_of_fuel

module _ {E S R : Type 0} where
  pub Once-cases :
      (x : Once E S R)
      → ((r : R) × (x ≡ leave r))
        ⊎ (((t : S) × (x ≡ again t)) ⊎ (((e : E) × (x ≡ refuse e)) ⊎ (x ≡ exhausted)))
  Once-cases (leave r) = inl (r, refl)
  Once-cases (again t) = inr (inl (t, refl))
  Once-cases (refuse e) = inr (inr (inl (e, refl)))
  Once-cases exhausted = inr (inr (inr refl))

module _ {E S R : Type 0} (once : S → Once E S R) where
  unfoldable pub loop : ℕ → S → Result E R
  loop zero s = out_of_fuel
  loop (suc fuel) s = elim (once s) [
    | leave r ↦ done r
    | again t ↦ loop fuel t
    | refuse e ↦ stopped e
    | exhausted ↦ out_of_fuel
  ]

  -- A measure that goes down in every round bounds the rounds.
  pub loop-ends :
      (measure : S → ℕ)
      → ((s : S) → once s ≢ exhausted)
      → ((s t : S) → once s ≡ again t → measure t < measure s)
      → (fuel : ℕ) (s : S) → measure s < fuel
      → loop fuel s ≢ out_of_fuel
  unfolding loop
  loop-ends measure some_way down zero s h = absurd (omega arith)
  loop-ends measure some_way down (suc fuel) s h =
      let rest : (t : S) → once s ≡ again t → loop fuel t ≢ out_of_fuel =
        λ t e. loop-ends measure some_way down fuel t (omega (arith, down s t e)) in
      elim (Once-cases (once s)) [
        | inl (r, e) ↦ λ z. ground arith
        | inr (inl (t, e)) ↦ λ z. rest t e (cc)
        | inr (inr (inl (x, e))) ↦ λ z. ground arith
        | inr (inr (inr e)) ↦ absurd (some_way s e)
      ]

  -- What holds of the last round's result, and of a round's if of the next one's, holds of the loop.
  pub loop-keeps {ℓ} :
      (P : S → R → Type ℓ)
      → ((s : S) (r : R) → once s ≡ leave r → P s r)
      → ((s t : S) (r : R) → once s ≡ again t → P t r → P s r)
      → (fuel : ℕ) (s : S) (r : R) → loop fuel s ≡ done r
      → P s r
  unfolding loop
  loop-keeps P last earlier zero s r e = ground arith
  loop-keeps P last earlier (suc fuel) s r e = elim (Once-cases (once s)) [
    | inl (q, x) ↦ last s r (ground arith)
    | inr (inl (t, x)) ↦ earlier s t r x (loop-keeps P last earlier fuel t r (ground arith))
    | inr (inr (inl (f, x))) ↦ absurd (ground arith)
    | inr (inr (inr x)) ↦ absurd (ground arith)
  ]
