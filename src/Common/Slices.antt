-- ===== src/Common/Slices.antt =====
-- Prefixes and suffixes of lists, and what a slice of a concatenation is.
use Prim.Native.Nat.{ℕ, zero, suc, ◌+◌, ◌-◌, ◌≤◌, min, max}
use mathlib.Core.Path.{◌≡◌, refl, ap, ◌∙◌, sym}
use mathlib.Core.List.{List, [], ◌∷◌, ◌++◌, append-nil}
use native.Mathlib.Omega.{arith}
use native.Mathlib.Decide.{dec_lt}
use hqq.Common.Tests.{ltb, if◌then◌else◌}
use hqq.Common.Lists.{length, take, drop, length-take}

module _ {ℓ} {A : Type ℓ} where
  pub take-append :
      (n : ℕ) (xs ys : List A) → take n (xs ++ ys) ≡ take n xs ++ take (n - length xs) ys
  take-append zero xs ys = let e : 0 ≡ 0 - length xs = omega arith in ap (λ k. take k ys) e
  take-append (suc n) [] ys = ap (λ k. take k ys) {x = suc n} (omega arith)
  take-append (suc n) (x ∷ xs) ys =
      ap (◌∷◌ x) (take-append n xs ys ∙ ap (λ k. take n xs ++ take k ys) (omega arith))

  pub drop-append :
      (n : ℕ) (xs ys : List A) → drop n (xs ++ ys) ≡ drop n xs ++ drop (n - length xs) ys
  drop-append zero xs ys = let e : 0 ≡ 0 - length xs = omega arith in ap (λ k. xs ++ drop k ys) e
  drop-append (suc n) [] ys = ap (λ k. drop k ys) {x = suc n} (omega arith)
  drop-append (suc n) (x ∷ xs) ys =
      drop-append n xs ys ∙ ap (λ k. drop n xs ++ drop k ys) (omega arith)

  pub drop-nil : (n : ℕ) → drop {A = A} n [] ≡ []
  drop-nil zero = refl
  drop-nil (suc n) = refl

  pub drop-drop : (m n : ℕ) (xs : List A) → drop n (drop m xs) ≡ drop (m + n) xs
  drop-drop zero n xs = let e : n ≡ 0 + n = omega arith in ap (λ k. drop k xs) e
  drop-drop (suc m) n [] = drop-nil n ∙ sym (drop-nil (suc m + n))
  drop-drop (suc m) n (x ∷ xs) =
      let e : suc (m + n) ≡ suc m + n = omega arith in
      drop-drop m n xs ∙ ap (λ k. drop k (x ∷ xs)) e

  pub drop-all : (n : ℕ) (xs : List A) → length xs ≤ n → drop n xs ≡ []
  drop-all zero [] h = refl
  drop-all zero (x ∷ xs) h = absurd (omega arith)
  drop-all (suc n) [] h = refl
  drop-all (suc n) (x ∷ xs) h = drop-all n xs (omega arith)

  pub take-all : (n : ℕ) (xs : List A) → length xs ≤ n → take n xs ≡ xs
  take-all zero [] h = refl
  take-all zero (x ∷ xs) h = absurd (omega arith)
  take-all (suc n) [] h = refl
  take-all (suc n) (x ∷ xs) h = ap (◌∷◌ x) (take-all n xs (omega arith))

  pub take_left : (n : ℕ) (xs ys : List A) → length xs ≡ n → take n (xs ++ ys) ≡ xs
  take_left zero [] ys h = refl
  take_left zero (x ∷ xs) ys h = absurd (omega arith)
  take_left (suc n) [] ys h = absurd (omega arith)
  take_left (suc n) (x ∷ xs) ys h = ap (◌∷◌ x) (take_left n xs ys (omega arith))

  -- `xs[:n]` followed by `xs[n:m]` is `xs[:m]`.
  pub take-split : (n m : ℕ) (xs : List A) → n ≤ m → take n xs ++ drop n (take m xs) ≡ take m xs
  take-split zero m xs h = refl
  take-split (suc n) zero xs h = absurd (omega arith)
  take-split (suc n) (suc m) [] h = refl
  take-split (suc n) (suc m) (x ∷ xs) h = ap (◌∷◌ x) (take-split n m xs (omega arith))

module _ {A : Type 0} where
  -- The bytes from `o` to `e` of two slices in a row, taken from each by itself.
  pub slice-append :
      (o e : ℕ) (xs ys : List A)
      → o ≤ e
      → drop o (take e (xs ++ ys))
        ≡ (if ltb o (length xs) then drop o (take (min e (length xs)) xs) else [])
          ++ (if ltb (length xs) e
              then drop (max o (length xs) - length xs) (take (e - length xs) ys)
              else [])
  slice-append o e xs ys h =
      let whole : drop o (take e (xs ++ ys))
          ≡ drop o (take e xs) ++ drop (o - length (take e xs)) (take (e - length xs) ys) =
        rw (take-append e xs ys) (drop-append o (take e xs) (take (e - length xs) ys)) in
      elim (dec_lt (length xs) e) [
        | yes past ↦
            let t : take e xs ≡ take (min e (length xs)) xs =
              take-all e xs (omega arith) ∙ sym (take-all (min e (length xs)) xs (omega arith)) in
            let n : o - length (take e xs) ≡ max o (length xs) - length xs =
              omega (arith, length-take e xs) in
            ground (
              arith,
              whole,
              t,
              ap (λ k. drop k (take (e - length xs) ys)) n,
              drop-all o (take (min e (length xs)) xs),
              length-take (min e (length xs)) xs,
              append-nil (drop o (take e xs)),
            )
        | no within ↦
            let z : e - length xs ≡ 0 = omega arith in
            let t : min e (length xs) ≡ e = omega arith in
            ground (
              arith,
              whole,
              z,
              t,
              drop-nil {0} {A = A} (o - length (take e xs)),
              drop-all o (take e xs),
              length-take e xs,
              append-nil (drop o (take e xs)),
            )
      ]
