-- ===== src/Superblock/Publish/Zeroing.antt =====
-- What `zeroInChunks` has cleared when it stops.
use hqq.Common.{
  ℕ, zero, suc, ◌+◌, ◌*◌, ◌≤◌, ◌<◌, ◌≡◌, Bool, true, false, List, [], ◌∷◌, ◌++◌, arith, refl, ap,
  ap₂, ==-ne, ◌∙◌, sym, min, length, drop, replicate, length-drop, append_assoc,
}
use hqq.Common.Slices.{drop-drop}
use hqq.Superblock.Publish.{zero_in_chunks}

abbrev pub zeros : ℕ → List ℕ
zeros n = replicate n 0

zeros_eq : {m n : ℕ} → m ≡ n → zeros m ≡ zeros n
zeros_eq h = ap (λ k. zeros k) h

pub zeros-add : (m n : ℕ) → zeros m ++ zeros n ≡ zeros (m + n)
zeros-add zero n = zeros_eq (omega arith)
zeros-add (suc m) n = ap (λ l. 0 ∷ l) (zeros-add m n) ∙ zeros_eq {m = suc (m + n)} (omega arith)

-- One turn of the loop, on memory that is not empty
zero_turn :
    (ok : ℕ → Bool) (chunk fuel i : ℕ) (b : List ℕ) (rest : List ℕ × Bool)
    → 1 ≤ length b
    → ok i ≡ true
    → zero_in_chunks ok chunk fuel (suc i) (drop (min (length b) chunk) b) ≡ rest
    → zero_in_chunks ok chunk (suc fuel) i b ≡ (zeros (min (length b) chunk) ++ rest.0, rest.1)
unfolding zero_in_chunks
zero_turn ok chunk fuel i b rest h o e = rw (e, ==-ne (length b) 0 (omega (arith, h)), o) refl

-- With a check before every chunk that passes, all of the memory is cleared.
pub zero_all :
    (ok : ℕ → Bool) (chunk fuel i : ℕ) (b : List ℕ)
    → ((j : ℕ) → ok j ≡ true)
    → 1 ≤ chunk
    → length b ≤ fuel
    → zero_in_chunks ok chunk fuel i b ≡ (zeros (length b), true)
unfolding zero_in_chunks
zero_all ok chunk zero i [] h c l = refl
zero_all ok chunk zero i (x ∷ b) h c l = elim l [ ]
zero_all ok chunk (suc fuel) i [] h c l = refl
zero_all ok chunk (suc fuel) i (x ∷ b) h c l =
    let n = min (length (x ∷ b)) chunk in
    let left : length (drop n (x ∷ b)) ≤ fuel = omega (arith, length-drop n (x ∷ b), l, c) in
    zero_turn ok chunk fuel i (x ∷ b) (zeros (length (drop n (x ∷ b))), true) (omega arith) (h i)
      (zero_all ok chunk fuel (suc i) (drop n (x ∷ b)) h c left)
    ∙ ap (λ r. (r, true))
        (zeros-add n (length (drop n (x ∷ b)))
          ∙ zeros_eq {n = length (x ∷ b)} (omega (arith, length-drop n (x ∷ b))))

-- The first check that fails leaves everything behind the chunks before it as it was.
pub zero_stopped :
    (ok : ℕ → Bool) (chunk k fuel i : ℕ) (b : List ℕ)
    → ((j : ℕ) → i ≤ j → j < i + k → ok j ≡ true)
    → ok (i + k) ≡ false
    → 1 ≤ chunk
    → k * chunk < length b
    → length b ≤ fuel
    → zero_in_chunks ok chunk fuel i b ≡ (zeros (k * chunk) ++ drop (k * chunk) b, false)
unfolding zero_in_chunks
zero_stopped ok chunk zero zero i b h s c l m = absurd (omega (arith, l, m))
zero_stopped ok chunk zero (suc fuel) i b h s c l m =
    let none : 0 * chunk ≡ 0 = omega arith in
    let here : i ≡ i + 0 = omega arith in
    let fails : ok i ≡ false = ap ok here ∙ s in
    rw (==-ne (length b) 0 (omega (arith, l)), fails, none) refl
zero_stopped ok chunk (suc k) zero i b h s c l m = absurd (omega (arith, l, m))
zero_stopped ok chunk (suc k) (suc fuel) i b h s c l m =
    let small : chunk ≤ length b = omega (arith, l) in
    let n : min (length b) chunk ≡ chunk = omega (arith, small) in
    let rest = drop chunk b in
    let more : k * chunk < length rest = omega (arith, length-drop chunk b, l) in
    let fits : length rest ≤ fuel = omega (arith, length-drop chunk b, m, c) in
    let next : suc i + k ≡ i + suc k = omega arith in
    let whole : chunk + k * chunk ≡ suc k * chunk = omega arith in
    zero_turn ok chunk fuel i b (zeros (k * chunk) ++ drop (k * chunk) rest, false)
      (omega (arith, small, c)) (h i (omega arith) (omega arith))
      (ap (λ j. zero_in_chunks ok chunk fuel (suc i) (drop j b)) n
        ∙ zero_stopped ok chunk k fuel (suc i) rest
            (λ j p q. h j (omega (arith, p)) (omega (arith, q))) (ap ok next ∙ s) c more fits)
    ∙ ap (λ j. (zeros j ++ (zeros (k * chunk) ++ drop (k * chunk) rest), false)) n
    ∙ ap (λ r. (r, false))
        (sym (append_assoc (zeros chunk) (zeros (k * chunk)) (drop (k * chunk) rest))
          ∙ ap₂ ◌++◌ (zeros-add chunk (k * chunk)) (drop-drop chunk (k * chunk) b)
          ∙ ap (λ j. zeros j ++ drop j b) whole)
