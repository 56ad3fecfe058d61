-- ===== src/Common/Counts.antt =====
-- How often a number stands in a list, and the list without one occurrence of it.
use Prim.Native.Nat.{ℕ, suc, ◌+◌, ◌≤◌}
use mathlib.Core.Path.{◌≡◌}
use mathlib.Core.List.{List, [], ◌∷◌, ◌++◌}
use native.Mathlib.Omega.{arith}
use hqq.Common.Tests.{◌==◌, if◌then◌else◌}

unfoldable pub count : ℕ → List ℕ → ℕ
count n [] = 0
count n (x ∷ xs) = if x == n then suc (count n xs) else count n xs

-- Removes the first `n`.
unfoldable pub take_out : ℕ → List ℕ → List ℕ
take_out n [] = []
take_out n (x ∷ xs) = if x == n then xs else x ∷ take_out n xs

pub count-take_out :
    (n m : ℕ) (xs : List ℕ)
    → 1 ≤ count m xs
    → count n (take_out m xs) + (if m == n then 1 else 0) ≡ count n xs
unfolding count take_out
count-take_out n m [] h = absurd (omega arith)
count-take_out n m (x ∷ xs) h = ground (arith, count-take_out n m xs)

pub count-append : (n : ℕ) (xs ys : List ℕ) → count n (xs ++ ys) ≡ count n xs + count n ys
unfolding count
count-append n [] ys = omega arith
count-append n (x ∷ xs) ys = ground (arith, count-append n xs ys)
