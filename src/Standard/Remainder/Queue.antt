-- ===== src/Standard/Remainder/Queue.antt =====
-- What the remainder promises: a queue of tails, as plain values.
use hqq.Common.{
  ℕ, Bool, ◌||◌, Option, none, some, List, [], ◌∷◌, ◌++◌, length, take, drop, leb, if◌then◌else◌,
}

unfoldable pub store : List ℕ → List (List ℕ) → List (List ℕ)
store src q = q ++ (src ∷ [])

-- The first bytes of the oldest tail; the rest of it stays, unless none is left or it is discarded.
unfoldable pub read : ℕ → Bool → List (List ℕ) → Option (List ℕ) × List (List ℕ)
read dst discard [] = (none, [])
read dst discard (m ∷ q) =
    (some (take dst m), if discard || leb (length m) dst then q else drop dst m ∷ q)

unfoldable pub take_oldest : List (List ℕ) → Option (List ℕ) × List (List ℕ)
take_oldest [] = (none, [])
take_oldest (m ∷ q) = (some m, q)
