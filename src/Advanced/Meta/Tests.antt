-- ===== src/Advanced/Meta/Tests.antt =====
-- A block with a budget and a caller, in front of two bytes.
use hqq.Common.{ℕ, ◌≡◌, true, some, List, [], ◌∷◌, ◌++◌, replicate, refl, arith}
use hqq.Advanced.Meta.{put_meta, parse_meta, le_bytes}
use hqq.Advanced.Meta.RoundTrip.{parse_meta-put_meta}

abbrev block : List ℕ
block = 20 ∷ 0 ∷ 1 ∷ 8 ∷ 44 ∷ 1 ∷ 0 ∷ 0 ∷ 0 ∷ 0 ∷ 0 ∷ 0 ∷ 2 ∷ 8 ∷ 9 ∷ 0 ∷ 0 ∷ 0 ∷ 0 ∷ 0 ∷ 0 ∷ 0 ∷ []

block_written : put_meta 300 9 (replicate 16 0) ≡ some block
unfolding put_meta le_bytes
block_written = refl

parse_meta-put_meta_example :
    parse_meta (block ++ (7 ∷ 8 ∷ []))
    ≡ some (record { has_budget = true; budget = 300; caller = 9; trace = replicate 16 0 }, 22)
parse_meta-put_meta_example =
    parse_meta-put_meta 300 9 (replicate 16 0) block (7 ∷ 8 ∷ []) (omega arith) (omega arith) refl
      block_written
