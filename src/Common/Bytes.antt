-- ===== src/Common/Bytes.antt =====
-- Little-endian words in a byte slice, as Go's `encoding/binary` lays them out byte by byte.
use Prim.Native.Nat.{ℕ, zero, suc, ◌+◌, ◌*◌, ◌/◌, ◌%◌, ◌^◌, ◌≤◌, ◌<◌}
use mathlib.Core.Path.{◌≡◌, refl, ◌∙◌, ap}
use mathlib.Core.Logic.{◌≢◌, ◌⊎◌}
use mathlib.Core.List.{List, [], ◌∷◌}
use native.Mathlib.Omega.{arith}
use native.Mathlib.Nat.{pow-suc, mod-lt, div-add-mod}
use hqq.Common.Bits.{mod_unique}
use hqq.Common.Lists.{length, get_or, set, length-set}

-- `v`, `k` bytes wide, at the offset `off`; a byte outside the slice is not written.
unfoldable pub put_le : ℕ → List ℕ → ℕ → ℕ → List ℕ
put_le zero p off v = p
put_le (suc k) p off v = put_le k (set p off (v % 256)) (off + 1) (v / 256)

unfoldable pub read_le : ℕ → List ℕ → ℕ → ℕ
read_le zero p off = 0
read_le (suc k) p off = get_or p off 0 + 256 * read_le k p (off + 1)

pub length-put_le : (k : ℕ) (p : List ℕ) (off v : ℕ) → length (put_le k p off v) ≡ length p
unfolding put_le
length-put_le zero p off v = refl
length-put_le (suc k) p off v =
    length-put_le k (set p off (v % 256)) (off + 1) (v / 256) ∙ length-set p off (v % 256)

get_or-set_self : (p : List ℕ) (i v d : ℕ) → i < length p → get_or (set p i v) i d ≡ v
get_or-set_self [] i v d h = absurd (omega arith)
get_or-set_self (x ∷ xs) zero v d h = refl
get_or-set_self (x ∷ xs) (suc i) v d h = get_or-set_self xs i v d (omega arith)

get_or-set_ne : (p : List ℕ) (i j v d : ℕ) → i ≢ j → get_or (set p i v) j d ≡ get_or p j d
get_or-set_ne [] i j v d h = refl
get_or-set_ne (x ∷ xs) zero zero v d h = absurd (h refl)
get_or-set_ne (x ∷ xs) zero (suc j) v d h = refl
get_or-set_ne (x ∷ xs) (suc i) zero v d h = refl
get_or-set_ne (x ∷ xs) (suc i) (suc j) v d h = get_or-set_ne xs i j v d (λ e. h (ap suc e))

-- A write does not touch the bytes beside it.
pub get_or-put_le :
    (k : ℕ) (p : List ℕ) (off v j : ℕ)
    → (j < off) ⊎ (off + k ≤ j)
    → get_or (put_le k p off v) j 0 ≡ get_or p j 0
unfolding put_le
get_or-put_le zero p off v j o = refl
get_or-put_le (suc k) p off v j o =
    get_or-put_le k (set p off (v % 256)) (off + 1) (v / 256) j (omega arith)
    ∙ get_or-set_ne p off j (v % 256) 0 (omega arith)

pub read_le-put_le_other :
    (k l : ℕ) (p : List ℕ) (off v j : ℕ)
    → (j + l ≤ off) ⊎ (off + k ≤ j)
    → read_le l (put_le k p off v) j ≡ read_le l p j
unfolding read_le
read_le-put_le_other k zero p off v j o = refl
read_le-put_le_other k (suc l) p off v j o = omega (
  arith,
  get_or-put_le k p off v j (omega arith),
  read_le-put_le_other k l p off v (j + 1) (omega arith),
)

byte_mod : (p x : ℕ) → 1 ≤ p → x % (p * 256) ≡ x / 256 % p * 256 + x % 256
byte_mod p x h =
    rw (← mod_unique (p * 256) (x / 256 / p) (x / 256 % p * 256 + x % 256) below)
      (ap (λ t. t % (p * 256)) whole)
  where
    below : x / 256 % p * 256 + x % 256 < p * 256
    below = omega (arith, mod-lt (x / 256) h)

    whole : x ≡ p * 256 * (x / 256 / p) + (x / 256 % p * 256 + x % 256)
    whole = omega (arith, div-add-mod (x / 256) p)

pow_256_pos : (k : ℕ) → 1 ≤ 256 ^ k
pow_256_pos zero = omega arith
pow_256_pos (suc k) = omega (arith, pow-suc 256 k, pow_256_pos k)

-- What was written is read back, cut to `k` bytes.
pub read_le-put_le :
    (k : ℕ) (p : List ℕ) (off v : ℕ)
    → off + k ≤ length p
    → read_le k (put_le k p off v) off ≡ v % 256 ^ k
unfolding read_le put_le
read_le-put_le zero p off v h = omega arith
read_le-put_le (suc k) p off v h =
    rw (pow-suc 256 k, byte_mod (256 ^ k) v (omega (arith, pow_256_pos k)))
      (omega (
        arith,
        get_or-put_le k (set p off (v % 256)) (off + 1) (v / 256) off (omega arith),
        get_or-set_self p off (v % 256) 0 (omega arith),
        read_le-put_le k (set p off (v % 256)) (off + 1) (v / 256)
            (omega (arith, length-set p off (v % 256))),
      ))

pub read_le-lt :
    (k : ℕ) (p : List ℕ) (off : ℕ) → ((j : ℕ) → get_or p j 0 < 256) → read_le k p off < 256 ^ k
unfolding read_le
read_le-lt zero p off h = omega arith
read_le-lt (suc k) p off h = omega (arith, pow-suc 256 k, h off, read_le-lt k p (off + 1) h)
