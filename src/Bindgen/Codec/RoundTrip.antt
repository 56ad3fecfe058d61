-- ===== src/Bindgen/Codec/RoundTrip.antt =====
-- A string that `PutStr` writes, `GetStr` reads (bindgen/rt/codec.go).
use hqq.Common.{
  ℕ, zero, suc, ◌+◌, ◌-◌, ◌%◌, ◌^◌, ◌≤◌, ◌<◌, ◌≡◌, true, some, List, [], ◌∷◌, ◌++◌, length, take,
  drop, get_or, arith, refl, sym, ap, ◌∙◌, length-append, length-take, length-drop, append_assoc,
}
use hqq.Common.Bits.{bit_and_mask}
use hqq.Common.Bytes.{put_le, read_le, length-put_le, read_le-put_le}
use hqq.Common.Slices.{take_left}
use hqq.Bindgen.Codec.{null_len, align, check_str, write_at, put_str, get_len, length_ok, get_str}

align-aligned : (off : ℕ) → off % 4 ≡ 0 → align off 4 ≡ off
unfolding align
align-aligned off h = omega (arith, bit_and_mask 2 (off + 4 - 1))

get_or-front :
    (n j : ℕ) (xs ys : List ℕ)
    → j < n
    → n ≤ length xs
    → get_or (take n xs ++ ys) j 0 ≡ get_or xs j 0
get_or-front zero j xs ys h g = absurd (omega arith)
get_or-front (suc n) j [] ys h g = absurd (omega arith)
get_or-front (suc n) zero (x ∷ xs) ys h g = refl
get_or-front (suc n) (suc j) (x ∷ xs) ys h g = get_or-front n j xs ys (omega arith) (omega arith)

read_le-front :
    (k off n : ℕ) (xs ys : List ℕ)
    → off + k ≤ n
    → n ≤ length xs
    → read_le k (take n xs ++ ys) off ≡ read_le k xs off
unfolding read_le
read_le-front zero off n xs ys h g = refl
read_le-front (suc k) off n xs ys h g = omega (
  arith,
  get_or-front n off xs ys (omega arith) g,
  read_le-front k (off + 1) n xs ys (omega arith) g,
)

get_or-behind : (xs ys : List ℕ) (y n : ℕ) → length xs ≡ n → get_or (xs ++ (y ∷ ys)) n 0 ≡ y
get_or-behind [] ys y zero h = refl
get_or-behind [] ys y (suc n) h = absurd (omega arith)
get_or-behind (x ∷ xs) ys y zero h = absurd (omega arith)
get_or-behind (x ∷ xs) ys y (suc n) h = get_or-behind xs ys y n (omega arith)

drop_left : (n : ℕ) (xs ys : List ℕ) → length xs ≡ n → drop n (xs ++ ys) ≡ ys
drop_left zero [] ys h = refl
drop_left zero (x ∷ xs) ys h = absurd (omega arith)
drop_left (suc n) [] ys h = absurd (omega arith)
drop_left (suc n) (x ∷ xs) ys h = drop_left n xs ys (omega arith)

-- The bytes that `PutStr` leaves: the front with the length, the string, its end, and the bytes behind.
put_str_lem :
    (b : List ℕ) (off : ℕ) (s : List ℕ)
    → off + 4 + length s < length b
    → let front = take (off + 4) (put_le 4 b off (length s % 2 ^ 32)) in
      (tail : List ℕ) × ((put_str b off s).0 ≡ front ++ (s ++ (0 ∷ tail)))
      × (length front ≡ off + 4)
      × (length tail + (off + 4 + length s + 1) ≡ length b)
unfolding put_str write_at
put_str_lem b off s room =
    let c = put_le 4 b off (length s % 2 ^ 32) in
    let n : length c ≡ length b = length-put_le 4 b off (length s % 2 ^ 32) in
    let front = take (off + 4) c in
    let f : length front ≡ off + 4 = omega (arith, length-take (off + 4) c) in
    let d = drop (off + 4 + length s) c in
    let whole : front ++ (s ++ d) ≡ (front ++ s) ++ d = sym (append_assoc front s d) in
    let fs : length (front ++ s) ≡ off + 4 + length s = omega (arith, length-append front s) in
    let cut : take (off + 4 + length s) (front ++ (s ++ d)) ≡ front ++ s =
      ap (take (off + 4 + length s)) whole ∙ take_left (off + 4 + length s) (front ++ s) d fs in
    let tail = drop (off + 4 + length s + 1) (front ++ (s ++ d)) in
    (
      tail,
      ap (λ t. t ++ (0 ∷ tail)) cut ∙ append_assoc front s (0 ∷ tail),
      f,
      omega (
        arith,
        length-drop (off + 4 + length s + 1) (front ++ (s ++ d)),
        ap length whole,
        length-append (front ++ s) d,
        length-drop (off + 4 + length s) c,
      ),
    )

put_end : (b : List ℕ) (off : ℕ) (s : List ℕ) → (put_str b off s).1 ≡ off + 4 + length s + 1
unfolding put_str
put_end b off s = refl

-- What `GetStr` finds in bytes of that form.
get_len_lem :
    (w : List ℕ) (off n : ℕ)
    → off % 4 ≡ 0
    → off + 4 ≤ length w
    → read_le 4 w off ≡ n
    → get_len w off ≡ some (n, off + 4)
unfolding get_len
get_len_lem w off n aligned room e = let a = align-aligned off aligned in rw a (ground (arith, e))

get_str_lem :
    (front s tail : List ℕ) (off limit : ℕ)
    → off % 4 ≡ 0
    → length front ≡ off + 4
    → read_le 4 (front ++ (s ++ (0 ∷ tail))) off ≡ length s
    → check_str s limit ≡ true
    → length s < null_len
    → get_str (front ++ (s ++ (0 ∷ tail))) off limit ≡ some (s, off + 4 + length s + 1)
unfolding get_str length_ok check_str
get_str_lem front s tail off limit aligned f size checked short =
    let w = front ++ (s ++ (0 ∷ tail)) in
    let whole : w ≡ (front ++ s) ++ (0 ∷ tail) = sym (append_assoc front s (0 ∷ tail)) in
    let fs : length (front ++ s) ≡ off + 4 + length s = omega (arith, length-append front s) in
    let long : length w ≡ off + 4 + length s + 1 + length tail =
      omega (arith, ap length whole, length-append (front ++ s) (0 ∷ tail)) in
    let found = get_len_lem w off (length s) aligned (omega arith) size in
    let text : drop (off + 4) (take (off + 4 + length s) w) ≡ s =
      ap (λ t. drop (off + 4) (take (off + 4 + length s) t)) whole
      ∙ ap (drop (off + 4)) (take_left (off + 4 + length s) (front ++ s) (0 ∷ tail) fs)
      ∙ drop_left (off + 4) front s f in
    let end : get_or w (off + 4 + length s) 0 ≡ 0 =
      ap (λ t. get_or t (off + 4 + length s) 0) whole
      ∙ get_or-behind (front ++ s) tail 0 (off + 4 + length s) fs in
    ground (arith, found, text, end, long)

-- A string without NUL and within the limit, written at an aligned offset where it has room, is read
-- back, and both return the offset behind its end, whatever the bytes held before.
pub get_str-put_str :
    (b s : List ℕ) (off limit : ℕ)
    → off % 4 ≡ 0
    → off + 4 + length s < length b
    → check_str s limit ≡ true
    → length s < null_len
    → get_str (put_str b off s).0 off limit ≡ some (s, (put_str b off s).1)
get_str-put_str b s off limit aligned room checked short =
    let c = put_le 4 b off (length s % 2 ^ 32) in
    let (tail, bytes, f, rest) = put_str_lem b off s room in
    let front = take (off + 4) c in
    let n = length-put_le 4 b off (length s % 2 ^ 32) in
    let size : read_le 4 (front ++ (s ++ (0 ∷ tail))) off ≡ length s =
      read_le-front 4 off (off + 4) c (s ++ (0 ∷ tail)) (omega arith) (omega (arith, n))
      ∙ read_le-put_le 4 b off (length s % 2 ^ 32) (omega arith)
      ∙ omega arith in
    ap (λ t. get_str t off limit) bytes
    ∙ get_str_lem front s tail off limit aligned f size checked short
    ∙ ap (λ k. some (s, k)) (sym (put_end b off s))
