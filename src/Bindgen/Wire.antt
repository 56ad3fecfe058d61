-- ===== src/Bindgen/Wire.antt =====
-- Frame headers, request ids and handles (bindgen/rt/wire.go, bindgen/rt/handle.go).
pub mod Laws
mod Tests
use hqq.Common.{
  ℕ, ◌+◌, ◌*◌, ◌%◌, ◌^◌, Bool, true, false, List, get_or, bit_or, ◌==◌, if◌then◌else◌, Option, some,
  none,
}
use hqq.Common.Bytes.{put_le, read_le}

-- `HeaderSize`
abbrev pub header_size : ℕ
header_size = 16

-- `header`
pub record Header : Type 0 where
  pub kind : ℕ
  pub flags : ℕ
  pub op : ℕ
  pub id : ℕ
  pub total : ℕ
  pub aux : ℕ

-- `loadHeader`, of a slice that is long enough
unfoldable pub load_header : List ℕ → Header
load_header b = record {
  kind = get_or b 0 0;
  flags = get_or b 1 0;
  op = read_le 2 b 2;
  id = read_le 4 b 4;
  total = read_le 4 b 8;
  aux = read_le 4 b 12;
}

-- The 64-bit word that `putHeader` stores first.
unfoldable pub first_word : Header → ℕ
first_word h = bit_or (bit_or (bit_or h.kind (2 ^ 8 * h.flags)) (2 ^ 16 * h.op)) (2 ^ 32 * h.id)

-- `putHeader`, at the start of a slice that is long enough
unfoldable pub put_header : List ℕ → Header → List ℕ
put_header b h = put_le 4 (put_le 4 (put_le 8 b 0 (first_word h)) 8 h.total) 12 h.aux

-- `nextID`: `cmp.Or` is its first argument that is not 0.
unfoldable pub next_id : ℕ → ℕ
next_id id = if (id + 1) % 2 ^ 32 == 0 then 1 else (id + 1) % 2 ^ 32

-- `Handle`
pub record Handle : Type 0 where
  pub id : ℕ
  pub sess : ℕ

-- The errors of `CheckHandle`.
pub data HandleError : Type 0 where
  invalid_arg foreign_handle : HandleError

abbrev pub is_nil : Handle → Bool
is_nil h = h.id == 0

-- `NewHandle` of a connection with the session number `sess`
unfoldable pub new_handle : ℕ → ℕ → Handle
new_handle sess id =
    if id == 0 then record { id = 0; sess = 0 } else record { id = id; sess = sess }

-- `CheckHandle`; none is Go's nil error.
unfoldable pub check_handle : ℕ → Handle → Bool → Option HandleError
check_handle sess h nullable =
    if h.id == 0
    then (if nullable then none else some invalid_arg)
    else if h.sess == sess
    then none
    else some foreign_handle
