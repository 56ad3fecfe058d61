-- ===== src/Standard/Remainder.antt =====
-- `recvRemainder` (standard.go): the unread tails of messages, in buffers that are used again. Each
-- method holds the lock, so it is one step.
pub mod Queue
pub mod Inv
pub mod Steps
pub mod Refines
pub mod Runs
mod Tests
use hqq.Common.{
  ℕ, suc, ◌+◌, ◌-◌, min, max, Bool, true, false, not, ◌&&◌, ◌||◌, Option, none, some, List, [], ◌∷◌,
  ◌++◌, length, get_elem?, set, take, drop, replicate, ltb, leb, ◌==◌, if◌then◌else◌,
}
use hqq.Common.Counts.{take_out}

-- `tail`; a buffer is known by a number.
pub record Tail : Type 0 where
  pub buf : ℕ
  pub off : ℕ
  pub end : ℕ

-- `recvRemainder`. `heap` has the bytes of the buffers, whose capacity is their length; no buffer from
-- `next_buf` on has been made. The last of `free` stands first. `lent` are the buffers between `take`
-- and `giveBack`.
pub record RecvRemainder : Type 0 where
  pub pending : Bool
  pub queue : List Tail
  pub head : ℕ
  pub free : List ℕ
  pub size : ℕ
  pub heap : ℕ → List ℕ
  pub next_buf : ℕ
  pub lent : List ℕ

-- `maxSpareTails`
abbrev pub max_spare_tails : ℕ
max_spare_tails = 4

-- `t.buf[t.off:t.end]`
unfoldable pub view : (ℕ → List ℕ) → Tail → List ℕ
view heap t = drop t.off (take t.end (heap t.buf))

unfoldable pub update : ℕ → List ℕ → (ℕ → List ℕ) → ℕ → List ℕ
update i b heap j = if i == j then b else heap j

-- A buffer of zeros that nothing else refers to
unfoldable pub make_buf : ℕ → RecvRemainder → ℕ × RecvRemainder
make_buf n r = (
  r.next_buf,
  record r {
    heap = update r.next_buf (replicate (max n r.size) 0) r.heap;
    next_buf = r.next_buf + 1;
  },
)

-- `getBuf`
unfoldable pub get_from : List ℕ → ℕ → RecvRemainder → ℕ × RecvRemainder
get_from [] n r = make_buf n r
get_from (b ∷ free) n r =
    if leb n (length (r.heap b))
    then (b, record r { free = free })
    else make_buf n (record r { free = free })

unfoldable pub get_buf : ℕ → RecvRemainder → ℕ × RecvRemainder
get_buf n r = get_from r.free n r

-- `putBuf`
unfoldable pub put_buf : ℕ → RecvRemainder → RecvRemainder
put_buf b r = if ltb (length r.free) max_spare_tails then record r { free = b ∷ r.free } else r

-- The consumed tails leave the queue when it cannot grow in place.
unfoldable pub reclaim : Bool → RecvRemainder → RecvRemainder
reclaim full r =
    if not (r.head == 0) && full then record r { queue = drop r.head r.queue; head = 0 } else r

-- The part of `store` after `getBuf`; `full` is whether the length of the queue is its capacity.
unfoldable pub append_tail : List ℕ → Bool → ℕ → RecvRemainder → RecvRemainder
append_tail src full b r =
    let buf = r.heap b in
    let n = min (length buf) (length src) in
    let r' = reclaim full (record r { heap = update b (take n src ++ drop n buf) r.heap }) in
    record r' { queue = r'.queue ++ (record { buf = b; off = 0; end = n } ∷ []); pending = true }

-- `store`
unfoldable pub store : List ℕ → Bool → RecvRemainder → RecvRemainder
store src full r = let (b, r') = get_buf (length src) r in append_tail src full b r'

abbrev pub empty_tail : Tail
empty_tail = record { buf = 0; off = 0; end = 0 }

-- `popLocked`
unfoldable pub pop_locked : RecvRemainder → RecvRemainder
pop_locked r =
    let queue = set r.queue r.head empty_tail in
    let head = r.head + 1 in
    if head == length queue
    then record r { queue = []; head = 0; pending = false }
    else record r { queue = queue; head = head }

-- The oldest tail, when `read` and `take` get past their early returns
unfoldable pub oldest : RecvRemainder → Option Tail
oldest r =
    if not r.pending
    then none
    else if r.head == length r.queue
    then none
    else get_elem? r.queue r.head

unfoldable pub read_tail : Option Tail → ℕ → Bool → RecvRemainder → Option (List ℕ) × RecvRemainder
read_tail none dst discard r = (none, r)
read_tail (some t) dst discard r =
    let whole = view r.heap t in
    let n = min dst (length whole) in
    let off = t.off + n in
    if discard || off == t.end
    then (some (take n whole), pop_locked (put_buf t.buf r))
    else (some (take n whole), record r { queue = set r.queue r.head (record t { off = off }) })

-- `read` into `dst` bytes: the bytes that it copies, none for `ok == false`
unfoldable pub read : ℕ → Bool → RecvRemainder → Option (List ℕ) × RecvRemainder
read dst discard r = read_tail (oldest r) dst discard r

unfoldable pub take_tail : Option Tail → RecvRemainder → Option (List ℕ) × RecvRemainder
take_tail none r = (none, r)
take_tail (some t) r =
    let r' = pop_locked r in (some (view r.heap t), record r' { lent = t.buf ∷ r'.lent })

-- `take`: the bytes that it lends
unfoldable pub take_oldest : RecvRemainder → Option (List ℕ) × RecvRemainder
take_oldest r = take_tail (oldest r) r

-- `giveBack` of a buffer that is lent
unfoldable pub give_back : ℕ → RecvRemainder → RecvRemainder
give_back b r = put_buf b (record r { lent = take_out b r.lent })
