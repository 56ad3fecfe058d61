-- ===== src/Mpmc/Ring.antt =====
-- The operations of internal/mpmc/mpmc.go on shared memory, one atomic access at a time.
pub mod Index
pub mod Slots
use hqq.Common.{
  ℕ, ◌+◌, ◌-◌, ◌%◌, ◌^◌, bit_and, Bool, true, false, not, ◌&&◌, Option, none, some, ltb, ◌==◌,
  if◌then◌else◌,
}
use hqq.Mpmc.Layout.{Mring, Melem, Memory, MpmcRing, update}

-- `diff := int64(a - b)` against zero: the sign bit of the wrapped difference is bit 63.
pub data Diff : Type 0 where
  same ahead behind : Diff

unfoldable pub diff : ℕ → ℕ → Diff
diff a b =
    let d = (a % 2 ^ 64 + 2 ^ 64 - b % 2 ^ 64) % 2 ^ 64 in
    if d == 0 then same else if ltb d (2 ^ 63) then ahead else behind

-- The slot index `pos & m.mask`, through which `m.elem` addresses the slot.
unfoldable pub elem : MpmcRing → ℕ → ℕ
elem m pos = bit_and pos m.mask

module _ {ℓ} {A : Type ℓ} where
  abbrev pub load_seq : MpmcRing → Memory A → ℕ → ℕ
  load_seq m mem pos = (mem.slots (elem m pos)).seq

  abbrev pub store_seq : MpmcRing → Memory A → ℕ → ℕ → Memory A
  store_seq m mem pos v = record mem {
    slots =
        update mem.slots (elem m pos)
          (record { seq = v; payload = (mem.slots (elem m pos)).payload });
  }

  -- `e._data = x` by the owner of the slot
  unfoldable pub store_payload : MpmcRing → Memory A → ℕ → A → Memory A
  store_payload m mem pos x = record mem {
    slots = update mem.slots (elem m pos) (record { seq = load_seq m mem pos; payload = x });
  }

  -- The switch of `claimProducer`.
  unfoldable pub producer_diff : MpmcRing → Memory A → ℕ → Diff
  producer_diff m mem pos = diff (load_seq m mem pos) pos

  -- The switch of `claimConsumer`.
  unfoldable pub consumer_diff : MpmcRing → Memory A → ℕ → Diff
  consumer_diff m mem pos = diff (load_seq m mem pos) ((pos + 1) % 2 ^ 64)

  -- `CompareAndSwapUint64(&h.w, pos, pos+1)`
  unfoldable pub cas_w : Memory A → ℕ → Bool × Memory A
  cas_w mem pos =
      if mem.head.w == pos
      then (true, record mem { head = record mem.head { w = (pos + 1) % 2 ^ 64 } })
      else (false, mem)

  -- `CompareAndSwapUint64(&h.r, pos, pos+1)`
  unfoldable pub cas_r : Memory A → ℕ → Bool × Memory A
  cas_r mem pos =
      if mem.head.r == pos
      then (true, record mem { head = record mem.head { r = (pos + 1) % 2 ^ 64 } })
      else (false, mem)

  -- The store of `publish`; `notify_consumers` follows it.
  unfoldable pub publish : MpmcRing → Memory A → ℕ → Memory A
  publish m mem pos = store_seq m mem pos ((pos + 1) % 2 ^ 64)

  -- The store of `release`; `notify_producers` follows it.
  unfoldable pub release : MpmcRing → Memory A → ℕ → Memory A
  release m mem pos = store_seq m mem pos ((pos + m.mask + 1) % 2 ^ 64)

  -- The compare-and-swap of `publishSlot`.
  unfoldable pub publish_slot : MpmcRing → Memory A → ℕ → Bool × Memory A
  unfolding publish
  publish_slot m mem pos =
      if load_seq m mem pos == pos then (true, publish m mem pos) else (false, mem)

  -- The compare-and-swap of `releaseSlot`.
  unfoldable pub release_slot : MpmcRing → Memory A → ℕ → Bool × Memory A
  unfolding release
  release_slot m mem pos =
      if load_seq m mem pos == (pos + 1) % 2 ^ 64 then (true, release m mem pos) else (false, mem)

-- `Side`
pub data Side : Type 0 where
  not_empty not_full : Side

-- What a waker asks of the system: nothing, tokens of the handle's `Parker`, or a futex wake.
pub data Wake : Type 0 where
  quiet : Wake
  parker_wake : Side → ℕ → Wake
  futex_wake : Side → Wake

-- `waitSite` gives the wait word and the waiter count of a side.
abbrev pub site_waiters : Mring → Side → ℕ
site_waiters h not_empty = h.empty_waiters
site_waiters h not_full = h.full_waiters

abbrev pub bump_word : Mring → Side → Mring
bump_word h not_empty = record h { not_empty = (h.not_empty + 1) % 2 ^ 32 }
bump_word h not_full = record h { not_full = (h.not_full + 1) % 2 ^ 32 }

-- `wakeOne` and `wakeAll` of a site; `parker` tells whether the handle has one. The header is what
-- `wakeWord` changes.
unfoldable pub wake_one : Bool → Side → Mring → Wake × Mring
wake_one parker side h =
    if parker
    then (if site_waiters h side == 0 then quiet else parker_wake side 1, h)
    else (futex_wake side, bump_word h side)

unfoldable pub wake_all : Bool → Side → Mring → Wake × Mring
wake_all parker side h =
    if parker
    then (if site_waiters h side == 0 then quiet else parker_wake side (site_waiters h side), h)
    else (futex_wake side, bump_word h side)

-- `notifyConsumers` is `notify` at `not_empty`, `notifyProducers` at `not_full`.
unfoldable pub notify : Bool → Side → Mring → Wake × Mring
unfolding wake_one
notify parker side h = if site_waiters h side == 0 then (quiet, h) else wake_one parker side h

-- `WakeAll` of the ring.
unfoldable pub wake_ring : Bool → Mring → Wake × Wake × Mring
unfolding wake_all
wake_ring parker h =
    let (first, h') = wake_all parker not_empty h in
    let (second, h'') = wake_all parker not_full h' in (first, second, h'')
