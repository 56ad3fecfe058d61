-- ===== src/Mpmc/Ring/Slots.antt =====
-- `ProducerSlot` and `ConsumerSlot` of internal/mpmc/mpmc.go: claims that a caller holds and copies.
mod Tests
use hqq.Common.{
  ℕ, ◌+◌, ◌%◌, ◌^◌, ◌<◌, ◌≤◌, ◌≡◌, Bool, true, false, not, ◌&&◌, Option, some, none, ◌==◌,
  if◌then◌else◌, arith, refl,
}
use hqq.Mpmc.Layout.{Memory, Melem, Mring, MpmcRing, update}
use hqq.Mpmc.Ring.{
  elem, load_seq, store_seq, publish, release, publish_slot, release_slot, notify, Side, not_empty,
  not_full, Wake, quiet,
}

-- A `ProducerSlot` or a `ConsumerSlot`: the fields are the same, and `has_elem` is `elem != nil`.
-- The ring that both point to is passed beside them.
pub record ClaimedSlot : Type 0 where
  pub pos : ℕ
  pub has_elem : Bool
  pub done : Bool

-- What `Commit` and `Release` do: their result, the slot value afterwards, the ring, and whom they
-- woke.
pub record Completed {ℓ} (A : Type ℓ) : Type ℓ where
  pub ok : Bool
  pub slot : ClaimedSlot
  pub mem : Memory A
  pub wake : Wake

-- `Valid`, of a receiver that is not nil
unfoldable pub is_valid : ClaimedSlot → Bool
is_valid s = s.has_elem && not s.done

-- `Slot`, of an initialised value
unfoldable pub slot_index : MpmcRing → ClaimedSlot → ℕ
slot_index m s = elem m s.pos

module _ {ℓ} {A : Type ℓ} where
  unfoldable pub producer_owned : MpmcRing → ClaimedSlot → Memory A → Bool
  producer_owned m s mem = is_valid s && load_seq m mem s.pos == s.pos

  unfoldable pub consumer_owned : MpmcRing → ClaimedSlot → Memory A → Bool
  consumer_owned m s mem = is_valid s && load_seq m mem s.pos == (s.pos + 1) % 2 ^ 64

  -- `Value`: what the pointer shows, none for nil
  unfoldable pub slot_value : MpmcRing → ClaimedSlot → Memory A → Option A
  slot_value m s mem = if is_valid s then some (mem.slots (elem m s.pos)).payload else none

  -- `notifyConsumers` or `notifyProducers` at the ring's header
  abbrev pub notify_ring : Bool → Side → Memory A → Wake × Memory A
  notify_ring parker side mem =
      let (wake, head) = notify parker side mem.head in (wake, record mem { head = head })

  -- The common tail of `publishSlot` and `releaseSlot` behind `Commit` and `Release`.
  abbrev pub complete : Bool → Side → ClaimedSlot → Bool × Memory A → Completed A
  complete parker side s (false, mem) = record { ok = false; slot = s; mem = mem; wake = quiet }
  complete parker side s (true, mem) =
      let (wake, mem') = notify_ring parker side mem in
      record { ok = true; slot = s; mem = mem'; wake = wake }

  -- `Commit`
  unfoldable pub commit : Bool → MpmcRing → ClaimedSlot → Memory A → Completed A
  commit parker m s mem =
      if not (is_valid s)
      then record { ok = false; slot = s; mem = mem; wake = quiet }
      else complete parker not_empty (record s { done = true }) (publish_slot m mem s.pos)

  -- `Release`
  unfoldable pub release_claim : Bool → MpmcRing → ClaimedSlot → Memory A → Completed A
  release_claim parker m s mem =
      if not (is_valid s)
      then record { ok = false; slot = s; mem = mem; wake = quiet }
      else complete parker not_full (record s { done = true }) (release_slot m mem s.pos)

  -- `CommitOwned`
  unfoldable pub commit_owned : Bool → MpmcRing → ClaimedSlot → Memory A → Wake × Memory A
  commit_owned parker m s mem = notify_ring parker not_empty (publish m mem s.pos)

  -- `ReleaseOwned`
  unfoldable pub release_owned : Bool → MpmcRing → ClaimedSlot → Memory A → Wake × Memory A
  release_owned parker m s mem = notify_ring parker not_full (release m mem s.pos)

  -- `Commit` succeeds exactly on a slot that `Owned` reports, and then does to the ring and its
  -- waiters what `CommitOwned` does; otherwise it leaves the ring as it is and wakes nobody.
  pub commit_lem :
      (parker : Bool) (m : MpmcRing) (s : ClaimedSlot) (mem : Memory A)
      → let t = commit parker m s mem in
        ◌≡◌ {A = Bool × Wake × Memory A}
          (t.ok, t.wake, t.mem)
          (if producer_owned m s mem
            then (true, (commit_owned parker m s mem).0, (commit_owned parker m s mem).1)
            else (false, quiet, mem))
  unfolding commit producer_owned commit_owned publish_slot is_valid
  commit_lem parker m s mem = ground arith

  -- `Release` succeeds exactly on a slot that `Owned` reports, and then does to the ring and its
  -- waiters what `ReleaseOwned` does; otherwise it leaves the ring as it is and wakes nobody.
  pub release_claim_lem :
      (parker : Bool) (m : MpmcRing) (s : ClaimedSlot) (mem : Memory A)
      → let t = release_claim parker m s mem in
        ◌≡◌ {A = Bool × Wake × Memory A}
          (t.ok, t.wake, t.mem)
          (if consumer_owned m s mem
            then (true, (release_owned parker m s mem).0, (release_owned parker m s mem).1)
            else (false, quiet, mem))
  unfolding release_claim consumer_owned release_owned release_slot is_valid
  release_claim_lem parker m s mem = ground arith

  -- After a `Commit` that succeeded at a 64-bit position, no copy of the slot is owned, and a
  -- `Commit` through any copy returns false, leaves the ring as it is, and wakes nobody.
  pub commit_once :
      (parker : Bool) (m : MpmcRing) (s copied : ClaimedSlot) (mem : Memory A)
      → s.pos < 2 ^ 64
      → copied.pos ≡ s.pos
      → (commit parker m s mem).ok ≡ true
      → (producer_owned m copied (commit parker m s mem).mem ≡ false)
        × ((commit parker m copied (commit parker m s mem).mem).ok ≡ false)
        × ((commit parker m copied (commit parker m s mem).mem).mem ≡ (commit parker m s mem).mem)
        × ((commit parker m copied (commit parker m s mem).mem).wake ≡ quiet)
  unfolding commit producer_owned publish_slot publish is_valid
  commit_once parker m s copied mem small same ok = ground arith

  -- After a `Release` that succeeded, in a ring of 2 to 2^63 slots, no copy of the slot is owned,
  -- and a `Release` through any copy returns false, leaves the ring as it is, and wakes nobody.
  pub release_once :
      (parker : Bool) (m : MpmcRing) (s copied : ClaimedSlot) (mem : Memory A)
      → s.pos < 2 ^ 64
      → 1 ≤ m.mask
      → m.mask < 2 ^ 63
      → copied.pos ≡ s.pos
      → (release_claim parker m s mem).ok ≡ true
      → (consumer_owned m copied (release_claim parker m s mem).mem ≡ false)
        × ((release_claim parker m copied (release_claim parker m s mem).mem).ok ≡ false)
        × ((release_claim parker m copied (release_claim parker m s mem).mem).mem
            ≡ (release_claim parker m s mem).mem)
        × ((release_claim parker m copied (release_claim parker m s mem).mem).wake ≡ quiet)
  unfolding release_claim consumer_owned release_slot release is_valid
  release_once parker m s copied mem small two fits same ok = ground arith
