-- ===== src/Mpmc/Threads/Safety.antt =====
-- What the ring promises to its users, over all interleavings.
use hqq.Common.{ℕ, ◌+◌, ◌-◌, ◌^◌, ◌≤◌, ◌<◌, ◌≡◌, ◌≢◌, arith, some, true, false, ◌⊎◌, inl, inr}
use hqq.Mpmc.Layout.{MpmcRing}
use hqq.Mpmc.Ring.{elem, publish, release, publish_slot, release_slot}
use hqq.Mpmc.Ring.Index.{IsHandle, elem_neighbours}
use hqq.Mpmc.Threads.{System, Reach, owns_producer, owns_consumer}
use hqq.Mpmc.Threads.Invariant.{Reach-Inv}

-- Thread `i` may write the slot `j`, or may read it.
abbrev pub OwnsSlot : {A : Type 0} → MpmcRing → System A → ℕ → ℕ → Type 0
OwnsSlot m s i j =
    ((p : ℕ) × (s.pc i ≡ owns_producer p) × (elem m p ≡ j))
    ⊎ ((p : ℕ) × (s.pc i ≡ owns_consumer p) × (elem m p ≡ j))

module _ {A : Type 0} {m : MpmcRing} (h : IsHandle m) {k : ℕ} {s : System A}
    (room : k + m.size ≤ 2 ^ 63) (r : Reach m k s) where
  open (Reach-Inv h room r) use {shared, knows, producers, consumers}

  -- In every state that threads reach from a fresh ring in k moves, with k + size <= 2^63, no
  -- slot has two owners: two threads that own the same slot, each for writing or for reading, are
  -- the same thread.
  pub exclusive_slots : (i j slot : ℕ) → OwnsSlot m s i slot → OwnsSlot m s j slot → i ≡ j
  exclusive_slots i j slot (inl (p, a, b)) (inl (q, c, d)) =
      ground (arith, knows i, knows j, producers i j p)
  exclusive_slots i j slot (inl (p, a, b)) (inr (q, c, d)) =
      absurd (ground (arith, knows i, knows j, elem_neighbours h p q))
  exclusive_slots i j slot (inr (p, a, b)) (inl (q, c, d)) =
      absurd (ground (arith, knows i, knows j, elem_neighbours h q p))
  exclusive_slots i j slot (inr (p, a, b)) (inr (q, c, d)) =
      ground (arith, knows i, knows j, consumers i j p)

  -- In every state that threads reach from a fresh ring in k moves, with k + size <= 2^63, the
  -- owner of the consumer position `p` finds in its slot the value that was published at `p`, and
  -- that position had been claimed by a producer.
  pub delivered_value :
      (i p : ℕ)
      → s.pc i ≡ owns_consumer p
      → (p < s.mem.head.w) × (s.log p ≡ some (s.mem.slots (elem m p)).payload)
  delivered_value i p e = ground (arith, knows i, shared.seq_published p)

  -- In every state that threads reach from a fresh ring in k moves, with k + size <= 2^63, the
  -- claimed positions that no consumer has claimed are between 0 and the size.
  pub occupancy_bounds : (s.mem.head.r ≤ s.mem.head.w) × (s.mem.head.w - s.mem.head.r ≤ m.size)
  occupancy_bounds = omega (arith, shared.r_le_w, shared.w_le_r)

  -- In every state that threads reach from a fresh ring in k moves, with k + size <= 2^63, the
  -- swap that publishes a slot succeeds for its owner, and does what the plain store does.
  pub completing_publish :
      (i p : ℕ) → s.pc i ≡ owns_producer p → publish_slot m s.mem p ≡ (true, publish m s.mem p)
  unfolding publish_slot
  completing_publish i p e = ground (arith, knows i)

  -- In every state that threads reach from a fresh ring in k moves, with k + size <= 2^63, the
  -- swap that releases a slot succeeds for its owner, and does what the plain store does.
  pub completing_release :
      (i p : ℕ) → s.pc i ≡ owns_consumer p → release_slot m s.mem p ≡ (true, release m s.mem p)
  unfolding release_slot
  completing_release i p e = ground (arith, knows i, shared.w_bound, shared.r_le_w)

  -- In every state that threads reach from a fresh ring in k moves, with k + size <= 2^63, the
  -- swap that publishes a position that was already published fails and leaves the memory as it
  -- is.
  pub stale_swap : (p : ℕ) (x : A) → s.log p ≡ some x → publish_slot m s.mem p ≡ (false, s.mem)
  unfolding publish_slot
  stale_swap p x e = ground (arith, shared.seq_logged p x)

  -- In every state that threads reach from a fresh ring in k moves, with k + size <= 2^63, the
  -- position that a thread is about to publish has not been published before.
  pub published_once : (i p : ℕ) (x : A) → s.pc i ≡ owns_producer p → s.log p ≢ some x
  published_once i p x e l = ground (arith, knows i, shared.seq_logged p x)
