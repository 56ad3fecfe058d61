-- ===== src/Mpmc/Threads/Invariant/Defs.antt =====
-- The invariant of the threads on a ring.
use hqq.Common.{ℕ, ◌+◌, ◌-◌, ◌≡◌, ◌≤◌, ◌<◌, Option, some}
use hqq.Mpmc.Layout.{Memory, MpmcRing}
use hqq.Mpmc.Ring.{elem, load_seq}
use hqq.Mpmc.Threads.{
  Pc, producer, producer_cas, producer_wait, owns_producer, consumer, consumer_cas, consumer_wait,
  owns_consumer,
}

module _ {A : Type 0} (m : MpmcRing) where
  -- What a thread's `pos` says about shared memory. A thread that found its slot ready may be
  -- overtaken: its knowledge lasts until the cursor passes `pos`, and then its swap fails.
  abbrev pub Knows : Memory A → Pc → Type 0
  Knows mem (producer pos) = pos ≤ mem.head.w
  Knows mem (producer_wait pos) = pos ≤ mem.head.w
  Knows mem (producer_cas pos) = (pos ≤ mem.head.w) × (mem.head.w ≤ pos → load_seq m mem pos ≡ pos)
  Knows mem (owns_producer pos) = (pos < mem.head.w) × (load_seq m mem pos ≡ pos)
  Knows mem (consumer pos) = pos ≤ mem.head.r
  Knows mem (consumer_wait pos) = pos ≤ mem.head.r
  Knows mem (consumer_cas pos) =
      (pos ≤ mem.head.r) × (mem.head.r ≤ pos → load_seq m mem pos ≡ pos + 1)
  Knows mem (owns_consumer pos) = (pos < mem.head.r) × (load_seq m mem pos ≡ pos + 1)
  Knows mem _ = Unit

  -- The shared part of the invariant.
  pub record Shared (k : ℕ) (mem : Memory A) (log : ℕ → Option A) : Type 0 where
    pub w_bound : mem.head.w ≤ k
    pub r_le_w : mem.head.r ≤ mem.head.w
    pub w_le_r : mem.head.w ≤ mem.head.r + m.size
    pub seq_bound : (p : ℕ) → load_seq m mem p ≤ mem.head.w + m.size
    pub seq_free : (p : ℕ) → load_seq m mem p ≡ p → m.size ≤ p → p - m.size < mem.head.r
    pub seq_published :
        (p : ℕ)
        → load_seq m mem p ≡ p + 1
        → (p < mem.head.w) × (log p ≡ some (mem.slots (elem m p)).payload)
    pub seq_logged : (p : ℕ) (x : A) → log p ≡ some x → p < load_seq m mem p

  pub record Inv (k : ℕ) (mem : Memory A) (pc : ℕ → Pc) (log : ℕ → Option A) : Type 0 where
    pub shared : Shared k mem log
    pub knows : (i : ℕ) → Knows mem (pc i)
    pub producers : (i j p : ℕ) → pc i ≡ owns_producer p → pc j ≡ owns_producer p → i ≡ j
    pub consumers : (i j p : ℕ) → pc i ≡ owns_consumer p → pc j ≡ owns_consumer p → i ≡ j
