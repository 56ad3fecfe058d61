-- ===== src/Mpmc/Threads.antt =====
-- Any number of threads, of any number of processes, on one ring. A step is one atomic access of
-- `claimProducer`, `claimConsumer`, `publish` or `release`, in any interleaving.
pub mod Invariant
mod Schedule
pub mod Safety
mod Tests
use hqq.Common.{ℕ, ◌+◌, ◌-◌, ◌^◌, ◌≡◌, ◌≤◌, ◌<◌, Bool, Option, none, some, ◌==◌, if◌then◌else◌}
use hqq.Mpmc.Layout.{Mring, Melem, Memory, MpmcRing, update}
use hqq.Mpmc.Ring.{
  Diff, same, ahead, behind, elem, producer_diff, consumer_diff, cas_w, cas_r, publish, release,
  store_payload, notify, not_empty, not_full,
}

-- Where a thread stands, with its local `pos`. `producer` is the head of the loop of
-- `claimProducer` or `claimProducerSlow`, `producer_cas` the branch `diff == 0`, `producer_wait`
-- the call of `w.wait`, `producer_load` before a load of the cursor, `owns_producer` the time
-- between the claim and the publication, `published` before the notification. So for consumers.
pub data Pc : Type 0 where
  idle : Pc
  producer_load : Pc
  producer : (pos : ℕ) → Pc
  producer_cas : (pos : ℕ) → Pc
  producer_wait : (pos : ℕ) → Pc
  owns_producer : (pos : ℕ) → Pc
  published : Pc
  consumer_load : Pc
  consumer : (pos : ℕ) → Pc
  consumer_cas : (pos : ℕ) → Pc
  consumer_wait : (pos : ℕ) → Pc
  owns_consumer : (pos : ℕ) → Pc
  released : Pc

-- The switch of the claim loops, after `seq` was loaded.
unfoldable pub producer_switch : Diff → ℕ → Pc
producer_switch same pos = producer_cas pos
producer_switch ahead pos = producer_load
producer_switch behind pos = producer_wait pos

unfoldable pub consumer_switch : Diff → ℕ → Pc
consumer_switch same pos = consumer_cas pos
consumer_switch ahead pos = consumer_load
consumer_switch behind pos = consumer_wait pos

abbrev pub with_head {ℓ} : {A : Type ℓ} → Memory A → Mring → Memory A
with_head mem h = record mem { head = h }

-- `log` is a ghost: what was published at each position.
pub record System (A : Type 0) : Type 0 where
  pub mem : Memory A
  pub pc : ℕ → Pc
  pub log : ℕ → Option A

module _ {A : Type 0} (m : MpmcRing) where
  -- One step of one thread on the memory and on the log. From `idle` a thread may begin to enqueue
  -- or to dequeue; a claim that waits may be woken, or give up (`w.wait` returned an error). The
  -- owner of a producer slot may write it any number of times.
  pub data Move (mem : Memory A) (log : ℕ → Option A)
      : Pc → Memory A → Pc → (ℕ → Option A) → Type 0 where
    begin_enqueue : Move mem log idle mem producer_load log
    load_w : Move mem log producer_load mem (producer mem.head.w) log
    test_producer :
        {pos : ℕ}
        → Move mem log (producer pos) mem (producer_switch (producer_diff m mem pos) pos) log
    claim_w :
        {pos : ℕ}
        → Move mem log
            (producer_cas pos)
            (cas_w mem pos).1
            (if (cas_w mem pos).0 then owns_producer pos else producer_load)
            log
    woken_producer : {pos : ℕ} → Move mem log (producer_wait pos) mem (producer pos) log
    give_up_producer : {pos : ℕ} → Move mem log (producer_wait pos) mem idle log
    write :
        {pos : ℕ} (x : A)
        → Move mem log (owns_producer pos) (store_payload m mem pos x) (owns_producer pos) log
    publish_move :
        {pos : ℕ}
        → Move mem log
            (owns_producer pos)
            (publish m mem pos)
            published
            (update log pos (some (mem.slots (elem m pos)).payload))
    notify_consumers :
        (parker : Bool)
        → Move mem log published (with_head mem (notify parker not_empty mem.head).1) idle log
    begin_dequeue : Move mem log idle mem consumer_load log
    load_r : Move mem log consumer_load mem (consumer mem.head.r) log
    test_consumer :
        {pos : ℕ}
        → Move mem log (consumer pos) mem (consumer_switch (consumer_diff m mem pos) pos) log
    claim_r :
        {pos : ℕ}
        → Move mem log
            (consumer_cas pos)
            (cas_r mem pos).1
            (if (cas_r mem pos).0 then owns_consumer pos else consumer_load)
            log
    woken_consumer : {pos : ℕ} → Move mem log (consumer_wait pos) mem (consumer pos) log
    give_up_consumer : {pos : ℕ} → Move mem log (consumer_wait pos) mem idle log
    release_move : {pos : ℕ} → Move mem log (owns_consumer pos) (release m mem pos) released log
    notify_producers :
        (parker : Bool)
        → Move mem log released (with_head mem (notify parker not_full mem.head).1) idle log

  -- A thread moves, or the waiters of the parking protocol change the wait words.
  pub data Step (s : System A) : System A → Type 0 where
    pick :
        (i : ℕ) {mem : Memory A} {p : Pc} {log : ℕ → Option A}
        → Move s.mem s.log (s.pc i) mem p log
        → Step s (record { mem = mem; pc = update s.pc i p; log = log })
    parking :
        (a b c d : ℕ)
        → Step s (record s {
          mem = with_head s.mem (record s.mem.head {
            not_empty = a;
            empty_waiters = b;
            not_full = c;
            full_waiters = d;
          });
        })

  -- What `Format` leaves.
  pub record IsFresh (mem : Memory A) : Type 0 where
    pub fresh_r : mem.head.r ≡ 0
    pub fresh_w : mem.head.w ≡ 0
    pub fresh_seq : (j : ℕ) → j < m.size → (mem.slots j).seq ≡ j

  -- The states that are reached in `k` steps from a formatted ring on which no thread is active.
  pub data Reach : ℕ → System A → Type 0 where
    start :
        (mem : Memory A)
        → IsFresh mem
        → Reach 0 (record { mem = mem; pc = λ i. idle; log = λ p. none })
    later : {k : ℕ} {s t : System A} → Reach k s → Step s t → Reach (ℕ.suc k) t
