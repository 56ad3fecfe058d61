-- ===== src/Mpmc/Threads/Invariant/Knowledge.antt =====
-- What a thread knows lasts while other threads move.
use hqq.Common.{ℕ, suc, ◌+◌, ◌%◌, ◌^◌, ◌≤◌, Option, arith, if◌then◌else◌, ap, ◌≢◌}
use hqq.Mpmc.Layout.{Memory, MpmcRing}
use hqq.Mpmc.Ring.{
  load_seq, producer_diff, consumer_diff, cas_w, cas_r, publish, release, store_payload,
}
use hqq.Mpmc.Ring.Index.{IsHandle, two-le-size, elem_neighbours, diff-same}
use hqq.Mpmc.Threads.{
  Pc, producer_load, producer, producer_cas, owns_producer, consumer_load, consumer, consumer_cas,
  owns_consumer, producer_switch, consumer_switch,
}
use hqq.Mpmc.Threads.Invariant.Defs.{Knows, Shared}

module _ {A : Type 0} {m : MpmcRing} (h : IsHandle m) {k : ℕ} (room : suc k + m.size ≤ 2 ^ 63)
    {mem : Memory A} {log : ℕ → Option A} (sh : Shared m k mem log) where
  pub publish-Knows :
      (p : ℕ) (pc : Pc)
      → Knows m mem (owns_producer p)
      → pc ≢ owns_producer p
      → Knows m mem pc
      → Knows m (publish m mem p) pc
  unfolding publish
  publish-Knows p (producer_cas q) own ne kn = ground arith
  publish-Knows p (owns_producer q) own ne kn = ground (arith, ap owns_producer)
  publish-Knows p (consumer_cas q) own ne kn = ground (arith, elem_neighbours h p q)
  publish-Knows p (owns_consumer q) own ne kn = ground (arith, elem_neighbours h p q)
  publish-Knows p _ own ne kn = kn

  pub release-Knows :
      (p : ℕ) (pc : Pc)
      → Knows m mem (owns_consumer p)
      → pc ≢ owns_consumer p
      → Knows m mem pc
      → Knows m (release m mem p) pc
  unfolding release
  release-Knows p (producer_cas q) own ne kn = ground (arith, elem_neighbours h q p)
  release-Knows p (owns_producer q) own ne kn = ground (arith, elem_neighbours h q p)
  release-Knows p (consumer_cas q) own ne kn = ground arith
  release-Knows p (owns_consumer q) own ne kn = ground (arith, ap owns_consumer)
  release-Knows p _ own ne kn = kn

  pub claim_w-Knows :
      (p : ℕ) (pc : Pc) → Knows m mem pc → Knows m mem (producer_cas p) → Knows m (cas_w mem p).1 pc
  unfolding cas_w
  claim_w-Knows p (producer_cas q) kn seen = ground arith
  claim_w-Knows p _ kn seen = ground arith

  pub claim_r-Knows :
      (p : ℕ) (pc : Pc) → Knows m mem pc → Knows m mem (consumer_cas p) → Knows m (cas_r mem p).1 pc
  unfolding cas_r
  claim_r-Knows p (producer_cas q) kn seen = ground arith
  claim_r-Knows p _ kn seen = ground arith

  pub write-Knows :
      (p : ℕ) (x : A) (pc : Pc) → Knows m mem pc → Knows m (store_payload m mem p x) pc
  unfolding store_payload
  write-Knows p x (producer_cas q) kn = ground arith
  write-Knows p x _ kn = ground arith

  -- What the mover learns.
  pub claimed-producer :
      (p : ℕ)
      → Knows m mem (producer_cas p)
      → Knows m (cas_w mem p).1 (if (cas_w mem p).0 then owns_producer p else producer_load)
  unfolding cas_w
  claimed-producer p seen = ground arith

  pub claimed-consumer :
      (p : ℕ)
      → Knows m mem (consumer_cas p)
      → Knows m (cas_r mem p).1 (if (cas_r mem p).0 then owns_consumer p else consumer_load)
  unfolding cas_r
  claimed-consumer p seen = ground arith

  pub switched-producer :
      (p : ℕ) → Knows m mem (producer p) → Knows m mem (producer_switch (producer_diff m mem p) p)
  unfolding producer_switch producer_diff
  switched-producer p kn = ground (arith, diff-same (load_seq m mem p) p, sh.seq_bound p)

  pub switched-consumer :
      (p : ℕ) → Knows m mem (consumer p) → Knows m mem (consumer_switch (consumer_diff m mem p) p)
  unfolding consumer_switch consumer_diff
  switched-consumer p kn =
      ground (arith, diff-same (load_seq m mem p) ((p + 1) % 2 ^ 64), sh.seq_bound p, two-le-size h)
