-- ===== src/Mpmc/Threads/Invariant/Cells.antt =====
-- Each access keeps the shared part of the invariant.
use hqq.Common.{ℕ, suc, ◌+◌, ◌^◌, ◌≤◌, Option, some, arith}
use hqq.Mpmc.Layout.{Memory, MpmcRing, update}
use hqq.Mpmc.Ring.{elem, cas_w, cas_r, publish, release, store_payload}
use hqq.Mpmc.Ring.Index.{IsHandle, two-le-size, elem-add-size, elem_neighbours}
use hqq.Mpmc.Threads.{producer_cas, owns_producer, consumer_cas, owns_consumer}
use hqq.Mpmc.Threads.Invariant.Defs.{Knows, Shared}

module _ {A : Type 0} {m : MpmcRing} (h : IsHandle m) {k : ℕ} (room : suc k + m.size ≤ 2 ^ 63)
    {mem : Memory A} {log : ℕ → Option A} (sh : Shared m k mem log) where
  -- Publishing position `p`, which a thread owns.
  pub publish-Shared :
      (p : ℕ)
      → Knows m mem (owns_producer p)
      → Shared m (suc k) (publish m mem p) (update log p (some (mem.slots (elem m p)).payload))
  unfolding publish
  publish-Shared p own = record {
    w_bound = omega arith;
    r_le_w = omega arith;
    w_le_r = omega arith;
    seq_bound = λ q. ground (arith, sh.seq_bound q);
    seq_free = λ q e le. ground (arith, sh.seq_free q, elem_neighbours h q p);
    seq_published = λ q e. ground (arith, sh.seq_published q, elem_neighbours h p q);
    seq_logged = λ q y e. ground (arith, sh.seq_logged q y, h.masked, two-le-size h);
  }

  pub release-Shared :
      (p : ℕ) → Knows m mem (owns_consumer p) → Shared m (suc k) (release m mem p) log
  unfolding release
  release-Shared p own = record {
    w_bound = omega arith;
    r_le_w = omega arith;
    w_le_r = omega arith;
    seq_bound = λ q. ground (arith, sh.seq_bound q, h.masked, two-le-size h);
    seq_free = λ q e le. ground (arith, sh.seq_free q, h.masked, two-le-size h);
    seq_published = λ q e. ground (
      arith,
      sh.seq_published q,
      elem_neighbours h (q + 1) q,
      elem-add-size h p,
      h.masked,
      two-le-size h,
    );
    seq_logged = λ q y e. ground (arith, sh.seq_logged q y, h.masked, two-le-size h);
  }

  pub claim_w-Shared : (p : ℕ) → Knows m mem (producer_cas p) → Shared m (suc k) (cas_w mem p).1 log
  unfolding cas_w
  claim_w-Shared p seen = record {
    w_bound = ground arith;
    r_le_w = ground arith;
    w_le_r = ground (arith, sh.seq_free p);
    seq_bound = λ q. ground (arith, sh.seq_bound q);
    seq_free = λ q e le. ground (arith, sh.seq_free q);
    seq_published = λ q e. ground (arith, sh.seq_published q);
    seq_logged = λ q y e. ground (arith, sh.seq_logged q y, h.masked, two-le-size h);
  }

  pub claim_r-Shared : (p : ℕ) → Knows m mem (consumer_cas p) → Shared m (suc k) (cas_r mem p).1 log
  unfolding cas_r
  claim_r-Shared p seen = record {
    w_bound = ground arith;
    r_le_w = ground (arith, sh.seq_published p);
    w_le_r = ground arith;
    seq_bound = λ q. ground (arith, sh.seq_bound q);
    seq_free = λ q e le. ground (arith, sh.seq_free q);
    seq_published = λ q e. ground (arith, sh.seq_published q);
    seq_logged = λ q y e. ground (arith, sh.seq_logged q y, h.masked, two-le-size h);
  }

  pub write-Shared :
      (p : ℕ) (x : A)
      → Knows m mem (owns_producer p)
      → Shared m (suc k) (store_payload m mem p x) log
  unfolding store_payload
  write-Shared p x own = record {
    w_bound = omega arith;
    r_le_w = omega arith;
    w_le_r = omega arith;
    seq_bound = λ q. ground (arith, sh.seq_bound q);
    seq_free = λ q e le. ground (arith, sh.seq_free q);
    seq_published = λ q e. ground (arith, sh.seq_published q, elem_neighbours h p q);
    seq_logged = λ q y e. ground (arith, sh.seq_logged q y, h.masked, two-le-size h);
  }
