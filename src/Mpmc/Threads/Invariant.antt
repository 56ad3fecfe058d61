-- ===== src/Mpmc/Threads/Invariant.antt =====
-- What holds after fewer than 2^63 - size steps: no position has wrapped yet.
mod Defs
mod Cells
mod Knowledge
mod Moves
pub use Defs.*
use Moves.{Move-Inv, words_Inv}
use hqq.Common.{ℕ, suc, ◌+◌, ◌^◌, ◌≤◌, ◌<◌, ◌≡◌, arith, refl, Option, none}
use hqq.Mpmc.Layout.{Memory, MpmcRing}
use hqq.Mpmc.Ring.{elem}
use hqq.Mpmc.Ring.Index.{IsHandle, elem-lt-size, elem-le}
use hqq.Mpmc.Threads.{System, IsFresh, Step, Reach, pick, parking, start, later, idle}

module _ {A : Type 0} {m : MpmcRing} (h : IsHandle m) where
  Inv-start : (mem : Memory A) → IsFresh m mem → Inv m 0 mem (λ i. idle) (λ p. none)
  Inv-start mem fresh = record {
    shared = record {
      w_bound = omega (arith, fresh.fresh_w);
      r_le_w = omega (arith, fresh.fresh_r);
      w_le_r = omega (arith, fresh.fresh_w);
      seq_bound =
          λ p. omega (arith, fresh.fresh_seq (elem m p) (elem-lt-size h p), elem-lt-size h p);
      seq_free = λ p e le.
          absurd (omega (arith, fresh.fresh_seq (elem m p) (elem-lt-size h p), elem-lt-size h p));
      seq_published =
          λ p e. absurd (omega (arith, fresh.fresh_seq (elem m p) (elem-lt-size h p), elem-le h p));
      seq_logged = λ p x e. cc;
    };
    knows = λ i. tt;
    producers = λ i j p a b. cc;
    consumers = λ i j p a b. cc;
  }

  Inv-suc : {k : ℕ} {s : System A} → Inv m k s.mem s.pc s.log → Inv m (suc k) s.mem s.pc s.log
  Inv-suc {s} inv = record {
    shared = record {
      w_bound = omega (arith, inv.shared.w_bound);
      r_le_w = inv.shared.r_le_w;
      w_le_r = inv.shared.w_le_r;
      seq_bound = inv.shared.seq_bound;
      seq_free = inv.shared.seq_free;
      seq_published = inv.shared.seq_published;
      seq_logged = inv.shared.seq_logged;
    };
    knows = inv.knows;
    producers = inv.producers;
    consumers = inv.consumers;
  }

  Step-Inv :
      {k : ℕ} {s t : System A}
      → suc k + m.size ≤ 2 ^ 63
      → Step m s t
      → Inv m k s.mem s.pc s.log
      → Inv m (suc k) t.mem t.pc t.log
  Step-Inv room (pick i mv) inv = Move-Inv h room inv i mv refl (inv.knows i)
  Step-Inv {s} room (parking a b c d) inv = Inv-suc (words_Inv m s.mem _ refl refl inv)

  -- Every state that is reached before a position can wrap satisfies the invariant.
  pub Reach-Inv :
      {k : ℕ} {s : System A} → k + m.size ≤ 2 ^ 63 → Reach m k s → Inv m k s.mem s.pc s.log
  Reach-Inv room (start mem fresh) = Inv-start mem fresh
  Reach-Inv room (later r st) = Step-Inv room st (Reach-Inv (omega arith) r)
