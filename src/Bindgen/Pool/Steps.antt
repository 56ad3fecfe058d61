-- ===== src/Bindgen/Pool/Steps.antt =====
-- The users of a pool, in any order.
use hqq.Common.{ℕ, ◌+◌, ◌-◌, ◌≡◌, ◌<◌, true, false, Option, some, none, length}
use hqq.Bindgen.Pool.{
  Pool, Got, pool_closed, reuse, dial, wait, new_pool, get, forget, put, close, remove_waiter,
  cancel_wait,
}

-- `out` counts the values lent and the dials in progress, `woken` the goroutines whose channel has
-- a value that they have not yet acted on. Both are ghosts.
pub record State (V : Type 0) : Type 0 where
  pub pool : Pool V
  pub out : ℕ
  pub woken : ℕ

-- A value or a dial slot goes out.
abbrev pub taken : {V : Type 0} → Got V → ℕ
taken pool_closed = 0
taken (reuse v) = 1
taken dial = 1
taken wait = 0

abbrev pub signalled : Option ℕ → ℕ
signalled none = 0
signalled (some w) = 1

pub data Step {V : Type 0} (s : State V) : State V → Type 0 where
  -- A goroutine that calls `Get`.
  enter :
      (w : ℕ)
      → Step s (record {
        pool = (get w s.pool).1;
        out = s.out + taken (get w s.pool).0;
        woken = s.woken;
      })
  -- A waiter that was woken goes round the loop of `Get`.
  retry :
      (w : ℕ)
      → 0 < s.woken
      → Step s (record {
        pool = (get w s.pool).1;
        out = s.out + taken (get w s.pool).0;
        woken = s.woken - 1;
      })
  -- The context of a waiter ends before, or after, it was woken.
  cancel_asleep :
      (w : ℕ)
      → (remove_waiter w s.pool.waiters).0 ≡ true
      → Step s (record s { pool = (cancel_wait w s.pool).1 })
  cancel_woken :
      (w : ℕ)
      → 0 < s.woken
      → (remove_waiter w s.pool.waiters).0 ≡ false
      → Step s (record s {
        pool = (cancel_wait w s.pool).1;
        woken = s.woken - 1 + signalled (cancel_wait w s.pool).0;
      })
  -- A dial fails, or a value is discarded.
  lose :
      0 < s.out
      → Step s (record {
        pool = (forget s.pool).1;
        out = s.out - 1;
        woken = s.woken + signalled (forget s.pool).0;
      })
  give_back :
      (v : V)
      → 0 < s.out
      → Step s (record {
        pool = (put v s.pool).1;
        out = s.out - 1;
        woken = s.woken + signalled (put v s.pool).0;
      })
  shut : Step s (record s { pool = (close s.pool).2; woken = s.woken + length (close s.pool).0 })

pub data Reach {V : Type 0} (limit : ℕ) : State V → Type 0 where
  start : Reach limit (record { pool = new_pool limit; out = 0; woken = 0 })
  later : {s t : State V} → Reach limit s → Step s t → Reach limit t
