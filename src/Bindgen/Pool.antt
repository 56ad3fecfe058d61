-- ===== src/Bindgen/Pool.antt =====
-- The connection pool (bindgen/rt/pool.go). Each function below is one critical section of `p.mu`.
pub mod Steps
pub mod Laws
mod Tests
use hqq.Common.{
  ℕ, suc, ◌+◌, ◌-◌, Bool, true, false, not, Option, some, none, List, [], ◌∷◌, ◌++◌, ltb, ◌==◌,
  if◌then◌else◌, length, max,
}

-- `Pool[T]`. A waiter's channel is a number. `idle` is the slice from its end, where values are
-- taken and put.
pub record Pool {ℓ} (V : Type ℓ) : Type ℓ where
  pub idle : List V
  pub n : ℕ
  pub cap : ℕ
  pub closed : Bool
  pub waiters : List ℕ

-- What `Get` does next: it returns, dials with the lock released, or waits on its channel.
pub data Got {ℓ} (V : Type ℓ) : Type ℓ where
  pool_closed : Got V
  reuse : V → Got V
  dial : Got V
  wait : Got V

module _ {ℓ} {V : Type ℓ} where
  -- `NewPool`; a limit below 1 is 1.
  unfoldable pub new_pool : ℕ → Pool V
  new_pool limit = record { idle = []; n = 0; cap = max limit 1; closed = false; waiters = [] }

  -- One round of `Get` under the lock, with the channel `w` that it makes if it has to wait.
  unfoldable pub get : ℕ → Pool V → Got V × Pool V
  get w p = if p.closed then (pool_closed, p) else elim p.idle [
    | v ∷ rest ↦ (reuse v, record p { idle = rest })
    | [] ↦
        if ltb p.n p.cap
        then (dial, record p { n = p.n + 1 })
        else (wait, record p { waiters = p.waiters ++ (w ∷ []) })
  ]

  -- `wakeLocked`: the waiter that receives a value, if there is one.
  unfoldable pub wake_locked : Pool V → Option ℕ × Pool V
  wake_locked p = elim p.waiters [
    | [] ↦ (none, p)
    | w ∷ rest ↦ (some w, record p { waiters = rest })
  ]

  -- The end of a dial that failed, and of `discard`: the value is no longer counted.
  unfoldable pub forget : Pool V → Option ℕ × Pool V
  unfolding wake_locked
  forget p = wake_locked (record p { n = p.n - 1 })

  -- `Put`; on a closed pool the value is closed and `discard` follows.
  unfoldable pub put : V → Pool V → Option ℕ × Pool V
  unfolding wake_locked forget
  put v p = if not p.closed then wake_locked (record p { idle = v ∷ p.idle }) else forget p

  -- `Close`: the waiters to wake, the values to close, and the pool.
  unfoldable pub close : Pool V → List ℕ × List V × Pool V
  close p = if p.closed then ([], [], p) else (
    p.waiters,
    p.idle,
    record p { closed = true; idle = []; n = p.n - length p.idle; waiters = [] },
  )

-- `removeWaiter`
unfoldable pub remove_waiter : ℕ → List ℕ → Bool × List ℕ
remove_waiter w [] = (false, [])
remove_waiter w (x ∷ xs) =
    let (found, rest) = remove_waiter w xs in if x == w then (true, xs) else (found, x ∷ rest)

-- What `Get` does when its context ends while it waits: a waiter that was woken meanwhile hands
-- its wake-up on.
unfoldable pub cancel_wait {ℓ} : {V : Type ℓ} → ℕ → Pool V → Option ℕ × Pool V
unfolding wake_locked
cancel_wait w p =
    let (found, rest) = remove_waiter w p.waiters in
    if found then (none, record p { waiters = rest }) else wake_locked p
