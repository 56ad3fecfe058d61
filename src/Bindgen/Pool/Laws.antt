-- ===== src/Bindgen/Pool/Laws.antt =====
-- The pool never exceeds its limit, and never leaves a waiter asleep beside a free place.
use hqq.Common.{ℕ, ◌+◌, ◌-◌, ◌≡◌, ◌≢◌, ◌≤◌, true, List, [], ◌∷◌, length, arith, max, refl}
use hqq.Bindgen.Pool.{new_pool, get, wake_locked, forget, put, close, remove_waiter, cancel_wait}
use hqq.Bindgen.Pool.Steps.{
  State, Step, enter, retry, cancel_asleep, cancel_woken, lose, give_back, shut, Reach, start,
  later,
}

-- A waiter sleeps only if every idle value and every free place has a wake-up on its way.
pub record IsSound {V : Type 0} (limit : ℕ) (s : State V) : Type 0 where
  pub cap_lem : s.pool.cap ≡ max limit 1
  pub counted : s.pool.n ≡ length s.pool.idle + s.out
  pub within : s.pool.n ≤ s.pool.cap
  pub awake : s.pool.waiters ≢ [] → length s.pool.idle + (s.pool.cap - s.pool.n) ≤ s.woken
  pub drained : s.pool.closed ≡ true → (s.pool.idle ≡ []) × (s.pool.waiters ≡ [])

remove_waiter-found : (w : ℕ) (xs : List ℕ) → (remove_waiter w xs).0 ≡ true → xs ≢ []
unfolding remove_waiter
remove_waiter-found w [] e n = cc
remove_waiter-found w (x ∷ xs) e n = cc

length-nil : {V : Type 0} (xs : List V) → length xs ≡ 0 → xs ≡ []
length-nil [] e = refl
length-nil (x ∷ xs) e = absurd (omega arith)

start-IsSound :
    {V : Type 0} (limit : ℕ)
    → IsSound {V = V} limit (record { pool = new_pool limit; out = 0; woken = 0 })
unfolding new_pool
start-IsSound limit = ground arith

Step-IsSound :
    {V : Type 0} (limit : ℕ) {s t : State V} → Step s t → IsSound limit s → IsSound limit t
unfolding get wake_locked forget put close cancel_wait
Step-IsSound limit (enter w) v = ground arith
Step-IsSound limit (retry w g) v = ground arith
Step-IsSound limit {s} (cancel_asleep w g) v = ground (arith, remove_waiter-found w s.pool.waiters)
Step-IsSound limit (cancel_woken w g e) v = ground arith
Step-IsSound limit (lose g) v = ground arith
Step-IsSound limit (give_back x g) v = ground arith
Step-IsSound limit shut v = ground arith

Reach-IsSound : {V : Type 0} {limit : ℕ} {s : State V} → Reach limit s → IsSound limit s
Reach-IsSound {limit} start = start-IsSound limit
Reach-IsSound {limit} (later r st) = Step-IsSound limit st (Reach-IsSound r)

module _ {V : Type 0} {limit : ℕ} {s : State V} (r : Reach limit s) where
  open (Reach-IsSound r) use {cap_lem, counted, within, awake, drained}

  -- In every reachable state the values lent, the dials in progress and the idle values together are the
  -- pool's count, and at most the limit (at most 1, if the limit is 0).
  pub pool_bounded :
      (s.pool.n ≡ length s.pool.idle + s.out) × (length s.pool.idle + s.out ≤ max limit 1)
  pool_bounded = omega (arith, cap_lem, counted, within)

  -- In every reachable state, while a waiter sleeps and no wake-up is on its way, no value is idle, and all places are lent
  -- or being dialled.
  pub no_lost_wakeup : s.pool.waiters ≢ [] → s.woken ≡ 0 → (s.pool.idle ≡ []) × (s.out ≡ s.pool.cap)
  no_lost_wakeup asleep quiet =
      ground (arith, awake asleep, counted, within, length-nil s.pool.idle)

  -- In every reachable state a closed pool keeps no idle value and no waiter.
  pub closed_empty : s.pool.closed ≡ true → (s.pool.idle ≡ []) × (s.pool.waiters ≡ [])
  closed_empty = drained
