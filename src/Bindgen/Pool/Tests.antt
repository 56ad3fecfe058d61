-- ===== src/Bindgen/Pool/Tests.antt =====
-- A pool of one value, and the theorems at it.
use hqq.Common.{ℕ, ◌≡◌, ◌≤◌, refl, [], ◌∷◌, List, true, false}
use hqq.Bindgen.Pool.{new_pool, get, close}
use hqq.Bindgen.Pool.Steps.{State, Reach, start, later, enter, shut}
use hqq.Bindgen.Pool.Laws.{pool_bounded, no_lost_wakeup, closed_empty}

-- One goroutine dials, and another waits.
abbrev contended : State ℕ
contended = record {
  pool = record { idle = []; n = 1; cap = 1; closed = false; waiters = 8 ∷ [] };
  out = 1;
  woken = 0;
}

contended-reached : Reach 0 contended
unfolding get new_pool
contended-reached = later (later start (enter 7)) (enter 8)

abbrev shut_state : State ℕ
shut_state = record {
  pool = record { idle = []; n = 1; cap = 1; closed = true; waiters = [] };
  out = 1;
  woken = 1;
}

shut-reached : Reach 0 shut_state
unfolding close
shut-reached = later contended-reached shut

pool_bounded_example : ◌≡◌ {A = ℕ} 1 1 × (1 ≤ 1)
pool_bounded_example = pool_bounded contended-reached

no_lost_wakeup_example : ◌≡◌ {A = List ℕ} [] [] × ◌≡◌ {A = ℕ} 1 1
no_lost_wakeup_example = no_lost_wakeup contended-reached (λ e. cc) refl

closed_empty_example : ◌≡◌ {A = List ℕ} [] [] × ◌≡◌ {A = List ℕ} [] []
closed_empty_example = closed_empty shut-reached refl
