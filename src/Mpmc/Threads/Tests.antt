-- ===== src/Mpmc/Threads/Tests.antt =====
-- Runs of two threads, and the theorems at them.
use hqq.Common.{ℕ, ◌+◌, ◌-◌, ◌^◌, ◌≤◌, ◌<◌, ◌≡◌, ◌≢◌, refl, arith, List, [], ◌∷◌, some, inl}
use hqq.Mpmc.Ring.{
  elem, publish, producer_diff, consumer_diff, diff, cas_w, cas_r, store_payload, notify, wake_one,
}
use hqq.Mpmc.Ring.Index.{IsHandle}
use hqq.Mpmc.Threads.{owns_producer, owns_consumer, producer_switch, consumer_switch}
use hqq.Mpmc.Threads.Schedule.{Turn, enqueue, dequeue, put, go, Run, run, handle}
use hqq.Mpmc.Threads.Safety.{exclusive_slots, delivered_value, occupancy_bounds, published_once}
use hqq.Mpmc.Layout.{valid_ring_size}

handle-IsHandle : IsHandle handle
unfolding valid_ring_size
handle-IsHandle = record { size_valid = refl; masked = refl }

-- Thread 0 has claimed position 0 and written 7.
abbrev claimed : List (ℕ × Turn)
claimed = (0, enqueue) ∷ (0, go) ∷ (0, go) ∷ (0, go) ∷ (0, put 7) ∷ []

-- Thread 0 has published 7, and thread 1 has claimed it.
abbrev taken : List (ℕ × Turn)
taken =
    (0, enqueue)
    ∷ (0, go)
    ∷ (0, go)
    ∷ (0, go)
    ∷ (0, put 7)
    ∷ (0, go)
    ∷ (0, go)
    ∷ (1, dequeue)
    ∷ (1, go)
    ∷ (1, go)
    ∷ (1, go)
    ∷ []

abbrev claimed_run : Run handle
claimed_run = run claimed

abbrev taken_run : Run handle
taken_run = run taken

claimed_pc : claimed_run.last.pc 0 ≡ owns_producer 0
unfolding run producer_switch producer_diff diff elem cas_w
claimed_pc = refl

taken_pc : taken_run.last.pc 1 ≡ owns_consumer 0
unfolding run producer_switch consumer_switch producer_diff consumer_diff diff elem cas_w cas_r
    publish store_payload notify wake_one
taken_pc = refl

taken_log : taken_run.last.log 0 ≡ some 7
unfolding run producer_switch consumer_switch producer_diff consumer_diff diff elem cas_w cas_r
    publish store_payload notify wake_one
taken_log = refl

steps_few : (claimed_run.steps + 4 ≤ 2 ^ 63) × (taken_run.steps + 4 ≤ 2 ^ 63)
unfolding run
steps_few = omega arith

exclusive_slots_example : ◌≡◌ {A = ℕ} 0 0
unfolding elem
exclusive_slots_example =
    exclusive_slots handle-IsHandle steps_few.0 claimed_run.reach 0 0 0 (inl (0, claimed_pc, refl))
      (inl (0, claimed_pc, refl))

delivered_value_example :
    (0 < taken_run.last.mem.head.w)
    × (taken_run.last.log 0 ≡ some (taken_run.last.mem.slots (elem handle 0)).payload)
delivered_value_example = delivered_value handle-IsHandle steps_few.1 taken_run.reach 1 0 taken_pc

occupancy_bounds_example :
    (taken_run.last.mem.head.r ≤ taken_run.last.mem.head.w)
    × (taken_run.last.mem.head.w - taken_run.last.mem.head.r ≤ 4)
occupancy_bounds_example = occupancy_bounds handle-IsHandle steps_few.1 taken_run.reach

published_once_example : claimed_run.last.log 0 ≢ some 7
published_once_example =
    published_once handle-IsHandle steps_few.0 claimed_run.reach 0 0 7 claimed_pc
