-- ===== src/Mpmc/Threads/Schedule.antt =====
-- Reachable states by evaluation: the threads move in a given order.
use hqq.Common.{ℕ, suc, refl, List, [], ◌∷◌, Option, false}
use hqq.Mpmc.Layout.{Memory, MpmcRing, Mring}
use hqq.Mpmc.Threads.{
  System, Reach, IsFresh, start, later, pick, Pc, idle, producer_load, producer, producer_cas,
  producer_wait, owns_producer, published, consumer_load, consumer, consumer_cas, consumer_wait,
  owns_consumer, released, Move,
}

-- What a thread that has a choice does: begin to enqueue or dequeue; write or publish; wait or
-- give up. A thread without a choice ignores it.
pub data Turn : Type 0 where
  enqueue dequeue : Turn
  put : ℕ → Turn
  go : Turn

module _ (m : MpmcRing) (mem : Memory ℕ) (log : ℕ → Option ℕ) where
  abbrev Next : Pc → Type 0
  Next p = (mem' : Memory ℕ) × (p' : Pc) × (log' : ℕ → Option ℕ) × Move m mem log p mem' p' log'

  next : Turn → (p : Pc) → Next p
  next dequeue idle = (_, _, _, Move.begin_dequeue)
  next t idle = (_, _, _, Move.begin_enqueue)
  next t producer_load = (_, _, _, Move.load_w)
  next t (producer pos) = (_, _, _, Move.test_producer)
  next t (producer_cas pos) = (_, _, _, Move.claim_w)
  next t (producer_wait pos) = (_, _, _, Move.give_up_producer)
  next (put x) (owns_producer pos) = (_, _, _, Move.write x)
  next t (owns_producer pos) = (_, _, _, Move.publish_move)
  next t published = (_, _, _, Move.notify_consumers false)
  next t consumer_load = (_, _, _, Move.load_r)
  next t (consumer pos) = (_, _, _, Move.test_consumer)
  next t (consumer_cas pos) = (_, _, _, Move.claim_r)
  next t (consumer_wait pos) = (_, _, _, Move.give_up_consumer)
  next t (owns_consumer pos) = (_, _, _, Move.release_move)
  next t released = (_, _, _, Move.notify_producers false)

pub record Run (m : MpmcRing) : Type 0 where
  pub steps : ℕ
  pub last : System ℕ
  pub reach : Reach m steps last

turn : {m : MpmcRing} → Run m → ℕ × Turn → Run m
unfolding next
turn {m} r (i, t) = record {
  steps = suc r.steps;
  last = _;
  reach = later r.reach (pick i (next m r.last.mem r.last.log t (r.last.pc i)).3);
}

abbrev pub empty_header : Mring
empty_header = record {
  magic = 0;
  size = 4;
  flag = 0;
  stride = 64;
  version = 0;
  r = 0;
  w = 0;
  not_empty = 0;
  empty_waiters = 0;
  not_full = 0;
  full_waiters = 0;
}

abbrev pub handle : MpmcRing
handle = record { mask = 3; size = 4; stride = 64 }

abbrev fresh : Memory ℕ
fresh = record { head = empty_header; slots = λ j. record { seq = j; payload = 0 } }

fresh-IsFresh : IsFresh handle fresh
fresh-IsFresh = record { fresh_r = refl; fresh_w = refl; fresh_seq = λ j lt. refl }

run_from : {m : MpmcRing} → Run m → List (ℕ × Turn) → Run m
unfolding turn
run_from r [] = r
run_from r (t ∷ ts) = run_from (turn r t) ts

unfoldable pub run : List (ℕ × Turn) → Run handle
unfolding run_from fresh-IsFresh
run = run_from (record { steps = 0; last = _; reach = start fresh fresh-IsFresh })
