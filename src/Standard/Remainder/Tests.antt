-- ===== src/Standard/Remainder/Tests.antt =====
-- Two tails, one read in part and one lent, with a buffer that is used again.
use hqq.Common.{◌≡◌, true, false, some, none, List, [], ◌∷◌, arith, refl}
use hqq.Common.Counts.{count}
use hqq.Standard.Remainder.{RecvRemainder}
use hqq.Standard.Remainder.Queue
use hqq.Standard.Remainder.Inv.{IsValid}
use hqq.Standard.Remainder.Runs.{
  Call, store_call, read_call, take_call, return_call, run, run_queue, run_refines,
}

abbrev empty : RecvRemainder
empty = record {
  pending = false;
  queue = [];
  head = 0;
  free = [];
  size = 2;
  heap = λ i. [];
  next_buf = 0;
  lent = [];
}

empty-IsValid : IsValid empty
unfolding count
empty-IsValid = record {
  in_queue = omega arith;
  waiting = λ h. refl;
  owned = λ i. omega arith;
  made = λ i h. refl;
  fitting = tt;
}

abbrev calls : List Call
calls =
    store_call (1 ∷ 2 ∷ 3 ∷ []) false
    ∷ store_call (4 ∷ []) true
    ∷ read_call 2 false
    ∷ read_call 5 false
    ∷ store_call (6 ∷ 7 ∷ []) true
    ∷ take_call
    ∷ return_call 0
    ∷ read_call 1 true
    ∷ read_call 1 true
    ∷ []

run_queue-calls :
    run_queue calls []
    ≡ some (1 ∷ 2 ∷ []) ∷ some (3 ∷ []) ∷ some (4 ∷ []) ∷ some (6 ∷ []) ∷ none ∷ []
unfolding run_queue Queue.store Queue.read Queue.take_oldest
run_queue-calls = refl

run_refines_example : run calls empty ≡ run_queue calls []
run_refines_example = run_refines calls empty empty-IsValid
