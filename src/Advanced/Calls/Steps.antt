-- ===== src/Advanced/Calls/Steps.antt =====
-- The channels of the calls: every critical section of `pendingMu` and every access to a channel or
-- to `pendingPool` is one step, in any order.
use hqq.Common.{
  ℕ, suc, ◌+◌, ◌≤◌, Bool, true, false, Option, some, none, List, [], ◌∷◌, ◌==◌, if◌then◌else◌,
}
use hqq.Common.Counts.{count, take_out}
use hqq.Advanced.Calls.{CallKey, Calls, register, route_response, unregister, abandon_call}

-- How often a channel is in the map.
unfoldable pub count_calls : ℕ → List (CallKey × ℕ) → ℕ
count_calls n [] = 0
count_calls n ((k, x) ∷ m) = if x == n then suc (count_calls n m) else count_calls n m

-- `sending`: the channels that were removed from the map by a goroutine that has not yet sent.
-- `filled`: the channels that hold a result, once for each result. `pool`: `pendingPool`. `fresh`: a
-- number that no channel has.
pub record Channels : Type 0 where
  pub calls : Calls
  pub sending : List ℕ
  pub filled : List ℕ
  pub pool : List ℕ
  pub fresh : ℕ

abbrev pub add_if : Option ℕ → List ℕ → List ℕ
add_if none xs = xs
add_if (some x) xs = x ∷ xs

abbrev pub recycle : Bool → ℕ → List ℕ → List ℕ
recycle false ch xs = xs
recycle true ch xs = ch ∷ xs

-- The sends of `failPendingCalls`, which pass over a channel that is full, as no other send does.
unfoldable pub fail_all : List (CallKey × ℕ) → List ℕ → List ℕ
fail_all [] filled = filled
fail_all ((k, ch) ∷ m) filled =
    let rest = fail_all m filled in if count ch rest == 0 then ch ∷ rest else rest

pub data Step (s : Channels) : Channels → Type 0 where
  -- `registerPendingCall`, with a new channel or one from the pool
  call_fresh :
      (k : CallKey) → Step s (record s { calls = register k s.fresh s.calls; fresh = s.fresh + 1 })
  call_pooled :
      (k : CallKey) (ch : ℕ)
      → 1 ≤ count ch s.pool
      → Step s (record s { calls = register k ch s.calls; pool = take_out ch s.pool })
  -- `routeResponse`, and its send
  route :
      (k : CallKey) (has_message : Bool)
      → Step s (record s {
        calls = (route_response k has_message s.calls).1;
        sending = add_if (route_response k has_message s.calls).0 s.sending;
      })
  send :
      (ch : ℕ)
      → 1 ≤ count ch s.sending
      → Step s (record s { sending = take_out ch s.sending; filled = ch ∷ s.filled })
  -- `awaitResponse` that takes a result
  receive :
      (ch : ℕ)
      → 1 ≤ count ch s.filled
      → Step s (record s { filled = take_out ch s.filled; pool = ch ∷ s.pool })
  -- `unregisterPendingCall`
  give_back :
      (k : CallKey) (ch : ℕ)
      → Step s (record s {
        calls = (unregister k ch s.calls).1;
        pool = recycle (unregister k ch s.calls).0 ch s.pool;
      })
  abandon : (k : CallKey) (ch : ℕ) → Step s (record s { calls = (abandon_call k ch s.calls).1 })
  -- `failPendingCalls`
  fail : Step s (record s {
    calls = record s.calls { pending = [] };
    filled = fail_all s.calls.pending s.filled;
  })

-- A new link.
abbrev pub no_calls : Channels
no_calls = record {
  calls = record {
    pending = [];
    abandoned = [];
    abandoned_order = [];
    abandoned_responses = 0;
    dropped_messages = 0;
  };
  sending = [];
  filled = [];
  pool = [];
  fresh = 0;
}

pub data Reach : Channels → Type 0 where
  start : Reach no_calls
  later : {s t : Channels} → Reach s → Step s t → Reach t
