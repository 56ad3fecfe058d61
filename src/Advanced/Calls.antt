-- ===== src/Advanced/Calls.antt =====
-- Pending and abandoned calls (advanced_dispatch.go).
pub mod Steps
pub mod Laws
pub mod Abandoned
mod Tests
use hqq.Common.{
  ℕ, zero, suc, ◌+◌, ◌-◌, Bool, true, false, not, ◌&&◌, ◌||◌, Option, some, none, List, [], ◌∷◌,
  ◌++◌, leb, ◌==◌, if◌then◌else◌, length,
}

-- `advancedCallKey`
pub record CallKey : Type 0 where
  pub stream_id : ℕ
  pub message_id : ℕ

unfoldable pub same_call : CallKey → CallKey → Bool
same_call a b = a.stream_id == b.stream_id && a.message_id == b.message_id

-- `maxAbandonedCalls`
abbrev pub max_abandoned : ℕ
max_abandoned = 4096

-- The fields of `AdvancedLink` under `pendingMu`, and two counters. A channel is a number;
-- `pending` is the map of pending calls.
pub record Calls : Type 0 where
  pub pending : List (CallKey × ℕ)
  pub abandoned : List CallKey
  pub abandoned_order : List CallKey
  pub abandoned_responses : ℕ
  pub dropped_messages : ℕ

unfoldable pub find_call : CallKey → List (CallKey × ℕ) → Option ℕ
find_call k [] = none
find_call k ((j, ch) ∷ m) = if same_call j k then some ch else find_call k m

unfoldable pub delete_call : CallKey → List (CallKey × ℕ) → List (CallKey × ℕ)
delete_call k [] = []
delete_call k ((j, ch) ∷ m) = if same_call j k then m else (j, ch) ∷ delete_call k m

-- `m[k] = ch`
unfoldable pub insert_call : CallKey → ℕ → List (CallKey × ℕ) → List (CallKey × ℕ)
insert_call k ch [] = (k, ch) ∷ []
insert_call k ch ((j, c) ∷ m) = if same_call j k then (k, ch) ∷ m else (j, c) ∷ insert_call k ch m

unfoldable pub has_call : CallKey → List CallKey → Bool
has_call k [] = false
has_call k (j ∷ s) = same_call j k || has_call k s

unfoldable pub remove_call : CallKey → List CallKey → List CallKey
remove_call k [] = []
remove_call k (j ∷ s) = if same_call j k then s else j ∷ remove_call k s

-- The map's part of `registerPendingCall`
unfoldable pub register : CallKey → ℕ → Calls → Calls
register k ch c = record c { pending = insert_call k ch c.pending }

-- The part of `routeResponse` that holds `pendingMu`, with the counters that follow it: the channel
-- to send on, if a call waits. `has_message` is `m != nil`.
unfoldable pub route_response : CallKey → Bool → Calls → Option ℕ × Calls
route_response k has_message c = elim (find_call k c.pending) [
  | some ch ↦ (some ch, record c { pending = delete_call k c.pending })
  | none ↦
      if has_call k c.abandoned
      then (
        none,
        record c {
          abandoned = remove_call k c.abandoned;
          abandoned_responses = c.abandoned_responses + 1;
        },
      )
      else if has_message
      then (none, record c { dropped_messages = c.dropped_messages + 1 })
      else (none, c)
]

-- `pendingCalls[k] == ch`
unfoldable pub is_registered : CallKey → ℕ → Calls → Bool
is_registered k ch c = elim (find_call k c.pending) [ none ↦ false | some d ↦ d == ch ]

-- `unregisterPendingCall`, without the return of the channel to the pool
unfoldable pub unregister : CallKey → ℕ → Calls → Bool × Calls
unregister k ch c =
    if is_registered k ch c
    then (true, record c { pending = delete_call k c.pending })
    else (false, c)

-- The eviction in `abandonCall`
unfoldable pub evict_oldest : Calls → Calls
evict_oldest c = elim c.abandoned_order [
  | [] ↦ c
  | oldest ∷ order ↦ record c {
    abandoned = remove_call oldest c.abandoned;
    abandoned_order = order;
  }
]

unfoldable pub remember : CallKey → Calls → Calls
unfolding evict_oldest
remember k c =
    let c' = if leb max_abandoned (length c.abandoned_order) then evict_oldest c else c in
    record c' {
      abandoned = if has_call k c'.abandoned then c'.abandoned else k ∷ c'.abandoned;
      abandoned_order = c'.abandoned_order ++ (k ∷ []);
    }

-- `abandonCall`
unfoldable pub abandon_call : CallKey → ℕ → Calls → Bool × Calls
abandon_call k ch c =
    if not (is_registered k ch c)
    then (false, c)
    else (true, remember k (record c { pending = delete_call k c.pending }))
