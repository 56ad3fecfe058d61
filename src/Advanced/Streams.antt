-- ===== src/Advanced/Streams.antt =====
-- Streams: their ids, and the requests to open one (advanced_stream.go, advanced_control.go).
pub mod Laws
mod Tests
use hqq.Common.{
  ℕ, zero, suc, ◌+◌, ◌-◌, ◌*◌, ◌%◌, ◌^◌, Bool, true, false, not, ◌&&◌, ◌||◌, List, [], ◌∷◌, ◌++◌,
  ltb, leb, ◌==◌, if◌then◌else◌, length,
}

-- `OverflowPolicy`
pub data Overflow : Type 0 where
  overflow_block overflow_drop overflow_fail : Overflow

-- The codes of `refuseStream`
pub data Refusal : Type 0 where
  invalid_op buffer_overflow conn_not_found : Refusal

-- A `controlJob` for a stream, by its id
pub data Job : Type 0 where
  accept_job : ℕ → Job
  refuse_job : ℕ → Refusal → Job

-- The fields of `AdvancedLink` under `controlMu`, the accept slots, the queue of the control sender,
-- and the counter of dropped messages. `may_hold` is that the grace period is not negative and the
-- link not closing; timers are not modelled.
pub record Streams : Type 0 where
  pub primary : Bool
  pub overflow : Overflow
  pub queue_size : ℕ
  pub may_hold : Bool
  pub listening : Bool
  pub streams : List ℕ
  pub held : List ℕ
  pub accept_slots : ℕ
  pub control : List Job
  pub control_size : ℕ
  pub closing : Bool
  pub dropped_messages : ℕ

-- A round of `nextConnectionID` with the counter after its increment: the id, or 0 to go round again
unfoldable pub connection_id : Bool → ℕ → ℕ
connection_id primary n = if primary then n * 2 % 2 ^ 64 else (n * 2 + 2 ^ 64 - 1) % 2 ^ 64

-- `peerOwnsConnectionID`
unfoldable pub peer_owns : Bool → ℕ → Bool
peer_owns primary id = if id == 0 then false else if primary then id % 2 == 1 else not (id % 2 == 1)

unfoldable pub has_stream : ℕ → List ℕ → Bool
has_stream id [] = false
has_stream id (j ∷ js) = j == id || has_stream id js

unfoldable pub delete_stream : ℕ → List ℕ → List ℕ
delete_stream id [] = []
delete_stream id (j ∷ js) = if j == id then js else j ∷ delete_stream id js

-- `enqueueControl`
unfoldable pub enqueue_control : Job → Streams → Bool × Streams
enqueue_control job s =
    if not s.closing && ltb (length s.control) s.control_size
    then (true, record s { control = s.control ++ (job ∷ []) })
    else (false, s)

-- `refuseStream`
unfoldable pub refuse_stream : ℕ → Refusal → Streams → Streams
unfolding enqueue_control
refuse_stream id code s =
    let (queued, s') = enqueue_control (refuse_job id code) s in
    if queued then s' else record s' { dropped_messages = s'.dropped_messages + 1 }

-- `releaseAcceptSlot`
unfoldable pub release_slot : Streams → Streams
release_slot s = record s { accept_slots = s.accept_slots - 1 }

-- `forgetConnection`
unfoldable pub forget : ℕ → Streams → Streams
forget id s = record s { streams = delete_stream id s.streams }

-- The end of `handleConnCreate` and of `admitCreateLocked`: the stream has a slot, and its accept is
-- queued.
unfoldable pub answer_create : ℕ → Streams → Streams
unfolding enqueue_control release_slot forget
answer_create id s =
    let (queued, s') = enqueue_control (accept_job id) s in
    if queued
    then s'
    else let s'' = release_slot (forget id s') in
      record s'' { dropped_messages = s''.dropped_messages + 1 }

-- `holdCreateLocked`
unfoldable pub hold_create : ℕ → Streams → Bool × Streams
hold_create id s =
    if not s.may_hold || leb s.queue_size (length s.held + s.accept_slots)
    then (false, s)
    else (true, record s { held = s.held ++ (id ∷ []) })

-- What `handleConnCreate` returns.
pub data Created : Type 0 where
  handled incoming_overflow context_ended : Created

-- `handleConnCreate`. Under `overflow_block` with no slot it waits: `released` slots are given back
-- meanwhile, and `ended` tells that the select takes the end of the context, as it does without a slot.
unfoldable pub handle_conn_create : ℕ → Bool → ℕ → Streams → Created × Streams
unfolding hold_create
handle_conn_create released ended id s =
    if not s.listening
    then (let (held, s') = hold_create id s in
        (handled, if held then s' else refuse_stream id conn_not_found s'))
    else if has_stream id s.streams || not (peer_owns s.primary id)
    then (handled, refuse_stream id invalid_op s)
    else let t = record s { streams = id ∷ s.streams } in
      if ltb t.accept_slots t.queue_size
      then (handled, answer_create id (record t { accept_slots = t.accept_slots + 1 }))
      else elim t.overflow [
        | overflow_drop ↦
            let u = forget id t in
            (
              handled,
              refuse_stream id buffer_overflow
                  (record u { dropped_messages = u.dropped_messages + 1 }),
            )
        | overflow_fail ↦ (incoming_overflow, forget id t)
        | overflow_block ↦
            let u = record t { accept_slots = t.accept_slots - released } in
            if ended || not (ltb u.accept_slots u.queue_size)
            then (context_ended, forget id u)
            else (handled, answer_create id (record u { accept_slots = u.accept_slots + 1 }))
      ]

-- `admitCreateLocked`
unfoldable pub admit_create : ℕ → Streams → Streams
admit_create id s =
    if has_stream id s.streams || not (peer_owns s.primary id)
    then refuse_stream id invalid_op s
    else if ltb s.accept_slots s.queue_size
    then answer_create id (record s { streams = id ∷ s.streams; accept_slots = s.accept_slots + 1 })
    else refuse_stream id buffer_overflow (record s { dropped_messages = s.dropped_messages + 1 })

unfoldable pub admit_all : List ℕ → Streams → Streams
admit_all [] s = s
admit_all (id ∷ ids) s = admit_all ids (admit_create id s)

-- `admitHeldLocked`, from `ListenStreams`
unfoldable pub listen_streams : Streams → Streams
listen_streams s =
    if s.listening then s else admit_all s.held (record s { listening = true; held = [] })

-- `expireHeld`, of the first request with the id
unfoldable pub expire_held : ℕ → Streams → Streams
expire_held id s =
    if not (has_stream id s.held)
    then s
    else refuse_stream id conn_not_found (record s { held = delete_stream id s.held })

unfoldable pub release_all : Bool → List ℕ → Streams → Streams
release_all refuse [] s = s
release_all refuse (id ∷ ids) s = release_all refuse ids (
    if refuse
    then refuse_stream id conn_not_found s
    else record s { dropped_messages = s.dropped_messages + 1 })

-- `releaseHeld`
unfoldable pub release_held : Bool → Streams → Streams
release_held refuse s = record (release_all refuse s.held s) { held = [] }
