-- ===== src/Superblock/Publish.antt =====
-- `publishSuperblock`, `commitInit`, `initSession` and `zeroInChunks` (superblock.go): the initializer
-- of a segment at work, between the writes of the others.
pub mod Laws
pub mod Zeroing
pub mod Tests
use hqq.Common.{
  ℕ, zero, suc, ◌+◌, ◌-◌, ◌%◌, ◌^◌, Bool, true, false, ◌&&◌, List, [], ◌∷◌, ◌++◌, ◌==◌,
  if◌then◌else◌, min, length, take, drop, replicate,
}
use hqq.Superblock.Segment.{
  Superblock, Geometry, superblock_magic, state_ready, stamp_layout, clear_endpoint, fill_endpoint,
}

-- The arguments of `publishSuperblock`, the process and its clock
pub record Publication : Type 0 where
  pub token : ℕ
  pub shape : Geometry
  pub pid : ℕ
  pub heartbeat_interval : ℕ
  pub now : ℕ

-- The entries of `writes`, in their order
pub data Write : Type 0 where
  stamp : Write
  sizes : Write
  reset_secondary : Write
  fill_primary : Write
  sign : Write

-- Where the call stands: before the check of a write, before the write, before the
-- three steps of `commitInit`, or at its end, with an epoch or an error.
pub data Phase : Type 0 where
  checking : Write → Phase
  writing : Write → Phase
  swapping : Phase
  counting : Phase
  marking : ℕ → Phase
  published : ℕ → Phase
  contended : Phase
  cancelled : Phase

unfoldable pub write_step : Publication → Write → Superblock → Superblock
write_step p stamp sb = stamp_layout sb
write_step p sizes sb = record sb {
  page_size = p.shape.page_size;
  buffer_count = p.shape.buffer_count;
  buffer_size = p.shape.buffer_size;
  layout_size = p.shape.layout_size;
}
write_step p reset_secondary sb = record sb { secondary = clear_endpoint }
write_step p fill_primary sb = record sb {
  primary = fill_endpoint p.pid p.heartbeat_interval p.now (record sb.primary { token = p.token });
}
write_step p sign sb = record sb { magic = superblock_magic }

-- After a write: the check of the next, or `commitInit`
unfoldable pub after_write : Write → Phase
after_write stamp = checking sizes
after_write sizes = checking reset_secondary
after_write reset_secondary = checking fill_primary
after_write fill_primary = checking sign
after_write sign = swapping

-- `initSession.check`, when the context is done or not
unfoldable pub session_check : Bool → ℕ → Superblock → Phase → Phase
session_check done token sb next =
    if done then cancelled else if sb.init_token == token then next else contended

-- One step of the call
unfoldable pub publish_step : Publication → Bool → Phase → Superblock → Phase × Superblock
publish_step p done (checking i) sb = (session_check done p.token sb (writing i), sb)
publish_step p done (writing i) sb = (after_write i, write_step p i sb)
publish_step p done swapping sb =
    if sb.init_token == p.token then (counting, record sb { init_token = 0 }) else (contended, sb)
publish_step p done counting sb =
    let epoch = (sb.epoch + 1) % 2 ^ 64 in (marking epoch, record sb { epoch = epoch })
publish_step p done (marking epoch) sb = (published epoch, record sb { state = state_ready })
publish_step p done (published epoch) sb = (published epoch, sb)
publish_step p done contended sb = (contended, sb)
publish_step p done cancelled sb = (cancelled, sb)

-- A step of the call, with the state of its context, or a change that another endpoint makes
pub data Event : Type 0 where
  ours : Bool → Event
  theirs : (Superblock → Superblock) → Event

unfoldable pub run : Publication → List Event → Phase × Superblock → Phase × Superblock
run p [] (ph, sb) = (ph, sb)
run p (ours done ∷ es) (ph, sb) = run p es (publish_step p done ph sb)
run p (theirs f ∷ es) (ph, sb) = run p es (ph, f sb)

-- How many writes a step makes to the superblock
unfoldable pub writes_of : Phase → ℕ
writes_of (checking i) = 0
writes_of (writing i) = 1
writes_of swapping = 0
writes_of counting = 1
writes_of (marking e) = 1
writes_of (published e) = 0
writes_of contended = 0
writes_of cancelled = 0

unfoldable pub writes_in : Publication → List Event → Phase × Superblock → ℕ
writes_in p [] (ph, sb) = 0
writes_in p (ours done ∷ es) (ph, sb) = writes_of ph + writes_in p es (publish_step p done ph sb)
writes_in p (theirs f ∷ es) (ph, sb) = writes_in p es (ph, f sb)

-- `zeroInChunks` on the bytes `b`; `ok i` is whether the check before the chunk with the number `i`
-- returns nil. The loop runs at most `fuel` times.
unfoldable pub zero_in_chunks : (ℕ → Bool) → ℕ → ℕ → ℕ → List ℕ → List ℕ × Bool
zero_in_chunks ok chunk zero i b = (b, length b == 0)
zero_in_chunks ok chunk (suc fuel) i b =
    let n = min (length b) chunk in
    let rest = zero_in_chunks ok chunk fuel (suc i) (drop n b) in
    if length b == 0
    then (b, true)
    else if ok i
    then (replicate n 0 ++ rest.0, rest.1)
    else (b, false)
