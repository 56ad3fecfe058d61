-- ===== src/Superblock/Claim.antt =====
-- `claimSuperblock` (superblock.go): the turns of its loop. The segment is shared, so a turn sees it
-- three times: when the state is loaded, when the rest is read, and when a word is compared and
-- swapped. Times are nanoseconds of one clock; `t - s >= d` is written `s + d ≤ t`.
pub mod Laws
pub mod Takeover
pub mod Tests
use hqq.Common.{
  ℕ, ◌+◌, ◌-◌, ◌*◌, ◌%◌, ◌^◌, Bool, true, false, not, ◌&&◌, ◌||◌, Option, none, some, List, [], ◌∷◌,
  ltb, leb, ◌==◌, if◌then◌else◌, max,
}
use hqq.Superblock.Segment.{
  Superblock, Endpoint, Geometry, state_empty, state_initializing, state_ready, is_owner_token,
  first_page_zero, check_layout_compat, stamp_layout, geometry, same_geometry, fill_endpoint,
}

-- `attachRole`
pub data AttachRole : Type 0 where
  role_any : AttachRole
  role_creator : AttachRole
  role_opener : AttachRole

unfoldable pub is_opener : AttachRole → Bool
is_opener role_any = false
is_opener role_creator = false
is_opener role_opener = true

unfoldable pub is_creator : AttachRole → Bool
is_creator role_any = false
is_creator role_creator = true
is_creator role_opener = false

-- The errors of `claimSuperblock`
pub data ClaimError : Type 0 where
  incompatible_layout : ClaimError
  segment_not_ready : ClaimError
  init_contended : ClaimError
  no_live_endpoint : ClaimError
  link_busy : ClaimError
  geometry_error : Geometry → Geometry → ClaimError
  context_done : ClaimError

-- `initWatch`; `active` is that there is one.
pub record InitWatch : Type 0 where
  pub tok : ℕ
  pub hb : ℕ
  pub since : ℕ

-- The arguments and the local variables of `claimSuperblock`; no `empty_since` is the zero time.
pub record Claimer : Type 0 where
  pub role : AttachRole
  pub token : ℕ
  pub creator_token : ℕ
  pub pid : ℕ
  pub heartbeat_interval : ℕ
  pub attach_timeout : ℕ
  pub stale_init : ℕ
  pub want : Geometry
  pub deadline : ℕ
  pub watch : Option InitWatch
  pub empty_since : Option ℕ

-- What a turn finds. `loaded`, `seen` and `swapped` are the segment when the state is loaded, when the
-- rest is read and when a word is swapped; `between` is what the others do from the swap of the state
-- to the load of `initToken`, and `after_load` what they do from there to the swap of `initToken`. `alive` has the results of `endpointAliveAtOpen`, none for the error of a
-- context that is done.
pub record View : Type 0 where
  pub loaded : Superblock
  pub seen : Superblock
  pub swapped : Superblock
  pub between : Superblock → Superblock
  pub after_load : Superblock → Superblock
  pub alive : Option (Bool × Bool)
  pub cancelled : Bool
  pub sleep_cancelled : Bool
  pub now : ℕ
  pub after : ℕ

-- What a turn decides before it writes. `wait`: that it reaches the end of the switch, where `stalling`
-- and `emptyWait` are as given.
pub data Plan : Type 0 where
  refuse : ClaimError → Plan
  again : Plan
  wait : Bool → Bool → Plan
  claim_empty : Plan
  take_over : ℕ → Plan
  reclaim : Plan
  join : Plan

unfoldable pub since_or : Option ℕ → ℕ → ℕ
since_or none now = now
since_or (some t) now = t

-- The case `superblockStateEmpty`
unfoldable pub look_empty : Claimer → View → Plan × Claimer
look_empty c v =
    let since = since_or c.empty_since v.now in
    if not (first_page_zero v.seen)
    then (if not (v.seen.state == state_empty) then again else refuse incompatible_layout, c)
    else if is_opener c.role
    then if leb (since + c.attach_timeout) v.now
      then (refuse segment_not_ready, record c { empty_since = some since })
      else (wait false true, record c { empty_since = some since })
    else (claim_empty, c)

-- The comparison of the watch with what the segment shows now
unfoldable pub watched : Option InitWatch → ℕ → ℕ → Option ℕ
watched none tok hb = none
watched (some w) tok hb = if not (w.tok == tok) || not (w.hb == hb) then none else some w.since

unfoldable pub look_watch : Option ℕ → Claimer → View → Plan × Claimer
look_watch none c v = (
  wait true false,
  record c {
    watch = some (record { tok = v.seen.init_token; hb = v.seen.init_heartbeat; since = v.now });
  },
)
look_watch (some since) c v =
    if leb (since + c.stale_init) v.now
    then (take_over v.seen.init_token, c)
    else (wait true false, c)

-- The case `superblockStateInitializing`
unfoldable pub look_initializing : Claimer → View → Plan × Claimer
look_initializing c v =
    if not (check_layout_compat v.seen true)
    then (refuse incompatible_layout, c)
    else if is_opener c.role
    then (wait false false, c)
    else look_watch (watched c.watch v.seen.init_token v.seen.init_heartbeat) c v

unfoldable pub look_live : Option (Bool × Bool) → Claimer → View → Plan
look_live none c v = refuse context_done
look_live (some (primary_alive, secondary_alive)) c v =
    if not primary_alive && not secondary_alive
    then if is_opener c.role then refuse no_live_endpoint else reclaim
    else if is_creator c.role
    then refuse link_busy
    else if not (same_geometry (geometry v.seen) c.want)
    then refuse (geometry_error c.want (geometry v.seen))
    else if primary_alive && v.seen.secondary.token == 0
    then join
    else refuse link_busy

-- The case `superblockStateReady`
unfoldable pub look_ready : Claimer → View → Plan
look_ready c v =
    if not (check_layout_compat v.seen false)
    then refuse incompatible_layout
    else look_live v.alive c v

-- The resets at the head of a turn
unfoldable pub enter : ℕ → Claimer → Claimer
enter state c = record c {
  watch = if state == state_initializing then c.watch else none;
  empty_since = if state == state_empty then c.empty_since else none;
}

-- A turn up to its first write
unfoldable pub look : Claimer → View → Plan × Claimer
look c v =
    let state = v.loaded.state in
    let c' = enter state c in
    if v.cancelled
    then (refuse context_done, c)
    else if state == state_empty
    then look_empty c' v
    else if state == state_initializing
    then look_initializing c' v
    else if state == state_ready
    then (look_ready c' v, c')
    else (refuse incompatible_layout, c')

-- `beginInit`, and whether it succeeds
unfoldable pub begin_init : ℕ → ℕ → ℕ → ℕ → Superblock → Superblock × Bool
begin_init token expected creator_token now sb =
    let s = stamp_layout sb in
    if s.init_token == expected
    then (
      record s { init_token = token; creator_token = creator_token; init_heartbeat = now },
      true,
    )
    else (s, false)

-- The end of a turn: an error, `LinkModePrimary` with `mustInit`, `LinkModeSecondary`, or another turn
pub data Turn : Type 0 where
  failed : ClaimError → Turn
  initializes : Turn
  joins : Turn
  turns_on : Claimer → Turn

-- `limit`: a watch that began before the deadline is given its whole window.
unfoldable pub limit : Bool → Option InitWatch → Claimer → ℕ
limit stalling none c = c.deadline
limit stalling (some w) c =
    if stalling && ltb w.since c.deadline
    then max c.deadline (w.since + c.stale_init)
    else c.deadline

unfoldable pub window_over : Bool → Option InitWatch → Claimer → ℕ → Bool
window_over stalling none c after = false
window_over stalling (some w) c after = stalling && leb (w.since + c.stale_init) after

-- What follows the switch
unfoldable pub poll : Bool → Bool → Claimer → View → Turn
poll stalling empty_wait c v =
    if not empty_wait && ltb (limit stalling c.watch c) v.after
    then if window_over stalling c.watch c v.after then turns_on c else failed init_contended
    else if v.sleep_cancelled
    then failed context_done
    else turns_on c

-- A swap of the state to `superblockStateInitializing`, followed by `beginInit`
unfoldable pub begin_fresh : Claimer → View → Superblock × Turn
begin_fresh c v =
    let claimed = v.between (record v.swapped { state = state_initializing }) in
    let begun =
      begin_init c.token claimed.init_token c.creator_token v.now (v.after_load claimed) in
    if begun.1 then (begun.0, initializes) else (begun.0, failed init_contended)

-- The write that a turn decided on, and the rest of the turn; the segment is that after the write.
unfoldable pub act : Plan → Claimer → View → Superblock × Turn
act (refuse e) c v = (v.swapped, failed e)
act again c v = (v.swapped, turns_on c)
act (wait stalling empty_wait) c v = (v.swapped, poll stalling empty_wait c v)
act claim_empty c v =
    let fresh = begin_fresh c v in
    if v.swapped.state == state_empty then fresh else (v.swapped, poll false false c v)
act (take_over tok) c v =
    let begun = begin_init c.token tok c.creator_token v.now v.swapped in
    if begun.1
    then (begun.0, initializes)
    else (begun.0, poll true false (record c { watch = none }) v)
act reclaim c v =
    let fresh = begin_fresh c v in
    if v.swapped.state == state_ready then fresh else (v.swapped, turns_on c)
act join c v =
    let second = v.swapped.secondary in
    if second.token == 0
    then (
      record v.swapped {
        secondary =
            fill_endpoint c.pid c.heartbeat_interval v.now (record second { token = c.token });
      },
      joins,
    )
    else (v.swapped, turns_on c)

-- One turn of the loop
unfoldable pub turn : Claimer → View → Superblock × Turn
turn c v = let (plan, c') = look c v in act plan c' v

-- The loop, on the views that it has; none while it goes on.
pub data Claimed : Type 0 where
  refused : ClaimError → Claimed
  as_primary : Claimed
  as_secondary : Claimed

unfoldable pub settle : (Claimer → Option Claimed) → Turn → Option Claimed
settle k (failed e) = some (refused e)
settle k initializes = some as_primary
settle k joins = some as_secondary
settle k (turns_on c) = k c

unfoldable pub claim_superblock : Claimer → List View → Option Claimed
claim_superblock c [] = none
claim_superblock c (v ∷ vs) = settle (λ c'. claim_superblock c' vs) (turn c v).1
