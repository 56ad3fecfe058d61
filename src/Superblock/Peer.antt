-- ===== src/Superblock/Peer.antt =====
-- How an endpoint judges another (superblock.go): `endpointAliveAtOpen` before a session, and
-- `checkPeer` with its `peerMonitor` in one. Times and intervals are 64-bit nanoseconds.
pub mod Laws
mod Tests
use hqq.Common.{
  ℕ, ◌+◌, ◌*◌, ◌%◌, ◌^◌, Bool, true, false, not, ◌&&◌, ◌||◌, Option, none, some, List, [], ◌∷◌, ltb,
  leb, ◌==◌, if◌then◌else◌,
}
use hqq.Superblock.Segment.{Superblock, Endpoint, detached_token, is_owner_token}

-- `heartbeatFutureSlack`
abbrev pub heartbeat_future_slack : ℕ
heartbeat_future_slack = 1000000000

-- `heartbeatFresh`: `age > -slack && age < timeout`, of the age `now - ts`
unfoldable pub heartbeat_fresh : ℕ → ℕ → ℕ → Bool
heartbeat_fresh now ts timeout = ltb ts (now + heartbeat_future_slack) && ltb now (ts + timeout)

-- `interval <= 0`, of an int64
unfoldable pub no_heartbeat : ℕ → Bool
no_heartbeat interval = interval == 0 || leb (2 ^ 63) interval

-- `effectivePeerTimeout`; the product is an int64 that wraps around.
unfoldable pub effective_peer_timeout : ℕ → ℕ → ℕ
effective_peer_timeout peer_timeout interval =
    let t = 4 * interval % 2 ^ 64 in
    if ltb peer_timeout t && ltb t (2 ^ 63) then t else peer_timeout

-- What the loop of `endpointAliveAtOpen` loads after a sleep; the token is loaded again when it or the
-- heartbeat has changed.
pub record Sample : Type 0 where
  pub heartbeat : ℕ
  pub token : ℕ
  pub token_again : ℕ

-- The loop, on its samples until the end of the window; none in place of one is a context that is done.
unfoldable pub watch_record : Endpoint → List (Option Sample) → Option Bool
watch_record rec [] = some false
watch_record rec (none ∷ ss) = none
watch_record rec (some s ∷ ss) =
    let rest = watch_record rec ss in
    if not (s.heartbeat == rec.heartbeat) || not (s.token == rec.token)
    then some (is_owner_token s.token_again)
    else rest

-- `endpointAliveAtOpen`; none for an error
unfoldable pub endpoint_alive_at_open : ℕ → ℕ → Endpoint → List (Option Sample) → Option Bool
endpoint_alive_at_open peer_timeout now rec ss =
    let watched = watch_record rec ss in
    if not (is_owner_token rec.token)
    then some false
    else if no_heartbeat rec.interval
    then some true
    else if rec.heartbeat == 0
    then some true
    else if heartbeat_fresh now rec.heartbeat (effective_peer_timeout peer_timeout rec.interval)
    then some true
    else watched

-- `PeerState`
pub data PeerState : Type 0 where
  peer_not_connected : PeerState
  peer_connected : PeerState
  peer_closed : PeerState
  peer_gone : PeerState

-- `ErrPeerClosed` and `ErrPeerGone`
pub data PeerError : Type 0 where
  err_peer_closed : PeerError
  err_peer_gone : PeerError

-- `PeerState.err`; none for nil
unfoldable pub err : PeerState → Option PeerError
err peer_not_connected = none
err peer_connected = none
err peer_closed = some err_peer_closed
err peer_gone = some err_peer_gone

-- `peerMonitor`
pub record PeerMonitor : Type 0 where
  pub status : PeerState
  pub token : ℕ
  pub last_hb : ℕ
  pub last_change : ℕ

-- The fields of `StandardLink` that `checkPeer` reads
pub record Link : Type 0 where
  pub is_primary : Bool
  pub token : ℕ
  pub epoch : ℕ
  pub peer_timeout : ℕ

-- `endpoints[l.self]` and `endpoints[1-l.self]`
unfoldable pub own_record : Link → Superblock → Endpoint
own_record l sb = if l.is_primary then sb.primary else sb.secondary

unfoldable pub peer_record : Link → Superblock → Endpoint
peer_record l sb = if l.is_primary then sb.secondary else sb.primary

abbrev fails : PeerError → PeerState → PeerMonitor → Option PeerError × PeerMonitor
fails e st m = (some e, record m { status = st })

-- `checkPeer` of a peer that has been seen and still has its token
unfoldable pub check_heartbeat : Link → PeerMonitor → Endpoint → ℕ → Option PeerError × PeerMonitor
check_heartbeat l m rec now =
    if no_heartbeat rec.interval
    then (none, m)
    else if not (rec.heartbeat == m.last_hb)
    then (none, record m { last_hb = rec.heartbeat; last_change = now })
    else if ltb (m.last_change + effective_peer_timeout l.peer_timeout rec.interval) now
    then fails err_peer_gone peer_gone m
    else (none, m)

unfoldable pub check_record : Link → PeerMonitor → Endpoint → ℕ → Option PeerError × PeerMonitor
check_record l m rec now =
    if rec.token == detached_token
    then fails err_peer_closed peer_closed m
    else if m.token == 0
    then if not (rec.token == 0)
      then (
        none,
        record {
          status = peer_connected;
          token = rec.token;
          last_hb = rec.heartbeat;
          last_change = now;
        },
      )
      else (none, m)
    else if not (rec.token == m.token)
    then fails err_peer_gone peer_gone m
    else check_heartbeat l m rec now

unfoldable pub check_open : Link → PeerMonitor → Superblock → ℕ → Option PeerError × PeerMonitor
check_open l m sb now =
    if not (sb.epoch == l.epoch) || not ((own_record l sb).token == l.token)
    then fails err_peer_gone peer_gone m
    else check_record l m (peer_record l sb) now

unfoldable pub check_known :
    Option PeerError → Link → PeerMonitor → Superblock → ℕ → Option PeerError × PeerMonitor
check_known (some e) l m sb now = (some e, m)
check_known none l m sb now = check_open l m sb now

-- `checkPeer` at the time `now`
unfoldable pub check_peer : Link → PeerMonitor → Superblock → ℕ → Option PeerError × PeerMonitor
check_peer l m sb now = check_known (err m.status) l m sb now

-- The results of a sequence of checks, each with the segment and the time that it sees
unfoldable pub check_all : Link → PeerMonitor → List (Superblock × ℕ) → List (Option PeerError)
check_all l m [] = []
check_all l m ((sb, now) ∷ ss) = let (e, m') = check_peer l m sb now in e ∷ check_all l m' ss
