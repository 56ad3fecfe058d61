-- ===== src/Superblock/Peer/Laws.antt =====
-- A peer that is lost stays lost, and one that beats is not lost.
use hqq.Common.{
  ℕ, ◌+◌, ◌≤◌, ◌≡◌, ◌≢◌, ◌⊎◌, inl, inr, true, false, Option, none, some, List, [], ◌∷◌, map, arith,
  refl, ap, ◌∙◌,
}
use hqq.Superblock.Segment.{Superblock, Endpoint, detached_token, is_owner_token}
use hqq.Superblock.Peer.{
  peer_connected, PeerError, err, PeerMonitor, Link, own_record, peer_record,
  effective_peer_timeout, no_heartbeat, check_heartbeat, check_record, check_open, check_known,
  check_peer, check_all, Sample, watch_record, endpoint_alive_at_open,
}

-- The error that is returned is that of the state that is left.
abbrev Says : Option PeerError → PeerMonitor → Type 0
Says none m = Unit
Says (some e) m = err m.status ≡ some e

check_heartbeat-Says :
    (l : Link) (m : PeerMonitor) (rec : Endpoint) (now : ℕ)
    → Says (check_heartbeat l m rec now).0 (check_heartbeat l m rec now).1
unfolding check_heartbeat err
check_heartbeat-Says l m rec now = ground arith

check_record-Says :
    (l : Link) (m : PeerMonitor) (rec : Endpoint) (now : ℕ)
    → Says (check_record l m rec now).0 (check_record l m rec now).1
unfolding check_record err
check_record-Says l m rec now = ground (arith, check_heartbeat-Says l m rec now)

check_known-Says :
    (o : Option PeerError) (l : Link) (m : PeerMonitor) (sb : Superblock) (now : ℕ)
    → err m.status ≡ o
    → Says (check_known o l m sb now).0 (check_known o l m sb now).1
unfolding check_known check_open err
check_known-Says (some e) l m sb now h = h
check_known-Says none l m sb now h = ground (arith, check_record-Says l m (peer_record l sb) now)

check_peer-err :
    (l : Link) (m : PeerMonitor) (sb : Superblock) (now : ℕ) (e : PeerError)
    → (check_peer l m sb now).0 ≡ some e
    → err (check_peer l m sb now).1.status ≡ some e
unfolding check_peer
check_peer-err l m sb now e h =
    elim_says (check_peer l m sb now).0 (check_peer l m sb now).1 h
      (check_known-Says (err m.status) l m sb now refl)
  where
    elim_says :
        (o : Option PeerError) (m : PeerMonitor) → o ≡ some e → Says o m → err m.status ≡ some e
    elim_says none m q s = absurd (ground arith)
    elim_says (some x) m q s = s ∙ q

lost_stays :
    (l : Link) (m : PeerMonitor) (e : PeerError) (ss : List (Superblock × ℕ))
    → err m.status ≡ some e
    → check_all l m ss ≡ map (λ s. some e) ss
unfolding check_all check_peer check_known
lost_stays l m e [] h = refl
lost_stays l m e ((sb, now) ∷ ss) h = simp (h, lost_stays l m e ss h)

-- Once a check has returned an error, every later check returns it, whatever the segment shows.
pub check_peer_final :
    (l : Link) (m : PeerMonitor) (sb : Superblock) (now : ℕ) (e : PeerError)
    (ss : List (Superblock × ℕ))
    → (check_peer l m sb now).0 ≡ some e
    → check_all l (check_peer l m sb now).1 ss ≡ map (λ s. some e) ss
check_peer_final l m sb now e ss h =
    lost_stays l (check_peer l m sb now).1 e ss (check_peer-err l m sb now e h)

-- What a check finds while the session of the link goes on: its epoch, its own token, and the token
-- of the peer, which has heartbeats
unfoldable pub Alive : Link → ℕ → Superblock → Type 0
Alive l token sb =
    (sb.epoch ≡ l.epoch)
    × ((own_record l sb).token ≡ l.token)
    × ((peer_record l sb).token ≡ token)
    × (no_heartbeat (peer_record l sb).interval ≡ false)

-- The peer with `token`, whose heartbeat `hb` was seen first at `since`, beats again within its timeout
-- of every beat.
unfoldable pub Beats : Link → ℕ → ℕ → ℕ → List (Superblock × ℕ) → Type 0
Beats l token hb since [] = Unit
Beats l token hb since ((sb, now) ∷ ss) =
    let rec = peer_record l sb in
    Alive l token sb
    × (((rec.heartbeat ≡ hb)
          × (now ≤ since + effective_peer_timeout l.peer_timeout rec.interval)
          × Beats l token hb since ss)
        ⊎ ((rec.heartbeat ≢ hb) × Beats l token rec.heartbeat now ss))

abbrev pub connected : ℕ → ℕ → ℕ → PeerMonitor
connected token hb since = record {
  status = peer_connected;
  token = token;
  last_hb = hb;
  last_change = since;
}

check_alive :
    (l : Link) (token hb since : ℕ) (sb : Superblock) (now : ℕ)
    → token ≢ 0
    → token ≢ detached_token
    → Alive l token sb
    → check_peer l (connected token hb since) sb now
      ≡ check_heartbeat l (connected token hb since) (peer_record l sb) now
unfolding check_peer check_known err check_open check_record Alive
check_alive l token hb since sb now t d a = ground (arith, a)

quiet_check :
    (l : Link) (token hb since : ℕ) (rec : Endpoint) (now : ℕ)
    → no_heartbeat rec.interval ≡ false
    → rec.heartbeat ≡ hb
    → now ≤ since + effective_peer_timeout l.peer_timeout rec.interval
    → check_heartbeat l (connected token hb since) rec now ≡ (none, connected token hb since)
unfolding check_heartbeat
quiet_check l token hb since rec now n h k = ground arith

beating_check :
    (l : Link) (token hb since : ℕ) (rec : Endpoint) (now : ℕ)
    → no_heartbeat rec.interval ≡ false
    → rec.heartbeat ≢ hb
    → check_heartbeat l (connected token hb since) rec now
      ≡ (none, connected token rec.heartbeat now)
unfolding check_heartbeat
beating_check l token hb since rec now n h = ground arith

check_next :
    (l : Link) (m m' : PeerMonitor) (sb : Superblock) (now : ℕ) (ss : List (Superblock × ℕ))
    → check_peer l m sb now ≡ (none, m')
    → check_all l m ((sb, now) ∷ ss) ≡ none ∷ check_all l m' ss
unfolding check_all
check_next l m m' sb now ss h = ap (λ r. r.0 ∷ check_all l r.1 ss) h

-- A connected peer with heartbeats that beats within its timeout, in the session of the link, is never
-- reported as lost.
pub beating_peer_kept :
    (l : Link) (token hb since : ℕ) (ss : List (Superblock × ℕ))
    → token ≢ 0
    → token ≢ detached_token
    → Beats l token hb since ss
    → check_all l (connected token hb since) ss ≡ map (λ s. none) ss
unfolding check_all Beats
beating_peer_kept l token hb since [] t d b = refl
beating_peer_kept l token hb since ((sb, now) ∷ ss) t d (a, inl (h, k, b)) =
    let n : no_heartbeat (peer_record l sb).interval ≡ false = unfold Alive in a.3 in
    let m = connected token hb since in
    check_next l m m sb now ss (
      check_alive l token hb since sb now t d a
      ∙ quiet_check l token hb since (peer_record l sb) now n h k)
    ∙ ap (λ r. none ∷ r) (beating_peer_kept l token hb since ss t d b)
beating_peer_kept l token hb since ((sb, now) ∷ ss) t d (a, inr (h, b)) =
    let n : no_heartbeat (peer_record l sb).interval ≡ false = unfold Alive in a.3 in
    let beat = (peer_record l sb).heartbeat in
    check_next l (connected token hb since) (connected token beat now) sb now ss (
      check_alive l token hb since sb now t d a
      ∙ beating_check l token hb since (peer_record l sb) now n h)
    ∙ ap (λ r. none ∷ r) (beating_peer_kept l token beat now ss t d b)

-- No sample of the window shows a beat, up to one with another token that is no owner's.
unfoldable pub Silent : Endpoint → List (Option Sample) → Type 0
Silent rec [] = Unit
Silent rec (none ∷ ss) = ⊥
Silent rec (some s ∷ ss) =
    ((s.heartbeat ≡ rec.heartbeat) × (s.token ≡ rec.token) × Silent rec ss)
    ⊎ ((s.token_again ≡ 0) ⊎ (s.token_again ≡ detached_token))

watch_record-Silent :
    (rec : Endpoint) (ss : List (Option Sample)) → watch_record rec ss ≡ some false → Silent rec ss
unfolding watch_record Silent is_owner_token
watch_record-Silent rec [] h = tt
watch_record-Silent rec (none ∷ ss) h = ground arith
watch_record-Silent rec (some s ∷ ss) h = ground (arith, watch_record-Silent rec ss)

-- The record of an attached endpoint is taken for dead only when the window shows no beat of it, up to
-- a token that is no owner's.
pub endpoint_alive_at_open-Silent :
    (peer_timeout now : ℕ) (rec : Endpoint) (ss : List (Option Sample))
    → is_owner_token rec.token ≡ true
    → endpoint_alive_at_open peer_timeout now rec ss ≡ some false
    → Silent rec ss
unfolding endpoint_alive_at_open
endpoint_alive_at_open-Silent peer_timeout now rec ss o h =
    ground (arith, watch_record-Silent rec ss)
