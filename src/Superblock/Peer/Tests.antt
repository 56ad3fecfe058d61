-- ===== src/Superblock/Peer/Tests.antt =====
-- A primary whose peer has the token 9, a timeout of 100 and an interval of 10.
use hqq.Common.{ℕ, ◌≡◌, inl, inr, true, false, Option, some, none, List, [], ◌∷◌, arith, refl}
use hqq.Superblock.Segment.{Superblock, Endpoint, clear_endpoint, is_owner_token}
use hqq.Superblock.Publish.Tests.{owned}
use hqq.Superblock.Peer.{
  err_peer_closed, Link, Sample, own_record, peer_record, no_heartbeat, effective_peer_timeout, err,
  check_known, check_open, check_record, check_peer, check_all, endpoint_alive_at_open,
  heartbeat_fresh, watch_record,
}
use hqq.Superblock.Peer.Laws.{connected, Alive, Beats, beating_peer_kept}

abbrev link : Link
link = record { is_primary = true; token = 7; epoch = 4; peer_timeout = 100 }

abbrev peer : ℕ → ℕ → Endpoint
peer token heartbeat = record { token = token; pid = 2; heartbeat = heartbeat; interval = 10 }

abbrev session : ℕ → ℕ → Superblock
session token heartbeat = record (owned 0) {
  primary = record clear_endpoint { token = 7 };
  secondary = peer token heartbeat;
}

abbrev later_checks : List (Superblock × ℕ)
later_checks = (session 9 5, 80) ∷ (session 11 9, 90) ∷ []

closed_check : (check_peer link (connected 9 5 0) (session 1 5) 60).0 ≡ some err_peer_closed
unfolding check_peer check_known err check_open check_record own_record peer_record
closed_check = refl

alive : (heartbeat : ℕ) → Alive link 9 (session 9 heartbeat)
unfolding Alive own_record peer_record no_heartbeat
alive heartbeat = (refl, refl, refl, refl)

beats : Beats link 9 5 0 ((session 9 5, 90) ∷ (session 9 6, 130) ∷ (session 9 6, 220) ∷ [])
unfolding Beats peer_record effective_peer_timeout
beats = (
  alive 5,
  inl (refl, omega arith, (alive 6, inr (omega arith, (alive 6, inl (refl, omega arith, tt))))),
)

beating_peer_kept_example :
    check_all link
      (connected 9 5 0)
      ((session 9 5, 90) ∷ (session 9 6, 130) ∷ (session 9 6, 220) ∷ [])
    ≡ none ∷ none ∷ none ∷ []
beating_peer_kept_example =
    beating_peer_kept link 9 5 0 ((session 9 5, 90) ∷ (session 9 6, 130) ∷ (session 9 6, 220) ∷ [])
      (omega arith) (omega arith) beats

abbrev still : Option Sample
still = some (record { heartbeat = 5; token = 9; token_again = 9 })

-- 3 seconds after the heartbeat
silent_record : endpoint_alive_at_open 100 3000000000 (peer 9 5) (still ∷ still ∷ []) ≡ some false
unfolding endpoint_alive_at_open is_owner_token no_heartbeat heartbeat_fresh effective_peer_timeout
    watch_record
silent_record = refl
