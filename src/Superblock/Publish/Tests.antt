-- ===== src/Superblock/Publish/Tests.antt =====
-- An initializer with the token 7, replaced by one with the token 9.
use hqq.Common.{
  ℕ, ◌*◌, ◌≤◌, ◌<◌, ◌≡◌, true, false, List, [], ◌∷◌, ◌++◌, arith, refl, replicate, drop, ltb,
}
use hqq.Superblock.Segment.{Superblock, clear_endpoint}
use hqq.Superblock.Publish.{
  Publication, writing, fill_primary, Event, ours, theirs, run, writes_in, zero_in_chunks,
}
use hqq.Superblock.Publish.Laws.{before_commit, IsForeign, replaced_publisher_stops}
use hqq.Superblock.Publish.Zeroing.{zero_stopped}

abbrev pub owned : ℕ → Superblock
owned token = record {
  magic = 0;
  state = 1;
  major = 3;
  minor = 0;
  page_size = 0;
  buffer_count = 0;
  buffer_size = 0;
  layout_size = 0;
  epoch = 4;
  init_token = token;
  init_heartbeat = 1;
  required_features = 0;
  creator_token = 0;
  primary = clear_endpoint;
  secondary = clear_endpoint;
  padding = [];
}

abbrev pub publication : Publication
publication = record {
  token = 7;
  shape = record { buffer_count = 16; buffer_size = 1024; layout_size = 45056; page_size = 4096 };
  pid = 1;
  heartbeat_interval = 10;
  now = 20;
}

-- The other endpoint refreshes its heartbeat between two steps of this one.
abbrev events : List Event
events = ours false ∷ theirs (λ sb. record sb { init_heartbeat = 30 }) ∷ ours false ∷ []

events-IsForeign : IsForeign 7 events
unfolding IsForeign
events-IsForeign = (λ sb h. h, tt)

replaced_publisher_stops_example :
    (before_commit (run publication events (writing fill_primary, owned 9)).0 ≡ true)
    × (writes_in publication events (writing fill_primary, owned 9) ≤ 1)
replaced_publisher_stops_example =
    replaced_publisher_stops publication events (writing fill_primary) (owned 9) events-IsForeign
      (omega arith) (unfold before_commit in refl)

first_two : (j : ℕ) → 0 ≤ j → j < 2 → ltb j 2 ≡ true
first_two j h k = ground arith

zero_stopped_example :
    zero_in_chunks (λ j. ltb j 2) 2 6 0 (5 ∷ 6 ∷ 7 ∷ 8 ∷ 9 ∷ 10 ∷ [])
    ≡ (replicate (2 * 2) 0 ++ drop (2 * 2) (5 ∷ 6 ∷ 7 ∷ 8 ∷ 9 ∷ 10 ∷ []), false)
zero_stopped_example =
    zero_stopped (λ j. ltb j 2) 2 2 6 0 (5 ∷ 6 ∷ 7 ∷ 8 ∷ 9 ∷ 10 ∷ []) first_two refl (omega arith)
      (omega arith) (omega arith)
