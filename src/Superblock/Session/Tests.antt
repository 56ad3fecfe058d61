-- ===== src/Superblock/Session/Tests.antt =====
-- A primary with the token 7, a secondary with the token 9, and a third endpoint.
use hqq.Common.{Bool, ◌≡◌, true, false, some, arith, refl}
use hqq.Superblock.Segment.{Superblock}
use hqq.Superblock.Claim.{Claimer, View, role_any, role_opener, joins, turn, is_creator}
use hqq.Superblock.Claim.Tests.{claimer}
use hqq.Superblock.Publish.{checking, stamp, run}
use hqq.Superblock.Publish.Tests.{publication, owned}
use hqq.Superblock.Publish.Laws.{undisturbed}
use hqq.Superblock.Session.{Finds, Refuses, published_session}

abbrev finds : Superblock → Bool × Bool → View
finds sb alive = record {
  loaded = sb;
  seen = sb;
  swapped = sb;
  between = λ s. s;
  after_load = λ s. s;
  alive = some alive;
  cancelled = false;
  sleep_cancelled = false;
  now = 50;
  after = 50;
}

abbrev fresh : Superblock
fresh = (run publication undisturbed (checking stamp, owned 7)).1

abbrev first : View
first = finds fresh (true, false)

abbrev second : View
second = finds (turn (claimer role_opener 9) first).0 (true, true)

finds-Finds : (sb : Superblock) (alive : Bool × Bool) → Finds sb alive (finds sb alive)
unfolding Finds
finds-Finds sb alive = (refl, refl, refl, refl, refl)

-- The third endpoint wants another size of buffers.
abbrev other : Claimer
other = record (claimer role_any 11) {
  want = record { buffer_count = 16; buffer_size = 2048; layout_size = 77824; page_size = 4096 };
}

published_session_example :
    ((turn (claimer role_opener 9) first).1 ≡ joins)
    × ((turn (claimer role_opener 9) first).0.primary.token ≡ 7)
    × ((turn (claimer role_opener 9) first).0.secondary.token ≡ 9)
    × Refuses publication.shape other (turn other second).1
published_session_example =
    published_session publication (owned 7) (claimer role_opener 9) other first second refl refl
      (unfold is_creator in refl) (omega arith) (finds-Finds fresh (true, false))
      (finds-Finds (turn (claimer role_opener 9) first).0 (true, true))
