-- ===== src/Mpmc/Ring/Slots/Tests.antt =====
-- Copies of a claimed slot in a ring of two slots.
use hqq.Common.{ℕ, ◌≡◌, true, false, refl, arith}
use hqq.Mpmc.Layout.{Memory, MpmcRing, layout_version, mpmc_init, mpmc_magic}
use hqq.Mpmc.Ring.{publish, publish_slot, release_slot, quiet, notify, elem, release}
use hqq.Mpmc.Ring.Slots.{ClaimedSlot, commit, release_claim, producer_owned, is_valid, commit_once}

abbrev two_slots : MpmcRing
two_slots = record { mask = 1; size = 2; stride = 64 }

-- Position 3 is claimed by a producer, position 2 by a consumer.
abbrev half_full : Memory ℕ
half_full = record {
  head = record {
    magic = mpmc_magic;
    size = 2;
    flag = mpmc_init;
    stride = 64;
    version = layout_version;
    r = 3;
    w = 4;
    not_empty = 0;
    empty_waiters = 1;
    not_full = 0;
    full_waiters = 0;
  };
  slots = λ i. record { seq = 3; payload = i };
}

abbrev claim : ℕ → ClaimedSlot
claim pos = record { pos = pos; has_elem = true; done = false }

commit_succeeds : (commit false two_slots (claim 3) half_full).ok ≡ true
unfolding commit publish_slot is_valid publish elem notify
commit_succeeds = refl

release_succeeds : (release_claim false two_slots (claim 2) half_full).ok ≡ true
unfolding release_claim release_slot is_valid release elem notify
release_succeeds = refl

commit_once_example :
    let mem = (commit false two_slots (claim 3) half_full).mem in
    (producer_owned two_slots (claim 3) mem ≡ false)
    × ((commit false two_slots (claim 3) mem).ok ≡ false)
    × ((commit false two_slots (claim 3) mem).mem ≡ mem)
    × ((commit false two_slots (claim 3) mem).wake ≡ quiet)
commit_once_example =
    commit_once false two_slots (claim 3) (claim 3) half_full (ground arith) refl commit_succeeds
