-- ===== src/Superblock/Claim/Tests.antt =====
-- Claims of an empty segment, and of one that an endpoint with the token 7 began to initialize.
use hqq.Common.{ℕ, ◌≡◌, ◌≢◌, ◌⊎◌, inl, inr, true, false, none, some, [], ◌∷◌, arith, refl}
use hqq.Superblock.Segment.{
  Superblock, clear_endpoint, first_page_zero, check_layout_compat, stamp_layout,
}
use hqq.Superblock.Claim.{
  failed, init_contended, AttachRole, role_any, role_creator, Claimer, View, InitWatch, as_primary,
  claim_superblock, settle, turn, look, look_empty, enter, act, begin_fresh, begin_init, is_opener,
}
use hqq.Superblock.Claim.Laws.{MayEnd, claim_superblock-MayEnd, turn_foreign}
use hqq.Superblock.Claim.Takeover.{
  Initializing, Overdue, Progresses, stalled_initializer_replaced, live_initializer_kept,
}

abbrev pub blank : Superblock
blank = record {
  magic = 0;
  state = 0;
  major = 0;
  minor = 0;
  page_size = 0;
  buffer_count = 0;
  buffer_size = 0;
  layout_size = 0;
  epoch = 0;
  init_token = 0;
  init_heartbeat = 0;
  required_features = 0;
  creator_token = 0;
  primary = clear_endpoint;
  secondary = clear_endpoint;
  padding = 0 ∷ 0 ∷ [];
}

abbrev begun : ℕ → Superblock
begun hb = record blank { state = 1; major = 3; init_token = 7; init_heartbeat = hb }

abbrev pub claimer : AttachRole → ℕ → Claimer
claimer role token = record {
  role = role;
  token = token;
  creator_token = 0;
  pid = 1;
  heartbeat_interval = 10;
  attach_timeout = 100;
  stale_init = 50;
  want = record { buffer_count = 16; buffer_size = 1024; layout_size = 45056; page_size = 4096 };
  deadline = 100;
  watch = none;
  empty_since = none;
}

abbrev finds : Superblock → ℕ → View
finds sb now = record {
  loaded = sb;
  seen = sb;
  swapped = sb;
  between = λ s. s;
  after_load = λ s. s;
  alive = none;
  cancelled = false;
  sleep_cancelled = false;
  now = now;
  after = now;
}

claim_empty-run : claim_superblock (claimer role_any 9) (finds blank 0 ∷ []) ≡ some as_primary
unfolding claim_superblock settle turn look look_empty enter first_page_zero act begin_fresh
    begin_init is_opener stamp_layout
claim_empty-run = refl

-- Another endpoint takes the initialization over after the state was swapped and the token loaded.
overtaken :
    (turn
      (claimer role_any 9)
      (record (finds blank 0) { after_load = λ s. record s { init_token = 8 } })).1
    ≡ failed init_contended
unfolding turn look look_empty enter first_page_zero act begin_fresh begin_init is_opener
    stamp_layout
overtaken = refl

claim_superblock-MayEnd_example : MayEnd role_any as_primary
claim_superblock-MayEnd_example =
    claim_superblock-MayEnd (claimer role_any 9) (finds blank 0 ∷ []) as_primary claim_empty-run

turn_foreign_example :
    ((turn (claimer role_any 9) (finds blank 0)).0 ≡ blank)
    ⊎ ((first_page_zero blank ≡ true) ⊎ (check_layout_compat blank true ≡ true))
turn_foreign_example = turn_foreign (claimer role_any 9) (finds blank 0)

initializing : (now : ℕ) → Initializing 7 5 (finds (begun 5) now)
unfolding Initializing check_layout_compat
initializing now = (refl, refl, refl, refl, refl, refl, refl, omega arith)

overdue : Overdue 7 5 3 50 (finds (begun 5) 40 ∷ finds (begun 5) 60 ∷ [])
unfolding Overdue
overdue = (initializing 40, omega arith, inr (initializing 60, omega arith, inl (omega arith)))

stalled_initializer_replaced_example :
    claim_superblock
      (claimer role_creator 9)
      (finds (begun 5) 3 ∷ finds (begun 5) 40 ∷ finds (begun 5) 60 ∷ [])
    ≡ some as_primary
stalled_initializer_replaced_example =
    stalled_initializer_replaced 7 5 3 (claimer role_creator 9) (finds (begun 5) 3)
      (finds (begun 5) 40 ∷ finds (begun 5) 60 ∷ []) refl (unfold is_opener in refl) (omega arith)
      refl (initializing 3) overdue

abbrev seen_at_3 : InitWatch
seen_at_3 = record { tok = 7; hb = 5; since = 3 }

abbrev watching : Claimer
watching = record (claimer role_creator 9) { watch = some seen_at_3 }

beating :
    Progresses 50 seen_at_3 (finds (begun 5) 40 ∷ finds (begun 6) 50 ∷ finds (begun 6) 90 ∷ [])
unfolding Progresses
beating = (
  refl,
  inl (
    refl,
    refl,
    omega arith,
    (refl, inr (inr (omega arith), (refl, inl (refl, refl, omega arith, tt)))),
  ),
)

live_initializer_kept_example :
    claim_superblock watching (finds (begun 5) 40 ∷ finds (begun 6) 50 ∷ finds (begun 6) 90 ∷ [])
    ≢ some as_primary
live_initializer_kept_example =
    live_initializer_kept watching seen_at_3
      (finds (begun 5) 40 ∷ finds (begun 6) 50 ∷ finds (begun 6) 90 ∷ []) refl
      (unfold is_opener in refl) beating
