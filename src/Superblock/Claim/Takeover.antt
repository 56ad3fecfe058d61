-- ===== src/Superblock/Claim/Takeover.antt =====
-- When an endpoint takes a segment over from another that is initializing it.
use hqq.Common.{
  ℕ, ◌+◌, ◌≤◌, ◌<◌, ◌≡◌, ◌≢◌, ◌⊎◌, inl, inr, true, false, Option, none, some, List, [], ◌∷◌, arith,
  refl, dec_lt, leb, if◌then◌else◌,
}
use hqq.Superblock.Segment.{stamp_layout, state_initializing, check_layout_compat}
use hqq.Superblock.Claim.{
  Claimer, View, InitWatch, Plan, refuse, again, wait, claim_empty, take_over, reclaim, join, Turn,
  failed, initializes, joins, turns_on, Claimed, as_primary, is_opener, enter, look,
  look_initializing, look_watch, watched, act, poll, limit, window_over, begin_init, turn, settle,
  claim_superblock,
}

-- A turn that finds the segment being initialized, by an initializer that has shown `tok` and `hb`
unfoldable pub Initializing : ℕ → ℕ → View → Type 0
Initializing tok hb v =
    (v.loaded.state ≡ state_initializing)
    × (check_layout_compat v.seen true ≡ true)
    × (v.cancelled ≡ false)
    × (v.sleep_cancelled ≡ false)
    × (v.seen.init_token ≡ tok)
    × (v.seen.init_heartbeat ≡ hb)
    × (v.swapped.init_token ≡ tok)
    × (v.now ≤ v.after)

module _ (tok hb t0 : ℕ) where
  abbrev pub watch0 : InitWatch
  watch0 = record { tok = tok; hb = hb; since = t0 }

  -- A watch that began at `t0`, before the deadline, on what the initializer still shows
  abbrev pub Watches : Claimer → Type 0
  Watches c = (c.watch ≡ some watch0) × (is_opener c.role ≡ false) × (t0 < c.deadline)

  stalled_look :
      (c : Claimer) (v : View)
      → Watches c
      → Initializing tok hb v
      → look c v ≡ (
          if leb (t0 + c.stale_init) v.now
          then (take_over tok, enter v.loaded.state c)
          else (wait true false, enter v.loaded.state c))
  unfolding look enter look_initializing look_watch watched Initializing
  stalled_look c v w i = ground (arith, w, i)

  enter-Watches :
      (c : Claimer) (v : View)
      → Watches c
      → Initializing tok hb v
      → Watches (enter v.loaded.state c)
  unfolding enter Initializing
  enter-Watches c v w i = ground (arith, w, i)

  stalled_taken :
      (c : Claimer) (v : View)
      → Watches c
      → Initializing tok hb v
      → t0 + c.stale_init ≤ v.now
      → (turn c v).1 ≡ initializes
  unfolding turn act begin_init stamp_layout Initializing
  stalled_taken c v w i h = rw (stalled_look c v w i) (ground (arith, i))

  stalled_kept :
      (c : Claimer) (v : View)
      → Watches c
      → Initializing tok hb v
      → v.now < t0 + c.stale_init
      → t0 ≤ v.now
      → (turn c v).1 ≡ turns_on (enter v.loaded.state c)
  unfolding turn act poll limit window_over Initializing
  stalled_kept c v w i h k = rw (stalled_look c v w i) (ground (arith, i, w, enter-Watches c v w i))

  -- The turns up to one that is a whole window after `t0` show no progress of the initializer.
  unfoldable pub Overdue : ℕ → List View → Type 0
  Overdue stale [] = ⊥
  Overdue stale (v ∷ vs) =
      Initializing tok hb v × (t0 ≤ v.now) × ((t0 + stale ≤ v.now) ⊎ Overdue stale vs)

  Overdue-taken :
      (c : Claimer) (vs : List View)
      → Watches c
      → Overdue c.stale_init vs
      → claim_superblock c vs ≡ some as_primary
  unfolding claim_superblock settle Overdue
  Overdue-taken c [] w o = elim o [ ]
  Overdue-taken c (v ∷ vs) w (i, k, o) = elim (dec_lt v.now (t0 + c.stale_init)) [
    | no h ↦ rw (stalled_taken c v w i (omega arith)) refl
    | yes h ↦ elim o [
      | inl h' ↦ absurd (omega (arith, h, h'))
      | inr o' ↦
          rw (stalled_kept c v w i h k)
            (Overdue-taken (enter v.loaded.state c) vs (enter-Watches c v w i) (unfold enter in o'))
    ]
  ]

  first_turn :
      (c : Claimer) (v : View)
      → c.watch ≡ none
      → is_opener c.role ≡ false
      → t0 < c.deadline
      → v.now ≡ t0
      → Initializing tok hb v
      → (c' : Claimer) × ((turn c v).1 ≡ turns_on c') × Watches c' × (c'.stale_init ≡ c.stale_init)
  unfolding turn look enter look_initializing look_watch watched act poll limit window_over
      Initializing
  first_turn c v n r d e i =
      (record c { watch = some watch0; empty_since = none }, ground (arith, i), ground arith, refl)

  -- An endpoint that may initialize a segment, and finds it being initialized before its deadline,
  -- becomes the primary when none of its looks in a whole window shows progress of the initializer.
  pub stalled_initializer_replaced :
      (c : Claimer) (v : View) (vs : List View)
      → c.watch ≡ none
      → is_opener c.role ≡ false
      → t0 < c.deadline
      → v.now ≡ t0
      → Initializing tok hb v
      → Overdue c.stale_init vs
      → claim_superblock c (v ∷ vs) ≡ some as_primary
  unfolding claim_superblock settle
  stalled_initializer_replaced c v vs n r d e i o =
      let (c', e', w, s) = first_turn c v n r d e i in rw e' (Overdue-taken c' vs w (rw s o))

-- What a turn leaves, when it did not take the segment over, of a watch
abbrev Stays : ℕ → InitWatch → Turn → Type 0
Stays stale w (failed e) = Unit
Stays stale w initializes = ⊥
Stays stale w joins = Unit
Stays stale w (turns_on c) =
    (c.watch ≡ some w) × (c.stale_init ≡ stale) × (is_opener c.role ≡ false)

-- The initializer last showed progress, with `w.tok` and `w.hb`, at `w.since`; in the turns that
-- follow, a window never ends without another.
unfoldable pub Progresses : ℕ → InitWatch → List View → Type 0
Progresses stale w [] = Unit
Progresses stale w (v ∷ vs) =
    (v.loaded.state ≡ state_initializing)
    × (((v.seen.init_token ≡ w.tok)
          × (v.seen.init_heartbeat ≡ w.hb)
          × (v.now < w.since + stale)
          × Progresses stale w vs)
        ⊎ (((v.seen.init_token ≢ w.tok) ⊎ (v.seen.init_heartbeat ≢ w.hb))
            × Progresses stale
                (record { tok = v.seen.init_token; hb = v.seen.init_heartbeat; since = v.now }) vs))

-- A plan of such a turn
abbrev Planned : ℕ → InitWatch → Plan → Claimer → Type 0
Planned stale w (refuse e) c = Unit
Planned stale w again c = ⊥
Planned stale w (wait stalling empty_wait) c =
    (c.watch ≡ some w) × (c.stale_init ≡ stale) × (is_opener c.role ≡ false)
Planned stale w claim_empty c = ⊥
Planned stale w (take_over tok) c = ⊥
Planned stale w reclaim c = ⊥
Planned stale w join c = ⊥

act-Stays :
    (stale : ℕ) (w : InitWatch) (p : Plan) (c : Claimer) (v : View)
    → Planned stale w p c
    → Stays stale w (act p c v).1
unfolding act poll
act-Stays stale w (refuse e) c v h = tt
act-Stays stale w (wait stalling empty_wait) c v h = ground arith
act-Stays stale w again c v h = elim h [ ]
act-Stays stale w claim_empty c v h = elim h [ ]
act-Stays stale w (take_over tok) c v h = elim h [ ]
act-Stays stale w reclaim c v h = elim h [ ]
act-Stays stale w join c v h = elim h [ ]

look_initializing-Planned :
    (c : Claimer) (v : View) (w : InitWatch)
    → is_opener c.role ≡ false
    → (let (p, c') = look_watch (watched c.watch v.seen.init_token v.seen.init_heartbeat) c v in
        Planned c.stale_init w p c')
    → let (p, c') = look_initializing c v in Planned c.stale_init w p c'
unfolding look_initializing
look_initializing-Planned c v w o h = ground arith

look-Planned :
    (c : Claimer) (v : View) (w : InitWatch)
    → v.loaded.state ≡ state_initializing
    → is_opener c.role ≡ false
    → (since : Option ℕ) → watched c.watch v.seen.init_token v.seen.init_heartbeat ≡ since
    → (let (p, c') = look_watch since (record c { empty_since = none }) v in
        Planned c.stale_init w p c')
    → let (p, c') = look c v in Planned c.stale_init w p c'
unfolding look enter
look-Planned c v w s o since q h =
    ground (arith, look_initializing-Planned (record c { empty_since = none }) v w o (rw q h))

quiet_turn :
    (c : Claimer) (w : InitWatch) (v : View)
    → c.watch ≡ some w
    → is_opener c.role ≡ false
    → v.loaded.state ≡ state_initializing
    → v.seen.init_token ≡ w.tok
    → v.seen.init_heartbeat ≡ w.hb
    → v.now < w.since + c.stale_init
    → Stays c.stale_init w (turn c v).1
unfolding turn look_watch watched
quiet_turn c w v e o s t h l =
    act-Stays c.stale_init w (look c v).0 (look c v).1 v
      (look-Planned c v w s o (some w.since) (ground arith) (ground arith))

moving_turn :
    (c : Claimer) (w : InitWatch) (v : View)
    → c.watch ≡ some w
    → is_opener c.role ≡ false
    → v.loaded.state ≡ state_initializing
    → (v.seen.init_token ≢ w.tok) ⊎ (v.seen.init_heartbeat ≢ w.hb)
    → Stays c.stale_init
        (record { tok = v.seen.init_token; hb = v.seen.init_heartbeat; since = v.now })
        (turn c v).1
unfolding turn look_watch watched
moving_turn c w v e o s m =
    act-Stays c.stale_init _ (look c v).0 (look c v).1 v
      (look-Planned c v _ s o none (ground arith) (refl, refl, o))

settle-Stays :
    (stale : ℕ) (w : InitWatch) (k : Claimer → Option Claimed)
    → ((c : Claimer)
        → c.watch ≡ some w
        → c.stale_init ≡ stale
        → is_opener c.role ≡ false
        → k c ≢ some as_primary)
    → (t : Turn) → Stays stale w t
    → settle k t ≢ some as_primary
unfolding settle
settle-Stays stale w k h (failed e) s = ground arith
settle-Stays stale w k h initializes s = elim s [ ]
settle-Stays stale w k h joins s = ground arith
settle-Stays stale w k h (turns_on c) s = h c s.0 s.1 s.2

-- An initializer that shows progress in every window is never replaced.
pub live_initializer_kept :
    (c : Claimer) (w : InitWatch) (vs : List View)
    → c.watch ≡ some w
    → is_opener c.role ≡ false
    → Progresses c.stale_init w vs
    → claim_superblock c vs ≢ some as_primary
unfolding claim_superblock Progresses
live_initializer_kept c w [] e o p = ground arith
live_initializer_kept c w (v ∷ vs) e o (s, inl (t, h, l, p)) =
    settle-Stays c.stale_init w (λ c'. claim_superblock c' vs)
      (λ c' e' s' o'. live_initializer_kept c' w vs e' o' (rw s' p)) (turn c v).1
      (quiet_turn c w v e o s t h l)
live_initializer_kept c w (v ∷ vs) e o (s, inr (m, p)) =
    let w' : InitWatch = record {
      tok = v.seen.init_token;
      hb = v.seen.init_heartbeat;
      since = v.now;
    } in
    settle-Stays c.stale_init w' (λ c'. claim_superblock c' vs)
      (λ c' e' s' o'. live_initializer_kept c' w' vs e' o' (rw s' p)) (turn c v).1
      (moving_turn c w v e o s m)
