-- ===== src/Superblock/Session.antt =====
-- From the initialization of a segment to the session of two endpoints (superblock.go).
mod Tests
use hqq.Common.{
  ℕ, ◌≡◌, ◌≢◌, ap, subst, ◌∙◌, Bool, true, false, Option, some, arith, refl, sym, ◌==◌, ==-refl,
  ==-ne, ◌||◌, ◌⊎◌, if◌then◌else◌, Bool-cases, inl, inr, not, ◌&&◌,
}
use hqq.Superblock.Segment.{
  Superblock, Geometry, state_ready, check_layout_compat, geometry, same_geometry, fill_endpoint,
}
use hqq.Superblock.Claim.{
  AttachRole, role_any, role_creator, role_opener, Claimer, View, Plan, link_busy, refuse, join,
  Turn, geometry_error, failed, joins, is_creator, is_opener, enter, look, look_ready, look_live,
  act, turn,
}
use hqq.Superblock.Publish.{Publication, checking, stamp, run}
use hqq.Superblock.Publish.Laws.{undisturbed, publish_undisturbed}

-- A turn that finds a segment that nobody else changes meanwhile, and judges its endpoints so
unfoldable pub Finds : Superblock → Bool × Bool → View → Type 0
Finds sb alive v =
    (v.loaded ≡ sb)
    × (v.seen ≡ sb)
    × (v.swapped ≡ sb)
    × (v.alive ≡ some alive)
    × (v.cancelled ≡ false)

same_geometry_refl : (g : Geometry) → same_geometry g g ≡ true
same_geometry_refl g =
    rw (==-refl g.buffer_count, ==-refl g.buffer_size, ==-refl g.layout_size, ==-refl g.page_size)
      refl

-- A segment that is ready for an endpoint
abbrev Ready : Superblock → Geometry → Type 0
Ready sb g = (sb.state ≡ state_ready) × (check_layout_compat sb false ≡ true) × (geometry sb ≡ g)

look_published :
    (sb : Superblock) (alive : Bool × Bool) (c : Claimer) (v : View)
    → sb.state ≡ state_ready
    → check_layout_compat sb false ≡ true
    → Finds sb alive v
    → look c v ≡ (look_live (some alive) (enter sb.state c) v, enter sb.state c)
unfolding look look_ready Finds
look_published sb alive c v r k (l, s, w, a, n) =
    let state : v.loaded.state ≡ state_ready = ap (λ t. t.state) l ∙ r in
    let compat : check_layout_compat v.seen false ≡ true =
      ap (λ t. check_layout_compat t false) s ∙ k in
    ground arith

found_geometry :
    (sb : Superblock) (alive : Bool × Bool) (g : Geometry) (v : View)
    → geometry sb ≡ g
    → Finds sb alive v
    → same_geometry (geometry v.seen) g ≡ true
unfolding Finds
found_geometry sb alive g v e (l, s, w, a, n) =
    ap (λ t. same_geometry t g) (ap geometry s ∙ e) ∙ same_geometry_refl g

look_first :
    (sb : Superblock) (c : Claimer) (v : View)
    → geometry sb ≡ c.want
    → sb.secondary.token ≡ 0
    → is_creator c.role ≡ false
    → Finds sb (true, false) v
    → look_live (some (true, false)) (enter sb.state c) v ≡ join
unfolding look_live enter
look_first sb c v g z o f =
    let same = found_geometry sb (true, false) c.want v g f in
    let empty : v.seen.secondary.token ≡ 0 = unfold Finds in ap (λ t. t.secondary.token) f.1 ∙ z in
    ground arith

-- A segment with the secondary of a join
abbrev joined : Claimer → View → Superblock
joined c v = record v.swapped {
  secondary =
      fill_endpoint c.pid c.heartbeat_interval v.now
        (record v.swapped.secondary { token = c.token });
}

act_first :
    (c : Claimer) (v : View) → v.swapped.secondary.token ≡ 0 → act join c v ≡ (joined c v, joins)
unfolding act
act_first c v z = ground arith

-- A ready segment with an empty second place takes an endpoint there.
joins_ready :
    (sb : Superblock) (c : Claimer) (v : View)
    → sb.state ≡ state_ready
    → check_layout_compat sb false ≡ true
    → geometry sb ≡ c.want
    → sb.secondary.token ≡ 0
    → is_creator c.role ≡ false
    → Finds sb (true, false) v
    → turn c v ≡ (joined (enter sb.state c) v, joins)
unfolding turn
joins_ready sb c v r k g z o f =
    let empty : v.swapped.secondary.token ≡ 0 =
      unfold Finds in ap (λ t. t.secondary.token) f.2 ∙ z in
    ap (λ l. act l.0 l.1 v) (look_published sb (true, false) c v r k f)
    ∙ ap (λ l. act l (enter sb.state c) v) (look_first sb c v g z o f)
    ∙ act_first (enter sb.state c) v empty

same_geometry-eq : (g h : Geometry) → same_geometry g h ≡ true → g ≡ h
same_geometry-eq g h e = ground arith

is_creator-eq : (role : AttachRole) → is_creator role ≡ true → role ≡ role_creator
unfolding is_creator
is_creator-eq role_creator e = refl
is_creator-eq role_any e = ground arith
is_creator-eq role_opener e = ground arith

-- How a full segment refuses an endpoint: a creator and one of its geometry because the link is busy,
-- and any other for its geometry.
abbrev pub Refuses : Geometry → Claimer → Turn → Type 0
Refuses g c t =
    (((c.role ≡ role_creator) ⊎ (c.want ≡ g)) × (t ≡ failed link_busy))
    ⊎ ((c.role ≢ role_creator) × (c.want ≢ g) × (t ≡ failed (geometry_error c.want g)))

live_full :
    (c : Claimer) (v : View)
    → v.seen.secondary.token ≢ 0
    → let g = geometry v.seen in
      look_live (some (true, true)) c v ≡ (
        if is_creator c.role || same_geometry g c.want
        then refuse link_busy
        else refuse (geometry_error c.want g))
unfolding look_live
live_full c v z = ground arith

full_turn :
    (sb : Superblock) (c : Claimer) (v : View)
    → sb.state ≡ state_ready
    → check_layout_compat sb false ≡ true
    → sb.secondary.token ≢ 0
    → Finds sb (true, true) v
    → let g = geometry sb in
      (turn c v).1 ≡ (
        if is_creator c.role || same_geometry g c.want
        then failed link_busy
        else failed (geometry_error c.want g))
unfolding turn act enter
full_turn sb c v r k z f =
    let c' = enter sb.state c in
    let full : v.seen.secondary.token ≢ 0 =
      λ e. z (unfold Finds in sym (ap (λ t. t.secondary.token) f.1) ∙ e) in
    let here : geometry v.seen ≡ geometry sb = unfold Finds in ap geometry f.1 in
    let live = live_full c' v full in
    ap (λ l. (act l.0 l.1 v).1) (look_published sb (true, true) c v r k f)
    ∙ ap (λ l. (act l c' v).1) live
    ∙ ap
        (λ g.
          (act
            (if is_creator c.role || same_geometry g c.want
              then refuse link_busy
              else refuse (geometry_error c.want g))
            c' v).1)
        here
    ∙ elim (Bool-cases (is_creator c.role || same_geometry (geometry sb) c.want)) [
      | inl x ↦ rw x refl
      | inr x ↦ rw x refl
    ]

turn-Refuses :
    (sb : Superblock) (c : Claimer) (v : View)
    → sb.state ≡ state_ready
    → check_layout_compat sb false ≡ true
    → sb.secondary.token ≢ 0
    → Finds sb (true, true) v
    → Refuses (geometry sb) c (turn c v).1
unfolding is_creator
turn-Refuses sb c v r k z f =
    let g = geometry sb in
    let e = full_turn sb c v r k z f in
    elim (Bool-cases (is_creator c.role)) [
      | inl x ↦ inl (inl (is_creator-eq c.role x), rw (x, is_creator) at e)
      | inr x ↦ elim (Bool-cases (same_geometry g c.want)) [
        | inl y ↦ inl (inr (sym (same_geometry-eq g c.want y)), rw (x, y) at e)
        | inr y ↦ inr (
          λ h. ground (arith, ap is_creator h),
          λ h. ground (arith, ap (same_geometry g) h ∙ same_geometry_refl g),
          rw (x, y) at e,
        )
      ]
    ]

-- A segment whose initializer was not disturbed takes the next endpoint of its geometry that is no
-- creator as its secondary, with its token, where that token is not 0, and keeps its primary. It refuses
-- the endpoint after that, whatever its role, token and geometry: a creator and an endpoint of the
-- segment's geometry because the link is busy, and any other with the error that names both geometries.
-- Each turn finds the segment unchanged from its beginning to its end, and the endpoints that have
-- attached alive.
pub published_session :
    (p : Publication) (sb : Superblock) (c d : Claimer) (v w : View)
    → sb.init_token ≡ p.token
    → c.want ≡ p.shape
    → is_creator c.role ≡ false
    → c.token ≢ 0
    → Finds (run p undisturbed (checking stamp, sb)).1 (true, false) v
    → Finds (turn c v).0 (true, true) w
    → ((turn c v).1 ≡ joins)
      × ((turn c v).0.primary.token ≡ p.token)
      × ((turn c v).0.secondary.token ≡ c.token)
      × Refuses p.shape d (turn d w).1
unfolding Finds fill_endpoint geometry check_layout_compat enter
published_session p sb c d v w h g o n f f' =
    let t = (run p undisturbed (checking stamp, sb)).1 in
    let q = publish_undisturbed p sb h in
    let e = joins_ready t c v q.2 q.4 (q.5 ∙ sym g) q.7 o f in
    (
      ap (λ x. x.1) e,
      ap (λ x. x.0.primary.token) e ∙ ap (λ s. s.primary.token) f.2 ∙ q.6,
      ap (λ x. x.0.secondary.token) e,
      (let shape : geometry (turn c v).0 ≡ p.shape =
            ap (λ x. geometry x.0) e ∙ ap geometry f.2 ∙ q.5 in
          subst (λ g. Refuses g d (turn d w).1) shape
            (turn-Refuses (turn c v).0 d w (ap (λ x. x.0.state) e ∙ ap (λ s. s.state) f.2 ∙ q.2)
              (ap (λ x. check_layout_compat x.0 false) e
                ∙ ap (λ s. check_layout_compat s false) f.2
                ∙ q.4)
              (λ z. n (sym (ap (λ x. x.0.secondary.token) e) ∙ z)) f')),
    )
