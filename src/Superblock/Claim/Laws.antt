-- ===== src/Superblock/Claim/Laws.antt =====
-- What an endpoint may become and what it may write to a segment.
use hqq.Common.{
  ℕ, ◌≡◌, inl, inr, ◌⊎◌, Bool, true, false, Option, none, some, List, [], ◌∷◌, arith, refl,
}
use hqq.Superblock.Segment.{Superblock, first_page_zero, check_layout_compat}
use hqq.Superblock.Claim.{
  AttachRole, Claimer, View, Plan, refuse, again, wait, claim_empty, take_over, reclaim, join, Turn,
  failed, initializes, joins, turns_on, Claimed, refused, as_primary, as_secondary, is_opener,
  is_creator, enter, look, look_empty, look_watch, look_initializing, look_live, look_ready,
  watched, begin_fresh, act, poll, turn, settle, claim_superblock,
}

-- What a plan asks of the endpoint that makes it
abbrev Allowed : AttachRole → View → Plan → Type 0
Allowed role v (refuse e) = Unit
Allowed role v again = Unit
Allowed role v (wait stalling empty_wait) = Unit
Allowed role v claim_empty = (is_opener role ≡ false) × (first_page_zero v.seen ≡ true)
Allowed role v (take_over tok) =
    (is_opener role ≡ false) × (check_layout_compat v.seen true ≡ true) × (v.seen.init_token ≡ tok)
Allowed role v reclaim =
    (is_opener role ≡ false)
    × (check_layout_compat v.seen false ≡ true)
    × (v.alive ≡ some (false, false))
Allowed role v join =
    (is_creator role ≡ false)
    × (check_layout_compat v.seen false ≡ true)
    × (v.seen.secondary.token ≡ 0)

look_empty-Allowed :
    (c : Claimer) (v : View)
    → Allowed c.role v (look_empty c v).0 × ((look_empty c v).1.role ≡ c.role)
unfolding look_empty
look_empty-Allowed c v = ground arith

look_watch-Allowed :
    (o : Option ℕ) (c : Claimer) (v : View)
    → is_opener c.role ≡ false
    → check_layout_compat v.seen true ≡ true
    → Allowed c.role v (look_watch o c v).0 × ((look_watch o c v).1.role ≡ c.role)
unfolding look_watch
look_watch-Allowed none c v h k = ground arith
look_watch-Allowed (some since) c v h k = ground arith

look_initializing-Allowed :
    (c : Claimer) (v : View)
    → Allowed c.role v (look_initializing c v).0 × ((look_initializing c v).1.role ≡ c.role)
unfolding look_initializing
look_initializing-Allowed c v =
    ground (arith, look_watch-Allowed (watched c.watch v.seen.init_token v.seen.init_heartbeat) c v)

look_live-Allowed :
    (alive : Option (Bool × Bool)) (c : Claimer) (v : View)
    → v.alive ≡ alive
    → check_layout_compat v.seen false ≡ true
    → Allowed c.role v (look_live alive c v)
unfolding look_live
look_live-Allowed none c v e h = tt
look_live-Allowed (some (true, s)) c v e h = ground arith
look_live-Allowed (some (false, true)) c v e h = ground arith
look_live-Allowed (some (false, false)) c v e h = ground arith

look_ready-Allowed : (c : Claimer) (v : View) → Allowed c.role v (look_ready c v)
unfolding look_ready
look_ready-Allowed c v = ground (arith, look_live-Allowed v.alive c v refl)

look-Allowed :
    (c : Claimer) (v : View) → Allowed c.role v (look c v).0 × ((look c v).1.role ≡ c.role)
unfolding look
look-Allowed c v =
    let c' = enter v.loaded.state c in
    let e : c'.role ≡ c.role = unfold enter in refl in
    ground (arith, look_empty-Allowed c' v, look_initializing-Allowed c' v, look_ready-Allowed c' v)

-- What a result says of the endpoint that has it
abbrev Fits : AttachRole → Turn → Type 0
Fits role (failed e) = Unit
Fits role initializes = is_opener role ≡ false
Fits role joins = is_creator role ≡ false
Fits role (turns_on c') = c'.role ≡ role

act-Fits :
    (p : Plan) (c : Claimer) (v : View) (role : AttachRole)
    → c.role ≡ role
    → Allowed role v p
    → Fits role (act p c v).1
unfolding act poll begin_fresh
act-Fits (refuse x) c v role e h = tt
act-Fits again c v role e h = e
act-Fits (wait s w) c v role e h = ground arith
act-Fits claim_empty c v role e h = ground arith
act-Fits (take_over tok) c v role e h = ground arith
act-Fits reclaim c v role e h = ground arith
act-Fits join c v role e h = ground arith

turn-Fits : (c : Claimer) (v : View) → Fits c.role (turn c v).1
unfolding turn
turn-Fits c v =
    let (plan, c') = look c v in let h = look-Allowed c v in act-Fits plan c' v c.role h.1 h.0

-- Which result an endpoint of a role may have
pub MayEnd : AttachRole → Claimed → Type 0
MayEnd role (refused e) = Unit
MayEnd role as_primary = is_opener role ≡ false
MayEnd role as_secondary = is_creator role ≡ false

settle-MayEnd :
    (role : AttachRole) (k : Claimer → Option Claimed) (r : Claimed)
    → ((c : Claimer) → c.role ≡ role → k c ≡ some r → MayEnd role r)
    → (t : Turn) → Fits role t
    → settle k t ≡ some r
    → MayEnd role r
unfolding settle MayEnd
settle-MayEnd role k r h (failed x) f e = ground arith
settle-MayEnd role k r h initializes f e = ground arith
settle-MayEnd role k r h joins f e = ground arith
settle-MayEnd role k r h (turns_on c) f e = h c f e

-- However the segment changes while it waits, an opener never ends as the primary of a segment, and a
-- creator never as the secondary.
pub claim_superblock-MayEnd :
    (c : Claimer) (vs : List View) (r : Claimed) → claim_superblock c vs ≡ some r → MayEnd c.role r
unfolding claim_superblock MayEnd
claim_superblock-MayEnd c [] r e = ground arith
claim_superblock-MayEnd c (v ∷ vs) r e =
    settle-MayEnd c.role (λ c'. claim_superblock c' vs) r
      (λ c' h e'. rw⁻¹ h (claim_superblock-MayEnd c' vs r e')) (turn c v).1 (turn-Fits c v) e

compat_ready :
    (sb : Superblock) → check_layout_compat sb false ≡ true → check_layout_compat sb true ≡ true
unfolding check_layout_compat
compat_ready sb h = ground arith

act_foreign :
    (p : Plan) (c : Claimer) (v : View) (role : AttachRole)
    → Allowed role v p
    → ((act p c v).0 ≡ v.swapped)
      ⊎ ((first_page_zero v.seen ≡ true) ⊎ (check_layout_compat v.seen true ≡ true))
unfolding act
act_foreign (refuse e) c v role h = inl refl
act_foreign again c v role h = inl refl
act_foreign (wait stalling empty_wait) c v role h = inl refl
act_foreign claim_empty c v role h = inr (inl h.1)
act_foreign (take_over tok) c v role h = inr (inr h.1)
act_foreign reclaim c v role h = inr (inr (compat_ready v.seen h.1))
act_foreign join c v role h = inr (inr (compat_ready v.seen h.1))

-- A turn leaves the segment as it is, unless the page that it has read is zero or passes the layout
-- check.
pub turn_foreign :
    (c : Claimer) (v : View)
    → ((turn c v).0 ≡ v.swapped)
      ⊎ ((first_page_zero v.seen ≡ true) ⊎ (check_layout_compat v.seen true ≡ true))
unfolding turn
turn_foreign c v = let h = look-Allowed c v in act_foreign (look c v).0 (look c v).1 v c.role h.0
