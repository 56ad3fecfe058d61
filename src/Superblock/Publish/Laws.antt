-- ===== src/Superblock/Publish/Laws.antt =====
-- An initializer that lost the segment, and one that nobody disturbs.
use hqq.Common.{
  ℕ, ◌+◌, ◌%◌, ◌^◌, ◌≤◌, ◌≡◌, ◌≢◌, Bool, true, false, List, [], ◌∷◌, arith, ◌∙◌, refl, replicate,
}
use hqq.Superblock.Segment.{
  Superblock, geometry, check_layout_compat, state_ready, stamp_layout, fill_endpoint,
}
use hqq.Superblock.Publish.{
  Publication, Write, stamp, sizes, reset_secondary, fill_primary, sign, Phase, checking, writing,
  swapping, counting, marking, published, contended, cancelled, Event, ours, theirs, write_step,
  after_write, session_check, publish_step, run, writes_of, writes_in,
}

-- No other endpoint makes the token of this one the initializer.
unfoldable pub IsForeign : ℕ → List Event → Type 0
IsForeign token [] = Unit
IsForeign token (ours done ∷ es) = IsForeign token es
IsForeign token (theirs f ∷ es) =
    ((sb : Superblock) → (f sb).init_token ≡ token → sb.init_token ≡ token) × IsForeign token es

-- The call is before its swap of `initToken`, or has returned an error.
unfoldable pub before_commit : Phase → Bool
before_commit (checking i) = true
before_commit (writing i) = true
before_commit swapping = true
before_commit counting = false
before_commit (marking e) = false
before_commit (published e) = false
before_commit contended = true
before_commit cancelled = true

-- How many writes a call that lost the segment still makes
abbrev left : Phase → ℕ
left (checking i) = 0
left (writing i) = 1
left swapping = 0
left counting = 0
left (marking e) = 0
left (published e) = 0
left contended = 0
left cancelled = 0

write-keeps_owner :
    (p : Publication) (w : Write) (sb : Superblock) → (write_step p w sb).init_token ≡ sb.init_token
unfolding write_step stamp_layout
write-keeps_owner p stamp sb = refl
write-keeps_owner p sizes sb = refl
write-keeps_owner p reset_secondary sb = refl
write-keeps_owner p fill_primary sb = refl
write-keeps_owner p sign sb = refl

after_write-before_commit :
    (w : Write) → (before_commit (after_write w) ≡ true) × (left (after_write w) ≡ 0)
unfolding after_write before_commit
after_write-before_commit stamp = (refl, refl)
after_write-before_commit sizes = (refl, refl)
after_write-before_commit reset_secondary = (refl, refl)
after_write-before_commit fill_primary = (refl, refl)
after_write-before_commit sign = (refl, refl)

lost_step :
    (p : Publication) (done : Bool) (ph : Phase) (sb : Superblock)
    → sb.init_token ≢ p.token
    → before_commit ph ≡ true
    → let (ph', sb') = publish_step p done ph sb in
      (sb'.init_token ≢ p.token) × (before_commit ph' ≡ true) × (writes_of ph + left ph' ≤ left ph)
unfolding publish_step session_check before_commit writes_of
lost_step p true (checking w) sb h b = (h, refl, omega arith)
lost_step p false (checking w) sb h b = ground arith
lost_step p done (writing w) sb h b =
    ground (arith, write-keeps_owner p w sb, after_write-before_commit w)
lost_step p done swapping sb h b = ground arith
lost_step p done counting sb h b = ground arith
lost_step p done (marking e) sb h b = ground arith
lost_step p done (published e) sb h b = ground arith
lost_step p done contended sb h b = ground arith
lost_step p done cancelled sb h b = ground arith

lost_run :
    (p : Publication) (es : List Event) (ph : Phase) (sb : Superblock)
    → IsForeign p.token es
    → sb.init_token ≢ p.token
    → before_commit ph ≡ true
    → (before_commit (run p es (ph, sb)).0 ≡ true) × (writes_in p es (ph, sb) ≤ left ph)
unfolding run writes_in IsForeign
lost_run p [] ph sb f h b = (b, omega arith)
lost_run p (ours done ∷ es) ph sb f h b =
    let (h', b', l) = lost_step p done ph sb h b in
    let (ph', sb') = publish_step p done ph sb in
    let (b'', l') = lost_run p es ph' sb' f h' b' in (b'', omega (arith, l, l'))
lost_run p (theirs g ∷ es) ph sb f h b = lost_run p es ph (g sb) f.1 (λ e. h (f.0 sb e)) b

left_bound : (ph : Phase) → left ph ≤ 1
left_bound (checking w) = omega arith
left_bound (writing w) = omega arith
left_bound swapping = omega arith
left_bound counting = omega arith
left_bound (marking e) = omega arith
left_bound (published e) = omega arith
left_bound contended = omega arith
left_bound cancelled = omega arith

-- An initializer that another endpoint replaced before its commit makes at most one more write, and
-- never makes the segment ready, whatever the others do but give it the initialization back.
pub replaced_publisher_stops :
    (p : Publication) (es : List Event) (ph : Phase) (sb : Superblock)
    → IsForeign p.token es
    → sb.init_token ≢ p.token
    → before_commit ph ≡ true
    → (before_commit (run p es (ph, sb)).0 ≡ true) × (writes_in p es (ph, sb) ≤ 1)
replaced_publisher_stops p es ph sb f h b =
    let (k, l) = lost_run p es ph sb f h b in (k, omega (arith, l, left_bound ph))

checked_write :
    (p : Publication) (w : Write) (es : List Event) (sb : Superblock)
    → sb.init_token ≡ p.token
    → run p (ours false ∷ ours false ∷ es) (checking w, sb)
      ≡ run p es (after_write w, write_step p w sb)
unfolding run publish_step session_check
checked_write p w es sb h = ground arith

-- The segment when its initializer has not been disturbed
abbrev all_written : Publication → Superblock → Superblock
all_written p sb = write_step p sign (
    write_step p fill_primary
      (write_step p reset_secondary (write_step p sizes (write_step p stamp sb))))

-- The steps of a call that is not disturbed: a check and a write five times, and the commit
abbrev pub undisturbed : List Event
undisturbed = replicate 13 (ours false)

commit_run :
    (p : Publication) (sb : Superblock)
    → sb.init_token ≡ p.token
    → let epoch = (sb.epoch + 1) % 2 ^ 64 in
      run p (replicate 3 (ours false)) (swapping, sb)
      ≡ (published epoch, record sb { init_token = 0; epoch = epoch; state = state_ready })
unfolding run publish_step
commit_run p sb h = ground arith

undisturbed-run :
    (p : Publication) (sb : Superblock)
    → sb.init_token ≡ p.token
    → let t = all_written p sb in
      let epoch = (t.epoch + 1) % 2 ^ 64 in
      run p undisturbed (checking stamp, sb)
      ≡ (published epoch, record t { init_token = 0; epoch = epoch; state = state_ready })
unfolding after_write write_step stamp_layout
undisturbed-run p sb h =
    checked_write p stamp (replicate 11 (ours false)) sb h
    ∙ checked_write p sizes (replicate 9 (ours false)) (write_step p stamp sb) h
    ∙ checked_write p reset_secondary (replicate 7 (ours false))
        (write_step p sizes (write_step p stamp sb)) h
    ∙ checked_write p fill_primary (replicate 5 (ours false))
        (write_step p reset_secondary (write_step p sizes (write_step p stamp sb))) h
    ∙ checked_write p sign (replicate 3 (ours false))
        (write_step p fill_primary
          (write_step p reset_secondary (write_step p sizes (write_step p stamp sb))))
        h
    ∙ commit_run p (all_written p sb) h

-- An initializer that nobody disturbs makes the segment ready, compatible, of its geometry, with a new
-- epoch, no initializer, itself as the primary and no secondary.
pub publish_undisturbed :
    (p : Publication) (sb : Superblock)
    → sb.init_token ≡ p.token
    → let (ph, sb') = run p undisturbed (checking stamp, sb) in
      (ph ≡ published sb'.epoch)
      × (sb'.epoch ≡ (sb.epoch + 1) % 2 ^ 64)
      × (sb'.state ≡ state_ready)
      × (sb'.init_token ≡ 0)
      × (check_layout_compat sb' false ≡ true)
      × (geometry sb' ≡ p.shape)
      × (sb'.primary.token ≡ p.token)
      × (sb'.secondary.token ≡ 0)
unfolding run publish_step session_check write_step after_write stamp_layout fill_endpoint geometry
    check_layout_compat
publish_undisturbed p sb h =
    rw (undisturbed-run p sb h) (refl, refl, refl, refl, refl, refl, refl, refl)
