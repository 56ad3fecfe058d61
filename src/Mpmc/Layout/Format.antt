-- ===== src/Mpmc/Layout/Format.antt =====
-- What `Format` and `FormatGuarded` leave in memory, and what `Attach` makes of it.
use hqq.Common.{
  ℕ, zero, suc, ◌+◌, ◌-◌, ◌≤◌, ◌<◌, ◌≡◌, ◌⊎◌, refl, true, lt→ltb, ge→ltb, arith, inl, inr,
  Option-cases, some, none, dec_lt, ltb, if◌then◌else◌, ◌∙◌,
}
use hqq.Mpmc.Layout.{
  mpmc_magic, mpmc_init, layout_version, Memory, write_slot, format_slots, clear_header,
  complete_header, format_guarded, stopped, formatted, attach_once, attached, Check, no_check,
  valid_ring_size, slice_check, slice_due,
}

module _ {ℓ} {A : Type ℓ} (zero_value : A) {E : Type 0} where
  format_slots_stop :
      (check : Check E) (calls left i : ℕ) (mem : Memory A) {e : E}
      → slice_check check calls i ≡ some e
      → format_slots zero_value check calls (suc left) i mem ≡ (some e, calls + 1, mem)
  unfolding format_slots
  format_slots_stop check calls left i mem stop = rw (stop, format_slots)

  format_slots_pass :
      (check : Check E) (calls left i : ℕ) (mem : Memory A)
      → slice_check check calls i ≡ none
      → format_slots zero_value check calls (suc left) i mem
        ≡ format_slots zero_value check
            (if slice_due i then calls + 1 else calls)
            left
            (i + 1)
            (write_slot zero_value i mem)
  unfolding format_slots
  format_slots_pass check calls left i mem pass = rw (pass, format_slots)

  -- The loop leaves the header alone, and writes no slot below `i` or from `i + left` on.
  format_slots-outside :
      (check : Check E) (calls left i : ℕ) (mem : Memory A)
      → let mem' = (format_slots zero_value check calls left i mem).2 in
        (mem'.head ≡ mem.head) × ((j : ℕ) → (j < i) ⊎ (i + left ≤ j) → mem'.slots j ≡ mem.slots j)
  format_slots-outside check calls zero i mem = unfold format_slots in (refl, λ j o. refl)
  format_slots-outside check calls (suc left) i mem =
      elim (Option-cases (slice_check check calls i)) [
        | inr (e, stop) ↦ rw (format_slots_stop check calls left i mem stop) (refl, λ j o. refl)
        | inl pass ↦
            let ih =
              format_slots-outside check (if slice_due i then calls + 1 else calls) left (i + 1)
                (write_slot zero_value i mem) in
            rw (format_slots_pass check calls left i mem pass) (ih.0, λ j o. ground (arith, ih.1 j))
      ]

  -- Without an error of `check` all slots from `i` on are free for the position of their index.
  format_slots-filled :
      (check : Check E) (calls left i : ℕ) (mem : Memory A)
      → (format_slots zero_value check calls left i mem).0 ≡ none
      → (j : ℕ) → i ≤ j
      → j < i + left
      → (format_slots zero_value check calls left i mem).2.slots j
        ≡ record { seq = j; payload = zero_value }
  format_slots-filled check calls zero i mem e j lo hi = absurd (omega arith)
  format_slots-filled check calls (suc left) i mem e j lo hi =
      elim (Option-cases (slice_check check calls i)) [
        | inr (x, stop) ↦ absurd (ground (arith, format_slots_stop check calls left i mem stop))
        | inl pass ↦
            let calls' : ℕ = if slice_due i then calls + 1 else calls in
            let mem' = write_slot zero_value i mem in
            let step = format_slots_pass check calls left i mem pass in
            rw step (elim (dec_lt i j) [
              | yes above ↦
                  format_slots-filled check calls' left (i + 1) mem' (rw step at e) j (omega arith)
                    (omega arith)
              | no this ↦
                  (format_slots-outside check calls' left (i + 1) mem').1 j (inl (omega arith))
                  ∙ ground arith
            ])
      ]

  format_slots-unchecked :
      (calls left i : ℕ) (mem : Memory A)
      → (format_slots zero_value (no_check E) calls left i mem).0 ≡ none
  unfolding format_slots slice_check
  format_slots-unchecked calls zero i mem = refl
  format_slots-unchecked calls (suc left) i mem = ground (
    arith,
    format_slots-unchecked (if slice_due i then calls + 1 else calls) left (i + 1)
        (write_slot zero_value i mem),
  )

  -- `FormatGuarded` writes only if the size is a power of two of at least 2, and panics otherwise.
  -- If it returns no error, the header has the magic, the size, the initialized flag, the stride and
  -- the version, both cursors, both events and both counts of waiters are 0, each of the `size` slots
  -- is free for the position of its index and holds the zero value, and no memory behind the slots
  -- has changed.
  pub format_guarded-formatted :
      (st size : ℕ) (check : Check E) (mem mem' : Memory A) (j : ℕ)
      → format_guarded zero_value st size check mem ≡ formatted mem'
      → (valid_ring_size size ≡ true)
        × (mem'.head ≡ record {
          magic = mpmc_magic;
          size = size;
          flag = mpmc_init;
          stride = st;
          version = layout_version;
          r = 0;
          w = 0;
          not_empty = 0;
          empty_waiters = 0;
          not_full = 0;
          full_waiters = 0;
        })
        × (mem'.slots j
            ≡ (if ltb j size then record { seq = j; payload = zero_value } else mem.slots j))
  unfolding format_guarded
  format_guarded-formatted st size check mem mem' j e = (
    ground arith,
    ground (arith, format_slots-outside check 1 size 0 (clear_header mem)),
    elim (dec_lt j size) [
      | yes lt ↦ rw (lt→ltb j size lt) (
          ground (
            arith,
            format_slots-filled check 1 size 0 (clear_header mem) (ground arith) j (omega arith)
                (omega arith),
          ))
      | no ge ↦ rw (ge→ltb j size (omega arith)) (
          ground (
            arith,
            (format_slots-outside check 1 size 0 (clear_header mem)).1 j (inr (omega arith)),
          ))
    ],
  )

  -- After an error of `check` the ring has no magic and is not initialized, unless the error came
  -- before the first write, and then the memory is untouched. Slots behind the ring never change.
  pub format_guarded-stopped :
      (st size : ℕ) (check : Check E) (mem mem' : Memory A) (e : E) (j : ℕ)
      → size ≤ j
      → format_guarded zero_value st size check mem ≡ stopped e mem'
      → ((mem' ≡ mem) ⊎ ((mem'.head.magic ≡ 0) × (mem'.head.flag ≡ 0)))
        × (mem'.slots j ≡ mem.slots j)
  unfolding format_guarded
  format_guarded-stopped st size check mem mem' x j ge e = (
    ground (arith, (format_slots-outside check 1 size 0 (clear_header mem)).0),
    ground
        (arith, (format_slots-outside check 1 size 0 (clear_header mem)).1 j (inr (omega arith))),
  )

  -- `Format`, which passes no check: for an accepted size it completes, and a round of `Attach`
  -- with the same stride then returns a handle to a ring of that size.
  pub attach-format :
      (st size : ℕ) (mem : Memory A)
      → valid_ring_size size ≡ true
      → (mem' : Memory A) × (format_guarded zero_value st size (no_check E) mem ≡ formatted mem')
        × (attach_once st mem'.head
            ≡ attached (record { mask = size - 1; size = size; stride = st }))
  unfolding format_guarded attach_once
  attach-format st size mem valid = (
    complete_header st size (format_slots zero_value (no_check E) 1 size 0 (clear_header mem)).2,
    ground (arith, format_slots-unchecked 1 size 0 (clear_header mem)),
    ground arith,
  )
