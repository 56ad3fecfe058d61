-- ===== src/Advanced/Assembly/Budget.antt =====
-- The receiver's accounts: whatever frames arrive, the bytes held stay within the budget.
use hqq.Common.{
  ℕ, ◌+◌, ◌-◌, ◌^◌, ◌≤◌, ◌≡◌, refl, arith, true, some, none, List, [], ◌∷◌, length, length-append,
  Option-cases, Bool-cases, inl, inr, leb, ◌∙◌, sym, ap, ◌%◌,
}
use hqq.Advanced.Assembly.State.{
  MessageKey, Assembly, Receiver, same_key, find, insert, delete, drop_assembly, remove,
  reject_message, evict_rejected, forget_rejected, reclaim, sweep, reclaim_idle, charge,
  idle_chunks,
}

abbrev pub total : List (MessageKey × Assembly) → ℕ
total [] = 0
total ((k, a) ∷ m) = charge a + total m

same_key_refl : (k : MessageKey) → same_key k k ≡ true
unfolding same_key
same_key_refl k = ground arith

pub find-insert_self :
    (k : MessageKey) (a : Assembly) (m : List (MessageKey × Assembly))
    → find k (insert k a m) ≡ some a
unfolding find insert
find-insert_self k a [] = rw (same_key_refl k)
find-insert_self k a ((j, b) ∷ m) = ground (arith, same_key_refl k, find-insert_self k a m)

total-delete :
    (k : MessageKey) (a : Assembly) (m : List (MessageKey × Assembly))
    → find k m ≡ some a
    → total (delete k m) + charge a ≡ total m
unfolding find delete
total-delete k a [] e = cc
total-delete k a ((j, b) ∷ m) e = ground (arith, total-delete k a m)

pub total-insert_new :
    (k : MessageKey) (a : Assembly) (m : List (MessageKey × Assembly))
    → find k m ≡ none
    → total (insert k a m) ≡ total m + charge a
unfolding find insert
total-insert_new k a [] e = omega arith
total-insert_new k a ((j, b) ∷ m) e = ground (arith, total-insert_new k a m)

pub total-insert_old :
    (k : MessageKey) (a b : Assembly) (m : List (MessageKey × Assembly))
    → find k m ≡ some a
    → total (insert k b m) + charge a ≡ total m + charge b
unfolding find insert
total-insert_old k a b [] e = cc
total-insert_old k a b ((j, c) ∷ m) e = ground (arith, total-insert_old k a b m)

-- The bytes held are the charges of the assemblies and within the budget; the refused messages
-- that are remembered are bounded.
pub record IsAccounted (l : Receiver) : Type 0 where
  pub bytes : l.assembly_bytes ≡ total l.assemblies
  pub budget : l.assembly_bytes ≤ l.max_reassembly_bytes
  pub few_rejected : length l.rejected_order ≤ 1024

pub drop_assembly-IsAccounted :
    (k : MessageKey) (l : Receiver) → IsAccounted l → IsAccounted (drop_assembly k l)
unfolding drop_assembly
drop_assembly-IsAccounted k l v = elim (Option-cases (find k l.assemblies)) [
  | inl gone ↦ ground arith
  | inr (a, here) ↦ ground (arith, total-delete k a l.assemblies here)
]

length-remove : (k : MessageKey) (s : List MessageKey) → length (remove k s) ≤ length s
unfolding remove
length-remove k [] = omega arith
length-remove k (j ∷ s) = ground (arith, length-remove k s)

pub forget_rejected-IsAccounted :
    (k : MessageKey) (l : Receiver) → IsAccounted l → IsAccounted (forget_rejected k l).0
unfolding forget_rejected
forget_rejected-IsAccounted k l v = ground (arith, length-remove k l.rejected_order)

evict_rejected-few :
    (l : Receiver) (order : List MessageKey)
    → l.rejected_order ≡ order
    → length (evict_rejected l order).rejected_order ≡ length order - 1
unfolding evict_rejected
evict_rejected-few l [] e = rw e
evict_rejected-few l (k ∷ order) e = omega arith

evict_rejected-assemblies :
    (l : Receiver) (order : List MessageKey)
    → ((evict_rejected l order).assemblies ≡ l.assemblies)
      × ((evict_rejected l order).assembly_bytes ≡ l.assembly_bytes)
      × ((evict_rejected l order).max_reassembly_bytes ≡ l.max_reassembly_bytes)
unfolding evict_rejected
evict_rejected-assemblies l [] = (refl, refl, refl)
evict_rejected-assemblies l (k ∷ order) = (refl, refl, refl)

pub reject_message-IsAccounted :
    (k : MessageKey) (l : Receiver) → IsAccounted l → IsAccounted (reject_message k l)
unfolding reject_message
reject_message-IsAccounted k l v = elim (Bool-cases (leb 1024 (length l.rejected_order))) [
  | inl full ↦
      let (same, bytes, cap) = evict_rejected-assemblies l l.rejected_order in
      let few = evict_rejected-few l l.rejected_order refl in
      let l' = evict_rejected l l.rejected_order in
      rw full (record {
        bytes = bytes ∙ v.bytes ∙ sym (ap total same);
        budget = omega (arith, v.budget);
        few_rejected = rw length-append (omega (arith, v.few_rejected));
      })
  | inr room ↦ rw room (record {
    bytes = v.bytes;
    budget = v.budget;
    few_rejected = rw length-append (ground (arith, v.few_rejected));
  })
]

reclaim-IsAccounted :
    (k : MessageKey) (a : Assembly) (l : Receiver) → IsAccounted l → IsAccounted (reclaim k a l)
unfolding reclaim
reclaim-IsAccounted k a l v =
    let w = reject_message-IsAccounted k (drop_assembly k l) (drop_assembly-IsAccounted k l v) in
    record { bytes = w.bytes; budget = w.budget; few_rejected = w.few_rejected }

sweep-IsAccounted :
    (n : ℕ) (m : List (MessageKey × Assembly)) (l : Receiver)
    → IsAccounted l
    → IsAccounted (sweep n m l)
unfolding sweep
sweep-IsAccounted n [] l v = v
sweep-IsAccounted n ((k, a) ∷ rest) l v =
    elim (Bool-cases (leb l.assembly_bytes (l.max_reassembly_bytes - n))) [
      | inl done ↦ rw done v
      | inr more ↦ elim (Bool-cases (leb idle_chunks ((l.chunks + 2 ^ 64 - a.seen) % 2 ^ 64))) [
        | inl idle ↦
            rw (more, idle) (sweep-IsAccounted n rest (reclaim k a l) (reclaim-IsAccounted k a l v))
        | inr busy ↦ rw (more, busy) (sweep-IsAccounted n rest l v)
      ]
    ]

pub reclaim_idle-IsAccounted :
    (n : ℕ) (l : Receiver) → IsAccounted l → IsAccounted (reclaim_idle n l)
unfolding reclaim_idle
reclaim_idle-IsAccounted n l v =
    let l' = record l { chunks_at_sweep = l.chunks } in
    ground (
      arith,
      sweep-IsAccounted n l.assemblies l'
          (record { bytes = v.bytes; budget = v.budget; few_rejected = v.few_rejected }),
    )

-- A sweep forgets assemblies and makes none.
find-delete :
    (k j : MessageKey) (m : List (MessageKey × Assembly))
    → find k m ≡ none
    → find k (delete j m) ≡ none
unfolding find delete
find-delete k j [] e = refl
find-delete k j ((i, a) ∷ m) e = ground (arith, find-delete k j m)

find-reclaim :
    (k j : MessageKey) (a : Assembly) (l : Receiver)
    → find k l.assemblies ≡ none
    → find k (reclaim j a l).assemblies ≡ none
unfolding reclaim reject_message drop_assembly
find-reclaim k j a l e = ground (
  arith,
  find-delete k j l.assemblies e,
  evict_rejected-assemblies l l.rejected_order,
  evict_rejected-assemblies (drop_assembly j l) (drop_assembly j l).rejected_order,
)

find-sweep :
    (k : MessageKey) (n : ℕ) (m : List (MessageKey × Assembly)) (l : Receiver)
    → find k l.assemblies ≡ none
    → find k (sweep n m l).assemblies ≡ none
unfolding sweep
find-sweep k n [] l e = e
find-sweep k n ((j, a) ∷ rest) l e =
    ground
      (arith, find-sweep k n rest l e, find-sweep k n rest (reclaim j a l) (find-reclaim k j a l e))

pub find-reclaim_idle :
    (k : MessageKey) (n : ℕ) (l : Receiver)
    → find k l.assemblies ≡ none
    → find k (reclaim_idle n l).assemblies ≡ none
unfolding reclaim_idle
find-reclaim_idle k n l e =
    ground (arith, find-sweep k n l.assemblies (record l { chunks_at_sweep = l.chunks }) e)
