-- ===== src/Advanced/Assembly/State.antt =====
-- The receiver's state: assemblies, their budget, and the refused messages.
use hqq.Common.{
  ℕ, ◌+◌, ◌-◌, ◌%◌, ◌^◌, Bool, true, false, not, ◌&&◌, ◌||◌, Option, some, none, List, [], ◌∷◌,
  ◌++◌, ltb, leb, ◌==◌, if◌then◌else◌, length, max, bit_or,
}
use hqq.Advanced.Flags.{AdvHeader, is_request, is_response, flag_abort}

-- `advancedMessageKey`
pub record MessageKey : Type 0 where
  pub connection_id : ℕ
  pub message_id : ℕ
  pub kind : ℕ

unfoldable pub same_key : MessageKey → MessageKey → Bool
same_key a b =
    a.connection_id == b.connection_id && a.message_id == b.message_id && a.kind == b.kind

-- `advancedAssembly`, with the first `size` bytes of its pooled buffer. The arrival time, which
-- only requests with metadata use, is not modelled.
pub record Assembly : Type 0 where
  pub hdr : AdvHeader
  pub buffer : List ℕ
  pub size : ℕ
  pub next : ℕ
  pub seen : ℕ

abbrev pub assembly_overhead : ℕ
assembly_overhead = 256

abbrev pub idle_chunks : ℕ
idle_chunks = 2 ^ 16

abbrev pub max_rejected : ℕ
max_rejected = 1024

unfoldable pub charge : Assembly → ℕ
charge a = a.size + assembly_overhead

-- The fields of `AdvancedLink` that the receive path owns. `assemblies` is the map, in the order in
-- which a `range` over it would go; `rejected` is the set and `rejected_order` the queue beside it.
pub record Receiver : Type 0 where
  pub negotiated : ℕ
  pub max_message_size : ℕ
  pub max_reassembly_bytes : ℕ
  pub assemblies : List (MessageKey × Assembly)
  pub assembly_bytes : ℕ
  pub chunks : ℕ
  pub chunks_at_sweep : ℕ
  pub rejected : List MessageKey
  pub rejected_order : List MessageKey
  pub rejected_evicted : Bool
  pub dropped_messages : ℕ
  pub reclaimed : List AdvHeader

module _ {ℓ} {V : Type ℓ} where
  unfoldable pub find : MessageKey → List (MessageKey × V) → Option V
  find k [] = none
  find k ((j, v) ∷ m) = if same_key j k then some v else find k m

  -- `delete(m, k)`: at most one entry goes.
  unfoldable pub delete : MessageKey → List (MessageKey × V) → List (MessageKey × V)
  delete k [] = []
  delete k ((j, v) ∷ m) = if same_key j k then m else (j, v) ∷ delete k m

  -- `m[k] = v`
  unfoldable pub insert : MessageKey → V → List (MessageKey × V) → List (MessageKey × V)
  insert k v [] = (k, v) ∷ []
  insert k v ((j, w) ∷ m) = if same_key j k then (k, v) ∷ m else (j, w) ∷ insert k v m

unfoldable pub contains : MessageKey → List MessageKey → Bool
contains k [] = false
contains k (j ∷ s) = same_key j k || contains k s

-- Removes the first `k`.
unfoldable pub remove : MessageKey → List MessageKey → List MessageKey
remove k [] = []
remove k (j ∷ s) = if same_key j k then s else j ∷ remove k s

unfoldable pub add_key : MessageKey → List MessageKey → List MessageKey
add_key k s = if contains k s then s else k ∷ s

-- `assemblies[k] != nil`
unfoldable pub assembled : MessageKey → Receiver → Bool
assembled k l = elim (find k l.assemblies) [ none ↦ false | some a ↦ true ]

-- `dropAssembly`
unfoldable pub drop_assembly : MessageKey → Receiver → Receiver
drop_assembly k l = elim (find k l.assemblies) [
  | none ↦ l
  | some a ↦ record l {
    assembly_bytes = l.assembly_bytes - charge a;
    assemblies = delete k l.assemblies;
  }
]

-- `isRejected`
unfoldable pub is_rejected : MessageKey → Receiver → Bool
is_rejected k l = contains k l.rejected

-- The eviction in `rejectMessage`.
unfoldable pub evict_rejected : Receiver → List MessageKey → Receiver
evict_rejected l [] = l
evict_rejected l (oldest ∷ order) = record l {
  rejected = remove oldest l.rejected;
  rejected_order = order;
  rejected_evicted = true;
}

-- `rejectMessage`
unfoldable pub reject_message : MessageKey → Receiver → Receiver
unfolding evict_rejected
reject_message k l =
    let l' =
      if leb max_rejected (length l.rejected_order) then evict_rejected l l.rejected_order else l in
    record l' { rejected = add_key k l'.rejected; rejected_order = l'.rejected_order ++ (k ∷ []) }

-- `forgetRejected`, and whether the key was refused
unfoldable pub forget_rejected : MessageKey → Receiver → Receiver × Bool
forget_rejected k l = if not (is_rejected k l) then (l, false) else (
  record l { rejected = remove k l.rejected; rejected_order = remove k l.rejected_order },
  true,
)

-- `reclaim`
unfoldable pub reclaim : MessageKey → Assembly → Receiver → Receiver
reclaim k a l =
    let hdr = record a.hdr { flags = bit_or a.hdr.flags flag_abort } in
    let l' = reject_message k (drop_assembly k l) in
    record l' {
      dropped_messages = l'.dropped_messages + 1;
      reclaimed =
          if is_request hdr || is_response hdr then l'.reclaimed ++ (hdr ∷ []) else l'.reclaimed;
    }

-- `charge` bytes more are within the budget. The subtraction is made only where it cannot wrap.
unfoldable pub fits : ℕ → Receiver → Bool
fits bytes l =
    leb bytes l.max_reassembly_bytes && leb l.assembly_bytes (l.max_reassembly_bytes - bytes)

-- The sweep of `reclaimIdle` over the assemblies that were there when it began.
unfoldable pub sweep : ℕ → List (MessageKey × Assembly) → Receiver → Receiver
sweep bytes [] l = l
sweep bytes ((k, a) ∷ rest) l =
    if leb l.assembly_bytes (l.max_reassembly_bytes - bytes)
    then l
    else sweep bytes rest
        (if leb idle_chunks ((l.chunks + 2 ^ 64 - a.seen) % 2 ^ 64) then reclaim k a l else l)

-- `reclaimIdle`
unfoldable pub reclaim_idle : ℕ → Receiver → Receiver
reclaim_idle bytes l =
    if not (leb bytes l.max_reassembly_bytes) || fits bytes l
    then l
    else if ltb ((l.chunks + 2 ^ 64 - l.chunks_at_sweep) % 2 ^ 64)
        (max idle_chunks (length l.assemblies))
    then l
    else sweep bytes l.assemblies (record l { chunks_at_sweep = l.chunks })
