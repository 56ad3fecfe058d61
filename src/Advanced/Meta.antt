-- ===== src/Advanced/Meta.antt =====
-- The metadata block of a request (advanced_request.go).
pub mod RoundTrip
mod Tests
use hqq.Common.{
  ℕ, zero, suc, ◌+◌, ◌-◌, ◌^◌, Bool, true, false, not, ◌||◌, Option, some, none, List, [], ◌∷◌,
  ◌++◌, ltb, ◌/◌, ◌%◌, ◌&&◌, ◌==◌, if◌then◌else◌, length, take, drop, min, replicate,
}
use hqq.Common.Bytes.{read_le}

abbrev pub meta_header_size : ℕ
meta_header_size = 2

abbrev pub tag_budget : ℕ
tag_budget = 1

abbrev pub tag_caller : ℕ
tag_caller = 2

abbrev pub tag_trace : ℕ
tag_trace = 3

-- `msgMeta`, less the arrival time; `present` is that there is one.
pub record MsgMeta : Type 0 where
  pub has_budget : Bool
  pub budget : ℕ
  pub caller : ℕ
  pub trace : List ℕ

abbrev pub empty_meta : MsgMeta
empty_meta = record { has_budget = false; budget = 0; caller = 0; trace = replicate 16 0 }

-- The switch on the tag; an unknown tag is passed over.
unfoldable pub apply_tag : ℕ → List ℕ → MsgMeta → Option MsgMeta
apply_tag tag value meta =
    if tag == tag_budget
    then (if not (length value == 8)
        then none
        else some
            (record meta { has_budget = true; budget = min (read_le 8 value 0) (2 ^ 63 - 1) }))
    else if tag == tag_caller
    then (if not (length value == 8)
        then none
        else some (record meta { caller = read_le 8 value 0 }))
    else if tag == tag_trace
    then (if not (length value == 16) then none else some (record meta { trace = value }))
    else some meta

-- The loop over the tags. A round takes two bytes at least, so `length tlv` rounds are enough.
unfoldable pub parse_tags : ℕ → List ℕ → MsgMeta → Option MsgMeta
parse_tags fuel [] meta = some meta
parse_tags zero (b ∷ bs) meta = none
parse_tags (suc fuel) (b ∷ []) meta = none
parse_tags (suc fuel) (tag ∷ n ∷ rest) meta =
    if ltb (length rest) n then none else elim (apply_tag tag (take n rest) meta) [
      | none ↦ none
      | some meta' ↦ parse_tags fuel (drop n rest) meta'
    ]

-- `parseMeta`: the metadata and the size of its block; `none` is `ErrProtocol`.
unfoldable pub parse_meta : List ℕ → Option (MsgMeta × ℕ)
unfolding parse_tags apply_tag
parse_meta bytes =
    let size = meta_header_size + read_le 2 bytes 0 in
    if ltb (length bytes) meta_header_size || ltb (length bytes) size
    then none
    else elim (parse_tags size (drop meta_header_size (take size bytes)) empty_meta) [
      | none ↦ none
      | some meta ↦ some (meta, size)
    ]

-- `PutUint16` and `PutUint64` into zeroed bytes
unfoldable pub le_bytes : ℕ → ℕ → List ℕ
le_bytes zero v = []
le_bytes (suc k) v = v % 256 ∷ le_bytes k (v / 256)

abbrev pub all_zero : List ℕ → Bool
all_zero [] = true
all_zero (b ∷ bs) = b == 0 && all_zero bs

abbrev pub budget_entry : ℕ → List ℕ
budget_entry budget = if ltb 0 budget then tag_budget ∷ 8 ∷ le_bytes 8 budget else []

abbrev pub caller_entry : ℕ → List ℕ
caller_entry caller = if caller == 0 then [] else tag_caller ∷ 8 ∷ le_bytes 8 caller

abbrev pub trace_entry : List ℕ → List ℕ
trace_entry trace = if all_zero trace then [] else tag_trace ∷ 16 ∷ trace

-- `putMeta`: the entries are written one behind the other, and their size in front; `none` is nil. A
-- budget that is not positive is 0.
unfoldable pub put_meta : ℕ → ℕ → List ℕ → Option (List ℕ)
put_meta budget caller trace =
    let entries = budget_entry budget ++ (caller_entry caller ++ trace_entry trace) in
    if length entries == 0 then none else some (le_bytes 2 (length entries % 65536) ++ entries)
