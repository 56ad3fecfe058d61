-- ===== src/Advanced/Flags.antt =====
-- Frame flags (advanced.go) and message headers (message.go).
use hqq.Common.{ℕ, ◌-◌, Bool, not, ◌||◌, ◌&&◌, bit_and, bit_or, ◌==◌, if◌then◌else◌}

abbrev pub flag_begin : ℕ
flag_begin = 1

abbrev pub flag_end : ℕ
flag_end = 2

abbrev pub flag_abort : ℕ
flag_abort = 4

abbrev pub flag_request : ℕ
flag_request = 8

abbrev pub flag_response : ℕ
flag_response = 16

abbrev pub flag_error : ℕ
flag_error = 32

abbrev pub flag_meta : ℕ
flag_meta = 64

-- `advancedKnownFlags`
abbrev pub known_flags : ℕ
known_flags = 63

abbrev pub feature_metadata : ℕ
feature_metadata = 8

-- `flags & bit != 0`
unfoldable pub has : ℕ → ℕ → Bool
has flags bit = not (bit_and flags bit == 0)

-- `a &^ b`
unfoldable pub and_not : ℕ → ℕ → ℕ
and_not a b = a - bit_and a b

-- The first test of `consumeAdvancedChunk`: an unknown flag, or a combination that means nothing.
unfoldable pub flags_malformed : ℕ → ℕ → Bool
unfolding has and_not
flags_malformed negotiated flags =
    let known =
      if has negotiated feature_metadata then bit_or known_flags flag_meta else known_flags in
    not (and_not flags known == 0)
    || has flags flag_request && has flags flag_response
    || has flags flag_error && not (has flags flag_response)
    || has flags flag_meta && not (has flags flag_request)

-- `advHeader`
pub record AdvHeader : Type 0 where
  pub stream_id : ℕ
  pub message_id : ℕ
  pub flags : ℕ
  pub aux : ℕ

unfoldable pub is_request : AdvHeader → Bool
is_request h = has h.flags flag_request

unfoldable pub is_response : AdvHeader → Bool
is_response h = has h.flags flag_response
