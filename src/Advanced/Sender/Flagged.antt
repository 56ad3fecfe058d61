-- ===== src/Advanced/Sender/Flagged.antt =====
-- The flags of the frames of one message, as the receiver tests them.
use hqq.Common.{ℕ, Bool, true, false, ◌≡◌, if◌then◌else◌, bit_and, bit_or, arith, Bool-cases, refl}
use hqq.Advanced.Flags.{
  has, and_not, flags_malformed, flag_begin, flag_end, flag_abort, flag_request, flag_response,
  feature_metadata,
}

-- The base flags with which messages are sent: data, a request, a response, an error response, and a
-- request with metadata, which only a link that negotiated metadata sends.
pub data IsBase (negotiated base : ℕ) : Type 0 where
  is_data : base ≡ 0 → IsBase negotiated base
  is_request : base ≡ 8 → IsBase negotiated base
  is_response : base ≡ 16 → IsBase negotiated base
  is_error : base ≡ 48 → IsBase negotiated base
  is_meta : base ≡ 72 → has negotiated feature_metadata ≡ true → IsBase negotiated base

-- The flags of a frame that begins or ends its message, or neither, or both.
abbrev pub flags_of : ℕ → Bool → Bool → ℕ
flags_of base first last =
    let flags = if first then bit_or base flag_begin else base in
    if last then bit_or flags flag_end else flags

-- What the receiver finds in them.
pub record Tested (negotiated base : ℕ) (first last : Bool) : Type 0 where
  pub formed : flags_malformed negotiated (flags_of base first last) ≡ false
  pub no_abort : has (flags_of base first last) flag_abort ≡ false
  pub begins : has (flags_of base first last) flag_begin ≡ first
  pub ends : has (flags_of base first last) flag_end ≡ last
  pub kind :
      bit_and (flags_of base first last) (bit_or flag_request flag_response)
      ≡ bit_and base (bit_or flag_request flag_response)
  pub cleared : and_not (flags_of base first last) (bit_or flag_begin flag_end) ≡ base

-- At one of the values of the base flags, where everything computes.
abbrev TestedAt : ℕ → Type 0
TestedAt base = (negotiated : ℕ) (first last : Bool) → Tested negotiated base first last

data_tested : TestedAt 0
unfolding has and_not flags_malformed
data_tested negotiated true true = ground (arith, Bool-cases (has negotiated feature_metadata))
data_tested negotiated true false = ground (arith, Bool-cases (has negotiated feature_metadata))
data_tested negotiated false true = ground (arith, Bool-cases (has negotiated feature_metadata))
data_tested negotiated false false = ground (arith, Bool-cases (has negotiated feature_metadata))

request_tested : TestedAt 8
unfolding has and_not flags_malformed
request_tested negotiated true true = ground (arith, Bool-cases (has negotiated feature_metadata))
request_tested negotiated true false = ground (arith, Bool-cases (has negotiated feature_metadata))
request_tested negotiated false true = ground (arith, Bool-cases (has negotiated feature_metadata))
request_tested negotiated false false = ground (arith, Bool-cases (has negotiated feature_metadata))

response_tested : TestedAt 16
unfolding has and_not flags_malformed
response_tested negotiated true true = ground (arith, Bool-cases (has negotiated feature_metadata))
response_tested negotiated true false = ground (arith, Bool-cases (has negotiated feature_metadata))
response_tested negotiated false true = ground (arith, Bool-cases (has negotiated feature_metadata))
response_tested negotiated false false =
    ground (arith, Bool-cases (has negotiated feature_metadata))

error_tested : TestedAt 48
unfolding has and_not flags_malformed
error_tested negotiated true true = ground (arith, Bool-cases (has negotiated feature_metadata))
error_tested negotiated true false = ground (arith, Bool-cases (has negotiated feature_metadata))
error_tested negotiated false true = ground (arith, Bool-cases (has negotiated feature_metadata))
error_tested negotiated false false = ground (arith, Bool-cases (has negotiated feature_metadata))

meta-Tested :
    (negotiated : ℕ) (first last : Bool)
    → has negotiated feature_metadata ≡ true
    → Tested negotiated 72 first last
unfolding has and_not flags_malformed
meta-Tested negotiated true true h = ground (arith, h)
meta-Tested negotiated true false h = ground (arith, h)
meta-Tested negotiated false true h = ground (arith, h)
meta-Tested negotiated false false h = ground (arith, h)

pub IsBase-Tested :
    (negotiated base : ℕ) (first last : Bool)
    → IsBase negotiated base
    → Tested negotiated base first last
IsBase-Tested negotiated base first last (is_data e) = rw e (data_tested negotiated first last)
IsBase-Tested negotiated base first last (is_request e) =
    rw e (request_tested negotiated first last)
IsBase-Tested negotiated base first last (is_response e) =
    rw e (response_tested negotiated first last)
IsBase-Tested negotiated base first last (is_error e) = rw e (error_tested negotiated first last)
IsBase-Tested negotiated base first last (is_meta e h) = rw e (meta-Tested negotiated first last h)

-- However the two flags are added, they are the same.
pub whole_flags :
    (negotiated base : ℕ)
    → IsBase negotiated base
    → (bit_or (bit_or base flag_begin) flag_end ≡ bit_or base (bit_or flag_begin flag_end))
      × (bit_or (bit_or flag_begin flag_end) base ≡ bit_or base (bit_or flag_begin flag_end))
whole_flags negotiated base (is_data e) = rw e (refl, refl)
whole_flags negotiated base (is_request e) = rw e (refl, refl)
whole_flags negotiated base (is_response e) = rw e (refl, refl)
whole_flags negotiated base (is_error e) = rw e (refl, refl)
whole_flags negotiated base (is_meta e h) = rw e (refl, refl)
