-- ===== src/Advanced/Meta/RoundTrip.antt =====
-- What `putMeta` writes, `parseMeta` reads (advanced_request.go).
use hqq.Common.{
  ℕ, zero, suc, ◌+◌, ◌-◌, ◌/◌, ◌%◌, ◌^◌, ◌≤◌, ◌<◌, ◌≡◌, Bool, true, false, ◌||◌, Option, some, none,
  List, [], ◌∷◌, ◌++◌, ltb, ◌==◌, if◌then◌else◌, length, take, drop, min, replicate, get_or, arith,
  refl, sym, ap, ◌∙◌, length-append, append-nil, append_assoc, Bool-cases, inl, inr,
}
use native.Mathlib.Nat.{pow-suc}
use hqq.Common.Bytes.{read_le}
use hqq.Common.Slices.{take_left}
use hqq.Advanced.Meta.{
  tag_budget, tag_caller, tag_trace, MsgMeta, empty_meta, apply_tag, parse_tags, parse_meta,
  le_bytes, all_zero, budget_entry, caller_entry, trace_entry, put_meta,
}

length-le_bytes : (k v : ℕ) → length (le_bytes k v) ≡ k
unfolding le_bytes
length-le_bytes zero v = refl
length-le_bytes (suc k) v = ap suc (length-le_bytes k (v / 256))

read_le-shift : (k b : ℕ) (bs : List ℕ) (off : ℕ) → read_le k (b ∷ bs) (off + 1) ≡ read_le k bs off
unfolding read_le
read_le-shift zero b bs off = refl
read_le-shift (suc k) b bs off =
    let head : get_or (b ∷ bs) (off + 1) 0 ≡ get_or bs off 0 =
      ap (λ i. get_or (b ∷ bs) i 0) (let e : off + 1 ≡ suc off = omega arith in e) in
    omega (arith, head, read_le-shift k b bs (off + 1))

read_le-le_bytes : (k v : ℕ) (rest : List ℕ) → v < 256 ^ k → read_le k (le_bytes k v ++ rest) 0 ≡ v
unfolding read_le le_bytes
read_le-le_bytes zero v rest h = omega arith
read_le-le_bytes (suc k) v rest h =
    let below : v / 256 < 256 ^ k = omega (arith, pow-suc 256 k) in
    omega (
      arith,
      read_le-shift k (v % 256) (le_bytes k (v / 256) ++ rest) 0,
      read_le-le_bytes k (v / 256) rest below,
    )

-- A round of the loop.
entry-parses :
    (fuel tag n : ℕ) (value rest : List ℕ) (meta meta' : MsgMeta) (r : Option MsgMeta)
    → length value ≡ n
    → apply_tag tag value meta ≡ some meta'
    → parse_tags fuel rest meta' ≡ r
    → parse_tags (suc fuel) (tag ∷ n ∷ (value ++ rest)) meta ≡ r
unfolding parse_tags
entry-parses fuel tag n value rest meta meta' r h e x =
    let t : take n (value ++ rest) ≡ value = take_left n value rest h in
    let d : drop n (value ++ rest) ≡ rest =
      ap (λ k. drop k (value ++ rest)) (sym h) ∙ drop_left value rest in
    let enough : ltb (length (value ++ rest)) n ≡ false =
      ground (arith, length-append value rest) in
    rw (enough, t, e, d) x
  where
    drop_left : (xs ys : List ℕ) → drop (length xs) (xs ++ ys) ≡ ys
    drop_left [] ys = refl
    drop_left (x ∷ xs) ys = drop_left xs ys

word_read : (v : ℕ) → v < 2 ^ 64 → read_le 8 (le_bytes 8 v) 0 ≡ v
word_read v fits =
    ap (λ bs. read_le 8 bs 0) (sym (append-nil (le_bytes 8 v))) ∙ read_le-le_bytes 8 v [] fits

zeros : (xs : List ℕ) → all_zero xs ≡ true → xs ≡ replicate (length xs) 0
zeros [] e = refl
zeros (x ∷ xs) e =
    let t = zeros xs (ground arith) in
    ap (◌∷◌ x) t ∙ ap (λ y. y ∷ replicate (length xs) 0) (ground arith)

apply_caller :
    (v : ℕ) (meta : MsgMeta)
    → v < 2 ^ 64
    → apply_tag tag_caller (le_bytes 8 v) meta ≡ some (record meta { caller = v })
unfolding apply_tag
apply_caller v meta fits = rw (length-le_bytes 8 v, word_read v fits) refl

apply_budget :
    (v : ℕ) (meta : MsgMeta)
    → v < 2 ^ 63
    → apply_tag tag_budget (le_bytes 8 v) meta
      ≡ some (record meta { has_budget = true; budget = v })
unfolding apply_tag
apply_budget v meta fits =
    let m : min v (2 ^ 63 - 1) ≡ v = omega arith in
    rw (length-le_bytes 8 v, word_read v (omega arith), m) refl

apply_trace :
    (value : List ℕ) (meta : MsgMeta)
    → length value ≡ 16
    → apply_tag tag_trace value meta ≡ some (record meta { trace = value })
unfolding apply_tag
apply_trace value meta sized = rw sized refl

-- The entries of a trace, of a caller and of a budget, with what they leave in the metadata.
trace-parses :
    (fuel : ℕ) (trace : List ℕ) (meta : MsgMeta)
    → length trace ≡ 16
    → meta.trace ≡ replicate 16 0
    → parse_tags (suc fuel) (trace_entry trace) meta ≡ some (record meta { trace = trace })
unfolding parse_tags
trace-parses fuel trace meta sized fresh = elim (Bool-cases (all_zero trace)) [
  | inl z ↦
      let same : trace ≡ meta.trace = zeros trace z ∙ ap (λ k. replicate k 0) sized ∙ sym fresh in
      rw z (ap (λ t. some (record meta { trace = t })) (sym same))
  | inr z ↦
      let e =
        entry-parses fuel tag_trace 16 trace [] meta (record meta { trace = trace }) _ sized
          (apply_trace trace meta sized) refl in
      rw z
        (ap (λ bs. parse_tags (suc fuel) (tag_trace ∷ 16 ∷ bs) meta) (sym (append-nil trace)) ∙ e)
]

caller-parses :
    (fuel caller : ℕ) (rest : List ℕ) (meta : MsgMeta) (r : Option MsgMeta)
    → caller < 2 ^ 64
    → meta.caller ≡ 0
    → ((f : ℕ) → parse_tags (suc f) rest (record meta { caller = caller }) ≡ r)
    → parse_tags (suc (suc fuel)) (caller_entry caller ++ rest) meta ≡ r
caller-parses fuel caller rest meta r fits fresh x = elim (Bool-cases (caller == 0)) [
  | inl z ↦
      let same : meta.caller ≡ caller = ground arith in
      rw z (
        ap (λ c. parse_tags (suc (suc fuel)) rest (record meta { caller = c })) same ∙ x (suc fuel))
  | inr z ↦ rw z (
      entry-parses (suc fuel) tag_caller 8 (le_bytes 8 caller) rest meta
        (record meta { caller = caller }) r (length-le_bytes 8 caller)
        (apply_caller caller meta fits) (x fuel))
]

abbrev with_budget : ℕ → MsgMeta → MsgMeta
with_budget budget meta = record meta { has_budget = ltb 0 budget; budget = budget }

budget-parses :
    (fuel budget : ℕ) (rest : List ℕ) (r : Option MsgMeta)
    → budget < 2 ^ 63
    → ((f : ℕ) → parse_tags (suc (suc f)) rest (with_budget budget empty_meta) ≡ r)
    → parse_tags (suc (suc (suc fuel))) (budget_entry budget ++ rest) empty_meta ≡ r
budget-parses fuel budget rest r fits x = elim (Bool-cases (ltb 0 budget)) [
  | inl z ↦ rw z (
      entry-parses (suc (suc fuel)) tag_budget 8 (le_bytes 8 budget) rest empty_meta
        (with_budget budget empty_meta) r (length-le_bytes 8 budget)
        (apply_budget budget empty_meta fits
          ∙ ap (λ b. some (record empty_meta { has_budget = b; budget = budget })) (sym z))
        (x fuel))
  | inr z ↦
      let none_left : 0 ≡ budget = ground arith in
      rw z (
        ap
          (λ b.
            parse_tags (suc (suc (suc fuel))) rest
              (record empty_meta { has_budget = false; budget = b }))
          none_left
        ∙ ap
            (λ b.
              parse_tags (suc (suc (suc fuel))) rest
                (record empty_meta { has_budget = b; budget = budget }))
            (sym z)
        ∙ x (suc fuel))
]

abbrev entries : ℕ → ℕ → List ℕ → List ℕ
entries budget caller trace = budget_entry budget ++ (caller_entry caller ++ trace_entry trace)

entries-parse :
    (fuel budget caller : ℕ) (trace : List ℕ)
    → budget < 2 ^ 63
    → caller < 2 ^ 64
    → length trace ≡ 16
    → parse_tags (suc (suc (suc fuel))) (entries budget caller trace) empty_meta
      ≡ some (record { has_budget = ltb 0 budget; budget = budget; caller = caller; trace = trace })
entries-parse fuel budget caller trace fits_b fits_c sized =
    budget-parses fuel budget (caller_entry caller ++ trace_entry trace) _ fits_b λ f.
      caller-parses f caller (trace_entry trace) (with_budget budget empty_meta) _ fits_c refl λ g.
        trace-parses g trace (record (with_budget budget empty_meta) { caller = caller }) sized refl

short_entry :
    (b : Bool) (xs ys : List ℕ) (n : ℕ)
    → length xs ≤ n
    → length ys ≤ n
    → length (if b then xs else ys) ≤ n
short_entry true xs ys n h g = h
short_entry false xs ys n h g = g

length-entries :
    (budget caller : ℕ) (trace : List ℕ)
    → length trace ≡ 16
    → length (entries budget caller trace) ≤ 38
length-entries budget caller trace sized = omega (
  arith,
  length-append (budget_entry budget) (caller_entry caller ++ trace_entry trace),
  length-append (caller_entry caller) (trace_entry trace),
  short_entry (ltb 0 budget) (tag_budget ∷ 8 ∷ le_bytes 8 budget) [] 10
      (omega (arith, length-le_bytes 8 budget)) (omega arith),
  short_entry (caller == 0) [] (tag_caller ∷ 8 ∷ le_bytes 8 caller) 10 (omega arith)
      (omega (arith, length-le_bytes 8 caller)),
  short_entry (all_zero trace) [] (tag_trace ∷ 16 ∷ trace) 18 (omega arith) (omega (arith, sized)),
)

parts-parse :
    (bytes block es : List ℕ) (r : MsgMeta)
    → (ltb (length bytes) 2 || ltb (length bytes) (2 + read_le 2 bytes 0)) ≡ false
    → take (2 + read_le 2 bytes 0) bytes ≡ block
    → drop 2 block ≡ es
    → parse_tags (2 + read_le 2 bytes 0) es empty_meta ≡ some r
    → parse_meta bytes ≡ some (r, 2 + read_le 2 bytes 0)
unfolding parse_meta
parts-parse bytes block es r room front body tags = rw (room, front, body, tags) refl

block-parses :
    (es payload : List ℕ) (r : MsgMeta)
    → length es < 65536
    → parse_tags (2 + length es) es empty_meta ≡ some r
    → parse_meta ((le_bytes 2 (length es) ++ es) ++ payload)
      ≡ some (r, length (le_bytes 2 (length es) ++ es))
block-parses es payload r small parsed_es =
    let n = length es in
    let block = le_bytes 2 n ++ es in
    let size : read_le 2 (block ++ payload) 0 ≡ n =
      ap (λ bs. read_le 2 bs 0) (append_assoc (le_bytes 2 n) es payload)
      ∙ read_le-le_bytes 2 n (es ++ payload) small in
    let whole : length block ≡ 2 + n =
      length-append (le_bytes 2 n) es ∙ ap (λ k. k + n) (length-le_bytes 2 n) in
    let long : length (block ++ payload) ≡ 2 + n + length payload =
      omega (arith, length-append block payload) in
    let room : (ltb (length (block ++ payload)) 2 || ltb (length (block ++ payload)) (2 + n))
        ≡ false =
      ground (arith, long) in
    let front : take (2 + n) (block ++ payload) ≡ block = take_left (2 + n) block payload whole in
    let body : drop 2 block ≡ es = unfold le_bytes in refl in
    parts-parse (block ++ payload) block es r
      (ap (λ k. ltb (length (block ++ payload)) 2 || ltb (length (block ++ payload)) (2 + k)) size
        ∙ room)
      (ap (λ k. take (2 + k) (block ++ payload)) size ∙ front) body
      (ap (λ k. parse_tags (2 + k) es empty_meta) size ∙ parsed_es)
    ∙ ap (λ k. some (r, k)) (ap (λ k. 2 + k) size ∙ sym whole)

written :
    (es block : List ℕ)
    → (if length es == 0 then none else some (le_bytes 2 (length es % 65536) ++ es)) ≡ some block
    → length es < 65536
    → (1 ≤ length es) × (block ≡ le_bytes 2 (length es) ++ es)
written es block e small =
    let m : length es % 65536 ≡ length es = omega arith in
    let one : 1 ≤ length es = ground arith in
    (one, let z : (length es == 0) ≡ false = ground arith in ground (arith, m))

-- A block is read back with the entries and the size with which it was written, whatever follows it in
-- the message: a budget, if it is positive, a caller that is not 0 and a trace that is not all zero.
pub parse_meta-put_meta :
    (budget caller : ℕ) (trace block payload : List ℕ)
    → budget < 2 ^ 63
    → caller < 2 ^ 64
    → length trace ≡ 16
    → put_meta budget caller trace ≡ some block
    → parse_meta (block ++ payload)
      ≡ some (
        record { has_budget = ltb 0 budget; budget = budget; caller = caller; trace = trace },
        length block,
      )
unfolding put_meta
parse_meta-put_meta budget caller trace block payload fits_b fits_c sized e =
    let es = entries budget caller trace in
    let n = length es in
    let short = length-entries budget caller trace sized in
    let (some_entry, whole) = written es block e (omega arith) in
    let rounds : 2 + n ≡ suc (suc (suc (n - 1))) = omega arith in
    let parsed_es =
      ap (λ k. parse_tags k es empty_meta) rounds
      ∙ entries-parse (n - 1) budget caller trace fits_b fits_c sized in
    rw whole (block-parses es payload _ (omega arith) parsed_es)
