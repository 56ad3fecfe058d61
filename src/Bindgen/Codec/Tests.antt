-- ===== src/Bindgen/Codec/Tests.antt =====
-- Two letters in a buffer of 16 bytes.
use hqq.Common.{ℕ, ◌≡◌, true, some, List, [], ◌∷◌, replicate, refl, arith}
use hqq.Bindgen.Codec.{check_str, put_str, get_str}
use hqq.Bindgen.Codec.RoundTrip.{get_str-put_str}

abbrev buffer : List ℕ
buffer = replicate 16 255

abbrev text : List ℕ
text = 104 ∷ 105 ∷ []

text_checked : check_str text 8 ≡ true
unfolding check_str
text_checked = refl

get_str-put_str_example :
    get_str (put_str buffer 4 text).0 4 8 ≡ some (text, (put_str buffer 4 text).1)
get_str-put_str_example =
    get_str-put_str buffer text 4 8 refl (omega arith) text_checked (omega arith)
