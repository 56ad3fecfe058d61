-- ===== src/Bindgen/Parser/Words.antt =====
-- The words and marks that bindgen/idl/parse.go compares tokens with, as bytes.
use hqq.Common.{ℕ, List, [], ◌∷◌}

abbrev pub kw_idl : List ℕ
kw_idl = 105 ∷ 100 ∷ 108 ∷ []

abbrev pub kw_service : List ℕ
kw_service = 115 ∷ 101 ∷ 114 ∷ 118 ∷ 105 ∷ 99 ∷ 101 ∷ []

abbrev pub kw_include : List ℕ
kw_include = 105 ∷ 110 ∷ 99 ∷ 108 ∷ 117 ∷ 100 ∷ 101 ∷ []

abbrev pub kw_const : List ℕ
kw_const = 99 ∷ 111 ∷ 110 ∷ 115 ∷ 116 ∷ []

abbrev pub kw_handle : List ℕ
kw_handle = 104 ∷ 97 ∷ 110 ∷ 100 ∷ 108 ∷ 101 ∷ []

abbrev pub kw_struct : List ℕ
kw_struct = 115 ∷ 116 ∷ 114 ∷ 117 ∷ 99 ∷ 116 ∷ []

abbrev pub kw_union : List ℕ
kw_union = 117 ∷ 110 ∷ 105 ∷ 111 ∷ 110 ∷ []

abbrev pub kw_case : List ℕ
kw_case = 99 ∷ 97 ∷ 115 ∷ 101 ∷ []

abbrev pub kw_fn : List ℕ
kw_fn = 102 ∷ 110 ∷ []

abbrev pub kw_shim : List ℕ
kw_shim = 115 ∷ 104 ∷ 105 ∷ 109 ∷ []

abbrev pub kw_in : List ℕ
kw_in = 105 ∷ 110 ∷ []

abbrev pub kw_out : List ℕ
kw_out = 111 ∷ 117 ∷ 116 ∷ []

abbrev pub kw_inout : List ℕ
kw_inout = 105 ∷ 110 ∷ 111 ∷ 117 ∷ 116 ∷ []

abbrev pub kw_destroy : List ℕ
kw_destroy = 100 ∷ 101 ∷ 115 ∷ 116 ∷ 114 ∷ 111 ∷ 121 ∷ []

abbrev pub kw_owned_by : List ℕ
kw_owned_by = 111 ∷ 119 ∷ 110 ∷ 101 ∷ 100 ∷ 95 ∷ 98 ∷ 121 ∷ []

abbrev pub kw_ret : List ℕ
kw_ret = 114 ∷ 101 ∷ 116 ∷ []

abbrev pub kw_bool : List ℕ
kw_bool = 98 ∷ 111 ∷ 111 ∷ 108 ∷ []

abbrev pub kw_i8 : List ℕ
kw_i8 = 105 ∷ 56 ∷ []

abbrev pub kw_i16 : List ℕ
kw_i16 = 105 ∷ 49 ∷ 54 ∷ []

abbrev pub kw_i32 : List ℕ
kw_i32 = 105 ∷ 51 ∷ 50 ∷ []

abbrev pub kw_i64 : List ℕ
kw_i64 = 105 ∷ 54 ∷ 52 ∷ []

abbrev pub kw_u8 : List ℕ
kw_u8 = 117 ∷ 56 ∷ []

abbrev pub kw_u16 : List ℕ
kw_u16 = 117 ∷ 49 ∷ 54 ∷ []

abbrev pub kw_u32 : List ℕ
kw_u32 = 117 ∷ 51 ∷ 50 ∷ []

abbrev pub kw_u64 : List ℕ
kw_u64 = 117 ∷ 54 ∷ 52 ∷ []

abbrev pub kw_f32 : List ℕ
kw_f32 = 102 ∷ 51 ∷ 50 ∷ []

abbrev pub kw_f64 : List ℕ
kw_f64 = 102 ∷ 54 ∷ 52 ∷ []

abbrev pub kw_size : List ℕ
kw_size = 115 ∷ 105 ∷ 122 ∷ 101 ∷ []

abbrev pub kw_str : List ℕ
kw_str = 115 ∷ 116 ∷ 114 ∷ []

abbrev pub kw_bytes : List ℕ
kw_bytes = 98 ∷ 121 ∷ 116 ∷ 101 ∷ 115 ∷ []

abbrev pub open_paren : List ℕ
open_paren = 40 ∷ []

abbrev pub close_paren : List ℕ
close_paren = 41 ∷ []

abbrev pub comma : List ℕ
comma = 44 ∷ []

abbrev pub semicolon : List ℕ
semicolon = 59 ∷ []

abbrev pub colon : List ℕ
colon = 58 ∷ []

abbrev pub equals : List ℕ
equals = 61 ∷ []

abbrev pub open_brace : List ℕ
open_brace = 123 ∷ []

abbrev pub close_brace : List ℕ
close_brace = 125 ∷ []

abbrev pub open_bracket : List ℕ
open_bracket = 91 ∷ []

abbrev pub close_bracket : List ℕ
close_bracket = 93 ∷ []

abbrev pub at_most : List ℕ
at_most = 60 ∷ 61 ∷ []

abbrev pub arrow : List ℕ
arrow = 45 ∷ 62 ∷ []

-- `intTypeNames`
abbrev pub int_type_names : List (List ℕ)
int_type_names = kw_i8 ∷ kw_i16 ∷ kw_i32 ∷ kw_i64 ∷ kw_u8 ∷ kw_u16 ∷ kw_u32 ∷ kw_u64 ∷ kw_size ∷ []

-- The other names of types that are keywords.
abbrev pub other_type_names : List (List ℕ)
other_type_names = kw_bool ∷ kw_f32 ∷ kw_f64 ∷ kw_str ∷ kw_bytes ∷ []
