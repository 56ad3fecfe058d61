-- ===== src/Bindgen/Wire/Tests.antt =====
-- A request header and two handles.
use hqq.Common.{◌-◌, ◌^◌, ◌<◌, ◌≤◌, ◌≡◌, ◌≢◌, replicate, arith}
use hqq.Bindgen.Wire.{Header, load_header, put_header, next_id}
use hqq.Bindgen.Wire.Laws.{load_header-put_header, next_id_lem}

abbrev request : Header
request = record { kind = 1; flags = 0; op = 513; id = 70000; total = 24; aux = 3 }

load_header-put_header_example : load_header (put_header (replicate 24 7) request) ≡ request
load_header-put_header_example =
    load_header-put_header (replicate 24 7) request (ground arith) (ground arith)

next_id_lem_example :
    (1 ≤ next_id (2 ^ 32 - 1))
    × (next_id (2 ^ 32 - 1) < 2 ^ 32)
    × (next_id (2 ^ 32 - 1) ≢ 2 ^ 32 - 1)
next_id_lem_example = next_id_lem (2 ^ 32 - 1) (omega arith)
