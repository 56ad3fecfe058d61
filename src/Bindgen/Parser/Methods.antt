-- ===== src/Bindgen/Parser/Methods.antt =====
-- Every method of the parser ends, and those that a loop calls move.
use hqq.Common.{ℕ, zero, suc, ◌+◌, ◌≤◌, ◌<◌, ◌≡◌, true, false, List, length, arith, refl, dec_lt}
use hqq.Bindgen.Lexer.{Token, TokKind, t_eof, t_ident, t_kw, t_ann}
use hqq.Bindgen.Lexer.Limits.{are_complete}
use hqq.Bindgen.Parser.Syntax.{RawArg, RawArgs}
use hqq.Bindgen.Parser.Monad.{
  What, Parser, ParseError, nested_too_deep, Parse, parsed, failed, pure, ◌>>=◌, is_kind, advance,
  kw, fail,
}
use hqq.Bindgen.Parser.Sound.{
  Sound, Moves, continue_lem, some_token, Sound-pure, Sound-fail, Sound-if, Sound-bind, Sound-cur,
  Sound-advance, Sound-report, Sound-edit, Sound-is_punct, Sound-is_kw, Sound-Moves, Moves-fail,
  Moves-if, Moves-bind, Moves-later, Moves-cur, Moves-advance, Moves-report,
}
use hqq.Bindgen.Parser.Loops.{while_cur-Sound, comma_list-Sound, punct-open}
use hqq.Bindgen.Parser.Grammar.{
  expect_punct, expect_kw, expect_kind, expect_ident, expect_decl_name, enter_args, leave_args,
  ann_arg, arg_list, ann_args, annotation, annotations, int_ref, array_suffix, bound_suffix, typ,
  max_ann_depth,
}

pub ruleset basics = (
  Sound-pure, Sound-fail, Sound-if, Sound-bind, Sound-cur, Sound-advance, Sound-report, Sound-edit,
  Sound-is_punct, Sound-is_kw,
)

pub kw-open : (s : List ℕ) (t : Token) → kw s t ≡ true → is_kind t_eof t ≡ false
kw-open s t e = ground arith

pub kind-open :
    (k : TokKind) (t : Token)
    → is_kind t_eof (record t { kind = k }) ≡ false
    → is_kind k t ≡ true
    → is_kind t_eof t ≡ false
kind-open k t o e = ground arith

pub ruleset moving = (
  basics, Moves-cur, Moves-if, Moves-advance, Moves-fail, Moves-bind, Moves-report, punct-open,
  kw-open,
)

pub expect_punct-Moves : {d : ℕ} → (s : List ℕ) (t : Token) → Moves t d (expect_punct s)
unfolding expect_punct
expect_punct-Moves s t = search moving depth 20

pub expect_kw-Moves : {d : ℕ} → (s : List ℕ) (t : Token) → Moves t d (expect_kw s)
unfolding expect_kw
expect_kw-Moves s t = search moving depth 20

pub expect_kind-Moves :
    {d : ℕ}
    → (k : TokKind) (what : What) (t : Token) → is_kind t_eof (record t { kind = k }) ≡ false
    → Moves t d (expect_kind k what)
unfolding expect_kind
expect_kind-Moves k what t o = search (moving, kind-open) depth 20

pub expect_ident-Moves : {d : ℕ} → (what : What) (t : Token) → Moves t d (expect_ident what)
unfolding expect_ident
expect_ident-Moves what t = search (moving, expect_kind-Moves t_ident what t refl) depth 20

pub expect_decl_name-Moves : {d : ℕ} → (what : What) (t : Token) → Moves t d (expect_decl_name what)
unfolding expect_decl_name
expect_decl_name-Moves what t = search (moving, kind-open t_kw t refl, expect_ident-Moves) depth 20

-- What moves is sound.
pub expect_punct-Sound : {d : ℕ} → (s : List ℕ) → Sound d (expect_punct s)
expect_punct-Sound s = Sound-Moves (expect_punct s) (expect_punct-Moves s)

pub expect_kw-Sound : {d : ℕ} → (s : List ℕ) → Sound d (expect_kw s)
expect_kw-Sound s = Sound-Moves (expect_kw s) (expect_kw-Moves s)

pub expect_kind-Sound : {d : ℕ} → (k : TokKind) (what : What) → Sound d (expect_kind k what)
unfolding expect_kind
expect_kind-Sound k what = search basics depth 20

pub expect_ident-Sound : {d : ℕ} → (what : What) → Sound d (expect_ident what)
expect_ident-Sound what = Sound-Moves (expect_ident what) (expect_ident-Moves what)

pub expect_decl_name-Sound : {d : ℕ} → (what : What) → Sound d (expect_decl_name what)
expect_decl_name-Sound what = Sound-Moves (expect_decl_name what) (expect_decl_name-Moves what)

pub ruleset expected_rules = (
  basics, expect_punct-Sound, expect_kw-Sound, expect_kind-Sound, expect_ident-Sound,
  expect_decl_name-Sound, while_cur-Sound, comma_list-Sound,
)

ann_arg-Sound : {d : ℕ} → (nested : Parse RawArgs) → Sound d nested → Sound d (ann_arg nested)
unfolding ann_arg
ann_arg-Sound nested s = search basics depth 20

arg_list-Sound : {d : ℕ} → (one : Parse RawArg) → Sound d one → Sound d (arg_list one)
unfolding arg_list
arg_list-Sound one s = search expected_rules depth 20

enter_args-in :
    (p : Parser)
    → p.depth < max_ann_depth
    → enter_args p ≡ parsed tt (record p { depth = p.depth + 1 })
unfolding enter_args
enter_args-in p h = ground arith

enter_args-full :
    (p : Parser)
    → are_complete p.rest ≡ true
    → max_ann_depth ≤ p.depth
    → (e : ParseError) × (enter_args p ≡ failed e p.sink)
unfolding enter_args fail
enter_args-full p c h =
    let (t, ts, r) = some_token p.rest c in
    (record { pos = t.pos; complaint = nested_too_deep }, ground (arith, r))

-- Levels that make up for the depth are enough: the nesting is bounded before they are used up.
ann_args-Sound :
    (levels d : ℕ) → d ≤ max_ann_depth → max_ann_depth < levels + d → Sound d (ann_args levels)
unfolding ann_args leave_args pure ◌>>=◌
ann_args-Sound zero d shallow enough_levels = absurd (omega arith)
ann_args-Sound (suc levels) d shallow enough_levels = elim (dec_lt d max_ann_depth) [
  | yes more ↦
      let one = ann_arg (ann_args levels) in
      let inner = arg_list-Sound one (
        ann_arg-Sound (ann_args levels)
          (ann_args-Sound levels (d + 1) (omega arith) (omega arith))) in
      record {
        at = λ p c h. rw (enter_args-in p (omega arith)) (
            continue_lem (length p.rest) (length p.rest) (d + 1) d
              (arg_list one (record p { depth = p.depth + 1 })) (λ a. leave_args >>= λ _. pure a)
              (inner.at (record p { depth = p.depth + 1 }) c (omega arith))
              λ a q c' l' h'. (c', l', omega arith));
      }
  | no full ↦ record { at = λ p c h. rw (enter_args-full p c (omega arith)).1 tt }
]

outer_args-Sound : Sound 0 (ann_args (suc max_ann_depth))
outer_args-Sound = ann_args-Sound (suc max_ann_depth) 0 (omega arith) (omega arith)

pub annotation-Moves : (t : Token) → is_kind t_ann t ≡ true → Moves t 0 annotation
unfolding annotation
annotation-Moves t e =
    let first : Moves t 0 advance = Moves-advance t (kind-open t_ann t refl e) in
    search (basics, Moves-bind, first, outer_args-Sound) depth 20

pub annotations-Sound : Sound 0 annotations
unfolding annotations
annotations-Sound = while_cur-Sound (is_kind t_ann) annotation annotation-Moves

int_ref-Sound : {d : ℕ} → Sound d int_ref
unfolding int_ref
int_ref-Sound = search basics depth 20

array_suffix-Sound : {d : ℕ} → Sound d array_suffix
unfolding array_suffix
array_suffix-Sound = search (expected_rules, int_ref-Sound) depth 20

bound_suffix-Sound : {d : ℕ} → Sound d bound_suffix
unfolding bound_suffix
bound_suffix-Sound = search (expected_rules, int_ref-Sound) depth 20

pub typ-Sound : {d : ℕ} → Sound d typ
unfolding typ
typ-Sound = search (expected_rules, array_suffix-Sound, bound_suffix-Sound) depth 20
