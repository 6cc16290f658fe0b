-- ===== src/Proxy/Pipeline.antt =====
-- internal/proxy/pipeline.go: the ordered chain of addons. A hook gives the changed flow, or none
-- where it panics; an addon that lacks a hook is passed over.
pub mod Rules
use gowebfilter.Base.{
  ℕ, zero, suc, ◌+◌, ◌-◌, ◌*◌, ◌/◌, ◌%◌, ◌^◌, ◌≤◌, ◌<◌, ◌≡◌, refl, sym, ap, ap₂, ◌∙◌, subst, ◌≢◌,
  ◌↔◌, ◌⊎◌, inl, inr, Bool, true, false, ◌&&◌, ◌||◌, not, Option, none, some, List, [], ◌∷◌, ◌++◌,
  map, append-nil, append_assoc, arith, ltb, leb, ◌==◌, if◌then◌else◌, ltb→lt, lt→ltb, leb→le,
  ==_iff, Bool-cases, Option-cases, or_else, none≢some, some_injective, length, length-append, take,
  drop, get_elem?, Bytes, codes, bytes_eq, bytes_eq_iff, bytes_eq_refl, cut_prefix, cut_prefix-some,
  cut_prefix-append, is_some, has_prefix, trim_prefix, has_suffix, EndsIn, has_suffix_iff, has_byte,
  cut_byte, is_space, trim_space, to_lower, lower_byte, split_byte, contains, is_empty, ℤ, pos,
  negsuc, atoi, atoi_two, itoa, itoa_digit, digits, IsDigit, is_digit, Within, Within-append,
  Within-cons, append_left, append_right, no_member, Any, any_of, any_of_iff,
}
use gowebfilter.Proxy.Flow.{FlowContext}

abbrev pub Hook : Type 0
Hook = FlowContext → Option FlowContext

pub record Addon : Type 0 where
  pub name : Bytes
  pub on_request : Option Hook
  pub on_response : Option Hook
  pub on_error : Option Hook

abbrev pub run_hook : Option Hook → Hook
run_hook none fc = some fc
run_hook (some h) fc = h fc

abbrev pub then_run : Option FlowContext → Hook → Option FlowContext
then_run none k = none
then_run (some fc) k = k fc

-- RunRequest, RunResponse and RunError
unfoldable pub run_request : List Addon → Hook
run_request [] fc = some fc
run_request (a ∷ rest) fc = then_run (run_hook a.on_request fc) (run_request rest)

unfoldable pub run_response : List Addon → Hook
run_response [] fc = some fc
run_response (a ∷ rest) fc = then_run (run_hook a.on_response fc) (run_response rest)

unfoldable pub run_error : List Addon → Hook
run_error [] fc = some fc
run_error (a ∷ rest) fc = then_run (run_hook a.on_error fc) (run_error rest)
