-- ===== src/Pipeline/Verdict.antt =====
-- internal/dataplane/pipeline/verdict.go: a plugin's verdict and its validation, and what the
-- engine records of a plugin.
use mcpdoll.Base.{
  ℕ, Str, Bool, true, false, Option, none, some, List, [], ◌∷◌, ◌++◌, if◌then◌else◌, keep,
}
use mcpdoll.Base.Dict.{Dict}
use mcpdoll.Authz.Scope.{is_empty}
use mcpdoll.Proto.{Hook, Rollout, FailureMode, PluginManifest}

-- A string in the source: `other` is any text but the five.
pub data Decision : Type 0 where
  allow_request deny mutate annotate defer : Decision
  other : Str → Decision

unfoldable pub valid : Decision → Bool
valid allow_request = true
valid deny = true
valid mutate = true
valid annotate = true
valid defer = true
valid (other _) = false

-- A float that the package compares with 0 and 1 and otherwise only carries.
pub data Confidence : Type 0 where
  below_zero within_unit above_one : Confidence

-- Raw JSON is its bytes; an empty text is an absent field. `values` of annotations are opaque.
pub record Verdict : Type 0 where
  pub decision : Decision
  pub reason : Str
  pub confidence : Confidence
  pub patch : Str
  pub annotations : Dict Str Str
  pub ttl_ms : ℕ
  pub input_requests : Str
  pub plugin_state : Str
  pub provenance : Dict Str Str

pub data VerdictError : Type 0 where
  invalid_decision bad_confidence no_patch no_writes no_input_requests stray_patch : VerdictError

no_strings : List Str → Bool
no_strings [] = true
no_strings (_ ∷ _) = false

-- The switch of `Validate`.
check_fields : Decision → Verdict → PluginManifest → Option VerdictError
unfolding no_strings is_empty
check_fields mutate v m =
    if is_empty v.patch then some no_patch else if no_strings m.writes then some no_writes else none
check_fields defer v m = if is_empty v.input_requests then some no_input_requests else none
check_fields _ v m = if is_empty v.patch then none else some stray_patch

abbrev in_unit : Confidence → Bool
in_unit within_unit = true
in_unit below_zero = false
in_unit above_one = false

-- `none` is a nil error.
unfoldable pub validate : Verdict → PluginManifest → Option VerdictError
unfolding valid check_fields
validate v m =
    if valid v.decision
    then if in_unit v.confidence then check_fields v.decision v m else some bad_confidence
    else some invalid_decision

pub data SkipReason : Type 0 where
  circuit_open request_budget_exhausted hook_budget_exhausted not_in_canary host_unavailable
        earlier_plugin_decided :
      SkipReason

-- Why a plugin failed; the texts are those of the errors.
pub data Failure : Type 0 where
  host_error invoke_error patch_error : Str → Failure
  bad_verdict : VerdictError → Failure

-- The measured durations are left out.
pub record Outcome : Type 0 where
  pub plugin_id : Str
  pub plugin_name : Str
  pub hook : Hook
  pub rollout : Rollout
  pub ran : Bool
  pub skipped : Option SkipReason
  pub verdict : Option Verdict
  pub is_enforced : Bool
  pub diverged : Bool
  pub failure : Option Failure
  pub failure_mode : Option FailureMode

pub record HookTrace : Type 0 where
  pub hook : Hook
  pub outcomes : List Outcome
  pub exhausted : Bool

-- `Divergences`: the outcomes of a trace that diverged, in order.
unfoldable pub divergences : List HookTrace → List Outcome
divergences [] = []
divergences (h ∷ hs) = keep (λ o. o.diverged) h.outcomes ++ divergences hs
