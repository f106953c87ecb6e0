-- ===== src/Pipeline/Engine.antt =====
-- internal/dataplane/pipeline/engine.go: one hook run, with budgets, breakers, failure policy,
-- rollout and the record of what happened. Hosts, clock and the other requests' runs, which share
-- the breakers, are the surroundings, `World`: reading `k` of the clock is `clock k`, and a plugin
-- takes six readings, whether it uses all or not. Metrics, logs, spans and measured durations are
-- left out.
use mcpdoll.Base.{
  ℕ, suc, ◌+◌, ◌-◌, ◌*◌, ◌%◌, ◌^◌, min, Str, codes, Bool, true, false, not, ◌&&◌, ◌||◌, Option,
  none, some, List, [], ◌∷◌, ◌++◌, ltb, leb, ◌==◌, if◌then◌else◌, str_eq, Result, ok, err,
}
use Prim.Native.Nat.{bit_xor}
use mcpdoll.Base.Dict.{Dict, lookup, insert, str_key}
use mcpdoll.Proto.{
  EffectClass, effect_unspecified, effect_read, effect_write, effect_destructive, effect_string,
  Hook, Rollout, rollout_unspecified, shadow, canary, enforced, FailureMode, mode_unspecified,
  mode_open, mode_closed, PluginManifest,
}
use mcpdoll.Pipeline.Breaker.{
  Breaker, new_breaker, allow, success, failure, take_just_opened, state_name,
}
use mcpdoll.Pipeline.Verdict.{
  Decision, allow_request, deny, mutate, annotate, defer, other, Verdict, within_unit, validate,
  SkipReason, circuit_open, request_budget_exhausted, hook_budget_exhausted, host_unavailable,
  earlier_plugin_decided, Failure, host_error, invoke_error, patch_error, bad_verdict, Outcome,
  HookTrace,
}
use mcpdoll.Pipeline.Patch.Document.{PatchError}
use mcpdoll.Pipeline.Patch.Apply.{Codec, apply_patch}
pub mod Canary
pub mod Enforced
pub mod Plugin
pub mod Probe
pub mod Run

-- fnv.New32a over the bytes.
fnv_from : ℕ → Str → ℕ
fnv_from h [] = h
fnv_from h (c ∷ s) = fnv_from ((bit_xor h c * 16777619) % 2 ^ 32) s

unfoldable pub hash_sample : Str → ℕ → Bool
unfolding fnv_from
hash_sample request_id percent =
    if percent == 0
    then false
    else if leb 100 percent
    then true
    else ltb (fnv_from 2166136261 request_id % 100) percent

-- Durations in nanoseconds; a value that is not positive is 0. `none` is a nil function.
pub record Options : Type 0 where
  pub total_budget : ℕ
  pub hook_budget : ℕ
  pub plugin_budget : ℕ
  pub circuit_failure_threshold : ℕ
  pub circuit_cooldown : ℕ
  pub sample : Str → ℕ → Bool

abbrev pub millisecond : ℕ
millisecond = 1000000

or_default : ℕ → ℕ → ℕ
or_default d n = if n == 0 then d else n

sample_or_hash : Option (Str → ℕ → Bool) → Str → ℕ → Bool
sample_or_hash none = hash_sample
sample_or_hash (some f) = f

-- The defaults of `New`.
unfoldable pub new_options : ℕ → ℕ → ℕ → ℕ → ℕ → Option (Str → ℕ → Bool) → Options
unfolding or_default sample_or_hash
new_options total hook plugin threshold cooldown sample = record {
  total_budget = or_default (250 * millisecond) total;
  hook_budget = or_default (50 * millisecond) hook;
  plugin_budget = or_default (25 * millisecond) plugin;
  circuit_failure_threshold = or_default 5 threshold;
  circuit_cooldown = or_default (30000 * millisecond) cooldown;
  sample = sample_or_hash sample;
}

pub record Invocation : Type 0 where
  pub manifest : PluginManifest
  pub hook : Hook
  pub context : Str
  pub is_shadow : Bool
  pub deadline : ℕ

-- `returned none` is a nil verdict.
pub data InvokeResult : Type 0 where
  failed : Str → InvokeResult
  returned : Option Verdict → InvokeResult

-- The calls of a breaker's methods: `Allow`, `Success`, `Failure` and `JustOpened`.
pub data Call : Type 0 where
  asks : ℕ → Call
  succeeds : Call
  fails : ℕ → Call
  reads : Call

pub record Event : Type 0 where
  pub plugin_id : Str
  pub call : Call

-- `host` is the error of the resolver, if any; `error_text` prints an error of a patch. An
-- invocation at a later reading of the clock may have another result. `meanwhile k` is what other
-- requests' runs have done to the breakers, which they share with this one, since this run last
-- touched one and before its step at reading `k`.
pub record World : Type 0 where
  pub clock : ℕ → ℕ
  pub host : PluginManifest → Option Str
  pub invoke : ℕ → Invocation → InvokeResult
  pub meanwhile : ℕ → List Event
  pub codec : Codec
  pub error_text : PatchError → Str

-- The fixed part of a `HookRequest`.
pub record Request : Type 0 where
  pub request_id : Str
  pub hook : Hook
  pub effect_class : EffectClass

-- What a run changes: the engine's breakers, the request's payload and consumed budget, and the
-- number of readings of the clock so far.
pub record State : Type 0 where
  pub breakers : Dict Str Breaker
  pub payload : Str
  pub consumed : ℕ
  pub readings : ℕ

-- `breakerFor`, which makes a breaker at first use.
unfoldable pub breaker_for : Options → Str → Dict Str Breaker → Breaker
breaker_for o id breakers = elim (lookup id breakers) [
  | none ↦ new_breaker o.circuit_failure_threshold o.circuit_cooldown
  | some b ↦ b
]

-- The methods that other runs call meanwhile, each under the breaker's mutex.
unfoldable pub called : Call → Breaker → Breaker
called (asks now) b = (allow now b).0
called succeeds b = success b
called (fails now) b = failure now b
called reads b = (take_just_opened b).0

unfoldable pub others_act : Options → List Event → Dict Str Breaker → Dict Str Breaker
unfolding called
others_act o [] breakers = breakers
others_act o (e ∷ es) breakers =
    let b = called e.call (breaker_for o e.plugin_id breakers) in
    others_act o es (insert e.plugin_id b breakers)

unfoldable pub interleave : World → Options → ℕ → State → State
unfolding others_act
interleave w o k s = record s { breakers = others_act o (w.meanwhile k) s.breakers }

unfoldable pub circuit_state : ℕ → Str → Dict Str Breaker → Str
circuit_state now id breakers = elim (lookup id breakers) [
  | none ↦ codes "closed"
  | some b ↦ state_name now b
]

-- The switch of `shouldEnforce`.
enforce_rollout : Rollout → Options → Request → PluginManifest → Bool
enforce_rollout enforced o r m = true
enforce_rollout canary o r m = o.sample r.request_id m.canary_percent
enforce_rollout shadow o r m = false
enforce_rollout rollout_unspecified o r m = false

unfoldable pub should_enforce : Options → Request → PluginManifest → Bool
unfolding enforce_rollout
should_enforce o r m = enforce_rollout m.rollout o r m

specified : Option FailureMode → FailureMode
specified none = mode_open
specified (some mode_unspecified) = mode_open
specified (some mode_open) = mode_open
specified (some mode_closed) = mode_closed

unfoldable pub failure_mode : PluginManifest → EffectClass → FailureMode
unfolding specified
failure_mode m effect = specified (lookup (effect_string effect) m.failure_policy)

abbrev pub is_closed : FailureMode → Bool
is_closed mode_closed = true
is_closed mode_open = false
is_closed mode_unspecified = false

-- Never more than the request has left.
unfoldable pub hook_budget : Options → ℕ → ℕ
hook_budget o consumed =
    if ltb (o.total_budget - consumed) o.hook_budget
    then o.total_budget - consumed
    else o.hook_budget

unfoldable pub plugin_budget : Options → PluginManifest → ℕ
plugin_budget o m = if m.budget_ms == 0 then o.plugin_budget else m.budget_ms * millisecond

unfoldable pub base_outcome : PluginManifest → Hook → Outcome
base_outcome m hook = record {
  plugin_id = m.id;
  plugin_name = m.name;
  hook = hook;
  rollout = m.rollout;
  ran = false;
  skipped = none;
  verdict = none;
  is_enforced = false;
  diverged = false;
  failure = none;
  failure_mode = none;
}

unfoldable pub skip_outcome : PluginManifest → Hook → SkipReason → Outcome
unfolding base_outcome
skip_outcome m hook reason = record (base_outcome m hook) { skipped = some reason }

abbrev pub plain_verdict : Verdict
plain_verdict = record {
  decision = allow_request;
  reason = [];
  confidence = within_unit;
  patch = [];
  annotations = [];
  ttl_ms = 0;
  input_requests = [];
  plugin_state = [];
  provenance = [];
}

unfoldable pub effect_class_name : EffectClass → Str
effect_class_name effect_write = codes "write"
effect_class_name effect_destructive = codes "destructive"
effect_class_name effect_read = codes "read"
effect_class_name effect_unspecified = codes "read"

-- The denial that a failure becomes under a closed policy.
unfoldable pub closed_verdict : PluginManifest → EffectClass → Verdict
unfolding effect_class_name
closed_verdict m effect = record plain_verdict {
  decision = deny;
  reason =
      m.name
      ++ (codes " could not evaluate this request and is configured to fail closed for "
          ++ (effect_class_name effect ++ codes " tools"));
}

-- A decision that a shadow plugin would have changed the outcome by.
abbrev pub would_act : Decision → Bool
would_act allow_request = false
would_act annotate = false
would_act deny = true
would_act mutate = true
would_act defer = true
would_act (other _) = true

store_breaker : State → PluginManifest → Breaker → State
store_breaker s m b = record s { breakers = insert m.id b s.breakers }

-- After an error of the host's.
invoke_failed : PluginManifest → Request → Bool → Str → Outcome → Outcome
invoke_failed m r enforce text o =
    let mode = failure_mode m r.effect_class in
    let o' = record o { failure = some (invoke_error text); failure_mode = some mode } in
    if is_closed mode && enforce
    then record o' { is_enforced = true; verdict = some (closed_verdict m r.effect_class) }
    else o'

-- After a verdict.
judged : PluginManifest → Request → Bool → Verdict → Outcome → Outcome
judged m r enforce v o = elim (validate v m) [
  | some e ↦ record o {
    failure = some (bad_verdict e);
    failure_mode = some (failure_mode m r.effect_class);
  }
  | none ↦ record o {
    verdict = some v;
    is_enforced = enforce;
    diverged = not enforce && would_act v.decision;
  }
]

-- The breaker after a verdict.
breaker_after : PluginManifest → Verdict → ℕ → Breaker → Breaker
breaker_after m v now b = elim (validate v m) [ some _ ↦ failure now b | none ↦ success b ]

or_allow : Option Verdict → Verdict
or_allow none = plain_verdict
or_allow (some v) = v

-- What follows the call of `Invoke`. The breaker is asked for anew at each call of its methods.
finish_plugin :
    World → Options → Request → PluginManifest → Bool → State → InvokeResult → State × Outcome
unfolding invoke_failed judged breaker_after or_allow store_breaker interleave
finish_plugin w o r m enforce s (failed text) =
    let now = w.clock (s.readings + 5) in
    let counted = store_breaker s m (failure now (breaker_for o m.id s.breakers)) in
    let s' = interleave w o (s.readings + 6) counted in
    let (b, _) = take_just_opened (breaker_for o m.id s'.breakers) in
    (
      store_breaker s' m b,
      invoke_failed m r enforce text (record (base_outcome m r.hook) { ran = true }),
    )
finish_plugin w o r m enforce s (returned answer) =
    let v = or_allow answer in
    let now = w.clock (s.readings + 5) in
    (
      store_breaker s m (breaker_after m v now (breaker_for o m.id s.breakers)),
      judged m r enforce v (record (base_outcome m r.hook) { ran = true }),
    )

-- The deadline of an invocation, at most the hook's.
deadline_for : Options → PluginManifest → ℕ → ℕ → ℕ
deadline_for o m now hook_deadline =
    if ltb hook_deadline (now + plugin_budget o m) then hook_deadline else now + plugin_budget o m

-- The breaker has let the plugin run, and the host is there.
invoke_plugin : World → Options → Request → PluginManifest → ℕ → State → State × Outcome
unfolding finish_plugin deadline_for interleave
invoke_plugin w o r m hook_deadline s =
    let enforce = should_enforce o r m in
    let inv : Invocation = record {
      manifest = m;
      hook = r.hook;
      context = s.payload;
      is_shadow = not enforce;
      deadline = deadline_for o m (w.clock (s.readings + 2)) hook_deadline;
    } in
    let elapsed = w.clock (s.readings + 4) - w.clock (s.readings + 3) in
    let s' = interleave w o (s.readings + 5) s in
    finish_plugin w o r m enforce (record s' { consumed = s.consumed + elapsed })
      (w.invoke (s.readings + 3) inv)

-- The host could not be resolved: the plugin is skipped.
host_missing : Request → PluginManifest → Str → Outcome
host_missing r m text = record (skip_outcome m r.hook host_unavailable) {
  failure = some (host_error text);
  failure_mode = some (failure_mode m r.effect_class);
}

resolve_host : World → Options → Request → PluginManifest → ℕ → State → Option Str → State × Outcome
unfolding invoke_plugin host_missing
resolve_host w o r m hook_deadline s (some text) = (s, host_missing r m text)
resolve_host w o r m hook_deadline s none = invoke_plugin w o r m hook_deadline s

unfoldable pub run_plugin : World → Options → Request → PluginManifest → ℕ → State → State × Outcome
unfolding resolve_host store_breaker interleave
run_plugin w o r m hook_deadline s =
    let s' = interleave w o (s.readings + 1) s in
    let (b, granted) = allow (w.clock (s.readings + 1)) (breaker_for o m.id s'.breakers) in
    if granted
    then resolve_host w o r m hook_deadline (store_breaker s' m b) (w.host m)
    else (store_breaker s' m b, skip_outcome m r.hook circuit_open)
