-- ===== src/Pipeline/Engine/Run.antt =====
-- `Engine.Run`: the plugins of a hook one after another, with what their verdicts do.
use mcpdoll.Base.{
  ℕ, ◌+◌, Str, Bool, true, false, not, ◌||◌, Option, none, some, List, [], ◌∷◌, ◌++◌, ltb, leb,
  if◌then◌else◌, str_eq, Result, ok, err,
}
use mcpdoll.Base.Dict.{Dict, insert, str_key}
use mcpdoll.Proto.{Hook, PluginManifest}
use mcpdoll.Pipeline.Verdict.{
  Decision, allow_request, deny, mutate, annotate, defer, other, Verdict, request_budget_exhausted,
  hook_budget_exhausted, earlier_plugin_decided, patch_error, Outcome, HookTrace,
}
use mcpdoll.Pipeline.Patch.Document.{PatchError}
use mcpdoll.Pipeline.Patch.Apply.{apply_patch}
use mcpdoll.Pipeline.Engine.{World, Options, Request, State, hook_budget, skip_outcome, run_plugin}
pub mod Keeps
pub mod Unenforced
pub mod Recorded
pub mod Denied

-- `payload` is `none` while nil.
pub record HookResult : Type 0 where
  pub decision : Decision
  pub reason : Str
  pub decided_by : Str
  pub payload : Option Str
  pub annotations : Dict Str Str
  pub input_requests : Str
  pub plugin_state : Str

abbrev pub empty_result : HookResult
empty_result = record {
  decision = allow_request;
  reason = [];
  decided_by = [];
  payload = none;
  annotations = [];
  input_requests = [];
  plugin_state = [];
}

-- After one plugin: the loop goes on, or the hook is decided.
pub data Flow : Type 0 where
  proceed halt : State → HookTrace → HookResult → Flow

abbrev pub append_outcome : HookTrace → Outcome → HookTrace
append_outcome t o = record t { outcomes = t.outcomes ++ o ∷ [] }

-- `markShortCircuited`: the plugins behind the first with the decider's id.
unfoldable pub mark_short_circuited : Str → Hook → Bool → List PluginManifest → List Outcome
mark_short_circuited id hook seen [] = []
mark_short_circuited id hook seen (m ∷ ms) =
    let rest = mark_short_circuited id hook (str_eq m.id id || seen) ms in
    if str_eq m.id id
    then rest
    else if not seen
    then rest
    else skip_outcome m hook earlier_plugin_decided ∷ rest

-- The annotations of a plugin, under its name.
unfoldable pub annotated : Str → Dict Str Str → Dict Str Str → Dict Str Str
annotated name [] into = into
annotated name ((k, v) ∷ rest) into = annotated name rest (insert (name ++ b'.' ∷ k) v into)

-- The last outcome of a patch that was refused is recorded as not enforced.
unfoldable pub patched :
    World → PluginManifest → Outcome → State → HookTrace → HookResult → Result PatchError Str → Flow
patched w m o s t res (err e) =
    proceed s
      (append_outcome t
        (record o { failure = some (patch_error (w.error_text e)); is_enforced = false }))
      res
patched w m o s t res (ok doc) =
    proceed (record s { payload = doc }) (append_outcome t o)
      (record res { payload = some doc; decision = mutate; decided_by = m.name })

-- The switch on an enforced verdict.
react :
    World
    → Request
    → List PluginManifest
    → PluginManifest
    → Outcome
    → State
    → HookTrace
    → HookResult
    → Verdict
    → Decision
    → Flow
unfolding patched mark_short_circuited annotated
react w r all m o s t res v deny =
    halt s
      (record t { outcomes = (t.outcomes ++ o ∷ []) ++ mark_short_circuited m.id r.hook false all })
      (record res { decision = deny; reason = v.reason; decided_by = m.name })
react w r all m o s t res v defer =
    halt s
      (record t { outcomes = (t.outcomes ++ o ∷ []) ++ mark_short_circuited m.id r.hook false all })
      (record res {
        decision = defer;
        reason = v.reason;
        decided_by = m.name;
        input_requests = v.input_requests;
        plugin_state = v.plugin_state;
      })
react w r all m o s t res v mutate =
    patched w m o s t res (apply_patch w.codec s.payload v.patch m.writes)
react w r all m o s t res v annotate =
    proceed s (append_outcome t o)
      (record res { annotations = annotated m.name v.annotations res.annotations })
react w r all m o s t res v allow_request = proceed s (append_outcome t o) res
react w r all m o s t res v (other _) = proceed s (append_outcome t o) res

act_on :
    World
    → Request
    → List PluginManifest
    → PluginManifest
    → Outcome
    → State
    → HookTrace
    → HookResult
    → Option Verdict
    → Flow
unfolding react
act_on w r all m o s t res none = proceed s (append_outcome t o) res
act_on w r all m o s t res (some v) =
    if not o.is_enforced
    then proceed s (append_outcome t o) res
    else react w r all m o s t res v v.decision

advance : State → State
advance s = record s { readings = s.readings + 6 }

-- One turn of the loop of `Run`.
unfoldable pub turn :
    World
    → Options
    → Request
    → List PluginManifest
    → ℕ
    → PluginManifest
    → State
    → HookTrace
    → HookResult
    → Flow
unfolding act_on advance
turn w o r all hook_deadline m s t res =
    if leb o.total_budget s.consumed
    then proceed (advance s) (append_outcome t (skip_outcome m r.hook request_budget_exhausted)) res
    else if ltb hook_deadline (w.clock s.readings)
    then proceed (advance s)
        (record t {
          exhausted = true;
          outcomes = t.outcomes ++ skip_outcome m r.hook hook_budget_exhausted ∷ [];
        })
        res
    else let (s', out) = run_plugin w o r m hook_deadline s in
      act_on w r all m out (advance s') t res out.verdict

or_payload : Option Str → Str → Option Str
or_payload none p = some p
or_payload (some q) p = some q

-- What is left of the hook after a turn.
abbrev pub after_turn :
    (State → HookTrace → HookResult → State × HookTrace × HookResult)
    → Flow
    → State × HookTrace × HookResult
after_turn rest (halt s t res) = (s, t, res)
after_turn rest (proceed s t res) = rest s t res

unfoldable pub run_from :
    World
    → Options
    → Request
    → List PluginManifest
    → ℕ
    → List PluginManifest
    → State
    → HookTrace
    → HookResult
    → State × HookTrace × HookResult
unfolding or_payload
run_from w o r all hook_deadline [] s t res =
    (s, t, record res { payload = or_payload res.payload s.payload })
run_from w o r all hook_deadline (m ∷ ms) s t res =
    after_turn (run_from w o r all hook_deadline ms) (turn w o r all hook_deadline m s t res)

no_plugins : List PluginManifest → Bool
no_plugins [] = true
no_plugins (_ ∷ _) = false

-- The state after the hook, the hook's trace and its result. The first reading of the clock is the
-- start of the hook.
unfoldable pub run :
    World → Options → Request → List PluginManifest → State → State × HookTrace × HookResult
unfolding run_from no_plugins
run w o r plugins s =
    let t : HookTrace = record { hook = r.hook; outcomes = []; exhausted = false } in
    if no_plugins plugins
    then (s, t, empty_result)
    else run_from w o r plugins (w.clock s.readings + hook_budget o s.consumed) plugins
        (record s { readings = s.readings + 1 }) t empty_result
