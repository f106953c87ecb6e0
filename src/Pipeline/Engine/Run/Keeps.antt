-- ===== src/Pipeline/Engine/Run/Keeps.antt =====
-- What `runPlugin` and one turn of the loop leave alone, and that a turn records its plugin.
use mcpdoll.Base.{
  ℕ, ◌+◌, Str, Bool, true, false, not, Option, none, some, List, [], ◌∷◌, ◌++◌, ◌≡◌, refl, arith,
  ltb, leb, if◌then◌else◌, Bool-cases, inl, inr, Result, ok, err,
}
use mcpdoll.Proto.{PluginManifest}
use mcpdoll.Pipeline.Verdict.{
  Decision, allow_request, deny, mutate, annotate, defer, other, Verdict, Outcome, HookTrace,
}
use mcpdoll.Pipeline.Patch.Document.{PatchError}
use mcpdoll.Pipeline.Patch.Apply.{apply_patch}
use mcpdoll.Pipeline.Breaker.{allow}
use mcpdoll.Pipeline.Engine.{
  World, Options, Request, State, InvokeResult, failed, returned, skip_outcome, base_outcome,
  finish_plugin, invoke_plugin, host_missing, resolve_host, store_breaker, run_plugin, breaker_for,
  interleave,
}
use mcpdoll.Pipeline.Engine.Run.{
  HookResult, Flow, proceed, halt, append_outcome, mark_short_circuited, patched, react, act_on,
  advance, turn,
}

finish_plugin-keeps :
    (w : World) (o : Options) (r : Request) (m : PluginManifest) (f : Bool) (s : State)
    (x : InvokeResult)
    → ((finish_plugin w o r m f s x).0.payload ≡ s.payload)
      × ((finish_plugin w o r m f s x).1.plugin_id ≡ m.id)
      × ((finish_plugin w o r m f s x).1.plugin_name ≡ m.name)
unfolding finish_plugin base_outcome interleave
finish_plugin-keeps w o r m f s (failed text) = ground arith
finish_plugin-keeps w o r m f s (returned a) = ground arith

resolve_host-keeps :
    (w : World) (o : Options) (r : Request) (m : PluginManifest) (d : ℕ) (s : State)
    (x : Option Str)
    → ((resolve_host w o r m d s x).0.payload ≡ s.payload)
      × ((resolve_host w o r m d s x).1.plugin_id ≡ m.id)
      × ((resolve_host w o r m d s x).1.plugin_name ≡ m.name)
unfolding resolve_host host_missing skip_outcome
resolve_host-keeps w o r m d s none =
    unfold invoke_plugin interleave in finish_plugin-keeps w o r m _ _ _
resolve_host-keeps w o r m d s (some e) = (refl, refl, refl)

-- A plugin's run leaves the payload, and its outcome names the plugin.
pub run_plugin-keeps :
    (w : World) (o : Options) (r : Request) (m : PluginManifest) (d : ℕ) (s : State)
    → ((run_plugin w o r m d s).0.payload ≡ s.payload)
      × ((run_plugin w o r m d s).1.plugin_id ≡ m.id)
      × ((run_plugin w o r m d s).1.plugin_name ≡ m.name)
unfolding run_plugin store_breaker skip_outcome interleave
run_plugin-keeps w o r m d s =
    elim (Bool-cases
      (allow (w.clock (s.readings + 1))
        (breaker_for o m.id (interleave w o (s.readings + 1) s).breakers)).1) [
          | inl e ↦ rw e (resolve_host-keeps w o r m d _ (w.host m))
          | inr e ↦ rw e (refl, refl, refl)
        ]

-- The turn records the plugin, and the plugins behind it if it ends the hook.
abbrev pub IsRecorded : List PluginManifest → Request → PluginManifest → HookTrace → Flow → Type 0
IsRecorded all r m t (proceed s' t' res') =
    (o : Outcome) × (o.plugin_id ≡ m.id) × (t'.outcomes ≡ t.outcomes ++ o ∷ [])
IsRecorded all r m t (halt s' t' res') =
    (o : Outcome) × (o.plugin_id ≡ m.id)
    × (t'.outcomes ≡ (t.outcomes ++ o ∷ []) ++ mark_short_circuited m.id r.hook false all)

patched-IsRecorded :
    (w : World) (r : Request) (all : List PluginManifest) (m : PluginManifest) (o : Outcome)
    (s : State) (t : HookTrace) (res : HookResult) (p : Result PatchError Str)
    → o.plugin_id ≡ m.id
    → IsRecorded all r m t (patched w m o s t res p)
unfolding patched
patched-IsRecorded w r all m o s t res (ok doc) e = (o, e, refl)
patched-IsRecorded w r all m o s t res (err x) e = (_, e, refl)

react-IsRecorded :
    (w : World) (r : Request) (all : List PluginManifest) (m : PluginManifest) (o : Outcome)
    (s : State) (t : HookTrace) (res : HookResult) (v : Verdict) (d : Decision)
    → o.plugin_id ≡ m.id
    → IsRecorded all r m t (react w r all m o s t res v d)
unfolding react
react-IsRecorded w r all m o s t res v deny e = (o, e, refl)
react-IsRecorded w r all m o s t res v defer e = (o, e, refl)
react-IsRecorded w r all m o s t res v mutate e =
    patched-IsRecorded w r all m o s t res (apply_patch w.codec s.payload v.patch m.writes) e
react-IsRecorded w r all m o s t res v annotate e = (o, e, refl)
react-IsRecorded w r all m o s t res v allow_request e = (o, e, refl)
react-IsRecorded w r all m o s t res v (other _) e = (o, e, refl)

act_on-IsRecorded :
    (w : World) (r : Request) (all : List PluginManifest) (m : PluginManifest) (o : Outcome)
    (s : State) (t : HookTrace) (res : HookResult) (v : Option Verdict)
    → o.plugin_id ≡ m.id
    → IsRecorded all r m t (act_on w r all m o s t res v)
unfolding act_on
act_on-IsRecorded w r all m o s t res none e = (o, e, refl)
act_on-IsRecorded w r all m o s t res (some v) e = enforced_or_not o.is_enforced
  where
    enforced_or_not :
        (b : Bool)
        → IsRecorded all r m t (
            if not b
            then proceed s (append_outcome t o) res
            else react w r all m o s t res v v.decision)
    enforced_or_not true = react-IsRecorded w r all m o s t res v v.decision e
    enforced_or_not false = (o, e, refl)

pub turn-IsRecorded :
    (w : World) (o : Options) (r : Request) (all : List PluginManifest) (d : ℕ) (m : PluginManifest)
    (s : State) (t : HookTrace) (res : HookResult)
    → IsRecorded all r m t (turn w o r all d m s t res)
unfolding turn skip_outcome
turn-IsRecorded w o r all d m s t res = elim (Bool-cases (leb o.total_budget s.consumed)) [
  | inl e ↦ rw e (_, refl, refl)
  | inr e ↦ elim (Bool-cases (ltb d (w.clock s.readings))) [
    | inl f ↦ rw (e, f) (_, refl, refl)
    | inr f ↦
        rw (e, f)
          (act_on-IsRecorded w r all m (run_plugin w o r m d s).1
            (advance (run_plugin w o r m d s).0) t res (run_plugin w o r m d s).1.verdict
            (run_plugin-keeps w o r m d s).1)
  ]
]
