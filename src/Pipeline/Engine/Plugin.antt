-- ===== src/Pipeline/Engine/Plugin.antt =====
-- One plugin's run: when the breaker lets it run, that nothing is enforced outside the rollout, and
-- which failures the closed policy does not reach.
use mcpdoll.Base.{
  ℕ, ◌+◌, Str, Bool, false, not, Option, none, some, ◌≡◌, refl, arith, ◌⊎◌, inl, inr, Bool-cases,
  Option-cases,
}
use mcpdoll.Base.Dict.{str_key}
use mcpdoll.Proto.{PluginManifest}
use mcpdoll.Pipeline.Breaker.{Breaker, allow}
use mcpdoll.Pipeline.Verdict.{Verdict, VerdictError, validate}
use mcpdoll.Pipeline.Engine.{
  World, Options, Request, State, interleave, InvokeResult, failed, returned, Invocation,
  breaker_for, should_enforce, base_outcome, skip_outcome, judged, finish_plugin, deadline_for,
  invoke_plugin, host_missing, resolve_host, run_plugin,
}

-- The breaker of a plugin as `Allow` finds it, and whether it lets the plugin run now.
abbrev pub breaker_of : World → Options → PluginManifest → State → Breaker
breaker_of w o m s = breaker_for o m.id (interleave w o (s.readings + 1) s).breakers

abbrev pub admits : World → Options → PluginManifest → State → Bool
admits w o m s = (allow (w.clock (s.readings + 1)) (breaker_of w o m s)).1

finish_plugin-enforced :
    (w : World) (o : Options) (r : Request) (m : PluginManifest) (s : State) (x : InvokeResult)
    → (finish_plugin w o r m false s x).1.is_enforced ≡ false
unfolding finish_plugin base_outcome
finish_plugin-enforced w o r m s (failed text) = ground arith
finish_plugin-enforced w o r m s (returned answer) = ground arith

invoke_plugin-enforced :
    (w : World) (o : Options) (r : Request) (m : PluginManifest) (d : ℕ) (s : State)
    → should_enforce o r m ≡ false
    → (invoke_plugin w o r m d s).1.is_enforced ≡ false
unfolding invoke_plugin
invoke_plugin-enforced w o r m d s h = rw (h, invoke_plugin) (finish_plugin-enforced w o r m _ _)

resolve_host-enforced :
    (w : World) (o : Options) (r : Request) (m : PluginManifest) (d : ℕ) (s : State)
    (x : Option Str)
    → should_enforce o r m ≡ false
    → (resolve_host w o r m d s x).1.is_enforced ≡ false
unfolding resolve_host host_missing skip_outcome
resolve_host-enforced w o r m d s none h = invoke_plugin-enforced w o r m d s h
resolve_host-enforced w o r m d s (some e) h = refl

-- A plugin whose verdict is not to be enforced, in shadow or outside the canary sample, is never
-- enforced: not its verdict, and not its failure.
pub run_plugin-not_enforced :
    (w : World) (o : Options) (r : Request) (m : PluginManifest) (d : ℕ) (s : State)
    → should_enforce o r m ≡ false
    → (run_plugin w o r m d s).1.is_enforced ≡ false
unfolding run_plugin skip_outcome
run_plugin-not_enforced w o r m d s h = elim (Bool-cases (admits w o m s)) [
  | inl e ↦ rw e (resolve_host-enforced w o r m d _ (w.host m) h)
  | inr e ↦ rw e
]

-- The call that the engine makes of a plugin's host.
unfoldable pub invocation : World → Options → Request → PluginManifest → ℕ → State → Invocation
unfolding deadline_for
invocation w o r m d s = record {
  manifest = m;
  hook = r.hook;
  context = s.payload;
  is_shadow = not (should_enforce o r m);
  deadline = deadline_for o m (w.clock (s.readings + 2)) d;
}

-- The three ways in which no valid verdict comes about without an error of the call.
abbrev pub IsUnjudged : World → Options → Request → PluginManifest → ℕ → State → Type 0
IsUnjudged w o r m d s =
    (admits w o m s ≡ false)
    ⊎ (((text : Str) × (w.host m ≡ some text))
        ⊎ ((v : Verdict) × (e : VerdictError) × (w.invoke (s.readings + 3) (invocation w o r m d s)
              ≡ returned (some v))
            × (validate v m ≡ some e)))

resolve_host-missing :
    (w : World) (o : Options) (r : Request) (m : PluginManifest) (d : ℕ) (s : State)
    (x : Option Str) (text : Str)
    → x ≡ some text
    → ((resolve_host w o r m d s x).1.is_enforced ≡ false)
      × ((resolve_host w o r m d s x).1.verdict ≡ none)
unfolding resolve_host host_missing skip_outcome
resolve_host-missing w o r m d s x text h = rw (h, resolve_host) (refl, refl)

-- A plugin that its breaker holds back, whose host cannot be resolved, or whose verdict is invalid
-- enforces nothing, whatever its failure policy says: the request goes on without the check.
pub run_plugin-unjudged :
    (w : World) (o : Options) (r : Request) (m : PluginManifest) (d : ℕ) (s : State)
    → IsUnjudged w o r m d s
    → ((run_plugin w o r m d s).1.is_enforced ≡ false) × ((run_plugin w o r m d s).1.verdict ≡ none)
unfolding run_plugin invoke_plugin invocation skip_outcome base_outcome
run_plugin-unjudged w o r m d s (inl e) = rw e (refl, refl)
run_plugin-unjudged w o r m d s (inr (inl (text, e))) = elim (Bool-cases (admits w o m s)) [
  | inl a ↦ rw a (resolve_host-missing w o r m d _ (w.host m) text e)
  | inr a ↦ rw a (refl, refl)
]
run_plugin-unjudged w o r m d s (inr (inr (v, x, i, e))) = elim (Bool-cases (admits w o m s)) [
  | inl a ↦ elim (Option-cases (w.host m)) [
    | inl n ↦ rw (a, run_plugin, n, resolve_host, i, finish_plugin, e, judged) (refl, refl)
    | inr (text, n) ↦ rw a (resolve_host-missing w o r m d _ (w.host m) text n)
  ]
  | inr a ↦ rw a (refl, refl)
]
