-- ===== src/Pipeline/Engine/Run/Unenforced.antt =====
-- Plugins that are not to be enforced, and a request that has spent its budget: the hook decides
-- nothing.
use mcpdoll.Base.{
  ℕ, ◌≤◌, Bool, true, false, not, Option, none, some, List, [], ◌∷◌, ◌++◌, append_assoc, append-nil,
  map, ◌≡◌, refl, sym, ap, ◌∙◌, arith, leb, ltb, if◌then◌else◌, all, Bool-cases, inl, inr,
}
use mcpdoll.Proto.{PluginManifest}
use mcpdoll.Pipeline.Verdict.{allow_request, Verdict, Outcome, HookTrace, request_budget_exhausted}
use mcpdoll.Pipeline.Engine.{
  World, Options, Request, State, should_enforce, skip_outcome, run_plugin,
}
use mcpdoll.Pipeline.Engine.Plugin.{run_plugin-not_enforced}
use mcpdoll.Pipeline.Engine.Run.{
  HookResult, Flow, proceed, halt, append_outcome, react, act_on, advance, turn, after_turn,
  run_from, run, no_plugins, or_payload,
}
use mcpdoll.Pipeline.Engine.Run.Keeps.{run_plugin-keeps}

-- The hook goes on with the same result and payload.
abbrev IsQuiet : State → HookResult → Flow → Type 0
IsQuiet s res (proceed s' t' res') = (res' ≡ res) × (s'.payload ≡ s.payload)
IsQuiet s res (halt s' t' res') = ⊥

act_on-IsQuiet :
    (w : World) (r : Request) (plugins : List PluginManifest) (m : PluginManifest) (o : Outcome)
    (s : State) (t : HookTrace) (res : HookResult) (v : Option Verdict)
    → o.is_enforced ≡ false
    → IsQuiet s res (act_on w r plugins m o s t res v)
unfolding act_on
act_on-IsQuiet w r plugins m o s t res none e = (refl, refl)
act_on-IsQuiet w r plugins m o s t res (some v) e = not_enforced o.is_enforced e
  where
    not_enforced :
        (b : Bool)
        → b ≡ false
        → IsQuiet s res (
            if not b
            then proceed s (append_outcome t o) res
            else react w r plugins m o s t res v v.decision)
    not_enforced true h = absurd (ground arith)
    not_enforced false h = (refl, refl)

IsQuiet-from :
    (s s' : State) (res : HookResult) (f : Flow)
    → s'.payload ≡ s.payload
    → IsQuiet s' res f
    → IsQuiet s res f
IsQuiet-from s s' res (proceed x t y) e (a, b) = (a, b ∙ e)
IsQuiet-from s s' res (halt x t y) e h = h

turn-IsQuiet :
    (w : World) (o : Options) (r : Request) (plugins : List PluginManifest) (d : ℕ)
    (m : PluginManifest) (s : State) (t : HookTrace) (res : HookResult)
    → should_enforce o r m ≡ false
    → IsQuiet s res (turn w o r plugins d m s t res)
unfolding turn advance
turn-IsQuiet w o r plugins d m s t res q = elim (Bool-cases (leb o.total_budget s.consumed)) [
  | inl e ↦ rw e (refl, refl)
  | inr e ↦ elim (Bool-cases (ltb d (w.clock s.readings))) [
    | inl f ↦ rw (e, f) (refl, refl)
    | inr f ↦
        rw (e, f)
          (IsQuiet-from s (advance (run_plugin w o r m d s).0) res _
            (run_plugin-keeps w o r m d s).0
            (act_on-IsQuiet w r plugins m (run_plugin w o r m d s).1
              (advance (run_plugin w o r m d s).0) t res (run_plugin w o r m d s).1.verdict
              (run_plugin-not_enforced w o r m d s q)))
  ]
]

-- The outcome of the hook for the request.
abbrev Unchanged : State → HookResult → State × HookTrace × HookResult → Type 0
Unchanged s res (s', t', res') =
    (s'.payload ≡ s.payload) × (res' ≡ record res { payload = or_payload res.payload s.payload })

run_from-unenforced :
    (w : World) (o : Options) (r : Request) (plugins : List PluginManifest) (d : ℕ)
    (ms : List PluginManifest) (s : State) (t : HookTrace) (res : HookResult)
    → all (λ m. not (should_enforce o r m)) ms ≡ true
    → Unchanged s res (run_from w o r plugins d ms s t res)
unfolding run_from all
run_from-unenforced w o r plugins d [] s t res h = (refl, refl)
run_from-unenforced w o r plugins d (m ∷ ms) s t res h =
    one_turn (turn w o r plugins d m s t res)
      (turn-IsQuiet w o r plugins d m s t res (ground arith))
      (λ s' t'. run_from-unenforced w o r plugins d ms s' t' res (ground arith))
  where
    one_turn :
        (f : Flow)
        → IsQuiet s res f
        → ((s' : State) (t' : HookTrace) → Unchanged s' res (run_from w o r plugins d ms s' t' res))
        → Unchanged s res (after_turn (run_from w o r plugins d ms) f)
    one_turn (halt s' t' res') q next = absurd q
    one_turn (proceed s' t' res') (e, p) next =
        let (a, b) = next s' t' in
        rw e (a ∙ p, b ∙ ap (λ q. record res { payload = or_payload res.payload q }) p)

-- A hook none of whose plugins is to be enforced for the request, all in shadow or outside the
-- canary sample, leaves the request's payload, and its result is to allow, decided by nobody.
pub run-unenforced :
    (w : World) (o : Options) (r : Request) (plugins : List PluginManifest) (s : State)
    → all (λ m. not (should_enforce o r m)) plugins ≡ true
    → let (s', t, res) = run w o r plugins s in
      (s'.payload ≡ s.payload)
      × (res.decision ≡ allow_request)
      × (res.decided_by ≡ [])
      × (res.annotations ≡ [])
unfolding run no_plugins
run-unenforced w o r [] s h = (refl, refl, refl, refl)
run-unenforced w o r (m ∷ ms) s h =
    let (a, b) = run_from-unenforced w o r (m ∷ ms) _ (m ∷ ms) _ _ _ h in
    (a, ap (λ x. x.decision) b, ap (λ x. x.decided_by) b, ap (λ x. x.annotations) b)

-- What a hook leaves of a request whose budget is spent.
abbrev Skipped :
    Request
    → List PluginManifest
    → State
    → HookTrace
    → HookResult
    → State × HookTrace × HookResult
    → Type 0
Skipped r ms s t res (s', t', res') =
    (s'.breakers ≡ s.breakers)
    × (s'.payload ≡ s.payload)
    × (s'.consumed ≡ s.consumed)
    × (t'.outcomes ≡ t.outcomes ++ map (λ m. skip_outcome m r.hook request_budget_exhausted) ms)
    × (res'.decision ≡ res.decision)

run_from-spent :
    (w : World) (o : Options) (r : Request) (plugins : List PluginManifest) (d : ℕ)
    (ms : List PluginManifest) (s : State) (t : HookTrace) (res : HookResult)
    → leb o.total_budget s.consumed ≡ true
    → Skipped r ms s t res (run_from w o r plugins d ms s t res)
unfolding run_from turn advance
run_from-spent w o r plugins d [] s t res h = (refl, refl, refl, sym (append-nil t.outcomes), refl)
run_from-spent w o r plugins d (m ∷ ms) s t res h = rw h (
    let (a, b, c, e, f) =
      run_from-spent w o r plugins d ms (advance s)
        (append_outcome t (skip_outcome m r.hook request_budget_exhausted)) res h in
    (
      a,
      b,
      c,
      e ∙ append_assoc t.outcomes (skip_outcome m r.hook request_budget_exhausted ∷ []) _,
      f,
    ))

-- A hook of a request that has spent its whole plugin budget runs no plugin: it records each one
-- as skipped for that reason, in order, leaves the breakers, the payload and the consumed budget,
-- and allows the request.
pub run-spent :
    (w : World) (o : Options) (r : Request) (plugins : List PluginManifest) (s : State)
    → o.total_budget ≤ s.consumed
    → let (s', t, res) = run w o r plugins s in
      (s'.breakers ≡ s.breakers)
      × (s'.payload ≡ s.payload)
      × (s'.consumed ≡ s.consumed)
      × (t.outcomes ≡ map (λ m. skip_outcome m r.hook request_budget_exhausted) plugins)
      × (res.decision ≡ allow_request)
unfolding run no_plugins
run-spent w o r [] s h = (refl, refl, refl, refl, refl)
run-spent w o r (m ∷ ms) s h = run_from-spent w o r (m ∷ ms) _ (m ∷ ms) _ _ _ (ground arith)
