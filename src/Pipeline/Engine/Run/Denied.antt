-- ===== src/Pipeline/Engine/Run/Denied.antt =====
-- A denial is some enforced plugin's.
use mcpdoll.Base.{
  ℕ, Str, Bool, true, false, not, Option, none, some, List, [], ◌∷◌, ◌++◌, ◌≡◌, ◌≢◌, refl, ap,
  arith, leb, ltb, if◌then◌else◌, Memᴰ, Bool-cases, inl, inr, Result, ok, err,
}
use mcpdoll.Proto.{PluginManifest}
use mcpdoll.Pipeline.Verdict.{
  Decision, allow_request, deny, mutate, annotate, defer, other, Verdict, Outcome, HookTrace,
}
use mcpdoll.Pipeline.Patch.Document.{PatchError}
use mcpdoll.Pipeline.Patch.Apply.{apply_patch}
use mcpdoll.Pipeline.Engine.{World, Options, Request, State, should_enforce, run_plugin}
use mcpdoll.Pipeline.Engine.Plugin.{run_plugin-not_enforced}
use mcpdoll.Pipeline.Engine.Run.{
  HookResult, Flow, proceed, halt, append_outcome, patched, react, act_on, advance, turn,
  after_turn, run_from, run, no_plugins,
}
use mcpdoll.Pipeline.Engine.Run.Keeps.{run_plugin-keeps}

-- The plugin's enforced verdict denied the request, for the reason given, and is in the trace.
abbrev pub IsDenial : Options → Request → PluginManifest → HookTrace → HookResult → Type 0
IsDenial o r m t res =
    (out : Outcome) × (v : Verdict) × Memᴰ out t.outcomes
    × (out.plugin_id ≡ m.id)
    × (out.is_enforced ≡ true)
    × (out.verdict ≡ some v)
    × (v.decision ≡ deny)
    × (should_enforce o r m ≡ true)
    × (res.decided_by ≡ m.name)
    × (res.reason ≡ v.reason)

-- The turn of a plugin denies nothing, or by that plugin.
abbrev DeniesBy : Options → Request → PluginManifest → Flow → Type 0
DeniesBy o r m (proceed s t res) = res.decision ≢ deny
DeniesBy o r m (halt s t res) = res.decision ≡ deny → IsDenial o r m t res

is_deny : Decision → Bool
is_deny deny = true
is_deny _ = false

no_denial : (d : Decision) → is_deny d ≡ false → d ≢ deny
unfolding is_deny
no_denial d h e = ground (arith, ap is_deny e)

mem_here : {A : Type 0} (x : A) (xs ys : List A) → Memᴰ x ((xs ++ x ∷ []) ++ ys)
mem_here x [] ys = Memᴰ.head refl
mem_here x (y ∷ xs) ys = Memᴰ.tail (mem_here x xs ys)

module _ (opts : Options) (w : World) (r : Request) (plugins : List PluginManifest)
    (m : PluginManifest) where
  patched-DeniesBy :
      (o : Outcome) (s : State) (t : HookTrace) (res : HookResult) (p : Result PatchError Str)
      → res.decision ≢ deny
      → DeniesBy opts r m (patched w m o s t res p)
  unfolding patched is_deny
  patched-DeniesBy o s t res (ok doc) n = no_denial mutate refl
  patched-DeniesBy o s t res (err x) n = n

  react-DeniesBy :
      (o : Outcome) (s : State) (t : HookTrace) (res : HookResult) (v : Verdict) (d : Decision)
      → o.plugin_id ≡ m.id
      → o.is_enforced ≡ true
      → should_enforce opts r m ≡ true
      → o.verdict ≡ some v
      → v.decision ≡ d
      → res.decision ≢ deny
      → DeniesBy opts r m (react w r plugins m o s t res v d)
  unfolding react is_deny
  react-DeniesBy o s t res v deny i e q a b n =
      λ _. (o, v, mem_here o t.outcomes _, i, e, a, b, q, refl, refl)
  react-DeniesBy o s t res v defer i e q a b n = λ k. absurd (no_denial defer refl k)
  react-DeniesBy o s t res v mutate i e q a b n =
      patched-DeniesBy o s t res (apply_patch w.codec s.payload v.patch m.writes) n
  react-DeniesBy o s t res v annotate i e q a b n = n
  react-DeniesBy o s t res v allow_request i e q a b n = n
  react-DeniesBy o s t res v (other _) i e q a b n = n

  act_on-DeniesBy :
      (o : Outcome) (s : State) (t : HookTrace) (res : HookResult) (v : Option Verdict)
      → o.plugin_id ≡ m.id
      → (o.is_enforced ≡ true → should_enforce opts r m ≡ true)
      → o.verdict ≡ v
      → res.decision ≢ deny
      → DeniesBy opts r m (act_on w r plugins m o s t res v)
  unfolding act_on
  act_on-DeniesBy o s t res none i q a n = n
  act_on-DeniesBy o s t res (some v) i q a n = enforced_or_not o.is_enforced refl
    where
      enforced_or_not :
          (b : Bool)
          → o.is_enforced ≡ b
          → DeniesBy opts r m (
              if not b
              then proceed s (append_outcome t o) res
              else react w r plugins m o s t res v v.decision)
      enforced_or_not true e = react-DeniesBy o s t res v v.decision i e (q e) a refl n
      enforced_or_not false e = n

  turn-DeniesBy :
      (d : ℕ) (s : State) (t : HookTrace) (res : HookResult)
      → res.decision ≢ deny
      → DeniesBy opts r m (turn w opts r plugins d m s t res)
  unfolding turn
  turn-DeniesBy d s t res n = elim (Bool-cases (leb opts.total_budget s.consumed)) [
    | inl e ↦ rw e n
    | inr e ↦ elim (Bool-cases (ltb d (w.clock s.readings))) [
      | inl f ↦ rw (e, f) n
      | inr f ↦
          rw (e, f)
            (act_on-DeniesBy (run_plugin w opts r m d s).1 (advance (run_plugin w opts r m d s).0) t
              res (run_plugin w opts r m d s).1.verdict (run_plugin-keeps w opts r m d s).1
              (λ k. elim (Bool-cases (should_enforce opts r m)) [
                | inl g ↦ g
                | inr g ↦ absurd (ground (arith, run_plugin-not_enforced w opts r m d s g))
              ])
              refl n)
    ]
  ]

-- One of the plugins denied.
abbrev pub Denier :
    Options → Request → List PluginManifest → State × HookTrace × HookResult → Type 0
Denier o r ms (s, t, res) = (m : PluginManifest) × Memᴰ m ms × IsDenial o r m t res

run_from-denied :
    (w : World) (o : Options) (r : Request) (plugins : List PluginManifest) (d : ℕ)
    (ms : List PluginManifest) (s : State) (t : HookTrace) (res : HookResult)
    → res.decision ≢ deny
    → (run_from w o r plugins d ms s t res).2.decision ≡ deny
    → Denier o r ms (run_from w o r plugins d ms s t res)
unfolding run_from
run_from-denied w o r plugins d [] s t res n h = absurd (n h)
run_from-denied w o r plugins d (m ∷ ms) s t res n h =
    one_turn (turn w o r plugins d m s t res) (turn-DeniesBy o w r plugins m d s t res n) h
      (λ s' t' res'. run_from-denied w o r plugins d ms s' t' res')
  where
    one_turn :
        (f : Flow)
        → DeniesBy o r m f
        → (after_turn (run_from w o r plugins d ms) f).2.decision ≡ deny
        → ((s' : State) (t' : HookTrace) (res' : HookResult)
            → res'.decision ≢ deny
            → (run_from w o r plugins d ms s' t' res').2.decision ≡ deny
            → Denier o r ms (run_from w o r plugins d ms s' t' res'))
        → Denier o r (m ∷ ms) (after_turn (run_from w o r plugins d ms) f)
    one_turn (halt s' t' res') q k next = (m, Memᴰ.head refl, q k)
    one_turn (proceed s' t' res') q k next =
        let (m', i, z) = next s' t' res' q k in (m', Memᴰ.tail i, z)

-- A hook denies a request only by one of its plugins that is to be enforced for the request: the
-- trace has an enforced outcome of that plugin with a denying verdict, and the result names the
-- plugin and gives the verdict's reason.
pub run-denied :
    (w : World) (o : Options) (r : Request) (plugins : List PluginManifest) (s : State)
    → (run w o r plugins s).2.decision ≡ deny
    → Denier o r plugins (run w o r plugins s)
unfolding run no_plugins is_deny
run-denied w o r [] s h = absurd (no_denial allow_request refl h)
run-denied w o r (m ∷ ms) s h =
    run_from-denied w o r (m ∷ ms) _ (m ∷ ms) _ _ _ (no_denial allow_request refl) h
