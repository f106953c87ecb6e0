-- ===== src/Pipeline/Engine/Enforced.antt =====
-- When a plugin's run is enforced, and with which verdict.
use mcpdoll.Base.{
  ℕ, ◌+◌, sym, ap, subst, Str, Bool, true, false, Option, none, some, ◌≡◌, refl, ◌⊎◌, inl, inr, ◌↔◌,
  if◌then◌else◌, Bool-cases, Option-cases,
}
use mcpdoll.Base.Dict.{lookup, str_key}
use mcpdoll.Proto.{
  EffectClass, effect_string, FailureMode, mode_unspecified, mode_open, mode_closed, PluginManifest,
}
use mcpdoll.Pipeline.Verdict.{Outcome, invoke_error, Verdict, validate}
use mcpdoll.Pipeline.Engine.{
  World, Options, Request, State, or_allow, plain_verdict, interleave, specified, invoke_failed,
  InvokeResult, failed, returned, should_enforce, failure_mode, is_closed, base_outcome,
  skip_outcome, closed_verdict, judged, finish_plugin, invoke_plugin, host_missing, resolve_host,
  run_plugin, store_breaker,
}
use mcpdoll.Pipeline.Engine.Plugin.{admits, invocation}

-- Where a verdict comes from: the host's answer, which is valid and where none means allow, or an
-- error of the call under a policy that is closed for the request's effect class.
abbrev pub Grounds : Request → PluginManifest → InvokeResult → Verdict → Type 0
Grounds r m x v =
    (((x ≡ returned (some v)) ⊎ ((x ≡ returned none) × (v ≡ plain_verdict)))
      × (validate v m ≡ none))
    ⊎ ((text : Str) × (x ≡ failed text)
        × (lookup (effect_string r.effect_class) m.failure_policy ≡ some mode_closed)
        × (v ≡ closed_verdict m r.effect_class))

abbrev Enforces : Verdict → Outcome → Type 0
Enforces v out = (out.is_enforced ≡ true) × (out.verdict ≡ some v)

failure_mode-closed :
    (m : PluginManifest) (e : EffectClass)
    → (is_closed (failure_mode m e) ≡ true)
      ↔ (lookup (effect_string e) m.failure_policy ≡ some mode_closed)
unfolding failure_mode specified
failure_mode-closed m e = of_entry (lookup (effect_string e) m.failure_policy)
  where
    of_entry : (x : Option FailureMode) → (is_closed (specified x) ≡ true) ↔ (x ≡ some mode_closed)
    of_entry none = (λ h. cc, λ h. cc)
    of_entry (some mode_unspecified) = (λ h. cc, λ h. cc)
    of_entry (some mode_open) = (λ h. cc, λ h. cc)
    of_entry (some mode_closed) = (λ h. refl, λ h. refl)

invoke_failed-Enforces :
    (m : PluginManifest) (r : Request) (f : Bool) (text : Str) (o : Outcome) (v : Verdict)
    → o.is_enforced ≡ false
    → Enforces v (invoke_failed m r f text o) ↔ (
        (f ≡ true)
        × (is_closed (failure_mode m r.effect_class) ≡ true)
        × (v ≡ closed_verdict m r.effect_class))
unfolding invoke_failed
invoke_failed-Enforces m r f text o v h =
    elim (Bool-cases (is_closed (failure_mode m r.effect_class))) [
      | inl e ↦ rw (e, invoke_failed) (at_closed f)
      | inr e ↦ rw (e, invoke_failed) (λ g. absurd (cc), λ g. absurd (cc))
    ]
  where
    at_closed :
        (b : Bool)
        → Enforces v (
            if b
            then record o {
              failure = some (invoke_error text);
              failure_mode = some (failure_mode m r.effect_class);
              is_enforced = true;
              verdict = some (closed_verdict m r.effect_class);
            }
            else record o {
              failure = some (invoke_error text);
              failure_mode = some (failure_mode m r.effect_class);
            })
          ↔ ((b ≡ true) × (true ≡ true) × (v ≡ closed_verdict m r.effect_class))
    at_closed true = (λ g. (refl, refl, cc), λ g. (refl, cc))
    at_closed false = (λ g. absurd (cc), λ g. absurd (cc))

judged-Enforces :
    (m : PluginManifest) (r : Request) (f : Bool) (a v : Verdict) (o : Outcome)
    → o.is_enforced ≡ false
    → Enforces v (judged m r f a o) ↔ ((f ≡ true) × (a ≡ v) × (validate a m ≡ none))
unfolding judged
judged-Enforces m r f a v o h = elim (Option-cases (validate a m)) [
  | inl e ↦ rw (e, judged) (λ g. (g.0, cc, refl), λ g. (g.0, cc))
  | inr (x, e) ↦ rw (e, judged) (λ g. absurd (cc), λ g. absurd (cc))
]

finish_plugin-Enforces :
    (w : World) (o : Options) (r : Request) (m : PluginManifest) (f : Bool) (s : State)
    (x : InvokeResult) (v : Verdict)
    → Enforces v (finish_plugin w o r m f s x).1 ↔ ((f ≡ true) × Grounds r m x v)
unfolding finish_plugin base_outcome or_allow
finish_plugin-Enforces w o r m f s (failed text) v =
    let (there, back) =
      invoke_failed-Enforces m r f text (record (base_outcome m r.hook) { ran = true }) v refl in
    let (entry, closed) = failure_mode-closed m r.effect_class in
    (
      λ h. let (a, b, c) = there h in (a, inr (text, refl, entry b, c)),
      λ (a, g). elim g [
        | inl (k, _) ↦ absurd (not_answered k)
        | inr (_, _, b, c) ↦ back (a, closed b, c)
      ],
    )
  where
    not_answered : ¬ (
        ((failed text) ≡ returned (some v)) ⊎ ((failed text ≡ returned none) × (v ≡ plain_verdict)))
    not_answered (inl h) = cc
    not_answered (inr h) = cc
finish_plugin-Enforces w o r m f s (returned none) v =
    let (there, back) =
      judged-Enforces m r f plain_verdict v (record (base_outcome m r.hook) { ran = true }) refl in
    (
      λ h.
          let (a, b, c) = there h in
          (a, inl (inr (refl, sym b), subst (λ z. validate z m ≡ none) b c)),
      λ (a, g). elim g [
        | inl (inl k, _) ↦ absurd (nothing_answered k)
        | inl (inr (_, b), c) ↦ back (a, sym b, subst (λ z. validate z m ≡ none) b c)
        | inr (_, k, _, _) ↦ absurd (not_failed k)
      ],
    )
  where
    nothing_answered : ¬ (returned none ≡ returned (some v))
    nothing_answered h = cc

    not_failed : {t : Str} → ¬ (returned none ≡ failed t)
    not_failed h = cc
finish_plugin-Enforces w o r m f s (returned (some a)) v =
    let (there, back) =
      judged-Enforces m r f a v (record (base_outcome m r.hook) { ran = true }) refl in
    (
      λ h.
          let (b, e, c) = there h in
          (b, inl (inl (ap (λ z. returned (some z)) e), subst (λ z. validate z m ≡ none) e c)),
      λ (b, g). elim g [
        | inl (inl k, c) ↦
            let e = answered k in back (b, e, subst (λ z. validate z m ≡ none) (sym e) c)
        | inl (inr (k, _), _) ↦ absurd (something_answered k)
        | inr (_, k, _, _) ↦ absurd (not_failed k)
      ],
    )
  where
    answered : returned (some a) ≡ returned (some v) → a ≡ v
    answered h = cc

    something_answered : ¬ (returned (some a) ≡ returned none)
    something_answered h = cc

    not_failed : {t : Str} → ¬ (returned (some a) ≡ failed t)
    not_failed h = cc

resolve_host-Enforces :
    (w : World) (o : Options) (r : Request) (m : PluginManifest) (d : ℕ) (s : State)
    (x : Option Str) (v : Verdict)
    → Enforces v (resolve_host w o r m d s x).1 ↔ (
        (x ≡ none)
        × (should_enforce o r m ≡ true)
        × Grounds r m (w.invoke (s.readings + 3) (invocation w o r m d s)) v)
unfolding resolve_host host_missing skip_outcome base_outcome invocation invoke_plugin
resolve_host-Enforces w o r m d s none v =
    let (there, back) =
      finish_plugin-Enforces w o r m (should_enforce o r m) _
        (w.invoke (s.readings + 3) (invocation w o r m d s)) v in
    (λ h. let (a, b) = there h in (refl, a, b), λ (_, a, b). back (a, b))
resolve_host-Enforces w o r m d s (some e) v = (λ h. absurd (cc), λ h. absurd (cc))

-- A plugin's run is enforced with a verdict exactly if the breaker lets it run, the resolver finds
-- its host, its rollout is to be enforced for the request, and the verdict is the host's own valid
-- answer, where no answer means allow, or the call has failed, the policy that the manifest
-- declares for the request's effect class is closed, and the verdict is the denial for that class.
pub run_plugin-enforced_iff :
    (w : World) (o : Options) (r : Request) (m : PluginManifest) (d : ℕ) (s : State) (v : Verdict)
    → (((run_plugin w o r m d s).1.is_enforced ≡ true)
        × ((run_plugin w o r m d s).1.verdict ≡ some v))
      ↔ ((admits w o m s ≡ true)
          × (w.host m ≡ none)
          × (should_enforce o r m ≡ true)
          × Grounds r m (w.invoke (s.readings + 3) (invocation w o r m d s)) v)
unfolding run_plugin interleave store_breaker invocation skip_outcome base_outcome
run_plugin-enforced_iff w o r m d s v = elim (Bool-cases (admits w o m s)) [
  | inl e ↦
      let (there, back) = resolve_host-Enforces w o r m d _ (w.host m) v in
      rw (e, run_plugin)
        (λ h. let (a, b, c) = there h in (refl, a, b, c), λ (_, a, b, c). back (a, b, c))
  | inr e ↦ rw (e, run_plugin) (λ h. absurd (cc), λ h. absurd (cc))
]
