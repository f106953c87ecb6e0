-- ===== src/Pipeline/Engine/Run/Recorded.antt =====
-- The trace of a hook accounts for every configured plugin.
use mcpdoll.Base.{
  ℕ, Str, true, false, List, [], ◌∷◌, ◌++◌, append_assoc, append-nil, map, ◌≡◌, refl, sym, ap, ◌∙◌,
  arith, str_eq, str_eq_iff, str_eq_refl, any, Bool-cases, inl, inr,
}
use mathlib.Core.List.{map-append}
use mcpdoll.Base.Distinct.{distinct, distinct_around}
use mcpdoll.Proto.{Hook, PluginManifest}
use mcpdoll.Pipeline.Verdict.{Outcome, HookTrace}
use mcpdoll.Pipeline.Engine.{World, Options, Request, State, skip_outcome}
use mcpdoll.Pipeline.Engine.Run.{
  HookResult, Flow, proceed, halt, mark_short_circuited, turn, after_turn, run_from, run,
  no_plugins,
}
use mcpdoll.Pipeline.Engine.Run.Keeps.{IsRecorded, turn-IsRecorded}

abbrev pub ids : List PluginManifest → List Str
ids = map (λ m. m.id)

abbrev pub recorded : List Outcome → List Str
recorded = map (λ o. o.plugin_id)

-- Behind the decider every plugin with another id is marked.
mark_behind :
    (id : Str) (hook : Hook) (ms : List PluginManifest)
    → any (str_eq id) (ids ms) ≡ false
    → recorded (mark_short_circuited id hook true ms) ≡ ids ms
unfolding mark_short_circuited any skip_outcome
mark_behind id hook [] h = refl
mark_behind id hook (m ∷ ms) h = elim (Bool-cases (str_eq m.id id)) [
  | inl e ↦ ground (arith, str_eq_iff m.id id, str_eq_iff id m.id)
  | inr e ↦ rw e (ap (λ r. m.id ∷ r) (mark_behind id hook ms (ground arith)))
]

-- The plugins before it are passed over.
mark_before :
    (id : Str) (hook : Hook) (before ms : List PluginManifest)
    → any (λ x. str_eq x id) (ids before) ≡ false
    → mark_short_circuited id hook false (before ++ ms) ≡ mark_short_circuited id hook false ms
unfolding mark_short_circuited any
mark_before id hook [] ms h = refl
mark_before id hook (m ∷ before) ms h = elim (Bool-cases (str_eq m.id id)) [
  | inl e ↦ ground arith
  | inr e ↦ rw e (mark_before id hook before ms (ground arith))
]

mark_self :
    (hook : Hook) (m : PluginManifest) (ms : List PluginManifest)
    → mark_short_circuited m.id hook false (m ∷ ms) ≡ mark_short_circuited m.id hook true ms
unfolding mark_short_circuited
mark_self hook m ms = rw (str_eq_refl m.id)

-- The plugins before, the plugin, and those that it pre-empts.
halted :
    (hook : Hook) (before : List PluginManifest) (m : PluginManifest) (ms : List PluginManifest)
    → distinct (ids (before ++ m ∷ ms)) ≡ true
    → recorded (mark_short_circuited m.id hook false (before ++ m ∷ ms)) ≡ ids ms
halted hook before m ms h =
    let (l, r) =
      distinct_around (ids before) m.id (ids ms)
        (ap distinct (sym (map-append (λ m. m.id) before (m ∷ ms))) ∙ h) in
    ap recorded (mark_before m.id hook before (m ∷ ms) l ∙ mark_self hook m ms)
    ∙ mark_behind m.id hook ms r

-- One more outcome.
recorded_next :
    (before : List PluginManifest) (m : PluginManifest) (os : List Outcome) (out : Outcome)
    → out.plugin_id ≡ m.id
    → recorded os ≡ ids before
    → recorded (os ++ out ∷ []) ≡ ids (before ++ m ∷ [])
recorded_next before m os out e h =
    map-append (λ o. o.plugin_id) os (out ∷ [])
    ∙ ap (λ l. l ++ out.plugin_id ∷ []) h
    ∙ ap (λ i. ids before ++ i ∷ []) e
    ∙ sym (map-append (λ m. m.id) before (m ∷ []))

run_from-recorded :
    (w : World) (o : Options) (r : Request) (all : List PluginManifest) (d : ℕ)
    (before ms : List PluginManifest) (s : State) (t : HookTrace) (res : HookResult)
    → distinct (ids all) ≡ true
    → all ≡ before ++ ms
    → recorded t.outcomes ≡ ids before
    → recorded (run_from w o r all d ms s t res).1.outcomes ≡ ids all
unfolding run_from
run_from-recorded w o r all d before [] s t res u e h =
    h ∙ ap ids (sym (append-nil before)) ∙ ap ids (sym e)
run_from-recorded w o r all d before (m ∷ ms) s t res u e h =
    one_turn (turn w o r all d m s t res) (turn-IsRecorded w o r all d m s t res) (λ s' t' res' k.
      run_from-recorded w o r all d (before ++ m ∷ []) ms s' t' res' u
        (e ∙ sym (append_assoc before (m ∷ []) ms)) k)
  where
    one_turn :
        (f : Flow)
        → IsRecorded all r m t f
        → ((s' : State) (t' : HookTrace) (res' : HookResult)
            → recorded t'.outcomes ≡ ids (before ++ m ∷ [])
            → recorded (run_from w o r all d ms s' t' res').1.outcomes ≡ ids all)
        → recorded (after_turn (run_from w o r all d ms) f).1.outcomes ≡ ids all
    one_turn (proceed s' t' res') (out, i, q) next =
        next s' t' res' (ap recorded q ∙ recorded_next before m t.outcomes out i h)
    one_turn (halt s' t' res') (out, i, q) next =
        ap recorded q
        ∙ map-append (λ o. o.plugin_id) (t.outcomes ++ out ∷ [])
            (mark_short_circuited m.id r.hook false all)
        ∙ ap (λ l. l ++ recorded (mark_short_circuited m.id r.hook false all))
            (recorded_next before m t.outcomes out i h)
        ∙ ap (λ l. ids (before ++ m ∷ []) ++ recorded (mark_short_circuited m.id r.hook false l)) e
        ∙ ap (λ l. ids (before ++ m ∷ []) ++ l)
            (halted r.hook before m ms (ap (λ l. distinct (ids l)) (sym e) ∙ u))
        ∙ sym (map-append (λ m. m.id) (before ++ m ∷ []) ms)
        ∙ ap ids (append_assoc before (m ∷ []) ms ∙ sym e)

-- With no id configured twice, the trace of a hook has one outcome for each configured plugin, in
-- their order, whether it ran, was skipped, or was pre-empted by an earlier plugin's decision.
pub run-recorded :
    (w : World) (o : Options) (r : Request) (plugins : List PluginManifest) (s : State)
    → distinct (ids plugins) ≡ true
    → recorded (run w o r plugins s).1.outcomes ≡ ids plugins
unfolding run no_plugins
run-recorded w o r [] s u = refl
run-recorded w o r (m ∷ ms) s u = run_from-recorded w o r (m ∷ ms) _ [] (m ∷ ms) _ _ _ u refl refl
