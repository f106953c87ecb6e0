-- ===== src/Pipeline/Engine/Probe.antt =====
-- A half-open probe that finds no host is not given back: the plugin does not run again unless a run
-- in flight from before reports.
use mcpdoll.Base.{
  ℕ, ◌+◌, Str, Bool, true, false, not, ◌&&◌, some, List, [], ◌∷◌, map, all, ◌≡◌, refl, sym, subst,
  arith, str_eq, str_eq_iff, str_eq_refl, Bool-cases, inl, inr,
}
use mcpdoll.Base.Dict.{Dict, insert, lookup-insert, str_key}
use mcpdoll.Proto.{PluginManifest}
use mcpdoll.Pipeline.Breaker.{Breaker, allow, take_just_opened}
use mcpdoll.Pipeline.Verdict.{circuit_open, Outcome}
use mcpdoll.Pipeline.Engine.{
  World, Options, Request, State, Call, asks, succeeds, fails, reads, Event, breaker_for, called,
  others_act, interleave, skip_outcome, store_breaker, resolve_host, run_plugin,
}
use mcpdoll.Pipeline.Engine.Plugin.{breaker_of, admits}

-- Open, with a probe that nobody reports on.
abbrev pub IsStuck : Options → PluginManifest → Dict Str Breaker → Type 0
IsStuck o m bs =
    ((breaker_for o m.id bs).is_open ≡ true) × ((breaker_for o m.id bs).probe_in_flight ≡ true)

abbrev reports : Call → Bool
reports succeeds = true
reports (fails now) = true
reports (asks now) = false
reports reads = false

-- No other run reports a success or a failure of the plugin.
unfoldable pub no_report : Str → List Event → Bool
no_report id es = all (λ e. not (str_eq e.plugin_id id && reports e.call)) es

-- A later run of the plugin: its surroundings, the request, the hook's deadline, and what else has
-- become of the state.
pub record Later : Type 0 where
  pub world : World
  pub request : Request
  pub deadline : ℕ
  pub payload : Str
  pub consumed : ℕ
  pub readings : ℕ

abbrev pub resume : Later → State → State
resume l s = record s { payload = l.payload; consumed = l.consumed; readings = l.readings }

unfoldable pub run_again : Options → PluginManifest → List Later → State → List Outcome
run_again o m [] s = []
run_again o m (l ∷ ls) s =
    let (s', out) = run_plugin l.world o l.request m l.deadline (resume l s) in
    out ∷ run_again o m ls s'

breaker_for-insert :
    (o : Options) (id : Str) (b : Breaker) (bs : Dict Str Breaker)
    → breaker_for o id (insert id b bs) ≡ b
unfolding breaker_for
breaker_for-insert o id b bs = rw (breaker_for, lookup-insert id id b bs, str_eq_refl id)

breaker_for-insert_ne :
    (o : Options) (j id : Str) (b : Breaker) (bs : Dict Str Breaker)
    → str_eq j id ≡ false
    → breaker_for o id (insert j b bs) ≡ breaker_for o id bs
unfolding breaker_for
breaker_for-insert_ne o j id b bs h = rw (breaker_for, lookup-insert j id b bs, h)

allow_stuck :
    (now : ℕ) (b : Breaker) → b.is_open ≡ true → b.probe_in_flight ≡ true → allow now b ≡ (b, false)
unfolding allow
allow_stuck now b p q = ground arith

called-stuck :
    (c : Call) (b : Breaker)
    → reports c ≡ false
    → b.is_open ≡ true
    → b.probe_in_flight ≡ true
    → ((called c b).is_open ≡ true) × ((called c b).probe_in_flight ≡ true)
unfolding called take_just_opened
called-stuck (asks now) b h p q = rw (allow_stuck now b p q, called) (p, q)
called-stuck succeeds b h p q = absurd (cc)
called-stuck (fails now) b h p q = absurd (cc)
called-stuck reads b h p q = ground arith

others_act-IsStuck :
    (o : Options) (m : PluginManifest) (es : List Event) (bs : Dict Str Breaker)
    → no_report m.id es ≡ true
    → IsStuck o m bs
    → IsStuck o m (others_act o es bs)
unfolding others_act no_report all
others_act-IsStuck o m [] bs h k = k
others_act-IsStuck o m (e ∷ es) bs h k =
    others_act-IsStuck o m es (insert e.plugin_id b bs) (ground arith)
      (elim (Bool-cases (str_eq e.plugin_id m.id)) [
        | inr f ↦ rw (breaker_for-insert_ne o e.plugin_id m.id b bs f) k
        | inl f ↦ on_it ((str_eq_iff e.plugin_id m.id).0 f) (ground arith)
      ])
  where
    b : Breaker
    b = called e.call (breaker_for o e.plugin_id bs)

    on_it : e.plugin_id ≡ m.id → reports e.call ≡ false → IsStuck o m (insert e.plugin_id b bs)
    on_it f g =
        subst (λ id. IsStuck o m (insert id (called e.call (breaker_for o id bs)) bs)) (sym f)
          (rw (breaker_for-insert o m.id (called e.call (breaker_for o m.id bs)) bs)
            (called-stuck e.call (breaker_for o m.id bs) g k.0 k.1))

IsStuck-step :
    (w : World) (o : Options) (r : Request) (m : PluginManifest) (d : ℕ) (s : State)
    → no_report m.id (w.meanwhile (s.readings + 1)) ≡ true
    → IsStuck o m s.breakers
    → ((run_plugin w o r m d s).1 ≡ skip_outcome m r.hook circuit_open)
      × IsStuck o m (run_plugin w o r m d s).0.breakers
unfolding run_plugin store_breaker interleave
IsStuck-step w o r m d s q h =
    let still = others_act-IsStuck o m (w.meanwhile (s.readings + 1)) s.breakers q h in
    rw
      (
        allow_stuck (w.clock (s.readings + 1)) (breaker_of w o m s) still.0 still.1,
        run_plugin,
        breaker_for-insert o m.id (breaker_of w o m s) (interleave w o (s.readings + 1) s).breakers,
      )
      (refl, still)

-- In no later run has a report come in meanwhile.
unfoldable pub unreported : Str → List Later → Bool
unreported id ls = all (λ l. no_report id (l.world.meanwhile (l.readings + 1))) ls

stuck_runs :
    (o : Options) (m : PluginManifest) (ls : List Later) (s : State)
    → unreported m.id ls ≡ true
    → IsStuck o m s.breakers
    → run_again o m ls s ≡ map (λ l. skip_outcome m l.request.hook circuit_open) ls
unfolding run_again unreported all
stuck_runs o m [] s q h = refl
stuck_runs o m (l ∷ ls) s q h =
    let (out, still) =
      IsStuck-step l.world o l.request m l.deadline (resume l s) (ground arith) h in
    rw (
      out,
      stuck_runs o m ls (run_plugin l.world o l.request m l.deadline (resume l s)).0 (ground arith)
          still,
    )

missing_host_sticks :
    (w : World) (o : Options) (r : Request) (m : PluginManifest) (d : ℕ) (s : State) (text : Str)
    → w.host m ≡ some text
    → (breaker_of w o m s).is_open ≡ true
    → admits w o m s ≡ true
    → IsStuck o m (run_plugin w o r m d s).0.breakers
unfolding run_plugin store_breaker resolve_host interleave
missing_host_sticks w o r m d s text h p a =
    rw
      (
        a,
        run_plugin,
        h,
        resolve_host,
        breaker_for-insert o m.id (allow (w.clock (s.readings + 1)) (breaker_of w o m s)).0
            (interleave w o (s.readings + 1) s).breakers,
      )
      (unfold allow in ground arith)

-- When an open breaker lets a plugin run as its probe and the host cannot be resolved, then, as
-- long as no run of the plugin that was let through before reports a success or a failure, every
-- later run of the plugin is skipped because the circuit is open: at any time, for any request,
-- with any host, and however other requests' runs ask for the breaker in between.
pub run_plugin-probe_lost :
    (w : World) (o : Options) (r : Request) (m : PluginManifest) (d : ℕ) (s : State) (text : Str)
    (ls : List Later)
    → w.host m ≡ some text
    → (breaker_of w o m s).is_open ≡ true
    → admits w o m s ≡ true
    → unreported m.id ls ≡ true
    → run_again o m ls (run_plugin w o r m d s).0
      ≡ map (λ l. skip_outcome m l.request.hook circuit_open) ls
run_plugin-probe_lost w o r m d s text ls h p a q =
    stuck_runs o m ls (run_plugin w o r m d s).0 q (missing_host_sticks w o r m d s text h p a)
