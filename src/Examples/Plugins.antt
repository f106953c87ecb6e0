-- ===== src/Examples/Plugins.antt =====
-- A redaction plugin that fails closed for write tools.
use mcpdoll.Pipeline.Engine.Run.{run}
use mcpdoll.Pipeline.Engine.Run.Recorded.{ids, recorded, run-recorded}
use mcpdoll.Pipeline.Engine.Run.Denied.{Denier, run-denied}
use mcpdoll.Pipeline.Engine.Run.Unenforced.{run-unenforced}
use mcpdoll.Base.{
  ℕ, ◌+◌, ◌*◌, ◌≤◌, Str, codes, Bool, true, false, Option, none, some, List, [], ◌∷◌, map, ◌≡◌,
  refl, arith, inr, inl, ◌↔◌, if◌then◌else◌,
}
use mcpdoll.Base.Integers.{pos}
use mcpdoll.Proto.{
  effect_write, on_tool_call, Rollout, enforced, shadow, mode_closed, PluginManifest,
}
use mcpdoll.Pipeline.Verdict.{
  Verdict, validate, other, circuit_open, allow_request, invalid_decision,
}
use mcpdoll.Pipeline.Breaker.{Breaker}
use mcpdoll.Pipeline.Patch.Apply.{Codec}
use mcpdoll.Pipeline.Engine.{
  hash_sample, Options, new_options, InvokeResult, failed, returned, World, Request, State, asks,
  interleave, others_act, run_plugin, skip_outcome, closed_verdict, failure_mode, is_closed,
  plain_verdict, should_enforce,
}
use mcpdoll.Pipeline.Engine.Plugin.{admits, invocation, run_plugin-unjudged}
use mcpdoll.Pipeline.Engine.Enforced.{Grounds, run_plugin-enforced_iff}
use mcpdoll.Pipeline.Engine.Probe.{Later, run_again, run_plugin-probe_lost}

abbrev redact : Rollout → PluginManifest
redact rollout = record {
  id = codes "p1";
  name = codes "redact";
  hooks = on_tool_call ∷ [];
  priority = pos 1;
  budget_ms = 5;
  writes = codes "arguments" ∷ [];
  failure_policy = (codes "EFFECT_CLASS_WRITE", mode_closed) ∷ [];
  rollout = rollout;
  canary_percent = 0;
  toolset_ids = [];
}

abbrev no_codec : Codec
no_codec = record { decode_ops = λ s. none; decode = λ s. none; marshal = λ d. none }

abbrev world : Option Str → InvokeResult → World
world host answer = record {
  clock = λ k. 100 + k;
  host = λ m. host;
  invoke = λ k i. answer;
  meanwhile = λ k. [];
  codec = no_codec;
  error_text = λ e. codes "patch";
}

abbrev options : Options
options = record {
  total_budget = 1000;
  hook_budget = 500;
  plugin_budget = 100;
  circuit_failure_threshold = 2;
  circuit_cooldown = 10;
  sample = λ id percent. false;
}

abbrev request : Request
request = record { request_id = codes "r1"; hook = on_tool_call; effect_class = effect_write }

abbrev first : State
first = record { breakers = []; payload = codes "in"; consumed = 0; readings = 0 }

abbrev due : Breaker
due = record {
  threshold = 2;
  cooldown = 10;
  consecutive = 2;
  is_open = true;
  opened_at = 5;
  probe_in_flight = false;
  just_opened = false;
}

abbrev broken : State
broken = record first { breakers = (codes "p1", due) ∷ [] }

abbrev odd : Verdict
odd = record plain_verdict { decision = other (codes "maybe") }

abbrev timed_out : World
timed_out = world none (failed (codes "timeout"))

abbrev refusal : Verdict
refusal = closed_verdict (redact enforced) effect_write

enforced_for_write : Grounds request (redact enforced) (failed (codes "timeout")) refusal
unfolding mcpdoll.Base.Dict.lookup mcpdoll.Proto.effect_string mcpdoll.Base.str_eq
enforced_for_write = inr (codes "timeout", refl, refl, refl)

run_plugin-enforced_iff_example :
    (((run_plugin timed_out options request (redact enforced) 600 first).1.is_enforced ≡ true)
      × ((run_plugin timed_out options request (redact enforced) 600 first).1.verdict
          ≡ some refusal))
    ↔ ((admits timed_out options (redact enforced) first ≡ true)
        × (timed_out.host (redact enforced) ≡ none)
        × (should_enforce options request (redact enforced) ≡ true)
        × Grounds request
            (redact enforced)
            (timed_out.invoke 3 (invocation timed_out options request (redact enforced) 600 first))
            refusal)
run_plugin-enforced_iff_example =
    run_plugin-enforced_iff timed_out options request (redact enforced) 600 first refusal

-- The timeout denies the request.
timeout_enforced :
    ((run_plugin timed_out options request (redact enforced) 600 first).1.is_enforced ≡ true)
    × ((run_plugin timed_out options request (redact enforced) 600 first).1.verdict ≡ some refusal)
unfolding should_enforce mcpdoll.Pipeline.Breaker.allow mcpdoll.Pipeline.Engine.breaker_for
    mcpdoll.Base.Dict.lookup interleave mcpdoll.Pipeline.Breaker.new_breaker
timeout_enforced =
    (run_plugin-enforced_iff timed_out options request (redact enforced) 600 first refusal).1
      (refl, refl, refl, enforced_for_write)

run_plugin-unjudged_example :
    ((run_plugin
        (world none (returned (some odd)))
        options
        request
        (redact enforced)
        600
        first).1.is_enforced
      ≡ false)
    × ((run_plugin
          (world none (returned (some odd)))
          options
          request
          (redact enforced)
          600
          first).1.verdict
        ≡ none)
unfolding validate
run_plugin-unjudged_example =
    run_plugin-unjudged (world none (returned (some odd))) options request (redact enforced) 600
      first (inr (inr (odd, invalid_decision, refl, refl)))

-- Meanwhile another request has asked for the breaker.
abbrev asked : World
asked = record (world none (returned none)) {
  meanwhile = λ k. record { plugin_id = codes "p1"; call = asks 7000 } ∷ [];
}

abbrev retries : List Later
retries =
    record {
      world = world none (returned none);
      request = request;
      deadline = 5000;
      payload = codes "in";
      consumed = 0;
      readings = 4000;
    }
    ∷ record {
      world = asked;
      request = request;
      deadline = 9000;
      payload = codes "in";
      consumed = 0;
      readings = 8000;
    }
    ∷ []

run_plugin-probe_lost_example :
    run_again options
      (redact enforced)
      retries
      (run_plugin
        (world (some (codes "no such host")) (returned none))
        options
        request
        (redact enforced)
        600
        broken).0
    ≡ map (λ l. skip_outcome (redact enforced) l.request.hook circuit_open) retries
unfolding mcpdoll.Pipeline.Engine.breaker_for mcpdoll.Base.Dict.lookup mcpdoll.Base.str_eq
    mcpdoll.Pipeline.Breaker.allow interleave mcpdoll.Pipeline.Engine.Probe.unreported
    mcpdoll.Base.all mcpdoll.Pipeline.Engine.Probe.no_report
run_plugin-probe_lost_example =
    run_plugin-probe_lost (world (some (codes "no such host")) (returned none)) options request
      (redact enforced) 600 broken (codes "no such host") retries refl refl refl refl

abbrev masking : PluginManifest
masking = record (redact shadow) { id = codes "p2" }

run-recorded_example :
    recorded
      (run
        (world none (failed (codes "timeout")))
        options
        request
        (redact enforced ∷ masking ∷ [])
        first).1.outcomes
    ≡ ids (redact enforced ∷ masking ∷ [])
unfolding mcpdoll.Base.Distinct.distinct mcpdoll.Base.any mcpdoll.Base.str_eq
run-recorded_example =
    run-recorded (world none (failed (codes "timeout"))) options request
      (redact enforced ∷ masking ∷ []) first refl

run-denied_example : Denier options request (redact enforced ∷ masking ∷ []) (
    run
      (world none (failed (codes "timeout")))
      options
      request
      (redact enforced ∷ masking ∷ [])
      first)
unfolding run mcpdoll.Pipeline.Engine.Run.turn mcpdoll.Pipeline.Engine.hook_budget run_plugin
    mcpdoll.Pipeline.Breaker.allow mcpdoll.Pipeline.Engine.breaker_for mcpdoll.Base.Dict.lookup
    mcpdoll.Pipeline.Breaker.new_breaker failure_mode mcpdoll.Base.str_eq
    mcpdoll.Proto.effect_string should_enforce closed_verdict
run-denied_example =
    run-denied (world none (failed (codes "timeout"))) options request
      (redact enforced ∷ masking ∷ []) first refl

run-unenforced_example :
    let (s', t, res) =
      run (world none (failed (codes "timeout"))) options request (masking ∷ []) first in
    (s'.payload ≡ codes "in")
    × (res.decision ≡ allow_request)
    × (res.decided_by ≡ [])
    × (res.annotations ≡ [])
unfolding mcpdoll.Base.all should_enforce
run-unenforced_example =
    run-unenforced (world none (failed (codes "timeout"))) options request (masking ∷ []) first refl

abbrev spent : State
spent = record first { consumed = 1000 }
