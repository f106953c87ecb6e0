-- ===== src/Edge/RequestState/Bound.antt =====
-- What a sealed state is bound to: a retry is let through for the very call that it was issued for.
use mcpdoll.Base.{
  ℕ, Str, false, some, [], ◌≡◌, refl, sym, ap, ◌∙◌, arith, str_eq_iff, Result, ok, unless,
  unless-Yields, ◌↔◌,
}
use mcpdoll.Authz.Scope.{is_empty}
use mcpdoll.Edge.RequestState.{
  Envelope, Sealing, StateError, mismatched, Retry, Call, source_plugin, filled, wrap, is_expired,
  is_future, args_digest, plugin_envelope, differs, matched, unwrap_for_retry,
}
use mcpdoll.Edge.RequestState.Sealed.{unwrap-wrap}

-- A bound field that is not empty is the one presented.
differs_lem : (a b : Str) → is_empty a ≡ false → (differs a b ≡ false) ↔ (a ≡ b)
unfolding differs
differs_lem a b h = (λ e. ground (arith, str_eq_iff a b), λ e. ground (arith, str_eq_iff a b))

module _ {Args : Type 0} (sealing : Sealing Args) where
  abbrev pub retry_of : Envelope → Retry
  retry_of env = record {
    source = env.source;
    backend_state = env.backend;
    plugin_state = env.plugin;
  }

  -- The calls that agree in what a state binds.
  pub record IsSameCall (c d : Call Args) : Type 0 where
    pub same_tool : c.tool ≡ d.tool
    pub same_principal : c.principal ≡ d.principal
    pub same_tenant : c.tenant ≡ d.tenant
    pub same_arguments : args_digest sealing c.arguments ≡ args_digest sealing d.arguments

  -- Every field of the envelope is bound to the call.
  record IsBound (c : Call Args) (env : Envelope) : Type 0 where
    pub tool_bound : env.tool ≡ c.tool
    pub principal_bound : env.principal ≡ c.principal
    pub tenant_bound : env.tenant ≡ c.tenant
    pub args_bound : env.args_digest ≡ args_digest sealing c.arguments

  -- The call names what it is bound by.
  pub record IsNamed (c : Call Args) : Type 0 where
    pub tool_named : is_empty c.tool ≡ false
    pub principal_named : is_empty c.principal ≡ false
    pub tenant_named : is_empty c.tenant ≡ false
    pub args_named : is_empty (args_digest sealing c.arguments) ≡ false

  matched-Yields :
      (c d : Call Args) (env : Envelope) (r : Retry)
      → IsBound c env
      → IsNamed c
      → matched sealing d env ≡ ok r
      → IsSameCall c d × (r ≡ retry_of env)
  unfolding matched
  matched-Yields c d env r b n y =
      let out : Result StateError Retry = ok (retry_of env) in
      let args_rest : Result StateError Retry =
        unless (differs env.args_digest (args_digest sealing d.arguments)) mismatched out in
      let tenant_rest : Result StateError Retry =
        unless (differs env.tenant d.tenant) mismatched args_rest in
      let principal_rest : Result StateError Retry =
        unless (differs env.principal d.principal) mismatched tenant_rest in
      let (t, y1) = unless-Yields (differs env.tool d.tool) mismatched principal_rest y in
      let (p, y2) = unless-Yields (differs env.principal d.principal) mismatched tenant_rest y1 in
      let (u, y3) = unless-Yields (differs env.tenant d.tenant) mismatched args_rest y2 in
      let (a, y4) =
        unless-Yields (differs env.args_digest (args_digest sealing d.arguments)) mismatched out
          y3 in
      (
        record {
          same_tool = agree env.tool c.tool d.tool b.tool_bound n.tool_named t;
          same_principal =
              agree env.principal c.principal d.principal b.principal_bound n.principal_named p;
          same_tenant = agree env.tenant c.tenant d.tenant b.tenant_bound n.tenant_named u;
          same_arguments =
              agree env.args_digest (args_digest sealing c.arguments)
                (args_digest sealing d.arguments) b.args_bound n.args_named a;
        },
        cc,
      )
    where
      agree : (e x z : Str) → e ≡ x → is_empty x ≡ false → differs e z ≡ false → x ≡ z
      agree e x z h n f = (differs_lem x z n).0 (ap (λ w. differs w z) (sym h) ∙ f)

  matched-same :
      (c d : Call Args) (env : Envelope)
      → IsBound c env
      → IsNamed c
      → IsSameCall c d
      → matched sealing d env ≡ ok (retry_of env)
  unfolding matched
  matched-same c d env b n s =
      rw
        (
          agree env.tool c.tool d.tool b.tool_bound n.tool_named s.same_tool,
          agree env.principal c.principal d.principal b.principal_bound n.principal_named
              s.same_principal,
          agree env.tenant c.tenant d.tenant b.tenant_bound n.tenant_named s.same_tenant,
          agree env.args_digest (args_digest sealing c.arguments) (args_digest sealing d.arguments)
              b.args_bound n.args_named s.same_arguments,
        )
        refl
    where
      agree : (e x z : Str) → e ≡ x → is_empty x ≡ false → x ≡ z → differs e z ≡ false
      agree e x z h n f = ap (λ w. differs w z) h ∙ (differs_lem x z n).1 f

  token_named :
      (key : Str) (issued : ℕ) (random : Str) (env : Envelope)
      → is_empty (wrap sealing key issued random env) ≡ false
  unfolding wrap is_empty
  token_named key issued random env = refl

  -- A state sealed for a call, presented within its lifetime.
  presented :
      (key : Str) (issued now : ℕ) (random : Str) (env : Envelope) (d : Call Args)
      → sealing.of_json (sealing.to_json (filled sealing issued random env))
        ≡ some (filled sealing issued random env)
      → is_expired now (filled sealing issued random env) ≡ false
      → is_future now (filled sealing issued random env) ≡ false
      → unwrap_for_retry sealing (some key) now d (wrap sealing key issued random env)
        ≡ matched sealing d (filled sealing issued random env)
  unfolding unwrap_for_retry
  presented key issued now random env d j a f =
      rw (token_named key issued random env, unwrap-wrap sealing key issued now random env j a f)
        refl

  -- A state that a plugin's deferral of a call was issued with, and that is presented within its
  -- lifetime, is let through exactly for calls of the same tool, principal, tenant and argument
  -- digest, and gives back the plugin's own state, if none of the four is empty and JSON carries the
  -- envelope.
  pub unwrap_for_retry-issued :
      (key : Str) (issued now : ℕ) (random state : Str) (c d : Call Args)
      → sealing.of_json
          (sealing.to_json (filled sealing issued random (plugin_envelope sealing c state)))
        ≡ some (filled sealing issued random (plugin_envelope sealing c state))
      → is_expired now (filled sealing issued random (plugin_envelope sealing c state)) ≡ false
      → is_future now (filled sealing issued random (plugin_envelope sealing c state)) ≡ false
      → IsNamed c
      → (r : Retry)
      → (unwrap_for_retry sealing
            (some key)
            now
            d
            (wrap sealing key issued random (plugin_envelope sealing c state))
          ≡ ok r)
        ↔ (IsSameCall c d
            × (r ≡ record { source = source_plugin; backend_state = []; plugin_state = state }))
  unfolding filled plugin_envelope
  unwrap_for_retry-issued key issued now random state c d j a f n r =
      let env = filled sealing issued random (plugin_envelope sealing c state) in
      let b : IsBound c env = record {
        tool_bound = refl;
        principal_bound = refl;
        tenant_bound = refl;
        args_bound = refl;
      } in
      let p = presented key issued now random (plugin_envelope sealing c state) d j a f in
      (
        λ y. matched-Yields c d env r b n (sym p ∙ y),
        λ (s, e). p ∙ matched-same c d env b n s ∙ ap (λ z. ok z) (sym e),
      )
