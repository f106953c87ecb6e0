-- ===== src/Examples/Edge.antt =====
-- A request with the key of the agent of Examples/Snapshot, and a deferred call.
use mcpdoll.Base.{
  ℕ, ◌+◌, ◌-◌, ◌==◌, ap, Str, codes, Bool, true, false, Option, none, some, List, [], ◌∷◌, ◌++◌,
  ◌≡◌, refl, ◌↔◌, ◌⊎◌, arith, ltb, if◌then◌else◌, contains_byte, str_eq, Result, ok, err,
}
use mcpdoll.Base.Dict.{lookup, str_key}
use mcpdoll.Authz.Scope.{is_empty}
use mcpdoll.Snapshot.View.{View}
use mcpdoll.Snapshot.Catalog.{PrincipalView, compose_principal}
use mcpdoll.Snapshot.Principals.{decider, principal_by_prefix}
use mcpdoll.Snapshot.Revocations.{refuses}
use mcpdoll.Snapshot.Store.{Store, revocations_of, new_store}
use mcpdoll.Snapshot.Store.Cached.{composed_anew}
use mcpdoll.Edge.Identity.{Identity, AuthError, Header, identity_of, authenticate, tenant_slug}
use mcpdoll.Edge.Identity.Authentic.{IsAuthentic, authenticate-IsAuthentic, authenticate-presented}
use mcpdoll.Edge.Gateway.{Server, Edge, cached_server, server_for, serve_each, served, serve_mcp}
use mcpdoll.Edge.Gateway.Answers.{serve_mcp-IsServer, server_for-again}
use mcpdoll.Edge.RequestState.{
  Envelope, Sealing, Call, Retry, source_plugin, filled, wrap, unwrap, plugin_envelope,
  unwrap_for_retry,
}
use mcpdoll.Edge.RequestState.Sealed.{IsSealed, unwrap-IsSealed, unwrap-wrap}
use mcpdoll.Edge.RequestState.Bound.{IsSameCall, IsNamed, unwrap_for_retry-issued}
use mcpdoll.Examples.Snapshot.{
  acme, agent, agents, held, agents_indexed, crm_view, crm_store, always, sets,
  crm_store-IsReachable,
}

abbrev plain : Str → Str
plain s = s

abbrev who : Identity
who = identity_of agent (codes "acme")

agent_found : principal_by_prefix held (codes "k1") ≡ some agent
unfolding principal_by_prefix lookup str_eq
agent_found = refl

agent_in_tenant : tenant_slug crm_view agent ≡ some (codes "acme")
unfolding tenant_slug lookup str_eq
agent_in_tenant = refl

authenticate-presented_example :
    authenticate plain (codes "mcpd.k1.hush") (some crm_view) held ≡ ok who
unfolding is_empty contains_byte
authenticate-presented_example =
    authenticate-presented plain (codes "k1") (codes "hush") crm_view held agent (codes "acme") refl
      refl refl refl agent_found refl agent_in_tenant

agent_authenticated : authenticate plain (codes "mcpd.k1.hush") (some crm_view) held ≡ ok who
unfolding authenticate is_empty mcpdoll.Edge.Identity.split_presented_key
    mcpdoll.Base.Words.split_on str_eq principal_by_prefix lookup
    mcpdoll.Edge.Identity.verify_key_digest tenant_slug
agent_authenticated = refl

authenticate-IsAuthentic_example :
    (view : View) × (◌≡◌ {A = Option View} (some crm_view) (some view))
    × IsAuthentic plain (codes "mcpd.k1.hush") agents view who
authenticate-IsAuthentic_example =
    authenticate-IsAuthentic plain (codes "mcpd.k1.hush") (some crm_view) agents held who
      agents_indexed agent_authenticated

abbrev refusal : View → PrincipalView → Option Str
refusal v c = none

abbrev edge : Edge
edge = record { version = 7; servers = [] }

abbrev server : Server
server = record {
  built_from = crm_view;
  catalog = compose_principal crm_view agent (acme ∷ []) false (decider held agent);
}

abbrev resolve : Header → Result AuthError Identity
resolve h = ok who

agent_answered : (serve_mcp refusal resolve [] edge crm_store).2 ≡ served who server
unfolding serve_mcp refuses mcpdoll.Base.any mcpdoll.Snapshot.Store.swap_principals
    mcpdoll.Snapshot.Store.commit new_store server_for lookup mcpdoll.Snapshot.Store.principal_view
    mcpdoll.Snapshot.Store.cached_at mcpdoll.Snapshot.Store.compose_for
    mcpdoll.Snapshot.Principals.principal_by_id str_eq mcpdoll.Snapshot.Catalog.tenants_for
agent_answered = refl

serve_mcp-IsServer_example :
    ((edge.version == 0) ≡ false)
    × (◌≡◌ {A = Result AuthError Identity} (ok who) (ok who))
    × (refuses (revocations_of crm_store) (codes "u1") ≡ false)
    × ((cached_server (codes "u1") edge ≡ some server)
        ⊎ ((view : View) × (crm_store.current ≡ some view)
            × (crm_view ≡ view)
            × (composed_anew (codes "u1") crm_store ≡ ok server.catalog)))
serve_mcp-IsServer_example =
    serve_mcp-IsServer refusal always sets resolve [] edge crm_store who server refl
      crm_store-IsReachable agent_answered

agent_server : (server_for refusal (codes "u1") edge crm_store).2 ≡ ok server
unfolding mcpdoll.Snapshot.Store.swap_principals mcpdoll.Snapshot.Store.commit new_store server_for
    lookup mcpdoll.Snapshot.Store.principal_view mcpdoll.Snapshot.Store.cached_at
    mcpdoll.Snapshot.Store.compose_for mcpdoll.Snapshot.Principals.principal_by_id str_eq
    mcpdoll.Snapshot.Catalog.tenants_for
agent_server = refl

abbrev others : List (Str × Store)
others = (codes "u2", crm_store) ∷ (codes "u1", new_store 1) ∷ []

server_for-again_example :
    server_for refusal
      (codes "u1")
      (serve_each refusal others (server_for refusal (codes "u1") edge crm_store).0)
      (new_store 1)
    ≡ (
      serve_each refusal others (server_for refusal (codes "u1") edge crm_store).0,
      new_store 1,
      ok server,
    )
server_for-again_example =
    server_for-again refusal (codes "u1") edge crm_store (new_store 1) server others agent_server

-- Bytes from the dot on are moved up by one.
abbrev shift : Str → Str
shift [] = []
shift (b ∷ s) = (if ltb b 46 then b else b + 1) ∷ shift s

abbrev unshift : Str → Str
unshift [] = []
unshift (b ∷ s) = (if ltb b 46 then b else b - 1) ∷ unshift s

unshift-shift : (s : Str) → unshift (shift s) ≡ s
unshift-shift [] = refl
unshift-shift (b ∷ s) = ground (arith, unshift-shift s)

shift_free : (s : Str) → contains_byte b'.' (shift s) ≡ false
unfolding contains_byte
shift_free [] = refl
shift_free (b ∷ s) = ground (arith, shift_free s)

abbrev approved : Envelope
approved = record {
  version = codes "mcpd1";
  tenant = codes "acme";
  tool = codes "crm.void";
  principal = codes "u1";
  args_digest = shift (codes "INV-1");
  source = codes "plugin";
  backend = [];
  plugin = codes "asked";
  issued_at = 100;
  nonce = shift (codes "nonce");
}

abbrev sealing : Sealing Str
sealing = record {
  hmac = λ key message. key ++ message;
  sha256 = plain;
  encode = shift;
  decode = λ s. some (unshift s);
  decode-encode = λ s. ap (λ z. some z) (unshift-shift s);
  encode_free = shift_free;
  to_json = λ env. env.tool;
  of_json = λ s. some approved;
  args_json = λ s. some s;
}

abbrev void_call : Call Str
void_call = record {
  tool = codes "crm.void";
  principal = codes "u1";
  tenant = codes "acme";
  arguments = codes "INV-1";
}

abbrev asked : Envelope
asked = plugin_envelope sealing void_call (codes "asked")

-- 20 seconds later.
abbrev later : ℕ
later = 120000000000

unwrap-wrap_example :
    unwrap sealing (codes "key") later (wrap sealing (codes "key") 100 (codes "nonce") asked)
    ≡ ok (filled sealing 100 (codes "nonce") asked)
unfolding filled plugin_envelope is_empty mcpdoll.Edge.RequestState.args_digest
    mcpdoll.Edge.RequestState.is_expired mcpdoll.Edge.RequestState.is_future
unwrap-wrap_example =
    unwrap-wrap sealing (codes "key") 100 later (codes "nonce") asked refl refl refl

asked_opens :
    unwrap sealing (codes "key") later (wrap sealing (codes "key") 100 (codes "nonce") asked)
    ≡ ok approved
unfolding unwrap mcpdoll.Base.Words.cut_byte wrap str_eq plugin_envelope
    mcpdoll.Edge.RequestState.opened mcpdoll.Edge.RequestState.checked_envelope
    mcpdoll.Edge.RequestState.is_expired mcpdoll.Edge.RequestState.is_future
asked_opens = refl

unwrap-IsSealed_example :
    IsSealed sealing
      (codes "key")
      later
      (wrap sealing (codes "key") 100 (codes "nonce") asked)
      approved
unwrap-IsSealed_example =
    unwrap-IsSealed sealing (codes "key") later
      (wrap sealing (codes "key") 100 (codes "nonce") asked) approved asked_opens

void_call-IsNamed : IsNamed sealing void_call
unfolding is_empty mcpdoll.Edge.RequestState.args_digest
void_call-IsNamed = record {
  tool_named = refl;
  principal_named = refl;
  tenant_named = refl;
  args_named = refl;
}

abbrev answered : Retry
answered = record { source = source_plugin; backend_state = []; plugin_state = codes "asked" }

unwrap_for_retry-issued_example :
    (unwrap_for_retry sealing
        (some (codes "key"))
        later
        void_call
        (wrap sealing (codes "key") 100 (codes "nonce") asked)
      ≡ ok answered)
    ↔ (IsSameCall sealing void_call void_call × (answered ≡ answered))
unfolding filled plugin_envelope is_empty mcpdoll.Edge.RequestState.args_digest
    mcpdoll.Edge.RequestState.is_expired mcpdoll.Edge.RequestState.is_future
unwrap_for_retry-issued_example =
    unwrap_for_retry-issued sealing (codes "key") 100 later (codes "nonce") (codes "asked")
      void_call void_call refl refl refl void_call-IsNamed answered
