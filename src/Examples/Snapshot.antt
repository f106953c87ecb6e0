-- ===== src/Examples/Snapshot.antt =====
-- One tenant with one tool, an agent that may call it, and the artifacts signed for them.
use mcpdoll.Base.{
  ◌⊎◌, ℕ, zero, suc, Str, codes, true, false, none, some, [], ◌∷◌, ◌≡◌, refl, str_eq, Result, ok,
  Memᴰ, keep, any,
}
use mcpdoll.Base.Integers.{pos, int_eq, int_le}
use mcpdoll.Base.Dict.{lookup, insert, str_key}
use mcpdoll.Base.Sort.{sort, insert_sorted, str_le}
use mcpdoll.Authz.Engine.Decide.{allowed}
use mcpdoll.Authz.Engine.{append_unique}
use mcpdoll.Authz.Scope.{is_empty}
use mcpdoll.Base.Distinct.{distinct}
use mcpdoll.Authz.Roles.{
  tool_list, tool_call, validate_catalog, roles, keys, permissions, perms_of, all_permissions,
  has_permission, problems_of, role_problems,
}
use mcpdoll.Proto.{ToolDefinition}
use mcpdoll.Proto.Snapshot.{Tenant, Toolset, Snapshot, Principal, PrincipalSet, Signed}
use mcpdoll.Snapshot.View.{
  index_policies, index_plugins, index_digests, index_tables, index_tenants, index_namespaces,
  index_toolsets, index_servers, check_conflicts, add_tools, resolve_tool, check_all_names,
  sort_tools, check_names, check_budgets, hook_eq, is_over, tool_le, toolset_costs, view_of, Tool,
  View, build, tools_for, scope,
}
use mcpdoll.Snapshot.View.Resolved.{IsTool, tables_of, build-IsTool, build_complete}
use mcpdoll.Snapshot.View.Unique.{qualified_names, build-distinct}
use mcpdoll.Snapshot.Principals.{
  add_principals, Principals, empty_principals, index_principals, decider,
}
use mcpdoll.Snapshot.Catalog.{PrincipalView, compose_principal, is_callable, tool_named}
use mcpdoll.Snapshot.Catalog.Listed.{candidates, compose_principal-allowed}
use mcpdoll.Snapshot.Catalog.Callable.{compose_principal-callable}
use mcpdoll.Snapshot.Catalog.{tenants_for}
use mcpdoll.Snapshot.Catalog.Reached.{tenants_for-IsReached}
use mcpdoll.Authz.Engine.{any_reaches}
use mcpdoll.Base.{true}
use mcpdoll.Snapshot.Store.{Store, new_store, commit, swap_principals, principal_view, activate}
use mcpdoll.Snapshot.Store.Activation.{Refused, IsAccepted, accepted, activate-cases}
use mcpdoll.Snapshot.Store.Steps.{
  IsSound, IsReachable, start, after_commit, after_principals, IsReachable-IsSound,
}
use mcpdoll.Snapshot.Store.Cached.{composed_anew, principal_view-composed_anew}

abbrev pub acme : Tenant
acme = record { id = codes "t1"; slug = codes "acme" }

abbrev crm_tools : Toolset
crm_tools = record {
  id = codes "ts1";
  name = codes "crm";
  priority = pos 0;
  token_budget = pos 200;
  ttl_ms = pos 60000;
}

abbrev search : ToolDefinition
search = record {
  name = codes "search";
  qualified_name = codes "crm.search";
  server_id = codes "s1";
  namespace_id = codes "n1";
  tenant_id = codes "t1";
  toolset_id = codes "ts1";
  token_estimate = pos 90;
  digest = codes "d1";
  semantic_digest = codes "e1";
  title = codes "Search";
  description = codes "Finds";
  input_schema_json = codes "{}";
  output_schema_json = [];
  annotations_json = [];
}

abbrev pub crm_snapshot : Snapshot
crm_snapshot = record {
  version = 7;
  id = codes "snap7";
  tenants = acme ∷ [];
  namespaces = record { id = codes "n1"; prefix = codes "crm" } ∷ [];
  toolsets = crm_tools ∷ [];
  policies =
      record { id = codes "p1"; priority = pos 1; rules = record { max_ttl_ms = pos 30000 } ∷ [] }
      ∷ [];
  servers = record { id = codes "s1"; namespace_id = codes "n1"; bindings = codes "t1" ∷ [] } ∷ [];
  plugins = [];
  tools = search ∷ [];
  default_ttl_ms = some (pos 90000);
}

abbrev crm_tool : Tool
crm_tool = record {
  def = search;
  server = record { id = codes "s1"; namespace_id = codes "n1"; bindings = codes "t1" ∷ [] };
  namespace = record { id = codes "n1"; prefix = codes "crm" };
  tenant = acme;
  toolset = crm_tools;
}

abbrev pub crm_view : View
crm_view = record {
  snapshot = crm_snapshot;
  namespaces = (codes "n1", record { id = codes "n1"; prefix = codes "crm" }) ∷ [];
  servers =
      (
        codes "s1",
        record { id = codes "s1"; namespace_id = codes "n1"; bindings = codes "t1" ∷ [] },
      )
      ∷ [];
  toolsets = (codes "ts1", crm_tools) ∷ [];
  policies =
      (
        codes "p1",
        record {
          id = codes "p1";
          priority = pos 1;
          rules = record { max_ttl_ms = pos 30000 } ∷ [];
        },
      )
      ∷ [];
  plugins = [];
  tenants = (codes "t1", acme) ∷ [];
  tenants_by_slug = (codes "acme", acme) ∷ [];
  tools_by_tenant = (codes "t1", crm_tool ∷ []) ∷ [];
  tools_by_digest = (codes "d1", search) ∷ [];
}

pub crm_view_built : build crm_snapshot ≡ ok crm_view
unfolding build index_tables index_tenants is_empty lookup index_namespaces index_toolsets
    index_servers insert str_eq check_conflicts add_tools resolve_tool check_all_names sort_tools
    check_names sort int_eq int_le insert_sorted str_le check_budgets hook_eq is_over tool_le
    toolset_costs view_of index_policies index_plugins index_digests
crm_view_built = refl

abbrev pub agent : Principal
agent = record {
  id = codes "u1";
  subject = codes "agent@acme";
  tenant_id = codes "t1";
  grants = record { role = codes "agent"; scope = codes "t/acme" } ∷ [];
  spans_tenants = false;
  key_prefix = codes "k1";
  key_secret_digest = codes "sha256:hush";
}

abbrev pub agents : PrincipalSet
agents = record {
  version = 3;
  role_permissions = (codes "agent", tool_list) ∷ (codes "agent", tool_call) ∷ [];
  principals = agent ∷ [];
}

abbrev pub held : Principals
held = record {
  version = 3;
  catalog = (codes "agent", tool_list ∷ tool_call ∷ []) ∷ [];
  by_id = (codes "u1", agent) ∷ [];
  by_key_prefix = (codes "k1", agent) ∷ [];
}

pub agents_indexed : index_principals agents ≡ ok held
unfolding index_principals insert str_eq validate_catalog roles sort keys keep permissions perms_of
    lookup append_unique any str_le all_permissions add_principals is_empty has_permission
    problems_of role_problems insert_sorted
agents_indexed = refl

crm_tool-served : Memᴰ crm_tool (tools_for crm_view (codes "t1"))
unfolding tools_for lookup str_eq
crm_tool-served = Memᴰ.head refl

build-IsTool_example : IsTool (tables_of crm_view) (codes "t1") crm_tool
build-IsTool_example =
    build-IsTool crm_snapshot crm_view (codes "t1") crm_tool crm_view_built crm_tool-served

build_complete_example :
    (tool : Tool) × Memᴰ tool (tools_for crm_view (codes "t1")) × (tool.def ≡ search)
build_complete_example = build_complete crm_snapshot crm_view search crm_view_built (Memᴰ.head refl)

build-distinct_example : distinct (qualified_names (tools_for crm_view (codes "t1"))) ≡ true
build-distinct_example = build-distinct crm_snapshot crm_view (codes "t1") crm_view_built

compose_principal-allowed_example :
    (compose_principal crm_view agent (acme ∷ []) false (decider held agent)).tools
    ≡ keep
        (λ t. allowed held.catalog agent.grants tool_list (scope t))
        (candidates crm_view (acme ∷ []))
compose_principal-allowed_example = compose_principal-allowed crm_view held agent (acme ∷ []) false

agent_calls :
    is_callable
      (compose_principal crm_view agent (acme ∷ []) false (λ p s. true))
      (codes "crm.search")
    ≡ true
unfolding is_callable lookup compose_principal mcpdoll.Snapshot.Catalog.add_tenants
    mcpdoll.Snapshot.Catalog.add_tools tools_for str_eq mcpdoll.Snapshot.Catalog.add_tool insert
    mcpdoll.Snapshot.Catalog.display_name
agent_calls = refl

compose_principal-callable_example :
    (tool : Tool) × (tool_named
        (compose_principal crm_view agent (acme ∷ []) false (λ p s. true))
        (codes "crm.search")
      ≡ some tool)
    × (true ≡ true)
    × (true ≡ true)
compose_principal-callable_example =
    compose_principal-callable crm_snapshot crm_view agent acme (λ p s. true) (codes "crm.search")
      crm_view_built agent_calls

abbrev crm_catalog : PrincipalView
crm_catalog = compose_principal crm_view agent (acme ∷ []) false (λ p s. true)

abbrev pub crm_signed : Signed
crm_signed = record {
  body = codes "crm";
  key_id = codes "key1";
  algorithm = codes "ed25519";
  signature = [];
}

abbrev loaded : Store
loaded = (commit crm_signed crm_view (new_store 2)).0

abbrev pub crm_store : Store
crm_store = (swap_principals held loaded).0

abbrev pub always : ℕ → Snapshot
always _ = crm_snapshot

abbrev pub sets : ℕ → Principals
sets zero = empty_principals
sets (suc _) = held

pub crm_store-IsReachable : IsReachable always sets crm_store
crm_store-IsReachable =
    after_principals 3 refl (after_commit crm_signed 7 crm_view refl crm_view_built (start 2))

IsReachable-IsSound_example : IsSound always sets crm_store
IsReachable-IsSound_example = IsReachable-IsSound always sets crm_store refl crm_store-IsReachable

principal_view-composed_anew_example :
    (principal_view (codes "u1") crm_store).1 ≡ composed_anew (codes "u1") crm_store
principal_view-composed_anew_example =
    principal_view-composed_anew always sets (codes "u1") crm_store refl crm_store-IsReachable

activate-cases_example :
    Refused loaded (activate (λ v. none) crm_signed (ok crm_snapshot) loaded)
    ⊎ ((snap : Snapshot) × (view : View) × (◌≡◌ {A = Result Str Snapshot}
          (ok crm_snapshot)
          (ok snap))
        × IsAccepted (λ v. none) crm_signed snap loaded view
        × (activate (λ v. none) crm_signed (ok crm_snapshot) loaded
            ≡ (accepted crm_signed view loaded, ok view)))
activate-cases_example = activate-cases (λ v. none) crm_signed (ok crm_snapshot) loaded

abbrev operator : Principal
operator = record {
  id = codes "u2";
  subject = codes "operator";
  tenant_id = [];
  grants = record { role = codes "agent"; scope = codes "*" } ∷ [];
  spans_tenants = true;
  key_prefix = codes "k2";
  key_secret_digest = codes "sha256:other";
}

operator_tenants : tenants_for crm_view operator ≡ ok (acme ∷ [])
unfolding tenants_for mcpdoll.Authz.Scope.parse_scope str_eq sort insert
operator_tenants = refl

tenants_for-IsReached_example :
    Memᴰ acme (acme ∷ []) × (any_reaches operator.grants (codes "acme") ≡ true)
tenants_for-IsReached_example =
    tenants_for-IsReached crm_snapshot crm_view operator (acme ∷ []) acme crm_view_built refl
      operator_tenants (Memᴰ.head refl)
