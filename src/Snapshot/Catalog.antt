-- ===== src/Snapshot/Catalog.antt =====
-- The catalogs of principals of internal/dataplane/snapshot/view.go: `tenantsFor`,
-- `composePrincipal` and the reads of a `PrincipalView`.
use mcpdoll.Base.{
  ℕ, ◌+◌, Str, codes, Bool, true, false, not, ◌&&◌, ◌||◌, Option, none, some, List, [], ◌∷◌, ◌++◌,
  ltb, ◌==◌, map, keep, if◌then◌else◌, str_eq, Result, ok, err, ◌>>=◌, or_fail,
}
use mcpdoll.Base.Dict.{Dict, lookup, insert, str_key}
use mcpdoll.Base.Sort.{sort, str_le}
use mcpdoll.Base.Integers.{ℤ, pos, int_le, int_lt, int_eq, int_add}
use mcpdoll.Authz.Scope.{ParsedScope, parse_scope}
use mcpdoll.Authz.Roles.{Grant, tool_list, tool_call}
use mcpdoll.Authz.Engine.{Decider}
use mcpdoll.Proto.{Hook, PluginManifest, ToolDefinition}
use mcpdoll.Proto.Snapshot.{Tenant, Toolset, PolicyRule, Policy, Snapshot, Principal}
use mcpdoll.Snapshot.View.{Tool, scope, View, hook_eq, tools_for}
pub mod Listed
pub mod Callable
pub mod Contributing
pub mod Ceilings
pub mod Reached

-- The source's texts name the principal and the tenant or scope.
pub data TenantError : Type 0 where
  no_tenant unparseable : Str → TenantError

-- The tenants by id that the grants reach, and whether one is global.
reach_tenants :
    View → List Grant → Dict Str Tenant → Bool → Result TenantError (Dict Str Tenant × Bool)
reach_tenants v [] reached global = ok (reached, global)
reach_tenants v (g ∷ gs) reached global =
    or_fail (parse_scope g.scope) (unparseable g.scope) >>= λ parsed.
    if parsed.is_global
    then reach_tenants v gs reached true
    else elim (lookup parsed.tenant v.tenants_by_slug) [
      | none ↦ reach_tenants v gs reached global
      | some tenant ↦ reach_tenants v gs (insert tenant.id tenant reached) global
    ]

add_all : Dict Str Tenant → Dict Str Tenant → Dict Str Tenant
add_all [] reached = reached
add_all ((id, t) ∷ rest) reached = add_all rest (insert id t reached)

slug_le : Tenant → Tenant → Bool
slug_le a b = str_le a.slug b.slug

by_slug : View → Dict Str Tenant × Bool → List Tenant
unfolding add_all slug_le
by_slug v (reached, global) =
    sort slug_le (map (λ e. e.1) (if global then add_all v.tenants reached else reached))

-- `tenantsFor`
unfoldable pub tenants_for : View → Principal → Result TenantError (List Tenant)
unfolding reach_tenants by_slug
tenants_for v p =
    if not p.spans_tenants
    then (or_fail (lookup p.tenant_id v.tenants) (no_tenant p.tenant_id) >>= λ tenant.
        ok (tenant ∷ []))
    else (reach_tenants v p.grants [] false >>= λ reached. ok (by_slug v reached))

-- `displayName`
unfoldable pub display_name : Bool → Tool → Str
display_name spanning t =
    if not spanning then t.def.qualified_name else t.tenant.slug ++ b'.' ∷ t.def.qualified_name

abbrev pub PluginTable : Type 0
PluginTable = Hook → List PluginManifest

-- `plugins` reads as a map by hook.
pub record PrincipalView : Type 0 where
  pub principal : Principal
  pub tenant : Option Tenant
  pub tenants : List Tenant
  pub tools : List Tool
  pub names : List Str
  pub by_name : Dict Str Tool
  pub callable : Dict Str Bool
  pub policies : List Policy
  pub plugins : PluginTable
  pub ttl_ms : ℤ
  pub token_estimate : ℤ

-- What the loop over the tools fills.
pub record Draft : Type 0 where
  pub tools : List Tool
  pub names : List Str
  pub by_name : Dict Str Tool
  pub callable : Dict Str Bool
  pub tokens : ℤ
  pub contributing : Dict Str Toolset

abbrev pub empty_draft : Draft
empty_draft = record {
  tools = [];
  names = [];
  by_name = [];
  callable = [];
  tokens = pos 0;
  contributing = [];
}

module _ (decide : Decider) (spanning : Bool) where
  -- A tool that is listed.
  abbrev pub list_tool : Tool → Draft → Draft
  list_tool t d = record {
    tools = d.tools ++ t ∷ [];
    names = d.names ++ display_name spanning t ∷ [];
    by_name = insert (display_name spanning t) t d.by_name;
    callable =
        if decide tool_call (scope t)
        then insert (display_name spanning t) true d.callable
        else d.callable;
    tokens = int_add d.tokens t.def.token_estimate;
    contributing = insert t.toolset.id t.toolset d.contributing;
  }

  unfoldable pub add_tool : Tool → Draft → Draft
  add_tool t d = if not (decide tool_list (scope t)) then d else list_tool t d

  unfoldable pub add_tools : List Tool → Draft → Draft
  add_tools [] d = d
  add_tools (t ∷ ts) d = add_tools ts (add_tool t d)

  unfoldable pub add_tenants : View → List Tenant → Draft → Draft
  add_tenants v [] d = d
  add_tenants v (t ∷ ts) d = add_tenants v ts (add_tools (tools_for v t.id) d)

-- A ceiling that is set narrows the time to live, unless that is below it already: a negative one
-- stays.
unfoldable pub narrow : ℤ → ℤ → ℤ
narrow ceiling ttl =
    if int_lt (pos 0) ceiling && (int_eq ttl (pos 0) || int_lt ceiling ttl) then ceiling else ttl

unfoldable pub narrow_all : List ℤ → ℤ → ℤ
narrow_all [] ttl = ttl
narrow_all (c ∷ cs) ttl = narrow_all cs (narrow c ttl)

unfoldable pub toolset_ttls : Dict Str Toolset → List ℤ
toolset_ttls m = map (λ e. e.1.ttl_ms) m

unfoldable pub policy_ttls : List Policy → List ℤ
policy_ttls [] = []
policy_ttls (p ∷ ps) = map (λ r. r.max_ttl_ms) p.rules ++ policy_ttls ps

unfoldable pub default_ttl : Option ℤ → ℤ
default_ttl none = pos 0
default_ttl (some n) = n

-- The merged ceiling of a snapshot and the toolsets that contribute.
unfoldable pub merged_ttl : Snapshot → Dict Str Toolset → ℤ
unfolding toolset_ttls policy_ttls default_ttl
merged_ttl snap contributing =
    narrow_all (policy_ttls snap.policies)
      (narrow_all (toolset_ttls contributing) (default_ttl snap.default_ttl_ms))

applies_to_any : List Str → Dict Str Toolset → Bool
applies_to_any [] contributing = false
applies_to_any (id ∷ ids) contributing = elim (lookup id contributing) [
  | none ↦ applies_to_any ids contributing
  | some _ ↦ true
]

no_ids : List Str → Bool
no_ids [] = true
no_ids (_ ∷ _) = false

-- `pluginAppliesTo`
unfoldable pub plugin_applies_to : Dict Str Toolset → PluginManifest → Bool
unfolding applies_to_any no_ids
plugin_applies_to contributing p = no_ids p.toolset_ids || applies_to_any p.toolset_ids contributing

add_hooks : PluginManifest → List Hook → PluginTable → PluginTable
add_hooks p [] table = table
add_hooks p (h ∷ hs) table =
    add_hooks p hs (λ k. if hook_eq h k then table k ++ p ∷ [] else table k)

unfoldable pub add_plugins : Dict Str Toolset → List PluginManifest → PluginTable → PluginTable
unfolding add_hooks
add_plugins contributing [] table = table
add_plugins contributing (p ∷ ps) table =
    add_plugins contributing ps
      (if plugin_applies_to contributing p then add_hooks p p.hooks table else table)

plugin_le : PluginManifest → PluginManifest → Bool
plugin_le a b = int_le a.priority b.priority

policy_le : Policy → Policy → Bool
policy_le a b = int_le a.priority b.priority

only_tenant : Bool → List Tenant → Option Tenant
only_tenant true ts = none
only_tenant false [] = none
only_tenant false (t ∷ []) = some t
only_tenant false (_ ∷ _ ∷ _) = none

view_of_draft : View → Principal → List Tenant → Bool → Draft → PrincipalView
unfolding plugin_le policy_le only_tenant
view_of_draft v p tenants spanning d = record {
  principal = p;
  tenant = only_tenant spanning tenants;
  tenants = tenants;
  tools = d.tools;
  names = d.names;
  by_name = d.by_name;
  callable = d.callable;
  policies = sort policy_le v.snapshot.policies;
  plugins = λ h. sort plugin_le (add_plugins d.contributing v.snapshot.plugins (λ k. []) h);
  ttl_ms = merged_ttl v.snapshot d.contributing;
  token_estimate = d.tokens;
}

-- `composePrincipal`
unfoldable pub compose_principal : View → Principal → List Tenant → Bool → Decider → PrincipalView
unfolding view_of_draft
compose_principal v p tenants spanning decide =
    view_of_draft v p tenants spanning (add_tenants decide spanning v tenants empty_draft)

-- `PrincipalView.Tool` and `Callable`
unfoldable pub tool_named : PrincipalView → Str → Option Tool
tool_named p name = lookup name p.by_name

unfoldable pub is_callable : PrincipalView → Str → Bool
is_callable p name = elim (lookup name p.callable) [ none ↦ false | some b ↦ b ]

join_slugs : List Tenant → Str
join_slugs [] = []
join_slugs (t ∷ []) = t.slug
join_slugs (t ∷ u ∷ ts) = t.slug ++ (codes ", " ++ join_slugs (u ∷ ts))

no_tenants : List Tenant → Bool
no_tenants [] = true
no_tenants (_ ∷ _) = false

-- `TenantLabel`
unfoldable pub tenant_label : PrincipalView → Str
unfolding join_slugs no_tenants
tenant_label p = elim p.tenant [
  | some t ↦ t.slug
  | none ↦ if no_tenants p.tenants then codes "(none)" else join_slugs p.tenants
]

-- `CacheScope`
abbrev pub cache_scope : PrincipalView → Str
cache_scope p = codes "private"
