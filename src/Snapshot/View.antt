-- ===== src/Snapshot/View.antt =====
-- `Build` of internal/dataplane/snapshot/view.go: a verified snapshot, indexed for serving. Of an
-- error only the kind and one name are kept; where the source ranges over a map to find an error,
-- the model takes its entries in the order of insertion. Load times are left out.
use mcpdoll.Base.{
  ℕ, ◌+◌, ◌%◌, ◌^◌, Str, codes, Bool, true, false, not, ◌&&◌, ◌||◌, Option, none, some, List, [],
  ◌∷◌, ◌++◌, ltb, ◌==◌, map, if◌then◌else◌, str_eq, Result, ok, err, ◌>>=◌, or_fail, unless,
}
use mcpdoll.Base.Dict.{Dict, Eq, lookup, insert, str_key}
use mcpdoll.Base.Sort.{sort, str_le}
use mcpdoll.Base.Integers.{ℤ, pos, negsuc, word32, int_le, int_eq}
use mcpdoll.Authz.Scope.{is_empty, tool_scope}
use mcpdoll.Proto.{
  Hook, hook_unspecified, on_request, on_identity, on_catalog, on_tool_call, on_tool_result,
  on_response, on_audit, PluginManifest, ToolDefinition,
}
use mcpdoll.Proto.Snapshot.{Tenant, Namespace, Toolset, Policy, Server, Snapshot}
pub mod Resolved
pub mod Unique
pub mod Tenants

pub data BuildError : Type 0 where
  bad_version : BuildError
  no_tenant_name tenant_id_twice tenant_slug_twice namespace_twice prefix_shared toolset_twice
        server_twice unknown_namespace unknown_binding_tenant plugins_conflict unknown_server
        unknown_tenant unknown_toolset bad_qualified_name no_input_schema tool_twice over_budget :
      Str → BuildError

-- An admitted definition with what it refers to.
pub record Tool : Type 0 where
  pub def : ToolDefinition
  pub server : Server
  pub namespace : Namespace
  pub tenant : Tenant
  pub toolset : Toolset

-- `Tool.Scope`
unfoldable pub scope : Tool → Str
scope t = tool_scope t.tenant.slug t.toolset.name t.def.name

pub record View : Type 0 where
  pub snapshot : Snapshot
  pub namespaces : Dict Str Namespace
  pub servers : Dict Str Server
  pub toolsets : Dict Str Toolset
  pub policies : Dict Str Policy
  pub plugins : Dict Str PluginManifest
  pub tenants : Dict Str Tenant
  pub tenants_by_slug : Dict Str Tenant
  pub tools_by_tenant : Dict Str (List Tool)
  pub tools_by_digest : Dict Str ToolDefinition

abbrev pub version : View → ℕ
version v = v.snapshot.version

abbrev pub has {ℓ} : {V : Type ℓ} → Str → Dict Str V → Bool
has k m = elim (lookup k m) [ none ↦ false | some _ ↦ true ]

-- The tenants by id and by slug.
unfoldable pub index_tenants :
    List Tenant
    → Dict Str Tenant
    → Dict Str Tenant
    → Result BuildError (Dict Str Tenant × Dict Str Tenant)
index_tenants [] ids slugs = ok (ids, slugs)
index_tenants (t ∷ ts) ids slugs = unless (is_empty t.id || is_empty t.slug) (no_tenant_name t.id) (
    unless (has t.id ids) (tenant_id_twice t.id) (
      unless (has t.slug slugs) (tenant_slug_twice t.slug)
        (index_tenants ts (insert t.id t ids) (insert t.slug t slugs))))

unfoldable pub index_namespaces :
    List Namespace → Dict Str Str → Dict Str Namespace → Result BuildError (Dict Str Namespace)
index_namespaces [] prefixes m = ok m
index_namespaces (n ∷ ns) prefixes m = unless (has n.id m) (namespace_twice n.id) (
    unless (has n.prefix prefixes) (prefix_shared n.id)
      (index_namespaces ns (insert n.prefix n.id prefixes) (insert n.id n m)))

unfoldable pub index_toolsets :
    List Toolset → Dict Str Toolset → Result BuildError (Dict Str Toolset)
index_toolsets [] m = ok m
index_toolsets (t ∷ ts) m =
    unless (has t.id m) (toolset_twice t.id) (index_toolsets ts (insert t.id t m))

-- Later ones overwrite earlier ones with the same id.
unfoldable pub index_policies : List Policy → Dict Str Policy → Dict Str Policy
index_policies [] m = m
index_policies (p ∷ ps) m = index_policies ps (insert p.id p m)

unfoldable pub index_plugins :
    List PluginManifest → Dict Str PluginManifest → Dict Str PluginManifest
index_plugins [] m = m
index_plugins (p ∷ ps) m = index_plugins ps (insert p.id p m)

check_bindings : List Str → Dict Str Tenant → Result BuildError (Unit {0})
check_bindings [] tenants = ok tt
check_bindings (b ∷ bs) tenants =
    unless (not (has b tenants)) (unknown_binding_tenant b) (check_bindings bs tenants)

unfoldable pub index_servers :
    Dict Str Namespace
    → Dict Str Tenant
    → List Server
    → Dict Str Server
    → Result BuildError (Dict Str Server)
unfolding check_bindings
index_servers namespaces tenants [] m = ok m
index_servers namespaces tenants (s ∷ ss) m = unless (has s.id m) (server_twice s.id) (
    unless (not (has s.namespace_id namespaces)) (unknown_namespace s.namespace_id) (
      check_bindings s.bindings tenants >>= λ _.
      index_servers namespaces tenants ss (insert s.id s m)))

hook_number : Hook → ℕ
hook_number hook_unspecified = 0
hook_number on_request = 1
hook_number on_identity = 2
hook_number on_catalog = 3
hook_number on_tool_call = 4
hook_number on_tool_result = 5
hook_number on_response = 6
hook_number on_audit = 7

unfoldable pub hook_eq : Hook → Hook → Bool
unfolding hook_number
hook_eq a b = hook_number a == hook_number b

-- A mutating plugin is seen at the hook with the priority.
slot_taken : Hook → ℤ → List (Hook × ℤ) → Bool
slot_taken h p [] = false
slot_taken h p ((h', p') ∷ rest) = (hook_eq h' h && int_eq p' p) || slot_taken h p rest

-- The hooks of one plugin that writes.
take_slots : PluginManifest → List Hook → List (Hook × ℤ) → Result BuildError (List (Hook × ℤ))
unfolding slot_taken
take_slots p [] seen = ok seen
take_slots p (h ∷ hs) seen =
    unless (slot_taken h p.priority seen) (plugins_conflict p.name)
      (take_slots p hs ((h, p.priority) ∷ seen))

no_writes : List Str → Bool
no_writes [] = true
no_writes (_ ∷ _) = false

-- `checkMutatingPluginConflicts`
unfoldable pub check_conflicts :
    List PluginManifest → List (Hook × ℤ) → Result BuildError (Unit {0})
unfolding take_slots no_writes
check_conflicts [] seen = ok tt
check_conflicts (p ∷ ps) seen =
    (if no_writes p.writes then ok seen else take_slots p p.hooks seen) >>= λ seen'.
    check_conflicts ps seen'

-- What a tool may refer to.
pub record Tables : Type 0 where
  pub tenants : Dict Str Tenant
  pub namespaces : Dict Str Namespace
  pub toolsets : Dict Str Toolset
  pub servers : Dict Str Server

-- The checks of a tool whose references are found.
checked_tool : Tool → Result BuildError Tool
checked_tool t =
    unless (not (str_eq t.def.qualified_name (t.namespace.prefix ++ b'.' ∷ t.def.name)))
      (bad_qualified_name t.def.name)
      (unless (is_empty t.def.input_schema_json) (no_input_schema t.def.qualified_name) (ok t))

resolved :
    ToolDefinition
    → Option Server
    → Option Namespace
    → Option Tenant
    → Option Toolset
    → Result BuildError Tool
unfolding checked_tool
resolved def none _ _ _ = err (unknown_server def.server_id)
resolved def (some _) none _ _ = err (unknown_namespace def.namespace_id)
resolved def (some _) (some _) none _ = err (unknown_tenant def.tenant_id)
resolved def (some _) (some _) (some _) none = err (unknown_toolset def.toolset_id)
resolved def (some server) (some namespace) (some tenant) (some toolset) = checked_tool (record {
  def = def;
  server = server;
  namespace = namespace;
  tenant = tenant;
  toolset = toolset;
})

-- One turn of the loop over the tools.
unfoldable pub resolve_tool : Tables → ToolDefinition → Result BuildError Tool
unfolding resolved
resolve_tool t def =
    resolved def (lookup def.server_id t.servers) (lookup def.namespace_id t.namespaces)
      (lookup def.tenant_id t.tenants) (lookup def.toolset_id t.toolsets)

abbrev pub tools_of : Str → Dict Str (List Tool) → List Tool
tools_of tenant m = elim (lookup tenant m) [ none ↦ [] | some tools ↦ tools ]

unfoldable pub add_tools :
    Tables → List ToolDefinition → Dict Str (List Tool) → Result BuildError (Dict Str (List Tool))
add_tools t [] m = ok m
add_tools t (def ∷ defs) m = resolve_tool t def >>= λ tool.
    add_tools t defs (insert def.tenant_id (tools_of def.tenant_id m ++ tool ∷ []) m)

unfoldable pub index_digests :
    List ToolDefinition → Dict Str ToolDefinition → Dict Str ToolDefinition
index_digests [] m = m
index_digests (d ∷ ds) m = index_digests ds (insert d.digest d m)

-- By toolset priority, namespace prefix, and name: the first is not to stand after the second.
unfoldable pub tool_le : Tool → Tool → Bool
tool_le a b =
    if not (int_eq a.toolset.priority b.toolset.priority)
    then int_le a.toolset.priority b.toolset.priority
    else if not (str_eq a.namespace.prefix b.namespace.prefix)
    then str_le a.namespace.prefix b.namespace.prefix
    else str_le a.def.name b.def.name

-- `sortTools` of each tenant's tools.
unfoldable pub sort_tools : Dict Str (List Tool) → Dict Str (List Tool)
sort_tools [] = []
sort_tools ((tenant, tools) ∷ rest) = (tenant, sort tool_le tools) ∷ sort_tools rest

-- No qualified name stands twice among a tenant's tools.
unfoldable pub check_names : List Tool → Dict Str Str → Result BuildError (Unit {0})
check_names [] seen = ok tt
check_names (t ∷ ts) seen =
    unless (has t.def.qualified_name seen) (tool_twice t.def.qualified_name)
      (check_names ts (insert t.def.qualified_name t.toolset.name seen))

unfoldable pub check_all_names : Dict Str (List Tool) → Result BuildError (Unit {0})
check_all_names [] = ok tt
check_all_names ((_, tools) ∷ rest) = check_names tools [] >>= λ _. check_all_names rest

spent : Str → Dict Str ℕ → ℕ
spent id m = elim (lookup id m) [ none ↦ 0 | some n ↦ n ]

-- The tokens of each toolset, in an int32 that wraps around.
unfoldable pub toolset_costs : List Tool → Dict Str ℕ → Dict Str ℕ
unfolding spent word32
toolset_costs [] m = m
toolset_costs (t ∷ ts) m =
    toolset_costs ts
      (insert t.toolset.id ((spent t.toolset.id m + word32 t.def.token_estimate) % 2 ^ 32) m)

-- Not negative as an int32, and over a budget that is set.
unfoldable pub is_over : ℕ → ℤ → Bool
is_over used (pos budget) = ltb 0 budget && (ltb budget used && ltb used (2 ^ 31))
is_over used (negsuc budget) = false

budget_of : Str → Dict Str Toolset → ℤ
budget_of id toolsets = elim (lookup id toolsets) [ none ↦ pos 0 | some ts ↦ ts.token_budget ]

check_costs : Dict Str Toolset → Dict Str ℕ → Result BuildError (Unit {0})
unfolding budget_of
check_costs toolsets [] = ok tt
check_costs toolsets ((id, used) ∷ rest) =
    unless (is_over used (budget_of id toolsets)) (over_budget id) (check_costs toolsets rest)

unfoldable pub check_budgets :
    Dict Str Toolset → Dict Str (List Tool) → Result BuildError (Unit {0})
unfolding check_costs
check_budgets toolsets [] = ok tt
check_budgets toolsets ((_, tools) ∷ rest) =
    check_costs toolsets (toolset_costs tools []) >>= λ _. check_budgets toolsets rest

-- The tables of a snapshot, up to the tools.
unfoldable pub index_tables : Snapshot → Result BuildError (Tables × Dict Str Tenant)
index_tables snap = unless (snap.version == 0) bad_version (
    index_tenants snap.tenants [] [] >>= λ tenants.
    index_namespaces snap.namespaces [] [] >>= λ namespaces.
    index_toolsets snap.toolsets [] >>= λ toolsets.
    index_servers namespaces tenants.0 snap.servers [] >>= λ servers.
    check_conflicts snap.plugins [] >>= λ _. ok (
      record {
        tenants = tenants.0;
        namespaces = namespaces;
        toolsets = toolsets;
        servers = servers;
      },
      tenants.1,
    ))

unfoldable pub view_of : Snapshot → Tables → Dict Str Tenant → Dict Str (List Tool) → View
unfolding index_policies index_plugins index_digests
view_of snap t slugs tools = record {
  snapshot = snap;
  namespaces = t.namespaces;
  servers = t.servers;
  toolsets = t.toolsets;
  policies = index_policies snap.policies [];
  plugins = index_plugins snap.plugins [];
  tenants = t.tenants;
  tenants_by_slug = slugs;
  tools_by_tenant = sort_tools tools;
  tools_by_digest = index_digests snap.tools [];
}

unfoldable pub build : Snapshot → Result BuildError View
unfolding view_of
build snap = index_tables snap >>= λ tables. add_tools tables.0 snap.tools [] >>= λ tools.
    check_all_names (sort_tools tools) >>= λ _.
    check_budgets tables.0.toolsets (sort_tools tools) >>= λ _.
    ok (view_of snap tables.0 tables.1 tools)

-- `ToolsForTenant`
unfoldable pub tools_for : View → Str → List Tool
tools_for v tenant = tools_of tenant v.tools_by_tenant
