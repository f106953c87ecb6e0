-- ===== src/Snapshot/View/Resolved.antt =====
-- What the tools of a built view refer to is there, and no admitted tool is left out.
use mcpdoll.Base.{
  ◌<◌, ◌==◌, Str, Bool, true, false, not, Option, none, some, List, [], ◌∷◌, ◌++◌, ◌≡◌, refl, sym,
  ap, ◌∙◌, subst, arith, if◌then◌else◌, str_eq, str_eq_iff, str_eq_refl, ok, ◌>>=◌, >>=-Yields,
  Yields, unless, unless-Yields, Memᴰ, inl, inr, mem-append_left, mem-append_right,
  mem_of_mem-append, mem_single,
}
use mcpdoll.Base.Dict.{Dict, lookup, insert, lookup-insert, str_key}
use mcpdoll.Base.Sort.{sort, mem-sort, mem_of_mem-sort}
use mcpdoll.Authz.Scope.{is_empty}
use mcpdoll.Proto.{ToolDefinition}
use mcpdoll.Proto.Snapshot.{Tenant, Namespace, Toolset, Server, Snapshot}
use mcpdoll.Snapshot.View.{
  bad_version, index_tenants, index_namespaces, index_toolsets, index_servers, check_conflicts,
  Tool, View, Tables, checked_tool, resolved, bad_qualified_name, no_input_schema, resolve_tool,
  tools_of, add_tools, tool_le, sort_tools, check_all_names, check_budgets, index_tables, view_of,
  build, tools_for,
}

-- The tool stands under its tenant, its references are those of the tables, its name carries its
-- namespace's prefix, and it has an input schema.
pub record IsTool (t : Tables) (tenant : Str) (tool : Tool) : Type 0 where
  pub admitted_for : tool.def.tenant_id ≡ tenant
  pub tenant_found : lookup tool.def.tenant_id t.tenants ≡ some tool.tenant
  pub server_found : lookup tool.def.server_id t.servers ≡ some tool.server
  pub namespace_found : lookup tool.def.namespace_id t.namespaces ≡ some tool.namespace
  pub toolset_found : lookup tool.def.toolset_id t.toolsets ≡ some tool.toolset
  pub named : tool.def.qualified_name ≡ tool.namespace.prefix ++ b'.' ∷ tool.def.name
  pub has_schema : is_empty tool.def.input_schema_json ≡ false

-- What the checks leave is the tool itself.
checked_tool-Yields :
    (t tool : Tool)
    → Yields (checked_tool t) tool
    → (tool ≡ t)
      × (t.def.qualified_name ≡ t.namespace.prefix ++ b'.' ∷ t.def.name)
      × (is_empty t.def.input_schema_json ≡ false)
unfolding checked_tool
checked_tool-Yields t tool y =
    let (q, y1) =
      unless-Yields (not (str_eq t.def.qualified_name (t.namespace.prefix ++ b'.' ∷ t.def.name)))
        (bad_qualified_name t.def.name)
        (unless (is_empty t.def.input_schema_json) (no_input_schema t.def.qualified_name) (ok t))
        y in
    let (h, y2) =
      unless-Yields (is_empty t.def.input_schema_json) (no_input_schema t.def.qualified_name) (ok t)
        y1 in
    (
      cc,
      ground (arith, str_eq_iff t.def.qualified_name (t.namespace.prefix ++ b'.' ∷ t.def.name)),
      h,
    )

-- The references found are those of the tool.
resolved-Yields :
    (def : ToolDefinition) (a : Option Server) (b : Option Namespace) (c : Option Tenant)
    (d : Option Toolset) (tool : Tool)
    → Yields (resolved def a b c d) tool
    → (tool.def ≡ def)
      × (a ≡ some tool.server)
      × (b ≡ some tool.namespace)
      × (c ≡ some tool.tenant)
      × (d ≡ some tool.toolset)
      × (tool.def.qualified_name ≡ tool.namespace.prefix ++ b'.' ∷ tool.def.name)
      × (is_empty tool.def.input_schema_json ≡ false)
unfolding resolved
resolved-Yields def none b c d tool y = cc
resolved-Yields def (some s) none c d tool y = cc
resolved-Yields def (some s) (some n) none d tool y = cc
resolved-Yields def (some s) (some n) (some t) none tool y = cc
resolved-Yields def (some s) (some n) (some t) (some o) tool y =
    let (e, q, h) =
      checked_tool-Yields (record { def = def; server = s; namespace = n; tenant = t; toolset = o })
        tool y in
    rw e (refl, refl, refl, refl, refl, q, h)

resolve_tool-IsTool :
    (t : Tables) (def : ToolDefinition) (tool : Tool)
    → Yields (resolve_tool t def) tool
    → IsTool t def.tenant_id tool × (tool.def ≡ def)
unfolding resolve_tool
resolve_tool-IsTool t def tool y =
    let (e, s, n, c, o, q, h) =
      resolved-Yields def (lookup def.server_id t.servers) (lookup def.namespace_id t.namespaces)
        (lookup def.tenant_id t.tenants) (lookup def.toolset_id t.toolsets) tool y in
    (
      record {
        admitted_for = ap (λ d. d.tenant_id) e;
        tenant_found = ap (λ d. lookup d.tenant_id t.tenants) e ∙ c;
        server_found = ap (λ d. lookup d.server_id t.servers) e ∙ s;
        namespace_found = ap (λ d. lookup d.namespace_id t.namespaces) e ∙ n;
        toolset_found = ap (λ d. lookup d.toolset_id t.toolsets) e ∙ o;
        named = q;
        has_schema = h;
      },
      e,
    )

-- Every tool of the table stands where it belongs.
abbrev AllTools : Tables → Dict Str (List Tool) → Type 0
AllTools t m = (tenant : Str) (tool : Tool) → Memᴰ tool (tools_of tenant m) → IsTool t tenant tool

tools_of-insert :
    (k tenant : Str) (tools : List Tool) (m : Dict Str (List Tool))
    → tools_of tenant (insert k tools m) ≡ (if str_eq k tenant then tools else tools_of tenant m)
tools_of-insert k tenant tools m =
    ap (λ (o : Option (List Tool)). elim o [ none ↦ [] | some ts ↦ ts ])
      (lookup-insert k tenant tools m)
    ∙ chosen (str_eq k tenant)
  where
    chosen :
        (b : Bool)
        → (elim (if b then some tools else lookup tenant m) [ none ↦ [] | some ts ↦ ts ])
          ≡ (if b then tools else tools_of tenant m)
    chosen true = refl
    chosen false = refl

abbrev added : ToolDefinition → Tool → Dict Str (List Tool) → Dict Str (List Tool)
added def tool m = insert def.tenant_id (tools_of def.tenant_id m ++ tool ∷ []) m

AllTools-added :
    (t : Tables) (def : ToolDefinition) (tool : Tool) (m : Dict Str (List Tool))
    → IsTool t def.tenant_id tool
    → AllTools t m
    → AllTools t (added def tool m)
AllTools-added t def tool m i all tenant x n =
    at (str_eq def.tenant_id tenant) refl
      (subst (λ l. Memᴰ x l) (tools_of-insert def.tenant_id tenant _ m) n)
  where
    at :
        (b : Bool)
        → str_eq def.tenant_id tenant ≡ b
        → Memᴰ x (if b then tools_of def.tenant_id m ++ tool ∷ [] else tools_of tenant m)
        → IsTool t tenant x
    at false e n' = all tenant x n'
    at true e n' =
        subst (λ s. IsTool t s x) ((str_eq_iff def.tenant_id tenant).0 e)
          (elim (mem_of_mem-append (tools_of def.tenant_id m) (tool ∷ []) n') [
            | inl k ↦ all def.tenant_id x k
            | inr k ↦ subst (λ z. IsTool t def.tenant_id z) (sym (mem_single k)) i
          ])

add_tools-AllTools :
    (t : Tables) (defs : List ToolDefinition) (m m' : Dict Str (List Tool))
    → AllTools t m
    → Yields (add_tools t defs m) m'
    → AllTools t m'
unfolding add_tools
add_tools-AllTools t [] m m' all y = let e : m ≡ m' = cc in subst (λ z. AllTools t z) e all
add_tools-AllTools t (def ∷ defs) m m' all y =
    let (tool, e, y') =
      >>=-Yields (λ tool. add_tools t defs (added def tool m)) (resolve_tool t def) y in
    add_tools-AllTools t defs (added def tool m) m'
      (AllTools-added t def tool m (resolve_tool-IsTool t def tool e).0 all) y'

-- A tool that is in the table stays there.
add_tools-keeps :
    (t : Tables) (defs : List ToolDefinition) (m m' : Dict Str (List Tool)) (tenant : Str)
    (x : Tool)
    → Yields (add_tools t defs m) m'
    → Memᴰ x (tools_of tenant m)
    → Memᴰ x (tools_of tenant m')
unfolding add_tools
add_tools-keeps t [] m m' tenant x y n =
    let e : m ≡ m' = cc in subst (λ z. Memᴰ x (tools_of tenant z)) e n
add_tools-keeps t (def ∷ defs) m m' tenant x y n =
    let (tool, e, y') =
      >>=-Yields (λ tool. add_tools t defs (added def tool m)) (resolve_tool t def) y in
    add_tools-keeps t defs (added def tool m) m' tenant x y' (
      subst (λ l. Memᴰ x l) (sym (tools_of-insert def.tenant_id tenant _ m))
        (at tool (str_eq def.tenant_id tenant) refl))
  where
    at :
        (tool : Tool) (b : Bool)
        → str_eq def.tenant_id tenant ≡ b
        → Memᴰ x (if b then tools_of def.tenant_id m ++ tool ∷ [] else tools_of tenant m)
    at tool true e =
        mem-append_left (tool ∷ [])
          (subst (λ s. Memᴰ x (tools_of s m)) (sym ((str_eq_iff def.tenant_id tenant).0 e)) n)
    at tool false e = n

-- Every definition has a tool.
add_tools_complete :
    (t : Tables) (defs : List ToolDefinition) (m m' : Dict Str (List Tool)) (d : ToolDefinition)
    → Yields (add_tools t defs m) m'
    → Memᴰ d defs
    → (tool : Tool) × Memᴰ tool (tools_of d.tenant_id m') × (tool.def ≡ d)
unfolding add_tools
add_tools_complete t [] m m' d y n = elim n [ ]
add_tools_complete t (def ∷ defs) m m' d y n =
    let (tool, e, y') =
      >>=-Yields (λ tool. add_tools t defs (added def tool m)) (resolve_tool t def) y in
    from tool (resolve_tool-IsTool t def tool e).1 y' n
      (λ k. add_tools_complete t defs (added def tool m) m' d y' k)
  where
    from :
        (tool : Tool)
        → tool.def ≡ def
        → Yields (add_tools t defs (added def tool m)) m'
        → Memᴰ d (def ∷ defs)
        → (Memᴰ d defs → (x : Tool) × Memᴰ x (tools_of d.tenant_id m') × (x.def ≡ d))
        → (x : Tool) × Memᴰ x (tools_of d.tenant_id m') × (x.def ≡ d)
    from tool e y' (Memᴰ.tail k) ih = ih k
    from tool e y' (Memᴰ.head q) ih = (
      tool,
      subst (λ (z : ToolDefinition). Memᴰ tool (tools_of z.tenant_id m')) (sym q)
          (add_tools-keeps t defs (added def tool m) m' def.tenant_id tool y' (
            subst (λ l. Memᴰ tool l)
              (sym (
                tools_of-insert def.tenant_id def.tenant_id _ m
                ∙ ap
                    (λ b.
                      if b then tools_of def.tenant_id m ++ tool ∷ [] else tools_of def.tenant_id m)
                    (str_eq_refl def.tenant_id)))
              (mem-append_right (tools_of def.tenant_id m) (Memᴰ.head refl)))),
      e ∙ sym q,
    )

pub tools_of-sort_tools :
    (tenant : Str) (m : Dict Str (List Tool))
    → tools_of tenant (sort_tools m) ≡ sort tool_le (tools_of tenant m)
unfolding sort_tools lookup sort
tools_of-sort_tools tenant [] = refl
tools_of-sort_tools tenant ((k, tools) ∷ m) = at (tools_of-sort_tools tenant m) (str_eq k tenant)
  where
    at :
        tools_of tenant (sort_tools m) ≡ sort tool_le (tools_of tenant m)
        → (b : Bool)
        → (elim (if b then some (sort tool_le tools) else lookup tenant (sort_tools m)) [
          | none ↦ []
          | some ts ↦ ts
        ])
          ≡ sort tool_le
              (elim (if b then some tools else lookup tenant m) [ none ↦ [] | some ts ↦ ts ])
    at ih true = refl
    at ih false = ih

-- The stages of a build that succeeds.
pub record Stages (snap : Snapshot) (v : View) : Type 0 where
  pub tables : Tables
  pub slugs : Dict Str Tenant
  pub tools : Dict Str (List Tool)
  pub indexed : Yields (index_tables snap) (tables, slugs)
  pub resolved_all : Yields (add_tools tables snap.tools []) tools
  pub names_ok : Yields (check_all_names (sort_tools tools)) tt
  pub made : v ≡ view_of snap tables slugs tools

pub build-Stages : (snap : Snapshot) (v : View) → build snap ≡ ok v → Stages snap v
unfolding build
build-Stages snap v y =
    let (t, a, y1) =
      >>=-Yields
        (λ (t : Tables × Dict Str Tenant). add_tools t.0 snap.tools [] >>= λ tools.
          check_all_names (sort_tools tools) >>= λ _.
          check_budgets t.0.toolsets (sort_tools tools) >>= λ _. ok (view_of snap t.0 t.1 tools))
        (index_tables snap) y in
    let (tools, b, y2) =
      >>=-Yields
        (λ tools. check_all_names (sort_tools tools) >>= λ _.
          check_budgets t.0.toolsets (sort_tools tools) >>= λ _. ok (view_of snap t.0 t.1 tools))
        (add_tools t.0 snap.tools []) y1 in
    let (u, c, y3) =
      >>=-Yields
        (λ (_ : Unit {0}).
          check_budgets t.0.toolsets (sort_tools tools) >>= λ _. ok (view_of snap t.0 t.1 tools))
        (check_all_names (sort_tools tools)) y2 in
    let (u', d, y4) =
      >>=-Yields (λ (_ : Unit {0}). ok (view_of snap t.0 t.1 tools))
        (check_budgets t.0.toolsets (sort_tools tools)) y3 in
    record {
      tables = t.0;
      slugs = t.1;
      tools = tools;
      indexed = a;
      resolved_all = b;
      names_ok = c;
      made = cc;
    }

abbrev pub tables_of : View → Tables
tables_of v = record {
  tenants = v.tenants;
  namespaces = v.namespaces;
  toolsets = v.toolsets;
  servers = v.servers;
}

-- Every tool that a built view serves for a tenant was admitted for that tenant; its server,
-- namespace, tenant and toolset are those of the view's tables, its qualified name is its name
-- under its namespace's prefix, and it has an input schema.
pub build-IsTool :
    (snap : Snapshot) (v : View) (tenant : Str) (tool : Tool)
    → build snap ≡ ok v
    → Memᴰ tool (tools_for v tenant)
    → IsTool (tables_of v) tenant tool
unfolding view_of tools_for lookup
build-IsTool snap v tenant tool b n =
    let st = build-Stages snap v b in
    subst (λ (z : View). IsTool (tables_of z) tenant tool) (sym st.made)
      (add_tools-AllTools st.tables snap.tools [] st.tools (λ s x k. elim k [ ]) st.resolved_all
        tenant tool
        (mem_of_mem-sort tool_le (tools_of tenant st.tools) (
          subst (λ l. Memᴰ tool l) (tools_of-sort_tools tenant st.tools)
            (subst (λ (z : View). Memᴰ tool (tools_for z tenant)) st.made n))))

-- A built view serves every tool of the snapshot, under the tenant that it was admitted for.
pub build_complete :
    (snap : Snapshot) (v : View) (def : ToolDefinition)
    → build snap ≡ ok v
    → Memᴰ def snap.tools
    → (tool : Tool) × Memᴰ tool (tools_for v def.tenant_id) × (tool.def ≡ def)
unfolding view_of tools_for
build_complete snap v def b n =
    let st = build-Stages snap v b in
    let (tool, k, e) = add_tools_complete st.tables snap.tools [] st.tools def st.resolved_all n in
    (
      tool,
      subst (λ (z : View). Memᴰ tool (tools_for z def.tenant_id)) (sym st.made)
          (subst (λ l. Memᴰ tool l) (sym (tools_of-sort_tools def.tenant_id st.tools))
            (mem-sort tool_le k)),
      e,
    )

-- A view that is built has the snapshot it is built from, whose version is not 0.
pub build-snapshot :
    (snap : Snapshot) (v : View) → build snap ≡ ok v → (v.snapshot ≡ snap) × (0 < snap.version)
unfolding view_of index_tables
build-snapshot snap v b =
    let st = build-Stages snap v b in
    let (e, y) =
      unless-Yields (snap.version == 0) bad_version
        (index_tenants snap.tenants [] [] >>= λ tenants.
          index_namespaces snap.namespaces [] [] >>= λ namespaces.
          index_toolsets snap.toolsets [] >>= λ toolsets.
          index_servers namespaces tenants.0 snap.servers [] >>= λ servers.
          check_conflicts snap.plugins [] >>= λ _. ok (
            record {
              tenants = tenants.0;
              namespaces = namespaces;
              toolsets = toolsets;
              servers = servers;
            },
            tenants.1,
          ))
        st.indexed in
    (ap (λ (z : View). z.snapshot) st.made, ground arith)
