-- ===== src/Examples/Authz.antt =====
-- Scopes, roles and grants of two tenants.
use mcpdoll.Base.{
  Str, codes, true, false, List, [], ◌∷◌, ◌≡◌, refl, ◌↔◌, Memᴰ, Option, some, ◌⊎◌, inl, inr, any,
  all, contains_byte,
}
use mcpdoll.Authz.Scope.{is_empty, scope_covers, global_scope, parse_scope, tenant_of}
use mcpdoll.Authz.Scope.Parse.{Place, in_tenant, at_tool, IsPlace, render, parts, parse_scope_sound}
use mcpdoll.Authz.Scope.Hierarchy.{within, scope_covers-render}
use mcpdoll.Authz.Roles.{
  Catalog, Grant, default_catalog, keys, validate_catalog, withheld_by, tool_list, tool_call,
  user_manage, registry_read, audit_view,
}
use mcpdoll.Authz.Catalog.{prepare-no_hidden_call}
use mcpdoll.Authz.Engine.{prepare, intersect, any_reaches}
use mcpdoll.Authz.Engine.Decide.{allowed, prepare-allowed}
use mcpdoll.Authz.Engine.Narrow.{intersect_narrows}
use mcpdoll.Authz.Engine.Escalation.{withheld_by-safe}
use mcpdoll.Authz.Engine.Reach.{touches, any_reaches_iff}

abbrev acme : Place
acme = in_tenant (codes "acme")

abbrev search_tool : Place
search_tool = at_tool (codes "acme") (codes "docs") (codes "search")

abbrev admin_of_acme : Grant
admin_of_acme = record { role = codes "tenant_admin"; scope = codes "t/acme" }

abbrev user_of_docs : Grant
user_of_docs = record { role = codes "tool_user"; scope = codes "t/acme/ts/docs" }

abbrev admin_of_docs : Grant
admin_of_docs = record { role = codes "tenant_admin"; scope = codes "t/acme/ts/docs" }

abbrev search : Str
search = codes "t/acme/ts/docs/search"

search-IsPlace : IsPlace search_tool
unfolding contains_byte is_empty
search-IsPlace = ((refl, refl), (refl, refl), (refl, refl))

acme-IsPlace : IsPlace acme
unfolding contains_byte is_empty
acme-IsPlace = (refl, refl)

default_catalog-valid : validate_catalog default_catalog ≡ []
unfolding validate_catalog default_catalog mcpdoll.Authz.Roles.roles mcpdoll.Base.Sort.sort keys
    mcpdoll.Base.str_eq mcpdoll.Base.Sort.str_le mcpdoll.Base.keep mcpdoll.Authz.Roles.permissions
    mcpdoll.Authz.Roles.perms_of mcpdoll.Base.Dict.lookup any
default_catalog-valid = refl

prepare-allowed_example :
    prepare (user_of_docs ∷ []) default_catalog tool_call search
    ≡ allowed default_catalog (user_of_docs ∷ []) tool_call search
prepare-allowed_example = prepare-allowed (user_of_docs ∷ []) default_catalog tool_call search

intersect_narrows_example :
    (prepare (admin_of_docs ∷ []) default_catalog tool_call search ≡ true)
    × (prepare (admin_of_acme ∷ []) default_catalog tool_call search ≡ true)
unfolding prepare intersect mcpdoll.Base.str_eq scope_covers mcpdoll.Base.has_prefix
    mcpdoll.Base.byte_at mcpdoll.Base.Dict.lookup default_catalog any mcpdoll.Authz.Engine.scopes_at
    mcpdoll.Authz.Engine.append_unique
intersect_narrows_example =
    intersect_narrows (admin_of_docs ∷ []) (admin_of_acme ∷ []) default_catalog tool_call search
      refl

withheld_by-safe_example :
    prepare (user_of_docs ∷ admin_of_acme ∷ []) default_catalog tool_call search
    ≡ prepare (admin_of_acme ∷ []) default_catalog tool_call search
unfolding withheld_by prepare mcpdoll.Base.keep mcpdoll.Authz.Roles.permissions
    mcpdoll.Base.Sort.sort mcpdoll.Authz.Roles.perms_of mcpdoll.Base.Dict.lookup default_catalog
    mcpdoll.Base.str_eq mcpdoll.Base.Sort.str_le any mcpdoll.Authz.Engine.scopes_at
    mcpdoll.Authz.Engine.append_unique scope_covers mcpdoll.Base.has_prefix mcpdoll.Base.byte_at
withheld_by-safe_example =
    withheld_by-safe default_catalog (admin_of_acme ∷ []) user_of_docs tool_call search refl

scope_covers-render_example :
    scope_covers (render acme) (render search_tool) ≡ within acme search_tool
scope_covers-render_example = scope_covers-render acme search_tool acme-IsPlace search-IsPlace

parse_scope_sound_example :
    (p : Place) × IsPlace p × (search ≡ render p) × (parts search_tool ≡ parts p)
unfolding parse_scope mcpdoll.Base.str_eq mcpdoll.Base.has_prefix mcpdoll.Base.drop_bytes
    mcpdoll.Authz.Scope.cut contains_byte
parse_scope_sound_example = parse_scope_sound search (parts search_tool) refl

any_reaches_iff_example : (any_reaches (user_of_docs ∷ []) (codes "acme") ≡ true) ↔ (
    (g : Grant) × Memᴰ g (user_of_docs ∷ [])
    × ((p : Place) × IsPlace p × (g.scope ≡ render p) × (touches (codes "acme") p ≡ true)))
any_reaches_iff_example = any_reaches_iff (user_of_docs ∷ []) (codes "acme")

prepare-no_hidden_call_example : prepare (user_of_docs ∷ []) default_catalog tool_list search ≡ true
unfolding prepare mcpdoll.Base.Dict.lookup default_catalog mcpdoll.Base.str_eq any
    mcpdoll.Authz.Engine.scopes_at mcpdoll.Authz.Engine.append_unique scope_covers
    mcpdoll.Base.has_prefix mcpdoll.Base.byte_at
prepare-no_hidden_call_example =
    prepare-no_hidden_call default_catalog (user_of_docs ∷ []) search default_catalog-valid refl
