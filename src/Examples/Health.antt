-- ===== src/Examples/Health.antt =====
-- The same tool of two tenants: one deployment has lost it.
use mcpdoll.Base.{Str, codes, Bool, false, none, List, [], ◌∷◌, ◌≡◌, any, if◌then◌else◌}
use mcpdoll.Base.Integers.{pos}
use mcpdoll.Proto.{ToolDefinition}
use mcpdoll.Health.Drift.{removed, ToolDrift, ToolDigests, diff}
use mcpdoll.Health.Drift.Blocking.{all_intact, classify-diff}
use mcpdoll.Health.State.{
  State, healthy, drifted, Target, Backend, Registry, new_registry, set, blocked, classify,
}
use mcpdoll.Health.State.Blocked.{refuses, is_some, start, after_set, blocked-IsReachable}

abbrev search : ToolDefinition
search = record {
  name = codes "search";
  qualified_name = codes "crm.search";
  server_id = codes "crm";
  namespace_id = codes "n1";
  tenant_id = codes "t1";
  toolset_id = codes "ts1";
  token_estimate = pos 90;
  digest = codes "d1";
  semantic_digest = codes "s1";
  title = codes "Search";
  description = codes "Finds";
  input_schema_json = codes "{}";
  output_schema_json = [];
  annotations_json = [];
}

abbrev reworded : ToolDigests
reworded = record { full = codes "d2"; semantic_digest = codes "s1"; definition = none }

classify-diff_example :
    classify none
      (diff (λ v. none) ((codes "search", search) ∷ []) ((codes "search", reworded) ∷ []))
      none
      7
      60
    ≡ (if all_intact ((codes "search", search) ∷ []) ((codes "search", reworded) ∷ [])
        then healthy
        else drifted)
classify-diff_example =
    classify-diff (λ v. none) ((codes "search", search) ∷ []) ((codes "search", reworded) ∷ []) none
      7 60

abbrev lost : ToolDrift
lost = record {
  name = codes "search";
  qualified_name = codes "crm.search";
  kind = removed;
  admitted_digest = codes "d1";
  observed_digest = [];
  detail = codes "the backend no longer publishes this tool";
}

abbrev crm_of : Str → State → List ToolDrift → Backend
crm_of tenant state drift = record {
  target = record { server_id = codes "crm"; tenant_id = tenant };
  server_name = codes "crm";
  tenant_slug = tenant;
  state = state;
  serving_mode = codes "strict";
  drift = drift;
}

abbrev two_tenants : Registry
two_tenants =
    set (crm_of (codes "globex") healthy [])
      (set (crm_of (codes "acme") drifted (lost ∷ [])) new_registry)

blocked-IsReachable_example :
    is_some (blocked two_tenants (codes "crm.search"))
    ≡ any (λ e. refuses (codes "crm.search") e.1) two_tenants.backends
blocked-IsReachable_example = blocked-IsReachable two_tenants (codes "crm.search") (
    after_set (crm_of (codes "globex") healthy [])
      (after_set (crm_of (codes "acme") drifted (lost ∷ [])) start))

abbrev nobody : Target → Bool
nobody t = false
