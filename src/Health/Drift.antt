-- ===== src/Health/Drift.antt =====
-- internal/dataplane/health/drift.go. The canonical encoder is given, and digests are texts.
use mcpdoll.Base.{
  ℕ, Str, codes, Bool, true, false, not, ◌&&◌, ◌||◌, Option, none, some, List, [], ◌∷◌, ◌++◌, ltb,
  ◌==◌, if◌then◌else◌, str_eq, keep,
}
use mcpdoll.Base.Dict.{Dict, lookup, str_key}
use mcpdoll.Base.Sort.{sort, str_le}
use mcpdoll.Authz.Scope.{is_empty}
use mcpdoll.Proto.{ToolDefinition}
use mcpdoll.Pipeline.Json.{Json, null, bool, number, text, arr, obj, field, end}
pub mod Blocking

-- A string in the source, with no other values.
pub data DriftKind : Type 0 where
  cosmetic semantic removed added : DriftKind

-- `Severity`
unfoldable pub severity : DriftKind → ℕ
severity removed = 3
severity semantic = 2
severity cosmetic = 1
severity added = 0

-- `Blocking` of a kind.
abbrev pub is_blocking : DriftKind → Bool
is_blocking semantic = true
is_blocking removed = true
is_blocking cosmetic = false
is_blocking added = false

pub record ToolDrift : Type 0 where
  pub name : Str
  pub qualified_name : Str
  pub kind : DriftKind
  pub admitted_digest : Str
  pub observed_digest : Str
  pub detail : Str

-- `canonical.ToolDefinition` as far as it is compared; `none` is nil.
pub record Definition : Type 0 where
  pub title : Str
  pub description : Str
  pub input_schema : Option Json
  pub output_schema : Option Json
  pub annotations : Option Json

-- `mcp.ToolDigests`
pub record ToolDigests : Type 0 where
  pub full : Str
  pub semantic_digest : Str
  pub definition : Option Definition

is_empty_value : Option Json → Bool
is_empty_value none = true
is_empty_value (some (obj end)) = true
is_empty_value (some (obj (field _ _ _))) = false
is_empty_value (some _) = false

-- strings.Join(parts, " and ")
join_and : List Str → Str
join_and [] = []
join_and (s ∷ []) = s
join_and (s ∷ t ∷ r) = s ++ (codes " and " ++ join_and (t ∷ r))

named : Bool → Str → List Str
named b s = if b then s ∷ [] else []

no_names : List Str → Bool
no_names [] = true
no_names (_ ∷ _) = false

definition_changes : ToolDefinition → Option Definition → List Str
unfolding named
definition_changes def none = []
definition_changes def (some d) =
    named (not (str_eq d.description def.description)) (codes "description")
    ++ named (not (str_eq d.title def.title)) (codes "title")

unfoldable pub cosmetic_detail : ToolDefinition → ToolDigests → Str
unfolding definition_changes no_names join_and
cosmetic_detail def obs =
    let changed = definition_changes def obs.definition in
    if no_names changed
    then codes "prose changed; the schema is unchanged"
    else join_and changed ++ codes " changed; the schema is unchanged"

removed_drift : Str → ToolDefinition → ToolDrift
removed_drift name def = record {
  name = name;
  qualified_name = def.qualified_name;
  kind = removed;
  admitted_digest = def.digest;
  observed_digest = [];
  detail = codes "the backend no longer publishes this tool";
}

added_drift : Str → ToolDrift
added_drift name = record {
  name = name;
  qualified_name = [];
  kind = added;
  admitted_digest = [];
  observed_digest = [];
  detail = codes "the backend publishes this tool; it has not been admitted, so it is not served";
}

-- Most severe first, then by name: the first is not to stand after the second.
unfoldable pub drift_le : ToolDrift → ToolDrift → Bool
drift_le a b =
    if severity a.kind == severity b.kind
    then str_le a.name b.name
    else ltb (severity b.kind) (severity a.kind)

module _ (marshal : Json → Option Str) where
  encodes_to : Option Str → Str → Bool
  encodes_to none admitted = false
  encodes_to (some s) admitted = str_eq s admitted

  marshaled : Option Json → Option Str
  marshaled none = none
  marshaled (some v) = marshal v

  unfoldable pub same_canonical : Option Json → Str → Bool
  unfolding is_empty_value encodes_to marshaled
  same_canonical observed admitted =
      if is_empty_value observed
      then is_empty admitted
      else encodes_to (marshaled observed) admitted

  semantic_changes : ToolDefinition → Definition → Str
  unfolding named no_names join_and
  semantic_changes def d =
      let changed =
        named (not (same_canonical d.input_schema def.input_schema_json)) (codes "input schema")
        ++ (named (not (same_canonical d.output_schema def.output_schema_json))
              (codes "output schema")
            ++ named (not (same_canonical d.annotations def.annotations_json))
                (codes "annotations")) in
      if no_names changed
      then codes "the canonical definition changed in a way that is not prose"
      else join_and changed ++ codes " changed"

  unfoldable pub semantic_detail : ToolDefinition → Option Definition → Str
  unfolding semantic_changes
  semantic_detail def none = codes "the schema or annotations changed"
  semantic_detail def (some d) = semantic_changes def d

  -- The turn of the first loop of `Diff` for a tool that was admitted.
  unfoldable pub tool_drift : Str → ToolDefinition → Option ToolDigests → List ToolDrift
  unfolding removed_drift
  tool_drift name def none = removed_drift name def ∷ []
  tool_drift name def (some obs) =
      if str_eq obs.full def.digest
      then []
      else if str_eq obs.semantic_digest def.semantic_digest
      then record {
        name = name;
        qualified_name = def.qualified_name;
        kind = cosmetic;
        admitted_digest = def.digest;
        observed_digest = obs.full;
        detail = cosmetic_detail def obs;
      }
        ∷ []
      else record {
        name = name;
        qualified_name = def.qualified_name;
        kind = semantic;
        admitted_digest = def.semantic_digest;
        observed_digest = obs.semantic_digest;
        detail = semantic_detail def obs.definition;
      }
        ∷ []

  unfoldable pub admitted_drifts : Dict Str ToolDefinition → Dict Str ToolDigests → List ToolDrift
  admitted_drifts [] observed = []
  admitted_drifts ((name, def) ∷ rest) observed =
      tool_drift name def (lookup name observed) ++ admitted_drifts rest observed

  not_admitted : Str → Option ToolDefinition → List ToolDrift
  unfolding added_drift
  not_admitted name none = added_drift name ∷ []
  not_admitted name (some _) = []

  unfoldable pub added_drifts : Dict Str ToolDefinition → Dict Str ToolDigests → List ToolDrift
  unfolding not_admitted
  added_drifts admitted [] = []
  added_drifts admitted ((name, _) ∷ rest) =
      not_admitted name (lookup name admitted) ++ added_drifts admitted rest

  unfoldable pub diff : Dict Str ToolDefinition → Dict Str ToolDigests → List ToolDrift
  diff admitted observed =
      sort drift_le (admitted_drifts admitted observed ++ added_drifts admitted observed)

-- `Blocking` of a list.
unfoldable pub blocking : List ToolDrift → List ToolDrift
blocking = keep (λ d. is_blocking d.kind)
