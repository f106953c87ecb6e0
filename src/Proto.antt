-- ===== src/Proto.antt =====
-- The generated messages of internal/proto/snapshotpb that the components read: enumerations and
-- the plugin manifest, with the fields that they read.
use mcpdoll.Base.{ℕ, Str, codes, List}
use mcpdoll.Base.Dict.{Dict}
use mcpdoll.Base.Integers.{ℤ}
pub mod Snapshot

pub data EffectClass : Type 0 where
  effect_unspecified effect_read effect_write effect_destructive : EffectClass

-- `EffectClass.String()`
unfoldable pub effect_string : EffectClass → Str
effect_string effect_unspecified = codes "EFFECT_CLASS_UNSPECIFIED"
effect_string effect_read = codes "EFFECT_CLASS_READ"
effect_string effect_write = codes "EFFECT_CLASS_WRITE"
effect_string effect_destructive = codes "EFFECT_CLASS_DESTRUCTIVE"

pub data Hook : Type 0 where
  hook_unspecified on_request on_identity on_catalog on_tool_call on_tool_result on_response
        on_audit :
      Hook

pub data Rollout : Type 0 where
  rollout_unspecified shadow canary enforced : Rollout

pub data FailureMode : Type 0 where
  mode_unspecified mode_open mode_closed : FailureMode

-- `canary_percent` and `budget_ms` are int32; a negative value acts as 0 where they are read.
pub record PluginManifest : Type 0 where
  pub id : Str
  pub name : Str
  pub hooks : List Hook
  pub priority : ℤ
  pub budget_ms : ℕ
  pub writes : List Str
  pub failure_policy : Dict Str FailureMode
  pub rollout : Rollout
  pub canary_percent : ℕ
  pub toolset_ids : List Str

-- An admitted tool.
pub record ToolDefinition : Type 0 where
  pub name : Str
  pub qualified_name : Str
  pub server_id : Str
  pub namespace_id : Str
  pub tenant_id : Str
  pub toolset_id : Str
  pub token_estimate : ℤ
  pub digest : Str
  pub semantic_digest : Str
  pub title : Str
  pub description : Str
  pub input_schema_json : Str
  pub output_schema_json : Str
  pub annotations_json : Str
