-- ===== src/Proto/Snapshot.antt =====
-- The messages of internal/proto/snapshotpb that the snapshot packages read: a snapshot and its
-- parts, a principal set, a revocation list, and a signed artifact. A repeated field is a list. An
-- int32 is an integer; versions are natural numbers.
use mcpdoll.Base.{ℕ, Str, Bool, Option, List}
use mcpdoll.Base.Integers.{ℤ}
use mcpdoll.Proto.{ToolDefinition, PluginManifest}
use mcpdoll.Authz.Roles.{Grant, Permission}

pub record Tenant : Type 0 where
  pub id : Str
  pub slug : Str

pub record Namespace : Type 0 where
  pub id : Str
  pub prefix : Str

pub record Toolset : Type 0 where
  pub id : Str
  pub name : Str
  pub priority : ℤ
  pub token_budget : ℤ
  pub ttl_ms : ℤ

pub record PolicyRule : Type 0 where
  pub max_ttl_ms : ℤ

pub record Policy : Type 0 where
  pub id : Str
  pub priority : ℤ
  pub rules : List PolicyRule

-- `bindings` by their tenant's id.
pub record Server : Type 0 where
  pub id : Str
  pub namespace_id : Str
  pub bindings : List Str

-- `default_ttl_ms` is that of the catalog defaults; `none` if the message has none.
pub record Snapshot : Type 0 where
  pub version : ℕ
  pub id : Str
  pub tenants : List Tenant
  pub namespaces : List Namespace
  pub toolsets : List Toolset
  pub policies : List Policy
  pub servers : List Server
  pub plugins : List PluginManifest
  pub tools : List ToolDefinition
  pub default_ttl_ms : Option ℤ

pub record Principal : Type 0 where
  pub id : Str
  pub subject : Str
  pub tenant_id : Str
  pub grants : List Grant
  pub spans_tenants : Bool
  pub key_prefix : Str
  pub key_secret_digest : Str

pub record PrincipalSet : Type 0 where
  pub version : ℕ
  pub role_permissions : List (Str × Permission)
  pub principals : List Principal

pub record RevocationList : Type 0 where
  pub version : ℕ
  pub pruned_through : ℕ
  pub principal_ids : List Str

-- A signed snapshot, principal set or revocation list: the octets that were signed.
pub record Signed : Type 0 where
  pub body : Str
  pub key_id : Str
  pub algorithm : Str
  pub signature : Str
