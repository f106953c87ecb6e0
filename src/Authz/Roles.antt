-- ===== src/Authz/Roles.antt =====
-- internal/platform/authz/roles.go: permissions, the role catalog, grants, the validation of a
-- catalog and the check against privilege escalation.
use mcpdoll.Base.{
  Str, codes, Bool, not, ◌&&◌, Option, none, some, List, [], ◌∷◌, ◌++◌, map, if◌then◌else◌, str_eq,
  any, keep,
}
use mcpdoll.Base.Sort.{sort, str_le}
use mcpdoll.Base.Dict.{Dict, lookup, insert, str_key}
use mcpdoll.Authz.Scope.{parse_scope, is_empty}

abbrev pub Permission : Type 0
Permission = Str

abbrev pub tenant_manage : Permission
tenant_manage = codes "tenant:manage"

abbrev pub user_manage : Permission
user_manage = codes "user:manage"

abbrev pub role_manage : Permission
role_manage = codes "role:manage"

abbrev pub key_manage : Permission
key_manage = codes "key:manage"

abbrev pub idp_manage : Permission
idp_manage = codes "idp:manage"

abbrev pub auth_settings : Permission
auth_settings = codes "auth:settings"

abbrev pub registry_read : Permission
registry_read = codes "registry:read"

abbrev pub registry_write : Permission
registry_write = codes "registry:write"

abbrev pub snapshot_build : Permission
snapshot_build = codes "snapshot:build"

abbrev pub snapshot_publish : Permission
snapshot_publish = codes "snapshot:publish"

abbrev pub key_generate : Permission
key_generate = codes "signingkey:generate"

abbrev pub tool_list : Permission
tool_list = codes "tool:list"

abbrev pub tool_call : Permission
tool_call = codes "tool:call"

abbrev pub gateway_inspect : Permission
gateway_inspect = codes "gateway:inspect"

abbrev pub audit_view : Permission
audit_view = codes "audit:view"

-- The closed set, in the order of the source.
unfoldable pub all_permissions : List Permission
all_permissions =
    audit_view ∷ auth_settings ∷ gateway_inspect ∷ idp_manage ∷ key_manage ∷ registry_read
    ∷ registry_write ∷ role_manage ∷ snapshot_build ∷ snapshot_publish ∷ key_generate
    ∷ tenant_manage ∷ tool_call ∷ tool_list ∷ user_manage ∷ []

-- A role's permissions as a list; the source has a set.
abbrev pub Catalog : Type 0
Catalog = Dict Str (List Permission)

-- `add` of `DefaultCatalog`.
unfoldable pub default_catalog : Catalog
unfolding all_permissions insert
default_catalog = insert (codes "platform_admin") all_permissions (
    insert (codes "tenant_admin")
      (user_manage ∷ role_manage ∷ key_manage ∷ registry_read ∷ registry_write ∷ snapshot_build
        ∷ snapshot_publish ∷ gateway_inspect ∷ audit_view ∷ tool_list ∷ tool_call ∷ [])
      (insert (codes "toolset_admin")
        (registry_read ∷ registry_write ∷ snapshot_build ∷ tool_list ∷ tool_call ∷ [])
        (insert (codes "publisher") (registry_read ∷ snapshot_publish ∷ audit_view ∷ []) (
          insert (codes "tool_user") (tool_list ∷ tool_call ∷ []) (
            insert (codes "viewer") (registry_read ∷ tool_list ∷ [])
              (insert (codes "auditor") (audit_view ∷ []) []))))))

-- A role at a scope.
pub record Grant : Type 0 where
  pub role : Str
  pub scope : Str

pub data GrantError : Type 0 where
  no_role : GrantError
  no_scope malformed_scope : Str → GrantError

-- `none` is a nil error.
unfoldable pub validate_grant : Grant → Option GrantError
validate_grant g =
    if is_empty g.role
    then some no_role
    else if is_empty g.scope
    then some (no_scope g.role)
    else elim (parse_scope g.scope) [ none ↦ some (malformed_scope g.role) | some _ ↦ none ]

-- The keys of a map; the source sorts them.
unfoldable pub keys : Catalog → List Str
keys [] = []
keys ((role, _) ∷ c) = role ∷ keys c

unfoldable pub roles : Catalog → List Str
roles c = sort str_le (keys c)

-- A missing role reads as an empty set.
unfoldable pub perms_of : Catalog → Str → List Permission
perms_of c role = elim (lookup role c) [ none ↦ [] | some ps ↦ ps ]

unfoldable pub permissions : Catalog → Str → List Permission
permissions c role = sort str_le (perms_of c role)

unfoldable pub has_permission : Permission → List Permission → Bool
has_permission p = any (λ q. str_eq q p)

pub data CatalogProblem : Type 0 where
  unknown_permission : Str → Permission → CatalogProblem
  hidden_capability : Str → CatalogProblem

unfoldable pub unknown_permissions : List Permission → List Permission
unfolding has_permission
unknown_permissions = keep (λ p. not (has_permission p all_permissions))

-- The problems of one role.
unfoldable pub role_problems : Catalog → Str → List CatalogProblem
unfolding has_permission
role_problems c role =
    let perms = perms_of c role in
    let unknown = keep (λ p. not (has_permission p all_permissions)) (permissions c role) in
    map (λ p. unknown_permission role p) unknown
    ++ (if has_permission tool_call perms && not (has_permission tool_list perms)
        then hidden_capability role ∷ []
        else [])

unfoldable pub problems_of : Catalog → List Str → List CatalogProblem
unfolding role_problems
problems_of c [] = []
problems_of c (role ∷ rest) = role_problems c role ++ problems_of c rest

-- A nil error is the empty list.
unfoldable pub validate_catalog : Catalog → List CatalogProblem
unfolding problems_of
validate_catalog c = problems_of c (roles c)

-- `Holder.Can`
abbrev pub Holder : Type 0
Holder = Permission → Str → Bool

-- The permissions that a role confers and the holder lacks at the scope.
unfoldable pub withheld_by : Catalog → Holder → Str → Str → List Permission
withheld_by c can role scope = keep (λ p. not (can p scope)) (permissions c role)
