-- ===== src/Authz/Engine.antt =====
-- internal/platform/authz/engine.go: the built-in engine compiles grants into a decider, and the
-- grants of an API key are narrowed by its owner's. `AnyReaches` of scope.go stands here too.
use mcpdoll.Base.{
  Str, Bool, true, false, not, ◌||◌, ◌&&◌, Option, none, some, List, [], ◌∷◌, ◌++◌, if◌then◌else◌,
  str_eq, any,
}
use mcpdoll.Base.Dict.{Dict, lookup, insert, str_key}
use mcpdoll.Authz.Scope.{ParsedScope, parse_scope, scope_covers}
use mcpdoll.Authz.Roles.{Permission, Catalog, Grant}
pub mod Decide
pub mod Narrow
pub mod Escalation
pub mod Reach

abbrev pub Decider : Type 0
Decider = Permission → Str → Bool

unfoldable pub deny_all : Decider
deny_all p s = false

unfoldable pub append_unique : List Str → Str → List Str
append_unique list scope =
    if any (λ existing. str_eq existing scope) list then list else list ++ scope ∷ []

-- From a permission to the scopes at which it is held.
abbrev pub Index : Type 0
Index = Dict Permission (List Str)

-- `byPermission[p]`; a missing key reads as nil.
unfoldable pub scopes_at : Permission → Index → List Str
scopes_at p m = elim (lookup p m) [ none ↦ [] | some scopes ↦ scopes ]

unfoldable pub add_permissions : List Permission → Str → Index → Index
add_permissions [] scope m = m
add_permissions (p ∷ ps) scope m =
    add_permissions ps scope (insert p (append_unique (scopes_at p m) scope) m)

-- A grant of a role that the catalog lacks adds nothing.
unfoldable pub add_grant : Catalog → Grant → Index → Index
unfolding add_permissions
add_grant catalog g m = elim (lookup g.role catalog) [
  | none ↦ m
  | some perms ↦ add_permissions perms g.scope m
]

unfoldable pub compile : Catalog → List Grant → Index → Index
unfolding add_grant
compile catalog [] m = m
compile catalog (g ∷ gs) m = compile catalog gs (add_grant catalog g m)

is_nil : Index → Bool
is_nil [] = true
is_nil (_ ∷ _) = false

unfoldable pub prepare : List Grant → Catalog → Decider
unfolding compile is_nil deny_all
prepare grants catalog =
    let m = compile catalog grants [] in
    if is_nil m then deny_all else λ p request.
    any (λ granted. scope_covers granted request) (scopes_at p m)

-- The inner loop of `Intersect`: the owner holds the key's role at a scope that covers the key's.
unfoldable pub survives : Grant → List Grant → Bool
survives kg [] = false
survives kg (og ∷ rest) =
    let later = survives kg rest in
    if not (str_eq og.role kg.role)
    then later
    else if scope_covers og.scope kg.scope
    then true
    else later

surviving : List Grant → List Grant → List Grant
unfolding survives
surviving [] owner = []
surviving (kg ∷ rest) owner =
    let kept = surviving rest owner in if survives kg owner then kg ∷ kept else kept

-- A nil result and an empty one are not told apart.
unfoldable pub intersect : List Grant → List Grant → List Grant
unfolding surviving
intersect [] owner = []
intersect key [] = []
intersect key owner = surviving key owner

unfoldable pub any_reaches : List Grant → Str → Bool
any_reaches [] tenant = false
any_reaches (g ∷ rest) tenant =
    let later = any_reaches rest tenant in
    elim (parse_scope g.scope) [
      | none ↦ later
      | some parsed ↦ if parsed.is_global || str_eq parsed.tenant tenant then true else later
    ]
