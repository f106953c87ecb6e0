-- ===== src/Snapshot/Principals.antt =====
-- internal/dataplane/snapshot/principals.go: a principal set, indexed for lookup. Files and times
-- are left out; the engine is the built-in one. Of an error the kind and one name are kept.
use mcpdoll.Base.{
  ℕ, Str, Bool, true, false, not, ◌&&◌, Option, none, some, List, [], ◌∷◌, map, if◌then◌else◌,
  Result, ok, err, ◌>>=◌, unless,
}
use mcpdoll.Base.Dict.{Dict, lookup, insert, str_key}
use mcpdoll.Base.Sort.{sort, str_le}
use mcpdoll.Authz.Scope.{is_empty}
use mcpdoll.Authz.Roles.{Permission, Catalog, CatalogProblem, perms_of, validate_catalog}
use mcpdoll.Authz.Engine.{Decider, append_unique, prepare}
use mcpdoll.Proto.Snapshot.{Principal, PrincipalSet}
use mcpdoll.Snapshot.View.{has}
pub mod Indexed

pub data IndexError : Type 0 where
  bad_catalog : List CatalogProblem → IndexError
  no_id : IndexError
  id_twice prefix_shared no_digest : Str → IndexError

pub record Principals : Type 0 where
  pub version : ℕ
  pub catalog : Catalog
  pub by_id : Dict Str Principal
  pub by_key_prefix : Dict Str Principal

abbrev pub empty_principals : Principals
empty_principals = record { version = 0; catalog = []; by_id = []; by_key_prefix = [] }

-- `ByID` and `ByKeyPrefix`
unfoldable pub principal_by_id : Principals → Str → Option Principal
principal_by_id p id = lookup id p.by_id

unfoldable pub principal_by_prefix : Principals → Str → Option Principal
principal_by_prefix p prefix = lookup prefix p.by_key_prefix

ids : Dict Str Principal → List Str
ids m = map (λ e. e.0) m

-- `IDs`
unfoldable pub principal_ids : Principals → List Str
unfolding ids
principal_ids p = sort str_le (ids p.by_id)

-- `decider`
unfoldable pub decider : Principals → Principal → Decider
decider p principal = prepare principal.grants p.catalog

add_permissions : List (Str × Permission) → Catalog → Catalog
add_permissions [] c = c
add_permissions ((role, p) ∷ rest) c =
    add_permissions rest (insert role (append_unique (perms_of c role) p) c)

is_nil {ℓ} : {A : Type ℓ} → List A → Bool
is_nil [] = true
is_nil (_ ∷ _) = false

check_catalog : Catalog → Result IndexError (Unit {0})
unfolding is_nil
check_catalog c =
    unless (not (is_nil c) && not (is_nil (validate_catalog c))) (bad_catalog (validate_catalog c))
      (ok tt)

-- One principal with a key prefix.
add_prefix : Principal → Dict Str Principal → Result IndexError (Dict Str Principal)
add_prefix p m =
    if is_empty p.key_prefix
    then ok m
    else unless (has p.key_prefix m) (prefix_shared p.key_prefix)
        (unless (is_empty p.key_secret_digest) (no_digest p.subject) (ok (insert p.key_prefix p m)))

-- The loop over the principals: by id and by key prefix.
unfoldable pub add_principals :
    List Principal
    → Dict Str Principal
    → Dict Str Principal
    → Result IndexError (Dict Str Principal × Dict Str Principal)
unfolding add_prefix
add_principals [] ids prefixes = ok (ids, prefixes)
add_principals (p ∷ ps) ids prefixes = unless (is_empty p.id) no_id (
    unless (has p.id ids) (id_twice p.id)
      (add_prefix p prefixes >>= λ prefixes'. add_principals ps (insert p.id p ids) prefixes'))

-- `IndexPrincipals`
unfoldable pub index_principals : PrincipalSet → Result IndexError Principals
unfolding add_permissions check_catalog
index_principals set =
    let catalog = add_permissions set.role_permissions [] in
    check_catalog catalog >>= λ _. add_principals set.principals [] [] >>= λ tables. ok (record {
      version = set.version;
      catalog = catalog;
      by_id = tables.0;
      by_key_prefix = tables.1;
    })
