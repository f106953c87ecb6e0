-- ===== src/Snapshot/Revocations.antt =====
-- internal/dataplane/snapshot/revocation.go: an indexed revocation list. Files and times are left
-- out.
use mcpdoll.Base.{
  ℕ, Str, Bool, true, false, List, [], ◌∷◌, any, str_eq, if◌then◌else◌, Result, ok, unless,
}
use mcpdoll.Authz.Scope.{is_empty}
use mcpdoll.Proto.Snapshot.{RevocationList}

-- `refused` is a set.
pub record Revocations : Type 0 where
  pub version : ℕ
  pub pruned_through : ℕ
  pub refused : List Str

abbrev pub empty_revocations : Revocations
empty_revocations = record { version = 0; pruned_through = 0; refused = [] }

-- `Refuses`
unfoldable pub refuses : Revocations → Str → Bool
refuses r id = any (str_eq id) r.refused

add_refused : List Str → List Str → List Str
add_refused refused [] = refused
add_refused refused (id ∷ ids) =
    add_refused (if any (str_eq id) refused then refused else id ∷ refused) ids

has_empty : List Str → Bool
has_empty [] = false
has_empty (id ∷ ids) = let rest = has_empty ids in if is_empty id then true else rest

-- The indexing in `VerifyRevocations`; true is the error of an empty principal id.
unfoldable pub index_revocations : RevocationList → Result Bool Revocations
unfolding add_refused has_empty
index_revocations list = unless (has_empty list.principal_ids) true (
    ok (record {
      version = list.version;
      pruned_through = list.pruned_through;
      refused = add_refused [] list.principal_ids;
    }))
