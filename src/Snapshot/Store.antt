-- ===== src/Snapshot/Store.antt =====
-- internal/dataplane/snapshot/store.go: the store of a data plane. Each region under the mutex, and
-- each load or swap of an atomic pointer, is one step on the record; between the steps of one
-- method other methods may run. The verifier and the preparer are arguments: `verified` is what
-- `Verify` returns, and `prepare` is `none` where there is no preparer, or it agrees. Callbacks run
-- after a swap, with what the method returns.
use mcpdoll.Base.{
  ℕ, ◌-◌, Str, Bool, true, false, Option, none, some, List, [], ◌∷◌, ◌++◌, ltb, leb, ◌==◌, length,
  drop, map, if◌then◌else◌, str_eq, ◌&&◌, Result, ok, err, ◌>>=◌,
}
use mcpdoll.Base.Dict.{Dict, str_key}
use mcpdoll.Proto.Snapshot.{Snapshot, Principal, Tenant, Signed}
use mcpdoll.Snapshot.View.{BuildError, View, version, build}
use mcpdoll.Snapshot.Principals.{Principals, empty_principals, principal_by_id, decider}
use mcpdoll.Snapshot.Revocations.{Revocations, empty_revocations}
use mcpdoll.Snapshot.Catalog.{TenantError, tenants_for, PrincipalView, compose_principal}
pub mod Activation
pub mod Steps
pub mod Cached

pub data StoreError : Type 0 where
  unverified unservable : Str → StoreError
  stale : ℕ → ℕ → StoreError
  unbuildable : BuildError → StoreError
  not_found : ℕ → StoreError

pub record Entry : Type 0 where
  pub signed : Signed
  pub view : View

pub record Key : Type 0 where
  pub snapshot_version : ℕ
  pub principal_version : ℕ
  pub principal_id : Str

abbrev pub same_key : Key → Key → Bool
same_key a b =
    a.snapshot_version == b.snapshot_version
    && (a.principal_version == b.principal_version && str_eq a.principal_id b.principal_id)

-- `composed` is the cache, a map by key; `last_reject` has the version and the reason.
pub record Store : Type 0 where
  pub current : Option View
  pub principals : Option Principals
  pub composed : List (Key × PrincipalView)
  pub revocations : Option Revocations
  pub history : List Entry
  pub max_history : ℕ
  pub last_reject : Option (ℕ × StoreError)

-- `NewStore`
unfoldable pub new_store : ℕ → Store
new_store max_history = record {
  current = none;
  principals = none;
  composed = [];
  revocations = none;
  history = [];
  max_history = if ltb max_history 1 then 1 else max_history;
  last_reject = none;
}

-- `Version`: 0 if nothing is active.
abbrev pub serving_version : Store → ℕ
serving_version s = elim s.current [ none ↦ 0 | some v ↦ version v ]

-- `Principals` and `Revocations`
abbrev pub principals_of : Store → Principals
principals_of s = elim s.principals [ none ↦ empty_principals | some p ↦ p ]

abbrev pub revocations_of : Store → Revocations
revocations_of s = elim s.revocations [ none ↦ empty_revocations | some r ↦ r ]

unfoldable pub record_reject : ℕ → StoreError → Store → Store
record_reject v e s = record s { last_reject = some (v, e) }

-- Something is served, and the version is not newer.
unfoldable pub is_stale : ℕ → Option View → Bool
is_stale v none = false
is_stale v (some serving) = leb v (version serving)

-- The newest entries, no more than the bound.
abbrev pub bounded : ℕ → List Entry → List Entry
bounded n entries = if ltb n (length entries) then drop (length entries - n) entries else entries

-- The refusal of a version that is not newer, which `Activate` has at three places.
unfoldable pub refuse_stale : ℕ → Store → Store × Result StoreError View
unfolding record_reject
refuse_stale v s =
    (record_reject v (stale v (serving_version s)) s, err (stale v (serving_version s)))

-- The last region of `Activate`: the check under the lock and the swap.
unfoldable pub commit : Signed → View → Store → Store × Result StoreError View
unfolding is_stale refuse_stale
commit signed view s =
    if is_stale (version view) s.current then refuse_stale (version view) s else (
      record s {
        history = bounded s.max_history (s.history ++ record { signed = signed; view = view } ∷ []);
        current = some view;
        last_reject = none;
      },
      ok view,
    )

-- What the preparer says, and the last region.
unfoldable pub prepared :
    (View → Option Str) → Signed → View → Store → Store × Result StoreError View
unfolding commit record_reject
prepared prepare signed view s = elim (prepare view) [
  | some reason ↦ (record_reject (version view) (unservable reason) s, err (unservable reason))
  | none ↦ commit signed view s
]

unfoldable pub built :
    (View → Option Str)
    → Signed
    → ℕ
    → Result BuildError View
    → Store
    → Store × Result StoreError View
unfolding prepared
built prepare signed v (err e) s = (record_reject v (unbuildable e) s, err (unbuildable e))
built prepare signed v (ok view) s =
    if is_stale (version view) s.current
    then refuse_stale (version view) s
    else prepared prepare signed view s

-- `Activate` with no other method between its steps.
unfoldable pub activate :
    (View → Option Str) → Signed → Result Str Snapshot → Store → Store × Result StoreError View
unfolding built
activate prepare signed (err reason) s =
    (record_reject 0 (unverified reason) s, err (unverified reason))
activate prepare signed (ok snap) s =
    if is_stale snap.version s.current
    then refuse_stale snap.version s
    else built prepare signed snap.version (build snap) s

-- The first retained entry of a version.
unfoldable pub entry_of : ℕ → List Entry → Option Entry
entry_of v [] = none
entry_of v (e ∷ es) = if version e.view == v then some e else entry_of v es

-- The last region of `Rollback`.
unfoldable pub swap_back : View → Store → Store
swap_back view s = record s { current = some view }

unfoldable pub rebuilt :
    (View → Option Str) → Result BuildError View → Store → Store × Result StoreError View
unfolding swap_back
rebuilt prepare (err e) s = (s, err (unbuildable e))
rebuilt prepare (ok view) s = elim (prepare view) [
  | some reason ↦ (s, err (unservable reason))
  | none ↦ (swap_back view s, ok view)
]

-- `Rollback`
unfoldable pub rollback : (View → Option Str) → ℕ → Store → Store × Result StoreError View
unfolding rebuilt
rollback prepare v s = elim (entry_of v s.history) [
  | none ↦ (s, err (not_found v))
  | some e ↦ rebuilt prepare (build e.view.snapshot) s
]

-- `History` and `Signed`
unfoldable pub history_versions : Store → List ℕ
history_versions s = map (λ e. version e.view) s.history

unfoldable pub signed_of : ℕ → Store → Result StoreError Signed
signed_of v s = elim (entry_of v s.history) [ none ↦ err (not_found v) | some e ↦ ok e.signed ]

unfoldable pub older_principals : ℕ → Option Principals → Bool
older_principals v none = false
older_principals v (some held) = leb v held.version

-- `ApplyPrincipals`; true is a nil error. The swap and the clearing of the cache are two steps of
-- the source, `swap_principals` and `clear_composed`.
unfoldable pub swap_principals : Principals → Store → Store × Bool
unfolding older_principals
swap_principals next s =
    if older_principals next.version s.principals
    then (s, false)
    else (record s { principals = some next }, true)

abbrev pub clear_composed : Store → Store
clear_composed s = record s { composed = [] }

unfoldable pub apply_principals : Principals → Store → Store × Bool
apply_principals next s =
    let (s', done) = swap_principals next s in
    if done then (clear_composed s', true) else (s, false)

pub data RevocationRefusal : Type 0 where
  stale_list ahead_of_snapshot : RevocationRefusal

unfoldable pub older_revocations : ℕ → Option Revocations → Bool
older_revocations v none = false
older_revocations v (some held) = leb v held.version

-- `ApplyRevocations`
unfoldable pub apply_revocations : Revocations → Store → Store × Result RevocationRefusal (Unit {0})
unfolding older_revocations
apply_revocations next s =
    if older_revocations next.version s.revocations
    then (s, err stale_list)
    else if ltb (serving_version s) next.pruned_through
    then (s, err ahead_of_snapshot)
    else (record s { revocations = some next }, ok tt)

pub data ViewError : Type 0 where
  no_snapshot : ViewError
  no_principal : Str → ViewError
  bad_tenants : TenantError → ViewError

unfoldable pub cached_at : Key → List (Key × PrincipalView) → Option PrincipalView
cached_at k [] = none
cached_at k ((j, p) ∷ rest) = if same_key j k then some p else cached_at k rest

unfoldable pub composed_for :
    View
    → Principals
    → Principal
    → Result TenantError (List Tenant)
    → Result ViewError PrincipalView
composed_for v ps p (err e) = err (bad_tenants e)
composed_for v ps p (ok tenants) = ok (compose_principal v p tenants p.spans_tenants (decider ps p))

-- The composition, without the cache.
unfoldable pub compose_for : View → Principals → Str → Result ViewError PrincipalView
unfolding composed_for
compose_for v ps id = elim (principal_by_id ps id) [
  | none ↦ err (no_principal id)
  | some p ↦ composed_for v ps p (tenants_for v p)
]

-- Keeps an entry that another connection made first.
unfoldable pub keep_composed :
    Key → Result ViewError PrincipalView → Store → Store × Result ViewError PrincipalView
keep_composed k (err e) s = (s, err e)
keep_composed k (ok p) s = elim (cached_at k s.composed) [
  | some existing ↦ (s, ok existing)
  | none ↦ (record s { composed = (k, p) ∷ s.composed }, ok p)
]

abbrev pub key_of : View → Principals → Str → Key
key_of v ps id = record {
  snapshot_version = version v;
  principal_version = ps.version;
  principal_id = id;
}

unfoldable pub view_in : Option View → Str → Store → Store × Result ViewError PrincipalView
unfolding keep_composed
view_in none id s = (s, err no_snapshot)
view_in (some v) id s = elim (cached_at (key_of v (principals_of s) id) s.composed) [
  | some p ↦ (s, ok p)
  | none ↦ keep_composed (key_of v (principals_of s) id) (compose_for v (principals_of s) id) s
]

-- `PrincipalView` with no other method between its steps.
unfoldable pub principal_view : Str → Store → Store × Result ViewError PrincipalView
unfolding view_in
principal_view id s = view_in s.current id s
