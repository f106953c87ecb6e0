-- ===== src/Snapshot/Store/Cached.antt =====
-- The cache of `PrincipalView`: what it returns is what composing anew returns.
use mcpdoll.Base.{
  ℕ, Str, Bool, true, false, ◌&&◌, Option, none, some, List, [], ◌∷◌, ◌≡◌, refl, sym, subst, arith,
  ◌==◌, str_eq, str_eq_iff, if◌then◌else◌, and_true, Option-cases, inl, inr, Result, ok, err, Memᴰ,
}
use mcpdoll.Proto.Snapshot.{Snapshot}
use mcpdoll.Snapshot.View.{View}
use mcpdoll.Snapshot.Principals.{Principals, empty_principals}
use mcpdoll.Snapshot.Catalog.{PrincipalView}
use mcpdoll.Snapshot.Store.{
  ViewError, Key, same_key, Store, principals_of, cached_at, compose_for, keep_composed, key_of,
  no_snapshot, view_in, principal_view,
}
use mcpdoll.Snapshot.Store.Steps.{IsKnown, IsSound, IsReachable, IsReachable-IsSound}

same_key-eq : (j k : Key) → same_key j k ≡ true → j ≡ k
same_key-eq j k h =
    let (a, bc) =
      and_true (j.snapshot_version == k.snapshot_version)
        (j.principal_version == k.principal_version && str_eq j.principal_id k.principal_id) h in
    let (b, c) =
      and_true (j.principal_version == k.principal_version) (str_eq j.principal_id k.principal_id)
        bc in
    let e : j.snapshot_version ≡ k.snapshot_version = ground arith in
    let f : j.principal_version ≡ k.principal_version = ground arith in
    let g = (str_eq_iff j.principal_id k.principal_id).0 c in
    λ i. record { snapshot_version = e i; principal_version = f i; principal_id = g i }

cached_at-Mem :
    (k : Key) (m : List (Key × PrincipalView)) {p : PrincipalView}
    → cached_at k m ≡ some p
    → Memᴰ (k, p) m
unfolding cached_at
cached_at-Mem k [] h = cc
cached_at-Mem k ((j, q) ∷ rest) {p} h = at (same_key j k) refl h (λ g. cached_at-Mem k rest g)
  where
    at :
        (b : Bool)
        → same_key j k ≡ b
        → (if b then some q else cached_at k rest) ≡ some p
        → (cached_at k rest ≡ some p → Memᴰ (k, p) rest)
        → Memᴰ (k, p) ((j, q) ∷ rest)
    at true e h ih = let f : p ≡ q = cc in Memᴰ.head (λ i. (sym (same_key-eq j k e) i, f i))
    at false e h ih = Memᴰ.tail (ih h)

-- The outcome of `PrincipalView` without a cache.
abbrev pub composed_anew : Str → Store → Result ViewError PrincipalView
composed_anew id s = elim s.current [
  | none ↦ err no_snapshot
  | some v ↦ compose_for v (principals_of s) id
]

module _ (snapshots : ℕ → Snapshot) (sets : ℕ → Principals) where
  -- A cached composition under the key of what is served is the composition.
  fresh-compose :
      (v : View) (id : Str) (s : Store) (p : PrincipalView)
      → IsSound snapshots sets s
      → IsKnown snapshots sets v
      → cached_at (key_of v (principals_of s) id) s.composed ≡ some p
      → compose_for v (principals_of s) id ≡ ok p
  fresh-compose v id s p i k h =
      let (w, b, c) =
        i.composed_fresh (key_of v (principals_of s) id) p
          (cached_at-Mem (key_of v (principals_of s) id) s.composed h) in
      let e : w ≡ v = cc in
      subst (λ (ps : Principals). compose_for v ps id ≡ ok p) (sym i.set_known)
        (subst (λ (z : View). compose_for z (sets (principals_of s).version) id ≡ ok p) e c)

  keep_composed-outcome :
      (k : Key) (r : Result ViewError PrincipalView) (s : Store)
      → cached_at k s.composed ≡ none
      → (keep_composed k r s).1 ≡ r
  unfolding keep_composed
  keep_composed-outcome k (err e) s h = refl
  keep_composed-outcome k (ok p) s h = rw (h, keep_composed) refl

  view_in-composed :
      (v : View) (id : Str) (s : Store)
      → IsSound snapshots sets s
      → IsKnown snapshots sets v
      → (view_in (some v) id s).1 ≡ compose_for v (principals_of s) id
  unfolding view_in
  view_in-composed v id s i k =
      elim (Option-cases (cached_at (key_of v (principals_of s) id) s.composed)) [
        | inr (p, h) ↦ rw (h, view_in) (sym (fresh-compose v id s p i k h))
        | inl h ↦
            rw (h, view_in)
              (keep_composed-outcome (key_of v (principals_of s) id)
                (compose_for v (principals_of s) id) s h)
      ]

  -- In a state that a store reaches, however its methods interleave, `PrincipalView` returns what
  -- composing the catalog anew from the served view and the principal set held returns, errors
  -- included, whatever the cache holds, if each version names one snapshot and one principal set,
  -- and version 0 of the sets is the empty set.
  pub principal_view-composed_anew :
      (id : Str) (s : Store)
      → sets 0 ≡ empty_principals
      → IsReachable snapshots sets s
      → (principal_view id s).1 ≡ composed_anew id s
  unfolding principal_view view_in
  principal_view-composed_anew id s z r =
      at s.current refl (IsReachable-IsSound snapshots sets s z r)
    where
      at :
          (c : Option View)
          → s.current ≡ c
          → IsSound snapshots sets s
          → (view_in c id s).1
            ≡ elim c [ none ↦ err no_snapshot | some v ↦ compose_for v (principals_of s) id ]
      at none h i = refl
      at (some v) h i = view_in-composed v id s i (i.serving_known v h)
