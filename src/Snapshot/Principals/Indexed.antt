-- ===== src/Snapshot/Principals/Indexed.antt =====
-- What the lookups of an indexed principal set return.
use mcpdoll.Base.{
  Str, Bool, true, false, not, some, List, [], ◌∷◌, ◌≡◌, refl, sym, ap, ◌∙◌, subst, arith,
  if◌then◌else◌, str_eq, str_eq_iff, ◌⊎◌, ok, ◌>>=◌, >>=-Yields, Yields, unless, unless-Yields, inl,
  inr, Memᴰ,
}
use mcpdoll.Base.Dict.{Dict, lookup, insert, lookup-insert, str_key}
use mcpdoll.Authz.Scope.{is_empty}
use mcpdoll.Base.Sort.{sort}
use mcpdoll.Authz.Roles.{Catalog, validate_catalog, roles, keys}
use mcpdoll.Proto.Snapshot.{Principal, PrincipalSet}
use mcpdoll.Snapshot.View.{has}
use mcpdoll.Snapshot.Principals.{
  no_id, id_twice, prefix_shared, no_digest, bad_catalog, Principals, principal_by_id,
  principal_by_prefix, add_permissions, check_catalog, is_nil, add_prefix, add_principals,
  index_principals,
}

-- An entry of the table by key prefix: a principal of the set with that prefix and with a digest.
pub record IsKeyed (set : List Principal) (prefix : Str) (p : Principal) : Type 0 where
  pub of_set : Memᴰ p set
  pub by_prefix : p.key_prefix ≡ prefix
  pub prefixed : is_empty prefix ≡ false
  pub digested : is_empty p.key_secret_digest ≡ false

abbrev AllKeyed : List Principal → Dict Str Principal → Type 0
AllKeyed set m = (prefix : Str) (p : Principal) → lookup prefix m ≡ some p → IsKeyed set prefix p

abbrev AllNamed : List Principal → Dict Str Principal → Type 0
AllNamed set m = (id : Str) (p : Principal) → lookup id m ≡ some p → Memᴰ p set × (p.id ≡ id)

inserted :
    (k j : Str) (v p : Principal) (m : Dict Str Principal)
    → lookup j (insert k v m) ≡ some p
    → ((k ≡ j) × (v ≡ p)) ⊎ (lookup j m ≡ some p)
inserted k j v p m h = at (str_eq k j) refl (sym (lookup-insert k j v m) ∙ h)
  where
    at :
        (b : Bool)
        → str_eq k j ≡ b
        → (if b then some v else lookup j m) ≡ some p
        → ((k ≡ j) × (v ≡ p)) ⊎ (lookup j m ≡ some p)
    at true e q = inl ((str_eq_iff k j).0 e, cc)
    at false e q = inr q

add_prefix-AllKeyed :
    (set : List Principal) (p : Principal) (m m' : Dict Str Principal)
    → Memᴰ p set
    → AllKeyed set m
    → Yields (add_prefix p m) m'
    → AllKeyed set m'
unfolding add_prefix
add_prefix-AllKeyed set p m m' n all y = at (is_empty p.key_prefix) refl y
  where
    at :
        (b : Bool)
        → is_empty p.key_prefix ≡ b
        → Yields
            (if b
              then ok m
              else unless (has p.key_prefix m) (prefix_shared p.key_prefix) (
                  unless
                    (is_empty p.key_secret_digest)
                    (no_digest p.subject)
                    (ok (insert p.key_prefix p m))))
            m'
        → AllKeyed set m'
    at true e y' = let q : m ≡ m' = cc in subst (λ z. AllKeyed set z) q all
    at false e y' =
        let (a, y1) =
          unless-Yields (has p.key_prefix m) (prefix_shared p.key_prefix)
            (unless (is_empty p.key_secret_digest) (no_digest p.subject)
              (ok (insert p.key_prefix p m)))
            y' in
        let (b, y2) =
          unless-Yields (is_empty p.key_secret_digest) (no_digest p.subject)
            (ok (insert p.key_prefix p m)) y1 in
        let q : insert p.key_prefix p m ≡ m' = cc in
        subst (λ z. AllKeyed set z) q
          (λ prefix x h. elim (inserted p.key_prefix prefix p x m h) [
            | inl (k, v) ↦
                subst (λ z. IsKeyed set prefix z) v
                  (record {
                    of_set = n;
                    by_prefix = k;
                    prefixed = subst (λ z. is_empty z ≡ false) k e;
                    digested = b;
                  })
            | inr h' ↦ all prefix x h'
          ])

add_principals-lookups :
    (set ps : List Principal) (ids prefixes : Dict Str Principal)
    (out : Dict Str Principal × Dict Str Principal)
    → ((p : Principal) → Memᴰ p ps → Memᴰ p set)
    → AllNamed set ids
    → AllKeyed set prefixes
    → Yields (add_principals ps ids prefixes) out
    → AllNamed set out.0 × AllKeyed set out.1
unfolding add_principals
add_principals-lookups set [] ids prefixes out sub named keyed y =
    let e : (ids, prefixes) ≡ out = cc in
    subst (λ (z : Dict Str Principal × Dict Str Principal). AllNamed set z.0 × AllKeyed set z.1) e
      (named, keyed)
add_principals-lookups set (p ∷ ps) ids prefixes out sub named keyed y =
    let (a, y1) =
      unless-Yields (is_empty p.id) no_id
        (unless (has p.id ids) (id_twice p.id)
          (add_prefix p prefixes >>= λ m. add_principals ps (insert p.id p ids) m))
        y in
    let (b, y2) =
      unless-Yields (has p.id ids) (id_twice p.id)
        (add_prefix p prefixes >>= λ m. add_principals ps (insert p.id p ids) m) y1 in
    let (m, c, y3) =
      >>=-Yields (λ m. add_principals ps (insert p.id p ids) m) (add_prefix p prefixes) y2 in
    add_principals-lookups set ps (insert p.id p ids) m out (λ x n. sub x (Memᴰ.tail n))
      (λ id x h. elim (inserted p.id id p x ids h) [
        | inl (k, v) ↦ (
          subst (λ z. Memᴰ z set) v (sub p (Memᴰ.head refl)),
          ap (λ (z : Principal). z.id) (sym v) ∙ k,
        )
        | inr h' ↦ named id x h'
      ])
      (add_prefix-AllKeyed set p prefixes m (sub p (Memᴰ.head refl)) keyed c) y3

-- The parts of an index that succeeds.
stages :
    (set : PrincipalSet) (p : Principals)
    → index_principals set ≡ ok p
    → Yields (check_catalog p.catalog) tt
      × Yields (add_principals set.principals [] []) (p.by_id, p.by_key_prefix)
unfolding index_principals
stages set p y =
    let catalog = add_permissions set.role_permissions [] in
    let (u, a, y1) =
      >>=-Yields
        (λ (_ : Unit {0}). add_principals set.principals [] [] >>= λ tables. ok (record {
          version = set.version;
          catalog = catalog;
          by_id = tables.0;
          by_key_prefix = tables.1;
        }))
        (check_catalog catalog) y in
    let (tables, b, y2) =
      >>=-Yields
        (λ (tables : Dict Str Principal × Dict Str Principal). ok (record {
          version = set.version;
          catalog = catalog;
          by_id = tables.0;
          by_key_prefix = tables.1;
        }))
        (add_principals set.principals [] []) y1 in
    let e : record {
      version = set.version;
      catalog = catalog;
      by_id = tables.0;
      by_key_prefix = tables.1;
    }
        ≡ p =
      cc in
    (
      subst (λ (z : Principals). Yields (check_catalog z.catalog) tt) e a,
      subst
          (λ (z : Principals).
            Yields (add_principals set.principals [] []) (z.by_id, z.by_key_prefix))
          e b,
    )

-- A key prefix of an indexed set addresses a principal of the set that carries this very prefix and
-- a digest of its secret: no secret is verified against a missing digest.
pub index_principals-IsKeyed :
    (set : PrincipalSet) (p : Principals) (prefix : Str) (x : Principal)
    → index_principals set ≡ ok p
    → principal_by_prefix p prefix ≡ some x
    → IsKeyed set.principals prefix x
unfolding principal_by_prefix lookup
index_principals-IsKeyed set p prefix x y h =
    let (a, b) = stages set p y in
    (add_principals-lookups set.principals set.principals [] [] (p.by_id, p.by_key_prefix)
        (λ q n. n) (λ id q k. cc) (λ k q e. cc) b).1
      prefix x h

-- An id of an indexed set addresses a principal of the set with that id.
pub index_principals-by_id :
    (set : PrincipalSet) (p : Principals) (id : Str) (x : Principal)
    → index_principals set ≡ ok p
    → principal_by_id p id ≡ some x
    → Memᴰ x set.principals × (x.id ≡ id)
unfolding principal_by_id lookup
index_principals-by_id set p id x y h =
    let (a, b) = stages set p y in
    (add_principals-lookups set.principals set.principals [] [] (p.by_id, p.by_key_prefix)
        (λ q n. n) (λ id q k. cc) (λ k q e. cc) b).0
      id x h

no_roles : validate_catalog [] ≡ []
unfolding validate_catalog roles keys sort
no_roles = refl

is_nil-eq : {A : Type 0} (xs : List A) → is_nil xs ≡ true → xs ≡ []
unfolding is_nil
is_nil-eq [] h = refl
is_nil-eq (x ∷ xs) h = cc

check_catalog-valid : (c : Catalog) → Yields (check_catalog c) tt → validate_catalog c ≡ []
unfolding check_catalog is_nil
check_catalog-valid [] h = no_roles
check_catalog-valid (r ∷ c) h =
    let (e, k) =
      unless-Yields (not (is_nil (validate_catalog (r ∷ c))))
        (bad_catalog (validate_catalog (r ∷ c))) (ok tt) h in
    is_nil-eq (validate_catalog (r ∷ c)) (ground arith)

-- The catalog of an indexed set has no problem.
pub index_principals-catalog :
    (set : PrincipalSet) (p : Principals)
    → index_principals set ≡ ok p
    → validate_catalog p.catalog ≡ []
index_principals-catalog set p y = check_catalog-valid p.catalog (stages set p y).0
