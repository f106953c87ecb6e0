-- ===== src/Edge/Identity/Authentic.antt =====
-- Who is authenticated, exactly.
use mcpdoll.Base.{
  Str, codes, Bool, true, false, not, ◌&&◌, and_true, Option, none, some, List, [], ◌∷◌, ◌++◌, ◌≡◌,
  refl, sym, ap, ◌∙◌, arith, if◌then◌else◌, contains_byte, str_eq, str_eq_iff, Result, ok, ◌>>=◌,
  >>=-Yields, or_fail, or_fail-Yields, unless, unless-Yields,
}
use mcpdoll.Base.Dict.{str_key}
use mcpdoll.Base.Words.{split_on, join_with, join_with-split_on, split_on-append, split_on-single}
use mcpdoll.Authz.Scope.{is_empty}
use mcpdoll.Proto.Snapshot.{Principal, PrincipalSet}
use mcpdoll.Snapshot.View.{View}
use mcpdoll.Snapshot.Principals.{Principals, principal_by_prefix, index_principals}
use mcpdoll.Snapshot.Principals.Indexed.{IsKeyed, index_principals-IsKeyed}
use mcpdoll.Edge.Identity.{
  Identity, AuthError, unauthenticated, key_fields, split_presented_key, verify_key_digest,
  tenant_slug, identity_of, authenticate,
}

-- `mcpd.<prefix>.<secret>`
abbrev pub presented_as : Str → Str → Str
presented_as prefix secret = codes "mcpd" ++ b'.' ∷ (prefix ++ b'.' ∷ secret)

key_fields-Yields :
    (fields : List Str) (prefix secret : Str)
    → key_fields fields ≡ some (prefix, secret)
    → (join_with b'.' fields ≡ presented_as prefix secret)
unfolding key_fields join_with
key_fields-Yields [] prefix secret h = cc
key_fields-Yields (a ∷ []) prefix secret h = cc
key_fields-Yields (a ∷ b ∷ []) prefix secret h = cc
key_fields-Yields (a ∷ b ∷ c ∷ d ∷ fs) prefix secret h = cc
key_fields-Yields (a ∷ b ∷ c ∷ []) prefix secret h =
    at (str_eq a (codes "mcpd") && (not (is_empty b) && not (is_empty c))) refl h
  where
    at :
        (t : Bool)
        → (str_eq a (codes "mcpd") && (not (is_empty b) && not (is_empty c))) ≡ t
        → if◌then◌else◌ {A = Option (Str × Str)} t (some (b, c)) none ≡ some (prefix, secret)
        → a ++ b'.' ∷ (b ++ b'.' ∷ c) ≡ presented_as prefix secret
    at false e h = cc
    at true e h =
        let (m, _) = and_true (str_eq a (codes "mcpd")) (not (is_empty b) && not (is_empty c)) e in
        let f : ◌≡◌ {A = Str × Str} (b, c) (prefix, secret) = cc in
        ap (λ z. z ++ b'.' ∷ (b ++ b'.' ∷ c)) ((str_eq_iff a (codes "mcpd")).0 m)
        ∙ ap (λ (z : Str × Str). presented_as z.0 z.1) f

pub split_presented_key-Yields :
    (presented prefix secret : Str)
    → split_presented_key presented ≡ some (prefix, secret)
    → presented ≡ presented_as prefix secret
unfolding split_presented_key
split_presented_key-Yields presented prefix secret h =
    sym (join_with-split_on b'.' presented)
    ∙ key_fields-Yields (split_on b'.' presented) prefix secret h

-- The credential is a key of a principal of the set, whose stored digest is that of the secret; the
-- identity has the principal's id and subject and its tenant's slug, and neither groups nor claims.
pub record IsAuthentic (sha256_hex : Str → Str) (presented : Str) (set : PrincipalSet) (view : View)
    (who : Identity) : Type 0 where
  pub prefix : Str
  pub secret : Str
  pub principal : Principal
  pub slug : Str
  pub written : presented ≡ presented_as prefix secret
  pub keyed : IsKeyed set.principals prefix principal
  pub digest : codes "sha256:" ++ sha256_hex secret ≡ principal.key_secret_digest
  pub in_tenant : tenant_slug view principal ≡ some slug
  pub identity : who ≡ identity_of principal slug

-- An API key that resolves, against the principals indexed from a set and a served view, is
-- `mcpd.<prefix>.<secret>` with the prefix of a principal of the set whose digest is that of the
-- secret, and the identity is that principal's, in its tenant, without groups or claims.
pub authenticate-IsAuthentic :
    (sha256_hex : Str → Str) (presented : Str) (current : Option View) (set : PrincipalSet)
    (ps : Principals) (who : Identity)
    → index_principals set ≡ ok ps
    → authenticate sha256_hex presented current ps ≡ ok who
    → (view : View) × (current ≡ some view) × IsAuthentic sha256_hex presented set view who
unfolding authenticate verify_key_digest
authenticate-IsAuthentic sha256_hex presented current set ps who i y =
    let finish : View → Principal → Result AuthError Identity =
      λ view p. or_fail (tenant_slug view p) unauthenticated >>= λ slug. ok (identity_of p slug) in
    let compare_digest : View → Str → Principal → Result AuthError Identity = λ view secret p.
      unless (not (str_eq (codes "sha256:" ++ sha256_hex secret) p.key_secret_digest))
        unauthenticated (finish view p) in
    let find : View → Str × Str → Result AuthError Identity = λ view key.
      or_fail (principal_by_prefix ps key.0) unauthenticated >>= λ p. compare_digest view key.1 p in
    let split : View → Result AuthError Identity =
      λ view. or_fail (split_presented_key presented) unauthenticated >>= λ key. find view key in
    let (_, y0) =
      unless-Yields (is_empty presented) unauthenticated (or_fail current unauthenticated >>= split)
        y in
    let (view, v, y1) = >>=-Yields split (or_fail current unauthenticated) y0 in
    let (key, k, y2) =
      >>=-Yields (find view) (or_fail (split_presented_key presented) unauthenticated) y1 in
    let (p, f, y3) =
      >>=-Yields (compare_digest view key.1)
        (or_fail (principal_by_prefix ps key.0) unauthenticated) y2 in
    let (d, y4) =
      unless-Yields (not (str_eq (codes "sha256:" ++ sha256_hex key.1) p.key_secret_digest))
        unauthenticated (finish view p) y3 in
    let (slug, t, y5) =
      >>=-Yields (λ slug. ok (identity_of p slug)) (or_fail (tenant_slug view p) unauthenticated)
        y4 in
    let same : str_eq (codes "sha256:" ++ sha256_hex key.1) p.key_secret_digest ≡ true =
      ground arith in
    let e : who ≡ identity_of p slug = cc in
    (
      view,
      or_fail-Yields current unauthenticated v,
      record {
        prefix = key.0;
        secret = key.1;
        principal = p;
        slug = slug;
        written =
            split_presented_key-Yields presented key.0 key.1
              (or_fail-Yields (split_presented_key presented) unauthenticated k);
        keyed =
            index_principals-IsKeyed set ps key.0 p i
              (or_fail-Yields (principal_by_prefix ps key.0) unauthenticated f);
        digest = (str_eq_iff (codes "sha256:" ++ sha256_hex key.1) p.key_secret_digest).0 same;
        in_tenant = or_fail-Yields (tenant_slug view p) unauthenticated t;
        identity = e;
      },
    )

key_fields-presented :
    (prefix secret : Str)
    → is_empty prefix ≡ false
    → is_empty secret ≡ false
    → contains_byte b'.' prefix ≡ false
    → contains_byte b'.' secret ≡ false
    → split_presented_key (presented_as prefix secret) ≡ some (prefix, secret)
unfolding split_presented_key key_fields split_on str_eq
key_fields-presented prefix secret a b c d =
    rw (split_on-append b'.' prefix secret c, split_on-single b'.' secret d, a, b) refl

-- The key of a principal, with the secret whose digest is stored, resolves to that principal while
-- a view is served that has its tenant, if neither field of the key has a dot or is empty.
pub authenticate-presented :
    (sha256_hex : Str → Str) (prefix secret : Str) (view : View) (ps : Principals) (p : Principal)
    (slug : Str)
    → is_empty prefix ≡ false
    → is_empty secret ≡ false
    → contains_byte b'.' prefix ≡ false
    → contains_byte b'.' secret ≡ false
    → principal_by_prefix ps prefix ≡ some p
    → codes "sha256:" ++ sha256_hex secret ≡ p.key_secret_digest
    → tenant_slug view p ≡ some slug
    → authenticate sha256_hex (presented_as prefix secret) (some view) ps ≡ ok (identity_of p slug)
unfolding authenticate verify_key_digest is_empty
authenticate-presented sha256_hex prefix secret view ps p slug a b c d f g t =
    let e : str_eq (codes "sha256:" ++ sha256_hex secret) p.key_secret_digest ≡ true =
      (str_eq_iff (codes "sha256:" ++ sha256_hex secret) p.key_secret_digest).1 g in
    rw (key_fields-presented prefix secret a b c d, f, e, t) refl
