-- ===== src/Edge/Identity.antt =====
-- internal/dataplane/edge/identity.go: who a request comes from. `sha256_hex` stands for SHA-256
-- with its digest in hexadecimal. A header is a map from the canonical names, as `net/http` has
-- them, to the values. What a resolver reads of the store, the view and the principals, it is given.
use mcpdoll.Base.{
  ℕ, Str, codes, Bool, true, false, not, ◌&&◌, Option, none, some, List, [], ◌∷◌, ◌++◌, ◌≡◌,
  if◌then◌else◌, str_eq, has_prefix, drop_bytes, keep, map, Result, ok, err, ◌>>=◌, or_fail, unless,
}
use mcpdoll.Base.Dict.{Dict, lookup, insert, str_key}
use mcpdoll.Base.Words.{split_on, trim_space, lower}
use mcpdoll.Authz.Scope.{is_empty}
use mcpdoll.Proto.Snapshot.{Tenant, Principal}
use mcpdoll.Snapshot.View.{View}
use mcpdoll.Snapshot.Principals.{Principals, principal_by_prefix}
pub mod Authentic

-- `backends.Principal`
pub record Identity : Type 0 where
  pub id : Str
  pub subject : Str
  pub groups : List Str
  pub claims : Dict Str Str
  pub tenant : Str

-- Every failure of a resolver is the same error.
pub data AuthError : Type 0 where
  unauthenticated : AuthError

abbrev pub Header : Type 0
Header = Dict Str (List Str)

-- http.Header.Get of a canonical name.
unfoldable pub header_get : Str → Header → Str
header_get name h = elim (lookup name h) [
  | none ↦ []
  | some values ↦ elim values [ [] ↦ [] | v ∷ _ ↦ v ]
]

-- strings.TrimPrefix(s, p), the prefix first.
unfoldable pub trim_prefix : Str → Str → Str
trim_prefix p s = if has_prefix p s then drop_bytes p s else s

key_fields : List Str → Option (Str × Str)
key_fields (scheme ∷ prefix ∷ secret ∷ []) =
    if str_eq scheme (codes "mcpd") && (not (is_empty prefix) && not (is_empty secret))
    then some (prefix, secret)
    else none
key_fields _ = none

-- `splitPresentedKey`: the prefix and the secret of `mcpd.<prefix>.<secret>`.
unfoldable pub split_presented_key : Str → Option (Str × Str)
unfolding key_fields
split_presented_key presented = key_fields (split_on b'.' presented)

-- `verifyKeyDigest`
unfoldable pub verify_key_digest : (Str → Str) → Str → Str → Bool
verify_key_digest sha256_hex secret stored = str_eq (codes "sha256:" ++ sha256_hex secret) stored

-- The tenant slug of a principal: none for a principal that spans tenants, and a failure where the
-- view lacks the tenant.
unfoldable pub tenant_slug : View → Principal → Option Str
tenant_slug view p =
    if p.spans_tenants
    then some []
    else elim (lookup p.tenant_id view.tenants) [ none ↦ none | some t ↦ some t.slug ]

abbrev pub identity_of : Principal → Str → Identity
identity_of p slug = record {
  id = p.id;
  subject = p.subject;
  groups = [];
  claims = [];
  tenant = slug;
}

-- `Resolve` of an API key, behind the reading of the header.
unfoldable pub authenticate :
    (Str → Str) → Str → Option View → Principals → Result AuthError Identity
authenticate sha256_hex presented current principals = unless (is_empty presented) unauthenticated (
    or_fail current unauthenticated >>= λ view.
    or_fail (split_presented_key presented) unauthenticated >>= λ key.
    or_fail (principal_by_prefix principals key.0) unauthenticated >>= λ p.
    unless (not (verify_key_digest sha256_hex key.1 p.key_secret_digest)) unauthenticated
      (or_fail (tenant_slug view p) unauthenticated >>= λ slug. ok (identity_of p slug)))

unfoldable pub resolve_key :
    (Str → Str) → Option View → Principals → Header → Result AuthError Identity
resolve_key sha256_hex current principals h =
    authenticate sha256_hex
      (trim_space (trim_prefix (codes "Bearer ") (header_get (codes "Authorization") h))) current
      principals

-- The development resolver, with the defaults it is made with.
pub record HeaderResolver : Type 0 where
  pub default_subject : Str
  pub default_groups : List Str

-- `NewHeaderIdentityResolver`; true is the error.
unfoldable pub new_header_resolver : Str → Str → List Str → Result Bool HeaderResolver
new_header_resolver env subject groups =
    if str_eq (lower env) (codes "production")
    then err true
    else if str_eq (lower env) (codes "prod")
    then err true
    else ok (record { default_subject = subject; default_groups = groups })

-- `splitAndTrim`
unfoldable pub split_and_trim : Str → List Str
split_and_trim raw = keep (λ w. not (is_empty w)) (map trim_space (split_on b',' raw))

-- The claims of the headers under the claim prefix, by the rest of the name in lower case.
unfoldable pub header_claims : Header → Dict Str Str → Dict Str Str
header_claims [] claims = claims
header_claims ((name, values) ∷ h) claims = header_claims h (
    if has_prefix (codes "X-Mcpdoll-Claim-") name
      && not (is_empty (lower (drop_bytes (codes "X-Mcpdoll-Claim-") name)))
    then elim values [
      | [] ↦ claims
      | v ∷ _ ↦ insert (lower (drop_bytes (codes "X-Mcpdoll-Claim-") name)) v claims
    ]
    else claims)

-- `Resolve` of the development resolver.
unfoldable pub resolve_header : HeaderResolver → Header → Result AuthError Identity
resolve_header r h =
    let named = header_get (codes "X-Mcpdoll-Subject") h in
    let subject = if is_empty named then r.default_subject else named in
    let raw = header_get (codes "X-Mcpdoll-Groups") h in
    unless (is_empty subject) unauthenticated (
      ok (record {
        id = subject;
        subject = subject;
        groups = if is_empty raw then r.default_groups else split_and_trim raw;
        claims = header_claims h [];
        tenant = [];
      }))

-- `chainResolver.Resolve`
unfoldable pub resolve_chain :
    List (Header → Result AuthError Identity) → Header → Result AuthError Identity
resolve_chain [] h = err unauthenticated
resolve_chain (r ∷ rs) h =
    let rest = resolve_chain rs h in elim (r h) [ err _ ↦ rest | ok who ↦ ok who ]
