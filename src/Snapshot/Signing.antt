-- ===== src/Snapshot/Signing.antt =====
-- internal/dataplane/snapshot/signing.go, and the signatures of principals.go and revocation.go: how
-- an artifact of the control plane is signed and verified. The packages `ed25519`, `base64` and
-- `proto` are arguments; a signature made by a key verifies under its public key and has 64 bytes.
-- Key files are left out.
use mcpdoll.Base.{
  ℕ, Str, codes, Bool, true, false, not, Option, none, some, List, [], ◌∷◌, ◌++◌, ◌≡◌, ◌==◌, ltb,
  length, if◌then◌else◌, str_eq, Result, ok, err, ◌>>=◌, or_fail, unless, ◌&&◌, ◌||◌,
}
use mcpdoll.Base.Dict.{Dict, lookup, insert, str_key}
use mcpdoll.Base.Words.{cut_byte}
use mcpdoll.Authz.Scope.{is_empty}
use mcpdoll.Proto.Snapshot.{Snapshot, PrincipalSet, RevocationList, Signed}
use mcpdoll.Snapshot.View.{has}
use mcpdoll.Snapshot.Principals.{IndexError, Principals, index_principals}
use mcpdoll.Snapshot.Revocations.{Revocations, index_revocations}
pub mod Authentic
pub mod Payloads
pub mod RoundTrip

pub record Ed25519 : Type 0 where
  pub public_of : Str → Str
  pub sign_with : Str → Str → Str
  pub verifies : Str → Str → Str → Bool
  pub sign_verifies :
      (key message : Str) → verifies (public_of key) message (sign_with key message) ≡ true
  pub signature_size : (key message : Str) → length (sign_with key message) ≡ 64

pub record Codec (A : Type 0) : Type 0 where
  pub marshal : A → Option Str
  pub unmarshal : Str → Option A

pub data SignError : Type 0 where
  not_positive unserialized : SignError

pub data VerifyError : Type 0 where
  unsupported untrusted : Str → VerifyError
  signature_length : ℕ → VerifyError
  bad_signature unparsed empty_id : VerifyError
  unindexed : IndexError → VerifyError

pub data KeyError : Type 0 where
  no_keys : KeyError
  not_an_entry bad_base64 key_twice : Str → KeyError
  bad_length : Str → ℕ → KeyError

abbrev pub algorithm_ed25519 : Str
algorithm_ed25519 = codes "ed25519"

abbrev pub signing_context : Str
signing_context = codes "mcpdoll.snapshot.v1" ++ 0 ∷ []

abbrev pub principal_signing_context : Str
principal_signing_context = codes "mcpdoll.principals.v1" ++ 0 ∷ []

abbrev pub revocation_signing_context : Str
revocation_signing_context = codes "mcpdoll.revocations.v1" ++ 0 ∷ []

-- What a signature covers.
unfoldable pub signed_payload : Str → Str
signed_payload body = signing_context ++ body

unfoldable pub principal_signed_payload : Str → Str
principal_signed_payload body = principal_signing_context ++ body

unfoldable pub revocation_signed_payload : Str → Str
revocation_signed_payload body = revocation_signing_context ++ body

pub record Signer : Type 0 where
  pub key_id : Str
  pub priv : Str

-- The verifier's trusted keys.
abbrev pub Keys : Type 0
Keys = Dict Str Str

-- One entry of `NewVerifier`, cut and decoded.
unfoldable pub add_key : (Str → Option Str) → Str → Keys → Result KeyError Keys
add_key decode entry keys =
    or_fail (cut_byte b':' entry) (not_an_entry entry) >>= λ (key_id, encoded).
    unless (is_empty key_id || is_empty encoded) (not_an_entry entry) (
      or_fail (decode encoded) (bad_base64 key_id) >>= λ raw.
      unless (not (length raw == 32)) (bad_length key_id (length raw))
        (unless (has key_id keys) (key_twice key_id) (ok (insert key_id raw keys))))

unfoldable pub add_keys : (Str → Option Str) → List Str → Keys → Result KeyError Keys
add_keys decode [] keys = ok keys
add_keys decode (entry ∷ entries) keys = add_key decode entry keys >>= add_keys decode entries

unfoldable pub new_verifier : (Str → Option Str) → List Str → Result KeyError Keys
new_verifier decode [] = err no_keys
new_verifier decode (entry ∷ entries) = add_keys decode (entry ∷ entries) []

unfoldable pub trusted_key_entry : (Str → Str) → Str → Str → Str
trusted_key_entry encode key_id key = key_id ++ b':' ∷ encode key

module _ (scheme : Ed25519) where
  -- `Sign`
  unfoldable pub sign : Codec Snapshot → Signer → Snapshot → Result SignError Signed
  sign codec signer snap = unless (snap.version == 0) not_positive (
      or_fail (codec.marshal snap) unserialized >>= λ body. ok (record {
        body = body;
        key_id = signer.key_id;
        algorithm = algorithm_ed25519;
        signature = scheme.sign_with signer.priv (signed_payload body);
      }))

  -- `Verify`: the octets are parsed after the signature has been checked.
  unfoldable pub verify : Codec Snapshot → Keys → Signed → Result VerifyError Snapshot
  verify codec keys signed =
      unless (not (str_eq signed.algorithm algorithm_ed25519)) (unsupported signed.algorithm) (
        or_fail (lookup signed.key_id keys) (untrusted signed.key_id) >>= λ key.
        unless (not (length signed.signature == 64)) (signature_length (length signed.signature)) (
          unless (not (scheme.verifies key (signed_payload signed.body) signed.signature))
            bad_signature (or_fail (codec.unmarshal signed.body) unparsed)))

  -- What `VerifyPrincipals` and `VerifyRevocations` share: an empty algorithm passes, and the
  -- length of the signature is left to the package.
  unfoldable pub checked_body : (Str → Str) → Keys → Signed → Result VerifyError Str
  checked_body payload keys signed =
      unless (not (is_empty signed.algorithm) && not (str_eq signed.algorithm algorithm_ed25519))
        (unsupported signed.algorithm)
        (or_fail (lookup signed.key_id keys) (untrusted signed.key_id) >>= λ key.
          unless (not (scheme.verifies key (payload signed.body) signed.signature)) bad_signature
            (ok signed.body))

  unfoldable pub sign_principals :
      Codec PrincipalSet → Signer → PrincipalSet → Result SignError Signed
  sign_principals codec signer set = unless (set.version == 0) not_positive (
      or_fail (codec.marshal set) unserialized >>= λ body. ok (record {
        body = body;
        key_id = signer.key_id;
        algorithm = algorithm_ed25519;
        signature = scheme.sign_with signer.priv (principal_signed_payload body);
      }))

  indexed : Result IndexError Principals → Result VerifyError Principals
  indexed (ok p) = ok p
  indexed (err e) = err (unindexed e)

  unfoldable pub verify_principals :
      Codec PrincipalSet → Keys → Signed → Result VerifyError Principals
  unfolding indexed
  verify_principals codec keys signed =
      checked_body principal_signed_payload keys signed >>= λ body.
      or_fail (codec.unmarshal body) unparsed >>= λ set. indexed (index_principals set)

  listed : Result Bool Revocations → Result VerifyError Revocations
  listed (ok r) = ok r
  listed (err _) = err empty_id

  unfoldable pub verify_revocations :
      Codec RevocationList → Keys → Signed → Result VerifyError Revocations
  unfolding listed
  verify_revocations codec keys signed =
      checked_body revocation_signed_payload keys signed >>= λ body.
      or_fail (codec.unmarshal body) unparsed >>= λ list. listed (index_revocations list)

  unfoldable pub sign_revocations :
      Codec RevocationList → Signer → RevocationList → Result SignError Signed
  sign_revocations codec signer list = unless (list.version == 0) not_positive (
      or_fail (codec.marshal list) unserialized >>= λ body. ok (record {
        body = body;
        key_id = signer.key_id;
        algorithm = algorithm_ed25519;
        signature = scheme.sign_with signer.priv (revocation_signed_payload body);
      }))
