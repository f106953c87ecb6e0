-- ===== src/Examples/Signing.antt =====
-- The artifacts of Examples/Snapshot signed with a toy scheme: a signature is the lengths of the key
-- and of the message.
use mcpdoll.Base.{
  ℕ, zero, suc, ◌+◌, Str, codes, Option, none, some, [], ◌∷◌, length, ◌≡◌, refl, str_eq,
  str_eq_refl, ok, ◌⊎◌,
}
use mcpdoll.Base.Dict.{lookup, str_key}
use mcpdoll.Authz.Scope.{is_empty}
use mcpdoll.Proto.Snapshot.{Snapshot, PrincipalSet, Signed}
use mcpdoll.Snapshot.View.{View, build}
use mcpdoll.Snapshot.Principals.{index_principals}
use mcpdoll.Snapshot.Store.{activate}
use mcpdoll.Snapshot.Signing.{
  Ed25519, Codec, VerifyError, Keys, Signer, signed_payload, principal_signed_payload, sign, verify,
  checked_body, verify_principals,
}
use mcpdoll.Snapshot.Signing.Authentic.{IsSigned, verify_principals-IsSigned, activate-IsSigned}
use mcpdoll.Snapshot.Signing.Payloads.{principals_artifact, payload-injective}
use mcpdoll.Snapshot.Signing.RoundTrip.{signed_as, verify-sign}
use mcpdoll.Base.{map_err}
use mcpdoll.Examples.Snapshot.{crm_snapshot, agents, held, agents_indexed, crm_store}

abbrev zeros : ℕ → Str
zeros zero = []
zeros (suc n) = 0 ∷ zeros n

abbrev stamp : Str → Str → Str
stamp key message = (length key + length message) ∷ zeros 63

abbrev toy : Ed25519
toy = record {
  public_of = λ key. key;
  sign_with = stamp;
  verifies = λ key message signature. str_eq signature (stamp key message);
  sign_verifies = λ key message. str_eq_refl (stamp key message);
  signature_size = λ key message. refl;
}

abbrev snapshot_codec : Codec Snapshot
snapshot_codec = record {
  marshal = λ s. some (s.version ∷ []);
  unmarshal = λ body. some crm_snapshot;
}

abbrev set_codec : Codec PrincipalSet
set_codec = record { marshal = λ s. some (s.version ∷ []); unmarshal = λ body. some agents }

abbrev signer : Signer
signer = record { key_id = codes "key1"; priv = codes "secret" }

abbrev trusted : Keys
trusted = (codes "key1", codes "secret") ∷ []

abbrev signed : Signed
signed = signed_as toy signer (7 ∷ [])

signer_trusted : lookup (codes "key1") trusted ≡ some (codes "secret")
unfolding lookup str_eq
signer_trusted = refl

snapshot_signed : sign toy snapshot_codec signer crm_snapshot ≡ ok signed
unfolding sign
snapshot_signed = refl

verify-sign_example : verify toy snapshot_codec trusted signed ≡ ok crm_snapshot
verify-sign_example =
    verify-sign toy snapshot_codec trusted signer crm_snapshot signed (7 ∷ []) signer_trusted refl
      refl snapshot_signed

abbrev reason : VerifyError → Str
reason e = []

activate-IsSigned_example :
    ((activate
        (λ v. none)
        signed
        (map_err reason (verify toy snapshot_codec trusted signed))
        crm_store).0.current
      ≡ crm_store.current)
    ⊎ ((snap : Snapshot) × (view : View) × IsSigned toy signed_payload trusted signed
        × (◌≡◌ {A = Option Snapshot} (some crm_snapshot) (some snap))
        × (build snap ≡ ok view)
        × ((activate
              (λ v. none)
              signed
              (map_err reason (verify toy snapshot_codec trusted signed))
              crm_store).0.current
            ≡ some view))
activate-IsSigned_example =
    activate-IsSigned toy snapshot_codec trusted reason (λ v. none) signed crm_store

abbrev signed_set : Signed
signed_set = record {
  body = 3 ∷ [];
  key_id = codes "key1";
  algorithm = codes "ed25519";
  signature = stamp (codes "secret") (principal_signed_payload (3 ∷ []));
}

set_verified : verify_principals toy set_codec trusted signed_set ≡ ok held
unfolding verify_principals checked_body is_empty str_eq lookup principal_signed_payload
set_verified = rw agents_indexed refl

verify_principals-IsSigned_example :
    IsSigned toy principal_signed_payload trusted signed_set
    × ((set : PrincipalSet) × (◌≡◌ {A = Option PrincipalSet} (some agents) (some set))
        × (index_principals set ≡ ok held))
verify_principals-IsSigned_example =
    verify_principals-IsSigned toy set_codec trusted signed_set held set_verified

payload-injective_example :
    (principals_artifact ≡ principals_artifact) × (◌≡◌ {A = Str} (3 ∷ []) (3 ∷ []))
payload-injective_example =
    payload-injective principals_artifact principals_artifact (3 ∷ []) (3 ∷ []) refl
