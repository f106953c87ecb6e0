-- ===== src/Snapshot/Signing/RoundTrip.antt =====
-- What is signed verifies, and a printed trusted key is read back.
use mcpdoll.Base.{
  Str, false, Option, some, ◌≡◌, refl, sym, ap, ◌∙◌, subst, length, ◌==◌, str_eq, contains_byte, ok,
  ◌>>=◌, >>=-Yields, or_fail, or_fail-Yields, unless-Yields,
}
use mcpdoll.Base.Dict.{lookup, insert, str_key}
use mcpdoll.Base.Words.{cut_byte-append}
use mcpdoll.Authz.Scope.{is_empty}
use mcpdoll.Proto.Snapshot.{Snapshot, Signed}
use mcpdoll.Snapshot.View.{has}
use mcpdoll.Snapshot.Signing.{
  Ed25519, Codec, unserialized, not_positive, Keys, Signer, algorithm_ed25519, signed_payload,
  add_key, trusted_key_entry, sign, verify,
}

module _ (scheme : Ed25519) where
  -- The signed form of a body.
  abbrev pub signed_as : Signer → Str → Signed
  signed_as signer body = record {
    body = body;
    key_id = signer.key_id;
    algorithm = algorithm_ed25519;
    signature = scheme.sign_with signer.priv (signed_payload body);
  }

  sign-Yields :
      (codec : Codec Snapshot) (signer : Signer) (snap : Snapshot) (signed : Signed)
      → sign scheme codec signer snap ≡ ok signed
      → (body : Str) × (codec.marshal snap ≡ some body) × (signed ≡ signed_as signer body)
  unfolding sign
  sign-Yields codec signer snap signed y =
      let (_, y1) =
        unless-Yields (snap.version == 0) not_positive
          (or_fail (codec.marshal snap) unserialized >>= λ body. ok (signed_as signer body)) y in
      let (body, b, y2) =
        >>=-Yields (λ body. ok (signed_as signer body)) (or_fail (codec.marshal snap) unserialized)
          y1 in
      (body, or_fail-Yields (codec.marshal snap) unserialized b, cc)

  verify-signed_as :
      (codec : Codec Snapshot) (keys : Keys) (signer : Signer) (body : Str) (snap : Snapshot)
      → lookup signer.key_id keys ≡ some (scheme.public_of signer.priv)
      → codec.unmarshal body ≡ some snap
      → verify scheme codec keys (signed_as signer body) ≡ ok snap
  unfolding verify str_eq
  verify-signed_as codec keys signer body snap t u =
      rw
        (
          t,
          scheme.signature_size signer.priv (signed_payload body),
          scheme.sign_verifies signer.priv (signed_payload body),
          u,
        )
        refl

  -- What `Sign` returns verifies, to the same snapshot, for every verifier that trusts the signer's
  -- public key under the signer's id, if the octets of the snapshot are decoded to it.
  pub verify-sign :
      (codec : Codec Snapshot) (keys : Keys) (signer : Signer) (snap : Snapshot) (signed : Signed)
      (body : Str)
      → lookup signer.key_id keys ≡ some (scheme.public_of signer.priv)
      → codec.marshal snap ≡ some body
      → codec.unmarshal body ≡ some snap
      → sign scheme codec signer snap ≡ ok signed
      → verify scheme codec keys signed ≡ ok snap
  verify-sign codec keys signer snap signed body t m u y =
      let (b, n, e) = sign-Yields codec signer snap signed y in
      let f : b ≡ body = cc in
      subst (λ z. verify scheme codec keys z ≡ ok snap) (sym e)
        (verify-signed_as codec keys signer b snap t (ap codec.unmarshal f ∙ u))

-- The entry that `TrustedKeyEntry` prints is accepted by `NewVerifier`, which then trusts that key
-- under that id, if the id has no colon and is not empty and not yet trusted, the key has 32 bytes,
-- and base64 decodes what it encodes, to no empty text.
pub add_key-trusted_key_entry :
    (encode : Str → Str) (decode : Str → Option Str) (key_id key : Str) (keys : Keys)
    → decode (encode key) ≡ some key
    → is_empty (encode key) ≡ false
    → contains_byte b':' key_id ≡ false
    → is_empty key_id ≡ false
    → length key ≡ 32
    → has key_id keys ≡ false
    → add_key decode (trusted_key_entry encode key_id key) keys ≡ ok (insert key_id key keys)
unfolding add_key trusted_key_entry
add_key-trusted_key_entry encode decode key_id key keys d n c e l u =
    rw (cut_byte-append b':' key_id (encode key) c, e, n, d, l, u) refl
