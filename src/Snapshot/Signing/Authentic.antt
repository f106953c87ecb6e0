-- ===== src/Snapshot/Signing/Authentic.antt =====
-- What is activated was signed by a trusted key.
use mcpdoll.Base.{
  map_err, map_err-Yields, Str, true, not, ◌&&◌, Option, some, ◌≡◌, ap, arith, length, ◌==◌, str_eq,
  str_eq_iff, Result, ok, err, ◌>>=◌, >>=-Yields, Yields, or_fail, or_fail-Yields, unless,
  unless-Yields, ◌⊎◌, inl, inr,
}
use mcpdoll.Base.Dict.{lookup, str_key}
use mcpdoll.Proto.Snapshot.{Snapshot, PrincipalSet, Signed}
use mcpdoll.Snapshot.View.{View, build}
use mcpdoll.Snapshot.Principals.{IndexError, Principals, index_principals}
use mcpdoll.Authz.Scope.{is_empty}
use mcpdoll.Snapshot.Store.{StoreError, Store, activate}
use mcpdoll.Snapshot.Store.Activation.{activate-cases}
use mcpdoll.Snapshot.Signing.{
  Ed25519, Codec, VerifyError, unsupported, untrusted, signature_length, bad_signature, unparsed,
  Keys, algorithm_ed25519, signed_payload, principal_signed_payload, verify, checked_body, indexed,
  verify_principals,
}

-- A trusted key's signature over the payload of the body.
pub record IsSigned (scheme : Ed25519) (payload : Str → Str) (keys : Keys) (signed : Signed)
    : Type 0 where
  pub key : Str
  pub trusted : lookup signed.key_id keys ≡ some key
  pub verified : scheme.verifies key (payload signed.body) signed.signature ≡ true

module _ (scheme : Ed25519) where
  -- A snapshot that `Verify` returns is decoded from the very octets over which a trusted key's
  -- signature of 64 bytes verifies, and the algorithm was named.
  pub verify-IsSigned :
      (codec : Codec Snapshot) (keys : Keys) (signed : Signed) (snap : Snapshot)
      → verify scheme codec keys signed ≡ ok snap
      → IsSigned scheme signed_payload keys signed
        × (codec.unmarshal signed.body ≡ some snap)
        × (signed.algorithm ≡ algorithm_ed25519)
        × (length signed.signature ≡ 64)
  unfolding verify
  verify-IsSigned codec keys signed snap y =
      let last : Str → Result VerifyError Snapshot = λ key.
        unless (not (scheme.verifies key (signed_payload signed.body) signed.signature))
          bad_signature (or_fail (codec.unmarshal signed.body) unparsed) in
      let step : Str → Result VerifyError Snapshot = λ key.
        unless (not (length signed.signature == 64)) (signature_length (length signed.signature))
          (last key) in
      let (a, y1) =
        unless-Yields (not (str_eq signed.algorithm algorithm_ed25519))
          (unsupported signed.algorithm)
          (or_fail (lookup signed.key_id keys) (untrusted signed.key_id) >>= step) y in
      let (key, k, y2) =
        >>=-Yields step (or_fail (lookup signed.key_id keys) (untrusted signed.key_id)) y1 in
      let (l, y3) =
        unless-Yields (not (length signed.signature == 64))
          (signature_length (length signed.signature)) (last key) y2 in
      let (v, y4) =
        unless-Yields (not (scheme.verifies key (signed_payload signed.body) signed.signature))
          bad_signature (or_fail (codec.unmarshal signed.body) unparsed) y3 in
      (
        record {
          key = key;
          trusted = or_fail-Yields (lookup signed.key_id keys) (untrusted signed.key_id) k;
          verified = ground arith;
        },
        or_fail-Yields (codec.unmarshal signed.body) unparsed y4,
        ground (arith, str_eq_iff signed.algorithm algorithm_ed25519),
        ground arith,
      )

  checked_body-IsSigned :
      (payload : Str → Str) (keys : Keys) (signed : Signed) (body : Str)
      → checked_body scheme payload keys signed ≡ ok body
      → IsSigned scheme payload keys signed × (signed.body ≡ body)
  unfolding checked_body
  checked_body-IsSigned payload keys signed body y =
      let step : Str → Result VerifyError Str = λ key.
        unless (not (scheme.verifies key (payload signed.body) signed.signature)) bad_signature
          (ok signed.body) in
      let (a, y1) =
        unless-Yields
          (not (is_empty signed.algorithm) && not (str_eq signed.algorithm algorithm_ed25519))
          (unsupported signed.algorithm)
          (or_fail (lookup signed.key_id keys) (untrusted signed.key_id) >>= step) y in
      let (key, k, y2) =
        >>=-Yields step (or_fail (lookup signed.key_id keys) (untrusted signed.key_id)) y1 in
      let (v, y3) =
        unless-Yields (not (scheme.verifies key (payload signed.body) signed.signature))
          bad_signature (ok signed.body) y2 in
      (
        record {
          key = key;
          trusted = or_fail-Yields (lookup signed.key_id keys) (untrusted signed.key_id) k;
          verified = ground arith;
        },
        cc,
      )

  indexed-Yields :
      (r : Result IndexError Principals) (p : Principals) → Yields (indexed scheme r) p → r ≡ ok p
  unfolding indexed
  indexed-Yields (ok q) p y = cc
  indexed-Yields (err e) p y = cc

  -- A principal set that `VerifyPrincipals` returns is the index of the set decoded from the very
  -- octets over which a trusted key's signature verifies.
  pub verify_principals-IsSigned :
      (codec : Codec PrincipalSet) (keys : Keys) (signed : Signed) (p : Principals)
      → verify_principals scheme codec keys signed ≡ ok p
      → IsSigned scheme principal_signed_payload keys signed
        × ((set : PrincipalSet) × (codec.unmarshal signed.body ≡ some set)
            × (index_principals set ≡ ok p))
  unfolding verify_principals
  verify_principals-IsSigned codec keys signed p y =
      let step : Str → Result VerifyError Principals = λ body.
        or_fail (codec.unmarshal body) unparsed >>= λ set. indexed scheme (index_principals set) in
      let (body, b, y1) =
        >>=-Yields step (checked_body scheme principal_signed_payload keys signed) y in
      let (set, d, y2) =
        >>=-Yields (λ set. indexed scheme (index_principals set))
          (or_fail (codec.unmarshal body) unparsed) y1 in
      let (i, e) = checked_body-IsSigned principal_signed_payload keys signed body b in
      (
        i,
        (
          set,
          rw e (or_fail-Yields (codec.unmarshal body) unparsed d),
          indexed-Yields (index_principals set) p y2,
        ),
      )

  -- `Activate` swaps in nothing but a view built from a snapshot that a trusted key has signed: an
  -- unsigned or altered artifact leaves the served view as it was.
  pub activate-IsSigned :
      (codec : Codec Snapshot) (keys : Keys) (reason : VerifyError → Str)
      (prepare : View → Option Str) (signed : Signed) (s : Store)
      → ((activate prepare signed (map_err reason (verify scheme codec keys signed)) s).0.current
          ≡ s.current)
        ⊎ ((snap : Snapshot) × (view : View) × IsSigned scheme signed_payload keys signed
            × (codec.unmarshal signed.body ≡ some snap)
            × (build snap ≡ ok view)
            × ((activate prepare signed
                  (map_err reason (verify scheme codec keys signed))
                  s).0.current
                ≡ some view))
  activate-IsSigned codec keys reason prepare signed s =
      elim (activate-cases prepare signed (map_err reason (verify scheme codec keys signed)) s) [
        | inl (v, e, q) ↦ inl (ap (λ (o : Store × Result StoreError View). o.0.current) q)
        | inr (snap, view, h, a, q) ↦
            let (i, d, _, _) =
              verify-IsSigned codec keys signed snap
                (map_err-Yields reason (verify scheme codec keys signed) h) in
            inr (
              snap,
              view,
              i,
              d,
              a.view_built,
              ap (λ (o : Store × Result StoreError View). o.0.current) q,
            )
      ]
