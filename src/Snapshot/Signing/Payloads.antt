-- ===== src/Snapshot/Signing/Payloads.antt =====
-- The payloads of the three signed artifacts: `signedPayload`, `principalSignedPayload` and
-- `revocationSignedPayload`.
use mcpdoll.Base.{
  ℕ, sym, ◌∙◌, Str, Option, none, some, if◌then◌else◌, ◌==◌, ◌≡◌, refl, ap, byte_at, drop,
}
use mcpdoll.Snapshot.Signing.{signed_payload, principal_signed_payload, revocation_signed_payload}

pub data Artifact : Type 0 where
  snapshot_artifact principals_artifact revocations_artifact : Artifact

abbrev pub payload : Artifact → Str → Str
payload snapshot_artifact = signed_payload
payload principals_artifact = principal_signed_payload
payload revocations_artifact = revocation_signed_payload

-- The byte in which the contexts differ.
abbrev letter : Artifact → Option ℕ
letter snapshot_artifact = some b's'
letter principals_artifact = some b'p'
letter revocations_artifact = some b'r'

byte_at-payload : (a : Artifact) (body : Str) → byte_at (payload a body) 8 ≡ letter a
unfolding byte_at signed_payload principal_signed_payload revocation_signed_payload
byte_at-payload snapshot_artifact body = refl
byte_at-payload principals_artifact body = refl
byte_at-payload revocations_artifact body = refl

of_letter : Option ℕ → Artifact
of_letter none = snapshot_artifact
of_letter (some n) =
    if n == b's'
    then snapshot_artifact
    else if n == b'p'
    then principals_artifact
    else revocations_artifact

of_letter-letter : (a : Artifact) → of_letter (letter a) ≡ a
unfolding of_letter
of_letter-letter snapshot_artifact = refl
of_letter-letter principals_artifact = refl
of_letter-letter revocations_artifact = refl

letter-injective : (a b : Artifact) → letter a ≡ letter b → a ≡ b
letter-injective a b h = sym (of_letter-letter a) ∙ ap of_letter h ∙ of_letter-letter b

-- What is behind the context.
abbrev body_of : Artifact → Str → Str
body_of snapshot_artifact s = drop 20 s
body_of principals_artifact s = drop 22 s
body_of revocations_artifact s = drop 23 s

body_of-payload : (a : Artifact) (body : Str) → body_of a (payload a body) ≡ body
unfolding signed_payload principal_signed_payload revocation_signed_payload
body_of-payload snapshot_artifact body = refl
body_of-payload principals_artifact body = refl
body_of-payload revocations_artifact body = refl

-- The octets that a signature covers determine the kind of artifact and its body: a signature made
-- over one kind of artifact is over the payload of no other kind.
pub payload-injective : (a b : Artifact) (x y : Str) → payload a x ≡ payload b y → (a ≡ b) × (x ≡ y)
payload-injective a b x y h =
    let e =
      letter-injective a b
        (sym (byte_at-payload a x) ∙ ap (λ s. byte_at s 8) h ∙ byte_at-payload b y) in
    (
      e,
      sym (body_of-payload a x)
          ∙ ap (body_of a) h
          ∙ ap (λ (c : Artifact). body_of c (payload b y)) e
          ∙ body_of-payload b y,
    )
