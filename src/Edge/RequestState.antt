-- ===== src/Edge/RequestState.antt =====
-- internal/dataplane/edge/requeststate.go: the sealed state that a client echoes when it retries a
-- deferred call. `Sealing` stands for HMAC-SHA256, SHA-256, base64url without padding and
-- `encoding/json`; times are in nanoseconds, and the time of issue in seconds.
use mcpdoll.Base.{
  ℕ, ◌-◌, ◌*◌, Str, codes, Bool, true, false, not, ◌&&◌, Option, none, some, List, [], ◌∷◌, ◌++◌,
  ◌≡◌, ◌==◌, ltb, if◌then◌else◌, contains_byte, str_eq, Result, ok, err, ◌>>=◌, or_fail, unless,
}
use mcpdoll.Base.Words.{cut_byte}
use mcpdoll.Authz.Scope.{is_empty}
pub mod Sealed
pub mod Bound

pub record Envelope : Type 0 where
  pub version : Str
  pub tenant : Str
  pub tool : Str
  pub principal : Str
  pub args_digest : Str
  pub source : Str
  pub backend : Str
  pub plugin : Str
  pub issued_at : ℕ
  pub nonce : Str

-- The alphabet of base64url has no dot.
pub record Sealing (Args : Type 0) : Type 0 where
  pub hmac : Str → Str → Str
  pub sha256 : Str → Str
  pub encode : Str → Str
  pub decode : Str → Option Str
  pub decode-encode : (s : Str) → decode (encode s) ≡ some s
  pub encode_free : (s : Str) → contains_byte b'.' (encode s) ≡ false
  pub to_json : Envelope → Str
  pub of_json : Str → Option Envelope
  pub args_json : Args → Option Str

pub data StateError : Type 0 where
  invalid expired mismatched no_signer : StateError

abbrev pub state_version : Str
state_version = codes "mcpd1"

abbrev pub state_context : Str
state_context = codes "mcpdoll.requeststate.v1" ++ 0 ∷ []

abbrev pub source_backend : Str
source_backend = codes "backend"

abbrev pub source_plugin : Str
source_plugin = codes "plugin"

abbrev pub nanoseconds : ℕ
nanoseconds = 1000000000

-- 10 minutes.
abbrev pub state_ttl : ℕ
state_ttl = 600 * nanoseconds

-- What `UnwrapForRetry` returns.
pub record Retry : Type 0 where
  pub source : Str
  pub backend_state : Str
  pub plugin_state : Str

abbrev pub no_retry : Retry
no_retry = record { source = []; backend_state = []; plugin_state = [] }

-- `AnswersBackend` and `AnswersPlugin`
unfoldable pub answers_backend : Retry → Bool
answers_backend r = str_eq r.source source_backend

unfoldable pub answers_plugin : Retry → Bool
answers_plugin r = str_eq r.source source_plugin

-- The call that a state is presented for.
pub record Call (Args : Type 0) : Type 0 where
  pub tool : Str
  pub principal : Str
  pub tenant : Str
  pub arguments : Args

abbrev pub token_of : Str → Str → Str
token_of encoded mac = state_version ++ b'.' ∷ (encoded ++ b'.' ∷ mac)

-- Older than its lifetime, or of more than a minute ahead.
unfoldable pub is_expired : ℕ → Envelope → Bool
is_expired now env = ltb state_ttl (now - env.issued_at * nanoseconds)

unfoldable pub is_future : ℕ → Envelope → Bool
is_future now env = ltb (60 * nanoseconds) (env.issued_at * nanoseconds - now)

-- A field that is bound differs.
unfoldable pub differs : Str → Str → Bool
differs bound presented = not (is_empty bound) && not (str_eq bound presented)

module _ {Args : Type 0} (sealing : Sealing Args) where
  -- `sign`
  unfoldable pub mac_of : Str → Str → Str
  mac_of key encoded = sealing.hmac key (state_context ++ encoded)

  -- The fields that `Wrap` fills in: `now` in seconds, and 12 random bytes.
  unfoldable pub filled : ℕ → Str → Envelope → Envelope
  filled now random env = record env {
    version = state_version;
    issued_at = if env.issued_at == 0 then now else env.issued_at;
    nonce = if is_empty env.nonce then sealing.encode random else env.nonce;
  }

  -- `Wrap`
  unfoldable pub wrap : Str → ℕ → Str → Envelope → Str
  unfolding filled mac_of
  wrap key now random env =
      let encoded = sealing.encode (sealing.to_json (filled now random env)) in
      token_of encoded (sealing.encode (mac_of key encoded))

  unfoldable pub checked_envelope : ℕ → Envelope → Result StateError Envelope
  checked_envelope now env =
      unless (not (str_eq env.version state_version)) invalid
        (unless (is_expired now env) expired (unless (is_future now env) invalid (ok env)))

  -- The MAC is compared before the payload is decoded.
  unfoldable pub opened : Str → ℕ → Str → Str → Result StateError Envelope
  opened key now encoded mac_part = or_fail (sealing.decode mac_part) invalid >>= λ mac.
      unless (not (str_eq mac (mac_of key encoded))) invalid (
        or_fail (sealing.decode encoded) invalid >>= λ payload.
        or_fail (sealing.of_json payload) invalid >>= λ env. checked_envelope now env)

  -- `Unwrap`
  unfoldable pub unwrap : Str → ℕ → Str → Result StateError Envelope
  unwrap key now token = or_fail (cut_byte b'.' token) invalid >>= λ head.
      unless (not (str_eq head.0 state_version)) invalid
        (or_fail (cut_byte b'.' head.1) invalid >>= λ parts. opened key now parts.0 parts.1)

  -- `argsDigest`
  unfoldable pub args_digest : Args → Str
  args_digest arguments = elim (sealing.args_json arguments) [
    | none ↦ codes "unbindable"
    | some raw ↦ sealing.encode (sealing.sha256 raw)
  ]

  -- The envelopes of `wrapBackendInputRequest` and `IssuePluginDeferral`.
  unfoldable pub backend_envelope : Call Args → Str → Envelope
  backend_envelope c state = record {
    version = [];
    tenant = c.tenant;
    tool = c.tool;
    principal = c.principal;
    args_digest = args_digest c.arguments;
    source = source_backend;
    backend = state;
    plugin = [];
    issued_at = 0;
    nonce = [];
  }

  unfoldable pub plugin_envelope : Call Args → Str → Envelope
  plugin_envelope c state = record {
    version = [];
    tenant = c.tenant;
    tool = c.tool;
    principal = c.principal;
    args_digest = args_digest c.arguments;
    source = source_plugin;
    backend = [];
    plugin = state;
    issued_at = 0;
    nonce = [];
  }

  -- `wrapBackendInputRequest` and `IssuePluginDeferral`, with the key of the signer if there is one.
  unfoldable pub wrap_backend_input_request :
      Option Str → ℕ → Str → Call Args → Str → Result StateError Str
  wrap_backend_input_request signer now random c state =
      or_fail signer no_signer >>= λ key. ok (wrap key now random (backend_envelope c state))

  unfoldable pub issue_plugin_deferral :
      Option Str → ℕ → Str → Call Args → Str → Result StateError Str
  issue_plugin_deferral signer now random c state =
      or_fail signer no_signer >>= λ key. ok (wrap key now random (plugin_envelope c state))

  unfoldable pub matched : Call Args → Envelope → Result StateError Retry
  unfolding differs args_digest
  matched c env = unless (differs env.tool c.tool) mismatched (
      unless (differs env.principal c.principal) mismatched (
        unless (differs env.tenant c.tenant) mismatched (
          unless (differs env.args_digest (args_digest c.arguments)) mismatched (
            ok (record {
              source = env.source;
              backend_state = env.backend;
              plugin_state = env.plugin;
            })))))

  -- `UnwrapForRetry`
  unfoldable pub unwrap_for_retry : Option Str → ℕ → Call Args → Str → Result StateError Retry
  unwrap_for_retry signer now c token =
      if is_empty token
      then ok no_retry
      else (or_fail signer no_signer >>= λ key. unwrap key now token >>= λ env. matched c env)
