-- ===== src/Edge/RequestState/Sealed.antt =====
-- `Wrap` and `Unwrap`: which tokens are opened, and to what.
use mcpdoll.Base.{
  ℕ, ◌-◌, ◌*◌, ◌≤◌, Str, true, false, not, some, ◌∷◌, ◌++◌, ◌≡◌, refl, sym, ap, subst, ◌∙◌, arith,
  ltb, contains_byte, str_eq, str_eq_iff, str_eq_refl, Result, ok, ◌>>=◌, >>=-Yields, or_fail,
  or_fail-Yields, unless, unless-Yields,
}
use mcpdoll.Base.Words.{cut_byte, cut_byte-append, cut_byte-eq}
use mcpdoll.Edge.RequestState.{
  Envelope, Sealing, StateError, invalid, expired, state_version, nanoseconds, state_ttl, mac_of,
  filled, token_of, wrap, is_expired, is_future, checked_envelope, opened, unwrap,
}

within : (bound n : ℕ) → ltb bound n ≡ false → n ≤ bound
within bound n h = ground arith

module _ {Args : Type 0} (sealing : Sealing Args) where
  -- A token that is opened: its MAC is that of its encoded part under the key, from which the
  -- envelope is decoded; the envelope is neither older than its lifetime nor of the future.
  pub record IsSealed (key : Str) (now : ℕ) (token : Str) (env : Envelope) : Type 0 where
    pub encoded : Str
    pub mac_part : Str
    pub payload : Str
    pub written : token ≡ token_of encoded mac_part
    pub authentic : sealing.decode mac_part ≡ some (mac_of sealing key encoded)
    pub decoded : sealing.decode encoded ≡ some payload
    pub parsed : sealing.of_json payload ≡ some env
    pub of_version : env.version ≡ state_version
    pub alive : now - env.issued_at * nanoseconds ≤ state_ttl
    pub past : env.issued_at * nanoseconds - now ≤ 60 * nanoseconds

  checked_envelope-Yields :
      (now : ℕ) (e env : Envelope)
      → checked_envelope sealing now e ≡ ok env
      → (e ≡ env)
        × (e.version ≡ state_version)
        × (is_expired now e ≡ false)
        × (is_future now e ≡ false)
  unfolding checked_envelope
  checked_envelope-Yields now e env y =
      let (a, y1) =
        unless-Yields (not (str_eq e.version state_version)) invalid
          (unless (is_expired now e) expired (unless (is_future now e) invalid (ok e))) y in
      let (b, y2) =
        unless-Yields (is_expired now e) expired (unless (is_future now e) invalid (ok e)) y1 in
      let (c, y3) = unless-Yields (is_future now e) invalid (ok e) y2 in
      (cc, ground (arith, str_eq_iff e.version state_version), b, c)

  opened-Yields :
      (key : Str) (now : ℕ) (encoded mac_part : Str) (env : Envelope)
      → opened sealing key now encoded mac_part ≡ ok env
      → (payload : Str) × (sealing.decode mac_part ≡ some (mac_of sealing key encoded))
        × (sealing.decode encoded ≡ some payload)
        × ((e : Envelope) × (sealing.of_json payload ≡ some e)
            × (checked_envelope sealing now e ≡ ok env))
  unfolding opened
  opened-Yields key now encoded mac_part env y =
      let decode_payload : Str → Result StateError Envelope = λ payload.
        or_fail (sealing.of_json payload) invalid >>= λ e. checked_envelope sealing now e in
      let compare_mac : Str → Result StateError Envelope = λ mac.
        unless (not (str_eq mac (mac_of sealing key encoded))) invalid
          (or_fail (sealing.decode encoded) invalid >>= decode_payload) in
      let (mac, m, y1) = >>=-Yields compare_mac (or_fail (sealing.decode mac_part) invalid) y in
      let (w, y2) =
        unless-Yields (not (str_eq mac (mac_of sealing key encoded))) invalid
          (or_fail (sealing.decode encoded) invalid >>= decode_payload) y1 in
      let (payload, d, y3) =
        >>=-Yields decode_payload (or_fail (sealing.decode encoded) invalid) y2 in
      let (e, j, y4) =
        >>=-Yields (λ e. checked_envelope sealing now e) (or_fail (sealing.of_json payload) invalid)
          y3 in
      let agreed : str_eq mac (mac_of sealing key encoded) ≡ true = ground arith in
      (
        payload,
        subst (λ z. sealing.decode mac_part ≡ some z)
            ((str_eq_iff mac (mac_of sealing key encoded)).0 agreed)
            (or_fail-Yields (sealing.decode mac_part) invalid m),
        or_fail-Yields (sealing.decode encoded) invalid d,
        (e, or_fail-Yields (sealing.of_json payload) invalid j, y4),
      )

  unwrap-parts :
      (key : Str) (now : ℕ) (token : Str) (env : Envelope)
      → unwrap sealing key now token ≡ ok env
      → (encoded : Str) × (mac_part : Str) × (token ≡ token_of encoded mac_part)
        × (opened sealing key now encoded mac_part ≡ ok env)
  unfolding unwrap
  unwrap-parts key now token env y =
      let open_parts : Str × Str → Result StateError Envelope =
        λ parts. opened sealing key now parts.0 parts.1 in
      let open_rest : Str × Str → Result StateError Envelope = λ head.
        unless (not (str_eq head.0 state_version)) invalid
          (or_fail (cut_byte b'.' head.1) invalid >>= open_parts) in
      let (head, h, y1) = >>=-Yields open_rest (or_fail (cut_byte b'.' token) invalid) y in
      let (v, y2) =
        unless-Yields (not (str_eq head.0 state_version)) invalid
          (or_fail (cut_byte b'.' head.1) invalid >>= open_parts) y1 in
      let (parts, q, y3) = >>=-Yields open_parts (or_fail (cut_byte b'.' head.1) invalid) y2 in
      let named : str_eq head.0 state_version ≡ true = ground arith in
      (
        parts.0,
        parts.1,
        cut_byte-eq b'.' token head.0 head.1 (or_fail-Yields (cut_byte b'.' token) invalid h)
            ∙ ap (λ z. z ++ b'.' ∷ head.1) ((str_eq_iff head.0 state_version).0 named)
            ∙ ap (λ z. state_version ++ b'.' ∷ z)
                (cut_byte-eq b'.' head.1 parts.0 parts.1
                  (or_fail-Yields (cut_byte b'.' head.1) invalid q)),
        y3,
      )

  sealed :
      (key : Str) (now : ℕ) (token : Str) (env : Envelope) (encoded mac_part payload : Str)
      → token ≡ token_of encoded mac_part
      → sealing.decode mac_part ≡ some (mac_of sealing key encoded)
      → sealing.decode encoded ≡ some payload
      → {e : Envelope} → sealing.of_json payload ≡ some e
      → e ≡ env
      → e.version ≡ state_version
      → is_expired now e ≡ false
      → is_future now e ≡ false
      → IsSealed key now token env
  unfolding is_expired is_future
  sealed key now token env encoded mac_part payload written authentic decoded {e} parsed same ver
        alive past =
      record {
        encoded = encoded;
        mac_part = mac_part;
        payload = payload;
        written = written;
        authentic = authentic;
        decoded = decoded;
        parsed = parsed ∙ ap (λ z. some z) same;
        of_version = ap (λ (z : Envelope). z.version) (sym same) ∙ ver;
        alive =
            subst (λ (z : Envelope). now - z.issued_at * nanoseconds ≤ state_ttl) same
              (within state_ttl (now - e.issued_at * nanoseconds) alive);
        past =
            subst (λ (z : Envelope). z.issued_at * nanoseconds - now ≤ 60 * nanoseconds) same
              (within (60 * nanoseconds) (e.issued_at * nanoseconds - now) past);
      }

  -- Only a token with the MAC of its content under the key is opened, and only within its lifetime.
  pub unwrap-IsSealed :
      (key : Str) (now : ℕ) (token : Str) (env : Envelope)
      → unwrap sealing key now token ≡ ok env
      → IsSealed key now token env
  unwrap-IsSealed key now token env y =
      let (encoded, mac_part, written, o) = unwrap-parts key now token env y in
      let (payload, authentic, decoded, (e, parsed, c)) =
        opened-Yields key now encoded mac_part env o in
      let (same, ver, alive, past) = checked_envelope-Yields now e env c in
      sealed key now token env encoded mac_part payload written authentic decoded parsed same ver
        alive past

  -- The token of an envelope, split where it was joined.
  cut_token :
      (encoded mac : Str)
      → contains_byte b'.' encoded ≡ false
      → (cut_byte b'.' (token_of encoded mac) ≡ some (state_version, encoded ++ b'.' ∷ mac))
        × (cut_byte b'.' (encoded ++ b'.' ∷ mac) ≡ some (encoded, mac))
  unfolding contains_byte
  cut_token encoded mac h = (
    cut_byte-append b'.' state_version (encoded ++ b'.' ∷ mac) refl,
    cut_byte-append b'.' encoded mac h,
  )

  -- Within the lifetime, `Unwrap` returns what `Wrap` has sealed with the same key, the filled
  -- fields included, for an envelope that JSON carries.
  pub unwrap-wrap :
      (key : Str) (issued now : ℕ) (random : Str) (env : Envelope)
      → sealing.of_json (sealing.to_json (filled sealing issued random env))
        ≡ some (filled sealing issued random env)
      → is_expired now (filled sealing issued random env) ≡ false
      → is_future now (filled sealing issued random env) ≡ false
      → unwrap sealing key now (wrap sealing key issued random env)
        ≡ ok (filled sealing issued random env)
  unfolding unwrap wrap opened checked_envelope str_eq
  unwrap-wrap key issued now random env j a f =
      let encoded = sealing.encode (sealing.to_json (filled sealing issued random env)) in
      let (h, q) =
        cut_token encoded (sealing.encode (mac_of sealing key encoded))
          (sealing.encode_free (sealing.to_json (filled sealing issued random env))) in
      rw
        (
          h,
          q,
          sealing.decode-encode (mac_of sealing key encoded),
          str_eq_refl (mac_of sealing key encoded),
          sealing.decode-encode (sealing.to_json (filled sealing issued random env)),
          j,
          a,
          f,
        )
        refl
