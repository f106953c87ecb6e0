-- ===== src/Backends/Breaker/Recovery.antt =====
-- What the backend breaker guarantees: its invariant, when it trips, one probe at a time, and the
-- time that it announces.
use mcpdoll.Base.{
  ℕ, ◌+◌, ◌≤◌, ◌<◌, true, false, some, List, [], ◌∷◌, ◌≡◌, ◌≢◌, ◌⊎◌, refl, ap, ◌∙◌, arith, ltb, leb,
  length, Bool-cases, inl, inr, if◌then◌else◌,
}
use mcpdoll.Backends.Breaker.{
  closed, open_state, half_open, Breaker, new_breaker, allow, success, failure, state_at,
  open_until, admit, fail_all,
}

-- Closed below the threshold, and a probe only while half-open.
pub record IsValid (b : Breaker) : Type 0 where
  pub armed : 1 ≤ b.threshold
  pub below : b.state ≡ closed → b.consecutive < b.threshold
  pub probing : b.probe_in_flight ≡ true → b.state ≡ half_open
  pub probed : b.state ≡ half_open → b.probe_in_flight ≡ true

pub new_breaker-IsValid : (t c : ℕ) → IsValid (new_breaker t c)
unfolding new_breaker
new_breaker-IsValid t c = ground arith

-- Each method keeps the invariant.
pub allow-IsValid : (now : ℕ) (b : Breaker) → IsValid b → IsValid (allow now b).0
unfolding allow
allow-IsValid now b v = ground arith

pub success-IsValid : (b : Breaker) → IsValid b → IsValid (success b)
unfolding success
success-IsValid b v = ground arith

pub failure-IsValid : (now : ℕ) (b : Breaker) → IsValid b → IsValid (failure now b)
unfolding failure
failure-IsValid now b v = ground arith

-- With a probe in flight every request is refused and nothing changes.
pub admit_probing :
    (times : List ℕ) (b : Breaker)
    → b.state ≡ half_open
    → b.probe_in_flight ≡ true
    → admit times b ≡ (b, 0)
unfolding admit allow
admit_probing [] b h p = refl
admit_probing (now ∷ times) b h p = ground (arith, admit_probing times b h p)

-- Calls that are refused leave the breaker as it is, and the first that is granted is the probe.
allow_guarded :
    (now : ℕ) (b : Breaker)
    → b.state ≢ closed
    → (allow now b ≡ (b, false))
      ⊎ (((allow now b).1 ≡ true)
          × ((allow now b).0.state ≡ half_open)
          × ((allow now b).0.probe_in_flight ≡ true))
unfolding allow
allow_guarded now b h = ground arith

-- While not closed, at most one request is admitted until a result is reported, however many ask
-- and whenever they ask.
pub admit-le-one : (times : List ℕ) (b : Breaker) → b.state ≢ closed → (admit times b).1 ≤ 1
unfolding admit
admit-le-one [] b h = omega arith
admit-le-one (now ∷ times) b h = elim (allow_guarded now b h) [
  | inl e ↦ rw (e, admit) (admit-le-one times b h)
  | inr (g, s, p) ↦ rw (g, admit_probing times (allow now b).0 s p) (omega arith)
]

failure_closed :
    (now : ℕ) (b : Breaker)
    → b.state ≡ closed
    → b.consecutive + 1 < b.threshold
    → failure now b ≡ record b { consecutive = b.consecutive + 1 }
unfolding failure
failure_closed now b c h = ground arith

failure_open :
    (now : ℕ) (b : Breaker)
    → b.state ≢ half_open
    → b.threshold ≤ b.consecutive + 1
    → ((failure now b).state ≡ open_state)
      × ((failure now b).consecutive ≡ b.consecutive + 1)
      × ((failure now b).threshold ≡ b.threshold)
unfolding failure
failure_open now b c h = ground arith

-- Once it is open, further failures keep it open.
fail_all_open :
    (times : List ℕ) (b : Breaker)
    → b.state ≡ open_state
    → b.threshold ≤ b.consecutive
    → (fail_all times b).state ≡ open_state
unfolding fail_all
fail_all_open [] b s h = s
fail_all_open (now ∷ times) b s h =
    let next = failure_open now b (λ e. cc) (omega arith) in
    fail_all_open times (failure now b) next.0 (omega (arith, next.1, next.2))

-- A closed breaker trips at the failure that brings the run of failures to the threshold, and at
-- none before.
pub fail_all_trips :
    (times : List ℕ) (b : Breaker)
    → b.state ≡ closed
    → b.consecutive < b.threshold
    → (fail_all times b).state
      ≡ (if leb b.threshold (b.consecutive + length times) then open_state else closed)
unfolding fail_all
fail_all_trips [] b s h = ground arith
fail_all_trips (now ∷ times) b s h = elim (Bool-cases (ltb (b.consecutive + 1) b.threshold)) [
  | inl e ↦
      ap (λ c. (fail_all times c).state) (failure_closed now b s (ground arith))
      ∙ fail_all_trips times (record b { consecutive = b.consecutive + 1 }) s (ground arith)
      ∙ ground arith
  | inr e ↦
      let next = failure_open now b (λ f. cc) (ground arith) in
      fail_all_open times (failure now b) next.0 (ground (arith, next.1, next.2)) ∙ ground arith
]

-- The announced time is the time from which a request is admitted: an open breaker refuses every
-- request before it, and admits the first request from then on.
pub open_until-allow :
    (now t : ℕ) (b : Breaker) → open_until b ≡ some t → (allow now b).1 ≡ leb t now
unfolding open_until allow
open_until-allow now t b h = ground arith

-- Where the state shown is open, a request is refused; where it is closed, it is admitted.
pub state_at-allow :
    (now : ℕ) (b : Breaker)
    → IsValid b
    → (state_at now b ≡ open_state → (allow now b).1 ≡ false)
      × (state_at now b ≡ closed → (allow now b).1 ≡ true)
unfolding state_at allow
state_at-allow now b v = ground arith

-- A failed probe opens the breaker for a whole cooldown from then, and a successful one closes it
-- and admits every request until the threshold is reached again.
pub probe_result :
    (now later : ℕ) (b : Breaker)
    → b.state ≡ half_open
    → ((allow later (failure now b)).1 ≡ leb (now + b.cooldown) later)
      × (allow later (success b) ≡ (success b, true))
      × ((success b).consecutive ≡ 0)
unfolding failure allow success
probe_result now later b h = ground arith
