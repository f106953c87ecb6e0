-- ===== src/Pipeline/Breaker/Recovery.antt =====
-- What the plugin breaker guarantees: its invariant, one trip at the threshold, one probe at a
-- time, and what a result does.
use mcpdoll.Base.{
  ℕ, ◌+◌, ◌≤◌, ◌<◌, true, false, List, [], ◌∷◌, ◌≡◌, ◌⊎◌, refl, arith, ltb, leb, length, Bool-cases,
  inl, inr, if◌then◌else◌,
}
use mcpdoll.Pipeline.Breaker.{
  Breaker, new_breaker, allow, success, failure, take_just_opened, admit, fail_all,
}

-- Closed below the threshold, and a probe only while open.
pub record IsValid (b : Breaker) : Type 0 where
  pub armed : 1 ≤ b.threshold
  pub below : b.is_open ≡ false → b.consecutive < b.threshold
  pub probing : b.probe_in_flight ≡ true → b.is_open ≡ true

pub new_breaker-IsValid : (t c : ℕ) → IsValid (new_breaker t c)
unfolding new_breaker
new_breaker-IsValid t c = ground arith

-- Every method keeps the invariant.
pub methods-IsValid :
    (now : ℕ) (b : Breaker)
    → IsValid b
    → IsValid (allow now b).0
      × IsValid (success b)
      × IsValid (failure now b)
      × IsValid (take_just_opened b).0
unfolding allow success failure take_just_opened
methods-IsValid now b v = (ground arith, ground arith, ground arith, ground arith)

-- With a probe in flight every request is refused and nothing changes, for ever: only a reported
-- result ends it.
pub admit_blocked :
    (times : List ℕ) (b : Breaker)
    → b.is_open ≡ true
    → b.probe_in_flight ≡ true
    → admit times b ≡ (b, 0)
unfolding admit allow
admit_blocked [] b h p = refl
admit_blocked (now ∷ times) b h p = ground (arith, admit_blocked times b h p)

allow_guarded :
    (now : ℕ) (b : Breaker)
    → b.is_open ≡ true
    → (allow now b ≡ (b, false))
      ⊎ (((allow now b).1 ≡ true)
          × ((allow now b).0.is_open ≡ true)
          × ((allow now b).0.probe_in_flight ≡ true))
unfolding allow
allow_guarded now b h = ground arith

-- An open breaker admits at most one request until a result is reported, however many ask and
-- whenever they ask.
pub admit_single : (times : List ℕ) (b : Breaker) → b.is_open ≡ true → (admit times b).1 ≤ 1
unfolding admit
admit_single [] b h = omega arith
admit_single (now ∷ times) b h = elim (allow_guarded now b h) [
  | inl e ↦ rw (e, admit) (admit_single times b h)
  | inr (g, s, p) ↦ rw (g, admit_blocked times (allow now b).0 s p) (omega arith)
]

-- What a failure does in the three situations without a probe.
failure_closed :
    (now : ℕ) (b : Breaker)
    → b.is_open ≡ false
    → b.probe_in_flight ≡ false
    → b.just_opened ≡ false
    → b.consecutive + 1 < b.threshold
    → take_just_opened (failure now b) ≡ (record b { consecutive = b.consecutive + 1 }, false)
unfolding failure take_just_opened
failure_closed now b o p j h = ground arith

failure_trips :
    (now : ℕ) (b : Breaker)
    → b.is_open ≡ false
    → b.probe_in_flight ≡ false
    → b.threshold ≤ b.consecutive + 1
    → take_just_opened (failure now b) ≡ (
      record b {
        consecutive = b.consecutive + 1;
        is_open = true;
        opened_at = now;
        just_opened = false;
      },
      true,
    )
unfolding failure take_just_opened
failure_trips now b o p h = ground arith

failure_opened :
    (now : ℕ) (b : Breaker)
    → b.is_open ≡ true
    → b.probe_in_flight ≡ false
    → b.just_opened ≡ false
    → take_just_opened (failure now b) ≡ (record b { consecutive = b.consecutive + 1 }, false)
unfolding failure take_just_opened
failure_opened now b o p j = ground arith

-- Failures of an open breaker move neither its opening time nor its state, and report no trip.
fail_all_opened :
    (times : List ℕ) (b : Breaker)
    → b.is_open ≡ true
    → b.probe_in_flight ≡ false
    → b.just_opened ≡ false
    → ((fail_all times b).0.is_open ≡ true)
      × ((fail_all times b).0.opened_at ≡ b.opened_at)
      × ((fail_all times b).1 ≡ 0)
unfolding fail_all
fail_all_opened [] b o p j = (o, refl, refl)
fail_all_opened (now ∷ times) b o p j =
    rw (failure_opened now b o p j, fail_all)
      (fail_all_opened times (record b { consecutive = b.consecutive + 1 }) o p j)

-- A closed breaker trips at the failure that brings the run of failures to the threshold, at none
-- before, and the trip is reported exactly once however long the run goes on.
pub fail_all_once :
    (times : List ℕ) (b : Breaker)
    → b.is_open ≡ false
    → b.probe_in_flight ≡ false
    → b.just_opened ≡ false
    → b.consecutive < b.threshold
    → ((fail_all times b).0.is_open ≡ leb b.threshold (b.consecutive + length times))
      × ((fail_all times b).1 ≡ (if leb b.threshold (b.consecutive + length times) then 1 else 0))
unfolding fail_all
fail_all_once [] b o p j h = ground arith
fail_all_once (now ∷ times) b o p j h = elim (Bool-cases (ltb (b.consecutive + 1) b.threshold)) [
  | inl e ↦
      rw (failure_closed now b o p j (ground arith), fail_all)
        (ground (
          arith,
          fail_all_once times (record b { consecutive = b.consecutive + 1 }) o p j (ground arith),
        ))
  | inr e ↦
      rw (failure_trips now b o p (ground arith), fail_all)
        (ground (
          arith,
          fail_all_opened times
              (record b {
                consecutive = b.consecutive + 1;
                is_open = true;
                opened_at = now;
                just_opened = false;
              })
              refl p refl,
        ))
]

-- A failed probe opens the breaker for a whole cooldown from then, without waiting for the
-- threshold; a successful one closes it, and admits requests at once.
pub probe_settles :
    (now later : ℕ) (b : Breaker)
    → b.probe_in_flight ≡ true
    → ((allow later (failure now b)).1 ≡ leb (now + b.cooldown) later)
      × (allow later (success b) ≡ (success b, true))
      × ((success b).consecutive ≡ 0)
unfolding failure allow success
probe_settles now later b h = ground arith
