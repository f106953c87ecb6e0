-- ===== src/Backends/Breaker.antt =====
-- internal/dataplane/backends/breaker.go. Each method runs under the breaker's mutex and is one
-- step; `now` is what the clock reads in it. Times and durations are natural numbers of
-- nanoseconds, and `now.Sub(openedAt) < cooldown` is `now < openedAt + cooldown`.
use mcpdoll.Base.{
  ℕ, ◌+◌, Bool, true, false, not, ◌&&◌, Option, none, some, List, [], ◌∷◌, ltb, leb, if◌then◌else◌,
}
pub mod Recovery

pub data State : Type 0 where
  closed open_state half_open : State

pub record Breaker : Type 0 where
  pub threshold : ℕ
  pub cooldown : ℕ
  pub consecutive : ℕ
  pub state : State
  pub opened_at : ℕ
  pub probe_in_flight : Bool

unfoldable pub new_breaker : ℕ → ℕ → Breaker
new_breaker threshold cooldown = record {
  threshold = if ltb threshold 1 then 1 else threshold;
  cooldown = cooldown;
  consecutive = 0;
  state = closed;
  opened_at = 0;
  probe_in_flight = false;
}

-- The switch of `Allow`.
allow_in : State → ℕ → Breaker → Breaker × Bool
allow_in closed now b = (b, true)
allow_in open_state now b =
    if ltb now (b.opened_at + b.cooldown)
    then (b, false)
    else (record b { state = half_open; probe_in_flight = true }, true)
allow_in half_open now b =
    if b.probe_in_flight then (b, false) else (record b { probe_in_flight = true }, true)

unfoldable pub allow : ℕ → Breaker → Breaker × Bool
unfolding allow_in
allow now b = allow_in b.state now b

unfoldable pub success : Breaker → Breaker
success b = record b { consecutive = 0; state = closed; probe_in_flight = false }

abbrev is_half_open : State → Bool
is_half_open half_open = true
is_half_open closed = false
is_half_open open_state = false

reopen : ℕ → Breaker → Breaker
reopen now b = record b { state = open_state; opened_at = now; probe_in_flight = false }

unfoldable pub failure : ℕ → Breaker → Breaker
unfolding reopen
failure now b =
    if is_half_open b.state
    then reopen now b
    else let counted = record b { consecutive = b.consecutive + 1 } in
      if leb counted.threshold counted.consecutive then reopen now counted else counted

abbrev is_open : State → Bool
is_open open_state = true
is_open closed = false
is_open half_open = false

-- `State`: what a request would meet.
unfoldable pub state_at : ℕ → Breaker → State
state_at now b =
    if is_open b.state && leb (b.opened_at + b.cooldown) now then half_open else b.state

-- `OpenUntil`; `none` is the zero time.
unfoldable pub open_until : Breaker → Option ℕ
open_until b = if is_open b.state then some (b.opened_at + b.cooldown) else none

-- Calls of `Allow` one after another, at the times given: the breaker and the requests admitted.
unfoldable pub admit : List ℕ → Breaker → Breaker × ℕ
admit [] b = (b, 0)
admit (now ∷ later) b =
    let (b', granted) = allow now b in
    let (b'', n) = admit later b' in (b'', if granted then n + 1 else n)

-- Failures one after another, with no success between.
unfoldable pub fail_all : List ℕ → Breaker → Breaker
fail_all [] b = b
fail_all (now ∷ later) b = fail_all later (failure now b)
