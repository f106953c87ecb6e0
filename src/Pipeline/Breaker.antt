-- ===== src/Pipeline/Breaker.antt =====
-- internal/dataplane/pipeline/breaker.go: the breaker of one plugin. Each method runs under the
-- mutex and is one step; `now` is what the clock reads in it, in nanoseconds.
use mcpdoll.Base.{
  ℕ, ◌+◌, Bool, true, false, not, ◌&&◌, Str, codes, List, [], ◌∷◌, ltb, leb, if◌then◌else◌,
}
pub mod Recovery

pub record Breaker : Type 0 where
  pub threshold : ℕ
  pub cooldown : ℕ
  pub consecutive : ℕ
  pub is_open : Bool
  pub opened_at : ℕ
  pub probe_in_flight : Bool
  pub just_opened : Bool

unfoldable pub new_breaker : ℕ → ℕ → Breaker
new_breaker threshold cooldown = record {
  threshold = if ltb threshold 1 then 1 else threshold;
  cooldown = cooldown;
  consecutive = 0;
  is_open = false;
  opened_at = 0;
  probe_in_flight = false;
  just_opened = false;
}

unfoldable pub allow : ℕ → Breaker → Breaker × Bool
allow now b =
    if not b.is_open
    then (b, true)
    else if ltb now (b.opened_at + b.cooldown)
    then (b, false)
    else if b.probe_in_flight
    then (b, false)
    else (record b { probe_in_flight = true }, true)

unfoldable pub success : Breaker → Breaker
success b = record b { consecutive = 0; is_open = false; probe_in_flight = false }

unfoldable pub failure : ℕ → Breaker → Breaker
failure now b =
    if b.probe_in_flight
    then record b { is_open = true; opened_at = now; probe_in_flight = false }
    else let counted = record b { consecutive = b.consecutive + 1 } in
      if leb counted.threshold counted.consecutive && not counted.is_open
      then record counted { is_open = true; opened_at = now; just_opened = true }
      else counted

-- `JustOpened`: reports a trip once.
unfoldable pub take_just_opened : Breaker → Breaker × Bool
take_just_opened b = if b.just_opened then (record b { just_opened = false }, true) else (b, false)

unfoldable pub state_name : ℕ → Breaker → Str
state_name now b =
    if not b.is_open
    then codes "closed"
    else if leb (b.opened_at + b.cooldown) now
    then codes "half_open"
    else codes "open"

-- Calls of `Allow` one after another, and how many were granted.
unfoldable pub admit : List ℕ → Breaker → Breaker × ℕ
admit [] b = (b, 0)
admit (now ∷ later) b =
    let (b', granted) = allow now b in
    let (b'', n) = admit later b' in (b'', if granted then n + 1 else n)

-- Failures one after another, each followed by the engine's read of `JustOpened`, and how many
-- trips were reported.
unfoldable pub fail_all : List ℕ → Breaker → Breaker × ℕ
fail_all [] b = (b, 0)
fail_all (now ∷ later) b =
    let (b', tripped) = take_just_opened (failure now b) in
    let (b'', n) = fail_all later b' in (b'', if tripped then n + 1 else n)
