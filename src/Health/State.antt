-- ===== src/Health/State.antt =====
-- internal/dataplane/health/state.go: the registry of backends. Each method holds the mutex and is
-- one step. The smoothed latency, times but for `classify`, and the fields that are only shown are
-- left out. Times are nanoseconds; `none` is the zero time.
use mcpdoll.Base.{
  ℕ, ◌+◌, Str, codes, Bool, true, false, not, ◌&&◌, ◌||◌, Option, none, some, List, [], ◌∷◌, ◌++◌,
  ltb, if◌then◌else◌, str_eq, str_eq_iff, keep, map, arith, ◌≡◌, ◌↔◌,
}
use mcpdoll.Base.Dict.{Dict, Eq, lookup, insert, str_key}
use mcpdoll.Base.Sort.{sort, str_le}
use mcpdoll.Authz.Scope.{is_empty}
use mcpdoll.Health.Drift.{
  DriftKind, cosmetic, semantic, removed, added, is_blocking, ToolDrift, blocking,
}
pub mod Blocked

pub data State : Type 0 where
  unknown healthy degraded unavailable drifted : State

-- `backends.Target`
pub record Target : Type 0 where
  pub server_id : Str
  pub tenant_id : Str

unfoldable pub same_target : Target → Target → Bool
same_target a b = str_eq a.server_id b.server_id && str_eq a.tenant_id b.tenant_id

pub same_target_iff : (a b : Target) → (same_target a b ≡ true) ↔ (a ≡ b)
unfolding same_target
same_target_iff a b = (
  λ h. ground (arith, str_eq_iff a.server_id b.server_id, str_eq_iff a.tenant_id b.tenant_id),
  λ h. ground (arith, str_eq_iff a.server_id b.server_id, str_eq_iff a.tenant_id b.tenant_id),
)

instance abbrev pub target_key : Eq Target
target_key = record { beq = same_target; beq_iff = same_target_iff }

pub record Backend : Type 0 where
  pub target : Target
  pub server_name : Str
  pub tenant_slug : Str
  pub state : State
  pub serving_mode : Str
  pub drift : List ToolDrift

-- The names of the drifts that block and have one.
blocked_names : List ToolDrift → List Str
blocked_names [] = []
blocked_names (d ∷ ds) =
    let rest = blocked_names ds in
    if is_blocking d.kind && not (is_empty d.qualified_name) then d.qualified_name ∷ rest else rest

unfoldable pub blocked_tools : Backend → List Str
unfolding blocked_names
blocked_tools b =
    if not (str_eq b.serving_mode (codes "strict")) then [] else sort str_le (blocked_names b.drift)

pub record BlockReason : Type 0 where
  pub server : Str
  pub kind : DriftKind
  pub detail : Str

pub record Registry : Type 0 where
  pub backends : Dict Target Backend
  pub blocked : Dict Str BlockReason

abbrev pub new_registry : Registry
new_registry = record { backends = []; blocked = [] }

-- The inner loop of `rebuildBlockedLocked`: the first drift of the name.
block : Str → Str → List ToolDrift → Dict Str BlockReason → Dict Str BlockReason
block server name [] m = m
block server name (d ∷ ds) m =
    let rest = block server name ds m in
    if str_eq d.qualified_name name
    then insert name (record { server = server; kind = d.kind; detail = d.detail }) m
    else rest

block_all : Backend → List Str → Dict Str BlockReason → Dict Str BlockReason
unfolding block
block_all b [] m = m
block_all b (name ∷ names) m = block_all b names (block b.server_name name b.drift m)

unfoldable pub rebuild_from : Dict Target Backend → Dict Str BlockReason → Dict Str BlockReason
unfolding block_all
rebuild_from [] m = m
rebuild_from ((_, b) ∷ rest) m = rebuild_from rest (block_all b (blocked_tools b) m)

-- `rebuildBlockedLocked`
unfoldable pub rebuild_blocked : Registry → Registry
rebuild_blocked r = record r { blocked = rebuild_from r.backends [] }

unfoldable pub set : Backend → Registry → Registry
set b r = rebuild_blocked (record r { backends = insert b.target b r.backends })

unfoldable pub forget : (Target → Bool) → Registry → Registry
forget kept r = rebuild_blocked (record r { backends = keep (λ e. kept e.0) r.backends })

reason_of : DriftKind → Str → Str
reason_of removed detail =
    codes
      "the backend serving this tool no longer publishes it, and this gateway is configured to serve only admitted definitions"
reason_of _ detail =
    codes "this tool's definition has changed at the backend since it was admitted ("
    ++ (detail ++ codes "), and this gateway is configured to serve only admitted definitions")

reason_for : Option BlockReason → Option Str
unfolding reason_of
reason_for none = none
reason_for (some e) = some (reason_of e.kind e.detail)

-- `Blocked`: the reason, or `none` if the tool is served.
unfoldable pub blocked : Registry → Str → Option Str
unfolding reason_for
blocked r q = reason_for (lookup q r.blocked)

-- By tenant, then server.
backend_le : Backend → Backend → Bool
backend_le a b =
    if not (str_eq a.tenant_slug b.tenant_slug)
    then str_le a.tenant_slug b.tenant_slug
    else str_le a.server_name b.server_name

-- `All`
unfoldable pub all_backends : Registry → List Backend
unfolding backend_le
all_backends r = sort backend_le (map (λ e. e.1) r.backends)

never_or_late : Option ℕ → ℕ → ℕ → State
never_or_late none now grace = unavailable
never_or_late (some last) now grace = if ltb now (last + grace) then degraded else unavailable

unfoldable pub is_clean : List ToolDrift → Bool
is_clean [] = true
is_clean (_ ∷ _) = false

-- `classify`; the error of the probe, if any, comes first.
unfoldable pub classify : Option Str → List ToolDrift → Option ℕ → ℕ → ℕ → State
unfolding never_or_late is_clean
classify (some _) drifts last now grace = never_or_late last now grace
classify none drifts last now grace = if is_clean (blocking drifts) then healthy else drifted
