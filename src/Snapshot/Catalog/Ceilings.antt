-- ===== src/Snapshot/Catalog/Ceilings.antt =====
-- The time to live of a catalog.
use mcpdoll.Base.{ℕ, true, false, some, List, ◌≡◌, Memᴰ, ◌⊎◌}
use mcpdoll.Base.Integers.{ℤ, pos, int_le, int_eq}
use mcpdoll.Base.Dict.{Dict, str_key}
use mcpdoll.Proto.Snapshot.{Policy, PolicyRule, Snapshot}
use mcpdoll.Snapshot.View.{Tool, View}

-- Set, and not above a ceiling.
abbrev pub IsWithin : ℕ → ℤ → Type 0
IsWithin c ttl = (int_eq ttl (pos 0) ≡ false) × (int_le ttl (pos c) ≡ true)

-- A time to live that limits a catalog: the snapshot's default, that of a listed tool's toolset, or
-- that of a rule of a policy.
abbrev pub Limits : Snapshot → List Tool → ℤ → Type 0
Limits snap tools c =
    (snap.default_ttl_ms ≡ some c)
    ⊎ (((t : Tool) × Memᴰ t tools × (t.toolset.ttl_ms ≡ c))
        ⊎ ((p : Policy) × (r : PolicyRule) × Memᴰ p snap.policies
            × Memᴰ r p.rules
            × (r.max_ttl_ms ≡ c)))
