-- ===== src/Authz/Engine/Narrow.antt =====
-- `Intersect`: an API key may do no more than it declares and no more than its owner may.
use mcpdoll.Base.{
  Str, Bool, true, ◌&&◌, List, [], ◌∷◌, ◌↔◌, ◌≡◌, refl, ap, sym, ◌∙◌, arith, Memᴰ, str_eq,
  str_eq_iff, any, any_intro, any_elim, and_true, keep, mem-keep, mem_of_mem-keep,
}
use mcpdoll.Authz.Scope.{scope_covers}
use mcpdoll.Authz.Scope.Covers.{scope_covers_trans, scope_covers_refl}
use mcpdoll.Authz.Roles.{Permission, Catalog, Grant, perms_of, has_permission}
use mcpdoll.Authz.Engine.{survives, surviving, intersect, prepare}
use mcpdoll.Authz.Engine.Decide.{permits, allowed, prepare-allowed}

-- The owner's grant backs the key's.
abbrev pub backs : Grant → Grant → Bool
backs kg og = str_eq og.role kg.role && scope_covers og.scope kg.scope

survives-any : (kg : Grant) (owner : List Grant) → survives kg owner ≡ any (backs kg) owner
unfolding survives any
survives-any kg [] = refl
survives-any kg (og ∷ rest) = ground (arith, survives-any kg rest)

surviving-keep :
    (key owner : List Grant) → surviving key owner ≡ keep (λ kg. any (backs kg) owner) key
unfolding surviving keep
surviving-keep [] owner = refl
surviving-keep (kg ∷ rest) owner = rw (survives-any kg owner, surviving-keep rest owner)

keep_none : (key : List Grant) → keep (λ kg. any (backs kg) []) key ≡ []
unfolding keep any
keep_none [] = refl
keep_none (kg ∷ key) = keep_none key

-- The grants of the key that survive are those backed by a grant of the owner, in their order.
pub intersect-keep :
    (key owner : List Grant) → intersect key owner ≡ keep (λ kg. any (backs kg) owner) key
unfolding intersect
intersect-keep [] owner = unfold keep in refl
intersect-keep (kg ∷ key) [] = sym (keep_none (kg ∷ key))
intersect-keep (kg ∷ key) (og ∷ owner) = surviving-keep (kg ∷ key) (og ∷ owner)

-- A grant that is backed allows no request that its backing does not.
backed_permits :
    (c : Catalog) (p : Permission) (r : Str) (kg og : Grant)
    → backs kg og ≡ true
    → permits c p r kg ≡ true
    → permits c p r og ≡ true
unfolding permits
backed_permits c p r kg og b h =
    let backing = and_true (str_eq og.role kg.role) (scope_covers og.scope kg.scope) b in
    let allows = and_true (has_permission p (perms_of c kg.role)) (scope_covers kg.scope r) h in
    let same = (str_eq_iff og.role kg.role).0 backing.0 in
    ground (
      arith,
      ap (λ role. has_permission p (perms_of c role)) same,
      scope_covers_trans og.scope kg.scope r backing.1 allows.1,
    )

-- A grant of the key survives the narrowing exactly if it is one of the key's and the owner holds
-- the same role at a scope that covers it.
pub mem-intersect :
    (key owner : List Grant) (g : Grant)
    → Memᴰ g (intersect key owner) ↔ (Memᴰ g key × (any (backs g) owner ≡ true))
mem-intersect key owner g = rw (intersect-keep key owner) (
  (λ m. mem_of_mem-keep (λ kg. any (backs kg) owner) key m),
  (λ h. mem-keep (λ kg. any (backs kg) owner) h.0 h.1),
)

narrowed :
    (key owner : List Grant) (c : Catalog) (p : Permission) (r : Str)
    → allowed c (intersect key owner) p r ≡ true
    → (allowed c key p r ≡ true) × (allowed c owner p r ≡ true)
unfolding allowed
narrowed key owner c p r h =
    let (g, m, ok) = any_elim (permits c p r) (intersect key owner) h in
    let (m', b) = (mem-intersect key owner g).0 m in
    let (og, n, b') = any_elim (backs g) owner b in
    (any_intro (permits c p r) m' ok, any_intro (permits c p r) n (backed_permits c p r g og b' ok))

-- A key narrowed by its owner allows a request only if the key's own grants and the owner's
-- grants both do.
pub intersect_narrows :
    (key owner : List Grant) (c : Catalog) (p : Permission) (r : Str)
    → prepare (intersect key owner) c p r ≡ true
    → (prepare key c p r ≡ true) × (prepare owner c p r ≡ true)
intersect_narrows key owner c p r h =
    let (a, b) = narrowed key owner c p r (sym (prepare-allowed (intersect key owner) c p r) ∙ h) in
    (prepare-allowed key c p r ∙ a, prepare-allowed owner c p r ∙ b)

keep_backed :
    (gs owner : List Grant)
    → ((g : Grant) → Memᴰ g gs → any (backs g) owner ≡ true)
    → keep (λ kg. any (backs kg) owner) gs ≡ gs
unfolding keep
keep_backed [] owner h = refl
keep_backed (g ∷ gs) owner h =
    rw (h g (Memᴰ.head refl), keep_backed gs owner (λ k m. h k (Memᴰ.tail m)))

backs_self : (g : Grant) → backs g g ≡ true
backs_self g = ground (arith, str_eq_iff g.role g.role, scope_covers_refl g.scope)

-- A key that declares some or all of its owner's own grants loses none of them.
pub intersect-owned :
    (key owner : List Grant) → ((g : Grant) → Memᴰ g key → Memᴰ g owner) → intersect key owner ≡ key
intersect-owned key owner h =
    intersect-keep key owner
    ∙ keep_backed key owner (λ g m. any_intro (backs g) (h g m) (backs_self g))
