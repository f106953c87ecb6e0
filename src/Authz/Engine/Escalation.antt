-- ===== src/Authz/Engine/Escalation.antt =====
-- `WithheldBy`: a grant passes the escalation check exactly if it confers nothing new on its
-- issuer.
use mcpdoll.Base.{
  Str, true, false, not, List, [], ◌∷◌, ◌≡◌, ap, sym, ◌∙◌, arith, Memᴰ, inl, inr, str_eq,
  str_eq_iff, any, any_intro, any_elim, Bool-cases, and_true, mem_cast, mem-nil, str_eq_refl,
  mem-keep, mem_of_mem-keep,
}
use mcpdoll.Base.Sort.{str_le, mem-sort, mem_of_mem-sort}
use mcpdoll.Base.Dict.{str_key}
use mcpdoll.Authz.Scope.{scope_covers}
use mcpdoll.Authz.Scope.Covers.{scope_covers_trans, scope_covers_refl}
use mcpdoll.Authz.Roles.{
  Permission, Catalog, Grant, perms_of, permissions, has_permission, withheld_by, Holder,
}
use mcpdoll.Authz.Engine.{prepare}
use mcpdoll.Authz.Engine.Decide.{permits, allowed, prepare-allowed}

pub has_permission-mem :
    (p : Permission) (ps : List Permission) → has_permission p ps ≡ true → Memᴰ p ps
unfolding has_permission
has_permission-mem p ps h =
    let (q, m, e) = any_elim (λ q. str_eq q p) ps h in mem_cast (sym ((str_eq_iff q p).0 e)) m

mem-has_permission :
    {p : Permission} {ps : List Permission} → Memᴰ p ps → has_permission p ps ≡ true
unfolding has_permission
mem-has_permission {p} m = any_intro (λ q. str_eq q p) m (str_eq_refl p)

-- What a role confers at a scope, its issuer holds there if nothing is withheld.
not_withheld :
    (c : Catalog) (can : Holder) (role scope : Str) (p : Permission)
    → withheld_by c can role scope ≡ []
    → has_permission p (perms_of c role) ≡ true
    → can p scope ≡ true
unfolding withheld_by permissions
not_withheld c can role scope p clear h = elim (Bool-cases (can p scope)) [
  | inl e ↦ e
  | inr e ↦ absurd (
      mem-nil clear (
        mem-keep (λ q. not (can q scope))
          (mem-sort str_le (has_permission-mem p (perms_of c role) h)) (ap not e)))
]

covered_grant :
    (c : Catalog) (gs : List Grant) (p : Permission) (s r : Str)
    → allowed c gs p s ≡ true
    → scope_covers s r ≡ true
    → allowed c gs p r ≡ true
unfolding allowed permits
covered_grant c gs p s r h k =
    let (g, m, ok) = any_elim (permits c p s) gs h in
    let both = and_true (has_permission p (perms_of c g.role)) (scope_covers g.scope s) ok in
    any_intro (permits c p r) m (ground (arith, both, scope_covers_trans g.scope s r both.1 k))

-- What the new grant allows was allowed.
conferred :
    (c : Catalog) (gs : List Grant) (g : Grant)
    → withheld_by c (prepare gs c) g.role g.scope ≡ []
    → (p : Permission) (r : Str) → permits c p r g ≡ true
    → allowed c gs p r ≡ true
unfolding permits
conferred c gs g clear p r h =
    let both = and_true (has_permission p (perms_of c g.role)) (scope_covers g.scope r) h in
    let held = not_withheld c (prepare gs c) g.role g.scope p clear both.0 in
    covered_grant c gs p g.scope r (sym (prepare-allowed gs c p g.scope) ∙ held) both.1

-- Granting a role of which nothing is withheld from a principal gives that principal no request
-- that its grants did not allow before, at any scope.
pub withheld_by-safe :
    (c : Catalog) (gs : List Grant) (g : Grant) (p : Permission) (r : Str)
    → withheld_by c (prepare gs c) g.role g.scope ≡ []
    → prepare (g ∷ gs) c p r ≡ prepare gs c p r
unfolding allowed any
withheld_by-safe c gs g p r clear =
    rw (prepare-allowed (g ∷ gs) c p r, prepare-allowed gs c p r)
      (ground (arith, conferred c gs g clear p r))

-- Each permission that the check names is one that the grant would newly confer: the principal
-- lacks it at the grant's scope, and would have it there.
pub withheld_by-escalates :
    (c : Catalog) (gs : List Grant) (g : Grant) (p : Permission)
    → Memᴰ p (withheld_by c (prepare gs c) g.role g.scope)
    → (prepare gs c p g.scope ≡ false) × (prepare (g ∷ gs) c p g.scope ≡ true)
unfolding withheld_by permissions allowed permits any
withheld_by-escalates c gs g p m =
    let (n, lacks) = mem_of_mem-keep (λ q. not (prepare gs c q g.scope)) (permissions c g.role) m in
    let holds = mem-has_permission (mem_of_mem-sort str_le (perms_of c g.role) n) in
    (
      ground arith,
      prepare-allowed (g ∷ gs) c p g.scope ∙ ground (arith, holds, scope_covers_refl g.scope),
    )
