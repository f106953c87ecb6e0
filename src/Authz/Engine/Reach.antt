-- ===== src/Authz/Engine/Reach.antt =====
-- `AnyReaches`: which tenants a principal's grants touch.
use mcpdoll.Base.{
  Str, Bool, true, false, ◌||◌, Option, none, some, List, [], ◌∷◌, ◌≡◌, ◌↔◌, refl, ap, sym, ◌∙◌,
  arith, Memᴰ, inl, inr, str_eq, str_eq_comm, any, any_intro, any_elim, Option-cases,
}
use mcpdoll.Authz.Scope.{ParsedScope, parse_scope}
use mcpdoll.Authz.Scope.Segments.{is_prefix}
use mcpdoll.Authz.Scope.Parse.{
  Place, everywhere, in_tenant, in_toolset, at_tool, IsPlace, render, parts, parse_scope_sound,
  parse_scope-render,
}
use mcpdoll.Authz.Scope.Hierarchy.{within}
use mcpdoll.Authz.Roles.{Grant}
use mcpdoll.Authz.Engine.{any_reaches}

-- The place lies above the tenant, is the tenant, or lies inside it.
pub touches : Str → Place → Bool
touches t p = within p (in_tenant t) || within (in_tenant t) p

abbrev meets : Str → Option ParsedScope → Bool
meets t none = false
meets t (some q) = q.is_global || str_eq q.tenant t

any_reaches-any :
    (gs : List Grant) (t : Str) → any_reaches gs t ≡ any (λ g. meets t (parse_scope g.scope)) gs
unfolding any_reaches any
any_reaches-any [] t = refl
any_reaches-any (g ∷ gs) t = elim (Option-cases (parse_scope g.scope)) [
  | inl e ↦ rw (e, any_reaches) (any_reaches-any gs t)
  | inr (q, e) ↦ rw (e, any_reaches) (ground (arith, any_reaches-any gs t))
]

meets-parts : (t : Str) (p : Place) → meets t (some (parts p)) ≡ touches t p
unfolding touches within is_prefix
meets-parts t everywhere = refl
meets-parts t (in_tenant t') = ground (arith, str_eq_comm t' t)
meets-parts t (in_toolset t' s) = ground (arith, str_eq_comm t' t)
meets-parts t (at_tool t' s n) = ground (arith, str_eq_comm t' t)

abbrev Reaching : List Grant → Str → Type 0
Reaching gs t =
    (g : Grant) × Memᴰ g gs
    × ((p : Place) × IsPlace p × (g.scope ≡ render p) × (touches t p ≡ true))

reaching_meets :
    (t s : Str)
    → meets t (parse_scope s) ≡ true
    → (p : Place) × IsPlace p × (s ≡ render p) × (touches t p ≡ true)
reaching_meets t s h = elim (Option-cases (parse_scope s)) [
  | inl e ↦ absurd (ground arith)
  | inr (q, e) ↦
      let (p, v, r, f) = parse_scope_sound s q e in
      (p, v, r, sym (meets-parts t p) ∙ ap (meets t) (ap some (sym f) ∙ sym e) ∙ h)
]

-- A principal reaches a tenant exactly if some grant's scope is that of a place that contains the
-- tenant, is it, or lies inside it; a grant with a malformed scope reaches nothing.
pub any_reaches_iff :
    (gs : List Grant) (t : Str)
    → (any_reaches gs t ≡ true) ↔ (
        (g : Grant) × Memᴰ g gs
        × ((p : Place) × IsPlace p × (g.scope ≡ render p) × (touches t p ≡ true)))
any_reaches_iff gs t = (to, from)
  where
    to : any_reaches gs t ≡ true → Reaching gs t
    to h =
        let (g, m, ok) =
          any_elim (λ g. meets t (parse_scope g.scope)) gs (sym (any_reaches-any gs t) ∙ h) in
        (g, m, reaching_meets t g.scope ok)

    from : Reaching gs t → any_reaches gs t ≡ true
    from (g, m, (p, v, e, f)) =
        any_reaches-any gs t
        ∙ any_intro (λ g. meets t (parse_scope g.scope)) m
            (ap (λ s. meets t (parse_scope s)) e
              ∙ ap (meets t) (parse_scope-render p v)
              ∙ meets-parts t p
              ∙ f)
