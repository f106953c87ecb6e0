-- ===== src/Authz/Scope/Hierarchy.antt =====
-- The hierarchy of places that the scope strings stand for: `ScopeCovers` on strings is the order
-- of the tree of tenants, toolsets and tools.
use mcpdoll.Base.{
  Str, codes, Bool, true, List, [], ◌∷◌, ◌≡◌, refl, ◌∙◌, ◌⊎◌, ◌≢◌, inl, inr, arith, str_eq,
  contains_byte, ◌↔◌, Bool_ext,
}
use mcpdoll.Authz.Scope.{scope_covers, global_scope}
use mcpdoll.Authz.Scope.Segments.{Extends, AllSlashFree, join, is_prefix, Extends-join_iff}
use mcpdoll.Authz.Scope.Covers.{scope_covers_iff, scope_covers_global}
use mcpdoll.Authz.Scope.Parse.{Place, everywhere, in_tenant, in_toolset, at_tool, IsPlace, render}

-- The way from the root of the hierarchy to a place.
abbrev pub path : Place → List Str
path everywhere = []
path (in_tenant t) = t ∷ []
path (in_toolset t s) = t ∷ s ∷ []
path (at_tool t s n) = t ∷ s ∷ n ∷ []

-- A place holds another if the way to it is the start of the way to the other.
unfoldable pub within : Place → Place → Bool
within p q = is_prefix (path p) (path q)

-- The segments of the scope string.
abbrev segments : Place → List Str
segments everywhere = []
segments (in_tenant t) = codes "t" ∷ t ∷ []
segments (in_toolset t s) = codes "t" ∷ t ∷ codes "ts" ∷ s ∷ []
segments (at_tool t s n) = codes "t" ∷ t ∷ codes "ts" ∷ s ∷ n ∷ []

-- Places below the root.
abbrev IsBelow : Place → Type 0
IsBelow everywhere = ⊥
IsBelow (in_tenant t) = Unit {0}
IsBelow (in_toolset t s) = Unit {0}
IsBelow (at_tool t s n) = Unit {0}

render-join : (p : Place) → IsBelow p → render p ≡ join (segments p)
unfolding render join
render-join everywhere h = absurd h
render-join (in_tenant t) h = refl
render-join (in_toolset t s) h = refl
render-join (at_tool t s n) h = refl

render-ne-global : (p : Place) → IsBelow p → render p ≡ global_scope → ⊥
unfolding render
render-ne-global everywhere h e = h
render-ne-global (in_tenant t) h e = ground arith
render-ne-global (in_toolset t s) h e = ground arith
render-ne-global (at_tool t s n) h e = ground arith

segments-slash_free : (p : Place) → IsPlace p → AllSlashFree (segments p)
unfolding contains_byte
segments-slash_free everywhere h = tt
segments-slash_free (in_tenant t) h = (refl, (h.1, tt))
segments-slash_free (in_toolset t s) h = (refl, (h.0.1, (refl, (h.1.1, tt))))
segments-slash_free (at_tool t s n) h = (refl, (h.0.1, (refl, (h.1.1, (h.2.1, tt)))))

-- The marks between the names do not matter.
is_prefix-segments : (p q : Place) → is_prefix (segments p) (segments q) ≡ within p q
unfolding is_prefix within str_eq
is_prefix-segments everywhere everywhere = refl
is_prefix-segments _ _ = ground arith

segments-ne-nil : (p : Place) → IsBelow p → segments p ≢ []
segments-ne-nil everywhere h e = h
segments-ne-nil (in_tenant t) h e = cc
segments-ne-nil (in_toolset t s) h e = cc
segments-ne-nil (at_tool t s n) h e = cc

covers_below :
    (p q : Place)
    → IsBelow p
    → IsBelow q
    → IsPlace p
    → IsPlace q
    → scope_covers (render p) (render q) ≡ within p q
covers_below p q bp bq vp vq = Bool_ext _ _ to from ∙ is_prefix-segments p q
  where
    segments_extend : Extends (render p) (render q) ↔ (is_prefix (segments p) (segments q) ≡ true)
    segments_extend =
        rw (render-join p bp, render-join q bq)
          (Extends-join_iff (segments p) (segments q) (segments-ne-nil p bp) (segments-ne-nil q bq)
            (segments-slash_free p vp) (segments-slash_free q vq))

    to : scope_covers (render p) (render q) ≡ true → is_prefix (segments p) (segments q) ≡ true
    to h = elim ((scope_covers_iff (render p) (render q)).0 h) [
      | inl e ↦ absurd (render-ne-global p bp e)
      | inr e ↦ segments_extend.0 e
    ]

    from : is_prefix (segments p) (segments q) ≡ true → scope_covers (render p) (render q) ≡ true
    from h = (scope_covers_iff (render p) (render q)).1 (inr (segments_extend.1 h))

root_or_IsBelow : (p : Place) → (p ≡ everywhere) ⊎ IsBelow p
root_or_IsBelow everywhere = inl refl
root_or_IsBelow (in_tenant t) = inr tt
root_or_IsBelow (in_toolset t s) = inr tt
root_or_IsBelow (at_tool t s n) = inr tt

covers_root :
    (p : Place) → IsBelow p → scope_covers (render p) (render everywhere) ≡ within p everywhere
unfolding within is_prefix render
covers_root everywhere bp = absurd bp
covers_root p bp =
    Bool_ext _ _ (λ h. absurd (render-ne-global p bp (scope_covers_global (render p) h)))
      (λ h. ground arith)

covered_by_root : (q : Place) → scope_covers (render everywhere) (render q) ≡ within everywhere q
unfolding render within is_prefix
covered_by_root q = (scope_covers_iff global_scope (render q)).1 (inl refl)

-- The coverage test on the strings of two places is the order of the hierarchy: a tenant's scope
-- covers its toolsets and their tools, and no other tenant's.
pub scope_covers-render :
    (p q : Place) → IsPlace p → IsPlace q → scope_covers (render p) (render q) ≡ within p q
scope_covers-render p q vp vq = elim (root_or_IsBelow p) [
  | inl e ↦ rw e (covered_by_root q)
  | inr bp ↦ elim (root_or_IsBelow q) [
    | inl e ↦ rw e (covers_root p bp)
    | inr bq ↦ covers_below p q bp bq vp vq
  ]
]
