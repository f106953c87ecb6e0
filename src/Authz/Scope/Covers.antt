-- ===== src/Authz/Scope/Covers.antt =====
-- What the coverage test of `ScopeCovers` means: a scope covers itself and what lies below it, and
-- the global scope covers everything. Coverage is an order.
use mcpdoll.Base.{
  Str, true, false, some, [], ◌∷◌, ◌++◌, append_assoc, ◌≡◌, refl, ap, sym, ◌∙◌, ◌↔◌, ◌⊎◌, inl, inr,
  arith, str_eq, str_eq_iff, has_prefix, has_prefix-append, has_prefix_split, subst, drop_bytes,
  length, length-append, byte_at, Bool-cases,
}
use mcpdoll.Authz.Scope.{scope_covers, global_scope}
use mcpdoll.Authz.Scope.Segments.{Extends}

byte_at-append : (g s : Str) → byte_at (g ++ s) (length g) ≡ byte_at s 0
unfolding byte_at
byte_at-append [] s = refl
byte_at-append (a ∷ g) s = byte_at-append g s

below : (g : Str) (rest : Str) → scope_covers g (g ++ b'/' ∷ rest) ≡ true
unfolding scope_covers byte_at
below g rest = ground (
  arith,
  has_prefix-append g (b'/' ∷ rest),
  byte_at-append g (b'/' ∷ rest),
  length-append g (b'/' ∷ rest),
)

not_below : (g s : Str) → byte_at (g ++ s) (length g) ≡ some b'/' → (rest : Str) × (s ≡ b'/' ∷ rest)
unfolding byte_at
not_below [] [] h = cc
not_below [] (c ∷ s) h = (s, ground arith)
not_below (a ∷ g) s h = not_below g s h

-- A grant that passes the test by prefix and separator is an ancestor.
ancestor :
    (g r : Str)
    → has_prefix g r ≡ true
    → byte_at r (length g) ≡ some b'/'
    → (rest : Str) × (r ≡ g ++ b'/' ∷ rest)
ancestor g r p q =
    let e = has_prefix_split g r p in
    let (rest, f) =
      not_below g (drop_bytes g r) (subst (λ s. byte_at s (length g) ≡ some b'/') e q) in
    (rest, e ∙ ap (λ s. g ++ s) f)

tests_passed :
    (g r : Str)
    → str_eq g global_scope ≡ false
    → str_eq g r ≡ false
    → scope_covers g r ≡ true
    → (has_prefix g r ≡ true) × (byte_at r (length g) ≡ some b'/')
unfolding scope_covers
tests_passed g r p q h = ground arith

covered_from : (g r : Str) → (g ≡ global_scope) ⊎ Extends g r → scope_covers g r ≡ true
unfolding scope_covers
covered_from g r (inl e) = ground (arith, str_eq_iff g global_scope)
covered_from g r (inr (inl e)) = ground (arith, str_eq_iff g r)
covered_from g r (inr (inr (rest, e))) = rw e (below g rest)

-- A grant covers a request exactly when it is the global scope, is the request itself, or is the
-- request up to a separator.
pub scope_covers_iff :
    (grant request : Str)
    → (scope_covers grant request ≡ true) ↔ ((grant ≡ global_scope) ⊎ Extends grant request)
scope_covers_iff g r = (covered_to, covered_from g r)
  where
    covered_to : scope_covers g r ≡ true → (g ≡ global_scope) ⊎ Extends g r
    covered_to h = elim (Bool-cases (str_eq g global_scope)) [
      | inl e ↦ inl ((str_eq_iff g global_scope).0 e)
      | inr e ↦ elim (Bool-cases (str_eq g r)) [
        | inl f ↦ inr (inl ((str_eq_iff g r).0 f))
        | inr f ↦ let (a, b) = tests_passed g r e f h in inr (inr (ancestor g r a b))
      ]
    ]

-- Nothing but the global scope covers the global scope.
pub scope_covers_global : (g : Str) → scope_covers g global_scope ≡ true → g ≡ global_scope
unfolding scope_covers str_eq has_prefix byte_at
scope_covers_global [] h = ground arith
scope_covers_global (a ∷ []) h = ground (arith, str_eq_iff (a ∷ []) global_scope)
scope_covers_global (a ∷ b ∷ g) h = ground (arith, str_eq_iff (a ∷ b ∷ g) global_scope)

Extends-trans : (a b c : Str) → Extends a b → Extends b c → Extends a c
Extends-trans a b c (inl e) h = rw e h
Extends-trans a b c (inr (x, e)) (inl f) = inr (x, sym f ∙ e)
Extends-trans a b c (inr (x, e)) (inr (y, f)) =
    inr (x ++ b'/' ∷ y, rw (f, e) (append_assoc a (b'/' ∷ x) (b'/' ∷ y)))

-- Coverage is transitive: what a scope covers covers no more than the scope does.
pub scope_covers_trans :
    (a b c : Str) → scope_covers a b ≡ true → scope_covers b c ≡ true → scope_covers a c ≡ true
scope_covers_trans a b c p q =
    (scope_covers_iff a c).1 (chain ((scope_covers_iff a b).0 p) ((scope_covers_iff b c).0 q))
  where
    chain :
        (a ≡ global_scope) ⊎ Extends a b
        → (b ≡ global_scope) ⊎ Extends b c
        → (a ≡ global_scope) ⊎ Extends a c
    chain (inl e) h = inl e
    chain (inr e) (inl f) = inl (scope_covers_global a (rw f at p))
    chain (inr e) (inr f) = inr (Extends-trans a b c e f)

pub scope_covers_refl : (a : Str) → scope_covers a a ≡ true
scope_covers_refl a = (scope_covers_iff a a).1 (inr (inl refl))

-- Two scopes that cover one another are the same scope.
pub scope_covers_antisymm : (a b : Str) → scope_covers a b ≡ true → scope_covers b a ≡ true → a ≡ b
unfolding scope_covers
scope_covers_antisymm a b p q = ground (
  arith,
  str_eq_iff a global_scope,
  str_eq_iff b global_scope,
  str_eq_iff a b,
  str_eq_iff b a,
  scope_covers_global a,
  scope_covers_global b,
)
