-- ===== src/Authz/Engine/Decide.antt =====
-- The compiled decider against its specification: a request is allowed exactly when some grant
-- has a role with the permission, at a scope that covers the request.
use mcpdoll.Base.{
  Str, Bool, true, false, ◌||◌, ◌&&◌, List, [], ◌∷◌, ◌++◌, ◌≡◌, refl, sym, ◌∙◌, arith, inl, inr,
  if◌then◌else◌, str_eq, str_eq_iff, any, Bool-cases, Option-cases,
}
use mcpdoll.Base.Dict.{lookup, insert, lookup-insert, str_key}
use mcpdoll.Authz.Scope.{scope_covers}
use mcpdoll.Authz.Roles.{Permission, Catalog, Grant, perms_of, has_permission}
use mcpdoll.Authz.Engine.{
  Decider, Index, append_unique, scopes_at, add_permissions, add_grant, compile, is_nil, prepare,
}

-- One grant allows one request.
unfoldable pub permits : Catalog → Permission → Str → Grant → Bool
permits c p request g = has_permission p (perms_of c g.role) && scope_covers g.scope request

-- The specification of a decider.
unfoldable pub allowed : Catalog → List Grant → Decider
unfolding permits
allowed c gs p request = any (permits c p request) gs

-- What an index allows.
abbrev answers : Index → Decider
answers m p request = any (λ granted. scope_covers granted request) (scopes_at p m)

any-append {ℓ} :
    {A : Type ℓ} (f : A → Bool) (xs ys : List A) → any f (xs ++ ys) ≡ (any f xs || any f ys)
unfolding any
any-append f [] ys = refl
any-append f (x ∷ xs) ys = ground (arith, any-append f xs ys)

-- A scope that stands in the list adds nothing to what the list covers.
any-present :
    (f : Str → Bool) (s : Str) (xs : List Str)
    → any (λ x. str_eq x s) xs ≡ true
    → f s ≡ true
    → any f xs ≡ true
unfolding any
any-present f s [] h k = cc
any-present f s (x ∷ xs) h k = ground (arith, str_eq_iff x s, any-present f s xs)

any-append_unique :
    (f : Str → Bool) (s : Str) (xs : List Str) → any f (append_unique xs s) ≡ (any f xs || f s)
unfolding append_unique any
any-append_unique f s xs = ground (arith, any-append f xs (s ∷ []), any-present f s xs)

scopes_at-insert :
    (q p : Permission) (v : List Str) (m : Index)
    → scopes_at q (insert p v m) ≡ (if str_eq p q then v else scopes_at q m)
unfolding scopes_at
scopes_at-insert q p v m = ground (arith, lookup-insert p q v m)

-- One permission at one scope.
answers-insert :
    (q p : Permission) (s r : Str) (m : Index)
    → answers (insert p (append_unique (scopes_at p m) s) m) q r
      ≡ (answers m q r || (str_eq p q && scope_covers s r))
answers-insert q p s r m = elim (Bool-cases (str_eq p q)) [
  | inl e ↦
      rw
        (
          scopes_at-insert q p (append_unique (scopes_at p m) s) m,
          e,
          any-append_unique (λ g. scope_covers g r) s (scopes_at p m),
          (str_eq_iff p q).0 e,
        )
        refl
  | inr e ↦ rw (scopes_at-insert q p (append_unique (scopes_at p m) s) m, e) (ground arith)
]

answers-add_permissions :
    (q : Permission) (ps : List Permission) (s r : Str) (m : Index)
    → answers (add_permissions ps s m) q r
      ≡ (answers m q r || (has_permission q ps && scope_covers s r))
unfolding add_permissions has_permission any
answers-add_permissions q [] s r m = ground arith
answers-add_permissions q (p ∷ ps) s r m =
    answers-add_permissions q ps s r (insert p (append_unique (scopes_at p m) s) m)
    ∙ ground (arith, answers-insert q p s r m)

answers-add_grant :
    (c : Catalog) (g : Grant) (q : Permission) (r : Str) (m : Index)
    → answers (add_grant c g m) q r ≡ (answers m q r || permits c q r g)
unfolding add_grant permits perms_of has_permission any
answers-add_grant c g q r m = elim (Option-cases (lookup g.role c)) [
  | inl e ↦ rw (e, add_grant, perms_of) (ground arith)
  | inr (ps, e) ↦ rw (e, add_grant, perms_of) (answers-add_permissions q ps g.scope r m)
]

answers-compile :
    (c : Catalog) (gs : List Grant) (q : Permission) (r : Str) (m : Index)
    → answers (compile c gs m) q r ≡ (answers m q r || allowed c gs q r)
unfolding compile allowed any
answers-compile c [] q r m = ground arith
answers-compile c (g ∷ gs) q r m =
    answers-compile c gs q r (add_grant c g m) ∙ ground (arith, answers-add_grant c g q r m)

answers-nil : (m : Index) (q : Permission) (r : Str) → is_nil m ≡ true → answers m q r ≡ false
unfolding is_nil scopes_at any lookup
answers-nil [] q r h = refl
answers-nil (x ∷ m) q r h = cc

-- The compiled decider allows a request exactly when some grant's role has the permission in the
-- catalog and the grant's scope covers the request; a role that the catalog lacks allows nothing.
pub prepare-allowed :
    (gs : List Grant) (c : Catalog) (p : Permission) (r : Str) → prepare gs c p r ≡ allowed c gs p r
unfolding prepare allowed any scopes_at lookup
prepare-allowed gs c p r = elim (Bool-cases (is_nil (compile c gs []))) [
  | inl e ↦ rw e (sym (answers-nil (compile c gs []) p r e) ∙ answers-compile c gs p r [])
  | inr e ↦ rw e (answers-compile c gs p r [])
]
