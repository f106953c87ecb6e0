-- ===== src/Snapshot/Catalog/Listed.antt =====
-- A principal's catalog against the specification of its grants.
use mcpdoll.Base.{
  Bool, true, false, not, List, [], ◌∷◌, ◌++◌, append_assoc, append-nil, ◌≡◌, refl, sym, ap, ◌∙◌,
  keep, if◌then◌else◌, Bool-cases, inl, inr,
}
use mcpdoll.Authz.Roles.{tool_list}
use mcpdoll.Authz.Engine.{Decider}
use mcpdoll.Authz.Engine.Decide.{allowed, prepare-allowed}
use mcpdoll.Proto.Snapshot.{Tenant, Principal}
use mcpdoll.Snapshot.View.{Tool, scope, View, tools_for}
use mcpdoll.Snapshot.Principals.{Principals, decider}
use mcpdoll.Snapshot.Catalog.{
  Draft, empty_draft, list_tool, add_tool, add_tools, add_tenants, view_of_draft, compose_principal,
}

-- The admitted tools of the tenants, in order.
unfoldable pub candidates : View → List Tenant → List Tool
candidates v [] = []
candidates v (t ∷ ts) = tools_for v t.id ++ candidates v ts

module _ (decide : Decider) (spanning : Bool) where
  add_tools-append :
      (xs ys : List Tool) (d : Draft)
      → add_tools decide spanning (xs ++ ys) d
        ≡ add_tools decide spanning ys (add_tools decide spanning xs d)
  unfolding add_tools
  add_tools-append [] ys d = refl
  add_tools-append (x ∷ xs) ys d = add_tools-append xs ys (add_tool decide spanning x d)

  -- The loops over the tenants and their tools are one loop.
  pub add_tenants-candidates :
      (v : View) (ts : List Tenant) (d : Draft)
      → add_tenants decide spanning v ts d ≡ add_tools decide spanning (candidates v ts) d
  unfolding add_tenants candidates add_tools
  add_tenants-candidates v [] d = refl
  add_tenants-candidates v (t ∷ ts) d =
      add_tenants-candidates v ts (add_tools decide spanning (tools_for v t.id) d)
      ∙ sym (add_tools-append (tools_for v t.id) (candidates v ts) d)

  pub add_tool-listed :
      (t : Tool) (d : Draft)
      → decide tool_list (scope t) ≡ true
      → add_tool decide spanning t d ≡ list_tool decide spanning t d
  unfolding add_tool
  add_tool-listed t d e = ap (λ b. if not b then d else list_tool decide spanning t d) e

  pub add_tool-unlisted :
      (t : Tool) (d : Draft) → decide tool_list (scope t) ≡ false → add_tool decide spanning t d ≡ d
  unfolding add_tool
  add_tool-unlisted t d e = ap (λ b. if not b then d else list_tool decide spanning t d) e

  abbrev pub listed : List Tool → List Tool
  listed = keep (λ t. decide tool_list (scope t))

  pub keep_yes :
      (t : Tool) (ts : List Tool)
      → decide tool_list (scope t) ≡ true
      → listed (t ∷ ts) ≡ t ∷ listed ts
  unfolding keep
  keep_yes t ts e = ap (λ b. if b then t ∷ listed ts else listed ts) e

  pub keep_no :
      (t : Tool) (ts : List Tool) → decide tool_list (scope t) ≡ false → listed (t ∷ ts) ≡ listed ts
  unfolding keep
  keep_no t ts e = ap (λ b. if b then t ∷ listed ts else listed ts) e

  pub keep_none : [] ≡ listed []
  unfolding keep
  keep_none = refl

  pub tools-add_tools :
      (ts : List Tool) (d : Draft) → (add_tools decide spanning ts d).tools ≡ d.tools ++ listed ts
  unfolding add_tools
  tools-add_tools [] d = sym (append-nil d.tools) ∙ ap (λ l. d.tools ++ l) keep_none
  tools-add_tools (t ∷ ts) d = elim (Bool-cases (decide tool_list (scope t))) [
    | inl e ↦
        ap (λ z. (add_tools decide spanning ts z).tools) (add_tool-listed t d e)
        ∙ tools-add_tools ts (list_tool decide spanning t d)
        ∙ append_assoc d.tools (t ∷ []) (listed ts)
        ∙ ap (λ l. d.tools ++ l) (sym (keep_yes t ts e))
    | inr e ↦
        ap (λ z. (add_tools decide spanning ts z).tools) (add_tool-unlisted t d e)
        ∙ tools-add_tools ts d
        ∙ ap (λ l. d.tools ++ l) (sym (keep_no t ts e))
  ]

keep-ext :
    {A : Type 0} (f g : A → Bool) (xs : List A) → ((x : A) → f x ≡ g x) → keep f xs ≡ keep g xs
unfolding keep
keep-ext f g [] h = refl
keep-ext f g (x ∷ xs) h = rw (h x, keep-ext f g xs h) refl

-- A principal's catalog lists, of the tools admitted for its tenants and in their order, exactly
-- those at whose scope some grant's role has the permission to list tools.
pub compose_principal-allowed :
    (v : View) (ps : Principals) (p : Principal) (tenants : List Tenant) (spanning : Bool)
    → (compose_principal v p tenants spanning (decider ps p)).tools
      ≡ keep (λ t. allowed ps.catalog p.grants tool_list (scope t)) (candidates v tenants)
unfolding compose_principal view_of_draft decider
compose_principal-allowed v ps p tenants spanning =
    ap (λ (d : Draft). d.tools)
      (add_tenants-candidates (decider ps p) spanning v tenants empty_draft)
    ∙ tools-add_tools (decider ps p) spanning (candidates v tenants) empty_draft
    ∙ keep-ext (λ t. decider ps p tool_list (scope t))
        (λ t. allowed ps.catalog p.grants tool_list (scope t)) (candidates v tenants)
        (λ t. prepare-allowed p.grants ps.catalog tool_list (scope t))
