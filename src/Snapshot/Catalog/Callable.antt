-- ===== src/Snapshot/Catalog/Callable.antt =====
-- What a principal may call under a name is the tool that the name resolves to.
use mcpdoll.Base.{
  Str, Bool, true, false, ◌&&◌, ◌||◌, Option, none, some, List, [], ◌∷◌, ◌++◌, append_assoc,
  append-nil, ◌≡◌, refl, sym, ap, ◌∙◌, subst, arith, if◌then◌else◌, str_eq, str_eq_iff, map, any,
  keep, ok, Bool-cases, inl, inr,
}
use mcpdoll.Base.Dict.{Dict, lookup, insert, lookup-insert, str_key}
use mcpdoll.Base.Distinct.{distinct, distinct_around}
use mcpdoll.Authz.Roles.{tool_list, tool_call}
use mcpdoll.Authz.Engine.{Decider}
use mcpdoll.Proto.Snapshot.{Tenant, Snapshot, Principal}
use mcpdoll.Snapshot.View.{Tool, scope, View, build, tools_for}
use mcpdoll.Snapshot.View.Unique.{qualified_names, build-distinct}
use mcpdoll.Snapshot.Catalog.{
  display_name, Draft, empty_draft, list_tool, add_tools, view_of_draft, compose_principal,
  tool_named, is_callable,
}
use mcpdoll.Snapshot.Catalog.Listed.{
  candidates, add_tenants-candidates, add_tool-listed, add_tool-unlisted, listed, keep_yes, keep_no,
}

abbrev calls : Dict Str Bool → Str → Bool
calls m name = elim (lookup name m) [ none ↦ false | some b ↦ b ]

calls-insert :
    (n name : Str) (m : Dict Str Bool)
    → calls (insert n true m) name ≡ (str_eq n name || calls m name)
calls-insert n name m =
    ap (λ (o : Option Bool). elim o [ none ↦ false | some b ↦ b ]) (lookup-insert n name true m)
    ∙ at (str_eq n name)
  where
    at :
        (b : Bool)
        → (elim (if b then some true else lookup name m) [ none ↦ false | some b ↦ b ])
          ≡ (b || calls m name)
    at true = refl
    at false = refl

-- The tool of a name may be listed and called.
abbrev Resolves : Decider → Dict Str Tool → Str → Type 0
Resolves decide m name =
    (t : Tool) × (lookup name m ≡ some t)
    × (decide tool_list (scope t) ≡ true)
    × (decide tool_call (scope t) ≡ true)

abbrev IsSound : Decider → Draft → Type 0
IsSound decide d =
    (name : Str)
    → calls d.callable name ≡ true
    → (any (λ x. str_eq x name) d.names ≡ true) × Resolves decide d.by_name name

any-snoc :
    (name : Str) (xs : List Str) (x : Str)
    → any (λ y. str_eq y name) (xs ++ x ∷ []) ≡ (any (λ y. str_eq y name) xs || str_eq x name)
unfolding any
any-snoc name [] x = ground arith
any-snoc name (y ∷ xs) x = ground (arith, any-snoc name xs x)

calls-listed :
    (c : Bool) (n name : Str) (m : Dict Str Bool)
    → calls (if c then insert n true m else m) name ≡ ((c && str_eq n name) || calls m name)
calls-listed true n name m = calls-insert n name m
calls-listed false n name m = refl

module _ (decide : Decider) (spanning : Bool) where
  list_tool-IsSound :
      (t : Tool) (d : Draft)
      → decide tool_list (scope t) ≡ true
      → any (λ x. str_eq x (display_name spanning t)) d.names ≡ false
      → IsSound decide d
      → IsSound decide (list_tool decide spanning t d)
  list_tool-IsSound t d l fresh sound name h =
      at (str_eq n name) refl
        (sym (calls-listed (decide tool_call (scope t)) n name d.callable) ∙ h)
    where
      n : Str
      n = display_name spanning t

      here : str_eq n name ≡ true → calls d.callable name ≡ true → ⊥
      here e k =
          let a = (sound name k).0 in
          let b =
            subst (λ z. any (λ x. str_eq x z) d.names ≡ false) ((str_eq_iff n name).0 e) fresh in
          ground arith

      at :
          (b : Bool)
          → str_eq n name ≡ b
          → ((decide tool_call (scope t) && b) || calls d.callable name) ≡ true
          → (any (λ x. str_eq x name) (d.names ++ n ∷ []) ≡ true)
            × Resolves decide (insert n t d.by_name) name
      at true e k = (
        any-snoc name d.names n ∙ ground arith,
        (
          t,
          lookup-insert n name t d.by_name
              ∙ ap (λ b. if b then some t else lookup name d.by_name) e,
          l,
          ground (arith, here e),
        ),
      )
      at false e k =
          let (a, (x, q, y, z)) = sound name (ground arith) in
          (
            any-snoc name d.names n ∙ ground arith,
            (
              x,
              lookup-insert n name t d.by_name
                  ∙ ap (λ b. if b then some t else lookup name d.by_name) e
                  ∙ q,
              y,
              z,
            ),
          )

  abbrev pub shown : List Tool → List Str
  shown ts = map (display_name spanning) (listed decide spanning ts)

  add_tools-IsSound :
      (ts : List Tool) (d : Draft)
      → distinct (d.names ++ shown ts) ≡ true
      → IsSound decide d
      → IsSound decide (add_tools decide spanning ts d)
  unfolding add_tools
  add_tools-IsSound [] d u sound = sound
  add_tools-IsSound (t ∷ ts) d u sound = elim (Bool-cases (decide tool_list (scope t))) [
    | inl e ↦
        let u' =
          subst (λ l. distinct (d.names ++ map (display_name spanning) l) ≡ true)
            (keep_yes decide spanning t ts e) u in
        subst (λ z. IsSound decide (add_tools decide spanning ts z))
          (sym (add_tool-listed decide spanning t d e))
          (add_tools-IsSound ts (list_tool decide spanning t d)
            (ap distinct (append_assoc d.names (display_name spanning t ∷ []) (shown ts)) ∙ u')
            (list_tool-IsSound t d e
              (distinct_around d.names (display_name spanning t) (shown ts) u').0 sound))
    | inr e ↦
        subst (λ z. IsSound decide (add_tools decide spanning ts z))
          (sym (add_tool-unlisted decide spanning t d e))
          (add_tools-IsSound ts d
            (subst (λ l. distinct (d.names ++ map (display_name spanning) l) ≡ true)
              (keep_no decide spanning t ts e) u)
            sound)
  ]

-- Keeping some of the tools keeps their names apart.
any-listed :
    (decide : Decider) (name : Str) (ts : List Tool)
    → any (str_eq name) (qualified_names ts) ≡ false
    → any (str_eq name) (qualified_names (listed decide false ts)) ≡ false
unfolding any keep
any-listed decide name [] h = refl
any-listed decide name (t ∷ ts) h =
    at (decide tool_list (scope t)) (any-listed decide name ts (ground arith))
  where
    at :
        (b : Bool)
        → any (str_eq name) (qualified_names (listed decide false ts)) ≡ false
        → any
            (str_eq name)
            (qualified_names (if b then t ∷ listed decide false ts else listed decide false ts))
          ≡ false
    at true r = ground arith
    at false r = r

distinct-listed :
    (decide : Decider) (ts : List Tool)
    → distinct (qualified_names ts) ≡ true
    → distinct (qualified_names (listed decide false ts)) ≡ true
unfolding distinct keep
distinct-listed decide [] h = refl
distinct-listed decide (t ∷ ts) h =
    at (decide tool_list (scope t)) (distinct-listed decide ts (ground arith))
      (any-listed decide t.def.qualified_name ts (ground arith))
  where
    at :
        (b : Bool)
        → distinct (qualified_names (listed decide false ts)) ≡ true
        → any (str_eq t.def.qualified_name) (qualified_names (listed decide false ts)) ≡ false
        → distinct
            (qualified_names (if b then t ∷ listed decide false ts else listed decide false ts))
          ≡ true
    at true r a = ground arith
    at false r a = r

shown-qualified :
    (decide : Decider) (ts : List Tool)
    → shown decide false ts ≡ qualified_names (listed decide false ts)
unfolding display_name
shown-qualified decide ts = refl

-- Where the names shown are distinct, what may be called under a name resolves to a tool that the
-- decider lets the principal list and call.
pub compose_principal-Resolves :
    (v : View) (p : Principal) (tenants : List Tenant) (spanning : Bool) (decide : Decider)
    (name : Str)
    → distinct (shown decide spanning (candidates v tenants)) ≡ true
    → is_callable (compose_principal v p tenants spanning decide) name ≡ true
    → Resolves decide (compose_principal v p tenants spanning decide).by_name name
unfolding compose_principal view_of_draft is_callable lookup
compose_principal-Resolves v p tenants spanning decide name u h =
    (subst (λ (d : Draft). IsSound decide d)
      (sym (add_tenants-candidates decide spanning v tenants empty_draft))
      (add_tools-IsSound decide spanning (candidates v tenants) empty_draft u
        (λ n k. absurd (nothing n k)))
      name h).1
  where
    nothing : (n : Str) → calls [] n ≡ true → ⊥
    nothing n k = cc

-- In the catalog of a principal of one tenant, over a built view, what may be called under a name
-- resolves under that name to one tool, which the principal's grants let it list and call.
pub compose_principal-callable :
    (snap : Snapshot) (v : View) (p : Principal) (t : Tenant) (decide : Decider) (name : Str)
    → build snap ≡ ok v
    → is_callable (compose_principal v p (t ∷ []) false decide) name ≡ true
    → (tool : Tool) × (tool_named (compose_principal v p (t ∷ []) false decide) name ≡ some tool)
      × (decide tool_list (scope tool) ≡ true)
      × (decide tool_call (scope tool) ≡ true)
unfolding tool_named candidates
compose_principal-callable snap v p t decide name b h =
    compose_principal-Resolves v p (t ∷ []) false decide name
      (ap distinct (shown-qualified decide (candidates v (t ∷ [])))
        ∙ distinct-listed decide (candidates v (t ∷ [])) (
            ap (λ l. distinct (qualified_names l)) (append-nil (tools_for v t.id))
            ∙ build-distinct snap v t.id b))
      h
