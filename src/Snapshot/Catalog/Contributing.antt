-- ===== src/Snapshot/Catalog/Contributing.antt =====
-- The toolsets that contribute to a catalog: those of its tools, under their ids.
use mcpdoll.Base.{
  Str, Bool, true, false, some, List, [], ◌∷◌, ◌≡◌, refl, sym, ap, ◌∙◌, subst, Bool-cases, str_eq,
  str_eq_iff, ok, Yields, unless-Yields, Memᴰ, inl, inr, mem_of_mem-append, mem_single,
}
use mcpdoll.Base.Dict.{Dict, lookup, insert, lookup-insert, str_key}
use mcpdoll.Authz.Roles.{tool_list}
use mcpdoll.Authz.Engine.{Decider}
use mcpdoll.Proto.Snapshot.{Tenant, Toolset, Snapshot}
use mcpdoll.Snapshot.View.{
  Tool, scope, View, toolset_twice, has, index_toolsets, tools_for, view_of, build,
}
use mcpdoll.Snapshot.View.Resolved.{build-Stages, build-IsTool}
use mcpdoll.Snapshot.View.Tenants.{index_tables-parts}
use mcpdoll.Snapshot.Catalog.{Draft, list_tool, add_tool, add_tools}
use mcpdoll.Snapshot.Catalog.Listed.{candidates, add_tool-listed, add_tool-unlisted}

-- A table of toolsets by their ids.
abbrev ById : Dict Str Toolset → Type 0
ById m = (k : Str) (t : Toolset) → lookup k m ≡ some t → t.id ≡ k

ById-insert : (t : Toolset) (m : Dict Str Toolset) → ById m → ById (insert t.id t m)
ById-insert t m h k x e = elim (Bool-cases (str_eq t.id k)) [
  | inl f ↦ here f (rw f at (sym (lookup-insert t.id k t m) ∙ e))
  | inr f ↦ h k x (rw f at (sym (lookup-insert t.id k t m) ∙ e))
]
  where
    here : str_eq t.id k ≡ true → some t ≡ some x → x.id ≡ k
    here f q =
        let same : t ≡ x = cc in ap (λ (z : Toolset). z.id) (sym same) ∙ (str_eq_iff t.id k).0 f

index_toolsets-ById :
    (ts : List Toolset) (m out : Dict Str Toolset)
    → ById m
    → Yields (index_toolsets ts m) out
    → ById out
unfolding index_toolsets
index_toolsets-ById [] m out h y = let e : m ≡ out = cc in subst (λ z. ById z) e h
index_toolsets-ById (t ∷ ts) m out h y =
    let (_, y') =
      unless-Yields (has t.id m) (toolset_twice t.id) (index_toolsets ts (insert t.id t m)) y in
    index_toolsets-ById ts (insert t.id t m) out (ById-insert t m h) y'

view-ById : (snap : Snapshot) (v : View) → build snap ≡ ok v → ById v.toolsets
unfolding view_of lookup
view-ById snap v b =
    let st = build-Stages snap v b in
    subst (λ (z : View). ById z.toolsets) (sym st.made)
      (index_toolsets-ById snap.toolsets [] st.tables.toolsets (λ k t e. cc)
        (index_tables-parts snap st.tables st.slugs st.indexed).1)

-- The toolset of a tool is the view's of that id.
abbrev pub IsFound : View → Tool → Type 0
IsFound v t = lookup t.toolset.id v.toolsets ≡ some t.toolset

pub candidates-IsFound :
    (snap : Snapshot) (v : View) (ts : List Tenant) {t : Tool}
    → build snap ≡ ok v
    → Memᴰ t (candidates v ts)
    → IsFound v t
unfolding candidates
candidates-IsFound snap v [] b m = elim m [ ]
candidates-IsFound snap v (u ∷ us) {t} b m =
    elim (mem_of_mem-append (tools_for v u.id) (candidates v us) m) [
      | inl n ↦
          let found = (build-IsTool snap v u.id t b n).toolset_found in
          let id = view-ById snap v b t.def.toolset_id t.toolset found in
          ap (λ k. lookup k v.toolsets) id ∙ found
      | inr n ↦ candidates-IsFound snap v us b n
    ]

-- Every tool of the draft has its toolset among the contributing ones.
abbrev IsFilled : View → Draft → Type 0
IsFilled v d =
    (x : Tool)
    → Memᴰ x d.tools
    → IsFound v x × (lookup x.toolset.id d.contributing ≡ some x.toolset)

module _ (decide : Decider) (spanning : Bool) (v : View) where
  list_tool-IsFilled :
      (t : Tool) (d : Draft)
      → IsFound v t
      → IsFilled v d
      → IsFilled v (list_tool decide spanning t d)
  list_tool-IsFilled t d f h x m = (
    found,
    lookup-insert t.toolset.id x.toolset.id t.toolset d.contributing
        ∙ elim (Bool-cases (str_eq t.toolset.id x.toolset.id)) [
          | inl e ↦ rw e (
              sym f
              ∙ ap (λ k. lookup k v.toolsets) ((str_eq_iff t.toolset.id x.toolset.id).0 e)
              ∙ found)
          | inr e ↦ rw e (older e)
        ],
  )
    where
      found : IsFound v x
      found = elim (mem_of_mem-append d.tools (t ∷ []) m) [
        | inl n ↦ (h x n).0
        | inr n ↦ subst (λ z. IsFound v z) (sym (mem_single n)) f
      ]

      older :
          str_eq t.toolset.id x.toolset.id ≡ false
          → lookup x.toolset.id d.contributing ≡ some x.toolset
      older e = elim (mem_of_mem-append d.tools (t ∷ []) m) [
        | inl n ↦ (h x n).1
        | inr n ↦
            let same = ap (λ (z : Tool). z.toolset.id) (mem_single n) in
            absurd (cc (sym e, (str_eq_iff t.toolset.id x.toolset.id).1 (sym same)))
      ]

  pub add_tools-IsFilled :
      (ts : List Tool) (d : Draft)
      → ((t : Tool) → Memᴰ t ts → IsFound v t)
      → IsFilled v d
      → IsFilled v (add_tools decide spanning ts d)
  unfolding add_tools
  add_tools-IsFilled [] d f h = h
  add_tools-IsFilled (t ∷ ts) d f h =
      add_tools-IsFilled ts (add_tool decide spanning t d) (λ x m. f x (Memᴰ.tail m))
        (elim (Bool-cases (decide tool_list (scope t))) [
          | inl e ↦
              subst (λ z. IsFilled v z) (sym (add_tool-listed decide spanning t d e))
                (list_tool-IsFilled t d (f t (Memᴰ.head refl)) h)
          | inr e ↦ subst (λ z. IsFilled v z) (sym (add_tool-unlisted decide spanning t d e)) h
        ])
