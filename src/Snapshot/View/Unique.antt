-- ===== src/Snapshot/View/Unique.antt =====
-- A tool call within a tenant is not ambiguous.
use mcpdoll.Base.{
  Str, Bool, true, false, not, ◌||◌, Option, none, some, List, [], ◌∷◌, ◌≡◌, refl, sym, ap, ◌∙◌,
  subst, arith, if◌then◌else◌, str_eq, ok, >>=-Yields, Yields, unless-Yields, any, all, map,
}
use mcpdoll.Base.Dict.{Dict, lookup, insert, lookup-insert, str_key}
use mcpdoll.Base.Distinct.{distinct}
use mcpdoll.Proto.Snapshot.{Snapshot}
use mcpdoll.Snapshot.View.{
  tool_twice, Tool, View, tools_of, has, sort_tools, check_names, check_all_names, view_of, build,
  tools_for,
}
use mcpdoll.Snapshot.View.Resolved.{build-Stages}

abbrev pub qualified_names : List Tool → List Str
qualified_names = map (λ t. t.def.qualified_name)

has-insert : (k j v : Str) (m : Dict Str Str) → has j (insert k v m) ≡ (str_eq k j || has j m)
has-insert k j v m =
    ap (λ (o : Option Str). elim o [ none ↦ false | some _ ↦ true ]) (lookup-insert k j v m)
    ∙ at (str_eq k j)
  where
    at :
        (b : Bool)
        → (elim (if b then some v else lookup j m) [ none ↦ false | some _ ↦ true ])
          ≡ (b || has j m)
    at true = refl
    at false = refl

-- What was seen before does not come again.
none_seen :
    (k v : Str) (names : List Str) (m : Dict Str Str)
    → all (λ n. not (has n (insert k v m))) names ≡ true
    → (any (str_eq k) names ≡ false) × (all (λ n. not (has n m)) names ≡ true)
unfolding any all
none_seen k v [] m h = (refl, refl)
none_seen k v (n ∷ names) m h =
    let (a, b) = none_seen k v names m (ground arith) in
    (ground (arith, has-insert k n v m), ground (arith, has-insert k n v m))

check_names-distinct :
    (ts : List Tool) (seen : Dict Str Str)
    → Yields (check_names ts seen) tt
    → (distinct (qualified_names ts) ≡ true)
      × (all (λ n. not (has n seen)) (qualified_names ts) ≡ true)
unfolding check_names distinct all
check_names-distinct [] seen y = (refl, refl)
check_names-distinct (t ∷ ts) seen y =
    let (h, y1) =
      unless-Yields (has t.def.qualified_name seen) (tool_twice t.def.qualified_name)
        (check_names ts (insert t.def.qualified_name t.toolset.name seen)) y in
    let (d, a) = check_names-distinct ts (insert t.def.qualified_name t.toolset.name seen) y1 in
    let (x, b) = none_seen t.def.qualified_name t.toolset.name (qualified_names ts) seen a in
    (ground arith, ground arith)

check_all_names-distinct :
    (m : Dict Str (List Tool)) (tenant : Str)
    → Yields (check_all_names m) tt
    → distinct (qualified_names (tools_of tenant m)) ≡ true
unfolding check_all_names lookup distinct
check_all_names-distinct [] tenant y = refl
check_all_names-distinct ((k, tools) ∷ m) tenant y =
    let (u, a, b) = >>=-Yields (λ (_ : Unit {0}). check_all_names m) (check_names tools []) y in
    at (str_eq k tenant) (check_names-distinct tools [] a).0 (check_all_names-distinct m tenant b)
  where
    at :
        (b : Bool)
        → distinct (qualified_names tools) ≡ true
        → distinct (qualified_names (tools_of tenant m)) ≡ true
        → distinct (
            qualified_names
              (elim (if b then some tools else lookup tenant m) [ none ↦ [] | some ts ↦ ts ]))
          ≡ true
    at true d e = d
    at false d e = e

-- In a built view no tenant has two tools of the same qualified name.
pub build-distinct :
    (snap : Snapshot) (v : View) (tenant : Str)
    → build snap ≡ ok v
    → distinct (qualified_names (tools_for v tenant)) ≡ true
unfolding view_of tools_for
build-distinct snap v tenant b =
    let st = build-Stages snap v b in
    subst (λ (z : View). distinct (qualified_names (tools_for z tenant)) ≡ true) (sym st.made)
      (check_all_names-distinct (sort_tools st.tools) tenant st.names_ok)
