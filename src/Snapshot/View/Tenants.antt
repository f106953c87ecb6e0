-- ===== src/Snapshot/View/Tenants.antt =====
-- The tables of tenants of a built view: by id and by slug.
use mcpdoll.Base.{
  Str, Bool, true, false, ◌||◌, ◌==◌, some, List, [], ◌∷◌, ◌≡◌, refl, sym, ap, ◌∙◌, subst,
  if◌then◌else◌, str_eq, str_eq_iff, Result, ok, ◌>>=◌, >>=-Yields, Yields, unless, unless-Yields,
  ◌⊎◌, inl, inr, Memᴰ,
}
use mcpdoll.Base.Dict.{Dict, lookup, insert, str_key}
use mcpdoll.Authz.Scope.{is_empty}
use mcpdoll.Proto.Snapshot.{Tenant, Namespace, Toolset, Server, Snapshot}
use mcpdoll.Snapshot.View.{
  BuildError, View, Tables, bad_version, no_tenant_name, tenant_id_twice, tenant_slug_twice, has,
  index_tenants, index_namespaces, index_toolsets, index_servers, check_conflicts, index_tables,
  view_of, build,
}
use mcpdoll.Snapshot.View.Resolved.{build-Stages}

-- What is found in a map is in it, and what is in a map after an insertion was in it or is new.
pub lookup-Mem :
    {V : Type 0} → (k : Str) (m : Dict Str V) {t : V} → lookup k m ≡ some t → Memᴰ (k, t) m
unfolding lookup
lookup-Mem k [] h = cc
lookup-Mem k ((j, w) ∷ m) {t} h = at (str_eq j k) refl h (λ g. lookup-Mem k m g)
  where
    at :
        (b : Bool)
        → str_eq j k ≡ b
        → (if b then some w else lookup k m) ≡ some t
        → (lookup k m ≡ some t → Memᴰ (k, t) m)
        → Memᴰ (k, t) ((j, w) ∷ m)
    at true e h ih = let f : t ≡ w = cc in Memᴰ.head (λ i. (sym ((str_eq_iff j k).0 e) i, f i))
    at false e h ih = Memᴰ.tail (ih h)

pub mem_of_mem-insert :
    (k : Str) (v : Tenant) (m : Dict Str Tenant) {x : Str × Tenant}
    → Memᴰ x (insert k v m)
    → (x ≡ (k, v)) ⊎ Memᴰ x m
unfolding insert
mem_of_mem-insert k v [] (Memᴰ.head e) = inl e
mem_of_mem-insert k v [] (Memᴰ.tail n) = elim n [ ]
mem_of_mem-insert k v ((j, w) ∷ m) {x} n = at (str_eq j k) n (λ q. mem_of_mem-insert k v m q)
  where
    at :
        (b : Bool)
        → Memᴰ x (if b then (k, v) ∷ m else (j, w) ∷ insert k v m)
        → (Memᴰ x (insert k v m) → (x ≡ (k, v)) ⊎ Memᴰ x m)
        → (x ≡ (k, v)) ⊎ Memᴰ x ((j, w) ∷ m)
    at true (Memᴰ.head e) ih = inl e
    at true (Memᴰ.tail q) ih = inr (Memᴰ.tail q)
    at false (Memᴰ.head e) ih = inr (Memᴰ.head e)
    at false (Memᴰ.tail q) ih = elim (ih q) [ inl e ↦ inl e | inr r ↦ inr (Memᴰ.tail r) ]

-- The entries are tenants of the list, under a key that the second argument gives.
abbrev pub AllOf : (Tenant → Str) → List Tenant → Dict Str Tenant → Type 0
AllOf key ts m = (k : Str) (t : Tenant) → Memᴰ (k, t) m → Memᴰ t ts × (key t ≡ k)

AllOf-insert :
    (key : Tenant → Str) (ts : List Tenant) (t : Tenant) (m : Dict Str Tenant)
    → Memᴰ t ts
    → AllOf key ts m
    → AllOf key ts (insert (key t) t m)
AllOf-insert key ts t m n a k x q = elim (mem_of_mem-insert (key t) t m q) [
  | inl e ↦
      let f = ap (λ (z : Str × Tenant). z.1) e in
      (subst (λ z. Memᴰ z ts) (sym f) n, ap key f ∙ ap (λ (z : Str × Tenant). z.0) (sym e))
  | inr r ↦ a k x r
]

index_tenants-AllOf :
    (all ts : List Tenant) (ids slugs : Dict Str Tenant) (out : Dict Str Tenant × Dict Str Tenant)
    → ((t : Tenant) → Memᴰ t ts → Memᴰ t all)
    → AllOf (λ t. t.id) all ids
    → AllOf (λ t. t.slug) all slugs
    → Yields (index_tenants ts ids slugs) out
    → AllOf (λ t. t.id) all out.0 × AllOf (λ t. t.slug) all out.1
unfolding index_tenants
index_tenants-AllOf all [] ids slugs out sub a b y =
    let e : ◌≡◌ {A = Dict Str Tenant × Dict Str Tenant} (ids, slugs) out = cc in
    subst
      (λ (z : Dict Str Tenant × Dict Str Tenant).
        AllOf (λ t. t.id) all z.0 × AllOf (λ t. t.slug) all z.1)
      e (a, b)
index_tenants-AllOf all (t ∷ ts) ids slugs out sub a b y =
    let rest = index_tenants ts (insert t.id t ids) (insert t.slug t slugs) in
    let (_, y1) =
      unless-Yields (is_empty t.id || is_empty t.slug) (no_tenant_name t.id)
        (unless (has t.id ids) (tenant_id_twice t.id)
          (unless (has t.slug slugs) (tenant_slug_twice t.slug) rest))
        y in
    let (_, y2) =
      unless-Yields (has t.id ids) (tenant_id_twice t.id)
        (unless (has t.slug slugs) (tenant_slug_twice t.slug) rest) y1 in
    let (_, y3) = unless-Yields (has t.slug slugs) (tenant_slug_twice t.slug) rest y2 in
    index_tenants-AllOf all ts (insert t.id t ids) (insert t.slug t slugs) out
      (λ x n. sub x (Memᴰ.tail n)) (AllOf-insert (λ t. t.id) all t ids (sub t (Memᴰ.head refl)) a)
      (AllOf-insert (λ t. t.slug) all t slugs (sub t (Memᴰ.head refl)) b) y3

pub index_tables-parts :
    (snap : Snapshot) (t : Tables) (slugs : Dict Str Tenant)
    → Yields (index_tables snap) (t, slugs)
    → Yields (index_tenants snap.tenants [] []) (t.tenants, slugs)
      × Yields (index_toolsets snap.toolsets []) t.toolsets
unfolding index_tables
index_tables-parts snap t slugs y =
    let conflicts : Dict Str Tenant × Dict Str Tenant
        → Dict Str Namespace
        → Dict Str Toolset
        → Dict Str Server
        → Result BuildError (Tables × Dict Str Tenant) =
      λ tenants namespaces toolsets servers. check_conflicts snap.plugins [] >>= λ _. ok (
        record {
          tenants = tenants.0;
          namespaces = namespaces;
          toolsets = toolsets;
          servers = servers;
        },
        tenants.1,
      ) in
    let with_toolsets : Dict Str Tenant × Dict Str Tenant
        → Dict Str Namespace
        → Dict Str Toolset
        → Result BuildError (Tables × Dict Str Tenant) =
      λ tenants namespaces toolsets.
        index_servers namespaces tenants.0 snap.servers []
        >>= conflicts tenants namespaces toolsets in
    let with_namespaces : Dict Str Tenant × Dict Str Tenant
        → Dict Str Namespace
        → Result BuildError (Tables × Dict Str Tenant) =
      λ tenants namespaces. index_toolsets snap.toolsets [] >>= with_toolsets tenants namespaces in
    let with_tenants : Dict Str Tenant × Dict Str Tenant
        → Result BuildError (Tables × Dict Str Tenant) =
      λ tenants. index_namespaces snap.namespaces [] [] >>= with_namespaces tenants in
    let (_, y1) =
      unless-Yields (snap.version == 0) bad_version
        (index_tenants snap.tenants [] [] >>= with_tenants) y in
    let (tenants, a, y2) = >>=-Yields with_tenants (index_tenants snap.tenants [] []) y1 in
    let (namespaces, b, y3) =
      >>=-Yields (with_namespaces tenants) (index_namespaces snap.namespaces [] []) y2 in
    let (toolsets, c, y4) =
      >>=-Yields (with_toolsets tenants namespaces) (index_toolsets snap.toolsets []) y3 in
    let (servers, d, y5) =
      >>=-Yields (conflicts tenants namespaces toolsets)
        (index_servers namespaces tenants.0 snap.servers []) y4 in
    let made : Tables × Dict Str Tenant = (
      record {
        tenants = tenants.0;
        namespaces = namespaces;
        toolsets = toolsets;
        servers = servers;
      },
      tenants.1,
    ) in
    let (_, e, y6) = >>=-Yields (λ (_ : Unit {0}). ok made) (check_conflicts snap.plugins []) y5 in
    let f : made ≡ (t, slugs) = cc in
    (
      a ∙ ap (λ (z : Tables × Dict Str Tenant). ok (z.0.tenants, z.1)) {x = made} f,
      c ∙ ap (λ (z : Tables × Dict Str Tenant). ok z.0.toolsets) {x = made} f,
    )

-- The tenants of a built view are those of its snapshot.
pub view-AllOf :
    (snap : Snapshot) (v : View)
    → build snap ≡ ok v
    → AllOf (λ t. t.id) snap.tenants v.tenants × AllOf (λ t. t.slug) snap.tenants v.tenants_by_slug
unfolding view_of
view-AllOf snap v b =
    let st = build-Stages snap v b in
    subst
      (λ (z : View).
        AllOf (λ t. t.id) snap.tenants z.tenants
        × AllOf (λ t. t.slug) snap.tenants z.tenants_by_slug)
      (sym st.made)
      (index_tenants-AllOf snap.tenants snap.tenants [] [] (st.tables.tenants, st.slugs) (λ t n. n)
        (λ k t n. elim n [ ]) (λ k t n. elim n [ ])
        (index_tables-parts snap st.tables st.slugs st.indexed).0)
