-- ===== src/Snapshot/Catalog/Reached.antt =====
-- Which tenants the catalog of a principal that spans tenants is composed from.
use mcpdoll.Base.{
  Str, Bool, true, false, ◌||◌, none, some, List, [], ◌∷◌, ◌≡◌, refl, sym, ap, ◌∙◌, subst, arith,
  map, if◌then◌else◌, str_eq, str_eq_iff, Bool-cases, Option-cases, Result, ok, ◌>>=◌, >>=-Yields,
  Yields, or_fail, or_fail-Yields, inl, inr, Memᴰ,
}
use mcpdoll.Base.Dict.{Dict, lookup, insert, str_key}
use mcpdoll.Base.Sort.{mem_of_mem-sort}
use mcpdoll.Authz.Scope.{ParsedScope, parse_scope}
use mcpdoll.Authz.Roles.{Grant}
use mcpdoll.Authz.Engine.{any_reaches}
use mcpdoll.Proto.Snapshot.{Tenant, Snapshot, Principal}
use mcpdoll.Snapshot.View.{View, build}
use mcpdoll.Snapshot.Catalog.{
  TenantError, unparseable, reach_tenants, add_all, slug_le, by_slug, tenants_for,
}
use mcpdoll.Snapshot.View.Tenants.{lookup-Mem, mem_of_mem-insert, AllOf, view-AllOf}

-- A grant whose scope is global or names the tenant reaches it.
any_reaches_intro :
    {g : Grant} (gs : List Grant) (s : Str) (q : ParsedScope)
    → Memᴰ g gs
    → parse_scope g.scope ≡ some q
    → (q.is_global || str_eq q.tenant s) ≡ true
    → any_reaches gs s ≡ true
unfolding any_reaches
any_reaches_intro gs s q (Memᴰ.head {x = y} e) h k =
    let f : parse_scope y.scope ≡ some q = ap (λ (z : Grant). parse_scope z.scope) (sym e) ∙ h in
    rw (f, any_reaches, k) refl
any_reaches_intro gs s q (Memᴰ.tail {x = y} {xs = rest} m) h k =
    elim (Option-cases (parse_scope y.scope)) [
      | inl e ↦ rw (e, any_reaches) (any_reaches_intro rest s q m h k)
      | inr (r, e) ↦ rw (e, any_reaches) (ground (arith, any_reaches_intro rest s q m h k))
    ]

module _ (ts : List Tenant) (grants : List Grant) where
  -- A tenant of the snapshot that the grants reach.
  abbrev pub IsReached : Tenant → Type 0
  IsReached t = Memᴰ t ts × (any_reaches grants t.slug ≡ true)

  abbrev AllReached : Dict Str Tenant → Type 0
  AllReached m = (k : Str) (t : Tenant) → Memᴰ (k, t) m → IsReached t

  AllReached-insert :
      (k : Str) (t : Tenant) (m : Dict Str Tenant)
      → IsReached t
      → AllReached m
      → AllReached (insert k t m)
  AllReached-insert k t m r a j x n = elim (mem_of_mem-insert k t m n) [
    | inl e ↦ subst IsReached (sym (ap (λ (z : Str × Tenant). z.1) e)) r
    | inr q ↦ a j x q
  ]

  add_all-AllReached :
      (m reached : Dict Str Tenant)
      → AllReached m
      → AllReached reached
      → AllReached (add_all m reached)
  unfolding add_all
  add_all-AllReached [] reached a b = b
  add_all-AllReached ((k, t) ∷ m) reached a b =
      add_all-AllReached m (insert k t reached) (λ j x n. a j x (Memᴰ.tail n))
        (AllReached-insert k t reached (a k t (Memᴰ.head refl)) b)

  -- What the loop over the grants collects.
  abbrev Collected : Dict Str Tenant × Bool → Type 0
  Collected out = AllReached out.0 × (out.1 ≡ true → (s : Str) → any_reaches grants s ≡ true)

  reach_tenants-Collected :
      (v : View) (gs : List Grant) (reached : Dict Str Tenant) (global : Bool)
      (out : Dict Str Tenant × Bool)
      → AllOf (λ t. t.slug) ts v.tenants_by_slug
      → ((g : Grant) → Memᴰ g gs → Memᴰ g grants)
      → Collected (reached, global)
      → Yields (reach_tenants v gs reached global) out
      → Collected out
  unfolding reach_tenants
  reach_tenants-Collected v [] reached global out a sub c y =
      let e : ◌≡◌ {A = Dict Str Tenant × Bool} (reached, global) out = cc in subst Collected e c
  reach_tenants-Collected v (g ∷ gs) reached global out a sub c y =
      let step : ParsedScope → Result TenantError (Dict Str Tenant × Bool) = λ parsed.
        if parsed.is_global
        then reach_tenants v gs reached true
        else elim (lookup parsed.tenant v.tenants_by_slug) [
          | none ↦ reach_tenants v gs reached global
          | some tenant ↦ reach_tenants v gs (insert tenant.id tenant reached) global
        ] in
      let (q, p, y1) = >>=-Yields step (or_fail (parse_scope g.scope) (unparseable g.scope)) y in
      at q (or_fail-Yields (parse_scope g.scope) (unparseable g.scope) p)
        (λ m b d. reach_tenants-Collected v gs m b out a (λ h n. sub h (Memᴰ.tail n)) d) y1
    where
      at :
          (q : ParsedScope)
          → parse_scope g.scope ≡ some q
          → ((m : Dict Str Tenant) (b : Bool)
              → Collected (m, b)
              → Yields (reach_tenants v gs m b) out
              → Collected out)
          → (if q.is_global
              then reach_tenants v gs reached true
              else elim (lookup q.tenant v.tenants_by_slug) [
                | none ↦ reach_tenants v gs reached global
                | some tenant ↦ reach_tenants v gs (insert tenant.id tenant reached) global
              ])
            ≡ ok out
          → Collected out
      at q p ih y = elim (Bool-cases q.is_global) [
        | inl e ↦
            ih reached true
              (c.0, λ _ s. any_reaches_intro grants s q (sub g (Memᴰ.head refl)) p (ground arith))
              (rw e at y)
        | inr e ↦ elim (Option-cases (lookup q.tenant v.tenants_by_slug)) [
          | inl l ↦ ih reached global c (rw (e, l) at y)
          | inr (t, l) ↦
              let (n, k) = a q.tenant t (lookup-Mem q.tenant v.tenants_by_slug l) in
              ih (insert t.id t reached) global
                (
                  AllReached-insert t.id t reached
                      (
                        n,
                        any_reaches_intro grants t.slug q (sub g (Memᴰ.head refl)) p
                            (ground (arith, str_eq_iff q.tenant t.slug)),
                      )
                      c.0,
                  c.1,
                )
                (rw (e, l) at y)
        ]
      ]

  mem_of_mem-values :
      (m : Dict Str Tenant) {t : Tenant} → Memᴰ t (map (λ e. e.1) m) → AllReached m → IsReached t
  mem_of_mem-values [] n a = elim n [ ]
  mem_of_mem-values ((k, x) ∷ m) (Memᴰ.head e) a = subst IsReached (sym e) (a k x (Memᴰ.head refl))
  mem_of_mem-values ((k, x) ∷ m) (Memᴰ.tail n) a =
      mem_of_mem-values m n (λ j z q. a j z (Memᴰ.tail q))

  by_slug-IsReached :
      (v : View) (out : Dict Str Tenant × Bool) (t : Tenant)
      → AllOf (λ t. t.id) ts v.tenants
      → Collected out
      → Memᴰ t (by_slug v out)
      → IsReached t
  unfolding by_slug
  by_slug-IsReached v (reached, global) t a c n =
      at global (λ h k x q. ((a k x q).0, c.1 h x.slug))
        (mem_of_mem-sort slug_le
          (map (λ e. e.1) (if global then add_all v.tenants reached else reached)) n)
    where
      at :
          (b : Bool)
          → (b ≡ true → AllReached v.tenants)
          → Memᴰ t (map (λ e. e.1) (if b then add_all v.tenants reached else reached))
          → IsReached t
      at true all n =
          mem_of_mem-values (add_all v.tenants reached) n
            (add_all-AllReached v.tenants reached (all refl) c.0)
      at false all n = mem_of_mem-values reached n c.0

-- Over a built view, the catalog of a principal that spans tenants is composed from tenants of the
-- snapshot that the principal's grants reach, and from no other.
pub tenants_for-IsReached :
    (snap : Snapshot) (v : View) (p : Principal) (tenants : List Tenant) (t : Tenant)
    → build snap ≡ ok v
    → p.spans_tenants ≡ true
    → tenants_for v p ≡ ok tenants
    → Memᴰ t tenants
    → Memᴰ t snap.tenants × (any_reaches p.grants t.slug ≡ true)
unfolding tenants_for
tenants_for-IsReached snap v p tenants t b s y n =
    let (ids, slugs) = view-AllOf snap v b in
    let found : Result TenantError (List Tenant) =
      reach_tenants v p.grants [] false >>= λ reached. ok (by_slug v reached) in
    let spanned : found ≡ ok tenants = rw (s, tenants_for) at y in
    let (out, r, y1) =
      >>=-Yields (λ reached. ok (by_slug v reached)) (reach_tenants v p.grants [] false) spanned in
    let e : by_slug v out ≡ tenants = cc in
    by_slug-IsReached snap.tenants p.grants v out t ids
      (reach_tenants-Collected snap.tenants p.grants v p.grants [] false out slugs (λ g m. m)
        ((λ k x q. elim q [ ]), λ h. cc) r)
      (subst (λ l. Memᴰ t l) (sym e) n)
