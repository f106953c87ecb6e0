-- ===== src/Health/State/Blocked.antt =====
-- The table of refused tools against the backends' conditions.
use mcpdoll.Base.{
  Str, codes, Bool, true, false, not, ◌&&◌, ◌||◌, Option, none, some, List, [], ◌∷◌, ◌≡◌, refl, sym,
  ap, ◌∙◌, arith, if◌then◌else◌, str_eq, str_eq_refl, and_true, any, all, keep, any_intro, any_elim,
  all_intro, Memᴰ, Bool_ext, Bool-cases, inl, inr,
}
use mcpdoll.Base.Dict.{Dict, lookup, insert, lookup-insert, str_key}
use mcpdoll.Base.Sort.{sort, str_le, mem-sort, mem_of_mem-sort}
use mcpdoll.Authz.Scope.{is_empty}
use mcpdoll.Health.Drift.{ToolDrift, is_blocking}
use mcpdoll.Health.State.{
  Target, target_key, Backend, BlockReason, Registry, new_registry, blocked_names, blocked_tools,
  block, block_all, rebuild_from, rebuild_blocked, set, forget, blocked, reason_for,
}

-- The backend is strict, and a drift of the tool blocks.
unfoldable pub refuses : Str → Backend → Bool
refuses q b =
    str_eq b.serving_mode (codes "strict")
    && any
        (λ d. is_blocking d.kind && (not (is_empty d.qualified_name) && str_eq d.qualified_name q))
        b.drift

abbrev pub is_some {ℓ} : {A : Type ℓ} → Option A → Bool
is_some none = false
is_some (some _) = true

abbrev has : Str → Dict Str BlockReason → Bool
has q m = is_some (lookup q m)

any-sort : (p : Str → Bool) (xs : List Str) → any p (sort str_le xs) ≡ any p xs
any-sort p xs =
    Bool_ext _ _
      (λ h.
        let (x, m, e) = any_elim p (sort str_le xs) h in
        any_intro p (mem_of_mem-sort str_le xs m) e)
      (λ h. let (x, m, e) = any_elim p xs h in any_intro p (mem-sort str_le m) e)

blocked_names-any :
    (q : Str) (ds : List ToolDrift)
    → any (λ n. str_eq n q) (blocked_names ds)
      ≡ any
          (λ d.
            is_blocking d.kind && (not (is_empty d.qualified_name) && str_eq d.qualified_name q))
          ds
unfolding blocked_names any
blocked_names-any q [] = refl
blocked_names-any q (d ∷ ds) =
    elim (Bool-cases (is_blocking d.kind && not (is_empty d.qualified_name))) [
      | inl e ↦ rw e (ground (arith, blocked_names-any q ds))
      | inr e ↦ rw e (ground (arith, blocked_names-any q ds))
    ]

blocked_tools-refuses :
    (q : Str) (b : Backend) → any (λ n. str_eq n q) (blocked_tools b) ≡ refuses q b
unfolding blocked_tools refuses any
blocked_tools-refuses q b = elim (Bool-cases (str_eq b.serving_mode (codes "strict"))) [
  | inl e ↦ rw e (any-sort (λ n. str_eq n q) (blocked_names b.drift) ∙ blocked_names-any q b.drift)
  | inr e ↦ rw e refl
]

-- Some drift has the name.
abbrev has_drift : List ToolDrift → Str → Bool
has_drift ds n = any (λ d. str_eq d.qualified_name n) ds

-- One name.
has-block :
    (q server name : Str) (ds : List ToolDrift) (m : Dict Str BlockReason)
    → has_drift ds name ≡ true
    → has q (block server name ds m) ≡ (str_eq name q || has q m)
unfolding block any
has-block q server name [] m h = cc
has-block q server name (d ∷ ds) m h = elim (Bool-cases (str_eq d.qualified_name name)) [
  | inl e ↦ rw e (ap is_some (lookup-insert name q _ m) ∙ inserted (str_eq name q) _)
  | inr e ↦ rw e (has-block q server name ds m (ground arith))
]
  where
    inserted :
        (b : Bool) (v : BlockReason) → is_some (if b then some v else lookup q m) ≡ (b || has q m)
    inserted true v = refl
    inserted false v = refl

has-block_all :
    (q : Str) (b : Backend) (names : List Str) (m : Dict Str BlockReason)
    → all (has_drift b.drift) names ≡ true
    → has q (block_all b names m) ≡ (any (λ n. str_eq n q) names || has q m)
unfolding block_all any all
has-block_all q b [] m h = refl
has-block_all q b (n ∷ names) m h = ground (
  arith,
  has-block_all q b names (block b.server_name n b.drift m),
  has-block q b.server_name n b.drift m,
)

tools_have_drift : (b : Backend) → all (has_drift b.drift) (blocked_tools b) ≡ true
unfolding refuses
tools_have_drift b = all_intro (has_drift b.drift) (blocked_tools b) (λ n i. named n i)
  where
    named : (n : Str) → Memᴰ n (blocked_tools b) → has_drift b.drift n ≡ true
    named n i =
        let (strict, h) =
          and_true (str_eq b.serving_mode (codes "strict"))
            (any
              (λ d.
                is_blocking d.kind
                && (not (is_empty d.qualified_name) && str_eq d.qualified_name n))
              b.drift)
            (sym (blocked_tools-refuses n b) ∙ any_intro (λ k. str_eq k n) i (str_eq_refl n)) in
        let (d, m, k) =
          any_elim
            (λ d.
              is_blocking d.kind && (not (is_empty d.qualified_name) && str_eq d.qualified_name n))
            b.drift h in
        any_intro (λ d. str_eq d.qualified_name n) m (ground arith)

has-rebuild_from :
    (q : Str) (bs : Dict Target Backend) (m : Dict Str BlockReason)
    → has q (rebuild_from bs m) ≡ (any (λ e. refuses q e.1) bs || has q m)
unfolding rebuild_from any
has-rebuild_from q [] m = refl
has-rebuild_from q ((t, b) ∷ bs) m = ground (
  arith,
  has-rebuild_from q bs (block_all b (blocked_tools b) m),
  has-block_all q b (blocked_tools b) m (tools_have_drift b),
  blocked_tools-refuses q b,
)

is_some-reason_for : (x : Option BlockReason) → is_some (reason_for x) ≡ is_some x
unfolding reason_for
is_some-reason_for none = refl
is_some-reason_for (some e) = refl

any-keep :
    (f : Target → Bool) (q : Str) (bs : Dict Target Backend)
    → any (λ e. refuses q e.1) (keep (λ e. f e.0) bs) ≡ any (λ e. f e.0 && refuses q e.1) bs
unfolding any keep
any-keep f q [] = refl
any-keep f q ((t, b) ∷ bs) = elim (Bool-cases (f t)) [
  | inl e ↦ rw e (ap (λ x. refuses q b || x) (any-keep f q bs))
  | inr e ↦ rw e (any-keep f q bs)
]

-- After a rebuild the table agrees with the backends.
blocked-rebuild :
    (r : Registry) (q : Str)
    → is_some (blocked (rebuild_blocked r) q) ≡ any (λ e. refuses q e.1) r.backends
unfolding blocked rebuild_blocked lookup
blocked-rebuild r q =
    is_some-reason_for (lookup q (rebuild_from r.backends []))
    ∙ has-rebuild_from q r.backends []
    ∙ ground arith

-- Right after backends are dropped, a tool is refused exactly if a backend that is kept is strict
-- and has a drift of the tool that blocks: no block outlives its backend.
pub blocked-forget :
    (kept : Target → Bool) (r : Registry) (q : Str)
    → is_some (blocked (forget kept r) q) ≡ any (λ e. kept e.0 && refuses q e.1) r.backends
unfolding forget
blocked-forget kept r q =
    blocked-rebuild (record r { backends = keep (λ e. kept e.0) r.backends }) q
    ∙ any-keep kept q r.backends

-- The registries that the methods make.
pub data IsReachable : Registry → Type 0 where
  start : IsReachable new_registry
  after_set : {r : Registry} (b : Backend) → IsReachable r → IsReachable (set b r)
  after_forget : {r : Registry} (kept : Target → Bool) → IsReachable r → IsReachable (forget kept r)

-- At any time a tool is refused exactly if some recorded backend, of any tenant, is strict and has
-- a drift of that qualified name that blocks.
pub blocked-IsReachable :
    (r : Registry) (q : Str)
    → IsReachable r
    → is_some (blocked r q) ≡ any (λ e. refuses q e.1) r.backends
unfolding set forget blocked reason_for lookup any rebuild_blocked
blocked-IsReachable r q start = refl
blocked-IsReachable r q (after_set {r = s} b h) =
    blocked-rebuild (record s { backends = insert b.target b s.backends }) q
blocked-IsReachable r q (after_forget {r = s} kept h) =
    blocked-rebuild (record s { backends = keep (λ e. kept e.0) s.backends }) q
