-- ===== src/Health/Drift/Blocking.antt =====
-- Which drift takes a backend out of service.
use mcpdoll.Base.{
  Str, Bool, false, not, ◌||◌, Option, none, some, List, [], ◌∷◌, ◌++◌, ◌≡◌, refl, ap, ◌∙◌, arith,
  if◌then◌else◌, str_eq, any, all, keep, any_intro, any_elim, Bool_ext, Bool-cases, inl, inr, ℕ,
}
use mcpdoll.Base.Dict.{Dict, lookup, str_key}
use mcpdoll.Base.Sort.{sort, mem-sort, mem_of_mem-sort}
use mcpdoll.Proto.{ToolDefinition}
use mcpdoll.Pipeline.Json.{Json}
use mcpdoll.Health.Drift.{
  ToolDrift, ToolDigests, is_blocking, blocking, drift_le, tool_drift, admitted_drifts,
  not_admitted, added_drifts, diff,
}
use mcpdoll.Health.State.{healthy, drifted, classify, is_clean}

-- The backend publishes the tool, the same but for prose.
unfoldable pub is_intact : ToolDefinition → Option ToolDigests → Bool
is_intact def none = false
is_intact def (some obs) =
    str_eq obs.full def.digest || str_eq obs.semantic_digest def.semantic_digest

abbrev pub all_intact : Dict Str ToolDefinition → Dict Str ToolDigests → Bool
all_intact admitted observed = all (λ e. is_intact e.1 (lookup e.0 observed)) admitted

abbrev blocks : List ToolDrift → Bool
blocks = any (λ d. is_blocking d.kind)

any-append :
    (p : ToolDrift → Bool) (xs ys : List ToolDrift) → any p (xs ++ ys) ≡ (any p xs || any p ys)
unfolding any
any-append p [] ys = refl
any-append p (x ∷ xs) ys = ground (arith, any-append p xs ys)

any-sort :
    (p : ToolDrift → Bool) (le : ToolDrift → ToolDrift → Bool) (xs : List ToolDrift)
    → any p (sort le xs) ≡ any p xs
any-sort p le xs =
    Bool_ext _ _
      (λ h. let (x, m, e) = any_elim p (sort le xs) h in any_intro p (mem_of_mem-sort le xs m) e)
      (λ h. let (x, m, e) = any_elim p xs h in any_intro p (mem-sort le m) e)

is_clean-blocking : (ds : List ToolDrift) → is_clean (blocking ds) ≡ not (blocks ds)
unfolding is_clean blocking keep any
is_clean-blocking [] = refl
is_clean-blocking (d ∷ ds) = elim (Bool-cases (is_blocking d.kind)) [
  | inl e ↦ rw e refl
  | inr e ↦ rw e (is_clean-blocking ds)
]

module _ (marshal : Json → Option Str) where
  blocks-tool_drift :
      (name : Str) (def : ToolDefinition) (x : Option ToolDigests)
      → blocks (tool_drift marshal name def x) ≡ not (is_intact def x)
  unfolding tool_drift any is_intact
  blocks-tool_drift name def none = refl
  blocks-tool_drift name def (some obs) = elim (Bool-cases (str_eq obs.full def.digest)) [
    | inl e ↦ rw e refl
    | inr e ↦ elim (Bool-cases (str_eq obs.semantic_digest def.semantic_digest)) [
      | inl f ↦ rw (e, f) refl
      | inr f ↦ rw (e, f) refl
    ]
  ]

  blocks-admitted_drifts :
      (admitted : Dict Str ToolDefinition) (observed : Dict Str ToolDigests)
      → blocks (admitted_drifts marshal admitted observed) ≡ not (all_intact admitted observed)
  unfolding admitted_drifts any all
  blocks-admitted_drifts [] observed = refl
  blocks-admitted_drifts ((name, def) ∷ rest) observed = ground (
    arith,
    any-append (λ d. is_blocking d.kind) (tool_drift marshal name def (lookup name observed))
        (admitted_drifts marshal rest observed),
    blocks-tool_drift name def (lookup name observed),
    blocks-admitted_drifts rest observed,
  )

  blocks-not_admitted :
      (name : Str) (x : Option ToolDefinition) → blocks (not_admitted marshal name x) ≡ false
  unfolding not_admitted any
  blocks-not_admitted name none = refl
  blocks-not_admitted name (some _) = refl

  blocks-added_drifts :
      (admitted : Dict Str ToolDefinition) (observed : Dict Str ToolDigests)
      → blocks (added_drifts marshal admitted observed) ≡ false
  unfolding added_drifts any
  blocks-added_drifts admitted [] = refl
  blocks-added_drifts admitted ((name, x) ∷ rest) =
      any-append (λ d. is_blocking d.kind) (not_admitted marshal name (lookup name admitted))
        (added_drifts marshal admitted rest)
      ∙ ground (
        arith,
        blocks-not_admitted name (lookup name admitted),
        blocks-added_drifts admitted rest,
      )

  blocks-diff :
      (admitted : Dict Str ToolDefinition) (observed : Dict Str ToolDigests)
      → blocks (diff marshal admitted observed) ≡ not (all_intact admitted observed)
  unfolding diff
  blocks-diff admitted observed =
      any-sort (λ d. is_blocking d.kind) drift_le
        (admitted_drifts marshal admitted observed ++ added_drifts marshal admitted observed)
      ∙ any-append (λ d. is_blocking d.kind) (admitted_drifts marshal admitted observed)
          (added_drifts marshal admitted observed)
      ∙ ground
          (arith, blocks-admitted_drifts admitted observed, blocks-added_drifts admitted observed)

  -- A backend whose probe succeeded is healthy if it publishes every admitted tool, the same but for
  -- prose, and drifted otherwise; tools that were never admitted do not matter, nor do times.
  pub classify-diff :
      (admitted : Dict Str ToolDefinition) (observed : Dict Str ToolDigests) (last : Option ℕ)
      (now grace : ℕ)
      → classify none (diff marshal admitted observed) last now grace
        ≡ (if all_intact admitted observed then healthy else drifted)
  unfolding classify
  classify-diff admitted observed last now grace =
      ap (λ b. if b then healthy else drifted)
        (is_clean-blocking (diff marshal admitted observed)
          ∙ ap not (blocks-diff admitted observed)
          ∙ ground arith)
