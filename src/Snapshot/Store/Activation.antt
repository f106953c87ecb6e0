-- ===== src/Snapshot/Store/Activation.antt =====
-- What `Activate`, `Rollback`, `ApplyPrincipals` and `ApplyRevocations` leave behind, on every
-- branch.
use mcpdoll.Base.{
  ℕ, ◌<◌, Str, Bool, true, false, Option, none, some, List, [], ◌∷◌, ◌++◌, if◌then◌else◌, subst,
  ◌≡◌, refl, sym, ap, ◌∙◌, arith, ◌==◌, Bool-cases, Option-cases, Result, ok, err, Result-cases,
  ◌⊎◌, inl, inr,
}
use mcpdoll.Proto.Snapshot.{Snapshot, Signed}
use mcpdoll.Snapshot.View.{View, version, build}
use mcpdoll.Snapshot.View.Resolved.{build-snapshot}
use mcpdoll.Snapshot.Store.{
  StoreError, stale, unservable, unbuildable, unverified, not_found, commit, Entry, Store, is_stale,
  record_reject, refuse_stale, serving_version, bounded, commit, prepared, built, activate,
  entry_of, swap_back, rebuilt, rollback,
}

-- The view of the last region of `Activate`.
abbrev pub accepted : Signed → View → Store → Store
accepted signed view s = record s {
  history = bounded s.max_history (s.history ++ record { signed = signed; view = view } ∷ []);
  current = some view;
  last_reject = none;
}

-- The two outcomes: nothing but the recorded refusal has changed, or the view is swapped in, which
-- is newer than what was served.
pub record IsAccepted (prepare : View → Option Str) (signed : Signed) (snap : Snapshot) (s : Store)
    (view : View) : Type 0 where
  pub view_built : build snap ≡ ok view
  pub view_ready : prepare view ≡ none
  pub newer : serving_version s < version view

abbrev pub Refused : Store → Store × Result StoreError View → Type 0
Refused s out = (v : ℕ) × (e : StoreError) × (out ≡ (record s { last_reject = some (v, e) }, err e))

-- The entry found has the version.
pub entry_of-version :
    (v : ℕ) (es : List Entry) {e : Entry} → entry_of v es ≡ some e → version e.view ≡ v
unfolding entry_of
entry_of-version v [] h = cc
entry_of-version v (x ∷ es) {e} h = at (version x.view == v) refl h (λ q. entry_of-version v es q)
  where
    at :
        (b : Bool)
        → (version x.view == v) ≡ b
        → (if b then some x else entry_of v es) ≡ some e
        → (entry_of v es ≡ some e → version e.view ≡ v)
        → version e.view ≡ v
    at true q h ih =
        let f : x ≡ e = cc in subst (λ (z : Entry). version z.view ≡ v) f (ground arith)
    at false q h ih = ih h

not_stale :
    (v : ℕ) (c : Option View)
    → is_stale v c ≡ false
    → 0 < v
    → (elim c [ none ↦ 0 | some w ↦ version w ]) < v
unfolding is_stale
not_stale v none h p = p
not_stale v (some w) h p = ground arith

-- The last region refuses a version that is not newer.
commit-cases :
    (prepare : View → Option Str) (signed : Signed) (snap : Snapshot) (s : Store) (view : View)
    → build snap ≡ ok view
    → prepare view ≡ none
    → Refused s (commit signed view s)
      ⊎ (IsAccepted prepare signed snap s view
          × (commit signed view s ≡ (accepted signed view s, ok view)))
unfolding commit refuse_stale record_reject
commit-cases prepare signed snap s view b r =
    elim (Bool-cases (is_stale (version view) s.current)) [
      | inl e ↦ inl (version view, stale (version view) (serving_version s), rw e refl)
      | inr e ↦ inr (
        record {
          view_built = b;
          view_ready = r;
          newer = not_stale (version view) s.current e (positive (build-snapshot snap view b));
        },
        rw e refl,
      )
    ]
  where
    positive : (view.snapshot ≡ snap) × (0 < snap.version) → 0 < version view
    positive (e, h) = subst (λ (z : Snapshot). 0 < z.version) (sym e) h

prepared-cases :
    (prepare : View → Option Str) (signed : Signed) (snap : Snapshot) (s : Store) (view : View)
    → build snap ≡ ok view
    → Refused s (prepared prepare signed view s)
      ⊎ (IsAccepted prepare signed snap s view
          × (prepared prepare signed view s ≡ (accepted signed view s, ok view)))
unfolding prepared record_reject
prepared-cases prepare signed snap s view b = elim (Option-cases (prepare view)) [
  | inl e ↦ rw (e, prepared) (commit-cases prepare signed snap s view b e)
  | inr (reason, e) ↦ inl (version view, unservable reason, rw (e, prepared) refl)
]

built-cases :
    (prepare : View → Option Str) (signed : Signed) (snap : Snapshot) (s : Store)
    → Refused s (built prepare signed snap.version (build snap) s)
      ⊎ ((view : View) × IsAccepted prepare signed snap s view
          × (built prepare signed snap.version (build snap) s ≡ (accepted signed view s, ok view)))
unfolding built record_reject refuse_stale
built-cases prepare signed snap s = elim (Result-cases (build snap)) [
  | inr (e, h) ↦ inl (snap.version, unbuildable e, rw h refl)
  | inl (view, h) ↦ elim (Bool-cases (is_stale (version view) s.current)) [
    | inl e ↦ inl (version view, stale (version view) (serving_version s), rw (h, e) refl)
    | inr e ↦ elim (prepared-cases prepare signed snap s view h) [
      | inl (v, r, q) ↦ inl (v, r, rw (h, e) q)
      | inr (a, q) ↦ inr (view, a, rw (h, e) q)
    ]
  ]
]

-- `Activate` either changes nothing but the recorded refusal, which its error repeats, or it swaps
-- in the view built from the verified snapshot, which the preparer accepts and whose version is
-- above the one served (0 if none), keeps it at the end of the bounded history, and forgets the
-- recorded refusal.
pub activate-cases :
    (prepare : View → Option Str) (signed : Signed) (verified : Result Str Snapshot) (s : Store)
    → Refused s (activate prepare signed verified s)
      ⊎ ((snap : Snapshot) × (view : View) × (verified ≡ ok snap)
          × IsAccepted prepare signed snap s view
          × (activate prepare signed verified s ≡ (accepted signed view s, ok view)))
unfolding activate record_reject refuse_stale
activate-cases prepare signed (err reason) s = inl (0, unverified reason, refl)
activate-cases prepare signed (ok snap) s = elim (Bool-cases (is_stale snap.version s.current)) [
  | inl e ↦ inl (snap.version, stale snap.version (serving_version s), rw e refl)
  | inr e ↦ elim (built-cases prepare signed snap s) [
    | inl (v, r, q) ↦ inl (v, r, rw e q)
    | inr (view, a, q) ↦ inr (snap, view, refl, a, rw e q)
  ]
]

-- `Rollback` either changes nothing, or it serves again the view built from the snapshot of a
-- retained entry of the requested version, if the preparer accepts it; the history stays.
pub rollback-cases :
    (prepare : View → Option Str) (v : ℕ) (s : Store)
    → ((e : StoreError) × (rollback prepare v s ≡ (s, err e)))
      ⊎ ((entry : Entry) × (view : View) × (entry_of v s.history ≡ some entry)
          × (build entry.view.snapshot ≡ ok view)
          × (prepare view ≡ none)
          × (version view ≡ v)
          × (rollback prepare v s ≡ (record s { current = some view }, ok view)))
unfolding rollback rebuilt swap_back
rollback-cases prepare v s = elim (Option-cases (entry_of v s.history)) [
  | inl e ↦ inl (not_found v, rw (e, rollback) refl)
  | inr (entry, e) ↦ elim (Result-cases (build entry.view.snapshot)) [
    | inr (f, h) ↦ inl (unbuildable f, rw (e, rollback, h, rebuilt) refl)
    | inl (view, h) ↦ elim (Option-cases (prepare view)) [
      | inr (reason, p) ↦ inl (unservable reason, rw (e, rollback, h, rebuilt, p) refl)
      | inl p ↦ inr (
        entry,
        view,
        e,
        h,
        p,
        ap (λ (z : Snapshot). z.version) (build-snapshot entry.view.snapshot view h).0
            ∙ entry_of-version v s.history e,
        rw (e, rollback, h, rebuilt, p) refl,
      )
    ]
  ]
]
