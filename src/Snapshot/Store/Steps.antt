-- ===== src/Snapshot/Store/Steps.antt =====
-- The steps of a store in any interleaving of the methods, and what they keep. A snapshot and a
-- principal set are known by their versions: `snapshots` and `sets` are what the control plane has
-- signed under each, and a gateway that holds no set is at version 0, which has no principal.
use mcpdoll.Base.{
  ℕ, zero, suc, ◌≤◌, ◌-◌, Str, Bool, true, false, some, List, [], ◌∷◌, ◌++◌, ◌≡◌, refl, sym, ap,
  subst, arith, ltb, ◌==◌, length, drop, if◌then◌else◌, Bool-cases, Option-cases, Result, ok, err,
  ◌⊎◌, inl, inr, Memᴰ, mem_of_mem-append, mem_single,
}
use mcpdoll.Proto.Snapshot.{Snapshot, Signed}
use mcpdoll.Snapshot.View.{View, version, build}
use mcpdoll.Snapshot.View.Resolved.{build-snapshot}
use mcpdoll.Snapshot.Principals.{Principals, empty_principals}
use mcpdoll.Snapshot.Catalog.{PrincipalView}
use mcpdoll.Snapshot.Revocations.{Revocations}
use mcpdoll.Snapshot.Store.{
  ViewError, Key, cached_at, StoreError, Entry, Store, new_store, is_stale, record_reject,
  refuse_stale, serving_version, principals_of, bounded, commit, entry_of, swap_back,
  swap_principals, clear_composed, apply_revocations, compose_for, keep_composed, key_of,
  older_principals, older_revocations,
}

-- `after_rollback` and `after_keep` carry what the method read in earlier states of the store.
pub data IsReachable (snapshots : ℕ → Snapshot) (sets : ℕ → Principals) : Store → Type 0 where
  start : (n : ℕ) → IsReachable snapshots sets (new_store n)
  after_commit :
      {s : Store} (signed : Signed) (n : ℕ) (view : View)
      → version view ≡ n
      → build (snapshots n) ≡ ok view
      → IsReachable snapshots sets s
      → IsReachable snapshots sets (commit signed view s).0
  after_reject :
      {s : Store} (v : ℕ) (e : StoreError)
      → IsReachable snapshots sets s
      → IsReachable snapshots sets (record_reject v e s)
  after_rollback :
      {earlier s : Store} (v : ℕ) (entry : Entry) (view : View)
      → IsReachable snapshots sets earlier
      → entry_of v earlier.history ≡ some entry
      → build entry.view.snapshot ≡ ok view
      → IsReachable snapshots sets s
      → IsReachable snapshots sets (swap_back view s)
  after_principals :
      {s : Store} (n : ℕ)
      → (sets n).version ≡ n
      → IsReachable snapshots sets s
      → IsReachable snapshots sets (swap_principals (sets n) s).0
  after_clear :
      {s : Store} → IsReachable snapshots sets s → IsReachable snapshots sets (clear_composed s)
  after_revocations :
      {s : Store} (next : Revocations)
      → IsReachable snapshots sets s
      → IsReachable snapshots sets (apply_revocations next s).0
  after_keep :
      {viewed held s : Store} (view : View) (id : Str)
      → IsReachable snapshots sets viewed
      → viewed.current ≡ some view
      → IsReachable snapshots sets held
      → IsReachable snapshots sets s
      → IsReachable snapshots sets
          (keep_composed
            (key_of view (principals_of held) id)
            (compose_for view (principals_of held) id)
            s).0

length-drop {ℓ} : {A : Type ℓ} (n : ℕ) (xs : List A) → length (drop n xs) ≡ length xs - n
length-drop zero xs = omega arith
length-drop (suc n) [] = omega arith
length-drop (suc n) (x ∷ xs) = omega (arith, length-drop n xs)

mem_of_mem-drop {ℓ} : {A : Type ℓ} (n : ℕ) (xs : List A) {x : A} → Memᴰ x (drop n xs) → Memᴰ x xs
mem_of_mem-drop zero xs m = m
mem_of_mem-drop (suc n) [] m = m
mem_of_mem-drop (suc n) (y ∷ xs) m = Memᴰ.tail (mem_of_mem-drop n xs m)

length-bounded : (n : ℕ) (es : List Entry) → length (bounded n es) ≤ n
length-bounded n es = ground (arith, length-drop (length es - n) es)

mem_of_mem-bounded : (n : ℕ) (es : List Entry) {e : Entry} → Memᴰ e (bounded n es) → Memᴰ e es
mem_of_mem-bounded n es {e} m = elim (Bool-cases (ltb n (length es))) [
  | inl t ↦ mem_of_mem-drop (length es - n) es (rw t at m)
  | inr t ↦ rw t at m
]

entry_of-Mem : (v : ℕ) (es : List Entry) {e : Entry} → entry_of v es ≡ some e → Memᴰ e es
unfolding entry_of
entry_of-Mem v [] h = cc
entry_of-Mem v (x ∷ es) {e} h = at (version x.view == v) h (λ q. entry_of-Mem v es q)
  where
    at :
        (b : Bool)
        → (if b then some x else entry_of v es) ≡ some e
        → (entry_of v es ≡ some e → Memᴰ e es)
        → Memᴰ e (x ∷ es)
    at true h ih = let f : e ≡ x = cc in Memᴰ.head f
    at false h ih = Memᴰ.tail (ih h)

module _ (snapshots : ℕ → Snapshot) (sets : ℕ → Principals) where
  -- The view is that of the snapshot of its version.
  abbrev pub IsKnown : View → Type 0
  IsKnown v = build (snapshots (version v)) ≡ ok v

  -- The cached composition is that of the two versions of its key.
  abbrev pub IsFresh : Key → PrincipalView → Type 0
  IsFresh k p =
      (v : View) × (build (snapshots k.snapshot_version) ≡ ok v)
      × (compose_for v (sets k.principal_version) k.principal_id ≡ ok p)

  pub record IsSound (s : Store) : Type 0 where
    pub serving_known : (v : View) → s.current ≡ some v → IsKnown v
    pub history_known : (e : Entry) → Memᴰ e s.history → IsKnown e.view
    pub history_bounded : length s.history ≤ s.max_history
    pub set_known : principals_of s ≡ sets (principals_of s).version
    pub composed_fresh : (k : Key) (p : PrincipalView) → Memᴰ (k, p) s.composed → IsFresh k p

  new_store-IsSound : (n : ℕ) → sets 0 ≡ empty_principals → IsSound (new_store n)
  unfolding new_store
  new_store-IsSound n z = record {
    serving_known = λ v e. cc;
    history_known = λ e m. elim m [ ];
    history_bounded = omega arith;
    set_known = sym z;
    composed_fresh = λ k p m. elim m [ ];
  }

  commit-IsSound :
      (signed : Signed) (view : View) (s : Store)
      → IsKnown view
      → IsSound s
      → IsSound (commit signed view s).0
  unfolding commit refuse_stale record_reject
  commit-IsSound signed view s k i = elim (Bool-cases (is_stale (version view) s.current)) [
    | inl e ↦
        rw (e, commit)
          (record {
            serving_known = i.serving_known;
            history_known = i.history_known;
            history_bounded = i.history_bounded;
            set_known = i.set_known;
            composed_fresh = i.composed_fresh;
          })
    | inr e ↦
        rw (e, commit)
          (record {
            serving_known = λ v h. let f : view ≡ v = cc in subst IsKnown f k;
            history_known = λ e m. known e (
                mem_of_mem-append s.history (record { signed = signed; view = view } ∷ []) (
                  mem_of_mem-bounded s.max_history
                    (s.history ++ record { signed = signed; view = view } ∷ []) m));
            history_bounded =
                length-bounded s.max_history
                  (s.history ++ record { signed = signed; view = view } ∷ []);
            set_known = i.set_known;
            composed_fresh = i.composed_fresh;
          })
  ]
    where
      known :
          (e : Entry)
          → Memᴰ e s.history ⊎ Memᴰ e (record { signed = signed; view = view } ∷ [])
          → IsKnown e.view
      known e (inl m) = i.history_known e m
      known e (inr m) = subst (λ (z : Entry). IsKnown z.view) (sym (mem_single m)) k

  swap_back-IsSound :
      (view : View) (s : Store) → IsKnown view → IsSound s → IsSound (swap_back view s)
  unfolding swap_back
  swap_back-IsSound view s k i = record {
    serving_known = λ v h. let f : view ≡ v = cc in subst IsKnown f k;
    history_known = i.history_known;
    history_bounded = i.history_bounded;
    set_known = i.set_known;
    composed_fresh = i.composed_fresh;
  }

  -- A view rebuilt from a known view's snapshot is that view's.
  rebuilt-IsKnown : (old view : View) → IsKnown old → build old.snapshot ≡ ok view → IsKnown view
  rebuilt-IsKnown old view k b =
      let (e, _) = build-snapshot old.snapshot view b in
      let (f, _) = build-snapshot (snapshots (version old)) old k in
      subst (λ (n : ℕ). build (snapshots n) ≡ ok view) (ap (λ (z : Snapshot). z.version) (sym e))
        (subst (λ (z : Snapshot). build z ≡ ok view) f b)

  swap_principals-IsSound :
      (n : ℕ) (s : Store)
      → (sets n).version ≡ n
      → IsSound s
      → IsSound (swap_principals (sets n) s).0
  unfolding swap_principals
  swap_principals-IsSound n s e i =
      elim (Bool-cases (older_principals (sets n).version s.principals)) [
        | inl h ↦ rw (h, swap_principals) i
        | inr h ↦
            rw (h, swap_principals)
              (record {
                serving_known = i.serving_known;
                history_known = i.history_known;
                history_bounded = i.history_bounded;
                set_known = ap sets (sym e);
                composed_fresh = i.composed_fresh;
              })
      ]

  apply_revocations-IsSound :
      (next : Revocations) (s : Store) → IsSound s → IsSound (apply_revocations next s).0
  unfolding apply_revocations
  apply_revocations-IsSound next s i =
      elim (Bool-cases (older_revocations next.version s.revocations)) [
        | inl h ↦ rw (h, apply_revocations) i
        | inr h ↦ elim (Bool-cases (ltb (serving_version s) next.pruned_through)) [
          | inl g ↦ rw (h, g, apply_revocations) i
          | inr g ↦
              rw (h, g, apply_revocations)
                (record {
                  serving_known = i.serving_known;
                  history_known = i.history_known;
                  history_bounded = i.history_bounded;
                  set_known = i.set_known;
                  composed_fresh = i.composed_fresh;
                })
        ]
      ]

  clear_composed-IsSound : (s : Store) → IsSound s → IsSound (clear_composed s)
  clear_composed-IsSound s i = record {
    serving_known = i.serving_known;
    history_known = i.history_known;
    history_bounded = i.history_bounded;
    set_known = i.set_known;
    composed_fresh = λ k p m. elim m [ ];
  }

  record_reject-IsSound :
      (v : ℕ) (e : StoreError) (s : Store) → IsSound s → IsSound (record_reject v e s)
  unfolding record_reject
  record_reject-IsSound v e s i = record {
    serving_known = i.serving_known;
    history_known = i.history_known;
    history_bounded = i.history_bounded;
    set_known = i.set_known;
    composed_fresh = i.composed_fresh;
  }

  -- What is kept under a key is the composition of the key's versions.
  keep_composed-IsSound :
      (k : Key) (r : Result ViewError PrincipalView) (s : Store)
      → ((p : PrincipalView) → r ≡ ok p → IsFresh k p)
      → IsSound s
      → IsSound (keep_composed k r s).0
  unfolding keep_composed
  keep_composed-IsSound k (err e) s f i = i
  keep_composed-IsSound k (ok p) s f i = elim (Option-cases (cached_at k s.composed)) [
    | inr (q, h) ↦ rw (h, keep_composed) i
    | inl h ↦
        rw (h, keep_composed)
          (record {
            serving_known = i.serving_known;
            history_known = i.history_known;
            history_bounded = i.history_bounded;
            set_known = i.set_known;
            composed_fresh = fresh;
          })
  ]
    where
      fresh : (j : Key) (q : PrincipalView) → Memᴰ (j, q) ((k, p) ∷ s.composed) → IsFresh j q
      fresh j q (Memᴰ.head e) =
          subst (λ (z : Key × PrincipalView). IsFresh z.0 z.1) (sym e) (f p refl)
      fresh j q (Memᴰ.tail m) = i.composed_fresh j q m

  -- In every state that the methods of a store reach, however they interleave, the view served and
  -- the views kept are those built from the snapshots of their versions, the history is no longer
  -- than its bound, the principal set held is that of its version, and every cached catalog is the
  -- composition of the two versions of its key, if each version names one snapshot and one
  -- principal set, and version 0 of the sets is the empty set.
  pub IsReachable-IsSound :
      (s : Store) → sets 0 ≡ empty_principals → IsReachable snapshots sets s → IsSound s
  IsReachable-IsSound s z (start n) = new_store-IsSound n z
  IsReachable-IsSound s z (after_commit {s = t} signed n view e b r) =
      commit-IsSound signed view t (subst (λ (m : ℕ). build (snapshots m) ≡ ok view) (sym e) b)
        (IsReachable-IsSound t z r)
  IsReachable-IsSound s z (after_reject {s = t} v e r) =
      record_reject-IsSound v e t (IsReachable-IsSound t z r)
  IsReachable-IsSound s z (after_rollback {earlier = o} {s = t} v entry view q h b r) =
      swap_back-IsSound view t
        (rebuilt-IsKnown entry.view view
          ((IsReachable-IsSound o z q).history_known entry (entry_of-Mem v o.history h)) b)
        (IsReachable-IsSound t z r)
  IsReachable-IsSound s z (after_principals {s = t} n e r) =
      swap_principals-IsSound n t e (IsReachable-IsSound t z r)
  IsReachable-IsSound s z (after_clear {s = t} r) =
      clear_composed-IsSound t (IsReachable-IsSound t z r)
  IsReachable-IsSound s z (after_revocations {s = t} next r) =
      apply_revocations-IsSound next t (IsReachable-IsSound t z r)
  IsReachable-IsSound s z (after_keep {viewed = o} {held = q} {s = t} view id a h b r) =
      keep_composed-IsSound (key_of view (principals_of q) id)
        (compose_for view (principals_of q) id) t
        (λ p e. (
          view,
          (IsReachable-IsSound o z a).serving_known view h,
          subst (λ (ps : Principals). compose_for view ps id ≡ ok p)
              (IsReachable-IsSound q z b).set_known e,
        ))
        (IsReachable-IsSound t z r)
