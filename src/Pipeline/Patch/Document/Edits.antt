-- ===== src/Pipeline/Patch/Document/Edits.antt =====
-- What `add`, `replace` and `remove` do to a document.
use mcpdoll.Base.{
  ℕ, zero, suc, ◌<◌, Str, codes, Bool, true, false, Option, none, some, List, [], ◌∷◌, ◌≡◌, ◌≢◌,
  refl, sym, ap, ◌∙◌, arith, ltb, leb, str_eq, str_eq_refl, Result, ok, err, ◌>>=◌, >>=-Yields,
  Bool-cases, Option-cases, inl, inr,
}
use mcpdoll.Pipeline.Json.{
  Json, null, bool, number, text, arr, obj, Items, nil, cons, set_field, item_count, get_item,
  set_item, insert_item, append_item,
}
use mcpdoll.Pipeline.Json.Writes.{
  get_field-set_field, item_count-set_item, get_item-set_item_self, get_item-insert_item,
}
use mcpdoll.Base.Integers.{ℤ, pos, negsuc}
use mcpdoll.Pipeline.Patch.Pointer.{atoi}
use mcpdoll.Pipeline.Patch.Document.{
  PatchError, put_child, from_item, from_field, index_in, split_pointer, child, get_parts,
  get_pointer, with_child, put_parts, init, last, attach, replace_slice, set_index, set_in,
  set_parts, set_pointer,
}
use mcpdoll.Pipeline.Patch.Document.Paths.{diverges, get_parts-put_parts, get_parts-put_parts_ne}

-- A path read up to its last segment, and then that.
get_parts-last :
    (p : Str) (ps : List Str) (d : Json)
    → get_parts d (p ∷ ps)
      ≡ (get_parts d (init (p ∷ ps)) >>= λ parent. child parent (last (p ∷ ps)))
unfolding get_parts init last
get_parts-last p [] d = one (child d p)
  where
    one : (r : Result PatchError Json) → (r >>= λ next. ok next) ≡ r
    one (ok c) = refl
    one (err e) = refl
get_parts-last p (q ∷ ps) d = step (child d p) (λ next. get_parts-last q ps next)
  where
    step :
        (r : Result PatchError Json)
        → ((next : Json)
            → get_parts next (q ∷ ps)
              ≡ (get_parts next (init (q ∷ ps)) >>= λ parent. child parent (last (q ∷ ps))))
        → (r >>= λ next. get_parts next (q ∷ ps)) ≡ (
            (r >>= λ next. get_parts next (init (q ∷ ps))) >>= λ parent.
            child parent (last (q ∷ ps)))
    step (ok c) ih = ih c
    step (err e) ih = refl

-- To write a child of the parent is to write at the path.
put_parts-last :
    (p : Str) (ps : List Str) (v d parent : Json) {c : Json}
    → get_parts d (init (p ∷ ps)) ≡ ok parent
    → child parent (last (p ∷ ps)) ≡ ok c
    → put_parts (init (p ∷ ps)) (with_child parent (last (p ∷ ps)) v) d ≡ put_parts (p ∷ ps) v d
unfolding get_parts put_parts put_child init last
put_parts-last p [] v d parent e f = let same : d ≡ parent = cc in rw (same, f, put_child)
put_parts-last p (q ∷ ps) v d parent e f =
    let (c, e', rest) = >>=-Yields (λ next. get_parts next (init (q ∷ ps))) (child d p) e in
    rw (e', put_child) (ap (with_child d p) (put_parts-last q ps v c parent rest f))

attach-with_child :
    (d : Json) (ps : List Str) (v parent : Json) {old : Json}
    → child parent (last ps) ≡ ok old
    → attach d ps v parent ≡ ok (put_parts (init ps) (with_child parent (last ps) v) d)
unfolding attach with_child child
attach-with_child d ps v (obj fs) h = refl
attach-with_child d ps v (arr xs) h = elim (Option-cases (index_in (last ps) (item_count xs))) [
  | inl e ↦ absurd (ground arith)
  | inr (i, e) ↦ rw (e, attach, with_child)
]
attach-with_child d ps v null h = cc
attach-with_child d ps v (bool b) h = cc
attach-with_child d ps v (number n) h = cc
attach-with_child d ps v (text s) h = cc

-- `replaceSlice` writes at the path.
replace_slice-put :
    (ps : List Str) (v d d' : Json) {old : Json}
    → get_parts d ps ≡ ok old
    → replace_slice d ps v ≡ ok d'
    → d' ≡ put_parts ps v d
unfolding replace_slice put_parts
replace_slice-put [] v d d' h r = cc
replace_slice-put (p ∷ ps) v d d' h r =
    let (parent, e, f) =
      >>=-Yields (λ parent. attach d (p ∷ ps) v parent) (get_parts d (init (p ∷ ps))) r in
    let there = rw e at (sym (get_parts-last p ps d) ∙ h) in
    cc (attach-with_child d (p ∷ ps) v parent there, put_parts-last p ps v d parent e there)

-- The document after an edit: only the parent has changed, to a node that satisfies `P`.
abbrev Edited : List Str → Json → Json → (Json → Type 0) → Type 0
Edited parent_path d d' P =
    (parent node : Json) × (get_parts d parent_path ≡ ok parent)
    × (d' ≡ put_parts parent_path node d)
    × P node

-- What the parent reads at the last segment after a write there.
abbrev ReadsBack : Str → Json → Json → Type 0
ReadsBack part v node = str_eq part (codes "-") ≡ false → child node part ≡ ok v

index_at : (part : Str) (n i : ℕ) → atoi part ≡ some (pos i) → i < n → index_in part n ≡ some i
unfolding index_in
index_at part n i e h = rw (e, index_in) (ground arith)

item_count-insert_item :
    (i : ℕ) (v : Json) (xs : Items) → item_count (insert_item i v xs) ≡ suc (item_count xs)
unfolding insert_item
item_count-insert_item zero v xs = refl
item_count-insert_item (suc i) v nil = refl
item_count-insert_item (suc i) v (cons x xs) = ap suc (item_count-insert_item i v xs)

read_item :
    (part : Str) (xs : Items) (i : ℕ) (v : Json)
    → atoi part ≡ some (pos i)
    → i < item_count xs
    → get_item i xs ≡ some v
    → child (arr xs) part ≡ ok v
unfolding child from_item
read_item part xs i v e h g = rw (index_at part (item_count xs) i e h, from_item, g)

set_index-edits :
    (d : Json) (p : Str) (ps : List Str) (v : Json) (is_add : Bool) (xs : Items) (z : Option ℤ)
    (d' : Json)
    → get_parts d (init (p ∷ ps)) ≡ ok (arr xs)
    → atoi (last (p ∷ ps)) ≡ z
    → set_index d (p ∷ ps) v is_add xs z ≡ ok d'
    → Edited (init (p ∷ ps)) d d' (λ node. child node (last (p ∷ ps)) ≡ ok v)
unfolding set_index
set_index-edits d p ps v is_add xs none d' e z h = cc
set_index-edits d p ps v is_add xs (some (negsuc n)) d' e z h = cc
set_index-edits d p ps v true xs (some (pos i)) d' e z h =
    elim (Bool-cases (leb i (item_count xs))) [
      | inr f ↦ absurd (ground arith)
      | inl f ↦ (
        arr xs,
        arr (insert_item i v xs),
        e,
        replace_slice-put (init (p ∷ ps)) (arr (insert_item i v xs)) d d' e (rw f at h),
        read_item (last (p ∷ ps)) (insert_item i v xs) i v z
            (ground (arith, item_count-insert_item i v xs))
            (get_item-insert_item i v xs (ground arith)),
      )
    ]
set_index-edits d p ps v false xs (some (pos i)) d' e z h =
    elim (Bool-cases (ltb i (item_count xs))) [
      | inr f ↦ absurd (ground arith)
      | inl f ↦ (
        arr xs,
        arr (set_item i v xs),
        e,
        ground arith,
        read_item (last (p ∷ ps)) (set_item i v xs) i v z
            (ground (arith, item_count-set_item i v xs))
            (get_item-set_item_self i v xs (ground arith)),
      )
    ]

set_in-edits :
    (d : Json) (p : Str) (ps : List Str) (v : Json) (is_add : Bool) (parent d' : Json)
    → get_parts d (init (p ∷ ps)) ≡ ok parent
    → set_in d (p ∷ ps) v is_add parent ≡ ok d'
    → Edited (init (p ∷ ps)) d d' (ReadsBack (last (p ∷ ps)) v)
unfolding set_in
set_in-edits d p ps v is_add (obj fs) d' e h = (
  obj fs,
  obj (set_field (last (p ∷ ps)) v fs),
  e,
  ground arith,
  λ _.
      unfold child from_field in
      rw (get_field-set_field (last (p ∷ ps)) (last (p ∷ ps)) v fs, str_eq_refl (last (p ∷ ps))),
)
set_in-edits d p ps v is_add (arr xs) d' e h =
    elim (Bool-cases (str_eq (last (p ∷ ps)) (codes "-"))) [
      | inl f ↦ (
        arr xs,
        arr (append_item xs v),
        e,
        replace_slice-put (init (p ∷ ps)) (arr (append_item xs v)) d d' e (ground arith),
        λ g. absurd (cc),
      )
      | inr f ↦
          let (a, b, c, q, r) =
            set_index-edits d p ps v is_add xs (atoi (last (p ∷ ps))) d' e refl (rw f at h) in
          (a, b, c, q, λ _. r)
    ]
set_in-edits d p ps v is_add null d' e h = cc
set_in-edits d p ps v is_add (bool b) d' e h = cc
set_in-edits d p ps v is_add (number n) d' e h = cc
set_in-edits d p ps v is_add (text s) d' e h = cc

set_parts-edits :
    (d : Json) (ps : List Str) (v : Json) (is_add : Bool) (d' : Json)
    → set_parts d ps v is_add ≡ ok d'
    → (ps ≢ []) × Edited (init ps) d d' (ReadsBack (last ps) v)
unfolding set_parts
set_parts-edits d [] v is_add d' h = cc
set_parts-edits d (p ∷ ps) v is_add d' h =
    let (parent, e, f) =
      >>=-Yields (λ parent. set_in d (p ∷ ps) v is_add parent) (get_parts d (init (p ∷ ps))) h in
    (λ g. cc, set_in-edits d p ps v is_add parent d' e f)

read_at :
    (ps : List Str) (v d d' : Json)
    → ps ≢ []
    → Edited (init ps) d d' (ReadsBack (last ps) v)
    → str_eq (last ps) (codes "-") ≡ false
    → get_parts d' ps ≡ ok v
read_at [] v d d' n h k = absurd (n refl)
read_at (p ∷ ps) v d d' n (parent, node, e, w, r) k =
    rw
      (
        w,
        get_parts-last p ps (put_parts (init (p ∷ ps)) node d),
        get_parts-put_parts (init (p ∷ ps)) node d e,
      )
      (r k)

-- After a successful add or replace the pointer reads the value, unless its last segment is the
-- append position.
pub get_pointer-set_pointer :
    (doc : Json) (pointer : Str) (parts : List Str) (v : Json) (is_add : Bool) (doc' : Json)
    → split_pointer pointer ≡ ok parts
    → set_pointer doc pointer v is_add ≡ ok doc'
    → str_eq (last parts) (codes "-") ≡ false
    → get_pointer doc' pointer ≡ ok v
unfolding set_pointer get_pointer
get_pointer-set_pointer doc pointer parts v is_add doc' s h k =
    let (n, edit) = set_parts-edits doc parts v is_add doc' (rw s at h) in
    rw s (read_at parts v doc doc' n edit k)

-- A successful add or replace leaves what every path reads that parts from the path of the
-- pointer's parent.
pub set_pointer-elsewhere :
    (doc : Json) (pointer : Str) (parts : List Str) (v : Json) (is_add : Bool) (doc' : Json)
    (qs : List Str)
    → split_pointer pointer ≡ ok parts
    → set_pointer doc pointer v is_add ≡ ok doc'
    → diverges doc (init parts) qs ≡ true
    → get_parts doc' qs ≡ get_parts doc qs
unfolding set_pointer
set_pointer-elsewhere doc pointer parts v is_add doc' qs s h f =
    let (_, edit) = set_parts-edits doc parts v is_add doc' (rw s at h) in
    rw edit.3 (get_parts-put_parts_ne (init parts) qs edit.1 doc f)
