-- ===== src/Pipeline/Patch/Document/Paths.antt =====
-- Reads and writes at paths: what is written is read back, and paths that part from it at some
-- node read as before.
use mcpdoll.Base.{
  ℕ, ◌<◌, Str, Bool, true, false, none, some, List, [], ◌∷◌, ◌≡◌, refl, sym, ap, ◌∙◌, arith, ◌==◌,
  str_eq, str_eq_iff, str_eq_refl, ok, err, >>=-Yields, Bool-cases, Option-cases, Result-cases, inl,
  inr,
}
use mcpdoll.Pipeline.Json.{Json, null, bool, number, text, arr, obj, Items, item_count, set_item}
use mcpdoll.Pipeline.Json.Writes.{
  get_field-set_field, item_count-set_item, get_item-set_item_self, get_item-set_item_ne,
}
use mcpdoll.Pipeline.Patch.Document.{
  out_of_range, index_in, child, get_parts, with_child, put_child, put_parts,
}

index_in-lt : (part : Str) (n : ℕ) {i : ℕ} → index_in part n ≡ some i → i < n
unfolding index_in
index_in-lt part n h = ground arith

abbrev pub same_index : ℕ → Str → Str → Bool
same_index n p q = elim (index_in p n) [
  | none ↦ false
  | some i ↦ elim (index_in q n) [ none ↦ false | some j ↦ i == j ]
]

-- Two segments name the same child of a node.
unfoldable pub same_child : Json → Str → Str → Bool
same_child (obj fs) p q = str_eq p q
same_child (arr xs) p q = same_index (item_count xs) p q
same_child _ p q = false

-- A child that is there reads as what was written to it.
child-with_child :
    (d : Json) (p : Str) {c : Json} (v : Json)
    → child d p ≡ ok c
    → child (with_child d p v) p ≡ ok v
unfolding child with_child
child-with_child (obj fs) p v h = ground (arith, get_field-set_field p p v fs, str_eq_refl p)
child-with_child (arr xs) p v h = elim (Option-cases (index_in p (item_count xs))) [
  | inl e ↦ absurd (ground arith)
  | inr (i, e) ↦ ground (
    arith,
    e,
    item_count-set_item i v xs,
    get_item-set_item_self i v xs,
    index_in-lt p (item_count xs) e,
  )
]
child-with_child null p v h = cc
child-with_child (bool b) p v h = cc
child-with_child (number n) p v h = cc
child-with_child (text s) p v h = cc

read_other :
    (xs : Items) (q : Str) (v : Json) (i : ℕ)
    → (index_in q (item_count xs) ≡ some i → ⊥)
    → child (arr (set_item i v xs)) q ≡ child (arr xs) q
unfolding child
read_other xs q v i h = elim (Option-cases (index_in q (item_count xs))) [
  | inl e ↦ rw (item_count-set_item i v xs, e)
  | inr (j, e) ↦
      rw (item_count-set_item i v xs, e)
        (ap (λ o. elim o [ none ↦ err (out_of_range q) | some w ↦ ok w ])
          (get_item-set_item_ne i j v xs (λ f. h (e ∙ ap some (sym f)))))
]

-- Another child reads as before.
child-with_child_ne :
    (d : Json) (p q : Str) (v : Json)
    → same_child d p q ≡ false
    → child (with_child d p v) q ≡ child d q
unfolding with_child same_child
child-with_child_ne (obj fs) p q v h = unfold child in rw (get_field-set_field p q v fs, h)
child-with_child_ne (arr xs) p q v h = elim (Option-cases (index_in p (item_count xs))) [
  | inl e ↦ rw (e, with_child)
  | inr (i, e) ↦ rw (e, with_child) (read_other xs q v i (λ f. ground arith))
]
child-with_child_ne null p q v h = refl
child-with_child_ne (bool b) p q v h = refl
child-with_child_ne (number n) p q v h = refl
child-with_child_ne (text s) p q v h = refl

-- Segments that name the same child read the same.
same_child-child :
    (d : Json) (p q : Str) {c : Json}
    → same_child d p q ≡ true
    → child d p ≡ ok c
    → child d q ≡ ok c
unfolding same_child child
same_child-child (obj fs) p q h k = ground (arith, str_eq_iff p q)
same_child-child (arr xs) p q h k = elim (Option-cases (index_in p (item_count xs))) [
  | inl e ↦ absurd (ground arith)
  | inr (i, e) ↦ elim (Option-cases (index_in q (item_count xs))) [
    | inl f ↦ absurd (ground arith)
    | inr (j, f) ↦ ground (arith, e, f)
  ]
]
same_child-child null p q h k = cc
same_child-child (bool b) p q h k = cc
same_child-child (number n) p q h k = cc
same_child-child (text s) p q h k = cc

same_child-with_child :
    (d : Json) (r p q : Str) (v : Json) → same_child (with_child d r v) p q ≡ same_child d p q
unfolding same_child with_child
same_child-with_child (obj fs) r p q v = refl
same_child-with_child (arr xs) r p q v = elim (Option-cases (index_in r (item_count xs))) [
  | inl e ↦ rw (e, with_child)
  | inr (i, e) ↦ rw (e, with_child) (ap (λ n. same_index n p q) (item_count-set_item i v xs))
]
same_child-with_child null r p q v = refl
same_child-with_child (bool b) r p q v = refl
same_child-with_child (number n) r p q v = refl
same_child-with_child (text s) r p q v = refl

-- The paths part at some node: up to there they name the same children, and there not.
unfoldable pub diverges : Json → List Str → List Str → Bool
diverges d [] qs = false
diverges d (p ∷ ps) [] = false
diverges d (p ∷ ps) (q ∷ qs) = elim (same_child d p q) [
  | false ↦ true
  | true ↦ elim (child d p) [ err _ ↦ false | ok c ↦ diverges c ps qs ]
]

-- A node that is there reads as what was written to it.
pub get_parts-put_parts :
    (ps : List Str) (v d : Json) {old : Json}
    → get_parts d ps ≡ ok old
    → get_parts (put_parts ps v d) ps ≡ ok v
unfolding get_parts put_parts put_child
get_parts-put_parts [] v d h = refl
get_parts-put_parts (p ∷ ps) v d h =
    let (c, e, f) = >>=-Yields (λ next. get_parts next ps) (child d p) h in
    rw (e, put_child, child-with_child d p (put_parts ps v c) e) (get_parts-put_parts ps v c f)

-- A path that parts from the one written reads as before.
pub get_parts-put_parts_ne :
    (ps qs : List Str) (v d : Json)
    → diverges d ps qs ≡ true
    → get_parts (put_parts ps v d) qs ≡ get_parts d qs
unfolding get_parts put_parts diverges put_child
get_parts-put_parts_ne [] qs v d h = cc
get_parts-put_parts_ne (p ∷ ps) [] v d h = cc
get_parts-put_parts_ne (p ∷ ps) (q ∷ qs) v d h = elim (Result-cases (child d p)) [
  | inr (x, e) ↦ rw (e, put_child)
  | inl (c, e) ↦ elim (Bool-cases (same_child d p q)) [
    | inr f ↦ rw (e, put_child, child-with_child_ne d p q (put_parts ps v c) f)
    | inl f ↦
        let w = put_parts ps v c in
        let there =
          same_child-child (with_child d p w) p q (same_child-with_child d p p q w ∙ f)
            (child-with_child d p w e) in
        rw (e, put_child, there, same_child-child d p q f e)
          (get_parts-put_parts_ne ps qs v c (rw (f, diverges, e) at h))
  ]
]
