-- ===== src/Authz/Scope/Segments.antt =====
-- A scope as its segments between separators: coverage of scopes is a prefix test on segments.
use mcpdoll.Base.{
  Str, Bool, true, false, ◌&&◌, List, [], ◌∷◌, ◌++◌, append_assoc, ◌≡◌, refl, ap, sym, ◌∙◌, ◌↔◌,
  ◌≢◌, ◌⊎◌, inl, inr, arith, str_eq, str_eq_iff, contains_byte, and_true,
}

-- The text has no separator.
abbrev pub IsSlashFree : Str → Type 0
IsSlashFree s = contains_byte b'/' s ≡ false

abbrev pub AllSlashFree : List Str → Type 0
AllSlashFree [] = Unit {0}
AllSlashFree (s ∷ r) = IsSlashFree s × AllSlashFree r

-- `strings.Join(segments, "/")`
unfoldable pub join : List Str → Str
join [] = []
join (s ∷ []) = s
join (s ∷ t ∷ r) = s ++ b'/' ∷ join (t ∷ r)

unfoldable pub is_prefix : List Str → List Str → Bool
is_prefix [] ys = true
is_prefix (x ∷ xs) [] = false
is_prefix (x ∷ xs) (y ∷ ys) = str_eq x y && is_prefix xs ys

-- A text up to its first separator is determined.
pub slash_split :
    (s t x y : Str)
    → IsSlashFree s
    → IsSlashFree t
    → s ++ b'/' ∷ x ≡ t ++ b'/' ∷ y
    → (s ≡ t) × (x ≡ y)
unfolding contains_byte
slash_split [] [] x y p q e = (refl, ground arith)
slash_split [] (b ∷ t) x y p q e = absurd (ground arith)
slash_split (a ∷ s) [] x y p q e = absurd (ground arith)
slash_split (a ∷ s) (b ∷ t) x y p q e = ground (arith, slash_split s t x y)

pub not-slash-in : (s t x : Str) → IsSlashFree t → s ++ b'/' ∷ x ≡ t → ⊥
unfolding contains_byte
not-slash-in [] t x p e = ground (arith, ap (contains_byte b'/') e)
not-slash-in (a ∷ s) [] x p e = cc
not-slash-in (a ∷ s) (b ∷ t) x p e = ground (arith, not-slash-in s t x)

-- `g` is `r`, or an ancestor of it in the text.
abbrev pub Extends : Str → Str → Type 0
Extends g r = (g ≡ r) ⊎ ((rest : Str) × (r ≡ g ++ b'/' ∷ rest))

Extends-slash : (g r : Str) → IsSlashFree r → Extends g r → g ≡ r
Extends-slash g r p (inl e) = e
Extends-slash g r p (inr (rest, e)) = absurd (not-slash-in g r rest p (sym e))

-- A text that extends `x/…` has `x` for its first segment, and extends what follows.
Extends-cons :
    (x y s t : Str)
    → IsSlashFree x
    → IsSlashFree y
    → Extends (x ++ b'/' ∷ s) (y ++ b'/' ∷ t)
    → (x ≡ y) × Extends s t
Extends-cons x y s t p q (inl e) = let (a, b) = slash_split x y s t p q e in (a, inl b)
Extends-cons x y s t p q (inr (rest, e)) =
    let (a, b) =
      slash_split y x t (s ++ b'/' ∷ rest) q p (e ∙ append_assoc x (b'/' ∷ s) (b'/' ∷ rest)) in
    (sym a, inr (rest, b))

Extends-is_prefix :
    (x : Str) (xs : List Str) (y : Str) (ys : List Str)
    → AllSlashFree (x ∷ xs)
    → AllSlashFree (y ∷ ys)
    → Extends (join (x ∷ xs)) (join (y ∷ ys))
    → is_prefix (x ∷ xs) (y ∷ ys) ≡ true
unfolding join is_prefix
Extends-is_prefix x [] y [] p q e = ground (arith, str_eq_iff x y, Extends-slash x y q.0 e)
Extends-is_prefix x [] y (y' ∷ ys) p q (inl e) =
    absurd (not-slash-in y x (join (y' ∷ ys)) p.0 (sym e))
Extends-is_prefix x [] y (y' ∷ ys) p q (inr (rest, e)) =
    ground (arith, str_eq_iff x y, slash_split y x (join (y' ∷ ys)) rest q.0 p.0 e)
Extends-is_prefix x (x' ∷ xs) y [] p q e =
    absurd (not-slash-in x y (join (x' ∷ xs)) q.0 (Extends-slash _ y q.0 e))
Extends-is_prefix x (x' ∷ xs) y (y' ∷ ys) p q e =
    let (a, b) = Extends-cons x y (join (x' ∷ xs)) (join (y' ∷ ys)) p.0 q.0 e in
    ground (arith, str_eq_iff x y, Extends-is_prefix x' xs y' ys p.1 q.1 b)

is_prefix-Extends :
    (x : Str) (xs : List Str) (y : Str) (ys : List Str)
    → is_prefix (x ∷ xs) (y ∷ ys) ≡ true
    → Extends (join (x ∷ xs)) (join (y ∷ ys))
unfolding join is_prefix
is_prefix-Extends x [] y [] h = inl (ground (arith, str_eq_iff x y))
is_prefix-Extends x [] y (y' ∷ ys) h = inr (join (y' ∷ ys), ground (arith, str_eq_iff x y))
is_prefix-Extends x (x' ∷ xs) y [] h = ground arith
is_prefix-Extends x (x' ∷ xs) y (y' ∷ ys) h =
    longer ((str_eq_iff x y).0 (and_true _ _ h).0)
      (is_prefix-Extends x' xs y' ys (and_true _ _ h).1)
  where
    longer :
        x ≡ y
        → Extends (join (x' ∷ xs)) (join (y' ∷ ys))
        → Extends (x ++ b'/' ∷ join (x' ∷ xs)) (y ++ b'/' ∷ join (y' ∷ ys))
    longer e (inl f) = inl (cc)
    longer e (inr (rest, f)) =
        inr (rest, rw (e, f) (sym (append_assoc y (b'/' ∷ join (x' ∷ xs)) (b'/' ∷ rest))))

-- A joined list extends another exactly when it starts with the other's segments.
pub Extends-join_iff :
    (xs ys : List Str)
    → xs ≢ []
    → ys ≢ []
    → AllSlashFree xs
    → AllSlashFree ys
    → Extends (join xs) (join ys) ↔ (is_prefix xs ys ≡ true)
Extends-join_iff [] ys nx ny p q = absurd (nx refl)
Extends-join_iff (x ∷ xs) [] nx ny p q = absurd (ny refl)
Extends-join_iff (x ∷ xs) (y ∷ ys) nx ny p q =
    (Extends-is_prefix x xs y ys p q, is_prefix-Extends x xs y ys)
