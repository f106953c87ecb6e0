-- ===== src/Base/Sort.antt =====
-- `slices.SortStableFunc`, `sort.Slice` and `sort.Strings` as a stable insertion sort by the
-- test "not after"; the byte order of strings.
use mathlib.Core.Path.{◌≡◌, refl}
use mathlib.Core.Logic.{◌⊎◌, inl, inr}
use mathlib.Core.Bool.{Bool, true, false, ◌||◌, ◌&&◌}
use mathlib.Core.List.{List, [], ◌∷◌, Memᴰ, Perm}
use mathlib.Core.List.Perm
use mcpdoll.Base.Tests.{◌==◌, ltb, if◌then◌else◌, Bool-cases}
use mcpdoll.Base.Text.{Str}
use mcpdoll.Base.Lists.{mem_cast}

-- strings.Compare(s, t) <= 0
unfoldable pub str_le : Str → Str → Bool
str_le [] t = true
str_le (_ ∷ _) [] = false
str_le (a ∷ s) (b ∷ t) = ltb a b || (a == b && str_le s t)

module _ {ℓ} {A : Type ℓ} (le : A → A → Bool) where
  unfoldable pub insert_sorted : A → List A → List A
  insert_sorted x [] = x ∷ []
  insert_sorted x (y ∷ ys) = if le x y then x ∷ y ∷ ys else y ∷ insert_sorted x ys

  unfoldable pub sort : List A → List A
  unfolding insert_sorted
  sort [] = []
  sort (x ∷ xs) = insert_sorted x (sort xs)

  insert_sorted-perm : (x : A) (ys : List A) → Perm (insert_sorted x ys) (x ∷ ys)
  unfolding insert_sorted
  insert_sorted-perm x [] = Perm.refl (x ∷ [])
  insert_sorted-perm x (y ∷ ys) = elim (Bool-cases (le x y)) [
    | inl e ↦ rw e (Perm.refl (x ∷ y ∷ ys))
    | inr e ↦ rw e (Perm.trans (Perm.cons y (insert_sorted-perm x ys)) (Perm.swap x y ys))
  ]

  pub sort-perm : (xs : List A) → Perm (sort xs) xs
  unfolding sort
  sort-perm [] = Perm.refl []
  sort-perm (x ∷ xs) = Perm.trans (insert_sorted-perm x (sort xs)) (Perm.cons x (sort-perm xs))

  mem_of_insert_sorted :
      {z : A} (x : A) (ys : List A) → Memᴰ z (insert_sorted x ys) → (z ≡ x) ⊎ Memᴰ z ys
  unfolding insert_sorted
  mem_of_insert_sorted x [] (Memᴰ.head e) = inl e
  mem_of_insert_sorted x [] (Memᴰ.tail m) = inr m
  mem_of_insert_sorted {z} x (y ∷ ys) m = elim (Bool-cases (le x y)) [
    | inl e ↦ front (rw e at m)
    | inr e ↦ behind (λ n. mem_of_insert_sorted x ys n) (rw e at m)
  ]
    where
      front : Memᴰ z (x ∷ y ∷ ys) → (z ≡ x) ⊎ Memᴰ z (y ∷ ys)
      front (Memᴰ.head e) = inl e
      front (Memᴰ.tail n) = inr n

      behind :
          (Memᴰ z (insert_sorted x ys) → (z ≡ x) ⊎ Memᴰ z ys)
          → Memᴰ z (y ∷ insert_sorted x ys)
          → (z ≡ x) ⊎ Memᴰ z (y ∷ ys)
      behind ih (Memᴰ.head e) = inr (Memᴰ.head e)
      behind ih (Memᴰ.tail n) = elim (ih n) [ inl e ↦ inl e | inr k ↦ inr (Memᴰ.tail k) ]

  inserted-mem : (x : A) (ys : List A) → Memᴰ x (insert_sorted x ys)
  unfolding insert_sorted
  inserted-mem x [] = Memᴰ.head refl
  inserted-mem x (y ∷ ys) = elim (Bool-cases (le x y)) [
    | inl e ↦ rw e (Memᴰ.head refl)
    | inr e ↦ rw e (Memᴰ.tail (inserted-mem x ys))
  ]

  mem-insert_sorted : {z : A} (x : A) {ys : List A} → Memᴰ z ys → Memᴰ z (insert_sorted x ys)
  unfolding insert_sorted
  mem-insert_sorted x (Memᴰ.head {x = y} {xs = ys} p) = elim (Bool-cases (le x y)) [
    | inl e ↦ rw e (Memᴰ.tail (Memᴰ.head p))
    | inr e ↦ rw e (Memᴰ.head p)
  ]
  mem-insert_sorted x (Memᴰ.tail {x = y} {xs = ys} m) = elim (Bool-cases (le x y)) [
    | inl e ↦ rw e (Memᴰ.tail (Memᴰ.tail m))
    | inr e ↦ rw e (Memᴰ.tail (mem-insert_sorted x m))
  ]

  pub mem_of_mem-sort : {z : A} (xs : List A) → Memᴰ z (sort xs) → Memᴰ z xs
  unfolding sort
  mem_of_mem-sort [] m = m
  mem_of_mem-sort (x ∷ xs) m = elim (mem_of_insert_sorted x (sort xs) m) [
    | inl e ↦ Memᴰ.head e
    | inr n ↦ Memᴰ.tail (mem_of_mem-sort xs n)
  ]

  pub mem-sort : {z : A} {xs : List A} → Memᴰ z xs → Memᴰ z (sort xs)
  unfolding sort
  mem-sort (Memᴰ.head {x = x} {xs = xs} e) = mem_cast e (inserted-mem x (sort xs))
  mem-sort (Memᴰ.tail {x = x} {xs = xs} m) = mem-insert_sorted x (mem-sort m)
