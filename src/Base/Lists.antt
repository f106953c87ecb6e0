-- ===== src/Base/Lists.antt =====
-- Lists measured by native numbers, Boolean quantifiers over them, and membership.
use Prim.Native.Nat.{ℕ, zero, suc, ◌+◌}
use mathlib.Core.Path.{◌≡◌, refl, ap, ◌∙◌}
use mathlib.Core.Logic.{◌⊎◌, inl, inr}
use mathlib.Core.Bool.{Bool, true, false, ◌&&◌, ◌||◌}
use mathlib.Core.List.{List, [], ◌∷◌, ◌++◌, map, Memᴰ}
use mathlib.Core.Option.{Option, none, some}
use native.Mathlib.Omega.{arith}
use mcpdoll.Base.Tests.{if◌then◌else◌, Bool-cases}

module _ {ℓ} {A : Type ℓ} where
  abbrev pub length : List A → ℕ
  length [] = 0
  length (x ∷ xs) = suc (length xs)

  abbrev pub get_elem? : List A → ℕ → Option A
  get_elem? [] i = none
  get_elem? (x ∷ xs) zero = some x
  get_elem? (x ∷ xs) (suc i) = get_elem? xs i

  abbrev pub take : ℕ → List A → List A
  take zero xs = []
  take (suc n) [] = []
  take (suc n) (x ∷ xs) = x ∷ take n xs

  abbrev pub drop : ℕ → List A → List A
  drop zero xs = xs
  drop (suc n) [] = []
  drop (suc n) (x ∷ xs) = drop n xs

  pub length-append : (xs ys : List A) → length (xs ++ ys) ≡ length xs + length ys
  length-append [] ys = omega arith
  length-append (x ∷ xs) ys = omega (arith, length-append xs ys)

  unfoldable pub any : (A → Bool) → List A → Bool
  any p [] = false
  any p (x ∷ xs) = p x || any p xs

  unfoldable pub all : (A → Bool) → List A → Bool
  all p [] = true
  all p (x ∷ xs) = p x && all p xs

  -- A loop that keeps the elements that pass a test, in order.
  unfoldable pub keep : (A → Bool) → List A → List A
  keep p [] = []
  keep p (x ∷ xs) = let rest = keep p xs in if p x then x ∷ rest else rest

  pub any_intro : (p : A → Bool) {x : A} {xs : List A} → Memᴰ x xs → p x ≡ true → any p xs ≡ true
  unfolding any
  any_intro p (Memᴰ.head {x = y} e) h = ground (arith, ap p e)
  any_intro p (Memᴰ.tail {x = y} m) h = ground (arith, any_intro p m h)

  pub any_elim : (p : A → Bool) (xs : List A) → any p xs ≡ true → (x : A) × Memᴰ x xs × (p x ≡ true)
  unfolding any
  any_elim p [] h = cc
  any_elim p (x ∷ xs) h = elim (Bool-cases (p x)) [
    | inl e ↦ (x, Memᴰ.head refl, e)
    | inr e ↦ let (y, m, q) = any_elim p xs (rw e at h) in (y, Memᴰ.tail m, q)
  ]

  pub all_elim : (p : A → Bool) {x : A} {xs : List A} → Memᴰ x xs → all p xs ≡ true → p x ≡ true
  unfolding all
  all_elim p (Memᴰ.head {x = y} e) h = ground (arith, ap p e)
  all_elim p (Memᴰ.tail {x = y} {xs = ys} m) h = ground (arith, all_elim p m)

  pub all_intro :
      (p : A → Bool) (xs : List A) → ((x : A) → Memᴰ x xs → p x ≡ true) → all p xs ≡ true
  unfolding all
  all_intro p [] h = refl
  all_intro p (x ∷ xs) h =
      ground (arith, h x (Memᴰ.head refl), all_intro p xs (λ y m. h y (Memᴰ.tail m)))

  pub mem-keep : (p : A → Bool) {x : A} {xs : List A} → Memᴰ x xs → p x ≡ true → Memᴰ x (keep p xs)
  unfolding keep
  mem-keep p (Memᴰ.head {x = y} e) h = rw (← ap p e, h) (Memᴰ.head e)
  mem-keep p (Memᴰ.tail {x = y} m) h = elim (Bool-cases (p y)) [
    | inl e ↦ rw e (Memᴰ.tail (mem-keep p m h))
    | inr e ↦ rw e (mem-keep p m h)
  ]

  pub mem_of_mem-keep :
      (p : A → Bool) {x : A} (xs : List A) → Memᴰ x (keep p xs) → Memᴰ x xs × (p x ≡ true)
  unfolding keep
  mem_of_mem-keep p [] m = elim m [ ]
  mem_of_mem-keep p {x} (y ∷ xs) m = elim (Bool-cases (p y)) [
    | inl e ↦ kept e (λ n. mem_of_mem-keep p xs n) (rw e at m)
    | inr e ↦ let (n, q) = mem_of_mem-keep p xs (rw e at m) in (Memᴰ.tail n, q)
  ]
    where
      kept :
          p y ≡ true
          → (Memᴰ x (keep p xs) → Memᴰ x xs × (p x ≡ true))
          → Memᴰ x (y ∷ keep p xs)
          → Memᴰ x (y ∷ xs) × (p x ≡ true)
      kept e ih (Memᴰ.head h) = (Memᴰ.head h, ap p h ∙ e)
      kept e ih (Memᴰ.tail n) = let (n', q) = ih n in (Memᴰ.tail n', q)

  pub mem_cast : {x z : A} {l : List A} → z ≡ x → Memᴰ x l → Memᴰ z l
  mem_cast e (Memᴰ.head f) = Memᴰ.head (e ∙ f)
  mem_cast e (Memᴰ.tail m) = Memᴰ.tail (mem_cast e m)

  pub mem-nil : {x : A} {l : List A} → l ≡ [] → Memᴰ x l → ⊥
  mem-nil e (Memᴰ.head f) = cc
  mem-nil e (Memᴰ.tail m) = cc

  pub append-eq-nil : (xs ys : List A) → xs ++ ys ≡ [] → (xs ≡ []) × (ys ≡ [])
  append-eq-nil [] ys h = (refl, h)
  append-eq-nil (x ∷ xs) ys h = cc

  pub keep-eq-nil :
      (p : A → Bool) (xs : List A) → keep p xs ≡ [] → {x : A} → Memᴰ x xs → p x ≡ false
  keep-eq-nil p xs h {x} m = elim (Bool-cases (p x)) [
    | inl e ↦ absurd (mem-nil h (mem-keep p m e))
    | inr e ↦ e
  ]

  pub keep-nil : (p : A → Bool) (xs : List A) → ((x : A) → Memᴰ x xs → p x ≡ false) → keep p xs ≡ []
  unfolding keep
  keep-nil p [] h = refl
  keep-nil p (x ∷ xs) h = rw (h x (Memᴰ.head refl), keep-nil p xs (λ y m. h y (Memᴰ.tail m)))

  pub mem-append_left : (ys : List A) {y : A} {xs : List A} → Memᴰ y xs → Memᴰ y (xs ++ ys)
  mem-append_left ys (Memᴰ.head e) = Memᴰ.head e
  mem-append_left ys (Memᴰ.tail m) = Memᴰ.tail (mem-append_left ys m)

  pub mem-append_right : (xs : List A) {y : A} {ys : List A} → Memᴰ y ys → Memᴰ y (xs ++ ys)
  mem-append_right [] m = m
  mem-append_right (x ∷ xs) m = Memᴰ.tail (mem-append_right xs m)

  pub mem_of_mem-append : (xs ys : List A) {y : A} → Memᴰ y (xs ++ ys) → Memᴰ y xs ⊎ Memᴰ y ys
  mem_of_mem-append [] ys m = inr m
  mem_of_mem-append (x ∷ xs) ys (Memᴰ.head e) = inl (Memᴰ.head e)
  mem_of_mem-append (x ∷ xs) ys (Memᴰ.tail m) = elim (mem_of_mem-append xs ys m) [
    | inl n ↦ inl (Memᴰ.tail n)
    | inr n ↦ inr n
  ]

  pub mem_single : {x y : A} → Memᴰ y (x ∷ []) → y ≡ x
  mem_single (Memᴰ.head e) = e
  mem_single (Memᴰ.tail m) = elim m [ ]

pub mem-map {ℓ ℓ'} :
    {A : Type ℓ}
    → {B : Type ℓ'} → (f : A → B) {x : A} {xs : List A} → Memᴰ x xs
    → Memᴰ (f x) (map f xs)
mem-map f (Memᴰ.head e) = Memᴰ.head (ap f e)
mem-map f (Memᴰ.tail m) = Memᴰ.tail (mem-map f m)
