-- ===== src/Base/Distinct.antt =====
-- Lists of texts in which none stands twice.
use mathlib.Core.Path.{◌≡◌, refl}
use mathlib.Core.Bool.{Bool, true, false, not, ◌&&◌}
use mathlib.Core.List.{List, [], ◌∷◌, ◌++◌}
use native.Mathlib.Omega.{arith}
use mcpdoll.Base.Text.{Str, str_eq}
use mcpdoll.Base.Lists.{any}

unfoldable pub distinct : List Str → Bool
distinct [] = true
distinct (x ∷ xs) = not (any (str_eq x) xs) && distinct xs

any_at :
    (p : Str → Bool) (xs : List Str) (y : Str) (ys : List Str)
    → any p (xs ++ y ∷ ys) ≡ false
    → p y ≡ false
unfolding any
any_at p [] y ys h = ground arith
any_at p (x ∷ xs) y ys h = any_at p xs y ys (ground arith)

-- Around an element of a list without repetition.
pub distinct_around :
    (xs : List Str) (y : Str) (ys : List Str)
    → distinct (xs ++ y ∷ ys) ≡ true
    → (any (λ x. str_eq x y) xs ≡ false) × (any (str_eq y) ys ≡ false)
unfolding distinct any
distinct_around [] y ys h = (refl, ground arith)
distinct_around (x ∷ xs) y ys h =
    let (l, r) = distinct_around xs y ys (ground arith) in
    (ground (arith, any_at (str_eq x) xs y ys), r)
