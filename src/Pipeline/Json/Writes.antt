-- ===== src/Pipeline/Json/Writes.antt =====
-- Reads after writes on objects and arrays.
use mcpdoll.Base.{
  ℕ, zero, suc, ◌<◌, ◌≤◌, Str, none, some, str_eq, str_eq_iff, ◌≡◌, ◌≢◌, refl, ap, arith,
  if◌then◌else◌,
}
use mcpdoll.Pipeline.Json.{
  Json, Items, nil, cons, Fields, end, field, get_field, set_field, delete_field, item_count,
  get_item, set_item, insert_item, append_item,
}

pub get_field-set_field :
    (k j : Str) (v : Json) (fs : Fields)
    → get_field j (set_field k v fs) ≡ (if str_eq k j then some v else get_field j fs)
unfolding get_field set_field
get_field-set_field k j v end = refl
get_field-set_field k j v (field i w fs) =
    ground (arith, str_eq_iff k j, str_eq_iff i k, str_eq_iff i j, get_field-set_field k j v fs)

pub get_field-delete_field :
    (k j : Str) (fs : Fields)
    → get_field j (delete_field k fs) ≡ (if str_eq k j then none else get_field j fs)
unfolding get_field delete_field
get_field-delete_field k j end = ground arith
get_field-delete_field k j (field i w fs) =
    ground (arith, str_eq_iff k j, str_eq_iff i k, str_eq_iff i j, get_field-delete_field k j fs)

pub item_count-set_item :
    (i : ℕ) (v : Json) (xs : Items) → item_count (set_item i v xs) ≡ item_count xs
unfolding set_item
item_count-set_item i v nil = refl
item_count-set_item zero v (cons x xs) = refl
item_count-set_item (suc i) v (cons x xs) = ap suc (item_count-set_item i v xs)

pub get_item-set_item_self :
    (i : ℕ) (v : Json) (xs : Items) → i < item_count xs → get_item i (set_item i v xs) ≡ some v
unfolding get_item set_item
get_item-set_item_self i v nil h = elim h [ ]
get_item-set_item_self zero v (cons x xs) h = refl
get_item-set_item_self (suc i) v (cons x xs) h = get_item-set_item_self i v xs (omega arith)

pub get_item-set_item_ne :
    (i j : ℕ) (v : Json) (xs : Items) → i ≢ j → get_item j (set_item i v xs) ≡ get_item j xs
unfolding get_item set_item
get_item-set_item_ne i j v nil h = refl
get_item-set_item_ne zero zero v (cons x xs) h = absurd (h refl)
get_item-set_item_ne zero (suc j) v (cons x xs) h = refl
get_item-set_item_ne (suc i) zero v (cons x xs) h = refl
get_item-set_item_ne (suc i) (suc j) v (cons x xs) h =
    get_item-set_item_ne i j v xs (λ e. h (ap suc e))

pub get_item-insert_item :
    (i : ℕ) (v : Json) (xs : Items) → i ≤ item_count xs → get_item i (insert_item i v xs) ≡ some v
unfolding get_item insert_item
get_item-insert_item zero v xs h = refl
get_item-insert_item (suc i) v nil h = absurd (omega arith)
get_item-insert_item (suc i) v (cons x xs) h = get_item-insert_item i v xs (omega arith)

pub get_item-append_item :
    (v : Json) (xs : Items) → get_item (item_count xs) (append_item xs v) ≡ some v
unfolding get_item append_item
get_item-append_item v nil = refl
get_item-append_item v (cons x xs) = get_item-append_item v xs
