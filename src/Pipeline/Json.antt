-- ===== src/Pipeline/Json.antt =====
-- The values that `encoding/json` decodes into `any`, with the reads and writes of maps and slices
-- that patch.go makes on them. A key stands once in an object.
use mcpdoll.Base.{ℕ, zero, suc, Str, Bool, Option, none, some, List, [], ◌∷◌, str_eq, if◌then◌else◌}
pub mod Writes

mutual
  pub data Json : Type 0 where
    null : Json
    bool : Bool → Json
    number : Str → Json
    text : Str → Json
    arr : Items → Json
    obj : Fields → Json

  pub data Items : Type 0 where
    nil : Items
    cons : Json → Items → Items

  pub data Fields : Type 0 where
    end : Fields
    field : Str → Json → Fields → Fields

-- node[key]
unfoldable pub get_field : Str → Fields → Option Json
get_field k end = none
get_field k (field j v fs) = if str_eq j k then some v else get_field k fs

-- node[key] = v
unfoldable pub set_field : Str → Json → Fields → Fields
set_field k v end = field k v end
set_field k v (field j w fs) = if str_eq j k then field j v fs else field j w (set_field k v fs)

-- delete(node, key)
unfoldable pub delete_field : Str → Fields → Fields
delete_field k end = end
delete_field k (field j w fs) =
    let rest = delete_field k fs in if str_eq j k then rest else field j w rest

abbrev pub item_count : Items → ℕ
item_count nil = 0
item_count (cons x xs) = suc (item_count xs)

-- node[i]
unfoldable pub get_item : ℕ → Items → Option Json
get_item i nil = none
get_item zero (cons x xs) = some x
get_item (suc i) (cons x xs) = get_item i xs

-- node[i] = v
unfoldable pub set_item : ℕ → Json → Items → Items
set_item i v nil = nil
set_item zero v (cons x xs) = cons v xs
set_item (suc i) v (cons x xs) = cons x (set_item i v xs)

-- node[:i], v, node[i:]
unfoldable pub insert_item : ℕ → Json → Items → Items
insert_item zero v xs = cons v xs
insert_item (suc i) v nil = cons v nil
insert_item (suc i) v (cons x xs) = cons x (insert_item i v xs)

-- node[:i], node[i+1:]
unfoldable pub remove_item : ℕ → Items → Items
remove_item i nil = nil
remove_item zero (cons x xs) = xs
remove_item (suc i) (cons x xs) = cons x (remove_item i xs)

-- append(node, v)
unfoldable pub append_item : Items → Json → Items
append_item nil v = cons v nil
append_item (cons x xs) v = cons x (append_item xs v)
