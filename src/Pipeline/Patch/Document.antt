-- ===== src/Pipeline/Patch/Document.antt =====
-- The reads and writes of patch.go at a pointer. A parent that the source mutates in place is
-- written back at its path by `put_parts`: decoded documents share no nodes.
use mcpdoll.Base.{
  ℕ, zero, suc, ◌+◌, Str, codes, Bool, true, false, not, ◌&&◌, Option, none, some, List, [], ◌∷◌,
  ◌++◌, ltb, leb, ◌==◌, map, if◌then◌else◌, str_eq, has_prefix, drop_bytes, Result, ok, err, ◌>>=◌,
}
use mcpdoll.Authz.Scope.{is_empty}
use mcpdoll.Pipeline.Json.{
  Json, null, bool, number, text, arr, obj, Items, Fields, get_field, set_field, delete_field,
  item_count, get_item, set_item, insert_item, remove_item, append_item,
}
use mcpdoll.Base.Integers.{ℤ, pos, negsuc}
use mcpdoll.Pipeline.Patch.Pointer.{atoi, split, unescape}
pub mod Paths
pub mod Edits

pub data PatchError : Type 0 where
  bad_patch bad_payload bad_value marshal_failed whole_document replace_append test_failed :
      PatchError
  too_many : ℕ → PatchError
  scope_violation bad_pointer missing out_of_range not_a_number cannot_descend no_members
        unsupported_op unknown_op :
      Str → PatchError

-- An index that parses and lies in range.
unfoldable pub index_in : Str → ℕ → Option ℕ
index_in part count = elim (atoi part) [
  | none ↦ none
  | some (negsuc _) ↦ none
  | some (pos i) ↦ if ltb i count then some i else none
]

unfoldable pub split_pointer : Str → Result PatchError (List Str)
split_pointer pointer =
    if is_empty pointer
    then ok []
    else if not (has_prefix (codes "/") pointer)
    then err (bad_pointer pointer)
    else ok (map unescape (split (drop_bytes (codes "/") pointer)))

from_field : Str → Option Json → Result PatchError Json
from_field part none = err (missing part)
from_field part (some v) = ok v

from_item : Str → Option ℕ → Items → Result PatchError Json
from_item part none xs = err (out_of_range part)
from_item part (some i) xs = elim (get_item i xs) [ none ↦ err (out_of_range part) | some v ↦ ok v ]

-- One step of the walk of `getPointer`.
unfoldable pub child : Json → Str → Result PatchError Json
unfolding from_field from_item index_in
child (obj fs) part = from_field part (get_field part fs)
child (arr xs) part = from_item part (index_in part (item_count xs)) xs
child null part = err (cannot_descend part)
child (bool _) part = err (cannot_descend part)
child (number _) part = err (cannot_descend part)
child (text _) part = err (cannot_descend part)

-- `getPointerParts`, and the walk of `getPointer`.
unfoldable pub get_parts : Json → List Str → Result PatchError Json
get_parts cur [] = ok cur
get_parts cur (part ∷ rest) = child cur part >>= λ next. get_parts next rest

unfoldable pub get_pointer : Json → Str → Result PatchError Json
get_pointer doc pointer = split_pointer pointer >>= λ parts. get_parts doc parts

-- A node with one child replaced.
unfoldable pub with_child : Json → Str → Json → Json
unfolding index_in
with_child (obj fs) part v = obj (set_field part v fs)
with_child (arr xs) part v = elim (index_in part (item_count xs)) [
  | none ↦ arr xs
  | some i ↦ arr (set_item i v xs)
]
with_child null part v = null
with_child (bool b) part v = bool b
with_child (number n) part v = number n
with_child (text s) part v = text s

put_child : Result PatchError Json → Json → Str → (Json → Json) → Json
put_child (err _) node part below = node
put_child (ok c) node part below = with_child node part (below c)

-- The document after the node at `parts` has become `v`; nothing where there is no such node.
unfoldable pub put_parts : List Str → Json → Json → Json
unfolding put_child with_child
put_parts [] v doc = v
put_parts (part ∷ rest) v doc = put_child (child doc part) doc part (λ c. put_parts rest v c)

-- `parts[:len(parts)-1]` and `parts[len(parts)-1]`, of a list that is not empty.
unfoldable pub init : List Str → List Str
init [] = []
init (s ∷ []) = []
init (s ∷ t ∷ r) = s ∷ init (t ∷ r)

unfoldable pub last : List Str → Str
last [] = []
last (s ∷ []) = s
last (s ∷ t ∷ r) = last (t ∷ r)

attach : Json → List Str → Json → Json → Result PatchError Json
attach doc parts value (obj fs) =
    ok (put_parts (init parts) (obj (set_field (last parts) value fs)) doc)
attach doc parts value (arr xs) = elim (index_in (last parts) (item_count xs)) [
  | none ↦ err (out_of_range (last parts))
  | some i ↦ ok (put_parts (init parts) (arr (set_item i value xs)) doc)
]
attach doc parts value _ = err (no_members (last parts))

-- `replaceSlice`
unfoldable pub replace_slice : Json → List Str → Json → Result PatchError Json
unfolding attach index_in
replace_slice doc [] value = ok value
replace_slice doc (p ∷ ps) value =
    get_parts doc (init (p ∷ ps)) >>= λ parent. attach doc (p ∷ ps) value parent

-- The array cases of `setPointer`.
set_index : Json → List Str → Json → Bool → Items → Option ℤ → Result PatchError Json
set_index doc parts value is_add xs none = err (not_a_number (last parts))
set_index doc parts value is_add xs (some (negsuc _)) = err (out_of_range (last parts))
set_index doc parts value is_add xs (some (pos i)) =
    if is_add
    then if leb i (item_count xs)
      then replace_slice doc (init parts) (arr (insert_item i value xs))
      else err (out_of_range (last parts))
    else if ltb i (item_count xs)
    then ok (put_parts (init parts) (arr (set_item i value xs)) doc)
    else err (out_of_range (last parts))

is_some_json : Option Json → Bool
is_some_json none = false
is_some_json (some _) = true

set_in : Json → List Str → Json → Bool → Json → Result PatchError Json
unfolding set_index is_some_json
set_in doc parts value is_add (obj fs) =
    if not is_add && not (is_some_json (get_field (last parts) fs))
    then err (missing (last parts))
    else ok (put_parts (init parts) (obj (set_field (last parts) value fs)) doc)
set_in doc parts value is_add (arr xs) =
    if str_eq (last parts) (codes "-")
    then if not is_add
      then err replace_append
      else replace_slice doc (init parts) (arr (append_item xs value))
    else set_index doc parts value is_add xs (atoi (last parts))
set_in doc parts value is_add _ = err (no_members (last parts))

set_parts : Json → List Str → Json → Bool → Result PatchError Json
unfolding set_in
set_parts doc [] value is_add = err whole_document
set_parts doc (p ∷ ps) value is_add =
    get_parts doc (init (p ∷ ps)) >>= λ parent. set_in doc (p ∷ ps) value is_add parent

unfoldable pub set_pointer : Json → Str → Json → Bool → Result PatchError Json
unfolding set_parts
set_pointer doc pointer value is_add =
    split_pointer pointer >>= λ parts. set_parts doc parts value is_add

remove_in : Json → List Str → Json → Result PatchError Json
unfolding is_some_json
remove_in doc parts (obj fs) =
    if not (is_some_json (get_field (last parts) fs))
    then err (missing (last parts))
    else ok (put_parts (init parts) (obj (delete_field (last parts) fs)) doc)
remove_in doc parts (arr xs) = elim (index_in (last parts) (item_count xs)) [
  | none ↦ err (out_of_range (last parts))
  | some i ↦ replace_slice doc (init parts) (arr (remove_item i xs))
]
remove_in doc parts _ = err (no_members (last parts))

remove_parts : Json → List Str → Result PatchError Json
unfolding remove_in index_in
remove_parts doc [] = err whole_document
remove_parts doc (p ∷ ps) =
    get_parts doc (init (p ∷ ps)) >>= λ parent. remove_in doc (p ∷ ps) parent

unfoldable pub remove_pointer : Json → Str → Result PatchError Json
unfolding remove_parts
remove_pointer doc pointer = split_pointer pointer >>= λ parts. remove_parts doc parts
