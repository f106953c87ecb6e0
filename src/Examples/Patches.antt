-- ===== src/Examples/Patches.antt =====
-- A payload with a name and arguments, and patches of it.
use mcpdoll.Base.{
  Str, codes, true, false, none, some, [], ◌∷◌, ◌≡◌, ◌≤◌, refl, all, length, str_eq, has_prefix,
  drop_bytes, if◌then◌else◌, ok,
}
use mcpdoll.Pipeline.Json.{Json, obj, text, field, end, get_field, set_field}
use mcpdoll.Pipeline.Patch.Pointer.{
  pointer_to_dotted, unescape, check_scope, scope_admits, trim_space, split, atoi,
}
use mcpdoll.Pipeline.Patch.Document.{
  get_pointer, get_parts, set_pointer, split_pointer, init, last, child, put_parts, with_child,
  replace_slice,
}
use mcpdoll.Pipeline.Patch.Pointer.Numeric.{check_scope-numeric}
use mcpdoll.Pipeline.Patch.Document.Paths.{diverges, same_child}
use mcpdoll.Authz.Scope.{is_empty}
use mcpdoll.Pipeline.Patch.Document.Edits.{get_pointer-set_pointer, set_pointer-elsewhere}
use mcpdoll.Pipeline.Patch.Apply.{
  PatchOp, Codec, apply_patch, max_patch_operations, check_ops, apply_op, apply_ops,
}
use mcpdoll.Pipeline.Patch.Apply.Confined.{in_scope, apply_patch-confined}

abbrev with_query : Str → Json
with_query q = obj (
    field (codes "name") (text (codes "search"))
      (field (codes "arguments") (obj (field (codes "query") (text q) end)) end))

-- The payload with another value in one of its own fields.
abbrev set_field_of : Str → Json → Json
set_field_of k v = obj (
    set_field k v (
      field (codes "name") (text (codes "search"))
        (field (codes "arguments") (obj (field (codes "query") (text (codes "a")) end)) end)))

abbrev replace_query : PatchOp
replace_query = record {
  op = codes "replace";
  path = codes "/arguments/query";
  from = [];
  value = codes "b";
}

-- A codec that knows one payload, one patch and one value.
abbrev tiny : Codec
tiny = record {
  decode_ops = λ s. if str_eq s (codes "patch") then some (replace_query ∷ []) else none;
  decode = λ s. if str_eq s (codes "a") then some (with_query (codes "a")) else some (text s);
  marshal = λ d. some (codes "out");
}

apply_patch-confined_example :
    (all (in_scope (codes "arguments" ∷ [])) (replace_query ∷ []) ≡ true)
    × (length (replace_query ∷ []) ≤ max_patch_operations)
unfolding is_empty str_eq apply_patch check_ops check_scope pointer_to_dotted has_prefix drop_bytes
    unescape apply_op set_pointer split_pointer get_parts init child get_field last apply_ops
    put_parts replace_slice with_child set_field scope_admits trim_space split atoi
apply_patch-confined_example =
    apply_patch-confined tiny (codes "a") (codes "patch") (codes "arguments" ∷ [])
      (replace_query ∷ []) (codes "out") refl refl refl

-- A pointer of one segment.
get_pointer-set_pointer_example :
    get_pointer (set_field_of (codes "name") (text (codes "b"))) (codes "/name")
    ≡ ok (text (codes "b"))
unfolding is_empty str_eq has_prefix drop_bytes unescape set_pointer split_pointer get_parts init
    child get_field last put_parts with_child set_field split atoi replace_slice
get_pointer-set_pointer_example =
    get_pointer-set_pointer (with_query (codes "a")) (codes "/name") (codes "name" ∷ [])
      (text (codes "b")) false (set_field_of (codes "name") (text (codes "b"))) refl refl refl

name_kept :
    get_parts (with_query (codes "b")) (codes "name" ∷ [])
    ≡ get_parts (with_query (codes "a")) (codes "name" ∷ [])
unfolding is_empty str_eq has_prefix drop_bytes unescape set_pointer split_pointer get_parts init
    child get_field last put_parts with_child set_field split atoi diverges same_child replace_slice
name_kept =
    set_pointer-elsewhere (with_query (codes "a")) (codes "/arguments/query")
      (codes "arguments" ∷ codes "query" ∷ []) (text (codes "b")) false (with_query (codes "b"))
      (codes "name" ∷ []) refl refl refl

check_scope-numeric_example :
    check_scope (codes "/2024/query") (codes "query" ∷ [])
    ≡ check_scope (codes "/query") (codes "query" ∷ [])
unfolding mcpdoll.Base.contains_byte mcpdoll.Pipeline.Patch.Pointer.is_number atoi unescape
check_scope-numeric_example =
    check_scope-numeric (codes "2024") (codes "query") (codes "query" ∷ []) refl refl
