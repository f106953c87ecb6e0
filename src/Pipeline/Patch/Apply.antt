-- ===== src/Pipeline/Patch/Apply.antt =====
-- `ApplyPatch` and `applyOp` of patch.go. The JSON decoder and the canonical encoder are given.
use mcpdoll.Base.{
  ℕ, suc, Str, codes, Bool, true, false, not, ◌&&◌, ◌||◌, Option, none, some, List, [], ◌∷◌, ltb,
  length, if◌then◌else◌, str_eq, Result, ok, err, ◌>>=◌,
}
use mcpdoll.Authz.Scope.{is_empty}
use mcpdoll.Pipeline.Json.{Json}
use mcpdoll.Pipeline.Patch.Pointer.{check_scope}
use mcpdoll.Pipeline.Patch.Document.{
  PatchError, bad_patch, bad_payload, bad_value, marshal_failed, test_failed, too_many,
  scope_violation, unsupported_op, unknown_op, get_pointer, set_pointer, remove_pointer,
}
pub mod Confined

abbrev pub max_patch_operations : ℕ
max_patch_operations = 256

-- `from` and `value` are empty where the operation has none.
pub record PatchOp : Type 0 where
  pub op : Str
  pub path : Str
  pub from : Str
  pub value : Str

-- `json.Unmarshal` into operations and into a value, and `canonical.Marshal`.
pub record Codec : Type 0 where
  pub decode_ops : Str → Option (List PatchOp)
  pub decode : Str → Option Json
  pub marshal : Json → Option Str

-- The text of the encoding, in place of the encoding itself.
jsons_equal : Option Str → Option Str → Json → Result PatchError Json
jsons_equal none b doc = err marshal_failed
jsons_equal (some a) none doc = err marshal_failed
jsons_equal (some a) (some b) doc = if str_eq a b then ok doc else err test_failed

-- The loop of the scope checks; the error names the first path out of scope.
unfoldable pub check_ops : List PatchOp → List Str → Option PatchError
check_ops [] scopes = none
check_ops (op ∷ ops) scopes =
    let rest = check_ops ops scopes in
    if not (check_scope op.path scopes)
    then some (scope_violation op.path)
    else if not (is_empty op.from) && not (check_scope op.from scopes)
    then some (scope_violation op.from)
    else rest

checked : Option PatchError → Result PatchError Str → Result PatchError Str
checked (some e) r = err e
checked none r = r

module _ (codec : Codec) where
  set_value : Json → PatchOp → Option Json → Bool → Result PatchError Json
  set_value doc op none is_add = err bad_value
  set_value doc op (some value) is_add = set_pointer doc op.path value is_add

  test_value : Json → PatchOp → Option Json → Result PatchError Json
  unfolding jsons_equal
  test_value doc op none = err bad_value
  test_value doc op (some want) =
      get_pointer doc op.path >>= λ got. jsons_equal (codec.marshal got) (codec.marshal want) doc

  unfoldable pub apply_op : Json → PatchOp → Result PatchError Json
  unfolding set_value test_value
  apply_op doc op =
      if str_eq op.op (codes "add")
      then set_value doc op (codec.decode op.value) true
      else if str_eq op.op (codes "replace")
      then set_value doc op (codec.decode op.value) false
      else if str_eq op.op (codes "remove")
      then remove_pointer doc op.path
      else if str_eq op.op (codes "test")
      then test_value doc op (codec.decode op.value)
      else if str_eq op.op (codes "move") || str_eq op.op (codes "copy")
      then err (unsupported_op op.op)
      else err (unknown_op op.op)

  unfoldable pub apply_ops : List PatchOp → Json → Result PatchError Json
  apply_ops [] doc = ok doc
  apply_ops (op ∷ ops) doc = apply_op doc op >>= λ doc'. apply_ops ops doc'

  encoded : Option Str → Result PatchError Str
  encoded none = err marshal_failed
  encoded (some s) = ok s

  patch_document : List PatchOp → Option Json → Result PatchError Str
  unfolding apply_ops encoded
  patch_document ops none = err bad_payload
  patch_document ops (some doc) = apply_ops ops doc >>= λ doc'. encoded (codec.marshal doc')

  -- The operations of a decoded patch.
  patch_with : Str → List Str → Option (List PatchOp) → Result PatchError Str
  unfolding checked patch_document
  patch_with payload scopes none = err bad_patch
  patch_with payload scopes (some []) = ok payload
  patch_with payload scopes (some (op ∷ ops)) =
      if ltb max_patch_operations (length (op ∷ ops))
      then err (too_many (length (op ∷ ops)))
      else checked (check_ops (op ∷ ops) scopes) (patch_document (op ∷ ops) (codec.decode payload))

  unfoldable pub apply_patch : Str → Str → List Str → Result PatchError Str
  unfolding patch_with
  apply_patch payload patch scopes =
      if is_empty patch then ok payload else patch_with payload scopes (codec.decode_ops patch)
