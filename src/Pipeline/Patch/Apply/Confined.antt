-- ===== src/Pipeline/Patch/Apply/Confined.antt =====
-- A patch that is applied stays within the plugin's declared scopes and the bound on operations.
use mcpdoll.Base.{
  ◌≤◌, Str, Bool, true, false, ◌&&◌, ◌||◌, Option, none, some, List, [], ◌∷◌, ◌≡◌, refl, arith, ltb,
  length, all, Result, ok, inl, inr, Bool-cases,
}
use mcpdoll.Authz.Scope.{is_empty}
use mcpdoll.Pipeline.Patch.Pointer.{check_scope}
use mcpdoll.Pipeline.Patch.Document.{PatchError}
use mcpdoll.Pipeline.Patch.Apply.{
  PatchOp, Codec, max_patch_operations, check_ops, checked, patch_with, apply_patch,
}

-- What an operation reads and writes is in scope.
pub in_scope : List Str → PatchOp → Bool
in_scope scopes op = check_scope op.path scopes && (is_empty op.from || check_scope op.from scopes)

check_ops-all :
    (ops : List PatchOp) (scopes : List Str)
    → check_ops ops scopes ≡ none
    → all (in_scope scopes) ops ≡ true
unfolding check_ops all in_scope
check_ops-all [] scopes h = refl
check_ops-all (op ∷ ops) scopes h = ground (arith, check_ops-all ops scopes)

checked-ok :
    (c : Option PatchError) (r : Result PatchError Str) {s : Str} → checked c r ≡ ok s → c ≡ none
unfolding checked
checked-ok none r h = refl
checked-ok (some e) r h = cc

patch_with-ok :
    (codec : Codec) (payload : Str) (scopes : List Str) (op : PatchOp) (ops : List PatchOp)
    (out : Str)
    → patch_with codec payload scopes (some (op ∷ ops)) ≡ ok out
    → (check_ops (op ∷ ops) scopes ≡ none) × (length (op ∷ ops) ≤ max_patch_operations)
unfolding patch_with
patch_with-ok codec payload scopes op ops out h =
    elim (Bool-cases (ltb max_patch_operations (length (op ∷ ops)))) [
      | inl e ↦ absurd (ground arith)
      | inr e ↦ (checked-ok _ _ (rw e at h), ground arith)
    ]

-- A patch is applied only if every operation's path, and the path that it reads from, lies in the
-- declared scopes, and there are at most 256 operations: one that is partly out of scope is
-- refused whole.
pub apply_patch-confined :
    (codec : Codec) (payload patch : Str) (scopes : List Str) (ops : List PatchOp) (out : Str)
    → is_empty patch ≡ false
    → codec.decode_ops patch ≡ some ops
    → apply_patch codec payload patch scopes ≡ ok out
    → (all (in_scope scopes) ops ≡ true) × (length ops ≤ max_patch_operations)
unfolding apply_patch all
apply_patch-confined codec payload patch scopes [] out e d h = (refl, omega arith)
apply_patch-confined codec payload patch scopes (op ∷ ops) out e d h =
    let (c, n) = patch_with-ok codec payload scopes op ops out (rw (e, d) at h) in
    (check_ops-all (op ∷ ops) scopes c, n)
