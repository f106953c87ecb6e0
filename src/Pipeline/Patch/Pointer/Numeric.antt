-- ===== src/Pipeline/Patch/Pointer/Numeric.antt =====
-- Segments that read as integers, against the scopes.
use mcpdoll.Base.{
  Str, true, false, List, [], ◌∷◌, ◌++◌, ◌≡◌, refl, ap, arith, ◌==◌, has_prefix, drop_bytes,
  contains_byte, Bool-cases, inl, inr,
}
use mcpdoll.Authz.Scope.{is_empty}
use mcpdoll.Pipeline.Patch.Pointer.{
  atoi, split, cons_first, unescape, trim_slash, is_number, names, join_dots, pointer_to_dotted,
  check_scope,
}

-- The first segment of a pointer's rest.
split-append : (n s : Str) → contains_byte b'/' n ≡ false → split (n ++ b'/' ∷ s) ≡ n ∷ split s
unfolding split contains_byte
split-append [] s h = refl
split-append (c ∷ n) s h = elim (Bool-cases (c == b'/')) [
  | inl e ↦ absurd (ground arith)
  | inr e ↦ rw e (ap (cons_first c) (split-append n s (ground arith)))
]

dotted : Str → Str
dotted s = join_dots (names (split s))

-- The empty rest is no exception.
dotted-slash : (s : Str) → pointer_to_dotted (b'/' ∷ s) ≡ dotted s
unfolding pointer_to_dotted dotted trim_slash has_prefix drop_bytes is_empty split names join_dots
    unescape atoi is_number
dotted-slash [] = refl
dotted-slash (c ∷ s) = refl

is_empty-slash : (n s : Str) → is_empty (n ++ b'/' ∷ s) ≡ false
unfolding is_empty
is_empty-slash [] s = refl
is_empty-slash (c ∷ n) s = refl

dotted-numeric :
    (n s : Str)
    → contains_byte b'/' n ≡ false
    → is_number (atoi (unescape n)) ≡ true
    → dotted (n ++ b'/' ∷ s) ≡ dotted s
unfolding dotted names
dotted-numeric n s h e = rw (split-append n s h, e) refl

-- A first segment that parses as an integer does not count in the check against the scopes, whether it
-- is an array index or a key of an object: with it in front, a pointer is admitted by the same
-- scopes as without it.
pub check_scope-numeric :
    (n s : Str) (scopes : List Str)
    → contains_byte b'/' n ≡ false
    → is_number (atoi (unescape n)) ≡ true
    → check_scope (b'/' ∷ (n ++ b'/' ∷ s)) scopes ≡ check_scope (b'/' ∷ s) scopes
unfolding check_scope
check_scope-numeric n s scopes h e =
    rw (dotted-slash (n ++ b'/' ∷ s), dotted-slash s, dotted-numeric n s h e) refl
