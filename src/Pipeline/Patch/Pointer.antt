-- ===== src/Pipeline/Patch/Pointer.antt =====
-- The pointers of patch.go: splitting and unescaping, `strconv.Atoi`, and the check of a pointer
-- against the declared scopes.
use mcpdoll.Base.{
  ℕ, zero, suc, ◌+◌, ◌*◌, ◌-◌, Str, codes, Bool, true, false, ◌&&◌, ◌||◌, Option, none, some, List,
  [], ◌∷◌, ◌++◌, leb, ◌==◌, if◌then◌else◌, str_eq, has_prefix, drop_bytes,
}
use mcpdoll.Base.Integers.{ℤ, pos, negsuc}
use mcpdoll.Authz.Scope.{is_empty}
pub mod Numeric

abbrev pub max_int64 : ℕ
max_int64 = 9223372036854775807

is_digit : ℕ → Bool
is_digit c = leb b'0' c && leb c b'9'

digits : ℕ → Str → Option ℕ
unfolding is_digit
digits acc [] = some acc
digits acc (c ∷ s) =
    let rest = digits (acc * 10 + (c - b'0')) s in if is_digit c then rest else none

-- At least one digit.
magnitude : Str → Option ℕ
unfolding digits
magnitude [] = none
magnitude (c ∷ s) = digits 0 (c ∷ s)

positive : Option ℕ → Option ℤ
positive none = none
positive (some n) = if leb n max_int64 then some (pos n) else none

negated : Option ℕ → Option ℤ
negated none = none
negated (some zero) = some (pos 0)
negated (some (suc n)) = if leb n max_int64 then some (negsuc n) else none

-- `strconv.Atoi`; `none` is an error.
unfoldable pub atoi : Str → Option ℤ
unfolding magnitude positive negated
atoi [] = none
atoi (c ∷ s) =
    if c == b'-'
    then negated (magnitude s)
    else if c == b'+'
    then positive (magnitude s)
    else positive (magnitude (c ∷ s))

cons_first : ℕ → List Str → List Str
cons_first c [] = (c ∷ []) ∷ []
cons_first c (s ∷ r) = (c ∷ s) ∷ r

-- `strings.Split(s, "/")`
unfoldable pub split : Str → List Str
unfolding cons_first
split [] = [] ∷ []
split (c ∷ s) = let rest = split s in if c == b'/' then [] ∷ rest else cons_first c rest

-- The replacer of `~1` by `/` and `~0` by `~`, in one pass.
unfoldable pub unescape : Str → Str
unescape [] = []
unescape (c ∷ []) = c ∷ []
unescape (c ∷ d ∷ s) =
    let here = unescape s in
    let past = unescape (d ∷ s) in
    if c == b'~' && d == b'1'
    then b'/' ∷ here
    else if c == b'~' && d == b'0'
    then b'~' ∷ here
    else c ∷ past

-- `strings.TrimPrefix(pointer, "/")`
trim_slash : Str → Str
trim_slash s = if has_prefix (codes "/") s then drop_bytes (codes "/") s else s

unfoldable pub is_number : Option ℤ → Bool
is_number none = false
is_number (some _) = true

-- The segments that are no numbers.
names : List Str → List Str
unfolding is_number atoi
names [] = []
names (s ∷ r) =
    let rest = names r in if is_number (atoi (unescape s)) then rest else unescape s ∷ rest

-- `strings.Join(parts, ".")`
join_dots : List Str → Str
join_dots [] = []
join_dots (s ∷ []) = s
join_dots (s ∷ t ∷ r) = s ++ b'.' ∷ join_dots (t ∷ r)

unfoldable pub pointer_to_dotted : Str → Str
unfolding trim_slash split names join_dots
pointer_to_dotted pointer =
    let trimmed = trim_slash pointer in
    if is_empty trimmed then [] else join_dots (names (split trimmed))

is_space : ℕ → Bool
is_space c = c == b' ' || (leb 9 c && leb c 13)

trim_left : Str → Str
trim_left [] = []
trim_left (c ∷ s) = let rest = trim_left s in if is_space c then rest else c ∷ s

all_space : Str → Bool
all_space [] = true
all_space (c ∷ s) = is_space c && all_space s

trim_right : Str → Str
trim_right [] = []
trim_right (c ∷ s) = let rest = trim_right s in if all_space (c ∷ s) then [] else c ∷ rest

-- `strings.TrimSpace` of ASCII text.
unfoldable pub trim_space : Str → Str
unfolding trim_left trim_right is_space all_space
trim_space s = trim_right (trim_left s)

-- One declared scope covers a dotted path.
unfoldable pub scope_admits : Str → Str → Bool
scope_admits dotted scope =
    str_eq scope (codes "*") || (str_eq dotted scope || has_prefix (scope ++ codes ".") dotted)

-- The loop of `checkScope`.
in_scopes : Str → List Str → Bool
unfolding scope_admits trim_space is_empty
in_scopes dotted [] = false
in_scopes dotted (s ∷ rest) =
    let later = in_scopes dotted rest in
    let scope = trim_space s in
    if is_empty scope then later else if scope_admits dotted scope then true else later

-- True is a nil error; no scopes at all admit nothing.
unfoldable pub check_scope : Str → List Str → Bool
unfolding in_scopes
check_scope pointer scopes = in_scopes (pointer_to_dotted pointer) scopes
