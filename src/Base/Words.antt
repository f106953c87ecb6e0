-- ===== src/Base/Words.antt =====
-- The operations of package `strings` that read fields of a header or of a credential.
use Prim.Native.Nat.{ℕ, zero, suc, ◌+◌}
use mathlib.Core.Path.{◌≡◌, refl, ap, ◌∙◌}
use mathlib.Core.Logic.{inl, inr}
use mathlib.Core.Bool.{Bool, true, false, ◌&&◌, ◌||◌}
use mathlib.Core.List.{List, [], ◌∷◌, ◌++◌, reverse}
use native.Mathlib.Omega.{arith}
use mathlib.Core.Option.{Option, none, some}
use mcpdoll.Base.Tests.{◌==◌, ==_iff, or_false, leb, if◌then◌else◌, Bool-cases}
use mcpdoll.Base.Lists.{length, drop}
use mcpdoll.Base.Text.{Str, contains_byte}

-- A byte before the first field.
abbrev onto : ℕ → List Str → List Str
onto b [] = (b ∷ []) ∷ []
onto b (w ∷ ws) = (b ∷ w) ∷ ws

-- strings.Split at a single byte: always one field more than there are separators.
unfoldable pub split_on : ℕ → Str → List Str
split_on c [] = [] ∷ []
split_on c (b ∷ s) = let rest = split_on c s in if b == c then [] ∷ rest else onto b rest

-- strings.Join with a single byte.
unfoldable pub join_with : ℕ → List Str → Str
join_with c [] = []
join_with c (w ∷ []) = w
join_with c (w ∷ v ∷ ws) = w ++ c ∷ join_with c (v ∷ ws)

join_with-onto : (c b : ℕ) (ws : List Str) → join_with c (onto b ws) ≡ b ∷ join_with c ws
unfolding join_with
join_with-onto c b [] = refl
join_with-onto c b (w ∷ []) = refl
join_with-onto c b (w ∷ v ∷ ws) = refl

join_with-fresh :
    (c : ℕ) (s : Str) → join_with c ([] ∷ split_on c s) ≡ c ∷ join_with c (split_on c s)
unfolding join_with split_on
join_with-fresh c [] = refl
join_with-fresh c (b ∷ s) = at (b == c) (split_on c s)
  where
    at :
        (t : Bool) (ws : List Str)
        → join_with c ([] ∷ (if t then [] ∷ ws else onto b ws))
          ≡ c ∷ join_with c (if t then [] ∷ ws else onto b ws)
    at true ws = refl
    at false [] = refl
    at false (w ∷ ws) = refl

-- The fields joined are the string.
pub join_with-split_on : (c : ℕ) (s : Str) → join_with c (split_on c s) ≡ s
unfolding join_with split_on
join_with-split_on c [] = refl
join_with-split_on c (b ∷ s) = elim (Bool-cases (b == c)) [
  | inl e ↦ rw e (join_with-fresh c s ∙ ground (arith, join_with-split_on c s))
  | inr e ↦ rw e (join_with-onto c b (split_on c s) ∙ ap (λ t. b ∷ t) (join_with-split_on c s))
]

pub split_on-append :
    (c : ℕ) (w s : Str) → contains_byte c w ≡ false → split_on c (w ++ c ∷ s) ≡ w ∷ split_on c s
unfolding split_on contains_byte
split_on-append c [] s h = let e : (c == c) ≡ true = (==_iff c c).1 refl in rw e refl
split_on-append c (b ∷ w) s h =
    let (e, k) = or_false (b == c) (contains_byte c w) h in rw (e, split_on-append c w s k) refl

pub split_on-single : (c : ℕ) (w : Str) → contains_byte c w ≡ false → split_on c w ≡ w ∷ []
unfolding split_on contains_byte
split_on-single c [] h = refl
split_on-single c (b ∷ w) h =
    let (e, k) = or_false (b == c) (contains_byte c w) h in rw (e, split_on-single c w k) refl

abbrev is_ascii_space : ℕ → Bool
is_ascii_space b = b == 32 || (leb 9 b && leb b 13)

abbrev is_latin_space : ℕ → ℕ → Bool
is_latin_space a b = a == 194 && (b == 133 || b == 160)

abbrev is_wide_space : ℕ → ℕ → ℕ → Bool
is_wide_space a b c =
    (a == 225 && (b == 154 && c == 128))
    || ((a == 226
          && (b == 128 && ((leb 128 c && leb c 138) || (c == 168 || (c == 169 || c == 175)))))
        || ((a == 226 && (b == 129 && c == 159)) || (a == 227 && (b == 128 && c == 128))))

-- How many bytes the space at the front has, 0 where there is none: the white space of Unicode in
-- UTF-8.
unfoldable pub space_size : Str → ℕ
space_size [] = 0
space_size (a ∷ []) = if is_ascii_space a then 1 else 0
space_size (a ∷ b ∷ []) = if is_ascii_space a then 1 else if is_latin_space a b then 2 else 0
space_size (a ∷ b ∷ c ∷ s) =
    if is_ascii_space a
    then 1
    else if is_latin_space a b
    then 2
    else if is_wide_space a b c
    then 3
    else 0

-- The same at the back of a string that stands reversed.
unfoldable pub space_size_back : Str → ℕ
space_size_back [] = 0
space_size_back (a ∷ []) = if is_ascii_space a then 1 else 0
space_size_back (b ∷ a ∷ []) = if is_ascii_space b then 1 else if is_latin_space a b then 2 else 0
space_size_back (c ∷ b ∷ a ∷ s) =
    if is_ascii_space c
    then 1
    else if is_latin_space b c
    then 2
    else if is_wide_space a b c
    then 3
    else 0

-- The fuel is the length: each round takes a byte at least.
trim_from : (Str → ℕ) → ℕ → Str → Str
trim_from size zero s = s
trim_from size (suc n) s =
    let rest = trim_from size n (drop (size s) s) in if size s == 0 then s else rest

-- strings.TrimSpace
unfoldable pub trim_space : Str → Str
unfolding trim_from
trim_space s =
    let front = trim_from space_size (length s) s in
    reverse (trim_from space_size_back (length front) (reverse front))

-- strings.ToLower of ASCII letters.
unfoldable pub lower : Str → Str
lower [] = []
lower (b ∷ s) = (if leb b'A' b && leb b b'Z' then b + 32 else b) ∷ lower s

-- strings.Cut at a single byte: what is before the first one, and behind it.
unfoldable pub cut_byte : ℕ → Str → Option (Str × Str)
cut_byte c [] = none
cut_byte c (b ∷ s) =
    let rest = cut_byte c s in
    if b == c
    then some ([], s)
    else elim rest [ none ↦ none | some (before, after) ↦ some (b ∷ before, after) ]

pub cut_byte-append :
    (c : ℕ) (s t : Str) → contains_byte c s ≡ false → cut_byte c (s ++ c ∷ t) ≡ some (s, t)
unfolding cut_byte contains_byte
cut_byte-append c [] t h = let e : (c == c) ≡ true = (==_iff c c).1 refl in rw e refl
cut_byte-append c (b ∷ s) t h =
    let (e, k) = or_false (b == c) (contains_byte c s) h in rw (e, cut_byte-append c s t k) refl

-- What is cut is joined again.
pub cut_byte-eq :
    (c : ℕ) (s before after : Str) → cut_byte c s ≡ some (before, after) → s ≡ before ++ c ∷ after
unfolding cut_byte
cut_byte-eq c [] before after h = cc
cut_byte-eq c (b ∷ s) before after h =
    at (b == c) refl (cut_byte c s) refl h (λ x y k. cut_byte-eq c s x y k)
  where
    at :
        (t : Bool)
        → (b == c) ≡ t
        → (o : Option (Str × Str)) → cut_byte c s ≡ o
        → if◌then◌else◌ {A = Option (Str × Str)} t
            (some ([], s))
            (elim o [ none ↦ none | some (x, y) ↦ some (b ∷ x, y) ])
          ≡ some (before, after)
        → ((x y : Str) → cut_byte c s ≡ some (x, y) → s ≡ x ++ c ∷ y)
        → b ∷ s ≡ before ++ c ∷ after
    at true e o k h ih =
        let f : ◌≡◌ {A = Str × Str} ([], s) (before, after) = cc in
        ap (λ x. x ∷ s) ((==_iff b c).0 e) ∙ ap (λ (z : Str × Str). z.0 ++ c ∷ z.1) f
    at false e none k h ih = cc
    at false e (some (x, y)) k h ih =
        let f : ◌≡◌ {A = Str × Str} (b ∷ x, y) (before, after) = cc in
        ap (λ z. b ∷ z) (ih x y k) ∙ ap (λ (z : Str × Str). z.0 ++ c ∷ z.1) f
