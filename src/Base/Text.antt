-- ===== src/Base/Text.antt =====
-- Go strings as lists of bytes, with the operations of package `strings` that the source uses.
use Prim.Native.Char.{code}
use Prim.Native.String.{String}
use Prim.Native.Nat.{ℕ, zero, suc}
use mathlib.Core.Path.{◌≡◌, refl}
use mathlib.Core.Logic.{◌↔◌, ◌≢◌}
use mathlib.Core.Bool.{Bool, true, false, ◌&&◌, ◌||◌}
use mathlib.Core.Option.{Option, none, some}
use mathlib.Core.List.{List, [], ◌∷◌, ◌++◌}
use native.Mathlib.Omega.{arith}
use mcpdoll.Base.Tests.{◌==◌}

abbrev pub Str : Type 0
Str = List ℕ

-- The bytes of an ASCII literal.
abbrev pub codes : String → Str
codes String.[] = []
codes (String.◌∷◌ c s) = code c ∷ codes s

unfoldable pub str_eq : Str → Str → Bool
str_eq [] [] = true
str_eq [] (_ ∷ _) = false
str_eq (_ ∷ _) [] = false
str_eq (a ∷ s) (b ∷ t) = a == b && str_eq s t

pub str_eq_iff : (s t : Str) → (str_eq s t ≡ true) ↔ (s ≡ t)
unfolding str_eq
str_eq_iff [] [] = (λ _. refl, λ _. refl)
str_eq_iff [] (b ∷ t) = (λ h. cc, λ h. cc)
str_eq_iff (a ∷ s) [] = (λ h. cc, λ h. cc)
str_eq_iff (a ∷ s) (b ∷ t) =
    (λ h. ground (arith, str_eq_iff s t), λ h. ground (arith, str_eq_iff s t))

pub str_eq_refl : (s : Str) → str_eq s s ≡ true
str_eq_refl s = (str_eq_iff s s).1 refl

pub str_eq_comm : (s t : Str) → str_eq s t ≡ str_eq t s
str_eq_comm s t = ground (arith, str_eq_iff s t, str_eq_iff t s)

pub ne-str_eq : (s t : Str) → s ≢ t → str_eq s t ≡ false
ne-str_eq s t h = ground (arith, str_eq_iff s t)

-- strings.HasPrefix(s, p), the prefix first.
unfoldable pub has_prefix : Str → Str → Bool
has_prefix [] s = true
has_prefix (_ ∷ _) [] = false
has_prefix (a ∷ p) (b ∷ s) = a == b && has_prefix p s

-- s[len(p):]
unfoldable pub drop_bytes : Str → Str → Str
drop_bytes [] s = s
drop_bytes (_ ∷ _) [] = []
drop_bytes (_ ∷ p) (_ ∷ s) = drop_bytes p s

pub drop_append : (p s : Str) → drop_bytes p (p ++ s) ≡ s
unfolding drop_bytes
drop_append [] s = refl
drop_append (a ∷ p) s = drop_append p s

pub has_prefix-append : (p s : Str) → has_prefix p (p ++ s) ≡ true
unfolding has_prefix
has_prefix-append [] s = refl
has_prefix-append (a ∷ p) s = ground (arith, has_prefix-append p s)

-- A string with a prefix is that prefix and the rest.
pub has_prefix_split : (p s : Str) → has_prefix p s ≡ true → s ≡ p ++ drop_bytes p s
unfolding has_prefix drop_bytes
has_prefix_split [] s h = refl
has_prefix_split (a ∷ p) [] h = cc
has_prefix_split (a ∷ p) (b ∷ s) h = ground (arith, has_prefix_split p s)

-- strings.Contains of a single byte.
unfoldable pub contains_byte : ℕ → Str → Bool
contains_byte c [] = false
contains_byte c (b ∷ s) = b == c || contains_byte c s

pub contains_byte-append :
    (c : ℕ) (s t : Str) → contains_byte c (s ++ t) ≡ (contains_byte c s || contains_byte c t)
unfolding contains_byte
contains_byte-append c [] t = refl
contains_byte-append c (b ∷ s) t = ground (arith, contains_byte-append c s t)

-- s[i]; the source indexes within bounds, and `none` stands for the panic otherwise.
unfoldable pub byte_at : Str → ℕ → Option ℕ
byte_at [] i = none
byte_at (b ∷ s) zero = some b
byte_at (b ∷ s) (suc i) = byte_at s i
