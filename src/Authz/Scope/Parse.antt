-- ===== src/Authz/Scope/Parse.antt =====
-- `ParseScope` against the constructors of scopes: what parses is the print of its parts, and each
-- print parses back. On scopes that parse, coverage is the comparison of the parts.
use mcpdoll.Base.{
  Str, codes, true, false, Option, some, [], ◌∷◌, ◌++◌, ◌≡◌, refl, ap, sym, inl, inr, arith, str_eq,
  str_eq_iff, has_prefix, has_prefix-append, has_prefix_split, subst, drop_bytes, drop_append,
  contains_byte, ◌==◌, Bool-cases,
}
use mcpdoll.Authz.Scope.{
  global_scope, tenant_prefix, toolset_marker, tenant_scope, toolset_scope, tool_scope, cut,
  is_empty, ParsedScope, parse_tail, parse_rest, parse_scope,
}
use mcpdoll.Authz.Scope.Segments.{IsSlashFree}

-- A place in the hierarchy.
pub data Place : Type 0 where
  everywhere : Place
  in_tenant : Str → Place
  in_toolset : Str → Str → Place
  at_tool : Str → Str → Str → Place

abbrev pub IsName : Str → Type 0
IsName s = (is_empty s ≡ false) × IsSlashFree s

abbrev pub IsPlace : Place → Type 0
IsPlace everywhere = Unit {0}
IsPlace (in_tenant t) = IsName t
IsPlace (in_toolset t s) = IsName t × IsName s
IsPlace (at_tool t s n) = IsName t × IsName s × IsName n

-- The scope string that the constructors of scope.go build for a place.
unfoldable pub render : Place → Str
unfolding tenant_scope toolset_scope tool_scope
render everywhere = global_scope
render (in_tenant t) = tenant_scope t
render (in_toolset t s) = toolset_scope t s
render (at_tool t s n) = tool_scope t s n

abbrev pub parts : Place → ParsedScope
parts everywhere = record { is_global = true; tenant = []; toolset = []; tool = [] }
parts (in_tenant t) = record { is_global = false; tenant = t; toolset = []; tool = [] }
parts (in_toolset t s) = record { is_global = false; tenant = t; toolset = s; tool = [] }
parts (at_tool t s n) = record { is_global = false; tenant = t; toolset = s; tool = n }

-- `cut` by a separator that starts with a slash: around the first one, and nowhere in a name.
cut_found :
    (sep s t : Str) → IsSlashFree s → cut (b'/' ∷ sep) (s ++ b'/' ∷ (sep ++ t)) ≡ (s, t, true)
unfolding cut contains_byte has_prefix drop_bytes
cut_found sep [] t p = rw (has_prefix-append sep t, drop_append sep t)
cut_found sep (c ∷ s) t p = elim (Bool-cases (c == b'/')) [
  | inl e ↦ absurd (ground arith)
  | inr e ↦ rw (cut_found sep s t (ground arith)) (ground arith)
]

cut_absent : (sep s : Str) → IsSlashFree s → cut (b'/' ∷ sep) s ≡ (s, [], false)
unfolding cut contains_byte has_prefix
cut_absent sep [] p = refl
cut_absent sep (c ∷ s) p = elim (Bool-cases (c == b'/')) [
  | inl e ↦ absurd (ground arith)
  | inr e ↦ rw (cut_absent sep s (ground arith)) (ground arith)
]

is_empty-append : (s t : Str) → is_empty s ≡ false → is_empty (s ++ t) ≡ false
unfolding is_empty
is_empty-append [] t h = cc
is_empty-append (c ∷ s) t h = refl

parse_tail-toolset : (t s : Str) → IsName s → parse_tail t s ≡ some (parts (in_toolset t s))
unfolding parse_tail
parse_tail-toolset t s h = rw (cut_absent [] s h.1, h.0)

parse_tail-tool :
    (t s n : Str)
    → IsName s
    → IsName n
    → parse_tail t (s ++ b'/' ∷ n) ≡ some (parts (at_tool t s n))
unfolding parse_tail
parse_tail-tool t s n h k = rw (cut_found [] s n h.1, h.0, k.0, k.1)

parse_rest-marker :
    (t a : Str) → IsName t → parse_rest (t ++ (toolset_marker ++ a)) ≡ parse_tail t a
unfolding parse_rest
parse_rest-marker t a h = rw (cut_found (codes "ts/") t a h.1, h.0, h.1)

-- Each place prints to a scope that parses to its parts.
pub parse_scope-render : (p : Place) → IsPlace p → parse_scope (render p) ≡ some (parts p)
unfolding parse_scope render str_eq has_prefix drop_bytes
parse_scope-render everywhere h = refl
parse_scope-render (in_tenant t) h = rw (h.0, cut_absent (codes "ts/") t h.1, h.0, h.1) refl
parse_scope-render (in_toolset t s) h = rw (
  is_empty-append t (toolset_marker ++ s) h.0.0,
  parse_rest-marker t s h.0,
  parse_tail-toolset t s h.1,
)
parse_scope-render (at_tool t s n) h = rw (
  is_empty-append t (toolset_marker ++ (s ++ b'/' ∷ n)) h.0.0,
  parse_rest-marker t (s ++ b'/' ∷ n) h.0,
  parse_tail-tool t s n h.1 h.2,
)

-- What `cut` returns.
cut_found_inv :
    (sep s : Str)
    → (cut (b'/' ∷ sep) s).2 ≡ true
    → s ≡ (cut (b'/' ∷ sep) s).0 ++ b'/' ∷ (sep ++ (cut (b'/' ∷ sep) s).1)
unfolding cut has_prefix drop_bytes
cut_found_inv sep [] h = cc
cut_found_inv sep (c ∷ s) h = elim (Bool-cases (has_prefix (b'/' ∷ sep) (c ∷ s))) [
  | inl e ↦ rw e (has_prefix_split (b'/' ∷ sep) (c ∷ s) e)
  | inr e ↦ rw e (ap (λ r. c ∷ r) (cut_found_inv sep s (rw e at h)))
]

cut_absent_inv : (sep s : Str) → (cut (b'/' ∷ sep) s).2 ≡ false → (cut (b'/' ∷ sep) s).0 ≡ s
unfolding cut has_prefix
cut_absent_inv sep [] h = refl
cut_absent_inv sep (c ∷ s) h = elim (Bool-cases (has_prefix (b'/' ∷ sep) (c ∷ s))) [
  | inl e ↦ absurd (ground arith)
  | inr e ↦ rw e (ap (λ r. c ∷ r) (cut_absent_inv sep s (rw e at h)))
]

-- Before the first slash there is none.
cut-IsSlashFree : (s : Str) → IsSlashFree (cut (b'/' ∷ []) s).0
unfolding cut has_prefix contains_byte
cut-IsSlashFree [] = refl
cut-IsSlashFree (c ∷ s) = ground (arith, cut-IsSlashFree s)

-- A parse names the place whose print it read.
abbrev Reads : Str → Option ParsedScope → Type 0
Reads s o =
    (q : ParsedScope) → o ≡ some q → (p : Place) × IsPlace p × (s ≡ render p) × (q ≡ parts p)

parse_tail_sound :
    (t a : Str) → IsName t → Reads (tenant_prefix ++ (t ++ (toolset_marker ++ a))) (parse_tail t a)
unfolding parse_tail render
parse_tail_sound t a name q h = elim (Bool-cases (cut (codes "/") a).2) [
  | inl e ↦ (
    at_tool t (cut (codes "/") a).0 (cut (codes "/") a).1,
    (name, (ground (arith, cut-IsSlashFree a), cut-IsSlashFree a), ground arith),
    ap (λ r. tenant_prefix ++ (t ++ (toolset_marker ++ r))) (cut_found_inv [] a e),
    ground arith,
  )
  | inr e ↦ (
    in_toolset t (cut (codes "/") a).0,
    (name, (ground arith, cut-IsSlashFree a)),
    ap (λ r. tenant_prefix ++ (t ++ (toolset_marker ++ r))) (sym (cut_absent_inv [] a e)),
    ground arith,
  )
]

parse_rest_sound : (r : Str) → Reads (tenant_prefix ++ r) (parse_rest r)
unfolding parse_rest render
parse_rest_sound r q h = elim (Bool-cases (cut toolset_marker r).2) [
  | inl e ↦
      subst (λ s. Reads s (parse_tail (cut toolset_marker r).0 (cut toolset_marker r).1))
        (ap (λ s. tenant_prefix ++ s) (sym (cut_found_inv (codes "ts/") r e)))
        (parse_tail_sound (cut toolset_marker r).0 (cut toolset_marker r).1 (ground arith)) q
        (ground arith)
  | inr e ↦ (
    in_tenant (cut toolset_marker r).0,
    ground arith,
    ap (λ s. tenant_prefix ++ s) (sym (cut_absent_inv (codes "ts/") r e)),
    ground arith,
  )
]

parse_scope-Reads : (s : Str) → Reads s (parse_scope s)
unfolding parse_scope render
parse_scope-Reads s q h = elim (Bool-cases (str_eq s global_scope)) [
  | inl e ↦ (everywhere, tt, (str_eq_iff s global_scope).0 e, ground arith)
  | inr e ↦
      subst (λ r. Reads r (parse_rest (drop_bytes tenant_prefix s)))
        (sym (has_prefix_split tenant_prefix s (ground arith)))
        (parse_rest_sound (drop_bytes tenant_prefix s)) q (ground arith)
]

-- A scope parses only if it is the print of a place whose names are not empty and have no
-- separator, and then to that place's parts.
pub parse_scope_sound :
    (s : Str) (q : ParsedScope)
    → parse_scope s ≡ some q
    → (p : Place) × IsPlace p × (s ≡ render p) × (q ≡ parts p)
parse_scope_sound s q h = parse_scope-Reads s q h
