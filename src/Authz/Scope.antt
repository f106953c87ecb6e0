-- ===== src/Authz/Scope.antt =====
-- internal/platform/authz/scope.go: the scope strings `*`, `t/<tenant>`, `t/<tenant>/ts/<toolset>`
-- and `t/<tenant>/ts/<toolset>/<tool>`, the coverage test and the parser.
use mcpdoll.Base.{
  ℕ, Str, codes, Bool, true, false, not, ◌||◌, ◌&&◌, Option, none, some, List, [], ◌∷◌, ◌++◌, ◌==◌,
  leb, length, if◌then◌else◌, str_eq, has_prefix, drop_bytes, contains_byte, byte_at,
}
pub mod Segments
pub mod Covers
pub mod Parse
pub mod Hierarchy

abbrev pub global_scope : Str
global_scope = codes "*"

abbrev pub tenant_prefix : Str
tenant_prefix = codes "t/"

abbrev pub toolset_marker : Str
toolset_marker = codes "/ts/"

pub tenant_scope : Str → Str
tenant_scope tenant = tenant_prefix ++ tenant

pub toolset_scope : Str → Str → Str
toolset_scope tenant toolset = tenant_prefix ++ (tenant ++ (toolset_marker ++ toolset))

unfoldable pub tool_scope : Str → Str → Str → Str
tool_scope tenant toolset tool =
    tenant_prefix ++ (tenant ++ (toolset_marker ++ (toolset ++ b'/' ∷ tool)))

-- The byte at an index is the separator; an index out of range would panic.
abbrev is_separator : Option ℕ → Bool
is_separator none = false
is_separator (some c) = c == b'/'

unfoldable pub scope_covers : Str → Str → Bool
scope_covers grant request =
    if str_eq grant global_scope
    then true
    else if str_eq grant request
    then true
    else if leb (length request) (length grant)
    then false
    else if not (has_prefix grant request)
    then false
    else is_separator (byte_at request (length grant))

-- `strings.Cut`: around the first occurrence of the separator.
unfoldable pub cut : Str → Str → Str × Str × Bool
cut sep [] = if has_prefix sep [] then ([], [], true) else ([], [], false)
cut sep (c ∷ s) =
    let (before, after, found) = cut sep s in
    if has_prefix sep (c ∷ s)
    then ([], drop_bytes sep (c ∷ s), true)
    else (c ∷ before, after, found)

unfoldable pub is_empty : Str → Bool
is_empty [] = true
is_empty (_ ∷ _) = false

-- Empty fields mean that the scope does not reach that depth.
pub record ParsedScope : Type 0 where
  pub is_global : Bool
  pub tenant : Str
  pub toolset : Str
  pub tool : Str

-- What follows the toolset marker.
parse_tail : Str → Str → Option ParsedScope
unfolding is_empty
parse_tail tenant after =
    let (toolset, tool, has_tool) = cut (codes "/") after in
    if is_empty toolset
    then none
    else if not has_tool
    then some (record { is_global = false; tenant = tenant; toolset = toolset; tool = [] })
    else if is_empty tool || contains_byte b'/' tool
    then none
    else some (record { is_global = false; tenant = tenant; toolset = toolset; tool = tool })

-- What follows the prefix `t/`.
parse_rest : Str → Option ParsedScope
unfolding parse_tail
parse_rest rest =
    let (tenant, after, has_toolset) = cut toolset_marker rest in
    if is_empty tenant || contains_byte b'/' tenant
    then none
    else if not has_toolset
    then some (record { is_global = false; tenant = tenant; toolset = []; tool = [] })
    else parse_tail tenant after

-- `none` is `ok = false`.
unfoldable pub parse_scope : Str → Option ParsedScope
unfolding parse_rest
parse_scope scope =
    if str_eq scope global_scope
    then some (record { is_global = true; tenant = []; toolset = []; tool = [] })
    else if not (has_prefix tenant_prefix scope) || is_empty (drop_bytes tenant_prefix scope)
    then none
    else parse_rest (drop_bytes tenant_prefix scope)

-- "" for the global scope and for a malformed one.
pub tenant_of : Str → Str
tenant_of scope = elim (parse_scope scope) [
  | none ↦ []
  | some parsed ↦ if parsed.is_global then [] else parsed.tenant
]
