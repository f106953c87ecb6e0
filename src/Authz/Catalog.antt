-- ===== src/Authz/Catalog.antt =====
-- `ValidateCatalog`: a catalog passes exactly if its roles carry known permissions and none may
-- call tools without listing them; deciders of a valid catalog have no hidden capability.
use mcpdoll.Base.{
  Str, Bool, true, false, not, ◌||◌, ◌&&◌, List, [], ◌∷◌, map, ◌≡◌, ◌↔◌, refl, ap, sym, ◌∙◌, arith,
  Memᴰ, some, inl, inr, str_eq, str_eq_iff, any, all, all_intro, all_elim, any_intro, any_elim,
  Bool-cases, Option-cases, Bool_ext, and_true, keep, append-eq-nil, keep-eq-nil, keep-nil,
}
use mcpdoll.Base.Sort.{sort, str_le, mem-sort, mem_of_mem-sort}
use mcpdoll.Base.Dict.{lookup, str_key}
use mcpdoll.Authz.Scope.{scope_covers}
use mcpdoll.Authz.Roles.{
  Permission, Catalog, Grant, perms_of, permissions, has_permission, keys, roles, role_problems,
  problems_of, validate_catalog, tool_call, tool_list, all_permissions, unknown_permission,
}
use mcpdoll.Authz.Engine.{prepare}
use mcpdoll.Authz.Engine.Decide.{permits, allowed, prepare-allowed}

-- The role's permissions are known, and it lists tools if it calls them.
pub is_sound : Catalog → Str → Bool
is_sound c role =
    all (λ p. has_permission p all_permissions) (perms_of c role)
    && (not (has_permission tool_call (perms_of c role))
        || has_permission tool_list (perms_of c role))

map-eq-nil : {A B : Type 0} (f : A → B) (xs : List A) → map f xs ≡ [] → xs ≡ []
map-eq-nil f [] h = refl
map-eq-nil f (x ∷ xs) h = cc

abbrev unknowns : Catalog → Str → List Permission
unknowns c role = keep (λ p. not (has_permission p all_permissions)) (permissions c role)

abbrev knows_all : Catalog → Str → Bool
knows_all c role = all (λ p. has_permission p all_permissions) (perms_of c role)

not-false : (b : Bool) → not b ≡ false → b ≡ true
not-false b h = ground arith

unknowns-nil : (c : Catalog) (role : Str) → unknowns c role ≡ [] → knows_all c role ≡ true
unfolding permissions
unknowns-nil c role h =
    all_intro (λ p. has_permission p all_permissions) (perms_of c role)
      (λ p m. not-false (has_permission p all_permissions) (
        keep-eq-nil (λ q. not (has_permission q all_permissions)) (permissions c role) h
          (mem-sort str_le m)))

knows_all-unknowns : (c : Catalog) (role : Str) → knows_all c role ≡ true → unknowns c role ≡ []
unfolding permissions
knows_all-unknowns c role h =
    keep-nil (λ p. not (has_permission p all_permissions)) (permissions c role)
      (λ p m. ap not (
        all_elim (λ q. has_permission q all_permissions)
          (mem_of_mem-sort str_le (perms_of c role) m) h))

role_problems-nil : (c : Catalog) (role : Str) → role_problems c role ≡ [] → is_sound c role ≡ true
unfolding role_problems is_sound
role_problems-nil c role h =
    let parts = append-eq-nil (map (λ p. unknown_permission role p) (unknowns c role)) _ h in
    ground (
      arith,
      unknowns-nil c role (map-eq-nil (λ p. unknown_permission role p) (unknowns c role) parts.0),
      parts.1,
    )

sound_role : (c : Catalog) (role : Str) → is_sound c role ≡ true → role_problems c role ≡ []
unfolding role_problems is_sound
sound_role c role h = rw (knows_all-unknowns c role (and_true _ _ h).0) (ground arith)

problems_of-nil : (c : Catalog) (rs : List Str) → problems_of c rs ≡ [] → all (is_sound c) rs ≡ true
unfolding problems_of all
problems_of-nil c [] h = refl
problems_of-nil c (r ∷ rs) h =
    let parts = append-eq-nil (role_problems c r) (problems_of c rs) h in
    ground (arith, role_problems-nil c r parts.0, problems_of-nil c rs parts.1)

sound_roles : (c : Catalog) (rs : List Str) → all (is_sound c) rs ≡ true → problems_of c rs ≡ []
unfolding problems_of all
sound_roles c [] h = refl
sound_roles c (r ∷ rs) h =
    let parts = and_true (is_sound c r) (all (is_sound c) rs) h in
    rw (sound_role c r parts.0, sound_roles c rs parts.1)

all-sort : (f : Str → Bool) (xs : List Str) → all f (sort str_le xs) ≡ all f xs
all-sort f xs =
    Bool_ext _ _ (λ h. all_intro f xs (λ x m. all_elim f (mem-sort str_le m) h))
      (λ h. all_intro f (sort str_le xs) (λ x m. all_elim f (mem_of_mem-sort str_le xs m) h))

-- The validation reports no problem exactly if every role of the catalog has only known
-- permissions, and lists tools if it calls them.
pub validate_catalog_iff :
    (c : Catalog) → (validate_catalog c ≡ []) ↔ (all (is_sound c) (keys c) ≡ true)
unfolding validate_catalog roles
validate_catalog_iff c = (
  (λ h. sym (all-sort (is_sound c) (keys c)) ∙ problems_of-nil c (sort str_le (keys c)) h),
  (λ h. sound_roles c (sort str_le (keys c)) (all-sort (is_sound c) (keys c) ∙ h)),
)

lookup-mem-keys :
    (c : Catalog) (role : Str) {ps : List Permission} → lookup role c ≡ some ps → Memᴰ role (keys c)
unfolding lookup keys
lookup-mem-keys [] role h = cc
lookup-mem-keys ((r, qs) ∷ c) role h = elim (Bool-cases (str_eq r role)) [
  | inl e ↦ Memᴰ.head (sym ((str_eq_iff r role).0 e))
  | inr e ↦ Memᴰ.tail (lookup-mem-keys c role (rw e at h))
]

-- A role that is not in the catalog holds nothing, so every role of a valid catalog that calls
-- tools lists them.
call_implies_list :
    (c : Catalog) (role : Str)
    → all (is_sound c) (keys c) ≡ true
    → has_permission tool_call (perms_of c role) ≡ true
    → has_permission tool_list (perms_of c role) ≡ true
unfolding is_sound
call_implies_list c role v h = elim (Option-cases (lookup role c)) [
  | inl e ↦ absurd (unfold perms_of has_permission any in ground arith)
  | inr (ps, e) ↦ ground (arith, all_elim (is_sound c) (lookup-mem-keys c role e) v)
]

-- Under a valid catalog there is no hidden capability: a principal that may call a tool may also
-- list it, whatever its grants.
pub prepare-no_hidden_call :
    (c : Catalog) (gs : List Grant) (r : Str)
    → validate_catalog c ≡ []
    → prepare gs c tool_call r ≡ true
    → prepare gs c tool_list r ≡ true
unfolding allowed permits
prepare-no_hidden_call c gs r v h =
    let (g, m, ok) =
      any_elim (permits c tool_call r) gs (sym (prepare-allowed gs c tool_call r) ∙ h) in
    let both =
      and_true (has_permission tool_call (perms_of c g.role)) (scope_covers g.scope r) ok in
    prepare-allowed gs c tool_list r
    ∙ any_intro (permits c tool_list r) m
        (ground (arith, both.1, call_implies_list c g.role ((validate_catalog_iff c).0 v) both.0))
