-- ===== src/Edge/Gateway/Answers.antt =====
-- Whom the endpoint serves, and how long it serves the same catalog.
use mcpdoll.Base.{
  ℕ, Str, false, Option, none, some, List, [], ◌∷◌, ◌≡◌, refl, sym, ap, ◌∙◌, subst, ◌==◌, str_eq,
  str_eq_iff, str_eq_refl, Bool-cases, Option-cases, Result, ok, err, ◌⊎◌, inl, inr,
}
use mcpdoll.Base.Dict.{insert, lookup-insert, str_key}
use mcpdoll.Proto.Snapshot.{Snapshot}
use mcpdoll.Snapshot.View.{View}
use mcpdoll.Snapshot.Principals.{Principals, empty_principals}
use mcpdoll.Snapshot.Catalog.{PrincipalView}
use mcpdoll.Snapshot.Revocations.{refuses}
use mcpdoll.Snapshot.Store.{ViewError, Store, revocations_of, principal_view}
use mcpdoll.Snapshot.Store.Steps.{IsReachable}
use mcpdoll.Snapshot.Store.Cached.{composed_anew, principal_view-composed_anew}
use mcpdoll.Edge.Identity.{Identity, AuthError, Header}
use mcpdoll.Edge.Gateway.{
  Server, Edge, ServerError, cached_server, put_server, built_server, composed_server, server_in,
  server_for, serve_each, Answer, unavailable, revoked, served, answer_for, admitted, serve_mcp,
}

-- The server of a principal: one that is cached, or one built from the served view.
abbrev pub IsServer : (View → PrincipalView → Option Str) → Str → Edge → Store → Server → Type 0
IsServer refusal id e s server =
    (cached_server id e ≡ some server)
    ⊎ ((view : View) × (s.current ≡ some view)
        × (server.built_from ≡ view)
        × (refusal view server.catalog ≡ none)
        × ((principal_view id s).1 ≡ ok server.catalog))

-- What is put under a free id stands under it.
put_server-free :
    (id : Str) (server : Server) (e : Edge)
    → cached_server id e ≡ none
    → put_server id server e ≡ (record e { servers = insert id server e.servers }, server)
unfolding put_server
put_server-free id server e h = rw (h, put_server) refl

cached_server-insert :
    (id : Str) (server : Server) (e : Edge)
    → cached_server id (record e { servers = insert id server e.servers }) ≡ some server
unfolding cached_server
cached_server-insert id server e = lookup-insert id id server e.servers ∙ rw (str_eq_refl id) refl

built_server-Yields :
    (o : Option Str) (id : Str) (made : Server) (e : Edge) (s : Store) (server : Server)
    → cached_server id e ≡ none
    → (built_server o id made e s).2 ≡ ok server
    → (o ≡ none) × (server ≡ made) × (cached_server id (built_server o id made e s).0 ≡ some server)
unfolding built_server
built_server-Yields (some reason) id made e s server n y = cc
built_server-Yields none id made e s server n y =
    let p = put_server-free id made e n in
    let q : made ≡ server = ok-eq (ap (λ (z : Edge × Server). ok z.1) (sym p) ∙ y) in
    (
      refl,
      sym q,
      ap (λ (z : Edge × Server). cached_server id z.0) p
          ∙ cached_server-insert id made e
          ∙ ap (λ z. some z) q,
    )
  where
    ok-eq : {a b : Server} → ◌≡◌ {A = Result ServerError Server} (ok a) (ok b) → a ≡ b
    ok-eq h = cc

answer_for-served :
    (who w : Identity) (out : Edge × Store × Result ServerError Server) (server : Server)
    → (answer_for who out).2 ≡ served w server
    → (w ≡ who) × (out.2 ≡ ok server)
unfolding answer_for
answer_for-served who w (e, s, ok made) server y = (cc, cc)
answer_for-served who w (e, s, err f) server y = cc

no_answer :
    (who : Identity) (server : Server) → ◌≡◌ {A = Answer} unavailable (served who server) → ⊥
no_answer who server h = cc

not_served : (who : Identity) (server : Server) → ◌≡◌ {A = Answer} revoked (served who server) → ⊥
not_served who server h = cc

cached_server-insert_ne :
    (id j : Str) (server made : Server) (e : Edge)
    → cached_server j e ≡ none
    → cached_server id e ≡ some server
    → cached_server id (record e { servers = insert j made e.servers }) ≡ some server
unfolding cached_server
cached_server-insert_ne id j server made e f h =
    lookup-insert j id made e.servers ∙ elim (Bool-cases (str_eq j id)) [
      | inl g ↦ absurd (other ((str_eq_iff j id).0 g))
      | inr g ↦ rw g h
    ]
  where
    other : ¬ (j ≡ id)
    other same = cc

put_server-keeps :
    (id j : Str) (server made : Server) (e : Edge)
    → cached_server id e ≡ some server
    → cached_server id (put_server j made e).0 ≡ some server
unfolding put_server
put_server-keeps id j server made e h = elim (Option-cases (cached_server j e)) [
  | inl f ↦ rw (put_server-free j made e f) (cached_server-insert_ne id j server made e f h)
  | inr (kept, f) ↦ rw (f, put_server) h
]

built_server-keeps :
    (o : Option Str) (id j : Str) (server made : Server) (e : Edge) (s : Store)
    → cached_server id e ≡ some server
    → cached_server id (built_server o j made e s).0 ≡ some server
unfolding built_server
built_server-keeps none id j server made e s h = put_server-keeps id j server made e h
built_server-keeps (some reason) id j server made e s h = h

module _ (refusal : View → PrincipalView → Option Str) where
  composed_server-Yields :
      (r : Result ViewError PrincipalView) (id : Str) (view : View) (e : Edge) (s : Store)
      (server : Server)
      → cached_server id e ≡ none
      → (composed_server refusal r id view e s).2 ≡ ok server
      → (server.built_from ≡ view)
        × (refusal view server.catalog ≡ none)
        × (r ≡ ok server.catalog)
        × (cached_server id (composed_server refusal r id view e s).0 ≡ some server)
  unfolding composed_server
  composed_server-Yields (err f) id view e s server n y = cc
  composed_server-Yields (ok catalog) id view e s server n y =
      let (o, q, c) =
        built_server-Yields (refusal view catalog) id
          (record { built_from = view; catalog = catalog }) e s server n y in
      (
        ap (λ (z : Server). z.built_from) q,
        subst (λ (z : Server). refusal view z.catalog ≡ none) (sym q) o,
        ap (λ (z : Server). ok z.catalog) (sym q),
        c,
      )

  server_in-IsServer :
      (o : Option Server) (v : Option View) (id : Str) (e : Edge) (s : Store) (server : Server)
      → cached_server id e ≡ o
      → s.current ≡ v
      → (server_in refusal o v id e s).2 ≡ ok server
      → IsServer refusal id e s server
        × (cached_server id (server_in refusal o v id e s).0 ≡ some server)
  unfolding server_in
  server_in-IsServer (some kept) v id e s server c h y =
      let f : kept ≡ server = cc in (inl (c ∙ ap (λ z. some z) f), c ∙ ap (λ z. some z) f)
  server_in-IsServer none none id e s server c h y = cc
  server_in-IsServer none (some view) id e s server c h y =
      let (b, r, p, k) =
        composed_server-Yields (principal_view id s).1 id view e (principal_view id s).0 server c
          y in
      (inr (view, h, b, r, p), k)

  composed_server-keeps :
      (r : Result ViewError PrincipalView) (id j : Str) (view : View) (e : Edge) (s : Store)
      (server : Server)
      → cached_server id e ≡ some server
      → cached_server id (composed_server refusal r j view e s).0 ≡ some server
  unfolding composed_server
  composed_server-keeps (ok c) id j view e s server h =
      built_server-keeps (refusal view c) id j server (record { built_from = view; catalog = c }) e
        s h
  composed_server-keeps (err f) id j view e s server h = h

  server_in-keeps :
      (o : Option Server) (v : Option View) (id j : Str) (e : Edge) (s : Store) (server : Server)
      → cached_server id e ≡ some server
      → cached_server id (server_in refusal o v j e s).0 ≡ some server
  unfolding server_in
  server_in-keeps (some kept) v id j e s server h = h
  server_in-keeps none none id j e s server h = h
  server_in-keeps none (some view) id j e s server h =
      composed_server-keeps (principal_view j s).1 id j view e (principal_view j s).0 server h

  -- A call of `serverFor` for anybody leaves what is cached.
  server_for-keeps :
      (id j : Str) (e : Edge) (s : Store) (server : Server)
      → cached_server id e ≡ some server
      → cached_server id (server_for refusal j e s).0 ≡ some server
  unfolding server_for
  server_for-keeps id j e s server h =
      server_in-keeps (cached_server j e) s.current id j e s server h

  serve_each-keeps :
      (id : Str) (calls : List (Str × Store)) (e : Edge) (server : Server)
      → cached_server id e ≡ some server
      → cached_server id (serve_each refusal calls e) ≡ some server
  unfolding serve_each
  serve_each-keeps id [] e server h = h
  serve_each-keeps id ((j, s) ∷ calls) e server h =
      serve_each-keeps id calls (server_for refusal j e s).0 server
        (server_for-keeps id j e s server h)

  -- Once a principal's server has been handed out it is handed out again after any calls of
  -- `serverFor` for anybody, whatever the store serves in each of them and by then: only a purge
  -- ends it, for no version is compared.
  pub server_for-again :
      (id : Str) (e : Edge) (s later : Store) (server : Server) (calls : List (Str × Store))
      → (server_for refusal id e s).2 ≡ ok server
      → server_for refusal id (serve_each refusal calls (server_for refusal id e s).0) later
        ≡ (serve_each refusal calls (server_for refusal id e s).0, later, ok server)
  unfolding server_for server_in
  server_for-again id e s later server calls y =
      let (_, k) = server_in-IsServer (cached_server id e) s.current id e s server refl refl y in
      let kept = serve_each-keeps id calls (server_for refusal id e s).0 server k in
      ap
        (λ o.
          server_in refusal o later.current id
            (serve_each refusal calls (server_for refusal id e s).0) later)
        kept

  admitted-served :
      (r : Result AuthError Identity) (e : Edge) (s : Store) (who : Identity) (server : Server)
      → (admitted refusal r e s).2 ≡ served who server
      → (r ≡ ok who)
        × (refuses (revocations_of s) who.id ≡ false)
        × ((server_for refusal who.id e s).2 ≡ ok server)
  unfolding admitted
  admitted-served (err _) e s who server y = cc
  admitted-served (ok caller) e s who server y =
      elim (Bool-cases (refuses (revocations_of s) caller.id)) [
        | inl t ↦ absurd (not_served who server (rw t at y))
        | inr t ↦
            let (w, o) =
              answer_for-served caller who (server_for refusal caller.id e s) server (rw t at y) in
            subst
              (λ (z : Identity).
                (◌≡◌ {A = Result AuthError Identity} (ok caller) (ok z))
                × (refuses (revocations_of s) z.id ≡ false)
                × ((server_for refusal z.id e s).2 ≡ ok server))
              (sym w) (refl, t, o)
      ]

  module _ (snapshots : ℕ → Snapshot) (sets : ℕ → Principals) where
    -- The endpoint serves a request only if a snapshot was loaded, a resolver has found out who
    -- calls, and the revocations in effect do not refuse it; the server is the one cached under the
    -- caller's id or is built, over a store that its methods have reached, from the catalog composed
    -- anew from what the store serves and holds, if each version names one snapshot and one
    -- principal set, and version 0 of the sets is the empty set.
    pub serve_mcp-IsServer :
        (resolve : Header → Result AuthError Identity) (h : Header) (e : Edge) (s : Store)
        (who : Identity) (server : Server)
        → sets 0 ≡ empty_principals
        → IsReachable snapshots sets s
        → (serve_mcp refusal resolve h e s).2 ≡ served who server
        → ((e.version == 0) ≡ false)
          × (resolve h ≡ ok who)
          × (refuses (revocations_of s) who.id ≡ false)
          × ((cached_server who.id e ≡ some server)
              ⊎ ((view : View) × (s.current ≡ some view)
                  × (server.built_from ≡ view)
                  × (composed_anew who.id s ≡ ok server.catalog)))
    unfolding serve_mcp admitted server_for
    serve_mcp-IsServer resolve h e s who server z r y = elim (Bool-cases (e.version == 0)) [
      | inl t ↦ absurd (no_answer who server (rw t at y))
      | inr t ↦
          let (q, f, o) = admitted-served (resolve h) e s who server (rw t at y) in
          (
            t,
            q,
            f,
            from_store
                (server_in-IsServer (cached_server who.id e) s.current who.id e s server refl refl
                  o).0,
          )
    ]
      where
        from_store :
            IsServer refusal who.id e s server
            → (cached_server who.id e ≡ some server)
              ⊎ ((view : View) × (s.current ≡ some view)
                  × (server.built_from ≡ view)
                  × (composed_anew who.id s ≡ ok server.catalog))
        from_store (inl c) = inl c
        from_store (inr (view, c, b, _, p)) =
            inr (view, c, b, sym (principal_view-composed_anew snapshots sets who.id s z r) ∙ p)
