-- ===== src/Edge/Gateway.antt =====
-- internal/dataplane/edge/edge.go: what the endpoint answers, and its cache of one server per
-- principal. A server is known by the view and the catalog it is built from; `refusal` is the error
-- of `buildServer`, which the SDK decides. What one request reads of the store, it reads in one
-- state. Metrics, logs and the pool of connections are left out.
use mcpdoll.Base.{
  ℕ, Str, Bool, true, false, Option, none, some, List, [], ◌∷◌, ◌≡◌, ◌==◌, if◌then◌else◌, Result,
  ok, err,
}
use mcpdoll.Base.Dict.{Dict, lookup, insert, str_key}
use mcpdoll.Snapshot.View.{View, version}
use mcpdoll.Snapshot.Catalog.{PrincipalView}
use mcpdoll.Snapshot.Revocations.{refuses}
use mcpdoll.Snapshot.Store.{ViewError, Store, revocations_of, principal_view}
use mcpdoll.Edge.Identity.{Identity, AuthError, Header}
pub mod Answers

pub record Server : Type 0 where
  pub built_from : View
  pub catalog : PrincipalView

pub record Edge : Type 0 where
  pub version : ℕ
  pub servers : Dict Str Server

pub data ServerError : Type 0 where
  no_view : ServerError
  no_catalog : ViewError → ServerError
  not_built : Str → ServerError

-- `principalCache.get`, `put` and `Purge`
unfoldable pub cached_server : Str → Edge → Option Server
cached_server id e = lookup id e.servers

unfoldable pub put_server : Str → Server → Edge → Edge × Server
unfolding cached_server
put_server id server e = elim (cached_server id e) [
  | some existing ↦ (e, existing)
  | none ↦ (record e { servers = insert id server e.servers }, server)
]

abbrev pub purge : Edge → Edge
purge e = record e { servers = [] }

-- `rebuild`, the store's preparer, which refuses no view.
unfoldable pub rebuild : View → Edge → Edge
rebuild view e = record { version = version view; servers = [] }

-- The answers of `serveMCP`: 503, 401, 401, 403, and the server of the principal.
pub data Answer : Type 0 where
  unavailable unauthorized revoked : Answer
  forbidden : ServerError → Answer
  served : Identity → Server → Answer

unfoldable pub answer_for :
    Identity → Edge × Store × Result ServerError Server → Edge × Store × Answer
answer_for who (e, s, ok server) = (e, s, served who server)
answer_for who (e, s, err f) = (e, s, forbidden f)

unfoldable pub built_server :
    Option Str → Str → Server → Edge → Store → Edge × Store × Result ServerError Server
unfolding put_server
built_server (some reason) id server e s = (e, s, err (not_built reason))
built_server none id server e s = let (e', kept) = put_server id server e in (e', s, ok kept)

module _ (refusal : View → PrincipalView → Option Str) where
  unfoldable pub composed_server :
      Result ViewError PrincipalView
      → Str
      → View
      → Edge
      → Store
      → Edge × Store × Result ServerError Server
  unfolding built_server
  composed_server (err f) id view e s = (e, s, err (no_catalog f))
  composed_server (ok catalog) id view e s =
      built_server (refusal view catalog) id (record { built_from = view; catalog = catalog }) e s

  unfoldable pub server_in :
      Option Server → Option View → Str → Edge → Store → Edge × Store × Result ServerError Server
  unfolding composed_server
  server_in (some server) current id e s = (e, s, ok server)
  server_in none none id e s = (e, s, err no_view)
  server_in none (some view) id e s =
      let (s', r) = principal_view id s in composed_server r id view e s'

  -- `serverFor`
  unfoldable pub server_for : Str → Edge → Store → Edge × Store × Result ServerError Server
  unfolding server_in cached_server
  server_for id e s = server_in (cached_server id e) s.current id e s

  -- The edge after calls of `serverFor` one after another, of whoever and each over its own store.
  unfoldable pub serve_each : List (Str × Store) → Edge → Edge
  serve_each [] e = e
  serve_each ((id, s) ∷ calls) e = serve_each calls (server_for id e s).0

  unfoldable pub admitted : Result AuthError Identity → Edge → Store → Edge × Store × Answer
  unfolding answer_for
  admitted (err _) e s = (e, s, unauthorized)
  admitted (ok who) e s =
      if refuses (revocations_of s) who.id
      then (e, s, revoked)
      else answer_for who (server_for who.id e s)

  -- `serveMCP`, up to the SDK's handler.
  unfoldable pub serve_mcp :
      (Header → Result AuthError Identity) → Header → Edge → Store → Edge × Store × Answer
  unfolding admitted
  serve_mcp resolve h e s = if e.version == 0 then (e, s, unavailable) else admitted (resolve h) e s
