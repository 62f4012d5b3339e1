-- ===== src/Mounts/Reserved.antt =====
-- No mount of snulbug/http_routes.py takes a path of the MCP endpoint or of the gateway.
use mathlib.Core.List.{Memᴰ}
use mathlib.Core.Path.{subst}
use mathlib.Core.List.Memᴰ
use snulbug.Base.{
  ℕ, ◌≡◌, refl, sym, ap, ◌∙◌, inl, inr, String, Bool, true, false, not, ◌||◌, Option, some, List,
  [], ◌∷◌, any, all, contains, or_else, arith, Bool-cases, Option-cases, ◌==◌,
}
use snulbug.Base.Result.{Result, err, ok, bind-ok, Result-cases}
use snulbug.Base.Json.{get, keys, str, obj, Json, Items, nil, cons, arr}
use snulbug.Mounts.{Platform, MountError, Route, path_matches}
use snulbug.Mounts.Contract.{check, normalize_contract, Mount, contract_for, http_route_contract}
use snulbug.Mounts.Normalize.{
  is_valid_prefix, route_fields, upstream_of, strip_of, overlaps, prefix_of, normalize_route,
  normalize_items, reserved, normalize_http_routes,
}
use Prim.Native.String.{count}
use snulbug.Origin.{public_origin}
use snulbug.Base.Asgi.{Scope}
use snulbug.Mounts.Serve.{
  Received, Request, Reply, passed, select, by_length, contracts, new_routes, serve,
}
use snulbug.Mounts.Paths.{overlapping}
use snulbug.Base.Sort.{find-Mem, sorted_falling-Mem, sorted_falling}

any-Mem {ℓ} :
    {A : Type ℓ} {a : A} (p : A → Bool) (l : List A) → any p l ≡ false → Memᴰ a l → p a ≡ false
any-Mem p [] h m = elim m [ ]
any-Mem p (x ∷ xs) h (Memᴰ.head q) = let e = ap p q in ground (arith, e)
any-Mem p (x ∷ xs) h (Memᴰ.tail n) =
    let rest : any p xs ≡ false = ground arith in any-Mem p xs rest n

check-ok : (b : Bool) (e : MountError) (u : Unit {0}) → check b e ≡ ok u → b ≡ true
check-ok true e u h = refl
check-ok false e u h = absurd (cc h)

abbrev prefix_in : String → Result MountError Mount → String
prefix_in p (ok mount) = mount.prefix
prefix_in p (err e) = p

module _ (py : Platform) (mcp_path : String) where
  prefix_of-clear :
      (prefixes : List String) (value : Option Json) (prefix : String)
      → prefix_of py mcp_path prefixes value ≡ ok prefix
      → overlaps py mcp_path prefix ≡ false
  unfolding prefix_of
  prefix_of-clear prefixes (some (str given)) prefix h =
      let valid = bind-ok (check (is_valid_prefix py given) _) _ prefix h in
      let clear =
        bind-ok (check (not (overlaps py mcp_path (py.rstrip_slashes given))) _) _ prefix valid.2 in
      let test =
        check-ok (not (overlaps py mcp_path (py.rstrip_slashes given))) _ clear.0 clear.1 in
      let fresh =
        bind-ok (check (not (contains prefixes (py.rstrip_slashes given))) _) _ prefix clear.2 in
      let same : py.rstrip_slashes given ≡ prefix = cc fresh.2 in
      let apart : overlaps py mcp_path (py.rstrip_slashes given) ≡ false = ground (arith, test) in
      subst (λ p. overlaps py mcp_path p ≡ false) same apart
  prefix_of-clear prefixes _ prefix h = absurd (cc h)

  normalize_route-clear :
      (prefixes : List String) (route : Json) (mount : Mount)
      → normalize_route py mcp_path prefixes route ≡ ok mount
      → overlaps py mcp_path mount.prefix ≡ false
  unfolding normalize_route
  normalize_route-clear prefixes (obj route) mount h =
      let known = bind-ok (check (all (contains route_fields) (keys route)) _) _ mount h in
      let prefix = bind-ok (prefix_of py mcp_path prefixes (get route "prefix")) _ mount known.2 in
      let upstream = bind-ok (upstream_of py route) _ mount prefix.2 in
      let strip = bind-ok (strip_of py route) _ mount upstream.2 in
      let contract = bind-ok (normalize_contract py route) _ mount strip.2 in
      let clear = prefix_of-clear prefixes (get route "prefix") prefix.0 prefix.1 in
      let same : prefix.0 ≡ mount.prefix = ap (prefix_in prefix.0) contract.2 in
      subst (λ p. overlaps py mcp_path p ≡ false) same clear
  normalize_route-clear prefixes _ mount h = absurd (cc h)

  normalize_items-clear :
      (prefixes : List String) (routes : Items) (mounts : List Mount) (mount : Mount)
      → normalize_items py mcp_path prefixes routes ≡ ok mounts
      → Memᴰ mount mounts
      → overlaps py mcp_path mount.prefix ≡ false
  unfolding normalize_items
  normalize_items-clear prefixes nil mounts mount h m =
      let none_left : mounts ≡ [] = cc h in
      absurd (Memᴰ.not-nil (subst (λ l. Memᴰ mount l) none_left m))
  normalize_items-clear prefixes (cons route routes) mounts mount h m =
      let first = bind-ok (normalize_route py mcp_path prefixes route) _ mounts h in
      let second =
        bind-ok (normalize_items py mcp_path (first.0.prefix ∷ prefixes) routes) _ mounts first.2 in
      let made : mounts ≡ first.0 ∷ second.0 = cc second.2 in
      elim (Memᴰ.cases_cons (subst (λ l. Memᴰ mount l) made m)) [
        | inl q ↦
            let clear = normalize_route-clear prefixes route first.0 first.1 in
            cc (ap (λ n. n.prefix) q, clear)
        | inr n ↦ normalize_items-clear (first.0.prefix ∷ prefixes) routes second.0 mount second.1 n
      ]

  -- a path of a reserved place is no path of a mount that was let in
  apart :
      (path item prefix : String)
      → overlaps py mcp_path prefix ≡ false
      → Memᴰ item (reserved py mcp_path)
      → path_matches path item ≡ true
      → path_matches path prefix ≡ false
  unfolding overlaps
  apart path item prefix clear m p =
      let none_of : any (λ i. i == "/" || path_matches prefix i || path_matches i prefix)
            (reserved py mcp_path)
          ≡ false =
        ground arith in
      let test =
        any-Mem (λ i. i == "/" || path_matches prefix i || path_matches i prefix)
          (reserved py mcp_path) none_of m in
      elim (Bool-cases (path_matches path prefix)) [
        | inl e ↦ elim (overlapping path item prefix p e) [
          | inl q ↦ absurd (ground (arith, test, q))
          | inr q ↦ absurd (ground (arith, test, q))
        ]
        | inr e ↦ e
      ]

module _ (py : Platform) (timeout : Json) (public_url : Option String) where
  http_route_contract-prefix :
      (mount : Mount) (route : Route)
      → http_route_contract py timeout public_url mount ≡ ok route
      → mount.prefix ≡ route.prefix
  unfolding http_route_contract contract_for
  http_route_contract-prefix mount route h =
      elim (Result-cases (public_origin py.library public_url)) [
        | inl o ↦ absurd (ground (arith, o.1))
        | inr o ↦ ground (arith, o.1)
      ]

  contracts-Mem :
      (mounts : List Mount) (routes : List Route) (route : Route)
      → contracts py timeout public_url mounts ≡ ok routes
      → Memᴰ route routes
      → (mount : Mount) × Memᴰ mount mounts × (mount.prefix ≡ route.prefix)
  unfolding contracts
  contracts-Mem [] routes route h m =
      let empty : routes ≡ [] = cc h in absurd (Memᴰ.not-nil (subst (λ l. Memᴰ route l) empty m))
  contracts-Mem (mount ∷ mounts) routes route h m =
      let first = bind-ok (http_route_contract py timeout public_url mount) _ routes h in
      let second = bind-ok (contracts py timeout public_url mounts) _ routes first.2 in
      let made : routes ≡ first.0 ∷ second.0 = cc second.2 in
      elim (Memᴰ.cases_cons (subst (λ l. Memᴰ route l) made m)) [
        | inl q ↦ (
          mount,
          Memᴰ.head refl,
          http_route_contract-prefix mount first.0 first.1 ∙ ap (λ r. r.prefix) (sym q),
        )
        | inr n ↦
            let found = contracts-Mem mounts second.0 route second.1 n in
            (found.0, Memᴰ.tail found.1, found.2)
      ]

  normalize_http_routes-clear :
      (mcp_path : String) (configured : Json) (mounts : List Mount) (mount : Mount)
      → normalize_http_routes py mcp_path configured ≡ ok mounts
      → Memᴰ mount mounts
      → overlaps py mcp_path mount.prefix ≡ false
  unfolding normalize_http_routes
  normalize_http_routes-clear mcp_path (arr routes) mounts mount h m =
      normalize_items-clear py mcp_path [] routes mounts mount h m
  normalize_http_routes-clear mcp_path _ mounts mount h m = absurd (cc h)

  -- no route that is kept matches a reserved path
  new_routes-apart :
      (mcp_path : String) (configured : Json) (routes : List Route) (path item : String)
      (route : Route)
      → new_routes py mcp_path timeout public_url configured ≡ ok routes
      → Memᴰ item (reserved py mcp_path)
      → path_matches path item ≡ true
      → Memᴰ route routes
      → path_matches path route.prefix ≡ false
  unfolding new_routes by_length
  new_routes-apart mcp_path configured routes path item route h m p r =
      let mounts = bind-ok (normalize_http_routes py mcp_path configured) _ routes h in
      let found = bind-ok (contracts py timeout public_url mounts.0) _ routes mounts.2 in
      let sorted : routes ≡ sorted_falling (λ q. count q.prefix) found.0 = cc found.2 in
      let kept =
        sorted_falling-Mem (λ q. count q.prefix) found.0 (subst (λ l. Memᴰ route l) sorted r) in
      let source = contracts-Mem mounts.0 found.0 route found.1 kept in
      let clear =
        normalize_http_routes-clear mcp_path configured mounts.0 source.0 mounts.1 source.1 in
      subst (λ x. path_matches path x ≡ false) source.2
        (apart py mcp_path path item source.0.prefix clear m p)

  -- Whatever mounts are configured, the middleware that accepts them passes a request on whose path
  -- is the MCP path, is /.well-known or /snulbug, or lies below one of them.
  pub serve-reserved :
      (mcp_path lease_header : String) (configured : Json) (routes : List Route)
      (exchange : Request → Reply) (scope : Scope) (messages : List Received) (left : Option ℕ)
      (item : String)
      → new_routes py mcp_path timeout public_url configured ≡ ok routes
      → Memᴰ item (reserved py mcp_path)
      → path_matches (or_else scope.path "") item ≡ true
      → serve py lease_header exchange routes scope messages left ≡ passed
  unfolding serve select
  serve-reserved mcp_path lease_header configured routes exchange scope messages left item h m p =
      let path = or_else scope.path "" in
      elim (Option-cases (select routes path)) [
        | inl e ↦ ground (arith, e)
        | inr e ↦
            let found = find-Mem (λ r. path_matches path r.prefix) routes e.1 in
            let never = new_routes-apart mcp_path configured routes path item e.0 h m p found.0 in
            absurd (cc (never, found.1))
      ]
