-- ===== src/Origin/Forward.antt =====
-- What the middleware of snulbug/public_origin.py forwards of the headers that a client sends.
use mathlib.Core.List.{Memᴰ}
use mathlib.Core.List.Memᴰ
use mathlib.Core.Path.{subst}
use text.Mathlib.Text.{starts_with}
use snulbug.Base.{
  ◌≡◌, refl, ◌⊎◌, inl, inr, String, List, [], ◌∷◌, true, false, Option, none, some, arith, ◌++◌,
  keep, Bool-cases, Option-cases, ◌==◌, eq_iff, contains,
}
use snulbug.Base.Result.{Result, ok, err}
use Prim.Native.String
use snulbug.Base.Sort.{keep-Mem}
use snulbug.Base.Asgi.{Header, Scope}
use snulbug.Origin.{
  Library, PublicOrigin, OriginError, passed, middleware, is_forwarded, own_headers,
  captured_origin_matches, captured_values, matches_origin, values_of, same_origin, public_origin,
}

-- A name in lower case under which a client or a proxy claims a public origin.
abbrev pub IsClaim : String → Type 0
IsClaim name =
    (starts_with name "x-forwarded-" ≡ true)
    ⊎ (name ≡ "forwarded")
    ⊎ (name ≡ "x-original-host")
    ⊎ (name ≡ "x-original-proto")

-- A name in lower case under which the tunnel captures the public origin.
abbrev pub IsCapture : String → Type 0
IsCapture name = (name ≡ "x-snulbug-original-host") ⊎ (name ≡ "x-snulbug-original-proto")

module _ (py : Library) where
  -- Two captured values, a host and a scheme in ASCII, are together a text that reads as the origin.
  abbrev pub Names : PublicOrigin → String → String → Type 0
  Names o raw_host raw_scheme =
      (host : String) × (scheme : String) × (found : PublicOrigin) × (py.ascii raw_host ≡ some host)
      × (py.ascii raw_scheme ≡ some scheme)
      × ((scheme ≡ "http") ⊎ (scheme ≡ "https"))
      × (public_origin py (some (String.◌++◌ scheme (String.◌++◌ "://" host))) ≡ ok (some found))
      × (found.scheme ≡ o.scheme)
      × (found.authority ≡ o.authority)
      × (found.port ≡ o.port)

  -- The tunnel captured nothing, or one host and one scheme that name the origin.
  abbrev pub Agrees : PublicOrigin → List String → List String → Type 0
  Agrees o hosts schemes =
      ((hosts ≡ []) × (schemes ≡ []))
      ⊎ ((host : String) × (scheme : String) × (hosts ≡ host ∷ [])
          × (schemes ≡ scheme ∷ [])
          × Names o host scheme)

  same_origin_sound :
      (a b : PublicOrigin)
      → same_origin py a b ≡ true
      → (a.scheme ≡ b.scheme) × (a.authority ≡ b.authority) × (a.port ≡ b.port)
  same_origin_sound a b h = (
    ground (arith, eq_iff a.scheme b.scheme),
    ground (arith, eq_iff a.authority b.authority),
    ground arith,
  )

  found-Names :
      (o : PublicOrigin) (raw_host raw_scheme host scheme : String)
      (read : Result OriginError (Option PublicOrigin))
      → py.ascii raw_host ≡ some host
      → py.ascii raw_scheme ≡ some scheme
      → contains ("http" ∷ "https" ∷ []) scheme ≡ true
      → public_origin py (some (String.◌++◌ scheme (String.◌++◌ "://" host))) ≡ read
      → elim read [ ok (some found) ↦ same_origin py found o | _ ↦ false ] ≡ true
      → Names o raw_host raw_scheme
  found-Names o raw_host raw_scheme host scheme (ok (some found)) h s web read m =
      let same = same_origin_sound found o m in
      (
        host,
        scheme,
        found,
        h,
        s,
        ground (arith, eq_iff "http" scheme, eq_iff "https" scheme),
        read,
        same.0,
        same.1,
        same.2,
      )
  found-Names o raw_host raw_scheme host scheme (ok none) h s web read m = absurd (cc m)
  found-Names o raw_host raw_scheme host scheme (err e) h s web read m = absurd (cc m)

  matches_origin-Names :
      (o : PublicOrigin) (raw_host raw_scheme : String)
      → matches_origin py raw_host raw_scheme o ≡ true
      → Names o raw_host raw_scheme
  unfolding matches_origin
  matches_origin-Names o raw_host raw_scheme h = elim (Option-cases (py.ascii raw_host)) [
    | inl none_ ↦ absurd (ground (arith, none_))
    | inr (host, some_) ↦ elim (Option-cases (py.ascii raw_scheme)) [
      | inl none_ ↦ absurd (ground (arith, some_, none_))
      | inr (scheme, read) ↦
          found-Names o raw_host raw_scheme host scheme _ some_ read (ground (arith, some_, read))
            refl (ground (arith, some_, read))
    ]
  ]

  captured_values-Agrees :
      (o : PublicOrigin) (hosts schemes : List String)
      → captured_values py hosts schemes o ≡ true
      → Agrees o hosts schemes
  unfolding captured_values
  captured_values-Agrees o [] [] h = inl (refl, refl)
  captured_values-Agrees o [] (s ∷ ss) h = absurd (cc h)
  captured_values-Agrees o (a ∷ []) [] h = absurd (cc h)
  captured_values-Agrees o (a ∷ []) (s ∷ []) h =
      inr (a, s, refl, refl, matches_origin-Names o a s h)
  captured_values-Agrees o (a ∷ []) (s ∷ s2 ∷ ss) h = absurd (cc h)
  captured_values-Agrees o (a ∷ b ∷ r) ss h = absurd (cc h)

  is_forwarded_sound :
      (o : PublicOrigin) (h : Header)
      → is_forwarded py (some o) h ≡ true
      → (¬ IsClaim (py.lower h.0)) × (¬ IsCapture (py.lower h.0))
  unfolding is_forwarded
  is_forwarded_sound o h t = (
    λ claim. ground (
      arith,
      eq_iff "forwarded" (py.lower h.0),
      eq_iff "x-original-host" (py.lower h.0),
      eq_iff "x-original-proto" (py.lower h.0),
    ),
    λ capture. ground (
      arith,
      eq_iff "x-snulbug-original-host" (py.lower h.0),
      eq_iff "x-snulbug-original-proto" (py.lower h.0),
    ),
  )

  sender :
      (o : PublicOrigin) (scope : Scope) (h : Header)
      → Memᴰ h (keep (is_forwarded py (some o)) scope.headers ++ own_headers py (some o) scope)
      → Memᴰ h (own_headers py (some o) scope)
        ⊎ (Memᴰ h scope.headers × (¬ IsClaim (py.lower h.0)) × (¬ IsCapture (py.lower h.0)))
  sender o scope h m = elim (Memᴰ.append_cases (keep (is_forwarded py (some o)) scope.headers) m) [
    | inl k ↦
        let kept = keep-Mem (is_forwarded py (some o)) scope.headers k in
        let clean = is_forwarded_sound o h kept.1 in inr (kept.0, clean.0, clean.1)
    | inr k ↦ inl k
  ]

  -- With an origin configured, a request over HTTP that the middleware passes on carries no captured
  -- values, or one host and one scheme that together read as this origin, and each header passed on
  -- is one of the middleware's own or a header of the client whose name neither claims nor captures
  -- an origin.
  pub middleware-no_claims :
      (o : PublicOrigin) (scope next : Scope) (h : Header)
      → scope.type ≡ "http"
      → middleware py (some o) scope ≡ passed next
      → Memᴰ h next.headers
      → Agrees o
          (values_of py "x-snulbug-original-host" scope.headers)
          (values_of py "x-snulbug-original-proto" scope.headers)
        × (Memᴰ h (own_headers py (some o) scope)
            ⊎ (Memᴰ h scope.headers × (¬ IsClaim (py.lower h.0)) × (¬ IsCapture (py.lower h.0))))
  unfolding middleware captured_origin_matches
  middleware-no_claims o scope next h web p m =
      let type : (scope.type == "http") ≡ true = (eq_iff scope.type "http").1 web in
      elim (Bool-cases (captured_origin_matches py scope.headers o)) [
        | inl e ↦
            let sent : next.headers
                ≡ keep (is_forwarded py (some o)) scope.headers ++ own_headers py (some o) scope =
              cc (e, type, p) in
            (captured_values-Agrees o _ _ e, sender o scope h (subst (λ l. Memᴰ h l) sent m))
        | inr e ↦ absurd (ground (arith, type))
      ]
