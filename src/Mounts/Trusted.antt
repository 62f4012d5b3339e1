-- ===== src/Mounts/Trusted.antt =====
-- Which headers of a client reach the upstream of a mount of snulbug/http_routes.py.
use mathlib.Core.List.{Memᴰ}
use mathlib.Core.List.Memᴰ
use text.Mathlib.Text.{starts_with}
use snulbug.Base.{
  ◌≡◌, refl, ap, ◌⊎◌, inl, inr, String, true, false, Option, List, [], ◌∷◌, map, keep, contains,
  arith, eq_iff,
}
use snulbug.Base.Sort.{keep-Mem}
use snulbug.Base.Asgi.{Header, Scope}
use snulbug.Origin.{PublicOrigin}
use snulbug.Mounts.{Platform, Route}
use snulbug.Mounts.Headers.{
  hop_headers, lower, connection_tokens, is_end_to_end, end_to_end_headers, is_forwarded,
  gateway_headers, request_headers,
}

-- The names in lower case that only the gateway may send.
abbrev pub IsGateways : String → String → Type 0
IsGateways lease_header name =
    (starts_with name "x-snulbug-" ≡ true)
    ⊎ (starts_with name "x-forwarded-" ≡ true)
    ⊎ (name ≡ lease_header)
    ⊎ (name ≡ "forwarded")
    ⊎ (name ≡ "dpop")
    ⊎ (name ≡ "host")

-- A name under which a client sends credentials that the mount does not ask for.
abbrev pub IsCredential : Route → String → Type 0
IsCredential route name =
    ((name ≡ "authorization") × (route.forward_authorization ≡ false))
    ⊎ ((name ≡ "cookie") × (route.forward_cookies ≡ false))

is_forwarded_sound :
    (lease_header : String) (route : Route) (h : Header)
    → is_forwarded lease_header route h ≡ true
    → (¬ IsGateways lease_header h.0) × (¬ IsCredential route h.0)
unfolding is_forwarded
is_forwarded_sound lease_header route h t = (
  λ own. ground (
    arith,
    eq_iff lease_header h.0,
    eq_iff "forwarded" h.0,
    eq_iff "dpop" h.0,
    eq_iff h.0 "host",
  ),
  λ credential. ground (arith, eq_iff h.0 "authorization", eq_iff h.0 "cookie"),
)

map-Mem {ℓ} :
    {A B : Type ℓ} {b : B} (f : A → B) (l : List A)
    → Memᴰ b (map f l)
    → (a : A) × Memᴰ a l × (b ≡ f a)
map-Mem f [] m = elim m [ ]
map-Mem f (x ∷ xs) (Memᴰ.head q) = (x, Memᴰ.head refl, q)
map-Mem f (x ∷ xs) (Memᴰ.tail n) = let r = map-Mem f xs n in (r.0, Memᴰ.tail r.1, r.2)

module _ (py : Platform) where
  end_to_end-Mem :
      (h : Header) (headers : List Header)
      → Memᴰ h (end_to_end_headers py headers)
      → (g : Header) × Memᴰ g headers
        × (h ≡ (lower py g.0, g.1))
        × (contains hop_headers h.0 ≡ false)
        × (contains (connection_tokens py headers) h.0 ≡ false)
  unfolding end_to_end_headers
  end_to_end-Mem h headers m =
      let made =
        map-Mem (λ g. (lower py g.0, g.1))
          (keep (is_end_to_end py (connection_tokens py headers)) headers) m in
      let kept = keep-Mem (is_end_to_end py (connection_tokens py headers)) headers made.1 in
      let name : h.0 ≡ lower py made.0.0 = ap (λ g. g.0) made.2 in
      let test : is_end_to_end py (connection_tokens py headers) made.0 ≡ true = kept.1 in
      (made.0, kept.0, made.2, ground (arith, name), ground (arith, name))

  -- A header that the upstream receives is one of the gateway's own, or a header that the client sent
  -- under a name that, in lower case, is no hop-by-hop name, is not listed by the client's Connection
  -- headers, is not reserved for the gateway, and carries no credential that the mount does not
  -- forward; its value is the client's.
  pub request_headers-trusted :
      (lease_header : String) (scope : Scope) (route : Route) (origin : Option PublicOrigin)
      (h : Header)
      → Memᴰ h (request_headers py lease_header scope route origin)
      → Memᴰ h (gateway_headers py route scope origin)
        ⊎ ((g : Header) × Memᴰ g scope.headers
            × (h ≡ (lower py g.0, g.1))
            × (contains hop_headers h.0 ≡ false)
            × (contains (connection_tokens py scope.headers) h.0 ≡ false)
            × (¬ IsGateways lease_header h.0)
            × (¬ IsCredential route h.0))
  unfolding request_headers
  request_headers-trusted lease_header scope route origin h m =
      let sent = end_to_end_headers py scope.headers in
      elim (Memᴰ.append_cases (keep (is_forwarded lease_header route) sent) m) [
        | inl k ↦
            let kept = keep-Mem (is_forwarded lease_header route) sent k in
            let from = end_to_end-Mem h scope.headers kept.0 in
            let safe = is_forwarded_sound lease_header route h kept.1 in
            inr (from.0, from.1, from.2, from.3, from.4, safe.0, safe.1)
        | inr k ↦ inl k
      ]
