-- ===== src/Cache/Private.antt =====
-- The cache hints that leave the gateway of snulbug/mcp_cache.py.
use snulbug.Base.{
  ◌≡◌, ◌≢◌, refl, ap, ◌∙◌, ◌⊎◌, inl, inr, String, Bool, true, false, Option, none, some, arith,
  Bool-cases, eq_iff,
}
use snulbug.Base.Int.{pos}
use snulbug.Base.Json.{
  Json, Fields, null, bool, flt, arr, int, str, obj, get, put, pop, get-put, get-pop,
}
use snulbug.Cache.{Platform}
use snulbug.Cache.Results.{
  is_complete, is_left_alone, seal, result_of, fields_of, sealed_payload, private_result,
}

-- A result that no cache may keep: without hints, or with a time of zero and a private scope.
abbrev pub IsPrivate : Fields → Type 0
IsPrivate r =
    ((get r "ttlMs" ≡ none) × (get r "cacheScope" ≡ none))
    ⊎ ((get r "ttlMs" ≡ some (int (pos 0))) × (get r "cacheScope" ≡ some (str "private")))

left_alone-IsPrivate :
    (complete : Bool) (r : Fields) → is_left_alone complete r ≡ true → IsPrivate r
unfolding is_left_alone
left_alone-IsPrivate complete r h = inl (ground (arith, h), ground (arith, h))

seal-IsPrivate : (complete : Bool) (r : Fields) → IsPrivate (seal complete r)
unfolding seal
seal-IsPrivate true r = inr (simp (get-put), simp (get-put))
seal-IsPrivate false r = inl (simp (get-pop), simp (get-pop))

get-seal :
    (complete : Bool) (r : Fields) (k : String)
    → k ≢ "ttlMs"
    → k ≢ "cacheScope"
    → get (seal complete r) k ≡ get r k
unfolding seal
get-seal complete r k t c = ground (
  arith,
  eq_iff "ttlMs" k,
  eq_iff "cacheScope" k,
  get-put r "ttlMs" k (int (pos 0)),
  get-put (put r "ttlMs" (int (pos 0))) "cacheScope" k (str "private"),
  get-pop r "ttlMs" k,
  get-pop (pop r "ttlMs") "cacheScope" k,
)

result_of-put :
    (p : Json) (r s : Fields)
    → result_of p ≡ some r
    → result_of (obj (put (fields_of p) "result" (obj s))) ≡ some s
unfolding result_of
result_of-put (obj m) r s h = ground (
  arith,
  h,
  get-put m "result" "error" (obj s),
  get-put m "result" "method" (obj s),
  get-put m "result" "result" (obj s),
)
result_of-put null r s h = absurd (cc h)
result_of-put (bool b) r s h = absurd (cc h)
result_of-put (int n) r s h = absurd (cc h)
result_of-put (flt n e) r s h = absurd (cc h)
result_of-put (str t) r s h = absurd (cc h)
result_of-put (arr xs) r s h = absurd (cc h)

module _ (py : Platform) (body : String) (method : Option String) (p : Json) (r : Fields) where
  kept_body :
      is_left_alone (is_complete method r) r ≡ true
      → (sealed_payload py body method p (some r)).0 ≡ body
  unfolding sealed_payload
  kept_body h = ground (arith, h)

  sealed_body :
      is_left_alone (is_complete method r) r ≡ false
      → (sealed_payload py body method p (some r)).0
        ≡ py.dumps (obj (put (fields_of p) "result" (obj (seal (is_complete method r) r))))
  unfolding sealed_payload
  sealed_body h = ground (arith, h)

module _ (py : Platform) where
  -- A body that is a response with a result leaves as it is or as the text of another payload. The
  -- result in what leaves has no cache hints, or a time of zero and a private scope; every other
  -- member of the result and of the payload is the one that came.
  pub private_result-IsPrivate :
      (body : String) (method : Option String) (p : Json) (r : Fields) (k j : String)
      → py.loads body ≡ some p
      → result_of p ≡ some r
      → k ≢ "ttlMs"
      → k ≢ "cacheScope"
      → j ≢ "result"
      → (q : Json) × (s : Fields) × (((private_result py body method).0 ≡ body) × (q ≡ p)
          ⊎ ((private_result py body method).0 ≡ py.dumps q))
        × (result_of q ≡ some s)
        × IsPrivate s
        × (get s k ≡ get r k)
        × (get (fields_of q) j ≡ get (fields_of p) j)
  unfolding private_result
  private_result-IsPrivate body method p r k j read found t c o =
      let reached : private_result py body method ≡ sealed_payload py body method p (some r) =
        ground (arith, read, found) in
      elim (Bool-cases (is_left_alone (is_complete method r) r)) [
        | inl e ↦ (
          p,
          r,
          inl (ap (λ x. x.0) reached ∙ kept_body py body method p r e, refl),
          found,
          left_alone-IsPrivate _ r e,
          refl,
          refl,
        )
        | inr e ↦
            let s = seal (is_complete method r) r in
            (
              obj (put (fields_of p) "result" (obj s)),
              s,
              inr (ap (λ x. x.0) reached ∙ sealed_body py body method p r e),
              result_of-put p r s found,
              seal-IsPrivate _ r,
              get-seal _ r k t c,
              ground (arith, eq_iff "result" j, get-put (fields_of p) "result" j (obj s)),
            )
      ]
