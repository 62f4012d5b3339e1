-- ===== src/Continuations/Bounded.antt =====
-- What a continuation of snulbug/mcp_mrtr.py may carry.
use Prim.Native.String.{len}
use snulbug.Base.{
  ℕ, ◌≤◌, ◌≡◌, ◌≢◌, ◌↔◌, refl, ◌⊎◌, inl, inr, String, true, ◌&&◌, ◌||◌, Option, none, some,
  contains, arith, Bool-cases, eq_iff, leb, leb→le,
}
use snulbug.Base.Json.{Json, Fields, null, bool, int, flt, str, arr, obj, end, field, get}
use snulbug.Continuations.{
  is_mapping, mrtr_methods, max_inputs, max_state_bytes, max_input_bytes, has, unless, or_next,
  size, are_objects, state_issue, state_value_issue, answers_issue, map_invalid, map_too_large,
  map_issue, continuation_issue,
}
use snulbug.Continuations.Declared.{or_next-none, unless-none}

-- The methods that may be continued.
abbrev pub IsSupported : String → Type 0
IsSupported method =
    (method ≡ "tools/call") ⊎ (method ≡ "resources/read") ⊎ (method ≡ "prompts/get")

-- A state is a text that is short enough.
abbrev pub IsShort : Option Json → Type 0
IsShort state = (state ≡ none) ⊎ ((s : String) × (state ≡ some (str s)) × (len s ≤ max_state_bytes))

-- Every key is bounded and not empty, and holds an object.
abbrev pub HoldsObjects : Fields → Type 0
HoldsObjects end = Unit
HoldsObjects (field k v m) =
    (k ≢ "") × (len k ≤ 256) × ((inner : Fields) × (v ≡ obj inner)) × HoldsObjects m

-- The answers to inputs are few objects, and their text is short enough.
abbrev pub IsSmall : (Json → ℕ) → Option Json → Type 0
IsSmall dumped answers =
    (answers ≡ none)
    ⊎ ((m : Fields) × (answers ≡ some (obj m))
        × (size m ≤ max_inputs)
        × HoldsObjects m
        × (dumped (obj m) ≤ max_input_bytes))

is_mapping-obj : (v : Json) → (is_mapping (some v) ≡ true) ↔ ((inner : Fields) × (v ≡ obj inner))
is_mapping-obj (obj m) = (λ h. (m, refl), λ h. refl)
is_mapping-obj null = (λ h. absurd (cc h), λ h. absurd (cc (h.1)))
is_mapping-obj (bool b) = (λ h. absurd (cc h), λ h. absurd (cc (h.1)))
is_mapping-obj (int n) = (λ h. absurd (cc h), λ h. absurd (cc (h.1)))
is_mapping-obj (flt n e) = (λ h. absurd (cc h), λ h. absurd (cc (h.1)))
is_mapping-obj (str s) = (λ h. absurd (cc h), λ h. absurd (cc (h.1)))
is_mapping-obj (arr xs) = (λ h. absurd (cc h), λ h. absurd (cc (h.1)))

are_objects-HoldsObjects : (m : Fields) → (are_objects m ≡ true) ↔ HoldsObjects m
unfolding are_objects
are_objects-HoldsObjects end = (λ h. tt, λ h. refl)
are_objects-HoldsObjects (field k v m) = (
  λ h. (
    ground (arith, eq_iff k ""),
    leb→le _ _ (ground arith),
    (is_mapping-obj v).0 (ground arith),
    (are_objects-HoldsObjects m).0 (ground arith),
  ),
  λ (named, short, mapped, rest). ground (
    arith,
    eq_iff k "",
    named,
    short,
    (is_mapping-obj v).1 mapped,
    (are_objects-HoldsObjects m).1 rest,
  ),
)

short-clear : (state : Option Json) → IsShort state → state_value_issue state ≡ none
unfolding state_value_issue
short-clear state (inl missing) = rw (missing) refl
short-clear state (inr (s, is_text, short)) = rw (is_text) (ground arith)

state-IsShort : (state : Option Json) → state_value_issue state ≡ none → IsShort state
unfolding state_value_issue
state-IsShort none h = inl refl
state-IsShort (some (str s)) h =
    inr (s, refl, leb→le _ _ (unless-none (leb (len s) max_state_bytes) _ h))
state-IsShort (some null) h = absurd (cc h)
state-IsShort (some (bool b)) h = absurd (cc h)
state-IsShort (some (int n)) h = absurd (cc h)
state-IsShort (some (flt n e)) h = absurd (cc h)
state-IsShort (some (arr xs)) h = absurd (cc h)
state-IsShort (some (obj m)) h = absurd (cc h)

module _ (dumped : Json → ℕ) where
  answers-IsSmall :
      (answers : Option Json) → answers_issue dumped answers ≡ none → IsSmall dumped answers
  unfolding answers_issue map_issue
  answers-IsSmall none h = inl refl
  answers-IsSmall (some (obj m)) h =
      let both =
        or_next-none (unless (leb (size m) max_inputs && are_objects m) map_invalid)
          (unless (leb (dumped (obj m)) max_input_bytes) map_too_large) h in
      let valid = unless-none (leb (size m) max_inputs && are_objects m) _ both.0 in
      let few : leb (size m) max_inputs ≡ true = ground (arith, valid) in
      let objects : are_objects m ≡ true = ground (arith, valid) in
      inr (
        m,
        refl,
        leb→le _ _ few,
        (are_objects-HoldsObjects m).0 objects,
        leb→le _ _ (unless-none (leb (dumped (obj m)) max_input_bytes) _ both.1),
      )
  answers-IsSmall (some null) h = absurd (cc h)
  answers-IsSmall (some (bool b)) h = absurd (cc h)
  answers-IsSmall (some (int n)) h = absurd (cc h)
  answers-IsSmall (some (flt n e)) h = absurd (cc h)
  answers-IsSmall (some (str t)) h = absurd (cc h)
  answers-IsSmall (some (arr xs)) h = absurd (cc h)

  small-clear :
      (answers : Option Json) → IsSmall dumped answers → answers_issue dumped answers ≡ none
  unfolding answers_issue map_issue
  small-clear answers (inl missing) = rw (missing) refl
  small-clear answers (inr (m, is_map, few, objects, short)) =
      let checked = (are_objects-HoldsObjects m).1 objects in rw (is_map) (ground (arith, checked))

  continuation-carried :
      (method : String) (params : Fields)
      → continuation_issue dumped method params ≡ none
      → ((get params "requestState" ≡ none) × (get params "inputResponses" ≡ none))
        ⊎ ((contains mrtr_methods method ≡ true)
            × IsShort (get params "requestState")
            × IsSmall dumped (get params "inputResponses"))
  unfolding continuation_issue
  continuation-carried method params h =
      elim (Bool-cases (has "requestState" params || has "inputResponses" params)) [
        | inl e ↦ elim (Bool-cases (contains mrtr_methods method)) [
          | inl f ↦
              let clear : or_next (state_issue params)
                    (answers_issue dumped (get params "inputResponses"))
                  ≡ none =
                ground (arith, e, f, h) in
              let both =
                or_next-none (state_issue params)
                  (answers_issue dumped (get params "inputResponses")) clear in
              inr (
                f,
                state-IsShort (get params "requestState") both.0,
                answers-IsSmall (get params "inputResponses") both.1,
              )
          | inr f ↦ absurd (ground (arith, e, f, h))
        ]
        | inr e ↦ inl (ground (arith, e), ground (arith, e))
      ]

  nothing-clear :
      (method : String) (params : Fields)
      → get params "requestState" ≡ none
      → get params "inputResponses" ≡ none
      → continuation_issue dumped method params ≡ none
  unfolding continuation_issue
  nothing-clear method params stateless unanswered = rw (stateless, unanswered) refl

  carried-clear :
      (method : String) (params : Fields)
      → contains mrtr_methods method ≡ true
      → IsShort (get params "requestState")
      → IsSmall dumped (get params "inputResponses")
      → continuation_issue dumped method params ≡ none
  unfolding continuation_issue
  carried-clear method params supported short small = ground (
    arith,
    supported,
    short-clear (get params "requestState") short,
    small-clear (get params "inputResponses") small,
  )

  -- The check of a request's continuation finds nothing to refuse exactly when its parameters carry
  -- no state and no answers, or the method supports continuations, the state is missing or a text of
  -- at most 64 KiB, and the answers are missing or at most 32 objects under keys that are not empty
  -- and of at most 256 characters, of at most 256 KiB as a text.
  pub continuation-IsBounded :
      (method : String) (params : Fields)
      → (continuation_issue dumped method params ≡ none) ↔ (
          ((get params "requestState" ≡ none) × (get params "inputResponses" ≡ none))
          ⊎ (IsSupported method
              × IsShort (get params "requestState")
              × IsSmall dumped (get params "inputResponses")))
  continuation-IsBounded method params = (
    λ clear. elim (continuation-carried method params clear) [
      | inl neither ↦ inl neither
      | inr (supported, short, small) ↦ inr (
        ground (
          arith,
          eq_iff "tools/call" method,
          eq_iff "resources/read" method,
          eq_iff "prompts/get" method,
        ),
        short,
        small,
      )
    ],
    λ carried. elim carried [
      | inl (stateless, unanswered) ↦ nothing-clear method params stateless unanswered
      | inr (supported, short, small) ↦
          carried-clear method params
            (ground (
              arith,
              eq_iff "tools/call" method,
              eq_iff "resources/read" method,
              eq_iff "prompts/get" method,
            ))
            short small
    ],
  )
