-- ===== src/Continuations/Declared.antt =====
-- What the client of snulbug/mcp_mrtr.py is asked for is what it has declared.
use mathlib.Core.Path.{subst}
use snulbug.Base.{
  ℕ, ◌≡◌, ◌≢◌, refl, sym, ap, ◌∙◌, ◌⊎◌, inl, inr, String, Bool, true, false, not, ◌&&◌, ◌||◌,
  Option, none, some, arith, contains, all, Bool-cases, Option-cases, ◌==◌, eq_iff, ◌∷◌, [],
  if◌then◌else◌,
}
use snulbug.Base.Result.{ok}
use snulbug.Base.Json.{Json, Fields, str, obj, end, field, get, mapping, keys}
use snulbug.Continuations.{MrtrIssue, input_methods, is_mapping, unless, or_next}
use snulbug.Continuations.Inputs.{
  feature_of, mode_of, asks_tools, asks_context, elicitation_issue, sampling_issue, mode_issue,
  use_issue, capability_issue, params_issue, method_issue, inputs_issue, checked_inputs,
  capabilities_of, envelope_issue, inputs_of, input_required_issue,
}

pub or_next-none : (a b : Option MrtrIssue) → or_next a b ≡ none → (a ≡ none) × (b ≡ none)
or_next-none none b h = (refl, h)
or_next-none (some i) b h = absurd (cc h)

pub unless-none : (b : Bool) (i : MrtrIssue) → unless b i ≡ none → b ≡ true
unless-none true i h = refl
unless-none false i h = absurd (cc h)

-- The uses of an elicitation or of a sampling that a client declares on its own.
abbrev pub IsCovered : Fields → String → Fields → Type 0
IsCovered capability method params =
    ((method ≢ "elicitation/create")
      ⊎ ((mode : String) × (mode_of params ≡ some mode)
          × (is_mapping (get capability mode) ≡ true)))
    × ((method ≢ "sampling/createMessage")
        ⊎ ((asks_tools params ≡ false) ⊎ (is_mapping (get capability "tools") ≡ true))
          × ((asks_context params ≡ false) ⊎ (is_mapping (get capability "context") ≡ true)))

-- An input whose method is one of a client, and whose feature the client declares with the uses that
-- it is asked for.
abbrev pub IsDeclared : Fields → Fields → Type 0
IsDeclared capabilities item =
    (method : String) × (capability : Fields) × (get item "method" ≡ some (str method))
    × (contains input_methods method ≡ true)
    × (get capabilities (feature_of method) ≡ some (obj capability))
    × IsCovered capability method (mapping (get item "params"))

mode_covered :
    (capability params : Fields) (mode : Option String)
    → mode_issue capability params mode ≡ none
    → (m : String) × (mode ≡ some m) × (is_mapping (get capability m) ≡ true)
unfolding mode_issue
mode_covered capability params none h = absurd (cc h)
mode_covered capability params (some mode) h =
    let rest = (or_next-none _ _ h).1 in (mode, refl, unless-none _ _ (or_next-none _ _ rest).0)

-- a test that is not asked for, or holds
either_way : (a b : Bool) → (not a || b) ≡ true → (a ≡ false) ⊎ (b ≡ true)
either_way true b h = inr h
either_way false b h = inl refl

sampling_covered :
    (capability params : Fields)
    → sampling_issue capability params ≡ none
    → ((asks_tools params ≡ false) ⊎ (is_mapping (get capability "tools") ≡ true))
      × ((asks_context params ≡ false) ⊎ (is_mapping (get capability "context") ≡ true))
unfolding sampling_issue
sampling_covered capability params h =
    let all_tokens = (or_next-none _ _ h).1 in
    let after = (or_next-none _ _ all_tokens).1 in
    let both = or_next-none _ _ after in
    (
      either_way (asks_tools params) (is_mapping (get capability "tools")) (unless-none _ _ both.0),
      either_way (asks_context params) (is_mapping (get capability "context"))
          (unless-none _ _ both.1),
    )

-- the issue of one method, for that method or another
only_for {ℓ} :
    {P : Type ℓ} (method name : String) (issue : Option MrtrIssue)
    → (if method == name then issue else none) ≡ none
    → (issue ≡ none → P)
    → (method ≢ name) ⊎ P
only_for method name issue h f = elim (Bool-cases (method == name)) [
  | inl e ↦ inr (f (ground (arith, e, h)))
  | inr e ↦ inl (λ q. absurd (cc (e, (eq_iff method name).1 q)))
]

use-IsCovered :
    (method : String) (capability params : Fields)
    → use_issue method capability params ≡ none
    → IsCovered capability method params
unfolding use_issue elicitation_issue
use-IsCovered method capability params h =
    let both =
      or_next-none
        (if method == "elicitation/create" then elicitation_issue capability params else none)
        (if method == "sampling/createMessage" then sampling_issue capability params else none) h in
    (
      only_for method "elicitation/create" (elicitation_issue capability params) both.0
          (λ e. mode_covered capability params (mode_of params) e),
      only_for method "sampling/createMessage" (sampling_issue capability params) both.1
          (λ e. sampling_covered capability params e),
    )

capability-IsCovered :
    (method : String) (found : Option Json) (params : Fields)
    → capability_issue method found params ≡ none
    → (capability : Fields) × (found ≡ some (obj capability)) × IsCovered capability method params
unfolding capability_issue
capability-IsCovered method (some (obj capability)) params h =
    (capability, refl, use-IsCovered method capability params h)
capability-IsCovered method _ params h = absurd (cc h)

params-IsCovered :
    (capabilities : Fields) (method : String) (found : Option Json)
    → params_issue capabilities method found ≡ none
    → (capability : Fields) × (get capabilities (feature_of method) ≡ some (obj capability))
      × IsCovered capability method (mapping found)
unfolding params_issue
params-IsCovered capabilities method none h =
    capability-IsCovered method (get capabilities (feature_of method)) end h
params-IsCovered capabilities method (some (obj params)) h =
    capability-IsCovered method (get capabilities (feature_of method)) params h
params-IsCovered capabilities method (some _) h = absurd (cc h)

method-IsCovered :
    (capabilities item : Fields) (found : Option Json)
    → method_issue capabilities item found ≡ none
    → (method : String) × (capability : Fields) × (found ≡ some (str method))
      × (contains input_methods method ≡ true)
      × (get capabilities (feature_of method) ≡ some (obj capability))
      × IsCovered capability method (mapping (get item "params"))
unfolding method_issue
method-IsCovered capabilities item (some (str method)) h =
    elim (Bool-cases
      (contains input_methods method && all (contains ("method" ∷ "params" ∷ [])) (keys item))) [
        | inl e ↦
            let clear : params_issue capabilities method (get item "params") ≡ none =
              ground (arith, e, h) in
            let known : contains input_methods method ≡ true = ground (arith, e) in
            let c = params-IsCovered capabilities method (get item "params") clear in
            (method, c.0, refl, known, c.1, c.2)
        | inr e ↦ absurd (ground (arith, e, h))
      ]
method-IsCovered capabilities item _ h = absurd (cc h)

item-IsDeclared :
    (capabilities inputs : Fields) (key : String) (item : Json)
    → inputs_issue capabilities inputs ≡ none
    → get inputs key ≡ some item
    → IsDeclared capabilities (mapping (some item))
unfolding inputs_issue get
item-IsDeclared capabilities end key item h g = absurd (cc g)
item-IsDeclared capabilities (field k v inputs) key item h g =
    let both =
      or_next-none (method_issue capabilities (mapping (some v)) (get (mapping (some v)) "method"))
        (inputs_issue capabilities inputs) h in
    elim (Bool-cases (k == key)) [
      | inl e ↦
          let same : v ≡ item = ground (arith, e, g) in
          subst (λ i. IsDeclared capabilities (mapping (some i))) same
            (method-IsCovered capabilities (mapping (some v)) (get (mapping (some v)) "method")
              both.0)
      | inr e ↦
          let rest : get inputs key ≡ some item = ground (arith, e, g) in
          item-IsDeclared capabilities inputs key item both.1 rest
    ]

checked-IsDeclared :
    (capabilities inputs : Fields) (found : Option Json) (key : String) (item : Json)
    → checked_inputs found inputs ≡ ok none
    → found ≡ some (obj capabilities)
    → get inputs key ≡ some item
    → IsDeclared capabilities (mapping (some item))
unfolding checked_inputs
checked-IsDeclared capabilities inputs found key item h f g =
    let none_left : inputs_issue capabilities inputs ≡ none =
      cc (ap (λ o. checked_inputs o inputs) (sym f) ∙ h) in
    item-IsDeclared capabilities inputs key item none_left g

module _ (dumped : Json → ℕ) where
  -- When a result that asks for input passes the checks, and the request that it answers declares the
  -- capabilities of its client, each input has a method for clients, whose feature the client
  -- declares; an elicitation has a mode that the client declares, and a sampling uses tools and
  -- context only where the client declares them.
  pub input_required-IsDeclared :
      (result request capabilities : Fields) (key : String) (item : Json)
      → input_required_issue dumped result request ≡ ok none
      → capabilities_of request ≡ some (obj capabilities)
      → get (mapping (some (inputs_of dumped result))) key ≡ some item
      → IsDeclared capabilities (mapping (some item))
  unfolding input_required_issue
  input_required-IsDeclared result request capabilities key item h c g =
      elim (Option-cases (envelope_issue dumped result request (inputs_of dumped result))) [
        | inl e ↦
            let checked : checked_inputs (capabilities_of request)
                  (mapping (some (inputs_of dumped result)))
                ≡ ok none =
              ground (arith, e, h) in
            checked-IsDeclared capabilities (mapping (some (inputs_of dumped result)))
              (capabilities_of request) key item checked c g
        | inr e ↦ absurd (ground (arith, e.1, h))
      ]
