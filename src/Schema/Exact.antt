-- ===== src/Schema/Exact.antt =====
-- What `_check_size` of snulbug/json_schema.py accepts.
use snulbug.Base.{
  ℕ, zero, suc, ◌+◌, ◌≤◌, ◌<◌, ◌≡◌, ◌↔◌, ◌⊎◌, inl, inr, Option-cases, refl, ap, sym, ◌∙◌, Bool,
  true, false, ◌&&◌, Option, none, some, List, [], ◌∷◌, length, leb, arith,
}
use snulbug.Schema.{Value, Values, scalar, other, dict, list, end, more, max_nodes, max_depth}
use snulbug.Schema.Size.{
  Verdict, Turn, accepted, validation_limit, non_json, stop, go, count_of, push, extend, expand,
  turn, walk, check_size,
}
use snulbug.Schema.Measure.{nodes, nodes_of, height, height_of, is_json, are_json}

-- What is left of a stack: its values' nodes, and whether they are JSON and not too deep.
abbrev weight : List (Value × ℕ) → ℕ
weight [] = 0
weight ((v, depth) ∷ pending) = nodes v + weight pending

abbrev sound : List (Value × ℕ) → Bool
sound [] = true
sound ((v, depth) ∷ pending) = leb (depth + height v) max_depth && (is_json v && sound pending)

abbrev fits : ℕ → List (Value × ℕ) → Bool
fits count pending = leb (count + weight pending) max_nodes && sound pending

some_node : (v : Value) → 1 ≤ nodes v
some_node scalar = ground arith
some_node other = ground arith
some_node (dict keys vs) = ground arith
some_node (list vs) = ground arith

length-weight : (pending : List (Value × ℕ)) → length pending ≤ weight pending
length-weight [] = ground arith
length-weight ((v, depth) ∷ pending) = ground (arith, some_node v, length-weight pending)

count_of-nodes_of : (vs : Values) → count_of vs ≤ nodes_of vs
count_of-nodes_of end = ground arith
count_of-nodes_of (more v vs) = ground (arith, some_node v, count_of-nodes_of vs)

weight-push :
    (vs : Values) (depth : ℕ) (pending : List (Value × ℕ))
    → weight (push vs depth pending) ≡ nodes_of vs + weight pending
weight-push end depth pending = ground arith
weight-push (more v vs) depth pending = ground (arith, weight-push vs depth ((v, depth) ∷ pending))

sound-push :
    (vs : Values) (depth : ℕ) (pending : List (Value × ℕ))
    → depth ≤ max_depth
    → sound (push vs (depth + 1) pending)
      ≡ (leb (depth + height_of vs) max_depth && (are_json vs && sound pending))
sound-push end depth pending shallow = ground arith
sound-push (more v vs) depth pending shallow =
    ground (arith, sound-push vs depth ((v, depth + 1) ∷ pending) shallow)

-- What a turn leaves of the judgement.
abbrev judged : ℕ → Turn → Bool
judged count (stop verdict) = false
judged count (go pending) = fits count pending

abbrev refuses : Turn → Bool
refuses (stop accepted) = false
refuses turn = true

extend-judged :
    (count : ℕ) (vs : Values) (depth : ℕ) (pending : List (Value × ℕ))
    → depth ≤ max_depth
    → judged count (extend count vs depth pending) ≡ (
        leb (count + (nodes_of vs + weight pending)) max_nodes
        && (leb (depth + height_of vs) max_depth && (are_json vs && sound pending)))
unfolding extend
extend-judged count vs depth pending shallow = ground (
  arith,
  weight-push vs (depth + 1) pending,
  sound-push vs depth pending shallow,
  length-weight pending,
  count_of-nodes_of vs,
)

expand-judged :
    (count : ℕ) (v : Value) (depth : ℕ) (pending : List (Value × ℕ))
    → depth ≤ max_depth
    → judged (count + 1) (expand (count + 1) v depth pending) ≡ fits count ((v, depth) ∷ pending)
unfolding expand
expand-judged count scalar depth pending shallow = ground arith
expand-judged count other depth pending shallow = ground arith
expand-judged count (dict true vs) depth pending shallow =
    ground (arith, extend-judged (count + 1) vs depth pending shallow)
expand-judged count (dict false vs) depth pending shallow = ground arith
expand-judged count (list vs) depth pending shallow =
    ground (arith, extend-judged (count + 1) vs depth pending shallow)

turn-judged :
    (count : ℕ) (v : Value) (depth : ℕ) (pending : List (Value × ℕ))
    → judged (count + 1) (turn (count + 1) v depth pending) ≡ fits count ((v, depth) ∷ pending)
unfolding turn
turn-judged count v depth pending = ground (arith, some_node v, expand-judged count v depth pending)

expand-refuses :
    (count : ℕ) (v : Value) (depth : ℕ) (pending : List (Value × ℕ))
    → refuses (expand count v depth pending) ≡ true
unfolding expand extend
expand-refuses count scalar depth pending = refl
expand-refuses count other depth pending = refl
expand-refuses count (dict keys vs) depth pending = ground arith
expand-refuses count (list vs) depth pending = ground arith

turn-refuses :
    (count : ℕ) (v : Value) (depth : ℕ) (pending : List (Value × ℕ))
    → refuses (turn count v depth pending) ≡ true
unfolding turn
turn-refuses count v depth pending = ground (arith, expand-refuses count v depth pending)

turn-counted :
    (count : ℕ) (v : Value) (depth : ℕ) (pending next : List (Value × ℕ))
    → turn count v depth pending ≡ go next
    → count ≤ max_nodes
unfolding turn
turn-counted count v depth pending next h = ground arith

abbrev says : Option Verdict → Option Bool
says none = none
says (some accepted) = some true
says (some verdict) = some false

says-stop : (verdict : Verdict) → refuses (stop verdict) ≡ true → says (some verdict) ≡ some false
says-stop accepted h = ground arith
says-stop validation_limit h = refl
says-stop non_json h = refl

Turn-cases :
    (t : Turn)
    → ((verdict : Verdict) × (t ≡ stop verdict)) ⊎ ((next : List (Value × ℕ)) × (t ≡ go next))
Turn-cases (stop verdict) = inl (verdict, refl)
Turn-cases (go next) = inr (next, refl)

-- With more fuel than values that may still be popped, the loop says whether the stack fits.
walk-fits :
    (fuel count : ℕ) (pending : List (Value × ℕ))
    → count ≤ max_nodes
    → max_nodes < fuel + count
    → says (walk fuel count pending) ≡ some (fits count pending)
unfolding walk
walk-fits zero count [] low enough = ground arith
walk-fits (suc fuel) count [] low enough = ground arith
walk-fits zero count ((v, depth) ∷ pending) low enough = absurd (omega arith)
walk-fits (suc fuel) count ((v, depth) ∷ pending) low enough =
    let judge = turn-judged count v depth pending in
    elim (Turn-cases (turn (count + 1) v depth pending)) [
      | inl (verdict, stops) ↦
          let refused =
            says-stop verdict (ap refuses (sym stops) ∙ turn-refuses (count + 1) v depth pending) in
          ground (arith, judge, stops, refused)
      | inr (next, goes) ↦
          let low = turn-counted (count + 1) v depth pending next goes in
          let rest = walk-fits fuel (count + 1) next low (omega arith) in
          ground (arith, judge, goes, rest)
    ]

says-accepted :
    (verdict : Verdict) (b : Bool)
    → says (some verdict) ≡ some b
    → (verdict ≡ accepted) ↔ (b ≡ true)
says-accepted accepted b h = (λ e. ground arith, λ e. refl)
says-accepted validation_limit b h = (λ e. ground arith, λ e. ground arith)
says-accepted non_json b h = (λ e. ground arith, λ e. ground arith)

-- `_check_size` is done with every value after at most 10,001 turns of its loop, and what it says is
-- exact: it accepts a value if and only if the value has at most 10,000 values in it, itself counted,
-- none of them deeper than 64, and is JSON throughout.
pub check_size-exact :
    (value : Value)
    → (verdict : Verdict) × (check_size value ≡ some verdict)
      × ((verdict ≡ accepted)
          ↔ ((nodes value ≤ max_nodes) × (height value ≤ max_depth) × (is_json value ≡ true)))
unfolding check_size
check_size-exact value =
    let says_fits = walk-fits (suc max_nodes) 0 ((value, 0) ∷ []) (omega arith) (omega arith) in
    elim (Option-cases (walk (suc max_nodes) 0 ((value, 0) ∷ []))) [
      | inl lost ↦ absurd (ground (arith, says_fits, lost))
      | inr (verdict, said) ↦
          let meant =
            says-accepted verdict (fits 0 ((value, 0) ∷ [])) (ap says (sym said) ∙ says_fits) in
          (
            verdict,
            said,
            (
              λ e.
                  (let fit = meant.0 e in
                    (ground (arith, fit), ground (arith, fit), ground (arith, fit))),
              λ e. meant.1 (ground (arith, e)),
            ),
          )
    ]
