-- ===== src/Confirm/Choices.antt =====
-- What a conclusion of `decide` in snulbug/confirm.py comes to.
use snulbug.Base.{
  ◌≡◌, ◌⊎◌, inl, inr, String, Bool, true, false, Option, none, some, List, ◌∷◌, contains, arith,
  eq_iff, ◌==◌, Bool-cases, Option-cases,
}
use snulbug.Base.Json
use snulbug.Base.Json.{Json, Fields}
use snulbug.Confirm.{Platform, Input, Answer}
use snulbug.Confirm.Prompt.{optional_string}
use snulbug.Confirm.Decide.{
  once_words, session_words, refused, can_prompt, read_line, timeout_seconds, choose, conclude,
}

abbrev pub key_of : Platform → Fields → Option String
key_of py decision = optional_string py (Json.get decision "remember_key")

module _ (py : Platform) (enabled : Bool) where
  pub refused-denies :
      (decision : Fields) (reason code : String) (answer : Answer)
      → refused py decision reason code ≡ some answer
      → answer.approved ≡ false
  unfolding refused
  refused-denies decision reason code answer h = ground arith

  added :
      {P : Type 0} (key k : String) (approvals : List String)
      → P
      → contains (key ∷ approvals) k ≡ true
      → (contains approvals k ≡ true) ⊎ ((some key ≡ some k) × P)
  added key k approvals said h = elim (Bool-cases (key == k)) [
    | inl same ↦ inr (ground (arith, eq_iff key k, same), said)
    | inr differs ↦ inl (ground (arith, differs))
  ]

  pub choose-key :
      (decision : Fields) (key : Option String) (choice : String) (approvals : List String)
      (k : String)
      → contains (choose py decision key choice approvals).1 k ≡ true
      → (contains approvals k ≡ true) ⊎ ((key ≡ some k) × (contains session_words choice ≡ true))
  unfolding choose
  choose-key decision none choice approvals k h = inl (ground arith)
  choose-key decision (some key) choice approvals k h =
      elim (Bool-cases (contains once_words choice)) [
        | inl said ↦ inl (ground (arith, said))
        | inr other ↦ elim (Bool-cases (contains session_words choice)) [
          | inl said ↦ added key k approvals said (ground (arith, said, other))
          | inr neither ↦ inl (ground (arith, other, neither))
        ]
      ]

  pub choose-word :
      (decision : Fields) (key : Option String) (choice : String) (approvals : List String)
      (answer : Answer)
      → (choose py decision key choice approvals).0 ≡ some answer
      → answer.approved ≡ true
      → (contains once_words choice ≡ true) ⊎ (contains session_words choice ≡ true)
  unfolding choose
  choose-word decision key choice approvals answer h good =
      elim (Bool-cases (contains once_words choice)) [
        | inl said ↦ inl said
        | inr other ↦ elim (Bool-cases (contains session_words choice)) [
          | inl said ↦ inr said
          | inr neither ↦ absurd (
              ground (
                arith,
                refused-denies decision "confirmation denied" "confirm.denied" answer,
                other,
                neither,
              ))
        ]
      ]

  -- A conclusion refuses without being told to, or does what the line that was read says.
  pub conclude-cases :
      (input : Input) (decision request : Fields) (approvals : List String)
      → ((reason : String) × (code : String) × ((conclude py enabled input decision request
              approvals).answer
            ≡ refused py decision reason code)
          × ((conclude py enabled input decision request approvals).approvals ≡ approvals))
        ⊎ ((enabled ≡ true)
            × (can_prompt input ≡ true)
            × (line : String) × (read_line input
                  (timeout_seconds py (Json.get decision "timeout_seconds"))
                ≡ some line)
            × ((conclude py enabled input decision request approvals).answer
                ≡ (choose py decision (key_of py decision) (py.choice line) approvals).0)
            × ((conclude py enabled input decision request approvals).approvals
                ≡ (choose py decision (key_of py decision) (py.choice line) approvals).1))
  unfolding conclude
  conclude-cases input decision request approvals = elim (Bool-cases enabled) [
    | inr off ↦ inl (
      "confirmation is not enabled",
      "confirm.unavailable",
      ground (arith, off),
      ground (arith, off),
    )
    | inl on ↦ elim (Bool-cases (can_prompt input)) [
      | inr mute ↦ inl (
        "confirmation requires an interactive input stream",
        "confirm.noninteractive",
        ground (arith, on, mute),
        ground (arith, on, mute),
      )
      | inl asks ↦
          elim (Option-cases
            (read_line input (timeout_seconds py (Json.get decision "timeout_seconds")))) [
              | inl late ↦ inl (
                "confirmation timed out",
                "confirm.timeout",
                ground (arith, on, asks, late),
                ground (arith, on, asks, late),
              )
              | inr (line, said) ↦ inr (
                on,
                asks,
                line,
                said,
                ground (arith, on, asks, said),
                ground (arith, on, asks, said),
              )
            ]
    ]
  ]
