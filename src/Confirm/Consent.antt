-- ===== src/Confirm/Consent.antt =====
-- Whose word an approval of snulbug/confirm.py goes back to, when decisions run side by side.
use snulbug.Base.{
  ◌≡◌, ◌⊎◌, inl, inr, String, Bool, true, Option, some, List, [], ◌∷◌, contains, arith, Bool-cases,
  Option-cases,
}
use snulbug.Base.Json
use snulbug.Base.Json.{Json, Fields}
use snulbug.Confirm.{Platform, Input, Answer}
use snulbug.Confirm.Decide.{
  once_words, session_words, can_prompt, read_line, timeout_seconds, look, conclude,
}
use snulbug.Confirm.Choices.{key_of, refused-denies, choose-key, choose-word, conclude-cases}

-- A step of a decision that runs beside others: its lookup, or its conclusion.
pub data Event : Type 0 where
  looks : Fields → Event
  concludes : Input → Fields → Fields → Event

module _ (py : Platform) (enabled : Bool) where
  unfoldable pub step : Event → List String → Option Answer × List String
  unfolding look conclude
  step (looks decision) approvals = (look py decision approvals, approvals)
  step (concludes input decision request) approvals =
      let c = conclude py enabled input decision request approvals in (c.answer, c.approvals)

  unfoldable pub run : List Event → List String → List String
  unfolding step
  run [] approvals = approvals
  run (e ∷ es) approvals = run es (step e approvals).1

  -- The person was asked, and answered in time with one of the words.
  abbrev pub Answered : List String → Input → Fields → Type 0
  Answered words input decision =
      (enabled ≡ true)
      × (can_prompt input ≡ true)
      × ((line : String) × (read_line input
              (timeout_seconds py (Json.get decision "timeout_seconds"))
            ≡ some line)
          × (contains words (py.choice line) ≡ true))

  -- The person approved a key for the session.
  abbrev pub SaidAlways : String → Event → Type 0
  SaidAlways key (looks decision) = ⊥
  SaidAlways key (concludes input decision request) =
      (key_of py decision ≡ some key) × Answered session_words input decision

  abbrev pub SomeEvent : (Event → Type 0) → List Event → Type 0
  SomeEvent P [] = ⊥
  SomeEvent P (e ∷ es) = P e ⊎ SomeEvent P es

  -- What an approval by the last event goes back to.
  abbrev pub Consented : List Event → Event → Type 0
  Consented es (looks decision) =
      (key : String) × (key_of py decision ≡ some key) × SomeEvent (SaidAlways key) es
  Consented es (concludes input decision request) =
      Answered once_words input decision ⊎ Answered session_words input decision

  step-key :
      (e : Event) (approvals : List String) (k : String)
      → contains (step e approvals).1 k ≡ true
      → (contains approvals k ≡ true) ⊎ SaidAlways k e
  unfolding step
  step-key (looks decision) approvals k h = inl h
  step-key (concludes input decision request) approvals k h =
      elim (conclude-cases py enabled input decision request approvals) [
        | inl (reason, code, answer, kept) ↦ inl (ground (arith, kept))
        | inr (on, asks, line, said, answer, becomes) ↦
            elim (choose-key py enabled decision (key_of py decision) (py.choice line) approvals k
              (ground (arith, becomes))) [
                | inl held ↦ inl held
                | inr (key, word) ↦ inr (key, (on, asks, (line, said, word)))
              ]
      ]

  run-key :
      (es : List Event) (approvals : List String) (k : String)
      → contains (run es approvals) k ≡ true
      → (contains approvals k ≡ true) ⊎ SomeEvent (SaidAlways k) es
  unfolding run
  run-key [] approvals k h = inl h
  run-key (e ∷ es) approvals k h = elim (run-key es (step e approvals).1 k h) [
    | inr later ↦ inr (inr later)
    | inl held ↦ elim (step-key e approvals k held) [
      | inl before ↦ inl before
      | inr now ↦ inr (inl now)
    ]
  ]

  look-key :
      (decision : Fields) (approvals : List String) (answer : Answer)
      → look py decision approvals ≡ some answer
      → (key : String) × (key_of py decision ≡ some key) × (contains approvals key ≡ true)
  unfolding look
  look-key decision approvals answer h = elim (Option-cases (key_of py decision)) [
    | inl missing ↦ absurd (ground (arith, missing))
    | inr (key, given) ↦ elim (Bool-cases (contains approvals key)) [
      | inl held ↦ (key, given, held)
      | inr unknown ↦ absurd (ground (arith, given, unknown))
    ]
  ]

  -- Every approval goes back to a person's word. Decisions may run side by side in any order of their
  -- steps, the lookups and the conclusions, from a session without approvals. If the last step
  -- approves, then it is a conclusion for which the broker is enabled, the input can be asked, and the
  -- line that was read in time is a word of approval; or it is a lookup of a key for which an earlier
  -- conclusion of the run read in this way a word of approval for the session.
  pub approval-Consented :
      (es : List Event) (e : Event) (answer : Answer)
      → (step e (run es [])).0 ≡ some answer
      → answer.approved ≡ true
      → Consented es e
  unfolding step
  approval-Consented es (looks decision) answer h good =
      let (key, given, held) = look-key decision (run es []) answer h in
      elim (run-key es [] key held) [
        | inl nothing ↦ absurd (ground (arith, nothing))
        | inr always ↦ (key, given, always)
      ]
  approval-Consented es (concludes input decision request) answer h good =
      elim (conclude-cases py enabled input decision request (run es [])) [
        | inl (reason, code, says, kept) ↦
            absurd (ground (arith, says, refused-denies py enabled decision reason code answer))
        | inr (on, asks, line, said, says, becomes) ↦
            elim (choose-word py enabled decision (key_of py decision) (py.choice line) (run es [])
              answer (ground (arith, says)) good) [
                | inl word ↦ inl (on, asks, (line, said, word))
                | inr word ↦ inr (on, asks, (line, said, word))
              ]
      ]
