-- ===== src/Subscriptions/Scope.antt =====
-- What a subscription of snulbug/mcp_subscriptions.py lets through: only what its client asked for.
use snulbug.Base.{
  ◌≡◌, refl, ap, ◌∙◌, String, true, false, Option, none, some, List, [], ◌∷◌, arith, ◌==◌, is_some,
  subset, inl, inr, Bool-cases, Option-cases, eq_iff, or_else, if◌then◌else◌,
}
use snulbug.Base.Dict
use snulbug.Base.Json
use snulbug.Base.Json.{Json, Fields, mapping, as_str, is_true, str}
use snulbug.Subscriptions.{
  Subscription, Identifier, Issue, new, resources, acknowledged, broadens, counted, notify_with,
  notification_issue, receive, acknowledge_issue, delivery_issue, matching_id, notify_params,
  mismatched_id, is_acknowledgment, count_event, settle,
}

-- An accepted filter sets no change that was not requested, and names no other resource.
abbrev pub Narrows : Fields → Fields → Type 0
Narrows m requested =
    (broadens m requested ≡ false) × (subset (resources m) (resources requested) ≡ true)

abbrev pub IsNarrow : Subscription → Type 0
IsNarrow s = (m : Fields) → s.accepted ≡ some m → Narrows m s.requested

acknowledge-Narrows :
    (s : Subscription) (j : Option Json)
    → acknowledge_issue s j ≡ none
    → (s.accepted ≡ none) × Narrows (mapping j) s.requested
unfolding acknowledge_issue
acknowledge-Narrows s j h = ground arith

-- What a message can do to a subscription.
pub data Outcome (s : Subscription) (out : Option Issue × Subscription) : Type 0 where
  rejected : (issue : Issue) → out ≡ (some issue, s) → Outcome s out
  acked :
      (m : Fields)
      → s.accepted ≡ none
      → Narrows m s.requested
      → out ≡ (none, count_event (record s { accepted = some m }) acknowledged)
      → Outcome s out
  delivered :
      (accepted params : Fields) (method : String)
      → s.accepted ≡ some accepted
      → (method == acknowledged) ≡ false
      → delivery_issue (some accepted) (some method) params ≡ none
      → out ≡ (none, count_event s method)
      → Outcome s out

acknowledge-Outcome :
    (s : Subscription) (j : Option Json) (r : Option Issue)
    → acknowledge_issue s j ≡ r
    → Outcome s (settle r s (count_event (record s { accepted = some (mapping j) }) acknowledged))
acknowledge-Outcome s j (some issue) h = rejected issue refl
acknowledge-Outcome s j none h =
    let (first, narrow) = acknowledge-Narrows s j h in acked (mapping j) first narrow refl

deliver-Outcome :
    (s : Subscription) (method : Option String) (params : Fields) (r : Option Issue)
    → is_acknowledgment method ≡ false
    → delivery_issue s.accepted method params ≡ r
    → Outcome s (settle r s (count_event s (or_else method "")))
unfolding delivery_issue
deliver-Outcome s method params (some issue) a h = rejected issue refl
deliver-Outcome s none params none a h = ground arith
deliver-Outcome s (some method) params none a h = elim (Option-cases s.accepted) [
  | inl waiting ↦ ground arith
  | inr (accepted, held) ↦ delivered accepted params method held a (rw held at h) refl
]

notify_with-Outcome :
    (s : Subscription) (method : Option String) (params : Fields)
    → Outcome s (notify_with s method params)
unfolding notify_with
notify_with-Outcome s none params =
    deliver-Outcome s none params (delivery_issue s.accepted none params) refl refl
notify_with-Outcome s (some method) params = elim (Bool-cases (method == acknowledged)) [
  | inl ack ↦ rw (ack, (eq_iff method acknowledged).0 ack) (acknowledge-Outcome s _ _ refl)
  | inr other ↦ rw other (deliver-Outcome s (some method) params _ other refl)
]

notify_params-Outcome :
    (s : Subscription) (message : Fields) (params : Option Json)
    → Outcome s (notify_params s message params)
unfolding notify_params
notify_params-Outcome s message (some (Json.obj params)) =
    elim (Bool-cases (matching_id params s.identifier)) [
      | inl mine ↦ rw mine (notify_with-Outcome s (as_str (Json.get message "method")) params)
      | inr other ↦ rw other (rejected mismatched_id refl)
    ]
notify_params-Outcome s message _ = rejected mismatched_id refl

notification-Outcome :
    (s : Subscription) (message : Fields) → Outcome s (notification_issue s message)
unfolding notification_issue
notification-Outcome s message = notify_params-Outcome s message (Json.get message "params")

-- Between two messages: an accepted filter is narrow, and exactly one acknowledgment was counted
-- if there is an accepted filter, none if there is not.
pub record IsSound (s : Subscription) : Type 0 where
  pub narrow : (m : Fields) → s.accepted ≡ some m → Narrows m s.requested
  pub once : counted (Dict.get s.counts acknowledged) ≡ (if is_some s.accepted then 1 else 0)

-- What no message changes.
abbrev pub IsKept : Subscription → Subscription → Type 0
IsKept s s' = (s'.requested ≡ s.requested) × (s'.identifier ≡ s.identifier)

acked-IsSound :
    (s : Subscription) (m : Fields)
    → s.accepted ≡ none
    → Narrows m s.requested
    → IsSound s
    → IsSound (count_event (record s { accepted = some m }) acknowledged)
acked-IsSound s m first narrow h = record {
  narrow = λ m' e. ground (arith, narrow);
  once = rw Dict.get-put_self (ground (arith, h.once));
}

delivered-IsSound :
    (s : Subscription) (accepted : Fields) (method : String)
    → s.accepted ≡ some accepted
    → (method == acknowledged) ≡ false
    → IsSound s
    → IsSound (count_event s method)
delivered-IsSound s accepted method held other h = record {
  narrow = h.narrow;
  once = rw Dict.get-put (rw other h.once);
}

Outcome-IsSound :
    {s : Subscription} {out : Option Issue × Subscription}
    → Outcome s out
    → IsSound s
    → IsSound out.1 × IsKept s out.1
Outcome-IsSound (rejected issue e) h = rw e (h, (refl, refl))
Outcome-IsSound {s} (acked m first n e) h = rw e (acked-IsSound s m first n h, (refl, refl))
Outcome-IsSound {s} (delivered accepted params method held other passed e) h =
    rw e (delivered-IsSound s accepted method held other h, (refl, refl))

pub receive-IsSound :
    (s : Subscription) (messages : List Fields)
    → IsSound s
    → IsSound (receive s messages) × IsKept s (receive s messages)
unfolding receive
receive-IsSound s [] h = (h, (refl, refl))
receive-IsSound s (message ∷ messages) h =
    let (sound, kept) = Outcome-IsSound (notification-Outcome s message) h in
    let (end, still) = receive-IsSound (notification_issue s message).1 messages sound in
    (end, (still.0 ∙ kept.0, still.1 ∙ kept.1))

pub new-IsSound :
    (identifier : Identifier) (requested : Fields) → IsSound (new identifier requested)
unfolding new Dict.get
new-IsSound identifier requested = record { narrow = λ m e. cc; once = refl }

-- After any messages on a new subscription the requested filter is unchanged, an accepted filter
-- sets no change that was not requested and names no resource that was not, and exactly one
-- acknowledgment has been counted if there is an accepted filter, none if there is not.
pub receive-narrow :
    (identifier : Identifier) (requested : Fields) (messages : List Fields)
    → let s = receive (new identifier requested) messages in
      (s.requested ≡ requested)
      × ((m : Fields) → s.accepted ≡ some m → Narrows m requested)
      × (counted (Dict.get s.counts acknowledged) ≡ (if is_some s.accepted then 1 else 0))
unfolding new
receive-narrow identifier requested messages =
    let (sound, kept) =
      receive-IsSound (new identifier requested) messages (new-IsSound identifier requested) in
    (kept.0, λ m e. rw kept.0 at (sound.narrow m e), sound.once)

-- A message with an issue leaves the subscription as it was.
issue_changes_nothing :
    (s : Subscription) (message : Fields) {issue : Issue}
    → (notification_issue s message).0 ≡ some issue
    → (notification_issue s message).1 ≡ s
issue_changes_nothing s message h = elim (notification-Outcome s message) [
  | rejected issue e ↦ ap (λ o. o.1) e
  | acked m first n e ↦ cc
  | delivered accepted params method held other passed e ↦ cc
]
