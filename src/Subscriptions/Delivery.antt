-- ===== src/Subscriptions/Delivery.antt =====
-- A notification that a subscription of snulbug/mcp_subscriptions.py lets through was asked for.
use snulbug.Base.{
  ◌⊎◌, ◌≡◌, refl, String, true, false, Option, none, some, List, [], ◌∷◌, arith, ◌==◌, eq_iff,
  contains, subset, inl, inr, Bool-cases, Option-cases,
}
use snulbug.Base.Dict
use snulbug.Base.Json
use snulbug.Base.Json.{Json, Fields, as_str}
use snulbug.Subscriptions.{
  Subscription, Identifier, Issue, new, resources, change_filters, acknowledged, resource_updated,
  broadens, sets, notify_with, notify_params, notification_issue, receive, delivery_issue,
  matching_id, settle,
}
use snulbug.Subscriptions.Scope.{IsSound, receive-IsSound, new-IsSound, Narrows}

-- What a client that sent the filter `requested` asked for.
pub data Asked (requested : Fields) (method : String) (params : Fields) : Type 0 where
  acknowledgment : method ≡ acknowledged → Asked requested method params
  change :
      (key : String)
      → Dict.get change_filters method ≡ some key
      → sets requested key ≡ true
      → Asked requested method params
  resource :
      (uri : String)
      → method ≡ resource_updated
      → as_str (Json.get params "uri") ≡ some uri
      → contains (resources requested) uri ≡ true
      → Asked requested method params

sets_of_narrow :
    (m requested : Fields) (method key : String)
    → broadens m requested ≡ false
    → Dict.get change_filters method ≡ some key
    → sets m key ≡ true
    → sets requested key ≡ true
unfolding broadens Dict.get
sets_of_narrow m requested method key b e h = ground arith

contains_of_subset :
    (xs ys : List String) (a : String)
    → subset xs ys ≡ true
    → contains xs a ≡ true
    → contains ys a ≡ true
contains_of_subset [] ys a h c = cc
contains_of_subset (x ∷ xs) ys a h c = ground (arith, eq_iff x a, contains_of_subset xs ys a)

delivery-Asked :
    (accepted requested : Fields) (method : String) (params : Fields)
    → Narrows accepted requested
    → delivery_issue (some accepted) (some method) params ≡ none
    → Asked requested method params
unfolding delivery_issue
delivery-Asked accepted requested method params n h =
    elim (Option-cases (Dict.get change_filters method)) [
      | inr (key, e) ↦
          change key e (sets_of_narrow accepted requested method key n.0 e (ground arith))
      | inl other ↦ elim (Option-cases (as_str (Json.get params "uri"))) [
        | inl no_uri ↦ absurd (ground arith)
        | inr (uri, e) ↦
            resource uri ((eq_iff method resource_updated).0 (ground arith)) e
              (contains_of_subset (resources accepted) (resources requested) uri n.1 (ground arith))
      ]
    ]

settle-none : (r : Option Issue) (s s' : Subscription) → (settle r s s').0 ≡ none → r ≡ none
settle-none none s s' h = refl
settle-none (some issue) s s' h = cc

-- what a passed message was checked for
passed :
    (s : Subscription) (message params : Fields) (method : String)
    → Json.get message "params" ≡ some (Json.obj params)
    → as_str (Json.get message "method") ≡ some method
    → (notification_issue s message).0 ≡ none
    → (matching_id params s.identifier ≡ true)
      × (method ≡ acknowledged ⊎ delivery_issue s.accepted (some method) params ≡ none)
unfolding notification_issue notify_params notify_with
passed s message params method p m h = elim (Bool-cases (matching_id params s.identifier)) [
  | inr other ↦ absurd (ground arith)
  | inl mine ↦ elim (Bool-cases (method == acknowledged)) [
    | inl ack ↦ (mine, inl ((eq_iff method acknowledged).0 ack))
    | inr other ↦ (mine, inr (ground arith))
  ]
]

accepted-Asked :
    (s : Subscription) (method : String) (params : Fields) (o : Option Fields)
    → IsSound s
    → s.accepted ≡ o
    → delivery_issue o (some method) params ≡ none
    → Asked s.requested method params
accepted-Asked s method params none h e d = absurd (unfold delivery_issue in ground arith)
accepted-Asked s method params (some accepted) h e d =
    delivery-Asked accepted s.requested method params (h.narrow accepted e) d

-- A notification that passes after any messages on a new subscription carries the subscription's
-- id, and it is an acknowledgment, a change whose filter the client set, or an update of a
-- resource that the client named.
pub passed-Asked :
    (identifier : Identifier) (requested : Fields) (messages : List Fields)
    (message params : Fields) (method : String)
    → Json.get message "params" ≡ some (Json.obj params)
    → as_str (Json.get message "method") ≡ some method
    → (notification_issue (receive (new identifier requested) messages) message).0 ≡ none
    → (matching_id params identifier ≡ true) × Asked requested method params
unfolding new
passed-Asked identifier requested messages message params method p m h =
    let s0 = new identifier requested in
    let s = receive s0 messages in
    let (sound, kept) = receive-IsSound s0 messages (new-IsSound identifier requested) in
    let (mine, why) = passed s message params method p m h in
    (
      rw kept.1 at mine,
      elim why [
        | inl ack ↦ acknowledgment ack
        | inr d ↦ rw kept.0 at (accepted-Asked s method params s.accepted sound refl d)
      ],
    )
