-- ===== src/Fabric/Kept.antt =====
-- What a change of snulbug/fabric_members.py leaves as it was.
use snulbug.Base.{
  ℕ, ◌≡◌, ◌≢◌, ◌⊎◌, inl, inr, refl, ap, sym, ◌∙◌, String, true, false, Option, none, some, arith,
  or_else, ◌==◌, Bool-cases, Option-cases, eq_iff,
}
use snulbug.Base.Dict
use snulbug.Base.Dict.{get-put_self}
use snulbug.Base.Result.{ok, bind-ok}
use snulbug.Base.Json
use snulbug.Base.Json.{Json, Fields, truth}
use snulbug.Fabric.{Platform, Registry}
use snulbug.Fabric.Values.{safe_name, is_blank}
use snulbug.Fabric.Changes.{
  Answer, Change, MemberRequest, register, heartbeat, unregister, member_record, member_fields,
  new_member, beat, gone, held, store_member, is_missing,
}
use snulbug.Fabric.Lifetime.{get-drop_empty}

-- The calls that change a registry.
pub data Call : Type 0 where
  registers : MemberRequest → Call
  beats : String → ℕ → String → Call
  leaves : String → Call

abbrev pub id_of : Call → String
id_of (registers request) = request.member_id
id_of (beats id ttl status) = id
id_of (leaves id) = id

unfoldable pub change_of : Platform → Call → Change
change_of py (registers request) = register py request
change_of py (beats id ttl status) = heartbeat py id ttl status
change_of py (leaves id) = unregister py id

not_blank : (v : Json) → truth v ≡ true → is_blank v ≡ false
not_blank Json.null h = absurd (ground arith)
not_blank (Json.bool b) h = refl
not_blank (Json.int n) h = refl
not_blank (Json.flt n e) h = refl
not_blank (Json.str s) h = ground arith
not_blank (Json.arr Json.nil) h = absurd (ground arith)
not_blank (Json.arr (Json.cons x xs)) h = refl
not_blank (Json.obj Json.end) h = absurd (ground arith)
not_blank (Json.obj (Json.field k v m)) h = refl

module _ (py : Platform) where
  set-created :
      (now : ℕ) (name : String) (request : MemberRequest) (v : Json)
      → truth v ≡ true
      → Json.get (new_member py now name request (some v)) "created_at" ≡ some v
  unfolding new_member
  set-created now name request v true_ =
      get-drop_empty (member_fields py now name request (some v)) "created_at" v
        (unfold member_fields Json.get in ground (arith, true_)) (not_blank v true_)

  made-is :
      (now : ℕ) (name : String) (request : MemberRequest) (created_at : Option Json)
      (member : Fields)
      → member_record py now name request created_at ≡ ok member
      → member ≡ new_member py now (safe_name py name) request created_at
  unfolding member_record
  made-is now name request created_at member h = ground arith

  beat-created :
      (now ttl : ℕ) (status : String) (m : Fields)
      → Json.get (beat py now ttl status m) "created_at" ≡ Json.get m "created_at"
  unfolding beat
  beat-created now ttl status m = grind (arith, Json.get-put)

  gone-created :
      (now : ℕ) (m : Fields) → Json.get (gone py now m) "created_at" ≡ Json.get m "created_at"
  unfolding gone
  gone-created now m = grind (arith, Json.get-put)

  -- The member has the time of creation that the registry had for its name.
  abbrev KeepsCreation : Registry → String → Fields → Type 0
  KeepsCreation r name member =
      (v : Json)
      → Json.get (held r name) "created_at" ≡ some v
      → truth v ≡ true
      → Json.get member "created_at" ≡ some v

  -- A change leaves the registry as it is, or stores one member under the name of the call.
  change-stores :
      (c : Call) (now : ℕ) (r next : Registry) (answer : Answer)
      → change_of py c now r ≡ ok (answer, next)
      → (next ≡ r)
        ⊎ ((member : Fields) × (next ≡ store_member py now r (safe_name py (id_of c)) member)
            × KeepsCreation r (safe_name py (id_of c)) member)
  unfolding change_of register heartbeat unregister
  change-stores (registers request) now r next answer h =
      let name = safe_name py request.member_id in
      let (member, made, rest) =
        bind-ok (member_record py now name request (Json.get (held r name) "created_at")) _
          (answer, next) h in
      inr (
        member,
        ground (arith, rest),
        λ v has true_. cc (
          has,
          made-is now name request (Json.get (held r name) "created_at") member made,
          set-created now (safe_name py name) request v true_,
        ),
      )
  change-stores (beats id ttl status) now r next answer h =
      let name = safe_name py id in
      elim (Bool-cases (is_missing (held r name))) [
        | inl missing ↦ inl (ground (arith, missing))
        | inr there ↦ inr (
          beat py now ttl status (held r name),
          ground (arith, there),
          λ v has true_. cc (beat-created now ttl status (held r name), has),
        )
      ]
  change-stores (leaves id) now r next answer h =
      let name = safe_name py id in
      elim (Bool-cases (is_missing (held r name))) [
        | inl missing ↦ inl (ground (arith, missing))
        | inr there ↦ inr (
          gone py now (held r name),
          ground (arith, there),
          λ v has true_. cc (gone-created now (held r name), has),
        )
      ]

  -- A registration, a heartbeat or an unregistration of one member leaves every other member of the
  -- registry as it was, also when the member is new. The member keeps the time of creation that the
  -- registry had for it, unless the registry had none or an empty one.
  pub change-keeps :
      (c : Call) (now : ℕ) (r next : Registry) (answer : Answer) (other : String)
      → change_of py c now r ≡ ok (answer, next)
      → safe_name py (id_of c) ≢ other
      → (Dict.get next.members other ≡ Dict.get r.members other)
        × ((Json.get (held r (safe_name py (id_of c))) "created_at" ≡ none)
            ⊎ ((v : Json) × (Json.get (held r (safe_name py (id_of c))) "created_at" ≡ some v)
                × (truth v ≡ false))
            ⊎ (Json.get (held next (safe_name py (id_of c))) "created_at"
                ≡ Json.get (held r (safe_name py (id_of c))) "created_at"))
  change-keeps c now r next answer other h differs =
      let name = safe_name py (id_of c) in
      let apart : (name == other) ≡ false = ground (arith, eq_iff name other) in
      elim (change-stores c now r next answer h) [
        | inl same ↦ (
          ap (λ x. Dict.get x.members other) same,
          inr (inr (ap (λ x. Json.get (held x name) "created_at") same)),
        )
        | inr (member, stored, keeps) ↦ (
          ap (λ x. Dict.get x.members other) stored
              ∙ ground (arith, Dict.get-put r.members name other member, apart),
          elim (Option-cases (Json.get (held r name) "created_at")) [
            | inl missing ↦ inl missing
            | inr (v, has) ↦ elim (Bool-cases (truth v)) [
              | inl true_ ↦ inr (
                  inr (
                    ap (λ x. Json.get (held x name) "created_at") stored
                    ∙ ap (λ m. Json.get (or_else m Json.end) "created_at")
                        (get-put_self r.members name member)
                    ∙ keeps v has true_
                    ∙ sym has))
              | inr false_ ↦ inr (inl (v, has, false_))
            ]
          ],
        )
      ]
