-- ===== src/Guarantees/Gates.antt =====
-- The checks of a message: what holds once they have let it pass.
use mathlib.Core.List.{flatten}
use mathlib.Core.Bool.{false≢true}
use mathlib.Core.Option.{some-injective}
use rh_reclaw.Common.{
  ◌≡◌, refl, sym, ◌∙◌, ap, subst, ℕ, String, Option, none, some, List, [], ◌∷◌, Bool, true, not,
  arith, ◌&&◌, ◌==◌, string_eq, All, contains, eq_of_not_ne, true_of_not, Option-cases, inl, inr,
}
use rh_reclaw.Common.Json.{Dict}
use rh_reclaw.Common.Result.{Result-cases}
use rh_reclaw.Schemas.Validation.{Accepts, Accepts-of_ok}
use rh_reclaw.Common.Text.{All-sort_by}
use rh_reclaw.Models.{Db, ParticipantRole, role_eq}
use rh_reclaw.Schemas.{
  Pydantic, MessageSchema, conversation_types, find_schema, is_boundary_safe, validate_payload,
}
use rh_reclaw.StateMachine.{is_boundary_crossing_safe, subset}
use rh_reclaw.Session.Triple.{
  Checks, Checks-weaken, Spec-check, Checks-query, Checks-or_else, Checks-when, Checks-pure, Fails,
  Fails-Spec, Spec-if,
}
use rh_reclaw.Service.Denials.{deny}
use rh_reclaw.Service.Ownership.{OwnershipClient, OwnerInfo, owners_of}
use rh_reclaw.Service.Gates.{
  message_type_sender_role, require_role, require_message_sender_role, enforce_each_accepts,
  enforce_message_type_accepted, other_owner_sets, crossing_sets, crossing_owners, deny_boundary,
  boundary_safe_or_raise, enforce_boundary_crossing,
}
use rh_reclaw.Service.Conversations.{validate_or_deny}
use rh_reclaw.Board.Integrity.{KnownAgent, KnownConversation, Nullable}
use rh_reclaw.Board.Writes.{Sound}
use rh_reclaw.Guarantees.Boundary.{StaysInside, OwnedWithin-others}
use rh_reclaw.Guarantees.Denials.{Denied, Fails-deny, Fails-deny_bad_schema}

-- A restricted message type is sent by a participant of its role.
abbrev pub RoleAllows : String → ParticipantRole → Type 0
RoleAllows message_type role =
    (required : ParticipantRole)
    → message_type_sender_role message_type ≡ some required
    → role ≡ required

-- Every agent of the list has declared the message type.
abbrev pub AllAccept : String → List (ℕ × List String) → Type 0
AllAccept message_type = All (λ (o : ℕ × List String). contains message_type o.1 ≡ true)

module _ {base db : Db} (sound : Sound base db) (actor_sub : String) (sender : ℕ)
    (conversation_id : Option ℕ) (known_sender : KnownAgent db sender)
    (known_conversation : Nullable (KnownConversation db) conversation_id)
    (message_type : String) where
  denies :
      {A : Type 0} (action : String) (detail : Option Dict)
      → Fails base db
          (deny {A = A} actor_sub action (some sender) conversation_id detail)
          (Denied actor_sub base)
  denies action detail =
      Fails-deny sound actor_sub action (some sender) conversation_id detail known_sender
        known_conversation

  Checks-require_role :
      (role : ParticipantRole) (restricted : Option ParticipantRole)
      → Checks base db
          (require_role actor_sub sender conversation_id message_type role restricted)
          (λ _. (required : ParticipantRole) → restricted ≡ some required → role ≡ required)
          (Denied actor_sub base)
  unfolding require_role
  Checks-require_role role none = Checks-pure tt (λ required e. cc e)
  Checks-require_role role (some required) =
      Checks-weaken (λ _ e r same. eq_of_not_ne role required e ∙ some-injective required r same)
        (Checks-when λ wrong. denies _ _)

  pub Checks-require_message_sender_role :
      (role : ParticipantRole)
      → Checks base db
          (require_message_sender_role actor_sub sender conversation_id message_type role)
          (λ _. RoleAllows message_type role)
          (Denied actor_sub base)
  unfolding require_message_sender_role
  Checks-require_message_sender_role role = Checks-require_role role _

  Checks-enforce_each_accepts :
      (others : List (ℕ × List String))
      → Checks base db
          (enforce_each_accepts actor_sub sender conversation_id others message_type)
          (λ _. AllAccept message_type others)
          (Denied actor_sub base)
  unfolding enforce_each_accepts
  Checks-enforce_each_accepts [] = Checks-pure tt tt
  Checks-enforce_each_accepts ((i, accepted) ∷ others) =
      Spec-check (Checks-when λ refused. denies _ _) λ _ e.
        Checks-weaken (λ _ rest. (true_of_not _ e, rest)) (Checks-enforce_each_accepts others)

  pub Checks-enforce_message_type_accepted :
      (others : List (ℕ × List String))
      → Checks base db
          (enforce_message_type_accepted actor_sub sender conversation_id others message_type)
          (λ _. AllAccept message_type others)
          (Denied actor_sub base)
  unfolding enforce_message_type_accepted
  Checks-enforce_message_type_accepted others =
      Checks-weaken (λ _ h. All-sort_by _ _ others h) (Checks-enforce_each_accepts _)

  -- What the lookups return: both sets where they are asked for.
  abbrev Resolved : OwnershipClient → List ℕ → List String × List (List String) → Type 0
  Resolved client others r =
      (info : OwnerInfo) × (client sender db ≡ some info)
      × (r.0 ≡ owners_of info)
      × (other_owner_sets client others db ≡ some r.1)

  Resolved-of_crossing_sets :
      (client : OwnershipClient) (others : List ℕ) (r : List String × List (List String))
      → crossing_sets client sender others db ≡ some r
      → Resolved client others r
  unfolding crossing_sets
  Resolved-of_crossing_sets client others r h = elim (Option-cases (client sender db)) [
    | inl missing ↦ absurd (cc (rw (missing, crossing_sets) at h))
    | inr (info, found) ↦ elim (Option-cases (other_owner_sets client others db)) [
      | inl missing ↦ absurd (cc (rw (found, crossing_sets, missing) at h))
      | inr (sets, resolved) ↦
          let e : (owners_of info, sets) ≡ r =
            some-injective _ _ (rw (found, crossing_sets, resolved) at h) in
          (info, found, sym (ap (λ p. p.0) e), resolved ∙ ap (λ p. some (p.1)) e)
    ]
  ]

  Checks-crossing_owners :
      (client : OwnershipClient) (conversation_type : String) (others : List ℕ) (safe : Bool)
      → Checks base db
          (crossing_owners actor_sub sender conversation_type conversation_id others message_type
            safe client)
          (λ r. (conversation_type == "asymmetric" && not safe) ≡ true → Resolved client others r)
          (Denied actor_sub base)
  unfolding crossing_owners
  Checks-crossing_owners client conversation_type others safe =
      Spec-if _
        (λ asked. Spec-check (Checks-query _) λ resolved is_resolved.
          Spec-check (Checks-or_else λ failed. denies _ _) λ r e.
            Spec-check (Checks-when λ empty. denies _ _) λ _ _.
              Checks-pure r (λ _. Resolved-of_crossing_sets client others r (sym is_resolved ∙ e)))
        (λ not_asked. Checks-pure _ (λ asked. absurd (false≢true (sym not_asked ∙ asked))))

  Checks-boundary_safe :
      (version : ℕ) (schema : MessageSchema)
      → find_schema message_type version ≡ some schema
      → Checks base db
          (boundary_safe_or_raise message_type version)
          (λ safe. safe ≡ schema.boundary_safe)
          (Denied actor_sub base)
  unfolding boundary_safe_or_raise is_boundary_safe
  Checks-boundary_safe version schema registered =
      rw (registered, boundary_safe_or_raise, is_boundary_safe)
        (Checks-pure schema.boundary_safe refl)

  Fails-deny_boundary :
      (conversation_type : String) (sender_owners other_owners : List String)
      → Fails base db
          (deny_boundary actor_sub sender conversation_type conversation_id message_type
            sender_owners other_owners)
          (Denied actor_sub base)
  unfolding deny_boundary
  Fails-deny_boundary conversation_type sender_owners other_owners =
      Spec-if (not (contains conversation_type conversation_types)) (λ _. denies _ _)
        (λ _. denies _ _)

  StaysInside-of_safe :
      (client : OwnershipClient) (conversation_type : String) (others : List ℕ) (safe : Bool)
      (r : List String × List (List String))
      → ((conversation_type == "asymmetric" && not safe) ≡ true → Resolved client others r)
      → is_boundary_crossing_safe conversation_type safe r.0 (flatten r.1) ≡ true
      → StaysInside client db conversation_type safe sender others
  unfolding is_boundary_crossing_safe
  StaysInside-of_safe client conversation_type others safe r resolved crossing = record {
    known_type = ground arith;
    in_open =
        λ e. subst (λ t. is_boundary_crossing_safe t safe r.0 (flatten r.1) ≡ true) e crossing;
    in_asymmetric = λ e unsafe.
        let (info, found, owners, sets) = resolved (
          subst (λ t. (t == "asymmetric" && not safe) ≡ true) (sym e)
            (subst (λ b. not b ≡ true) (sym unsafe) refl)) in
        let within : subset (flatten r.1) r.0 ≡ true =
          subst (λ b. is_boundary_crossing_safe "asymmetric" b r.0 (flatten r.1) ≡ true) unsafe
            (subst (λ t. is_boundary_crossing_safe t safe r.0 (flatten r.1) ≡ true) e crossing) in
        (
          info,
          found,
          OwnedWithin-others client db (owners_of info) others r.1 sets
              (subst (λ o. subset (flatten r.1) o ≡ true) owners within),
        );
  }

  pub Checks-enforce_boundary_crossing :
      (client : OwnershipClient) (conversation_type : String) (others : List ℕ) (version : ℕ)
      (schema : MessageSchema)
      → find_schema message_type version ≡ some schema
      → Checks base db
          (enforce_boundary_crossing actor_sub sender conversation_type conversation_id others
            message_type version client)
          (λ _. StaysInside client db conversation_type schema.boundary_safe sender others)
          (Denied actor_sub base)
  unfolding enforce_boundary_crossing
  Checks-enforce_boundary_crossing client conversation_type others version schema registered =
      Spec-check (Checks-boundary_safe version schema registered) λ safe is_safe.
        Spec-check (Checks-crossing_owners client conversation_type others safe) λ r resolved.
          Checks-weaken
            (λ _ e.
              subst (λ b. StaysInside client db conversation_type b sender others) is_safe
                (StaysInside-of_safe client conversation_type others safe r resolved
                  (true_of_not _ e)))
            (Checks-when λ _. Fails-deny_boundary _ _ _)

  -- A payload that passed belongs to a registered schema.
  pub Checks-validate_or_deny :
      (px : Pydantic) (version : ℕ) (payload : Dict)
      → Checks base db
          (validate_or_deny px actor_sub sender conversation_id message_type version payload)
          (Accepts px message_type version payload)
          (Denied actor_sub base)
  unfolding validate_or_deny
  Checks-validate_or_deny px version payload =
      elim (Result-cases (validate_payload px message_type version payload)) [
        | inl (validated, e) ↦
            rw (e, validate_or_deny)
              (Checks-pure validated (Accepts-of_ok px message_type version payload validated e))
        | inr (exc, e) ↦
            rw (e, validate_or_deny)
              (Fails-Spec (
                Fails-deny_bad_schema sound actor_sub sender conversation_id message_type exc
                  known_sender known_conversation))
      ]
