-- ===== src/Service/Gates.antt =====
-- service.py: the checks that start_conversation and post_message make of every message: the
-- sender's role, the recipients' accepted types, and the ownership boundary.
use mathlib.Core.List.{flatten}
use rh_reclaw.Common.{
  ℕ, String, Option, none, some, List, [], ◌∷◌, Bool, true, not, ◌&&◌, ◌||◌, ltb, length, any,
  contains, ◌==◌, string_eq, if◌then◌else◌,
}
use rh_reclaw.Common.Json.{text, bool}
use rh_reclaw.Common.Result.{ok, err}
use rh_reclaw.Common.Text.{sort_by, sorted_set, str_lt}
use rh_reclaw.Models.{Db, ParticipantRole, role_eq, role_text}
use rh_reclaw.Schemas.{conversation_types, is_boundary_safe}
use rh_reclaw.StateMachine.{is_boundary_crossing_safe, subset}
use rh_reclaw.Exceptions.{payload_validation}
use rh_reclaw.Session.{Exec, pure, ◌>>=◌, ◌>>◌, raise, query, when, or_else}
use rh_reclaw.Service.Denials.{deny}
use rh_reclaw.Service.Ownership.{OwnershipClient, owners_of}

-- `_MESSAGE_TYPE_SENDER_ROLES.get(message_type)`
unfoldable pub message_type_sender_role : String → Option ParticipantRole
message_type_sender_role message_type =
    if message_type == "task_cancel"
    then some ParticipantRole.owner
    else if message_type == "task_decline"
    then some ParticipantRole.member
    else none

unfoldable pub require_role :
    String → ℕ → Option ℕ → String → ParticipantRole → Option ParticipantRole → Exec Unit
require_role actor_sub sender_agent_id conversation_id message_type sender_role none = pure tt
require_role actor_sub sender_agent_id conversation_id message_type sender_role (some required) =
    when (not (sender_role == required)) (
      deny actor_sub "denied.wrong_sender_role" (some sender_agent_id) conversation_id (
        some (
          ("message_type", text message_type) ∷ ("required_role", text (role_text required)) ∷ [])))

unfoldable pub require_message_sender_role :
    String → ℕ → Option ℕ → String → ParticipantRole → Exec Unit
require_message_sender_role actor_sub sender_agent_id conversation_id message_type sender_role =
    require_role actor_sub sender_agent_id conversation_id message_type sender_role
      (message_type_sender_role message_type)

-- The loop of enforce_message_type_accepted.
unfoldable pub enforce_each_accepts :
    String → ℕ → Option ℕ → List (ℕ × List String) → String → Exec Unit
enforce_each_accepts actor_sub sender_agent_id conversation_id [] message_type = pure tt
enforce_each_accepts actor_sub sender_agent_id conversation_id ((_, accepted) ∷ rest) message_type =
    do
      when (not (contains message_type accepted)) (
          deny actor_sub "denied.message_type_not_accepted" (some sender_agent_id) conversation_id
            (some (("message_type", text message_type) ∷ [])))
      enforce_each_accepts actor_sub sender_agent_id conversation_id rest message_type

unfoldable pub enforce_message_type_accepted :
    String → ℕ → Option ℕ → List (ℕ × List String) → String → Exec Unit
enforce_message_type_accepted actor_sub sender_agent_id conversation_id other_agents message_type =
    enforce_each_accepts actor_sub sender_agent_id conversation_id
      (sort_by (λ a b. ltb a.0 b.0) other_agents) message_type

-- The lookups of the `try` block: the others' owner sets, or `none` where one raises.
unfoldable pub other_owner_sets : OwnershipClient → List ℕ → Db → Option (List (List String))
other_owner_sets client [] db = some []
other_owner_sets client (i ∷ is) db = elim (client i db) [
  | none ↦ none
  | some info ↦ elim (other_owner_sets client is db) [
    | none ↦ none
    | some sets ↦ some (owners_of info ∷ sets)
  ]
]

unfoldable pub crossing_sets :
    OwnershipClient → ℕ → List ℕ → Db → Option (List String × List (List String))
crossing_sets client sender_agent_id other_agent_ids db = elim (client sender_agent_id db) [
  | none ↦ none
  | some info ↦ elim (other_owner_sets client other_agent_ids db) [
    | none ↦ none
    | some sets ↦ some (owners_of info, sets)
  ]
]

-- The owner sets that the boundary check compares: empty where it needs no lookup.
unfoldable pub crossing_owners :
    String
    → ℕ
    → String
    → Option ℕ
    → List ℕ
    → String
    → Bool
    → OwnershipClient
    → Exec (List String × List (List String))
crossing_owners actor_sub sender_agent_id conversation_type conversation_id other_agent_ids
      message_type boundary_safe ownership_client =
    if conversation_type == "asymmetric" && not boundary_safe
    then (do
      resolved ← query (crossing_sets ownership_client sender_agent_id other_agent_ids)
      (sender_owners, sets) ← or_else resolved (
          deny actor_sub "denied.ownership_unverified" (some sender_agent_id) conversation_id
            (some (("message_type", text message_type) ∷ [])))
      when
          (not (any (λ o. true) sender_owners)
            || any (λ (owners : List String). not (any (λ o. true) owners)) sets)
          (deny actor_sub "denied.ownership_unverified" (some sender_agent_id) conversation_id
            (some (("message_type", text message_type) ∷ [])))
      pure (sender_owners, sets))
    else pure ([], [])

-- The two labels of a boundary denial.
unfoldable pub deny_boundary :
    String → ℕ → String → Option ℕ → String → List String → List String → Exec Unit
deny_boundary actor_sub sender_agent_id conversation_type conversation_id message_type sender_owners
      other_owners =
    if not (contains conversation_type conversation_types)
    then deny actor_sub "denied.unknown_conversation_type" (some sender_agent_id) conversation_id (
        some (
          ("message_type", text message_type) ∷ ("conversation_type", text conversation_type) ∷ []))
    else deny actor_sub "denied.boundary_crossing" (some sender_agent_id) conversation_id (
        some (
          ("message_type", text message_type)
          ∷ ("sender_is_shared", bool (ltb 1 (length (sorted_set str_lt sender_owners))))
          ∷ ("other_owners_outside_sender", bool (not (subset other_owners sender_owners)))
          ∷ []))

-- `is_boundary_safe`, which raises for an unknown coordinate.
unfoldable pub boundary_safe_or_raise : String → ℕ → Exec Bool
boundary_safe_or_raise message_type schema_version =
    elim (is_boundary_safe message_type schema_version) [
      | ok boundary_safe ↦ pure boundary_safe
      | err exc ↦ raise (payload_validation exc)
    ]

unfoldable pub enforce_boundary_crossing :
    String → ℕ → String → Option ℕ → List ℕ → String → ℕ → OwnershipClient → Exec Unit
enforce_boundary_crossing actor_sub sender_agent_id conversation_type conversation_id
      other_agent_ids message_type schema_version ownership_client =
    do
      boundary_safe ← boundary_safe_or_raise message_type schema_version
      (sender_owners, sets) ←
          crossing_owners actor_sub sender_agent_id conversation_type conversation_id
            other_agent_ids message_type boundary_safe ownership_client
      let other_owners = flatten sets
      when
          (not
            (is_boundary_crossing_safe conversation_type boundary_safe sender_owners other_owners))
          (deny_boundary actor_sub sender_agent_id conversation_type conversation_id message_type
            sender_owners other_owners)
