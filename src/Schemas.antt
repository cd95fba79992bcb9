-- ===== src/Schemas.antt =====
-- schemas.py: the vocabularies and limits, the registry of message schemas, and payload validation.
-- What the models of the registry accept is Pydantic's part: `Pydantic` is a parameter.
pub mod Validation
pub mod Models
use rh_reclaw.Common.{
  ℕ, String, Option, none, some, List, [], ◌∷◌, map, Bool, true, false, ◌&&◌, ltb, ◌==◌, nat_eq,
  string_eq, if◌then◌else◌,
}
use rh_reclaw.Common.Json.{Dict}
use rh_reclaw.Common.Result.{Result, ok, err, ◌>>=◌, ◌>>◌}

abbrev pub conversation_types : List String
conversation_types = "internal" ∷ "asymmetric" ∷ "open" ∷ []

abbrev pub max_display_name_length : ℕ
max_display_name_length = 255

abbrev pub max_accepted_types : ℕ
max_accepted_types = 20

abbrev pub max_accepted_type_length : ℕ
max_accepted_type_length = 100

abbrev pub max_payload_bytes : ℕ
max_payload_bytes = 65536

-- The `Literal` of message types.
abbrev pub message_type_literals : List String
message_type_literals =
    "availability_request" ∷ "availability_response" ∷ "counter_proposal" ∷ "confirm" ∷ "decline"
    ∷ "needs_clarification" ∷ "note" ∷ "task_assign" ∷ "task_report" ∷ "task_complete"
    ∷ "task_decline" ∷ "task_cancel" ∷ []

-- The Pydantic models.
pub data PayloadModel : Type 0 where
  availability_request_v1 availability_response_v1 counter_proposal_v1 : PayloadModel
  confirm_v1 decline_v1 needs_clarification_v1 note_v1 task_assign_v1 : PayloadModel
  task_report_v1 task_complete_v1 task_decline_v1 task_cancel_v1 : PayloadModel

pub record MessageSchema : Type 0 where
  pub message_type : String
  pub schema_version : ℕ
  pub model : PayloadModel
  pub boundary_safe : Bool

abbrev pub schema_key : MessageSchema → String × ℕ
schema_key s = (s.message_type, s.schema_version)

abbrev pub schema_key_beq : String × ℕ → String × ℕ → Bool
schema_key_beq (a, b) (c, d) = (a == c) && (b == d)

abbrev entry : String → PayloadModel → Bool → MessageSchema
entry t m safe = record { message_type = t; schema_version = 1; model = m; boundary_safe = safe }

-- The registry: message type and version to model and boundary policy.
unfoldable pub message_schemas : List MessageSchema
message_schemas =
    entry "availability_request" availability_request_v1 true
    ∷ entry "availability_response" availability_response_v1 true
    ∷ entry "counter_proposal" counter_proposal_v1 true
    ∷ entry "confirm" confirm_v1 true
    ∷ entry "decline" decline_v1 true
    ∷ entry "needs_clarification" needs_clarification_v1 true
    ∷ entry "note" note_v1 false
    ∷ entry "task_assign" task_assign_v1 true
    ∷ entry "task_report" task_report_v1 true
    ∷ entry "task_complete" task_complete_v1 true
    ∷ entry "task_decline" task_decline_v1 true
    ∷ entry "task_cancel" task_cancel_v1 true
    ∷ []

-- The message types that have a registered version.
unfoldable pub message_types : List String
unfolding message_schemas
message_types = map (λ s. s.message_type) message_schemas

-- `PayloadValidationError`, by its cause.
pub data PayloadValidationError : Type 0 where
  unknown_schema : String → ℕ → PayloadValidationError
  -- what Pydantic reports
  invalid_payload : String → PayloadValidationError
  payload_too_large : ℕ → PayloadValidationError
  no_prior_message : ℕ → PayloadValidationError

-- `model_validate` with `model_dump` of its result, and the length of the JSON encoding.
pub record Pydantic : Type 0 where
  pub model_validate : PayloadModel → Dict → Result String Dict
  pub json_size : Dict → ℕ

lookup_schema : String → ℕ → List MessageSchema → Option MessageSchema
lookup_schema t v [] = none
lookup_schema t v (s ∷ ss) =
    if schema_key_beq (schema_key s) (t, v) then some s else lookup_schema t v ss

-- `MESSAGE_SCHEMAS.get((message_type, schema_version))`
unfoldable pub find_schema : String → ℕ → Option MessageSchema
unfolding lookup_schema message_schemas
find_schema message_type schema_version = lookup_schema message_type schema_version message_schemas

unfoldable pub get_schema : String → ℕ → Result PayloadValidationError PayloadModel
get_schema message_type schema_version = elim (find_schema message_type schema_version) [
  | none ↦ err (unknown_schema message_type schema_version)
  | some s ↦ ok s.model
]

unfoldable pub is_boundary_safe : String → ℕ → Result PayloadValidationError Bool
is_boundary_safe message_type schema_version = elim (find_schema message_type schema_version) [
  | none ↦ err (unknown_schema message_type schema_version)
  | some s ↦ ok s.boundary_safe
]

module _ (px : Pydantic) where
  unfoldable pub check_payload_size : Dict → Result PayloadValidationError Unit
  check_payload_size payload =
      let size = px.json_size payload in
      if ltb max_payload_bytes size then err (payload_too_large size) else ok tt

  validate_model : PayloadModel → Dict → Result PayloadValidationError Dict
  validate_model schema_cls payload = elim (px.model_validate schema_cls payload) [
    | err summary ↦ err (invalid_payload summary)
    | ok dumped ↦ ok dumped
  ]

  unfoldable pub validate_payload : String → ℕ → Dict → Result PayloadValidationError Dict
  unfolding check_payload_size get_schema validate_model
  validate_payload message_type schema_version payload = do
    check_payload_size payload
    schema_cls ← get_schema message_type schema_version
    dumped ← validate_model schema_cls payload
    check_payload_size dumped
    ok dumped
