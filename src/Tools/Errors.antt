-- ===== src/Tools/Errors.antt =====
-- providers/comms.py: what the exceptions of the service become for the client.
use Prim.Native.String.{◌++◌}
use rh_reclaw.Common.{ℕ, String, List, [], ◌∷◌, string_eq}
use rh_reclaw.Common.Json.{nat, text, array, texts}
use rh_reclaw.Common.Text.{sorted_set, str_lt}
use rh_reclaw.Common.Stdlib.{Stdlib}
use rh_reclaw.Models.{state_text}
use rh_reclaw.Schemas.{
  PayloadValidationError, unknown_schema, invalid_payload, payload_too_large, no_prior_message,
  max_payload_bytes, message_types, conversation_types,
}
use rh_reclaw.Exceptions.{
  ServiceError, access_denied, invalid_conversation_state, rate_limit_exceeded, payload_validation,
  unknown_conversation_type, unknown_accepted_types, value_error, integrity_error, key_error,
}
use rh_reclaw.Call.{Failure, tool_error, unmapped}

-- The one message of `AccessDeniedError`.
abbrev pub access_denied_message : String
access_denied_message = "access_denied: not authorized for this resource"

abbrev pub generic_message : String
generic_message = "invalid_request: the request could not be processed"

-- The one type that start_conversation is given.
abbrev first : List String → String
first [] = ""
first (t ∷ ts) = t

module _ (py : Stdlib) where
  -- `str(n)`
  abbrev number : ℕ → String
  number n = py.repr (nat n)

  -- `str` of a sorted list
  abbrev listing : List String → String
  listing ts = py.repr (array (texts (sorted_set str_lt ts)))

  unfoldable pub payload_message : PayloadValidationError → String
  payload_message (unknown_schema message_type schema_version) =
      "unknown message schema: type '"
      ++ message_type
      ++ "' schema_version "
      ++ number schema_version
      ++ " is not registered"
  payload_message (invalid_payload summary) = "payload failed schema validation: " ++ summary
  payload_message (payload_too_large size) =
      "payload failed schema validation: payload is "
      ++ number size
      ++ " bytes, exceeding the "
      ++ number max_payload_bytes
      ++ "-byte cap"
  payload_message (no_prior_message about_seq) =
      "payload failed schema validation: about_seq: "
      ++ number about_seq
      ++ " does not reference a prior message in this conversation"

  -- `_map_service_errors`; what it does not catch stays as it is.
  unfoldable pub map_service_errors : ServiceError → Failure
  map_service_errors (access_denied reason) = tool_error access_denied_message
  map_service_errors (invalid_conversation_state message_type state) = tool_error (
      "message type '"
      ++ message_type
      ++ "' is not legal while the conversation is '"
      ++ state_text state
      ++ "'")
  map_service_errors (rate_limit_exceeded message reason) = tool_error message
  map_service_errors (payload_validation e) = tool_error (payload_message e)
  map_service_errors (unknown_conversation_type ts) = tool_error (
      "unknown conversation_type "
      ++ py.repr (text (first ts))
      ++ " — supported: "
      ++ listing conversation_types)
  map_service_errors (unknown_accepted_types ts) = tool_error (
      "accepted_types must be a non-empty subset of "
      ++ listing message_types
      ++ " (got unknown: "
      ++ py.repr (array (texts ts))
      ++ ")")
  map_service_errors (value_error message) = tool_error generic_message
  map_service_errors integrity_error = unmapped integrity_error
  map_service_errors key_error = unmapped key_error
