-- ===== src/Exceptions.antt =====
-- exceptions.py, with the other exceptions that leave the service layer.
use rh_reclaw.Common.{String, List}
use rh_reclaw.Models.{ConversationState}
use rh_reclaw.Schemas.{PayloadValidationError}

pub data ServiceError : Type 0 where
  -- `AccessDeniedError(reason=...)`
  access_denied : String → ServiceError
  -- `InvalidConversationStateError`, for a message type in a state
  invalid_conversation_state : String → ConversationState → ServiceError
  -- `RateLimitExceededError(message, reason=...)`
  rate_limit_exceeded : String → String → ServiceError
  payload_validation : PayloadValidationError → ServiceError
  -- `UnknownConversationTypeError`, with the unknown values
  unknown_conversation_type : List String → ServiceError
  -- the same exception, of the types that register_agent is given
  unknown_accepted_types : List String → ServiceError
  value_error : String → ServiceError
  -- the database refuses a row whose key is taken
  integrity_error : ServiceError
  -- `KeyError`
  key_error : ServiceError
