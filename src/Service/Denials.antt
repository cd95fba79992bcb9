-- ===== src/Service/Denials.antt =====
-- service.py, audit helpers: a denial stages its audit row, commits, and raises.
use rh_reclaw.Common.{ℕ, String, Option, none, some, [], ◌∷◌}
use rh_reclaw.Common.Json.{Dict, text}
use rh_reclaw.Models.{AuditLog, ConversationState, state_text}
use rh_reclaw.Schemas.{PayloadValidationError}
use rh_reclaw.Exceptions.{
  access_denied, invalid_conversation_state, rate_limit_exceeded, payload_validation,
}
use rh_reclaw.Session.{Exec, ◌>>=◌, ◌>>◌, raise, commit, write, transaction_now, with_audit}

abbrev pub audit_row : ℕ → String → String → Option ℕ → Option ℕ → Option ℕ → Option Dict → AuditLog
audit_row at actor_sub action agent_id conversation_id message_id detail = record {
  at = at;
  actor_sub = actor_sub;
  action = action;
  agent_id = agent_id;
  conversation_id = conversation_id;
  message_id = message_id;
  detail = detail;
}

unfoldable pub audit : String → String → Option ℕ → Option ℕ → Option ℕ → Option Dict → Exec Unit
audit actor_sub action agent_id conversation_id message_id detail = do
  at ← transaction_now
  write (with_audit (audit_row at actor_sub action agent_id conversation_id message_id detail))

module _ {A : Type 0} where
  unfoldable pub deny : String → String → Option ℕ → Option ℕ → Option Dict → Exec A
  deny actor_sub action agent_id conversation_id detail = do
    audit actor_sub action agent_id conversation_id none detail
    commit
    raise (access_denied action)

  unfoldable pub deny_bad_state : String → ℕ → ℕ → ConversationState → String → Exec A
  deny_bad_state actor_sub agent_id conversation_id current_state message_type = do
    audit actor_sub "denied.bad_state" (some agent_id) (some conversation_id) none (
        some
          (("state", text (state_text current_state)) ∷ ("message_type", text message_type) ∷ []))
    commit
    raise (invalid_conversation_state message_type current_state)

  unfoldable pub deny_rate_limited : String → ℕ → Option ℕ → String → String → Exec A
  deny_rate_limited actor_sub agent_id conversation_id limit_name message = do
    audit actor_sub "denied.rate_limited" (some agent_id) conversation_id none
        (some (("limit", text limit_name) ∷ []))
    commit
    raise (rate_limit_exceeded message limit_name)

  unfoldable pub deny_bad_schema : String → ℕ → Option ℕ → String → PayloadValidationError → Exec A
  deny_bad_schema actor_sub agent_id conversation_id message_type exc = do
    audit actor_sub "denied.bad_schema" (some agent_id) conversation_id none
        (some (("message_type", text message_type) ∷ []))
    commit
    raise (payload_validation exc)
