-- ===== src/Service/Requests.antt =====
-- The calls of the service, each in a session of its own: the providers open one per tool call, and
-- what a call has not committed is gone when its session closes.
use rh_reclaw.Common.{ℕ, String, Option, List, [], ◌∷◌, Bool}
use rh_reclaw.Common.Json.{Dict}
use rh_reclaw.Common.Result.{Result}
use rh_reclaw.Schemas.{Pydantic}
use rh_reclaw.Exceptions.{ServiceError}
use rh_reclaw.Session.{Session}
use rh_reclaw.Service.Ownership.{OwnershipClient}
use rh_reclaw.Service.Registration.{register_agent}
use rh_reclaw.Service.Conversations.{start_conversation}
use rh_reclaw.Service.Membership.{accept_invite, decline_invite, invite, leave}
use rh_reclaw.Service.Messages.{post_message}
use rh_reclaw.Service.Reads.{get_conversation}

-- The calls that change the tables, with their arguments.
pub data Request : Type 0 where
  register_agent_request : String → String → String → String → List String → Request
  start_conversation_request : String → ℕ → String → List ℕ → Dict → String → ℕ → Option ℕ → Request
  accept_invite_request : String → ℕ → ℕ → Request
  decline_invite_request : String → ℕ → ℕ → Request
  invite_request : String → ℕ → ℕ → ℕ → Request
  leave_request : String → ℕ → ℕ → Request
  post_message_request : String → ℕ → ℕ → String → Dict → ℕ → Request
  get_conversation_request : String → ℕ → ℕ → ℕ → Request

-- A session that opens at time `t`.
abbrev pub begin : ℕ → Session → Session
begin t s = record s { working = s.committed; txn_now = t }

abbrev session_after : {A : Type 0} → Result ServiceError A × Session → Session
session_after r = r.1

module _ (px : Pydantic) (ownership_client : OwnershipClient)
    (collation : String → String → Bool) where
  unfoldable pub serve : Request → Session → Session
  serve (register_agent_request sub owner_sub owner_email display_name accepted_types) s =
      session_after (register_agent sub owner_sub owner_email display_name accepted_types s)
  serve
        (start_conversation_request actor initiator conversation_type targets message message_type
          version expires_at)
        s =
      session_after (
        start_conversation px ownership_client actor initiator conversation_type targets message
          message_type version expires_at s)
  serve (accept_invite_request actor agent_id conversation_id) s =
      session_after (accept_invite actor agent_id conversation_id s)
  serve (decline_invite_request actor agent_id conversation_id) s =
      session_after (decline_invite actor agent_id conversation_id s)
  serve (invite_request actor inviter conversation_id target) s =
      session_after (invite ownership_client actor inviter conversation_id target s)
  serve (leave_request actor agent_id conversation_id) s =
      session_after (leave actor agent_id conversation_id s)
  serve (post_message_request actor sender conversation_id message_type payload version) s =
      session_after (
        post_message px ownership_client actor sender conversation_id message_type payload version
          s)
  serve (get_conversation_request actor caller conversation_id since) s =
      session_after (get_conversation collation actor caller conversation_id since s)

  -- The requests one after another, each with the time at which its transaction begins.
  unfoldable pub run : List (ℕ × Request) → Session → Session
  unfolding serve
  run [] s = s
  run ((t, r) ∷ rs) s = run rs (serve r (begin t s))
