-- ===== src/Properties/Calls.antt =====
-- service.py, one call at a time: what it returns with and what it leaves, and what a denial leaves.
use rh_reclaw.Common.{some, ◌==◌, ◌||◌, false, ◌≡◌, Bool, ℕ, String, List}
use rh_reclaw.Common.Json.{Dict}
use rh_reclaw.Common.Result.{ok}
use rh_reclaw.Models.{
  Conversation, ConversationState, state_eq, Participant, ParticipantStatus, status_eq,
}
use rh_reclaw.Schemas.{Pydantic}
use rh_reclaw.Session.{Session, conversation_row, participant_row}
use rh_reclaw.Guarantees.Returns.{
  returns_lem, Spec-leave_returns, Spec-decline_invite_returns, Spec-get_conversation_returns,
  Spec-accept_invite_returns,
}
use rh_reclaw.Session.Triple.{Ends}
use rh_reclaw.Service.Ownership.{OwnershipClient}
use rh_reclaw.Service.Requests.{begin}
use rh_reclaw.Service.Registration.{register_agent}
use rh_reclaw.Service.Membership.{accept_invite, decline_invite, invite, leave}
use rh_reclaw.Service.Messages.{post_message}
use rh_reclaw.Service.Reads.{Reading, get_conversation}
use rh_reclaw.Board.Integrity.{IsValid}
use rh_reclaw.Guarantees.Denials.{Denied}
use rh_reclaw.Guarantees.Membership.{Moved, Spec-accept_invite, Spec-decline_invite, Spec-leave}
use rh_reclaw.Guarantees.Messages.Post.{Posted, Spec-post_message}
use rh_reclaw.Guarantees.Invite.{InvitedTo, Spec-invite}
use rh_reclaw.Guarantees.Registration.{Registered, Spec-register_agent}
use rh_reclaw.Guarantees.Reads.{Read, Spec-get_conversation}
use rh_reclaw.Guarantees.Runs.{Sound-of_valid, At-begin}

-- In a session on valid tables, post_message either stores the message, and then every gate has
-- passed (active agent, active member, active conversation, sender role, validated payload,
-- accepted type, ownership boundary), its number is one above the highest, and the effects on the
-- conversation are those of the state machine, or raises, and then a denial has left its audit row
-- on sound tables and any other exception has changed nothing.
pub post_message-Posted :
    (px : Pydantic) (client : OwnershipClient) (actor : String) (sender conversation_id : ℕ)
    (message_type : String) (payload : Dict) (version t : ℕ) (s : Session)
    → IsValid s.committed
    → Ends
        (λ m s'.
          Posted px client s.committed sender conversation_id message_type payload version m
            s'.committed)
        (Denied actor s.committed)
        (post_message px client actor sender conversation_id message_type payload version
          (begin t s))
post_message-Posted px client actor sender conversation_id message_type payload version t s valid =
    (Spec-post_message (Sound-of_valid valid) px client actor sender conversation_id message_type
        payload version).run
      (begin t s) (At-begin t s)

-- In a session on valid tables, invite either adds an invited member, and then the inviter was an
-- active participant of an active conversation, the target an active agent without a row and,
-- outside `open`, one whose owners are all in the snapshot, or raises, and then a denial has left
-- its audit row on sound tables and any other exception has changed nothing.
pub invite-InvitedTo :
    (client : OwnershipClient) (actor : String) (inviter conversation_id target t : ℕ) (s : Session)
    → IsValid s.committed
    → Ends
        (λ p s'. InvitedTo client actor s.committed inviter conversation_id target s'.committed)
        (Denied actor s.committed)
        (invite client actor inviter conversation_id target (begin t s))
invite-InvitedTo client actor inviter conversation_id target t s valid =
    (Spec-invite (Sound-of_valid valid) client actor inviter conversation_id target).run (begin t s)
      (At-begin t s)

-- In a session on valid tables, get_conversation either returns a reading, and then the caller was
-- invited and is shown no message, or was active and is shown every message of the conversation after
-- `since` and no other, each once, in the order of their numbers and with its sender's subject, its
-- cursor then at or above each of them and not lower than before, or raises, and then a denial has
-- left its audit row and any other exception has changed nothing.
pub get_conversation-Read :
    (collation : String → String → Bool) (actor : String) (caller conversation_id since t : ℕ)
    (s : Session)
    → IsValid s.committed
    → Ends
        (λ r s'. Read s.committed caller conversation_id since r s'.committed)
        (Denied actor s.committed)
        (get_conversation collation actor caller conversation_id since (begin t s))
get_conversation-Read collation actor caller conversation_id since t s valid =
    (Spec-get_conversation (Sound-of_valid valid) collation actor caller conversation_id since).run
      (begin t s) (At-begin t s)

-- In a session on valid tables, register_agent either binds the stripped subject, a known one
-- keeping its id and its owner, or raises, and then nothing has changed.
pub register_agent-Registered :
    (sub owner_sub owner_email display_name : String) (accepted_types : List String) (t : ℕ)
    (s : Session)
    → IsValid s.committed
    → Ends
        (λ a s'.
          Registered s.committed sub owner_sub owner_email display_name accepted_types a
            s'.committed)
        (λ e s'. s'.committed ≡ s.committed)
        (register_agent sub owner_sub owner_email display_name accepted_types (begin t s))
register_agent-Registered sub owner_sub owner_email display_name accepted_types t s valid =
    (Spec-register_agent (Sound-of_valid valid) sub owner_sub owner_email display_name
        accepted_types).run
      (begin t s) (At-begin t s)

-- In a session on valid tables, accept_invite either turns an invited membership active, or raises,
-- and then a denial has left its audit row on sound tables and any other exception has changed
-- nothing.
pub accept_invite-Moved :
    (actor : String) (agent_id conversation_id t : ℕ) (s : Session)
    → IsValid s.committed
    → Ends
        (λ p s'.
          Moved actor "participant.accept" s.committed conversation_id agent_id
            ParticipantStatus.invited ParticipantStatus.active s'.committed)
        (Denied actor s.committed)
        (accept_invite actor agent_id conversation_id (begin t s))
accept_invite-Moved actor agent_id conversation_id t s valid =
    (Spec-accept_invite (Sound-of_valid valid) actor agent_id conversation_id).run (begin t s)
      (At-begin t s)

-- In a session on valid tables, decline_invite either turns an invited membership declined, or
-- raises, and then a denial has left its audit row on sound tables and any other exception has
-- changed nothing.
pub decline_invite-Moved :
    (actor : String) (agent_id conversation_id t : ℕ) (s : Session)
    → IsValid s.committed
    → Ends
        (λ p s'.
          Moved actor "participant.decline_invite" s.committed conversation_id agent_id
            ParticipantStatus.invited ParticipantStatus.declined s'.committed)
        (Denied actor s.committed)
        (decline_invite actor agent_id conversation_id (begin t s))
decline_invite-Moved actor agent_id conversation_id t s valid =
    (Spec-decline_invite (Sound-of_valid valid) actor agent_id conversation_id).run (begin t s)
      (At-begin t s)

-- In a session on valid tables, leave either turns an active membership left, or raises, and then a
-- denial has left its audit row on sound tables and any other exception has changed nothing.
pub leave-Moved :
    (actor : String) (agent_id conversation_id t : ℕ) (s : Session)
    → IsValid s.committed
    → Ends
        (λ p s'.
          Moved actor "participant.leave" s.committed conversation_id agent_id
            ParticipantStatus.active ParticipantStatus.left s'.committed)
        (Denied actor s.committed)
        (leave actor agent_id conversation_id (begin t s))
leave-Moved actor agent_id conversation_id t s valid =
    (Spec-leave (Sound-of_valid valid) actor agent_id conversation_id).run (begin t s)
      (At-begin t s)

-- In a session on valid tables, leave returns, whatever the state of the conversation, where the
-- agent is an active participant of a conversation that is there.
pub leave_returns :
    (actor : String) (agent_id conversation_id t : ℕ) (s : Session) (c : Conversation)
    (p : Participant)
    → IsValid s.committed
    → conversation_row conversation_id s.committed ≡ some c
    → participant_row conversation_id agent_id s.committed ≡ some p
    → p.status ≡ ParticipantStatus.active
    → (leave actor agent_id conversation_id (begin t s)).0 ≡ ok tt
leave_returns actor agent_id conversation_id t s c p valid found member is_active =
    (returns_lem _ (
      (Spec-leave_returns (Sound-of_valid valid) actor agent_id conversation_id c p found member
          is_active).run
        (begin t s) (At-begin t s))).1

-- In a session on valid tables, decline_invite returns, whatever the state of the conversation, where
-- the agent is invited to a conversation that is there.
pub decline_invite_returns :
    (actor : String) (agent_id conversation_id t : ℕ) (s : Session) (c : Conversation)
    (p : Participant)
    → IsValid s.committed
    → conversation_row conversation_id s.committed ≡ some c
    → participant_row conversation_id agent_id s.committed ≡ some p
    → p.status ≡ ParticipantStatus.invited
    → (decline_invite actor agent_id conversation_id (begin t s)).0 ≡ ok tt
decline_invite_returns actor agent_id conversation_id t s c p valid found member is_invited =
    (returns_lem _ (
      (Spec-decline_invite_returns (Sound-of_valid valid) actor agent_id conversation_id c p found
          member is_invited).run
        (begin t s) (At-begin t s))).1

-- In a session on valid tables, get_conversation returns, whatever the state of the conversation,
-- where the agent has a membership of a conversation that is there, neither left nor declined.
pub get_conversation_returns :
    (collation : String → String → Bool) (actor : String) (agent_id conversation_id since t : ℕ)
    (s : Session) (c : Conversation) (p : Participant)
    → IsValid s.committed
    → conversation_row conversation_id s.committed ≡ some c
    → participant_row conversation_id agent_id s.committed ≡ some p
    → (p.status == ParticipantStatus.left || p.status == ParticipantStatus.declined) ≡ false
    → (r : Reading) × ((get_conversation collation actor agent_id conversation_id since
          (begin t s)).0
        ≡ ok r)
get_conversation_returns collation actor agent_id conversation_id since t s c p valid found member
      present =
    returns_lem _ (
      (Spec-get_conversation_returns (Sound-of_valid valid) actor agent_id conversation_id c p found
          member collation since present).run
        (begin t s) (At-begin t s))

-- In a session on valid tables, accept_invite returns where the agent is invited to a conversation
-- that is neither completed nor canceled, though it may have expired.
pub accept_invite_returns :
    (actor : String) (agent_id conversation_id t : ℕ) (s : Session) (c : Conversation)
    (p : Participant)
    → IsValid s.committed
    → conversation_row conversation_id s.committed ≡ some c
    → participant_row conversation_id agent_id s.committed ≡ some p
    → p.status ≡ ParticipantStatus.invited
    → (c.state == ConversationState.completed || c.state == ConversationState.canceled) ≡ false
    → (q : Participant) × ((accept_invite actor agent_id conversation_id (begin t s)).0 ≡ ok q)
accept_invite_returns actor agent_id conversation_id t s c p valid found member is_invited is_open =
    returns_lem _ (
      (Spec-accept_invite_returns (Sound-of_valid valid) actor agent_id conversation_id c p found
          member is_invited is_open).run
        (begin t s) (At-begin t s))
