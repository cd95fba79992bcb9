-- ===== src/Tests/Calls.antt =====
-- The properties of the calls at the sessions of Board.
use rh_reclaw.Common.{some, refl, ◌≡◌, [], ◌∷◌}
use rh_reclaw.Common.Result.{ok}
use rh_reclaw.Common.Rows.{find_row}
use rh_reclaw.Service.Messages.{max_seq}
use rh_reclaw.Session.{Session, conversation_row, participant_row}
use rh_reclaw.Board.Integrity.{IsValid}
use rh_reclaw.Models.{
  Conversation, ConversationState, Participant, ParticipantRole, ParticipantStatus,
}
use rh_reclaw.Session.Triple.{Ends}
use rh_reclaw.Service.Ownership.{agent_table_client}
use rh_reclaw.Service.Requests.{begin}
use rh_reclaw.Service.Registration.{register_agent}
use rh_reclaw.Service.Membership.{accept_invite, decline_invite, invite, leave}
use rh_reclaw.Service.Messages.{post_message}
use rh_reclaw.Service.Reads.{Reading, get_conversation}
use rh_reclaw.Guarantees.Denials.{Denied}
use rh_reclaw.Guarantees.Membership.{Moved}
use rh_reclaw.Guarantees.Messages.Post.{Posted}
use rh_reclaw.Guarantees.Invite.{InvitedTo}
use rh_reclaw.Guarantees.Registration.{Registered}
use rh_reclaw.Guarantees.Reads.{Read}
use rh_reclaw.Properties.Calls.{
  post_message-Posted, invite-InvitedTo, get_conversation-Read, register_agent-Registered,
  accept_invite-Moved, decline_invite-Moved, leave-Moved, leave_returns, decline_invite_returns,
  get_conversation_returns, accept_invite_returns,
}
use rh_reclaw.Tests.Board.{
  any_payload, by_text, agents_only, fresh_session, fresh_session-IsValid, started, started-IsValid,
  joined, joined-IsValid,
}

post_message-Posted_example :
    Ends
      (λ m s'.
        Posted any_payload agent_table_client joined.committed 2 100 "task_report" [] 1 m
          s'.committed)
      (Denied "bob" joined.committed)
      (post_message any_payload agent_table_client "bob" 2 100 "task_report" [] 1 (begin 30 joined))
post_message-Posted_example =
    post_message-Posted any_payload agent_table_client "bob" 2 100 "task_report" [] 1 30 joined
      joined-IsValid

invite-InvitedTo_example :
    Ends
      (λ p s'. InvitedTo agent_table_client "alice" joined.committed 1 100 3 s'.committed)
      (Denied "alice" joined.committed)
      (invite agent_table_client "alice" 1 100 3 (begin 30 joined))
invite-InvitedTo_example =
    invite-InvitedTo agent_table_client "alice" 1 100 3 30 joined joined-IsValid

get_conversation-Read_example :
    Ends
      (λ r s'. Read joined.committed 2 100 0 r s'.committed)
      (Denied "bob" joined.committed)
      (get_conversation by_text "bob" 2 100 0 (begin 30 joined))
get_conversation-Read_example = get_conversation-Read by_text "bob" 2 100 0 30 joined joined-IsValid

register_agent-Registered_example :
    Ends
      (λ a s'. Registered agents_only "bob" "mallory" "m" "Bob" ("decline" ∷ []) a s'.committed)
      (λ e s'. s'.committed ≡ agents_only)
      (register_agent "bob" "mallory" "m" "Bob" ("decline" ∷ []) (begin 5 fresh_session))
register_agent-Registered_example =
    register_agent-Registered "bob" "mallory" "m" "Bob" ("decline" ∷ []) 5 fresh_session
      fresh_session-IsValid

accept_invite-Moved_example :
    Ends
      (λ p s'.
        Moved "bob" "participant.accept" started.committed 100 2 ParticipantStatus.invited
          ParticipantStatus.active s'.committed)
      (Denied "bob" started.committed)
      (accept_invite "bob" 2 100 (begin 20 started))
accept_invite-Moved_example = accept_invite-Moved "bob" 2 100 20 started started-IsValid

decline_invite-Moved_example :
    Ends
      (λ p s'.
        Moved "bob" "participant.decline_invite" started.committed 100 2 ParticipantStatus.invited
          ParticipantStatus.declined s'.committed)
      (Denied "bob" started.committed)
      (decline_invite "bob" 2 100 (begin 20 started))
decline_invite-Moved_example = decline_invite-Moved "bob" 2 100 20 started started-IsValid

leave-Moved_example :
    Ends
      (λ p s'.
        Moved "bob" "participant.leave" joined.committed 100 2 ParticipantStatus.active
          ParticipantStatus.left s'.committed)
      (Denied "bob" joined.committed)
      (leave "bob" 2 100 (begin 30 joined))
leave-Moved_example = leave-Moved "bob" 2 100 30 joined joined-IsValid

abbrev completed_row : Conversation
completed_row = record {
  id = 100;
  type = "internal";
  state = ConversationState.completed;
  created_by = 1;
  expires_at = 5000;
  owner_snapshot = some ("owen" ∷ []);
  created_at = 10;
}

abbrev membership : ParticipantStatus → Participant
membership status = record {
  conversation_id = 100;
  agent_id = 2;
  role = ParticipantRole.member;
  status = status;
  invited_by = some 1;
  invited_at = 10;
  joined_at = some 20;
  last_read_seq = 0;
}

-- bob's membership of a completed conversation.
abbrev member_session : ParticipantStatus → Session
member_session status = record fresh_session {
  committed = record agents_only {
    conversations = completed_row ∷ [];
    participants = membership status ∷ [];
  };
}

member_session-IsValid : (status : ParticipantStatus) → IsValid (member_session status).committed
unfolding find_row max_seq
member_session-IsValid status = record {
  agents = (refl, (refl, (refl, tt)));
  conversations = (refl, tt);
  participants = ((refl, refl, refl), tt);
  messages = tt;
  audit_log = tt;
  numbered = λ i. refl;
}

conversation_found :
    (status : ParticipantStatus)
    → conversation_row 100 (member_session status).committed ≡ some completed_row
unfolding find_row
conversation_found status = refl

membership_found :
    (status : ParticipantStatus)
    → participant_row 100 2 (member_session status).committed ≡ some (membership status)
unfolding find_row
membership_found status = refl

leave_returns_example :
    (leave "bob" 2 100 (begin 30 (member_session ParticipantStatus.active))).0 ≡ ok tt
leave_returns_example =
    leave_returns "bob" 2 100 30 (member_session ParticipantStatus.active) completed_row
      (membership ParticipantStatus.active) (member_session-IsValid ParticipantStatus.active)
      (conversation_found ParticipantStatus.active) (membership_found ParticipantStatus.active) refl

decline_invite_returns_example :
    (decline_invite "bob" 2 100 (begin 30 (member_session ParticipantStatus.invited))).0 ≡ ok tt
decline_invite_returns_example =
    decline_invite_returns "bob" 2 100 30 (member_session ParticipantStatus.invited) completed_row
      (membership ParticipantStatus.invited) (member_session-IsValid ParticipantStatus.invited)
      (conversation_found ParticipantStatus.invited) (membership_found ParticipantStatus.invited)
      refl

get_conversation_returns_example :
    (r : Reading) × ((get_conversation by_text "bob" 2 100 0
        (begin 30 (member_session ParticipantStatus.active))).0
      ≡ ok r)
get_conversation_returns_example =
    get_conversation_returns by_text "bob" 2 100 0 30 (member_session ParticipantStatus.active)
      completed_row (membership ParticipantStatus.active)
      (member_session-IsValid ParticipantStatus.active)
      (conversation_found ParticipantStatus.active) (membership_found ParticipantStatus.active) refl

abbrev expired_row : Conversation
expired_row = record completed_row { state = ConversationState.expired }

-- bob's invitation to a conversation that has expired.
abbrev expired_session : Session
expired_session = record fresh_session {
  committed = record agents_only {
    conversations = expired_row ∷ [];
    participants = membership ParticipantStatus.invited ∷ [];
  };
}

expired_session-IsValid : IsValid expired_session.committed
unfolding find_row max_seq
expired_session-IsValid = record {
  agents = (refl, (refl, (refl, tt)));
  conversations = (refl, tt);
  participants = ((refl, refl, refl), tt);
  messages = tt;
  audit_log = tt;
  numbered = λ i. refl;
}

expired_found : conversation_row 100 expired_session.committed ≡ some expired_row
unfolding find_row
expired_found = refl

invitation_found :
    participant_row 100 2 expired_session.committed ≡ some (membership ParticipantStatus.invited)
unfolding find_row
invitation_found = refl

accept_invite_returns_example :
    (q : Participant) × ((accept_invite "bob" 2 100 (begin 30 expired_session)).0 ≡ ok q)
accept_invite_returns_example =
    accept_invite_returns "bob" 2 100 30 expired_session expired_row
      (membership ParticipantStatus.invited) expired_session-IsValid expired_found invitation_found
      refl refl
