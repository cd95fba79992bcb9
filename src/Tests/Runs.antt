-- ===== src/Tests/Runs.antt =====
-- The properties of runs, from the tables of the agents and from a conversation that was completed.
use rh_reclaw.Common.{◌≡◌, ◌≢◌, refl, ℕ, List, [], ◌∷◌, some, inl}
use rh_reclaw.Common.Rows.{find_row}
use rh_reclaw.Models.{
  Conversation, ConversationState, Participant, ParticipantStatus, ParticipantRole,
}
use rh_reclaw.Service.Messages.{max_seq}
use rh_reclaw.Session.{Session, conversation_row, participant_row}
use rh_reclaw.Service.Ownership.{agent_table_client}
use rh_reclaw.Service.Requests.{Request, run, accept_invite_request, post_message_request}
use rh_reclaw.Board.Steps.{Evolves}
use rh_reclaw.Properties.Runs.{run-IsValid, run-Evolves, run-closed, run-gone}
use rh_reclaw.Board.Integrity.{IsValid}
use rh_reclaw.Tests.Board.{
  any_payload, by_text, agents_only, fresh_session, fresh_session-IsValid, start_request, started,
  started-IsValid,
}

-- A conversation that was completed, and bob's membership of it, which he left.
abbrev completed_conversation : Conversation
completed_conversation = record {
  id = 100;
  type = "internal";
  state = ConversationState.completed;
  created_by = 1;
  expires_at = 5000;
  owner_snapshot = some ("owen" ∷ []);
  created_at = 10;
}

abbrev left_row : Participant
left_row = record {
  conversation_id = 100;
  agent_id = 2;
  role = ParticipantRole.member;
  status = ParticipantStatus.left;
  invited_by = some 1;
  invited_at = 10;
  joined_at = some 20;
  last_read_seq = 0;
}

abbrev completed_session : Session
completed_session = record fresh_session {
  committed = record agents_only {
    conversations = completed_conversation ∷ [];
    participants = left_row ∷ [];
  };
}

completed_session-IsValid : IsValid completed_session.committed
unfolding find_row max_seq
completed_session-IsValid = record {
  agents = (refl, (refl, (refl, tt)));
  conversations = (refl, tt);
  participants = ((refl, refl, refl), tt);
  messages = tt;
  audit_log = tt;
  numbered = λ i. refl;
}

-- bob tries to come back, and alice to post.
abbrev attempts : List (ℕ × Request)
attempts =
    (40, accept_invite_request "bob" 2 100)
    ∷ (50, post_message_request "alice" 1 100 "task_report" [] 1)
    ∷ []

run-IsValid_example :
    IsValid
      (run any_payload agent_table_client by_text
        ((10, start_request) ∷ [])
        fresh_session).committed
run-IsValid_example =
    run-IsValid any_payload agent_table_client by_text ((10, start_request) ∷ []) fresh_session
      fresh_session-IsValid

run-Evolves_example :
    Evolves started.committed
      (run any_payload agent_table_client by_text
        ((20, accept_invite_request "bob" 2 100) ∷ [])
        started).committed
run-Evolves_example =
    run-Evolves any_payload agent_table_client by_text
      ((20, accept_invite_request "bob" 2 100) ∷ []) started started-IsValid

-- The row at its key.
closed_found : conversation_row 100 completed_session.committed ≡ some completed_conversation
unfolding find_row
closed_found = refl

gone_found : participant_row 100 2 completed_session.committed ≡ some left_row
unfolding find_row
gone_found = refl

run-closed_example :
    (c' : Conversation) × (conversation_row 100
        (run any_payload agent_table_client by_text attempts completed_session).committed
      ≡ some c')
    × (c'.state ≡ ConversationState.completed)
    × (c'.owner_snapshot ≡ some ("owen" ∷ []))
run-closed_example =
    run-closed any_payload agent_table_client by_text attempts completed_session
      completed_session-IsValid 100 completed_conversation closed_found completed_is_closed
  where
    completed_is_closed : ConversationState.completed ≢ ConversationState.active
    completed_is_closed h = cc h

run-gone_example :
    (q : Participant) × (participant_row 100 2
        (run any_payload agent_table_client by_text attempts completed_session).committed
      ≡ some q)
    × (q.status ≡ ParticipantStatus.left)
run-gone_example =
    run-gone any_payload agent_table_client by_text attempts completed_session
      completed_session-IsValid 100 2 left_row gone_found (inl refl)
