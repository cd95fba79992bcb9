-- ===== src/Tests/Board.antt =====
-- Two agents of one owner and one of another, and the sessions that the tests run from.
use rh_reclaw.Common.{refl, ℕ, ◌+◌, String, some, none, [], ◌∷◌, Bool, false}
use rh_reclaw.Common.Result.{ok}
use rh_reclaw.Common.Rows.{find_row}
use rh_reclaw.Service.Messages.{max_seq}
use rh_reclaw.Models.{Db, Agent, AgentStatus}
use rh_reclaw.Schemas.{Pydantic}
use rh_reclaw.Session.{Session}
use rh_reclaw.Service.Ownership.{agent_table_client}
use rh_reclaw.Service.Requests.{Request, run, start_conversation_request, accept_invite_request}
use rh_reclaw.Board.Integrity.{IsValid}
use rh_reclaw.Properties.Runs.{run-IsValid}

abbrev pub any_payload : Pydantic
any_payload = record { model_validate = λ m d. ok d; json_size = λ d. 10 }

abbrev pub by_text : String → String → Bool
by_text a b = false

abbrev pub agent : ℕ → String → String → Agent
agent id sub owner = record {
  id = id;
  sub = sub;
  owner_sub = owner;
  owner_email = owner;
  display_name = sub;
  accepted_types = "task_assign" ∷ "task_report" ∷ "needs_clarification" ∷ "decline" ∷ [];
  status = AgentStatus.active;
  bound_at = some 0;
}

abbrev pub agents_only : Db
agents_only = record {
  agents = agent 3 "carol" "olga" ∷ agent 2 "bob" "owen" ∷ agent 1 "alice" "owen" ∷ [];
  conversations = [];
  participants = [];
  messages = [];
  audit_log = [];
}

abbrev pub fresh_session : Session
fresh_session = record {
  committed = agents_only;
  working = agents_only;
  txn_now = 0;
  ticks = λ n. 1000;
  reads = 0;
  uuids = λ n. 100 + n;
  drawn = 0;
}

pub fresh_session-IsValid : IsValid agents_only
unfolding find_row max_seq
fresh_session-IsValid = record {
  agents = (refl, (refl, (refl, tt)));
  conversations = tt;
  participants = tt;
  messages = tt;
  audit_log = tt;
  numbered = λ i. refl;
}

-- alice starts an internal conversation with bob.
abbrev pub start_request : Request
start_request = start_conversation_request "alice" 1 "internal" (2 ∷ []) [] "task_assign" 1 none

-- bob accepts, and reports.
abbrev pub started : Session
started = run any_payload agent_table_client by_text ((10, start_request) ∷ []) fresh_session

abbrev pub joined : Session
joined =
    run any_payload agent_table_client by_text
      ((10, start_request) ∷ (20, accept_invite_request "bob" 2 100) ∷ []) fresh_session

pub started-IsValid : IsValid started.committed
started-IsValid =
    run-IsValid any_payload agent_table_client by_text ((10, start_request) ∷ []) fresh_session
      fresh_session-IsValid

pub joined-IsValid : IsValid joined.committed
joined-IsValid =
    run-IsValid any_payload agent_table_client by_text
      ((10, start_request) ∷ (20, accept_invite_request "bob" 2 100) ∷ []) fresh_session
      fresh_session-IsValid
