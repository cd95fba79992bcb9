-- ===== src/Server/Dispatch.antt =====
-- main.py: the server as it is put together. A tool call of a verified token, or of none, runs in
-- the observability middleware, within it in the scope enforcement, and there in the tool that is
-- mounted under the namespace `comms`.
use rh_reclaw.Common.{ℕ, String, Option, List, [], ◌∷◌, Bool}
use rh_reclaw.Common.Json.{Dict}
use rh_reclaw.Common.Stdlib.{Stdlib, ℤ}
use rh_reclaw.Schemas.{Pydantic}
use rh_reclaw.Identity.{AccessToken}
use rh_reclaw.Call.{World, Call}
use rh_reclaw.Server.{enforce_call_tool, observe_call_tool}
use rh_reclaw.Tools.Board.{whoami, register, list_agents_tool}
use rh_reclaw.Tools.Conversations.{
  start_conversation_tool, post_message_tool, get_conversation_tool, inbox_tool,
  list_conversations_tool,
}
use rh_reclaw.Tools.Membership.{accept_tool, decline_invite_tool, invite_tool, leave_tool}

-- The tools with their arguments, in the order of their signatures.
pub data ToolCall : Type 0 where
  whoami_call : Option String → ToolCall
  register_call : String → List String → Option String → ToolCall
  list_agents_call : ℤ → Option String → ToolCall
  start_conversation_call :
      String → List String → Dict → String → Option String → ℕ → Option String → ToolCall
  post_message_call : String → String → Dict → ℕ → Option String → ToolCall
  get_conversation_call : String → ℤ → Option String → ToolCall
  inbox_call : Option String → ToolCall
  list_conversations_call :
      Option String → Option String → Option String → ℤ → Option String → Option String → ToolCall
  accept_call : String → Option String → ToolCall
  decline_invite_call : String → Option String → ToolCall
  invite_call : String → String → Option String → ToolCall
  leave_call : String → Option String → ToolCall

unfoldable pub tool_name : ToolCall → String
tool_name (whoami_call _) = "comms_whoami"
tool_name (register_call _ _ _) = "comms_register"
tool_name (list_agents_call _ _) = "comms_list_agents"
tool_name (start_conversation_call _ _ _ _ _ _ _) = "comms_start_conversation"
tool_name (post_message_call _ _ _ _ _) = "comms_post_message"
tool_name (get_conversation_call _ _ _) = "comms_get_conversation"
tool_name (inbox_call _) = "comms_inbox"
tool_name (list_conversations_call _ _ _ _ _ _) = "comms_list_conversations"
tool_name (accept_call _ _) = "comms_accept"
tool_name (decline_invite_call _ _) = "comms_decline_invite"
tool_name (invite_call _ _ _) = "comms_invite"
tool_name (leave_call _ _) = "comms_leave"

-- A call that arrives at the time `t`.
abbrev pub arrive : ℕ → World → World
arrive t w = record w { session = record w.session { txn_now = t } }

module _ (py : Stdlib) (px : Pydantic) (collation : String → String → Bool) where
  unfoldable pub call_tool : Option AccessToken → ToolCall → Call Dict
  call_tool token (whoami_call agent_key) = whoami py token agent_key
  call_tool token (register_call display_name accepted_types agent_key) =
      register py token display_name accepted_types agent_key
  call_tool token (list_agents_call limit cursor) = list_agents_tool py token collation limit cursor
  call_tool token
        (start_conversation_call conversation_type target_agent_ids initial_message message_type
          expires_at schema_version agent_key) =
      start_conversation_tool py px token conversation_type target_agent_ids initial_message
        message_type expires_at schema_version agent_key
  call_tool token
        (post_message_call conversation_id message_type payload schema_version agent_key) =
      post_message_tool py px token conversation_id message_type payload schema_version agent_key
  call_tool token (get_conversation_call conversation_id since_seq agent_key) =
      get_conversation_tool py px token collation conversation_id since_seq agent_key
  call_tool token (inbox_call agent_key) = inbox_tool py px token agent_key
  call_tool token (list_conversations_call role type state limit cursor agent_key) =
      list_conversations_tool py px token role type state limit cursor agent_key
  call_tool token (accept_call conversation_id agent_key) =
      accept_tool py token conversation_id agent_key
  call_tool token (decline_invite_call conversation_id agent_key) =
      decline_invite_tool py token conversation_id agent_key
  call_tool token (invite_call conversation_id target_agent_id agent_key) =
      invite_tool py token conversation_id target_agent_id agent_key
  call_tool token (leave_call conversation_id agent_key) =
      leave_tool py token conversation_id agent_key

  -- `mcp.add_middleware(ObservabilityMiddleware())`, then `ScopeEnforcementMiddleware()`
  unfoldable pub handle : Option AccessToken → ToolCall → Call Dict
  handle token call =
      observe_call_tool py.repr py.round
        (enforce_call_tool py.repr (λ name. call_tool token call) token) token (tool_name call)

  -- The calls one after another, each with the time at which its transaction begins.
  unfoldable pub handle_all : List (ℕ × Option AccessToken × ToolCall) → World → World
  handle_all [] w = w
  handle_all ((t, token, call) ∷ calls) w = handle_all calls (handle token call (arrive t w)).1
