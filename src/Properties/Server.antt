-- ===== src/Properties/Server.antt =====
-- The server as it is put together: tool calls through the middlewares, on the tables.
use rh_reclaw.Common.{◌≡◌, ℕ, String, Option, some, List, Bool, string_eq}
use rh_reclaw.Common.Result.{ok}
use rh_reclaw.Common.Rows.{find_row}
use rh_reclaw.Common.Json.{Dict}
use rh_reclaw.Common.Stdlib.{Stdlib, pos}
use rh_reclaw.Models.{Agent}
use rh_reclaw.Schemas.{Pydantic}
use rh_reclaw.Identity.{AccessToken}
use rh_reclaw.Call.{World}
use rh_reclaw.Server.Dispatch.{ToolCall, handle, handle_all}
use rh_reclaw.Tools.Caller.{caller_sub}
use rh_reclaw.Tools.Parsing.{parse_uuid}
use rh_reclaw.Tools.Conversations.{post_message_tool, get_conversation_tool}
use rh_reclaw.Tools.Membership.{accept_tool, decline_invite_tool, invite_tool, leave_tool}
use rh_reclaw.Board.Steps.{Evolves}
use rh_reclaw.Board.Integrity.{IsValid}
use rh_reclaw.Guarantees.Strangers.{Stranger}
use rh_reclaw.Guarantees.Dispatch.{Refined}
use rh_reclaw.Guarantees.Dispatch.Tools.{agent_key_of}
use rh_reclaw.Guarantees.Dispatch.Server.{Refined-handle, Sound-handle_all}
use rh_reclaw.Guarantees.Dispatch.Strangers.{
  uniform, accept_tool-stranger, decline_invite_tool-stranger, leave_tool-stranger,
  invite_tool-stranger, post_message_tool-stranger, get_conversation_tool-stranger,
}

module _ (py : Stdlib) (px : Pydantic) (collation : String → String → Bool) where
  -- Any tool call leaves the committed tables as they were, or as exactly one request of the service
  -- leaves them, made under the board identity of the call's own token and agent key and, but
  -- for a registration, for the agent that is bound to that identity.
  pub handle-Refined :
      (found : Option AccessToken) (call : ToolCall) (w : World)
      → Refined py px collation found
          (agent_key_of call)
          w.session
          (handle py px collation found call w).1.session
  handle-Refined = Refined-handle py px collation

  -- From valid tables any sequence of tool calls, whatever their tokens and arguments, leads to valid
  -- tables and only moves them forward.
  pub handle_all-Sound :
      (calls : List (ℕ × Option AccessToken × ToolCall)) (w : World)
      → IsValid w.session.committed
      → IsValid (handle_all py px collation calls w).session.committed
        × Evolves w.session.committed (handle_all py px collation calls w).session.committed
  handle_all-Sound calls w valid =
      let sound = Sound-handle_all py px collation calls w valid in (sound.valid, sound.evolves)

  -- A registered caller without an invited or active membership in a conversation, which need not
  -- exist, gets one and the same denial from each of the six tools on it, for any arguments that
  -- parse: the answer tells nothing about the conversation.
  pub tools-Stranger :
      (found : Option AccessToken) (w : World) (sub : String) (agent_key : Option String)
      → caller_sub py found agent_key ≡ ok sub
      → (a : Agent) → find_row (λ (x : Agent). x.sub) sub w.session.committed.agents ≡ some a
      → (conversation_id : String) (i : ℕ) → parse_uuid py "conversation_id" conversation_id ≡ ok i
      → Stranger w.session.committed i a.id
      → (target : String) (j : ℕ) → parse_uuid py "target_agent_id" target ≡ ok j
      → (message_type : String) (payload : Dict) (version since : ℕ)
      → ((accept_tool py found conversation_id agent_key w).0 ≡ uniform)
        × ((decline_invite_tool py found conversation_id agent_key w).0 ≡ uniform)
        × ((leave_tool py found conversation_id agent_key w).0 ≡ uniform)
        × ((invite_tool py found conversation_id target agent_key w).0 ≡ uniform)
        × ((post_message_tool py px found conversation_id message_type payload version agent_key
              w).0
            ≡ uniform)
        × ((get_conversation_tool py px found collation conversation_id (pos since) agent_key w).0
            ≡ uniform)
  tools-Stranger found w sub k caller a bound cid i parsed stranger target j known message_type
        payload version since =
      (
        accept_tool-stranger py px collation found w sub k caller a bound cid i parsed stranger,
        decline_invite_tool-stranger py px collation found w sub k caller a bound cid i parsed
            stranger,
        leave_tool-stranger py px collation found w sub k caller a bound cid i parsed stranger,
        invite_tool-stranger py px collation found w sub k caller a bound cid i parsed stranger
            target j known,
        post_message_tool-stranger py px collation found w sub k caller a bound cid i parsed
            stranger message_type payload version,
        get_conversation_tool-stranger py px collation found w sub k caller a bound cid i parsed
            stranger since,
      )
