-- ===== src/Guarantees/Dispatch/Events.antt =====
-- The events that a denied tool call leaves in the log.
use mathlib.Core.List.{append_assoc}
use rh_reclaw.Common.{
  ◌≡◌, refl, ◌∙◌, subst, ap, inl, inr, ℕ, suc, ◌-◌, String, Option, none, some, List, [], ◌++◌,
  Bool, false, Bool-cases, contains, string_eq, if◌then◌else◌,
}
use rh_reclaw.Common.Result.{err}
use rh_reclaw.Common.Json.{Json}
use rh_reclaw.Common.Stdlib.{Stdlib}
use rh_reclaw.Schemas.{Pydantic}
use rh_reclaw.Observability.{Event, log_scope_denial, log_tool_call, log_user_active}
use rh_reclaw.Identity.{AccessToken, truthy}
use rh_reclaw.Scopes.{
  scope_of, required_scope_for, is_interactive_token, or_unknown, safe_client_id, scopes_for_token,
}
use rh_reclaw.Call.{tool_error, World, Call, ◌>>=◌, done, fail, emit, monotonic_time}
use rh_reclaw.Server.{
  denial_message, deny_tool, client_of, enforce_tool, enforce_call_tool, failure_name, attributed,
  record_call, observe_call_tool,
}
use rh_reclaw.Server.Dispatch.{
  ToolCall, whoami_call, register_call, list_agents_call, start_conversation_call,
  post_message_call, get_conversation_call, inbox_call, list_conversations_call, accept_call,
  decline_invite_call, invite_call, leave_call, tool_name, call_tool, handle,
}
use rh_reclaw.Guarantees.Scopes.{
  Permitted, Granted, is_interactive_token_iff, contains-scopes_for_token_iff,
}
use rh_reclaw.Guarantees.Dispatch.Server.{ticked}

-- Every tool is enrolled.
pub required_scope_for-tool_name :
    (call : ToolCall) → (scope : String) × (required_scope_for (tool_name call) ≡ some scope)
unfolding required_scope_for scope_of tool_name
required_scope_for-tool_name (whoami_call _) = ("comms:read", refl)
required_scope_for-tool_name (register_call _ _ _) = ("comms:write", refl)
required_scope_for-tool_name (list_agents_call _ _) = ("comms:read", refl)
required_scope_for-tool_name (start_conversation_call _ _ _ _ _ _ _) = ("comms:write", refl)
required_scope_for-tool_name (post_message_call _ _ _ _ _) = ("comms:write", refl)
required_scope_for-tool_name (get_conversation_call _ _ _) = ("comms:read", refl)
required_scope_for-tool_name (inbox_call _) = ("comms:read", refl)
required_scope_for-tool_name (list_conversations_call _ _ _ _ _ _) = ("comms:read", refl)
required_scope_for-tool_name (accept_call _ _) = ("comms:write", refl)
required_scope_for-tool_name (decline_invite_call _ _) = ("comms:write", refl)
required_scope_for-tool_name (invite_call _ _ _) = ("comms:write", refl)
required_scope_for-tool_name (leave_call _ _) = ("comms:write", refl)

abbrev user_active : Json → List Event
user_active email = if truthy email then log_user_active email else []

module _ (repr : Json → String) where
  -- Without a token the denial names none; otherwise it names the client, behind what finding the
  -- client has logged, and the scope that the token lacks.
  abbrev pub denial_events : Option AccessToken → String → String → List Event
  denial_events none name scope = log_scope_denial name "missing_token" "unknown" none
  denial_events (some token) name scope =
      (safe_client_id repr token).1
      ++ log_scope_denial name "missing_scope" (or_unknown (safe_client_id repr token).0)
          (some scope)

  -- The call is recorded as failed, with its duration and whom it is attributed to.
  abbrev pub failed_call_events : Option AccessToken → String → Json → List Event
  failed_call_events found name duration =
      log_tool_call truthy name duration false (some "ToolError") (attributed repr found)
      ++ user_active (attributed repr found)

  abbrev logged : World → List Event → World
  logged w events = record w { log = w.log ++ events }

  module _ {A : Type 0} (name scope : String) (w : World) where
    enforce_tool-logged :
        (next : Call A) (token : AccessToken)
        → ¬ Granted repr token scope
        → enforce_tool repr next token name (some scope) w ≡ (
          err (tool_error (denial_message name)),
          logged w (denial_events (some token) name scope),
        )
    unfolding enforce_tool ◌>>=◌ client_of deny_tool emit fail done
    enforce_tool-logged next token h =
        elim (Bool-cases (contains scope (scopes_for_token repr token))) [
          | inl e ↦ absurd (h ((contains-scopes_for_token_iff repr token scope).0 e))
          | inr e ↦ rw e (
              ap (λ events. (err (tool_error (denial_message name)), record w { log = events }))
                (append_assoc w.log (safe_client_id repr token).1 _))
        ]

    enforce_call_tool-logged :
        (next : String → Call A) (found : Option AccessToken)
        → required_scope_for name ≡ some scope
        → ¬ Permitted repr found (some scope)
        → enforce_call_tool repr next found name w
          ≡ (err (tool_error (denial_message name)), logged w (denial_events found name scope))
    unfolding enforce_call_tool ◌>>=◌ deny_tool emit fail is_interactive_token
    enforce_call_tool-logged next none same h = refl
    enforce_call_tool-logged next (some token) same h =
        elim (Bool-cases (is_interactive_token (some token))) [
          | inl e ↦ absurd (h (inl ((is_interactive_token_iff token).0 e)))
          | inr e ↦
              rw (e, same)
                (enforce_tool-logged (next name) token (λ granted. h (inr (scope, refl, granted))))
        ]

  observe_call_tool-logged :
      {A : Type 0} (round : ℕ → Json) (next : String → Call A) (found : Option AccessToken)
      (name message : String) (w : World) (events : List Event)
      → next name (ticked w) ≡ (err (tool_error message), logged (ticked w) events)
      → (observe_call_tool repr round next found name w).1.log
        ≡ w.log
          ++ (events
              ++ failed_call_events found name
                  (round (w.monotonic (suc w.readings) - w.monotonic w.readings)))
  unfolding observe_call_tool ◌>>=◌ monotonic_time record_call emit failure_name
  observe_call_tool-logged round next found name message w events h =
      rw h (append_assoc (w.log ++ events) _ _ ∙ append_assoc w.log events _)

-- Every tool has a scope, and a call that is not permitted logs its denial and itself.
pub handle-logged_lem :
    (py : Stdlib) (px : Pydantic) (collation : String → String → Bool) (found : Option AccessToken)
    (call : ToolCall) (w : World)
    → ¬ Permitted py.repr found (required_scope_for (tool_name call))
    → (scope : String) × (required_scope_for (tool_name call) ≡ some scope)
      × ((handle py px collation found call w).1.log
          ≡ w.log
            ++ (denial_events py.repr found (tool_name call) scope
                ++ failed_call_events py.repr found
                    (tool_name call)
                    (py.round (w.monotonic (suc w.readings) - w.monotonic w.readings))))
unfolding handle
handle-logged_lem py px collation found call w h =
    let (scope, same) = required_scope_for-tool_name call in
    (
      scope,
      same,
      observe_call_tool-logged py.repr py.round _ found (tool_name call) _ w _ (
          enforce_call_tool-logged py.repr (tool_name call) scope (ticked w)
            (λ name. call_tool py px collation found call) found same
            (subst (λ r. ¬ Permitted py.repr found r) same h)),
    )
