-- ===== src/Server.antt =====
-- main.py: the two middlewares. `call_next` is what the framework runs inside them, for a tool name
-- or a resource's URI; the token is the verified one of the request, if any.
pub mod Dispatch
use Prim.Native.String.{◌++◌}
use rh_reclaw.Common.{
  ℕ, ◌-◌, String, Option, none, some, [], Bool, true, false, contains, ◌==◌, string_eq,
  if◌then◌else◌,
}
use rh_reclaw.Common.Result.{Result, ok, err}
use rh_reclaw.Common.Json.{Json, null, text, object, Fields, end, field, get}
use rh_reclaw.Exceptions.{
  ServiceError, access_denied, invalid_conversation_state, rate_limit_exceeded, payload_validation,
  unknown_conversation_type, unknown_accepted_types, value_error, integrity_error, key_error,
}
use rh_reclaw.Observability.{log_scope_denial, log_tool_call, log_user_active}
use rh_reclaw.Identity.{AccessToken, claim, truthy, is_text, agent_jwt_issuer, try_resolve_email}
use rh_reclaw.Scopes.{
  required_scope_for, required_scope_for_resource, is_interactive_token, or_unknown, safe_client_id,
  scopes_for_token,
}
use rh_reclaw.Call.{
  Failure, tool_error, resource_error, unmapped, World, Call, done, fail, ◌>>=◌, ◌>>◌, emit,
  monotonic_time,
}

unfoldable pub denial_message : String → String
denial_message tool_name =
    "insufficient_scope: tool '" ++ tool_name ++ "' requires elevated permissions"

unfoldable pub resource_denial_message : String → String
resource_denial_message uri =
    "insufficient_scope: resource '" ++ uri ++ "' requires elevated permissions"

-- `client_id or "unknown"`
abbrev client_or_unknown : Option String → String
client_or_unknown none = "unknown"
client_or_unknown (some client_id) = or_unknown client_id

module _ {A : Type 0} where
  -- `ScopeEnforcementMiddleware._deny`
  unfoldable pub deny_tool : String → String → Option String → Option String → Call A
  deny_tool tool_name reason client_id required_scope = do
    emit (log_scope_denial tool_name reason (client_or_unknown client_id) required_scope)
    fail (tool_error (denial_message tool_name))

  -- `ScopeEnforcementMiddleware._deny_resource`
  unfoldable pub deny_resource : String → String → Option String → Option String → Call A
  deny_resource uri reason client_id required_scope = do
    emit (log_scope_denial uri reason (client_or_unknown client_id) required_scope)
    fail (resource_error (resource_denial_message uri))

module _ (repr : Json → String) where
  -- The client id for the log: the events of `safe_client_id` come before those of the denial.
  unfoldable pub client_of : AccessToken → Call String
  client_of token = do emit (safe_client_id repr token).1; done (safe_client_id repr token).0

module _ (repr : Json → String) {A : Type 0} where
  -- A token that must carry the scope that is required, if the name has one.
  unfoldable pub enforce_tool : Call A → AccessToken → String → Option String → Call A
  unfolding client_of
  enforce_tool next token tool_name none = do
    client_id ← client_of repr token
    deny_tool tool_name "tool_not_enrolled" (some client_id) none
  enforce_tool next token tool_name (some required) =
      if contains required (scopes_for_token repr token) then next else (do
        client_id ← client_of repr token
        deny_tool tool_name "missing_scope" (some client_id) (some required))

  unfoldable pub enforce_resource : Call A → AccessToken → String → Option String → Call A
  unfolding client_of
  enforce_resource next token uri none = do
    client_id ← client_of repr token
    deny_resource uri "resource_not_enrolled" (some client_id) none
  enforce_resource next token uri (some required) =
      if contains required (scopes_for_token repr token) then next else (do
        client_id ← client_of repr token
        deny_resource uri "missing_scope" (some client_id) (some required))

  -- `ScopeEnforcementMiddleware.on_call_tool`
  unfoldable pub enforce_call_tool : (String → Call A) → Option AccessToken → String → Call A
  enforce_call_tool call_next none tool_name =
      if is_interactive_token none
      then call_next tool_name
      else deny_tool tool_name "missing_token" none none
  enforce_call_tool call_next (some token) tool_name =
      if is_interactive_token (some token)
      then call_next tool_name
      else enforce_tool (call_next tool_name) token tool_name (required_scope_for tool_name)

  -- `ScopeEnforcementMiddleware.on_read_resource`
  unfoldable pub enforce_read_resource : (String → Call A) → Option AccessToken → String → Call A
  enforce_read_resource call_next none uri =
      if is_interactive_token none
      then call_next uri
      else deny_resource uri "missing_token" none none
  enforce_read_resource call_next (some token) uri =
      if is_interactive_token (some token)
      then call_next uri
      else enforce_resource (call_next uri) token uri (required_scope_for_resource uri)

-- `type(exc).__name__`
unfoldable pub service_error_name : ServiceError → String
service_error_name (access_denied _) = "AccessDeniedError"
service_error_name (invalid_conversation_state _ _) = "InvalidConversationStateError"
service_error_name (rate_limit_exceeded _ _) = "RateLimitExceededError"
service_error_name (payload_validation _) = "PayloadValidationError"
service_error_name (unknown_conversation_type _) = "UnknownConversationTypeError"
service_error_name (unknown_accepted_types _) = "UnknownConversationTypeError"
service_error_name (value_error _) = "ValueError"
service_error_name integrity_error = "IntegrityError"
service_error_name key_error = "KeyError"

unfoldable pub failure_name : Failure → String
failure_name (tool_error _) = "ToolError"
failure_name (resource_error _) = "ResourceError"
failure_name (unmapped e) = service_error_name e

-- `fields.get(key)` of a JSON object
unfoldable pub member : String → Fields → Json
member key end = null
member key (field k v fs) = let rest = member key fs in if k == key then v else rest

module _ (repr : Json → String) where
  abbrev pub resolved : AccessToken → Json
  resolved token = elim (try_resolve_email repr token) [ none ↦ null | some email ↦ text email ]

  -- `upstream.get("email") or try_resolve_email(token)`. A claim that is no object has no `get`: the
  -- failure is caught and leaves no identity. A claim that is absent reads as the empty object.
  unfoldable pub upstream_email : Option Json → AccessToken → Json
  upstream_email none token = resolved token
  upstream_email (some (object fields)) token =
      let email = member "email" fields in if truthy email then email else resolved token
  upstream_email (some _) token = null

  -- Whom a call is attributed to.
  unfoldable pub attributed : Option AccessToken → Json
  attributed none = null
  attributed (some token) =
      if is_text agent_jwt_issuer (claim "iss" token.claims)
      then resolved token
      else upstream_email (get "upstream_claims" token.claims) token

  module _ (round : ℕ → Json) {A : Type 0} where
    abbrev succeeded : Result Failure A → Bool
    succeeded (ok _) = true
    succeeded (err _) = false

    abbrev error_type : Result Failure A → Option String
    error_type (ok _) = none
    error_type (err e) = some (failure_name e)

    -- The events of the `finally` block.
    unfoldable pub record_call : String → ℕ → Option AccessToken → Result Failure A → Call Unit
    record_call tool_name t0 token result = do
      t ← monotonic_time
      let email = attributed token
      emit (
          log_tool_call truthy tool_name (round (t - t0)) (succeeded result) (error_type result)
            email)
      emit (if truthy email then log_user_active email else [])

    -- `try: return await call_next(context) ... finally: ...`
    abbrev finally :
        (Result Failure A → Call Unit) → Result Failure A × World → Result Failure A × World
    finally f (r, w) = (r, (f r w).1)

    -- `ObservabilityMiddleware.on_call_tool`
    unfoldable pub observe_call_tool : (String → Call A) → Option AccessToken → String → Call A
    observe_call_tool call_next token tool_name = do
      t0 ← monotonic_time
      λ w. finally (record_call tool_name t0 token) (call_next tool_name w)
