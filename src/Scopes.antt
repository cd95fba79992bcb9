-- ===== src/Scopes.antt =====
-- scopes.py: the registry of scopes, and what a token is granted.
use rh_reclaw.Common.{
  String, Option, none, some, List, [], ◌∷◌, Bool, false, not, ◌==◌, string_eq, if◌then◌else◌,
}
use rh_reclaw.Common.Result.{ok, err}
use rh_reclaw.Common.Json.{Json, array, Items, nil, cons}
use rh_reclaw.Observability.{Event, log_auth_rejected}
use rh_reclaw.Identity.{
  AccessToken, claim, is_null, truthy, is_text, agent_jwt_issuer, str, validate_sub_shape,
}

abbrev pub tool_scopes : List (String × String)
tool_scopes =
    ("comms_whoami", "comms:read")
    ∷ ("comms_list_agents", "comms:read")
    ∷ ("comms_list_conversations", "comms:read")
    ∷ ("comms_get_conversation", "comms:read")
    ∷ ("comms_inbox", "comms:read")
    ∷ ("comms_register", "comms:write")
    ∷ ("comms_start_conversation", "comms:write")
    ∷ ("comms_post_message", "comms:write")
    ∷ ("comms_accept", "comms:write")
    ∷ ("comms_decline_invite", "comms:write")
    ∷ ("comms_invite", "comms:write")
    ∷ ("comms_leave", "comms:write")
    ∷ []

abbrev pub resource_scopes : List (String × String)
resource_scopes = []

-- `scopes.get(name)`
unfoldable pub scope_of : String → List (String × String) → Option String
scope_of name [] = none
scope_of name ((k, v) ∷ scopes) = if k == name then some v else scope_of name scopes

unfoldable pub required_scope_for : String → Option String
unfolding scope_of
required_scope_for tool_name = scope_of tool_name tool_scopes

unfoldable pub required_scope_for_resource : String → Option String
unfolding scope_of
required_scope_for_resource uri = scope_of uri resource_scopes

unfoldable pub is_interactive_token : Option AccessToken → Bool
is_interactive_token none = false
is_interactive_token (some token) =
    let issuer = claim "iss" token.claims in
    if is_null issuer then false else not (is_text agent_jwt_issuer issuer)

-- `token.client_id or "unknown"`
abbrev pub or_unknown : String → String
or_unknown client_id = if client_id == "" then "unknown" else client_id

module _ (repr : Json → String) where
  -- The client id of a denial, with the events that finding it emits.
  unfoldable pub safe_client_id : AccessToken → String × List Event
  safe_client_id token =
      if is_text agent_jwt_issuer (claim "iss" token.claims)
      then (if truthy (claim "sub" token.claims)
          then elim (validate_sub_shape repr token.claims) [
            | ok _ ↦ (or_unknown token.client_id, [])
            | err _ ↦ ("invalid_sub", log_auth_rejected "sub_shape" (some agent_jwt_issuer))
          ]
          else ("invalid_sub", log_auth_rejected "sub_missing" (some agent_jwt_issuer)))
      else (or_unknown token.client_id, [])

  -- `[str(s) for s in raw]`
  unfoldable pub strs : Items → List String
  strs nil = []
  strs (cons x xs) = str repr x ∷ strs xs

  -- The scopes that a list claim grants.
  unfoldable pub listed_scopes : Json → List String
  listed_scopes (array items) = strs items
  listed_scopes _ = []

  unfoldable pub scopes_for_token : AccessToken → List String
  scopes_for_token token =
      if is_text agent_jwt_issuer (claim "iss" token.claims)
      then (if truthy (claim "sub" token.claims)
          then elim (validate_sub_shape repr token.claims) [
            | ok _ ↦ listed_scopes (claim "scopes" token.claims)
            | err _ ↦ []
          ]
          else [])
      else []
