-- ===== src/Tools/Board.antt =====
-- providers/comms.py: whoami, register, list_agents.
use rh_reclaw.Common.{String, Option, some, List, [], ◌∷◌, Bool, if◌then◌else◌}
use rh_reclaw.Common.Json.{null, text, array, texts, Dict}
use rh_reclaw.Common.Stdlib.{Stdlib, ℤ}
use rh_reclaw.Models.{Agent}
use rh_reclaw.Service.Registration.{register_agent}
use rh_reclaw.Service.Listings.{list_agents}
use rh_reclaw.Service.Serialization.{agent_status_text, agent_page_dict, id_text}
use rh_reclaw.Identity.{AccessToken, claim, first_truthy, str}
use rh_reclaw.Scopes.{is_interactive_token, scopes_for_token}
use rh_reclaw.Call.{Call, done, ◌>>=◌, ◌>>◌, checked, open_session, in_session, unmapped}
use rh_reclaw.Tools.Caller.{require_token, require_identity, validate_agent_key, compose_sub}
use rh_reclaw.Tools.Errors.{map_service_errors}

abbrev caller_type : Bool → String
caller_type interactive = if interactive then "interactive" else "service"

module _ (py : Stdlib) (found : Option AccessToken) where
  unfoldable pub whoami : Option String → Call Dict
  whoami agent_key = do
    token ← checked (require_token found)
    base_sub ← checked (require_identity py token)
    key ← checked (validate_agent_key py agent_key)
    composed_sub ← checked (compose_sub py base_sub key)
    done (
        ("identity", text composed_sub)
        ∷ ("issuer", claim "iss" token.claims)
        ∷ ("caller_type", text (caller_type (is_interactive_token (some token))))
        ∷ ("scopes", array (texts (scopes_for_token py.repr token)))
        ∷ [])

  -- `str(token.claims.get("owner_sub") or base_sub)`
  unfoldable pub owner_sub_of : AccessToken → String → String
  owner_sub_of token base_sub =
      str py.repr (first_truthy (claim "owner_sub" token.claims) (text base_sub))

  -- The `email` claim counts for an interactive token only.
  unfoldable pub owner_email_of : AccessToken → String → String
  owner_email_of token base_sub =
      let upstream_email =
        if is_interactive_token (some token) then claim "email" token.claims else null in
      str py.repr (
        first_truthy (claim "owner_email" token.claims)
          (first_truthy upstream_email (text base_sub)))

  abbrev registration_dict : Agent → Dict
  registration_dict agent =
      ("agent_id", id_text py agent.id)
      ∷ ("sub", text agent.sub)
      ∷ ("display_name", text agent.display_name)
      ∷ ("accepted_types", array (texts agent.accepted_types))
      ∷ ("status", text (agent_status_text agent.status))
      ∷ ("owner_email", text agent.owner_email)
      ∷ []

  unfoldable pub register : String → List String → Option String → Call Dict
  register display_name accepted_types agent_key = do
    token ← checked (require_token found)
    base_sub ← checked (require_identity py token)
    key ← checked (validate_agent_key py agent_key)
    sub ← checked (compose_sub py base_sub key)
    open_session
    agent ← in_session (map_service_errors py) (
        register_agent sub (owner_sub_of token base_sub) (owner_email_of token base_sub)
          display_name accepted_types)
    done (registration_dict agent)

  unfoldable pub list_agents_tool : (String → String → Bool) → ℤ → Option String → Call Dict
  list_agents_tool collation limit cursor = do
    token ← checked (require_token found)
    open_session
    page ← in_session unmapped (list_agents collation limit cursor)
    done (agent_page_dict py page)
