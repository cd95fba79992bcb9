-- ===== src/Properties/Access.antt =====
-- Who a caller is, and what its token lets it do.
use rh_reclaw.Common.{
  List, ◌≡◌, ◌≢◌, ◌↔◌, suc, ◌-◌, ◌++◌, ◌⊎◌, inl, inr, String, Option, some, Bool, true, false, refl,
  Bool-cases,
}
use rh_reclaw.Common.Result.{ok, err}
use rh_reclaw.Common.Json.{Json, null, text, Dict}
use rh_reclaw.Common.Text.{strip}
use rh_reclaw.Common.Stdlib.{Stdlib}
use rh_reclaw.Schemas.{Pydantic}
use rh_reclaw.Identity.{AccessToken, claim, is_null, str, is_agent_jwt_token, try_resolve_email}
use rh_reclaw.Scopes.{required_scope_for, is_interactive_token}
use rh_reclaw.Call.{World, Call, tool_error, resource_error}
use rh_reclaw.Server.{denial_message, resource_denial_message, enforce_read_resource}
use rh_reclaw.Server.Dispatch.{ToolCall, tool_name, call_tool, handle}
use rh_reclaw.Tools.Caller.{caller_sub, require_identity, validate_agent_key}
use rh_reclaw.Auth.Claims.{extract_upstream_claims}
use rh_reclaw.Guarantees.Identity.{is_null_iff, is_text_iff, SubShaped, sub_only}
use rh_reclaw.Guarantees.Keys.{split_sub, split_sub-caller_sub_lem}
use rh_reclaw.Guarantees.Scopes.{
  Permitted, is_interactive_token_iff, Interactive, enforce_read_resource-denied,
}
use rh_reclaw.Observability.{Event}
use rh_reclaw.Guarantees.Dispatch.Events.{handle-logged_lem}
use rh_reclaw.Guarantees.Dispatch.Logged.{
  DenialLogged, CallLogged, DenialLogged-denial_events, CallLogged-failed_call_events,
}
use rh_reclaw.Guarantees.Dispatch.Server.{ticked, handle-denied, handle-Permitted_lem}
use rh_reclaw.Guarantees.Claims.{Extracted, extract_upstream_claims-Extracted}

agent_issuer :
    (claims : Dict)
    → (claim "iss" claims ≡ null) ⊎ (claim "iss" claims ≡ text "agent-jwt")
    → is_agent_jwt_token claims ≡ true
unfolding is_agent_jwt_token
agent_issuer claims (inl none_given) = rw ((is_null_iff (claim "iss" claims)).1 none_given) refl
agent_issuer claims (inr agent) = elim (Bool-cases (is_null (claim "iss" claims))) [
  | inl e ↦ rw e refl
  | inr e ↦ rw (e, (is_text_iff "agent-jwt" (claim "iss" claims)).1 agent) refl
]

-- A token whose issuer is absent or that of agent tokens resolves to an identity exactly if its
-- `sub` claim, stripped, is that identity, is not empty and holds no "@": no other claim counts, and
-- no such token resolves to an email address.
pub try_resolve_email_iff :
    (repr : Json → String) (token : AccessToken)
    → (claim "iss" token.claims ≡ null) ⊎ (claim "iss" token.claims ≡ text "agent-jwt")
    → (identity : String)
    → (try_resolve_email repr token ≡ some identity) ↔ (
        (claim "sub" token.claims ≢ null)
        × (identity ≡ strip (str repr (claim "sub" token.claims)))
        × SubShaped identity)
try_resolve_email_iff repr token issuer identity =
    sub_only repr token (agent_issuer token.claims issuer) identity

-- The board identity of an accepted caller, split at its last "::", gives back the identity of the
-- token and the validated agent key: callers that differ in either have different board identities.
pub split_sub-caller_sub :
    (py : Stdlib) (token : AccessToken) (agent_key : Option String) (sub : String)
    → caller_sub py (some token) agent_key ≡ ok sub
    → (require_identity py token ≡ ok (split_sub sub).0)
      × (validate_agent_key py agent_key ≡ ok (split_sub sub).1)
split_sub-caller_sub = split_sub-caller_sub_lem

module _ (py : Stdlib) (px : Pydantic) (collation : String → String → Bool)
    (found : Option AccessToken) (call : ToolCall) (w : World) where
  -- A tool call whose token is neither interactive nor an agent token with a well-formed `sub` that
  -- lists the scope of the tool ends with the denial message of the tool, whatever the cause, and
  -- leaves the session as it was.
  pub handle_denied :
      ¬ Permitted py.repr found (required_scope_for (tool_name call))
      → ((handle py px collation found call w).0
          ≡ err (tool_error (denial_message (tool_name call))))
        × ((handle py px collation found call w).1.session ≡ w.session)
  handle_denied = handle-denied py px collation found call w

  -- A tool call whose token is interactive, or an agent token with a well-formed `sub` that lists
  -- the scope of the tool, returns what the tool returns and changes the session as the tool does.
  pub handle-Permitted :
      Permitted py.repr found (required_scope_for (tool_name call))
      → ((handle py px collation found call w).0
          ≡ (call_tool py px collation found call (ticked w)).0)
        × ((handle py px collation found call w).1.session
            ≡ (call_tool py px collation found call (ticked w)).1.session)
  handle-Permitted = handle-Permitted_lem py px collation found call w

  -- A tool call whose token is neither interactive nor an agent token with a well-formed `sub`
  -- that lists the scope of the tool logs a denial, and then a failed call. The denial names no
  -- client where there is no token; otherwise it names the scope that the tool requires and the
  -- token's client (`unknown` where that is empty), or `invalid_sub` behind a rejection where an
  -- agent token's `sub` is not well-formed. The failed call has the tool and the duration; only
  -- the upstream claims of a token that is no agent's can keep it from being logged, and no user
  -- id that is logged holds an "@".
  pub handle_logged :
      ¬ Permitted py.repr found (required_scope_for (tool_name call))
      → (scope : String) × (required_scope_for (tool_name call) ≡ some scope)
        × (denied : List Event) × (failed : List Event) × ((handle py px collation found call
              w).1.log
            ≡ w.log ++ (denied ++ failed))
        × DenialLogged py.repr found (tool_name call) scope denied
        × CallLogged py.repr found
            (tool_name call)
            (py.round (w.monotonic (suc w.readings) - w.monotonic w.readings))
            failed
  handle_logged h =
      let (scope, same, log) = handle-logged_lem py px collation found call w h in
      (
        scope,
        same,
        _,
        _,
        log,
        DenialLogged-denial_events py.repr found (tool_name call) scope,
        CallLogged-failed_call_events py.repr found (tool_name call) _,
      )

not-Interactive :
    (token : AccessToken) → ¬ Interactive token → is_interactive_token (some token) ≡ false
not-Interactive token h = elim (Bool-cases (is_interactive_token (some token))) [
  | inl e ↦ absurd (h ((is_interactive_token_iff token).0 e))
  | inr e ↦ e
]

-- A resource read of a token that is not interactive ends with the denial message of the resource
-- and leaves the session as it was, whatever the handler would do: no resource is enrolled.
pub read_resource_denied :
    (repr : Json → String) (call_next : String → Call Dict) (uri : String) (w : World)
    (token : AccessToken)
    → ¬ Interactive token
    → ((enforce_read_resource repr call_next (some token) uri w).0
        ≡ err (resource_error (resource_denial_message uri)))
      × ((enforce_read_resource repr call_next (some token) uri w).1.session ≡ w.session)
read_resource_denied repr call_next uri w token h =
    enforce_read_resource-denied repr call_next uri w (some token) (not-Interactive token h)

-- Claims are taken over only from a token whose header decodes to an object in which "alg" is absent
-- or is not "none" in lower case, and whose payload decodes to an object; they are not empty, and each has one of the
-- four listed keys and the value that the payload has under it.
pub extract_upstream_claims-Signed :
    (repr : Json → String) (lower : String → String) (decode : String → Option Json)
    (id_token : String) (claims : Dict)
    → extract_upstream_claims repr lower decode (some id_token) ≡ some claims
    → Extracted repr lower decode id_token claims
extract_upstream_claims-Signed = extract_upstream_claims-Extracted
