-- ===== src/Tools/Caller.antt =====
-- providers/comms.py: who calls. The board identity is the token's, with the agent key behind it.
use Prim.Native.Nat.{ℕ}
use Prim.Native.Char.{code}
use Prim.Native.String.{String, ◌++◌}
use Prim.Native.String as Str
use rh_reclaw.Common.{
  suc, Option, none, some, Bool, ◌||◌, ltb, ◌==◌, string_eq, nat_eq, if◌then◌else◌,
}
use rh_reclaw.Common.Result.{Result, ok, err, ◌>>=◌}
use rh_reclaw.Common.Json.{nat}
use rh_reclaw.Common.Text.{strip, len}
use rh_reclaw.Common.Chars.{occurs_in, all_chars, is_alphanumeric}
use rh_reclaw.Common.Stdlib.{Stdlib}
use rh_reclaw.Models.{Agent}
use rh_reclaw.Service.Lookups.{get_agent_by_sub}
use rh_reclaw.Identity.{AccessToken, try_resolve_email}
use rh_reclaw.Call as Call
use rh_reclaw.Call.{tool_error, unmapped, in_session}

unfoldable pub require_token : Option AccessToken → Result String AccessToken
require_token none = err "no access token provided"
require_token (some token) = ok token

abbrev pub max_agent_key_length : ℕ
max_agent_key_length = 100

abbrev is_control : ℕ → Bool
is_control n = ltb n 32 || n == 127

-- `[A-Za-z0-9._-]`
abbrev pub is_key_char : ℕ → Bool
is_key_char n = is_alphanumeric n || n == 46 || n == 95 || n == 45

-- The position of the first control character, the text being at position `i`.
unfoldable pub control_position : ℕ → String → Option ℕ
control_position i Str.[] = none
control_position i (Str.◌∷◌ c s) =
    let rest = control_position (suc i) s in if is_control (code c) then some i else rest

module _ (py : Stdlib) where
  -- The checks of a key that is given, after `strip`.
  unfoldable pub check_key : String → Result String Unit
  check_key agent_key =
      if agent_key == ""
      then err "invalid_request: agent_key must be non-empty if provided"
      else if ltb max_agent_key_length (len agent_key)
      then err ("invalid_request: agent_key exceeds " ++ py.repr (nat 100) ++ " characters")
      else if occurs_in "::" agent_key
      then err "invalid_request: agent_key must not contain '::'"
      else elim (control_position 0 agent_key) [
        | some i ↦ err (
            "invalid_request: agent_key contains invalid control character at position "
            ++ py.repr (nat i))
        | none ↦
            if all_chars is_key_char agent_key
            then ok tt
            else err
                "invalid_request: agent_key must contain only alphanumeric characters, dots, underscores, or hyphens"
      ]

  unfoldable pub validate_agent_key : Option String → Result String (Option String)
  validate_agent_key none = ok none
  validate_agent_key (some agent_key) =
      check_key (strip agent_key) >>= λ _. ok (some (strip agent_key))

  unfoldable pub compose_sub : String → Option String → Result String String
  compose_sub base_sub agent_key =
      if occurs_in "::" base_sub
      then err "invalid_request: base identity cannot contain '::' delimiter"
      else elim agent_key [ none ↦ ok base_sub | some key ↦ ok (base_sub ++ "::" ++ key) ]

  unfoldable pub require_identity : AccessToken → Result String String
  require_identity token = elim (try_resolve_email py.repr token) [
    | none ↦ err "unable to resolve caller identity from token claims"
    | some identity ↦ ok identity
  ]

  -- The four lines that the tools begin with.
  unfoldable pub caller_sub : Option AccessToken → Option String → Result String String
  caller_sub found agent_key = do
    token ← require_token found
    base_sub ← require_identity token
    key ← validate_agent_key agent_key
    compose_sub base_sub key

unfoldable pub registered : Option Agent → Result String Agent
registered none =
    err "not_registered: no board agent is bound to this caller yet — call comms_register first"
registered (some agent) = ok agent

unfoldable pub resolve_caller_agent : String → Call.Call Agent
resolve_caller_agent sub =
    Call.◌>>=◌ (in_session unmapped (get_agent_by_sub sub)) λ found. Call.checked (registered found)
