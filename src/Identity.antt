-- ===== src/Identity.antt =====
-- identity.py: whom a verified token speaks for. The claims are JSON, each name once; a value that
-- is not there reads as `None`. Python's `str` of a value that is no text is the parameter `repr`.
use rh_reclaw.Common.{
  String, Option, none, some, Bool, true, false, ◌||◌, not, ◌==◌, string_eq, nat_eq, if◌then◌else◌,
}
use rh_reclaw.Common.Result.{Result, ok, err}
use rh_reclaw.Common.Json.{
  Json, null, bool, nat, number, text, array, object, nil, cons, end, field, Dict, get,
}
use rh_reclaw.Common.Text.{strip}
use rh_reclaw.Common.Chars.{occurs_in}

-- FastMCP's `AccessToken`, what is read of it.
pub record AccessToken : Type 0 where
  pub client_id : String
  pub claims : Dict

-- `claims.get(key)`
unfoldable pub claim : String → Dict → Json
claim key claims = elim (get key claims) [ none ↦ null | some value ↦ value ]

-- `value is None`
unfoldable pub is_null : Json → Bool
is_null null = true
is_null _ = false

-- `bool(value)`; a `number` is a float by its `repr`.
unfoldable pub truthy : Json → Bool
truthy null = false
truthy (bool b) = b
truthy (nat n) = not (n == 0)
truthy (number r) = not (r == "0.0" || r == "-0.0")
truthy (text s) = not (s == "")
truthy (array nil) = false
truthy (array (cons x xs)) = true
truthy (object end) = false
truthy (object (field k v fs)) = true

-- `a or b`
abbrev pub first_truthy : Json → Json → Json
first_truthy a b = if truthy a then a else b

-- `value == s` for a text `s`
unfoldable pub is_text : String → Json → Bool
is_text s (text t) = t == s
is_text s _ = false

abbrev pub agent_jwt_issuer : String
agent_jwt_issuer = "agent-jwt"

unfoldable pub is_agent_jwt_token : Dict → Bool
is_agent_jwt_token claims =
    let issuer = claim "iss" claims in
    if is_null issuer then true else is_text agent_jwt_issuer issuer

module _ (repr : Json → String) where
  -- `str(value)`
  unfoldable pub str : Json → String
  str (text s) = s
  str value = repr value

  -- The `sub` that is not `None`: the message of the `ToolError`, if any.
  unfoldable pub check_sub : String → Result String Unit
  check_sub sub_str =
      if sub_str == ""
      then err "invalid token sub claim"
      else if occurs_in "@" sub_str
      then err "invalid token sub claim"
      else ok tt

  unfoldable pub validate_sub_shape : Dict → Result String Unit
  validate_sub_shape claims =
      let sub = claim "sub" claims in if is_null sub then ok tt else check_sub (strip (str sub))

  -- `str(sub).strip()`, none for no `sub`
  unfoldable pub stripped_sub : Dict → Option String
  stripped_sub claims =
      let sub = claim "sub" claims in if is_null sub then none else some (strip (str sub))

  -- What follows the check of the `sub`.
  unfoldable pub trusted_identity : Dict → Option String
  trusted_identity claims =
      let email = first_truthy (claim "email" claims) (claim "preferred_username" claims) in
      if is_agent_jwt_token claims
      then stripped_sub claims
      else if truthy email
      then some (str email)
      else stripped_sub claims

  unfoldable pub try_resolve_email : AccessToken → Option String
  try_resolve_email token = elim (validate_sub_shape token.claims) [
    | err _ ↦ none
    | ok _ ↦ trusted_identity token.claims
  ]
