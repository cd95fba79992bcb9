-- ===== src/Observability.antt =====
-- observability.py: the structured events. An event that a helper fails to build is not emitted; the
-- warning that it writes instead is left out, and so is the set-up of the loggers.
use rh_reclaw.Common.{
  String, Option, none, some, List, [], ◌∷◌, ◌++◌, Bool, ◌==◌, string_eq, if◌then◌else◌,
}
use rh_reclaw.Common.Json.{Json, text, bool, Dict}
use rh_reclaw.Common.Text.{strip}
use rh_reclaw.Common.Chars.{before}

-- `obs_log.info(name, **fields)`
pub record Event : Type 0 where
  pub name : String
  pub fields : Dict

unfoldable pub hash_user : String → String
hash_user email = before 64 (strip email)

-- `if value is not None: fields[key] = value`
abbrev pub optional_field : String → Option String → Dict
optional_field key none = []
optional_field key (some value) = (key, text value) ∷ []

-- `user_id`, where `email and email.strip()`; none where a value that is not a text has no `strip`.
-- `truthy` is the truth of such a value.
unfoldable pub user_field : (Json → Bool) → Json → Option Dict
user_field truthy (text email) =
    some (if strip email == "" then [] else ("user_id", text (hash_user email)) ∷ [])
user_field truthy email = if truthy email then none else some []

unfoldable pub log_tool_call :
    (Json → Bool) → String → Json → Bool → Option String → Json → List Event
log_tool_call truthy tool duration success error_type email = elim (user_field truthy email) [
  | none ↦ []
  | some user ↦
      record {
        name = "tool_call";
        fields =
            ("tool", text tool)
            ∷ ("duration_ms", duration)
            ∷ ("success", bool success)
            ∷ (optional_field "error_type" error_type ++ user);
      }
      ∷ []
]

unfoldable pub log_user_active : Json → List Event
log_user_active (text email) =
    record { name = "user_active"; fields = ("user_id", text (hash_user email)) ∷ [] } ∷ []
log_user_active _ = []

unfoldable pub log_auth_flow : String → List Event
log_auth_flow auth_type =
    record { name = "auth_flow"; fields = ("auth_type", text auth_type) ∷ [] } ∷ []

unfoldable pub log_auth_rejected : String → Option String → List Event
log_auth_rejected reason issuer =
    record {
      name = "auth_rejected";
      fields = ("reason", text reason) ∷ optional_field "issuer" issuer;
    }
    ∷ []

unfoldable pub log_scope_denial : String → String → String → Option String → List Event
log_scope_denial tool reason client_id required_scope =
    record {
      name = "scope_denial";
      fields =
          ("tool", text tool)
          ∷ ("reason", text reason)
          ∷ ("client_id", text client_id)
          ∷ optional_field "required_scope" required_scope;
    }
    ∷ []
