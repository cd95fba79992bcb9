-- ===== src/Tools/Parsing.antt =====
-- providers/comms.py: the parsing of arguments.
use Prim.Native.String.{String, ◌++◌}
use rh_reclaw.Common.{
  ℕ, Option, none, some, List, [], ◌∷◌, contains, ◌==◌, string_eq, if◌then◌else◌,
}
use rh_reclaw.Common.Result.{Result, ok, err, ◌>>=◌}
use rh_reclaw.Common.Json.{text, array, texts}
use rh_reclaw.Common.Text.{sorted_set, str_lt}
use rh_reclaw.Common.Stdlib.{Stdlib, naive, aware}
use rh_reclaw.Models.{ConversationState, ParticipantRole}
use rh_reclaw.Schemas.{conversation_types}

module _ (py : Stdlib) where
  unfoldable pub parse_uuid : String → String → Result String ℕ
  parse_uuid field value = elim (py.parse_uuid value) [
    | none ↦ err ("invalid_request: " ++ field ++ " is not a valid UUID: " ++ py.repr (text value))
    | some id ↦ ok id
  ]

  unfoldable pub parse_uuids : String → List String → Result String (List ℕ)
  parse_uuids field [] = ok []
  parse_uuids field (value ∷ values) = do
    id ← parse_uuid field value
    ids ← parse_uuids field values
    ok (id ∷ ids)

  unfoldable pub parse_expires_at : Option String → Result String (Option ℕ)
  parse_expires_at none = ok none
  parse_expires_at (some value) = elim (py.fromisoformat value) [
    | none ↦
        err
          ("invalid_request: expires_at is not a valid ISO 8601 datetime: " ++ py.repr (text value))
    | some (naive t) ↦
        err "invalid_request: expires_at must be timezone-aware (include a UTC offset)"
    | some (aware t) ↦ ok (some t)
  ]

  -- `sorted(values)` in an error message
  abbrev choices : String → List String → String
  choices field values =
      "invalid_request: "
      ++ field
      ++ " must be one of "
      ++ py.repr (array (texts (sorted_set str_lt values)))

  -- `if role is not None and role not in PARTICIPANT_ROLES: ...`
  unfoldable pub parse_role : Option String → Result String (Option ParticipantRole)
  parse_role none = ok none
  parse_role (some role) =
      if role == "owner"
      then ok (some ParticipantRole.owner)
      else if role == "member"
      then ok (some ParticipantRole.member)
      else err (choices "role" ("owner" ∷ "member" ∷ []))

  unfoldable pub parse_type : Option String → Result String (Option String)
  parse_type none = ok none
  parse_type (some type) =
      if contains type conversation_types
      then ok (some type)
      else err (choices "type" conversation_types)

  unfoldable pub parse_state : Option String → Result String (Option ConversationState)
  parse_state none = ok none
  parse_state (some state) =
      if state == "active"
      then ok (some ConversationState.active)
      else if state == "completed"
      then ok (some ConversationState.completed)
      else if state == "canceled"
      then ok (some ConversationState.canceled)
      else if state == "expired"
      then ok (some ConversationState.expired)
      else err (choices "state" ("active" ∷ "completed" ∷ "canceled" ∷ "expired" ∷ []))
