-- ===== src/Tests/Server.antt =====
-- The properties of the server at alice, bob and carol.
use rh_reclaw.Common.{
  List, ◌≡◌, ◌≢◌, ◌↔◌, ◌++◌, ◌-◌, suc, refl, inr, String, Option, none, some, [], ◌∷◌, arith,
  string_eq, ◌==◌, if◌then◌else◌,
}
use rh_reclaw.Common.Result.{ok, err}
use rh_reclaw.Common.Rows.{find_row}
use rh_reclaw.Common.Json.{Json, null, text, object, field, end, get, texts}
use rh_reclaw.Common.Text.{strip, sort_by, len}
use rh_reclaw.Common.Chars.{occurs_in, all_chars, before, after}
use rh_reclaw.Common.Stdlib.{pos}
use rh_reclaw.Models.{Agent, pair_eq}
use rh_reclaw.Session.Triple.{Ends, At}
use rh_reclaw.Service.Listings.{list_conversations}
use rh_reclaw.Observability.{log_auth_flow}
use rh_reclaw.Identity.{
  AccessToken, claim, is_null, truthy, is_text, is_agent_jwt_token, str, check_sub,
  validate_sub_shape, stripped_sub, trusted_identity, try_resolve_email,
}
use rh_reclaw.Scopes.{required_scope_for, strs}
use rh_reclaw.Call.{tool_error, resource_error}
use rh_reclaw.Server.{denial_message, resource_denial_message, enforce_read_resource}
use rh_reclaw.Server.Dispatch.{
  whoami_call, accept_call, leave_call, tool_name, call_tool, handle, handle_all,
}
use rh_reclaw.Tools.Caller.{
  require_token, control_position, check_key, validate_agent_key, compose_sub, require_identity,
  caller_sub,
}
use rh_reclaw.Tools.Parsing.{parse_uuid}
use rh_reclaw.Tools.Conversations.{post_message_tool, get_conversation_tool}
use rh_reclaw.Tools.Membership.{accept_tool, decline_invite_tool, invite_tool, leave_tool}
use rh_reclaw.Auth.{RefreshToken, rotation_max_hops, load_refresh_token, exchange_refresh_token}
use rh_reclaw.Auth.Claims.{find_field, pad, claims_of, is_unsigned, extract_upstream_claims}
use rh_reclaw.Board.Steps.{Evolves}
use rh_reclaw.Board.Integrity.{IsValid}
use rh_reclaw.Guarantees.Identity.{SubShaped}
use rh_reclaw.Guarantees.Keys.{split_sub}
use rh_reclaw.Guarantees.Dispatch.{Refined}
use rh_reclaw.Observability.{Event}
use rh_reclaw.Guarantees.Dispatch.Logged.{DenialLogged, CallLogged}
use rh_reclaw.Guarantees.Dispatch.Server.{ticked}
use rh_reclaw.Guarantees.Dispatch.Strangers.{uniform}
use rh_reclaw.Guarantees.Claims.{Extracted}
use rh_reclaw.Guarantees.Directory.{read_directory}
use rh_reclaw.Guarantees.Pages.{Shown, CursorGiven}
use rh_reclaw.Guarantees.Rotation.{LeadsTo}
use rh_reclaw.Properties.Access.{
  try_resolve_email_iff, split_sub-caller_sub, handle_denied, handle_logged, handle-Permitted,
  read_resource_denied, extract_upstream_claims-Signed,
}
use rh_reclaw.Properties.Server.{handle-Refined, handle_all-Sound, tools-Stranger}
use rh_reclaw.Properties.Listings.{
  read_directory_complete, list_conversations-Shown, load_refresh_token-LeadsTo,
  load_refresh_token-exchanged,
}
use rh_reclaw.Tests.Board.{any_payload, by_text, agent, fresh_session, joined, joined-IsValid}
use rh_reclaw.Tests.Tokens.{
  test_stdlib, agent_token, joined_world, text_lt, text_lt-Collation, rotations,
  rotations-KeepsEntries, differ, meeting_world, new_refresh_token, proxy,
}

try_resolve_email_iff_example :
    (try_resolve_email test_stdlib.repr (agent_token " alice " []) ≡ some "alice") ↔ (
      (claim "sub" (agent_token " alice " []).claims ≢ null)
      × ("alice" ≡ strip (str test_stdlib.repr (claim "sub" (agent_token " alice " []).claims)))
      × SubShaped "alice")
unfolding claim get
try_resolve_email_iff_example =
    try_resolve_email_iff test_stdlib.repr (agent_token " alice " []) (inr refl) "alice"

split_sub-caller_sub_example :
    (require_identity test_stdlib (agent_token "alice" []) ≡ ok (split_sub "alice::k.1").0)
    × (validate_agent_key test_stdlib (some " k.1") ≡ ok (split_sub "alice::k.1").1)
unfolding caller_sub require_token require_identity try_resolve_email validate_sub_shape claim get
    is_null check_sub strip str occurs_in trusted_identity stripped_sub is_agent_jwt_token is_text
    validate_agent_key check_key control_position all_chars compose_sub len
split_sub-caller_sub_example =
    split_sub-caller_sub test_stdlib (agent_token "alice" []) (some " k.1") "alice::k.1" refl

handle_denied_example :
    ((handle test_stdlib any_payload by_text none (whoami_call none) joined_world).0
      ≡ err (tool_error (denial_message (tool_name (whoami_call none)))))
    × ((handle test_stdlib any_payload by_text none (whoami_call none) joined_world).1.session
        ≡ joined_world.session)
handle_denied_example =
    handle_denied test_stdlib any_payload by_text none (whoami_call none) joined_world (λ h. h)

handle_logged_example :
    (scope : String) × (required_scope_for (tool_name (whoami_call none)) ≡ some scope)
    × (denied : List Event) × (failed : List Event) × ((handle test_stdlib any_payload by_text none
          (whoami_call none)
          joined_world).1.log
        ≡ joined_world.log ++ (denied ++ failed))
    × DenialLogged test_stdlib.repr none (tool_name (whoami_call none)) scope denied
    × CallLogged test_stdlib.repr none
        (tool_name (whoami_call none))
        (test_stdlib.round (
          joined_world.monotonic (suc joined_world.readings)
          - joined_world.monotonic joined_world.readings))
        failed
handle_logged_example =
    handle_logged test_stdlib any_payload by_text none (whoami_call none) joined_world (λ h. h)

abbrev bob : AccessToken
bob = agent_token "bob" ("comms:write" ∷ [])

handle-Permitted_example :
    ((handle test_stdlib any_payload by_text (some bob) (leave_call "c" none) joined_world).0
      ≡ (call_tool test_stdlib any_payload by_text
          (some bob)
          (leave_call "c" none)
          (ticked joined_world)).0)
    × ((handle test_stdlib any_payload by_text
          (some bob)
          (leave_call "c" none)
          joined_world).1.session
        ≡ (call_tool test_stdlib any_payload by_text
            (some bob)
            (leave_call "c" none)
            (ticked joined_world)).1.session)
unfolding claim get required_scope_for tool_name truthy strip str occurs_in strs
handle-Permitted_example =
    handle-Permitted test_stdlib any_payload by_text (some bob) (leave_call "c" none) joined_world (
      inr (
        "comms:write",
        refl,
        (refl, refl, (differ "bob" "" refl, refl), texts ("comms:write" ∷ []), refl, refl),
      ))

read_resource_denied_example :
    ((enforce_read_resource test_stdlib.repr
        (λ uri. call_tool test_stdlib any_payload by_text (some bob) (whoami_call none))
        (some bob)
        "data://board"
        joined_world).0
      ≡ err (resource_error (resource_denial_message "data://board")))
    × ((enforce_read_resource test_stdlib.repr
          (λ uri. call_tool test_stdlib any_payload by_text (some bob) (whoami_call none))
          (some bob)
          "data://board"
          joined_world).1.session
        ≡ joined_world.session)
unfolding claim get
read_resource_denied_example =
    read_resource_denied test_stdlib.repr
      (λ uri. call_tool test_stdlib any_payload by_text (some bob) (whoami_call none))
      "data://board" joined_world bob (λ h. h.1 refl)

-- "h" is a signed header, "p" a payload with a subject and a claim that is not taken over.
abbrev decode_test : String → Option Json
decode_test s =
    if s == "h==="
    then some (object (field "alg" (text "RS256") end))
    else if s == "p==="
    then some (object (field "sub" (text "00u1") (field "role" (text "admin") end)))
    else none

extract_upstream_claims-Signed_example :
    Extracted test_stdlib.repr (λ s. s) decode_test "h.p.s" (("sub", text "00u1") ∷ [])
unfolding extract_upstream_claims before after pad len is_unsigned find_field str claims_of
extract_upstream_claims-Signed_example =
    extract_upstream_claims-Signed test_stdlib.repr (λ s. s) decode_test "h.p.s"
      (("sub", text "00u1") ∷ []) refl

handle-Refined_example :
    Refined test_stdlib any_payload by_text
      (some bob)
      none
      joined_world.session
      (handle test_stdlib any_payload by_text
        (some bob)
        (leave_call "c" none)
        joined_world).1.session
handle-Refined_example =
    handle-Refined test_stdlib any_payload by_text (some bob) (leave_call "c" none) joined_world

handle_all-Sound_example :
    IsValid
      (handle_all test_stdlib any_payload by_text
        ((30, some bob, leave_call "c" none) ∷ (40, none, accept_call "c" none) ∷ [])
        joined_world).session.committed
    × Evolves joined_world.session.committed
        (handle_all test_stdlib any_payload by_text
          ((30, some bob, leave_call "c" none) ∷ (40, none, accept_call "c" none) ∷ [])
          joined_world).session.committed
handle_all-Sound_example =
    handle_all-Sound test_stdlib any_payload by_text
      ((30, some bob, leave_call "c" none) ∷ (40, none, accept_call "c" none) ∷ []) joined_world
      joined-IsValid

read_directory_complete_example : read_directory text_lt 4 (pos 2) none fresh_session ≡ (
  ok (some (sort_by (λ (a b : Agent). text_lt a.sub b.sub) fresh_session.working.agents)),
  fresh_session,
)
read_directory_complete_example =
    read_directory_complete text_lt text_lt-Collation (pos 2) fresh_session
      (
        (
          (differ "carol" "bob" refl, (differ "carol" "alice" refl, tt)),
          ((differ "bob" "alice" refl, tt), (tt, tt)),
        ),
        (differ "carol" "" refl, (differ "bob" "" refl, (differ "alice" "" refl, tt))),
      )
      4 (ground arith)

list_conversations-Shown_example :
    Ends
      (λ page s'.
        At joined.committed joined.working s'
        × Shown joined.working 2 none (some "internal") (pos 10) page)
      (CursorGiven none)
      (list_conversations test_stdlib 2 none (some "internal") none (pos 10) none joined)
list_conversations-Shown_example =
    list_conversations-Shown test_stdlib joined 2 none (some "internal") none (pos 10) none

load_refresh_token-LeadsTo_example :
    ((load_refresh_token rotations proxy (λ s. s) tt (("old", "new") ∷ []) "old").0
      ≡ some new_refresh_token)
    ↔ LeadsTo rotations proxy
        (λ s. s)
        tt
        (("old", "new") ∷ [])
        rotation_max_hops
        "old"
        new_refresh_token
load_refresh_token-LeadsTo_example =
    load_refresh_token-LeadsTo rotations proxy (λ s. s) tt (("old", "new") ∷ []) "old"
      new_refresh_token

abbrev old_refresh_token : RefreshToken
old_refresh_token = record { token = "old"; scopes = [] }

load_refresh_token-exchanged_example :
    load_refresh_token rotations proxy
      (λ s. s)
      tt
      (exchange_refresh_token rotations proxy (λ s. s) tt [] old_refresh_token []).1
      "old"
    ≡ (some new_refresh_token, log_auth_flow "refresh_token_grace_redirect" ++ [])
load_refresh_token-exchanged_example =
    load_refresh_token-exchanged rotations proxy (λ s. s) tt rotations-KeepsEntries [] []
      old_refresh_token [] (record { access_token = "access"; refresh_token = some "new" }) "new"
      new_refresh_token refl refl (differ "new" "" refl) refl refl

-- carol has no part in the conversation of alice and bob.
tools-Stranger_example :
    ((accept_tool test_stdlib (some (agent_token "carol" [])) "c" none meeting_world).0 ≡ uniform)
    × ((decline_invite_tool test_stdlib (some (agent_token "carol" [])) "c" none meeting_world).0
        ≡ uniform)
    × ((leave_tool test_stdlib (some (agent_token "carol" [])) "c" none meeting_world).0 ≡ uniform)
    × ((invite_tool test_stdlib (some (agent_token "carol" [])) "c" "b" none meeting_world).0
        ≡ uniform)
    × ((post_message_tool test_stdlib any_payload
          (some (agent_token "carol" []))
          "c"
          "note"
          []
          1
          none
          meeting_world).0
        ≡ uniform)
    × ((get_conversation_tool test_stdlib any_payload
          (some (agent_token "carol" []))
          by_text
          "c"
          (pos 0)
          none
          meeting_world).0
        ≡ uniform)
unfolding caller_sub require_token require_identity try_resolve_email validate_sub_shape claim get
    is_null check_sub strip str occurs_in trusted_identity stripped_sub is_agent_jwt_token is_text
    validate_agent_key compose_sub find_row parse_uuid
tools-Stranger_example =
    tools-Stranger test_stdlib any_payload by_text (some (agent_token "carol" [])) meeting_world
      "carol" none refl (agent 3 "carol" "olga") refl "c" 100 refl (λ c p _ h. absurd (cc h)) "b" 2
      refl "note" [] 1 0
