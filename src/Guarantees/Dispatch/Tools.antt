-- ===== src/Guarantees/Dispatch/Tools.antt =====
-- Each tool, as a request of its caller.
use rh_reclaw.Common.{
  ◌≡◌, refl, sym, ap, inl, inr, ℕ, String, Option, none, List, Bool, ltb, length,
}
use rh_reclaw.Common.Result.{ok}
use rh_reclaw.Common.Json.{Dict}
use rh_reclaw.Common.Stdlib.{Stdlib, ℤ, is_negative, to_nat}
use rh_reclaw.Models.{Agent}
use rh_reclaw.Schemas.{Pydantic}
use rh_reclaw.Exceptions.{ServiceError}
use rh_reclaw.Session.{Session, Exec}
use rh_reclaw.Session.Reading.{ReadOnly}
use rh_reclaw.Service.Requests.{
  Request, register_agent_request, start_conversation_request, accept_invite_request,
  decline_invite_request, invite_request, leave_request, post_message_request,
  get_conversation_request, serve,
}
use rh_reclaw.Service.Ownership.{agent_table_client}
use rh_reclaw.Identity.{AccessToken}
use rh_reclaw.Call.{Failure, World, done, ◌>>=◌, ◌>>◌, in_session, open_session}
use rh_reclaw.Tools.Caller.{
  caller_sub, require_token, require_identity, validate_agent_key, compose_sub,
  resolve_caller_agent,
}
use rh_reclaw.Tools.Parsing.{
  parse_uuid, parse_uuids, parse_expires_at, parse_role, parse_type, parse_state,
}
use rh_reclaw.Tools.Board.{whoami, register, list_agents_tool, owner_sub_of, owner_email_of}
use rh_reclaw.Tools.Conversations.{
  start_conversation_tool, post_message_tool, get_conversation_tool, inbox_tool,
  list_conversations_tool,
}
use rh_reclaw.Tools.Membership.{accept_tool, decline_invite_tool, invite_tool, leave_tool}
use rh_reclaw.Server.Dispatch.{
  ToolCall, whoami_call, register_call, list_agents_call, start_conversation_call,
  post_message_call, get_conversation_call, inbox_call, list_conversations_call, accept_call,
  decline_invite_call, invite_call, leave_call, call_tool,
}
use rh_reclaw.Guarantees.Listings.{
  ReadOnly-list_agents, ReadOnly-inbox, ReadOnly-list_conversations,
}
use rh_reclaw.Guarantees.Dispatch.{
  Refined, Bound, Own, opened, after_checked, after_service, after_reject, after_open,
  after_resolve,
}

-- The agent key among the arguments of a call; list_agents has none.
abbrev pub agent_key_of : ToolCall → Option String
agent_key_of (whoami_call k) = k
agent_key_of (register_call _ _ k) = k
agent_key_of (list_agents_call _ _) = none
agent_key_of (start_conversation_call _ _ _ _ _ _ k) = k
agent_key_of (post_message_call _ _ _ _ k) = k
agent_key_of (get_conversation_call _ _ k) = k
agent_key_of (inbox_call k) = k
agent_key_of (list_conversations_call _ _ _ _ _ k) = k
agent_key_of (accept_call _ k) = k
agent_key_of (decline_invite_call _ k) = k
agent_key_of (invite_call _ _ k) = k
agent_key_of (leave_call _ k) = k

module _ (py : Stdlib) (px : Pydantic) (collation : String → String → Bool)
    (found : Option AccessToken) (w : World) where
  abbrev R : Option String → Session → Type 0
  R k = Refined py px collation found k w.session

  -- The caller's agent is looked up, and one request is made for it.
  module _ {A : Type 0} (g : ServiceError → Failure) (sub : String) (k : Option String)
      (caller : caller_sub py found k ≡ ok sub) (m : Agent → Exec A) (h : Agent → A → Dict) where
    after_request :
        (r : ℕ → Request)
        → ((id : ℕ) → Bound w.session.committed sub id → Own w.session.committed sub (r id))
        → ((a : Agent) (s : Session) → serve px agent_table_client collation (r a.id) s ≡ (m a s).1)
        → (R k)
            ((open_session
                >> (resolve_caller_agent sub >>= λ a. in_session g (m a) >>= λ x. done (h a x)))
              w).1.session
    after_request r own served = after_open (R k) _ w (
        after_resolve (R k) sub _ (opened w) (inl refl) λ a bound.
          after_service (R k) g (m a) (h a) (opened w) (
            inr (
              sub,
              r a.id,
              caller,
              own a.id (a, bound, refl),
              ap (λ (s : Session). s.committed) (sym (served a (opened w).session)),
            )))

    after_reading :
        ((a : Agent) → ReadOnly (m a))
        → (R k)
            ((open_session
                >> (resolve_caller_agent sub >>= λ a. in_session g (m a) >>= λ x. done (h a x)))
              w).1.session
    after_reading reads = after_open (R k) _ w (
        after_resolve (R k) sub _ (opened w) (inl refl) λ a bound.
          after_service (R k) g (m a) (h a) (opened w) (inl ((reads a).run (opened w).session).0))

  Refined-accept_tool :
      (conversation_id : String) (k : Option String)
      → (R k) (accept_tool py found conversation_id k w).1.session
  unfolding accept_tool serve
  Refined-accept_tool conversation_id k =
      after_checked (R k) (caller_sub py found k) _ w (inl refl) λ sub caller.
        after_checked (R k) (parse_uuid py "conversation_id" conversation_id) _ w (inl refl) λ i _.
          after_request _ sub k caller _ _ (λ id. accept_invite_request sub id i)
            (λ id bound. (refl, bound)) (λ a s. refl)

  Refined-decline_invite_tool :
      (conversation_id : String) (k : Option String)
      → (R k) (decline_invite_tool py found conversation_id k w).1.session
  unfolding decline_invite_tool serve
  Refined-decline_invite_tool conversation_id k =
      after_checked (R k) (caller_sub py found k) _ w (inl refl) λ sub caller.
        after_checked (R k) (parse_uuid py "conversation_id" conversation_id) _ w (inl refl) λ i _.
          after_request _ sub k caller _ _ (λ id. decline_invite_request sub id i)
            (λ id bound. (refl, bound)) (λ a s. refl)

  Refined-leave_tool :
      (conversation_id : String) (k : Option String)
      → (R k) (leave_tool py found conversation_id k w).1.session
  unfolding leave_tool serve
  Refined-leave_tool conversation_id k =
      after_checked (R k) (caller_sub py found k) _ w (inl refl) λ sub caller.
        after_checked (R k) (parse_uuid py "conversation_id" conversation_id) _ w (inl refl) λ i _.
          after_request _ sub k caller _ _ (λ id. leave_request sub id i)
            (λ id bound. (refl, bound)) (λ a s. refl)

  Refined-invite_tool :
      (conversation_id target_agent_id : String) (k : Option String)
      → (R k) (invite_tool py found conversation_id target_agent_id k w).1.session
  unfolding invite_tool serve
  Refined-invite_tool conversation_id target_agent_id k =
      after_checked (R k) (caller_sub py found k) _ w (inl refl) λ sub caller.
        after_checked (R k) (parse_uuid py "conversation_id" conversation_id) _ w (inl refl) λ i _.
          after_checked (R k) (parse_uuid py "target_agent_id" target_agent_id) _ w (inl refl)
            λ j _.
              after_request _ sub k caller _ _ (λ id. invite_request sub id i j)
                (λ id bound. (refl, bound)) (λ a s. refl)

  Refined-post_message_tool :
      (conversation_id message_type : String) (payload : Dict) (version : ℕ) (k : Option String)
      → (R k)
          (post_message_tool py px found conversation_id message_type payload version k w).1.session
  unfolding post_message_tool serve
  Refined-post_message_tool conversation_id message_type payload version k =
      after_checked (R k) (caller_sub py found k) _ w (inl refl) λ sub caller.
        after_checked (R k) (parse_uuid py "conversation_id" conversation_id) _ w (inl refl) λ i _.
          after_request _ sub k caller _ _
            (λ id. post_message_request sub id i message_type payload version)
            (λ id bound. (refl, bound)) (λ a s. refl)

  Refined-get_conversation_tool :
      (conversation_id : String) (since : ℤ) (k : Option String)
      → (R k) (get_conversation_tool py px found collation conversation_id since k w).1.session
  unfolding get_conversation_tool serve
  Refined-get_conversation_tool conversation_id since k =
      after_checked (R k) (caller_sub py found k) _ w (inl refl) λ sub caller.
        after_checked (R k) (parse_uuid py "conversation_id" conversation_id) _ w (inl refl) λ i _.
          after_reject (R k) (is_negative since) _ _ w (inl refl) (
            after_request _ sub k caller _ _
              (λ id. get_conversation_request sub id i (to_nat since)) (λ id bound. (refl, bound))
              (λ a s. refl))

  Refined-start_conversation_tool :
      (conversation_type : String) (targets : List String) (message : Dict) (message_type : String)
      (expires_at : Option String) (version : ℕ) (k : Option String)
      → (R k)
          (start_conversation_tool py px found conversation_type targets message message_type
            expires_at version k w).1.session
  unfolding start_conversation_tool serve
  Refined-start_conversation_tool conversation_type targets message message_type expires_at version
        k =
      after_checked (R k) (caller_sub py found k) _ w (inl refl) λ sub caller.
        after_reject (R k) (ltb 50 (length targets)) _ _ w (inl refl) (
          after_checked (R k) (parse_uuids py "target_agent_ids" targets) _ w (inl refl) λ ids _.
            after_checked (R k) (parse_expires_at py expires_at) _ w (inl refl) λ expires _.
              after_request _ sub k caller _ _
                (λ id.
                  start_conversation_request sub id conversation_type ids message message_type
                    version expires)
                (λ id bound. (refl, bound)) (λ a s. refl))

  Refined-inbox_tool : (k : Option String) → (R k) (inbox_tool py px found k w).1.session
  unfolding inbox_tool
  Refined-inbox_tool k =
      after_checked (R k) (caller_sub py found k) _ w (inl refl)
        λ sub caller. after_reading _ sub k caller _ _ (λ a. ReadOnly-inbox a.id)

  Refined-list_conversations_tool :
      (role type state : Option String) (limit : ℤ) (cursor k : Option String)
      → (R k) (list_conversations_tool py px found role type state limit cursor k w).1.session
  unfolding list_conversations_tool
  Refined-list_conversations_tool role type state limit cursor k =
      after_checked (R k) (caller_sub py found k) _ w (inl refl) λ sub caller.
        after_checked (R k) (parse_role py role) _ w (inl refl) λ role' _.
          after_checked (R k) (parse_type py type) _ w (inl refl) λ type' _.
            after_checked (R k) (parse_state py state) _ w (inl refl) λ state' _.
              after_reading _ sub k caller _ _
                (λ a. ReadOnly-list_conversations py a.id role' type' state' limit cursor)

  Refined-list_agents_tool :
      (limit : ℤ) (cursor : Option String)
      → (R none) (list_agents_tool py found collation limit cursor w).1.session
  unfolding list_agents_tool
  Refined-list_agents_tool limit cursor =
      after_checked (R none) (require_token found) _ w (inl refl) λ token _.
        after_open (R none) _ w (
          after_service (R none) _ _ _ (opened w)
            (inl ((ReadOnly-list_agents collation limit cursor).run (opened w).session).0))

  -- The four steps of a tool that goes on with the token, as the caller's subject.
  caller_sub_lem :
      (token : AccessToken) (base_sub sub : String) (k key : Option String)
      → require_token found ≡ ok token
      → require_identity py token ≡ ok base_sub
      → validate_agent_key py k ≡ ok key
      → compose_sub py base_sub key ≡ ok sub
      → caller_sub py found k ≡ ok sub
  unfolding caller_sub
  caller_sub_lem token base_sub sub k key t b v c = rw (t, b, v) c

  Refined-whoami : (k : Option String) → (R k) (whoami py found k w).1.session
  unfolding whoami done
  Refined-whoami k = after_checked (R k) (require_token found) _ w (inl refl) λ token _.
      after_checked (R k) (require_identity py token) _ w (inl refl) λ base_sub _.
        after_checked (R k) (validate_agent_key py k) _ w (inl refl) λ key _.
          after_checked (R k) (compose_sub py base_sub key) _ w (inl refl) λ sub _. inl refl

  Refined-register :
      (display_name : String) (types : List String) (k : Option String)
      → (R k) (register py found display_name types k w).1.session
  unfolding register serve
  Refined-register display_name types k =
      after_checked (R k) (require_token found) _ w (inl refl) λ token t.
        after_checked (R k) (require_identity py token) _ w (inl refl) λ base_sub b.
          after_checked (R k) (validate_agent_key py k) _ w (inl refl) λ key v.
            after_checked (R k) (compose_sub py base_sub key) _ w (inl refl) λ sub c.
              after_open (R k) _ w (
                after_service (R k) _ _ _ (opened w) (
                  inr (
                    sub,
                    register_agent_request sub (owner_sub_of py found token base_sub)
                        (owner_email_of py found token base_sub) display_name types,
                    caller_sub_lem token base_sub sub k key t b v c,
                    refl,
                    refl,
                  )))

  pub Refined-call_tool :
      (call : ToolCall) → (R (agent_key_of call)) (call_tool py px collation found call w).1.session
  unfolding call_tool
  Refined-call_tool (whoami_call k) = Refined-whoami k
  Refined-call_tool (register_call display_name types k) = Refined-register display_name types k
  Refined-call_tool (list_agents_call limit cursor) = Refined-list_agents_tool limit cursor
  Refined-call_tool
        (start_conversation_call conversation_type targets message message_type expires version k) =
      Refined-start_conversation_tool conversation_type targets message message_type expires version
        k
  Refined-call_tool (post_message_call i message_type payload version k) =
      Refined-post_message_tool i message_type payload version k
  Refined-call_tool (get_conversation_call i since k) = Refined-get_conversation_tool i since k
  Refined-call_tool (inbox_call k) = Refined-inbox_tool k
  Refined-call_tool (list_conversations_call role type state limit cursor k) =
      Refined-list_conversations_tool role type state limit cursor k
  Refined-call_tool (accept_call i k) = Refined-accept_tool i k
  Refined-call_tool (decline_invite_call i k) = Refined-decline_invite_tool i k
  Refined-call_tool (invite_call i target k) = Refined-invite_tool i target k
  Refined-call_tool (leave_call i k) = Refined-leave_tool i k
