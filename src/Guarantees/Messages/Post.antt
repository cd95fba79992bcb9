-- ===== src/Guarantees/Messages/Post.antt =====
-- post_message: every check has passed for a message that is stored.
use rh_reclaw.Common.{
  ◌≡◌, sym, ap, subst, ℕ, String, List, some, Bool, true, false, not, is_some, arith, ==_iff,
  if◌then◌else◌, string_eq, true_of_not, contains,
}
use rh_reclaw.Common.Json.{Dict}
use rh_reclaw.Models.{
  Db, Agent, AgentStatus, Conversation, ConversationState, state_eq, Participant, ParticipantStatus,
  Message, participant_key, pair_eq,
}
use rh_reclaw.Common.Rows.{find_row, key-find_row}
use rh_reclaw.Schemas.{Pydantic, message_type_literals}
use rh_reclaw.Schemas.Validation.{Accepts}
use rh_reclaw.StateMachine.{is_message_legal}
use rh_reclaw.Session.{◌>>=◌, ◌>>◌, agent_row, conversation_row, participant_row}
use rh_reclaw.Session.Triple.{
  Spec, Checks, Checks-weaken, Spec-check, Spec-then, Spec-weaken, Spec-at, Checks-query,
  Checks-when, Checks-now,
}
use rh_reclaw.Service.Gates.{require_message_sender_role}
use rh_reclaw.Service.Conversations.{validate_or_deny}
use rh_reclaw.Service.Messages.{
  append_message, post_message, enforce_message_rate_limit, check_boundary_crossing, join_agents,
  other_participants, row_ids, active_rows,
}
use rh_reclaw.Service.Ownership.{OwnershipClient}
use rh_reclaw.Board.Integrity.{KnownAgent, KnownConversation}
use rh_reclaw.Board.Known.{ParticipantKnown-row}
use rh_reclaw.Board.Writes.{Sound}
use rh_reclaw.Guarantees.Denials.{Denied, Fails-deny_bad_state, Fails-deny_rate_limited}
use rh_reclaw.Guarantees.Loading.{
  Checks-require_active_agent, Leads-load_for_transition, KnownConversation-id, id-conversation_row,
}
use rh_reclaw.Guarantees.Boundary.{StaysInside}
use rh_reclaw.Guarantees.Gates.{
  RoleAllows, AllAccept, Checks-require_message_sender_role, Checks-enforce_message_type_accepted,
  Checks-enforce_boundary_crossing, Checks-validate_or_deny,
}
use rh_reclaw.Guarantees.Messages.Append.{Appended, Spec-append_message}

-- Who a message reaches: the other active and invited participants, with their agents.
abbrev pub recipients : ℕ → ℕ → Db → List (ℕ × ParticipantStatus × List String)
recipients conversation_id sender db =
    join_agents (other_participants conversation_id sender db) db.agents

-- The recipients' side of a message: the active ones accept its type, and it crosses no boundary
-- that it must not cross.
pub record Admitted (client : OwnershipClient) (db : Db) (c : Conversation) (sender : ℕ)
    (message_type : String) (boundary_safe : Bool) : Type 0 where
  pub accepted : AllAccept message_type (active_rows (recipients c.id sender db))
  pub inside :
      StaysInside client db c.type boundary_safe sender (row_ids (recipients c.id sender db))

-- What holds of the tables `base` before, and `after`, a message that was posted.
pub record Posted (px : Pydantic) (client : OwnershipClient) (base : Db)
    (sender conversation_id : ℕ) (message_type : String) (payload : Dict) (schema_version : ℕ)
    (m : Message) (after : Db) : Type 0 where
  pub agent : Agent
  pub agent_found : agent_row sender base ≡ some agent
  pub agent_active : agent.status ≡ AgentStatus.active
  pub conversation : Conversation
  pub conversation_found : conversation_row conversation_id base ≡ some conversation
  pub conversation_active : conversation.state ≡ ConversationState.active
  pub member : Participant
  pub member_found : participant_row conversation_id sender base ≡ some member
  pub member_active : member.status ≡ ParticipantStatus.active
  pub role_allows : RoleAllows message_type member.role
  pub accepts : Accepts px message_type schema_version payload m.payload
  pub admitted : Admitted client base conversation sender message_type accepts.schema.boundary_safe
  pub appended :
      Appended base base conversation member sender message_type schema_version m.payload m after

else_of_true : (b e : Bool) → (if not b then false else e) ≡ true → e ≡ true
else_of_true b e h = ground arith

state_of_legal :
    (state : ConversationState) (message_type : String)
    → is_message_legal state message_type ≡ true
    → state ≡ ConversationState.active
unfolding is_message_legal
state_of_legal state message_type h =
    (==_iff state ConversationState.active).0
      (else_of_true (contains message_type message_type_literals) _ h)

module _ {base db : Db} (sound : Sound base db) (actor_sub : String) (sender : ℕ) (c : Conversation)
    (known : KnownAgent db sender) (row : KnownConversation db c.id) where
  Checks-rate_limit :
      Checks base db
        (enforce_message_rate_limit actor_sub sender c)
        (λ _. Unit)
        (Denied actor_sub base)
  unfolding enforce_message_rate_limit
  Checks-rate_limit = Spec-check Checks-now λ t _. Spec-check (Checks-query _) λ count _.
      Checks-weaken (λ _ _. tt)
        (Checks-when λ _. Fails-deny_rate_limited sound actor_sub sender (some c.id) _ _ known row)

  Checks-boundary :
      (client : OwnershipClient) (message_type : String) (version : ℕ) (px : Pydantic)
      (payload validated : Dict) (accepts : Accepts px message_type version payload validated)
      → Checks base db
          (check_boundary_crossing actor_sub sender c message_type version client)
          (λ _. Admitted client db c sender message_type accepts.schema.boundary_safe)
          (Denied actor_sub base)
  unfolding check_boundary_crossing
  Checks-boundary client message_type version px payload validated accepts =
      Spec-check (Checks-query _) λ rows is_rows.
        Spec-check
          (Checks-enforce_message_type_accepted sound actor_sub sender (some c.id) known row
            message_type (active_rows rows))
          λ _ accepted.
            Checks-weaken
              (λ _ inside. record {
                accepted = subst (λ r. AllAccept message_type (active_rows r)) is_rows accepted;
                inside =
                    subst
                      (λ r.
                        StaysInside client db c.type accepts.schema.boundary_safe sender
                          (row_ids r))
                      is_rows inside;
              })
              (Checks-enforce_boundary_crossing sound actor_sub sender (some c.id) known row
                message_type client c.type (row_ids rows) version accepts.schema accepts.registered)

module _ {base : Db} (sound : Sound base base) (px : Pydantic) (client : OwnershipClient)
    (actor_sub : String) (sender conversation_id : ℕ) where
  -- What follows once the message is known to be legal.
  Spec-post_legal :
      (message_type : String) (payload : Dict) (version : ℕ) (a : Agent) (c : Conversation)
      (p : Participant)
      → agent_row sender base ≡ some a
      → a.status ≡ AgentStatus.active
      → conversation_row conversation_id base ≡ some c
      → c.state ≡ ConversationState.active
      → participant_row conversation_id sender base ≡ some p
      → p.status ≡ ParticipantStatus.active
      → Spec base base
          (do
            require_message_sender_role actor_sub sender (some c.id) message_type p.role
            validated ←
                validate_or_deny px actor_sub sender (some c.id) message_type version payload
            check_boundary_crossing actor_sub sender c message_type version client
            append_message actor_sub sender c p message_type version validated)
          (λ m s.
            Posted px client base sender conversation_id message_type payload version m s.committed)
          (Denied actor_sub base)
  Spec-post_legal message_type payload version a c p found is_active found_c is_open found_p
        is_member =
      let known : KnownAgent base sender = ap is_some found in
      let row = KnownConversation-id base conversation_id c found_c in
      let again : conversation_row c.id base ≡ some c =
        subst (λ i. conversation_row i base ≡ some c)
          (sym (id-conversation_row base conversation_id c found_c)) found_c in
      let key =
        key-find_row participant_key (conversation_id, sender) base.participants p found_p in
      let by_key : participant_row p.conversation_id p.agent_id base ≡ some p =
        subst (λ (k : ℕ × ℕ). find_row participant_key k base.participants ≡ some p) (sym key)
          found_p in
      Spec-check
        (Checks-require_message_sender_role sound actor_sub sender (some c.id) known row
          message_type p.role)
        λ _ role.
          Spec-check
            (Checks-validate_or_deny sound actor_sub sender (some c.id) known row message_type px
              version payload)
            λ validated accepts.
              Spec-check
                (Checks-boundary sound actor_sub sender c known row client message_type version px
                  payload validated accepts)
                λ _ admitted.
                  Spec-weaken
                    (λ m s h. record {
                      agent = a;
                      agent_found = found;
                      agent_active = is_active;
                      conversation = c;
                      conversation_found = found_c;
                      conversation_active = is_open;
                      member = p;
                      member_found = found_p;
                      member_active = is_member;
                      role_allows = role;
                      accepts =
                          subst (Accepts px message_type version payload) (sym h.payload) accepts;
                      admitted = admitted;
                      appended =
                          subst
                            (λ d.
                              Appended base base c p sender message_type version d m s.committed)
                            (sym h.payload) h;
                    })
                    (Spec-append_message sound actor_sub sender c p known again is_open by_key
                      is_member message_type version validated)

  pub Spec-post_message :
      (message_type : String) (payload : Dict) (version : ℕ)
      → Spec base base
          (post_message px client actor_sub sender conversation_id message_type payload version)
          (λ m s.
            Posted px client base sender conversation_id message_type payload version m s.committed)
          (Denied actor_sub base)
  unfolding post_message
  Spec-post_message message_type payload version =
      Spec-check (Checks-require_active_agent sound actor_sub sender) λ a agent.
        Spec-then
          (Leads-load_for_transition sound actor_sub sender conversation_id
            ParticipantStatus.active)
          λ db x h.
            let known =
              ParticipantKnown-row h.0.sound.valid conversation_id sender x.1 h.0.participant in
            let row = KnownConversation-id db conversation_id x.0 h.0.conversation in
            Spec-check (Checks-rate_limit h.0.sound actor_sub sender x.0 known.0 row) λ _ _.
              Spec-check
                (Checks-when λ illegal.
                  Fails-deny_bad_state h.0.sound actor_sub sender x.0.id x.0.state message_type
                    known.0 row)
                λ _ legal.
                  let is_open = state_of_legal x.0.state message_type (true_of_not _ legal) in
                  let same = h.0.untouched is_open in
                  Spec-at same (
                    Spec-post_legal message_type payload version a x.0 x.1 agent.0 agent.1
                      (subst (λ d. conversation_row conversation_id d ≡ some x.0) same
                        h.0.conversation)
                      is_open
                      (subst (λ d. participant_row conversation_id sender d ≡ some x.1) same
                        h.0.participant)
                      h.1)
