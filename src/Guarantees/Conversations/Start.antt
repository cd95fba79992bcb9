-- ===== src/Guarantees/Conversations/Start.antt =====
-- start_conversation: every check has passed for a conversation that is opened.
use rh_reclaw.Common.{
  ◌≡◌, sym, subst, ℕ, String, List, ◌∷◌, map, Option, some, none, true, contains, string_eq,
  true_of_not,
}
use rh_reclaw.Common.Json.{Dict}
use rh_reclaw.Models.{Db, Agent, AgentStatus, Conversation, ParticipantRole}
use rh_reclaw.Schemas.{Pydantic, conversation_types}
use rh_reclaw.Schemas.Validation.{Accepts}
use rh_reclaw.Session.{agent_row}
use rh_reclaw.Session.Triple.{
  Spec, Checks, Checks-weaken, Spec-check, Spec-weaken, Checks-query, Checks-when, Checks-now,
  Fails-raise,
}
use rh_reclaw.Service.Ownership.{OwnershipClient}
use rh_reclaw.Service.Conversations.{start_conversation, enforce_start_rate_limit, other_targets}
use rh_reclaw.Board.Integrity.{KnownAgent}
use rh_reclaw.Board.Writes.{Sound}
use rh_reclaw.Guarantees.Denials.{Denied, Fails-deny_rate_limited}
use rh_reclaw.Guarantees.Loading.{Checks-require_active_agent, KnownAgent-id}
use rh_reclaw.Guarantees.Boundary.{StaysInside}
use rh_reclaw.Guarantees.Gates.{
  RoleAllows, AllAccept, Checks-require_message_sender_role, Checks-enforce_message_type_accepted,
  Checks-enforce_boundary_crossing, Checks-validate_or_deny,
}
use rh_reclaw.Guarantees.Conversations.Targets.{Resolved, Checks-resolve_targets}
use rh_reclaw.Guarantees.Conversations.Admission.{Authorized, Checks-authorize_conversation_open}
use rh_reclaw.Guarantees.Conversations.Opening.{Opened, Spec-open_conversation}

-- What holds of the tables `base` before, and `after`, a conversation was started.
pub record Started (px : Pydantic) (client : OwnershipClient) (base : Db) (initiator_id : ℕ)
    (conversation_type : String) (target_ids : List ℕ) (message_type : String) (message : Dict)
    (version : ℕ) (c : Conversation) (after : Db) : Type 0 where
  pub known_type : contains conversation_type conversation_types ≡ true
  pub initiator : Agent
  pub initiator_found : agent_row initiator_id base ≡ some initiator
  pub initiator_active : initiator.status ≡ AgentStatus.active
  pub targets : List Agent
  pub resolved : Resolved base (other_targets initiator.id target_ids) targets
  pub authorized :
      Authorized client base conversation_type
        (initiator.id ∷ map (λ (a : Agent). a.id) targets)
        c.owner_snapshot
  pub payload : Dict
  pub accepts : Accepts px message_type version message payload
  pub role_allows : RoleAllows message_type ParticipantRole.owner
  pub accepted : AllAccept message_type (map (λ (t : Agent). (t.id, t.accepted_types)) targets)
  pub inside :
      StaysInside client base conversation_type accepts.schema.boundary_safe initiator.id
        (map (λ (t : Agent). t.id) targets)
  pub opened :
      Opened base initiator targets conversation_type c.owner_snapshot message_type version payload
        c after

module _ {base : Db} (sound : Sound base base) (actor_sub : String) where
  Checks-start_rate_limit :
      (initiator : Agent)
      → KnownAgent base initiator.id
      → Checks base base
          (enforce_start_rate_limit actor_sub initiator)
          (λ _. Unit)
          (Denied actor_sub base)
  unfolding enforce_start_rate_limit
  Checks-start_rate_limit initiator known = Spec-check Checks-now λ t _.
      Spec-check (Checks-query _) λ count _.
        Checks-weaken (λ _ _. tt)
          (Checks-when λ _. Fails-deny_rate_limited sound actor_sub initiator.id none _ _ known tt)

  pub Spec-start_conversation :
      (px : Pydantic) (client : OwnershipClient) (initiator_id : ℕ) (conversation_type : String)
      (target_ids : List ℕ) (message : Dict) (message_type : String) (version : ℕ)
      (expires_at : Option ℕ)
      → Spec base base
          (start_conversation px client actor_sub initiator_id conversation_type target_ids message
            message_type version expires_at)
          (λ c s.
            Started px client base initiator_id conversation_type target_ids message_type message
              version c s.committed)
          (Denied actor_sub base)
  unfolding start_conversation
  Spec-start_conversation px client initiator_id conversation_type target_ids message message_type
        version expires_at =
      Spec-check (Checks-require_active_agent sound actor_sub initiator_id) λ a agent.
        let known = KnownAgent-id base initiator_id a agent.0 in
        Spec-check (Checks-when λ _. Fails-raise _ λ s at. at.committed) λ _ _.
          Spec-check (Checks-when λ _. Fails-raise _ λ s at. at.committed) λ _ known_type.
            Spec-check (Checks-when λ _. Fails-raise _ λ s at. at.committed) λ _ _.
              Spec-check (Checks-start_rate_limit a known) λ _ _.
                Spec-check
                  (Checks-resolve_targets actor_sub sound a known (other_targets a.id target_ids))
                  λ targets resolved.
                    Spec-check
                      (Checks-authorize_conversation_open sound actor_sub a known client
                        conversation_type targets)
                      λ snapshot authorized.
                        Spec-check
                          (Checks-validate_or_deny sound actor_sub a.id none known tt message_type
                            px version message)
                          λ payload accepts.
                            Spec-check
                              (Checks-require_message_sender_role sound actor_sub a.id none known tt
                                message_type ParticipantRole.owner)
                              λ _ role.
                                Spec-check
                                  (Checks-enforce_message_type_accepted sound actor_sub a.id none
                                    known tt message_type _)
                                  λ _ accepted.
                                    Spec-check
                                      (Checks-enforce_boundary_crossing sound actor_sub a.id none
                                        known tt message_type client conversation_type
                                        (map (λ (t : Agent). t.id) targets) version accepts.schema
                                        accepts.registered)
                                      λ _ inside.
                                        Spec-weaken
                                          (λ c s opened. record {
                                            known_type = true_of_not _ known_type;
                                            initiator = a;
                                            initiator_found = agent.0;
                                            initiator_active = agent.1;
                                            targets = targets;
                                            resolved = resolved;
                                            authorized =
                                                subst
                                                  (Authorized client base conversation_type
                                                    (a.id ∷ map (λ (x : Agent). x.id) targets))
                                                  (sym opened.snapshot) authorized;
                                            payload = payload;
                                            accepts = accepts;
                                            role_allows = role;
                                            accepted = accepted;
                                            inside = inside;
                                            opened =
                                                subst
                                                  (λ o.
                                                    Opened base a targets conversation_type o
                                                      message_type version payload c s.committed)
                                                  (sym opened.snapshot) opened;
                                          })
                                          (Spec-open_conversation sound actor_sub a known targets
                                            resolved.known conversation_type snapshot message_type
                                            version payload expires_at)
