-- ===== src/Guarantees/Invite.antt =====
-- invite: the set of owners of a conversation is frozen when it starts.
use rh_reclaw.Common.{
  ◌≡◌, refl, sym, ◌∙◌, subst, ℕ, String, Option, some, none, true, false, ◌==◌, any, string_eq,
  true_of_not, eq_of_not_ne,
}
use rh_reclaw.Common.Rows.{Persists-refl}
use rh_reclaw.Models.{
  Db, Agent, AgentStatus, agent_status_eq, Conversation, ConversationState, state_eq, Participant,
  ParticipantRole, ParticipantStatus, participant_key, pair_eq,
}
use rh_reclaw.StateMachine.{subset}
use rh_reclaw.Session.{agent_row, conversation_row, participant_row}
use rh_reclaw.Session.Triple.{
  Spec, Checks, Checks-weaken, Spec-check, Spec-then, Spec-step, Checks-query, Checks-or_else,
  Checks-when, Checks-pure, Checks-transaction_now, Spec-if, Spec-commit-pure, Fails-Spec,
}
use rh_reclaw.Service.Lookups.{find_agent_by_id, find_participant}
use rh_reclaw.Service.Ownership.{OwnershipClient, OwnerInfo, owners_of}
use rh_reclaw.Service.Membership.{
  invite, authorize_invite_owner_freeze, check_owner_freeze, snapshot_owners, deny_existing,
}
use rh_reclaw.Board.Integrity.{KnownAgent, KnownConversation}
use rh_reclaw.Board.Known.{ParticipantKnown-row}
use rh_reclaw.Board.Writes.{Sound, Sound-with_participant, Sound-with_audit}
use rh_reclaw.Guarantees.Denials.{Denied, Recorded, Spec-audit, Fails-deny, Fails-deny_bad_state}
use rh_reclaw.Guarantees.Loading.{Leads-load_for_transition, KnownConversation-id, KnownAgent-id}
use rh_reclaw.Guarantees.Conversations.Targets.{Spec-add_participant, newest-Kept}

-- Past `open`, the target's owners were looked up, there are some, and all are in the snapshot.
abbrev pub WithinFreeze : OwnershipClient → Db → Conversation → ℕ → Type 0
WithinFreeze client db c target_id =
    (c.type == "open") ≡ false
    → (info : OwnerInfo) × (client target_id db ≡ some info)
      × (any (λ o. true) (owners_of info) ≡ true)
      × (subset (owners_of info) (snapshot_owners c) ≡ true)

-- An invitation that was made.
pub record InvitedTo (client : OwnershipClient) (actor_sub : String) (base : Db)
    (inviter_id conversation_id target_id : ℕ) (after : Db) : Type 0 where
  pub sound : Sound base after
  pub conversation : Conversation
  pub conversation_found : conversation_row conversation_id base ≡ some conversation
  pub conversation_active : conversation.state ≡ ConversationState.active
  pub inviter : Participant
  pub inviter_found : participant_row conversation_id inviter_id base ≡ some inviter
  pub inviter_active : inviter.status ≡ ParticipantStatus.active
  pub target : Agent
  pub target_found : agent_row target_id base ≡ some target
  pub target_active : target.status ≡ AgentStatus.active
  pub within : WithinFreeze client base conversation target.id
  pub new : participant_row conversation.id target.id base ≡ none
  pub invited :
      (q : Participant) × (participant_row conversation.id target.id after ≡ some q)
      × (q.status ≡ ParticipantStatus.invited)
      × (q.role ≡ ParticipantRole.member)
      × (q.invited_by ≡ some inviter_id)
  pub recorded : Recorded actor_sub "participant.invite" after

module _ {base db : Db} (sound : Sound base db) (actor_sub : String) (inviter_id : ℕ)
    (known : KnownAgent db inviter_id) where
  Checks-owner_freeze :
      (client : OwnershipClient) (c : Conversation) (target : Agent)
      → KnownConversation db c.id
      → Checks base db
          (authorize_invite_owner_freeze actor_sub inviter_id c target client)
          (λ _. WithinFreeze client db c target.id)
          (Denied actor_sub base)
  unfolding authorize_invite_owner_freeze check_owner_freeze
  Checks-owner_freeze client c target known_c =
      Spec-if (c.type == "open") (λ is_open. Checks-pure tt (λ past. absurd (cc (is_open, past))))
        λ _. Spec-check (Checks-query _) λ resolved is_resolved.
          Spec-check
            (Checks-or_else
              λ _. Fails-deny sound actor_sub _ (some inviter_id) (some c.id) _ known known_c)
            λ info e.
              Spec-check
                (Checks-when
                  λ _. Fails-deny sound actor_sub _ (some inviter_id) (some c.id) _ known known_c)
                λ _ nonempty.
                  Checks-weaken
                    (λ _ within _.
                      (info, sym is_resolved ∙ e, true_of_not _ nonempty, true_of_not _ within))
                    (Checks-when λ _.
                      Fails-deny sound actor_sub _ (some inviter_id) (some c.id) _ known known_c)

  Checks-deny_existing :
      (conversation_id target_id : ℕ) (existing : Option Participant)
      → KnownConversation db conversation_id
      → Checks base db
          (deny_existing actor_sub inviter_id conversation_id target_id existing)
          (λ _. existing ≡ none)
          (Denied actor_sub base)
  unfolding deny_existing
  Checks-deny_existing conversation_id target_id none known_c = Checks-pure tt refl
  Checks-deny_existing conversation_id target_id (some p) known_c =
      Fails-Spec
        (Fails-deny sound actor_sub _ (some inviter_id) (some conversation_id) _ known known_c)

module _ {base : Db} (sound : Sound base base) (client : OwnershipClient) (actor_sub : String)
    (inviter_id conversation_id target_id : ℕ) where
  pub Spec-invite :
      Spec base base
        (invite client actor_sub inviter_id conversation_id target_id)
        (λ p s. InvitedTo client actor_sub base inviter_id conversation_id target_id s.committed)
        (Denied actor_sub base)
  unfolding invite find_agent_by_id find_participant
  Spec-invite =
      Spec-then
        (Leads-load_for_transition sound actor_sub inviter_id conversation_id
          ParticipantStatus.active)
        λ db x h.
          let known =
            (ParticipantKnown-row h.0.sound.valid conversation_id inviter_id x.1
              h.0.participant).0 in
          let row = KnownConversation-id db conversation_id x.0 h.0.conversation in
          Spec-check
            (Checks-when
              λ _. Fails-deny h.0.sound actor_sub _ (some inviter_id) (some x.0.id) _ known row)
            λ _ _.
              Spec-check
                (Checks-when
                  λ _. Fails-deny_bad_state h.0.sound actor_sub inviter_id x.0.id _ _ known row)
                λ _ opened.
                  let is_open = eq_of_not_ne _ _ opened in
                  let same = h.0.untouched is_open in
                  Spec-check (Checks-query _) λ found is_found.
                    Spec-check
                      (Checks-or_else λ _.
                        Fails-deny h.0.sound actor_sub _ (some inviter_id) (some x.0.id) _ known
                          row)
                      λ target e.
                        Spec-check
                          (Checks-when λ _.
                            Fails-deny h.0.sound actor_sub _ (some inviter_id) (some x.0.id) _ known
                              row)
                          λ _ active.
                            let found_target : agent_row target_id db ≡ some target =
                              sym is_found ∙ e in
                            let known_target = KnownAgent-id db target_id target found_target in
                            Spec-check
                              (Checks-owner_freeze h.0.sound actor_sub inviter_id known client x.0
                                target row)
                              λ _ within. Spec-check (Checks-query _) λ existing is_existing.
                                Spec-check
                                  (Checks-deny_existing h.0.sound actor_sub inviter_id known x.0.id
                                    target_id existing row)
                                  λ _ none_there. Spec-check Checks-transaction_now λ at _.
                                    Spec-step (Spec-add_participant actor_sub _) λ _ fresh.
                                      Spec-audit λ _. Spec-commit-pure _ λ s saved.
                                        subst
                                          (InvitedTo client actor_sub base inviter_id
                                            conversation_id target_id)
                                          (sym saved)
                                          (record {
                                            sound =
                                                Sound-with_audit
                                                  (Sound-with_participant h.0.sound _ fresh
                                                    known_target row known)
                                                  _ known_target row tt;
                                            conversation = x.0;
                                            conversation_found =
                                                subst
                                                  (λ d.
                                                    conversation_row conversation_id d ≡ some x.0)
                                                  same h.0.conversation;
                                            conversation_active = is_open;
                                            inviter = x.1;
                                            inviter_found =
                                                subst
                                                  (λ d.
                                                    participant_row conversation_id inviter_id d
                                                    ≡ some x.1)
                                                  same h.0.participant;
                                            inviter_active = h.1;
                                            target = target;
                                            target_found =
                                                subst (λ d. agent_row target_id d ≡ some target)
                                                  same found_target;
                                            target_active = eq_of_not_ne _ _ active;
                                            within =
                                                subst (λ d. WithinFreeze client d x.0 target.id)
                                                  same within;
                                            new =
                                                subst
                                                  (λ d. participant_row x.0.id target.id d ≡ none)
                                                  same (sym is_existing ∙ none_there);
                                            invited = (
                                              _,
                                              newest-Kept _ db.participants _
                                                  (Persists-refl participant_key (λ q. refl) _),
                                              refl,
                                              refl,
                                              refl,
                                            );
                                            recorded = record {
                                              newest = _;
                                              older = db.audit_log;
                                              trail = refl;
                                              actor_sub_eq = refl;
                                              action_eq = refl;
                                            };
                                          })
