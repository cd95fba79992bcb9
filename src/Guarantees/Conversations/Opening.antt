-- ===== src/Guarantees/Conversations/Opening.antt =====
-- open_conversation: the rows of a new conversation.
use rh_reclaw.Common.{
  ◌≡◌, refl, sym, ◌∙◌, ap, subst, ℕ, ◌+◌, String, List, ◌∷◌, Option, some, none, is_some, All,
  false, true, ==-refl, nat_eq,
}
use rh_reclaw.Common.Json.{Dict}
use rh_reclaw.Common.Rows.{All-map, none_of_is_some, find_row}
use rh_reclaw.Models.{
  Db, Agent, Conversation, ConversationState, Participant, ParticipantRole, ParticipantStatus,
  Message, participant_key, pair_eq,
}
use rh_reclaw.StateMachine.{resulting_conversation_state}
use rh_reclaw.Session.{
  conversation_row, participant_row, add_conversation, add_message, with_conversation, with_message,
}
use rh_reclaw.Session.Triple.{
  Spec, At, Spec-check, Spec-then, Spec-step, Spec-insert, Spec-weaken, Spec-commit-pure,
  Checks-now, Checks-transaction_now, Checks-uuid4,
}
use rh_reclaw.Service.Messages.{max_seq}
use rh_reclaw.Service.Conversations.{open_conversation}
use rh_reclaw.Board.Integrity.{KnownAgent}
use rh_reclaw.Board.Known.{max_seq_fresh}
use rh_reclaw.Board.Writes.{
  Sound, Sound-with_conversation, Sound-with_participant, Sound-with_message, Sound-with_audit,
}
use rh_reclaw.Guarantees.Denials.{Denied, Spec-audit}
use rh_reclaw.Guarantees.Closing.{Leads-close_conversation, state_or}
use rh_reclaw.Guarantees.Conversations.Targets.{
  Invited, newest-Kept, Spec-add_participant, Leads-add_targets,
}

-- A conversation that `initiator` opened: it is new, the initiator is its active owner and each
-- target an invited member, and its first message has number 1 and its effect on the state.
pub record Opened (base : Db) (initiator : Agent) (targets : List Agent)
    (conversation_type : String) (owner_snapshot : Option (List String)) (message_type : String)
    (version : ℕ) (payload : Dict) (c : Conversation) (after : Db) : Type 0 where
  pub sound : Sound base after
  pub fresh : conversation_row c.id base ≡ none
  pub row : conversation_row c.id after ≡ some c
  pub type : c.type ≡ conversation_type
  pub created_by : c.created_by ≡ initiator.id
  pub snapshot : c.owner_snapshot ≡ owner_snapshot
  pub state :
      c.state ≡ state_or ConversationState.active (resulting_conversation_state message_type false)
  pub owner :
      (p : Participant) × (participant_row c.id initiator.id after ≡ some p)
      × (p.role ≡ ParticipantRole.owner)
      × (p.status ≡ ParticipantStatus.active)
  pub invited : All (Invited c.id initiator.id after) targets
  pub message :
      (m : Message) × (after.messages ≡ m ∷ base.messages)
      × (m.conversation_id ≡ c.id)
      × (m.seq ≡ 1)
      × (m.sender_id ≡ initiator.id)
      × (m.type ≡ message_type)
      × (m.schema_version ≡ version)
      × (m.payload ≡ payload)

conversation_row-with_conversation :
    (db : Db) (c : Conversation) → conversation_row c.id (with_conversation c db) ≡ some c
unfolding find_row
conversation_row-with_conversation db c = rw (==-refl c.id) refl

newest_of : {xs ys zs : List Message} {m : Message} → zs ≡ m ∷ xs → xs ≡ ys → zs ≡ m ∷ ys
newest_of {m} h same = h ∙ ap (λ ms. m ∷ ms) same

module _ {base : Db} where
  Spec-add_conversation :
      {actor_sub : String} {db : Db} (c : Conversation)
      → Spec base db
          (add_conversation c)
          (λ _ s. At base (with_conversation c db) s × (is_some (conversation_row c.id db) ≡ false))
          (Denied actor_sub base)
  unfolding add_conversation
  Spec-add_conversation c = Spec-insert _ _ λ s at. at.committed

  pub Spec-add_message :
      {actor_sub : String} {db : Db} (m : Message)
      → Spec base db
          (add_message m)
          (λ _ s. At base (with_message m db) s × Unit)
          (Denied actor_sub base)
  unfolding add_message
  Spec-add_message m = Spec-weaken (λ _ s h. (h.0, tt)) (Spec-insert _ _ λ s at. at.committed)

module _ {base : Db} (sound : Sound base base) (actor_sub : String) (initiator : Agent)
    (known : KnownAgent base initiator.id) (targets : List Agent)
    (known_targets : All (λ (a : Agent). KnownAgent base a.id) targets) where
  pub Spec-open_conversation :
      (conversation_type : String) (owner_snapshot : Option (List String)) (message_type : String)
      (version : ℕ) (payload : Dict) (expires_at : Option ℕ)
      → Spec base base
          (open_conversation actor_sub initiator targets conversation_type owner_snapshot
            message_type version payload expires_at)
          (λ c s.
            Opened base initiator targets conversation_type owner_snapshot message_type version
              payload c s.committed)
          (Denied actor_sub base)
  unfolding open_conversation
  Spec-open_conversation conversation_type owner_snapshot message_type version payload expires_at =
      Spec-check Checks-now λ t _. Spec-check Checks-transaction_now λ at _.
        Spec-check Checks-uuid4 λ id _. Spec-step (Spec-add_conversation _) λ _ fresh_c.
          let is_new = none_of_is_some (conversation_row id base) fresh_c in
          let row = conversation_row-with_conversation base _ in
          let with_c = Sound-with_conversation sound _ fresh_c known in
          Spec-step (Spec-add_participant actor_sub _) λ _ fresh_p.
            let with_p = Sound-with_participant with_c _ fresh_p known (ap is_some row) tt in
            Spec-then
              (Leads-add_targets actor_sub with_p id initiator.id known (ap is_some row) targets
                known_targets)
              λ db' _ added.
                let known' : KnownAgent db' initiator.id =
                  subst (λ xs. is_some (find_row (λ (x : Agent). x.id) initiator.id xs) ≡ true)
                    (sym added.agents) known in
                let row' =
                  ap (find_row (λ (x : Conversation). x.id) id) added.conversations ∙ row in
                let first : max_seq id db'.messages ≡ 0 =
                  ap (max_seq id) added.messages
                  ∙ max_seq_fresh base id base.messages is_new sound.valid.messages in
                Spec-check Checks-uuid4 λ message_id _. Spec-step (Spec-add_message _) λ _ _.
                  Spec-audit λ _. Spec-audit λ _.
                    Spec-then
                      (Leads-close_conversation
                        (Sound-with_audit
                          (Sound-with_audit
                            (Sound-with_message added.sound _ known' (ap is_some row')
                              (sym (ap (λ n. n + 1) first)))
                            _ known' (ap is_some row') tt)
                          _ known' (ap is_some row') (rw (==-refl message_id) refl))
                        actor_sub initiator.id _ message_type _ known' row' refl)
                      λ db'' c' h. Spec-commit-pure _ λ s saved.
                        subst
                          (Opened base initiator targets conversation_type owner_snapshot
                            message_type version payload c')
                          (sym saved)
                          (subst
                            (λ x.
                              Opened base initiator targets conversation_type owner_snapshot
                                message_type version payload x db'')
                            (sym h.change)
                            (record {
                              sound = h.sound;
                              fresh = is_new;
                              row = h.row ∙ ap some h.change;
                              type = refl;
                              created_by = refl;
                              snapshot = refl;
                              state = refl;
                              owner = (
                                _,
                                ap (find_row participant_key (id, initiator.id)) h.participants
                                    ∙ newest-Kept _ base.participants _ added.kept,
                                refl,
                                refl,
                              );
                              invited =
                                  All-map targets
                                    (λ t i. (
                                      i.0,
                                      ap (find_row participant_key (id, t.id)) h.participants ∙ i.1,
                                      i.2,
                                      i.3,
                                      i.4,
                                    ))
                                    added.invited;
                              message = (
                                _,
                                newest_of h.messages added.messages,
                                refl,
                                refl,
                                refl,
                                refl,
                                refl,
                                refl,
                              );
                            }))
