-- ===== src/Guarantees/Messages/Append.antt =====
-- append_message: the message is stored under the next number, and its effects are applied.
use rh_reclaw.Common.{
  ◌≡◌, refl, sym, ap, subst, ℕ, ◌+◌, ◌≤◌, String, ◌∷◌, false, ◌&&◌, leb, some, is_some, ◌==◌,
  string_eq, arith, ==_iff, ==-refl, nat_eq,
}
use rh_reclaw.Common.Json.{Dict, to_int, get}
use rh_reclaw.Models.{
  Db, Conversation, ConversationState, state_eq, Participant, ParticipantStatus, Message,
}
use rh_reclaw.StateMachine.{resulting_conversation_state}
use rh_reclaw.Session.{conversation_row, participant_row}
use rh_reclaw.Session.Triple.{
  Spec, Checks, Checks-weaken, Spec-check, Spec-then, Spec-step, Spec-insert, Spec-commit-pure,
  Checks-query, Checks-when, Checks-transaction_now, Checks-uuid4, At, Spec-weaken,
}
use rh_reclaw.Session.{add_message, with_message}
use rh_reclaw.Service.Messages.{append_message, check_about_seq, max_seq, all_non_owners_declined}
use rh_reclaw.Board.Integrity.{KnownAgent}
use rh_reclaw.Board.Writes.{Sound, Sound-with_message, Sound-with_audit}
use rh_reclaw.Guarantees.Denials.{Denied, Spec-audit, Fails-deny_bad_schema}
use rh_reclaw.Guarantees.Closing.{state_or}
use rh_reclaw.Guarantees.Messages.Effects.{Leads-apply_effects}

-- A needs_clarification asks about a message that is already there.
abbrev pub AsksAboutPast : String → Dict → ℕ → Type 0
AsksAboutPast message_type validated highest =
    message_type ≡ "needs_clarification" → to_int (get "about_seq" validated) ≤ highest

-- The committed tables `after`, once `m` was posted to `c` at the tables `before`.
pub record Appended (base before : Db) (c : Conversation) (p : Participant) (sender : ℕ)
    (message_type : String) (schema_version : ℕ) (validated : Dict) (m : Message) (after : Db)
    : Type 0 where
  pub sound : Sound base after
  pub stored : after.messages ≡ m ∷ before.messages
  pub seq : m.seq ≡ max_seq c.id before.messages + 1
  pub conversation_id : m.conversation_id ≡ c.id
  pub sender_id : m.sender_id ≡ sender
  pub type : m.type ≡ message_type
  pub version : m.schema_version ≡ schema_version
  pub payload : m.payload ≡ validated
  pub asks_about_past : AsksAboutPast message_type validated (max_seq c.id before.messages)
  pub conversation :
      (c' : Conversation) × (conversation_row c.id after ≡ some c')
      × (c'.state
          ≡ state_or c.state (
              resulting_conversation_state message_type
                (message_type == "decline" && all_non_owners_declined c.id after)))
  pub declined :
      message_type ≡ "decline"
      → (q : Participant) × (participant_row p.conversation_id p.agent_id after ≡ some q)
        × (q.status ≡ ParticipantStatus.declined)
  pub others : (message_type == "decline") ≡ false → after.participants ≡ before.participants

asks_about_past_of :
    (message_type : String) (about highest : ℕ)
    → (message_type == "needs_clarification" && leb (highest + 1) about) ≡ false
    → message_type ≡ "needs_clarification"
    → about ≤ highest
asks_about_past_of message_type about highest h e =
    ground (arith, ==_iff message_type "needs_clarification")

module _ {base db : Db} (sound : Sound base db) (actor_sub : String) (sender : ℕ) (c : Conversation)
    (p : Participant) (known : KnownAgent db sender) (row : conversation_row c.id db ≡ some c) where
  Checks-check_about_seq :
      (message_type : String) (validated : Dict) (highest : ℕ)
      → Checks base db
          (check_about_seq actor_sub sender c message_type validated (highest + 1))
          (λ _. AsksAboutPast message_type validated highest)
          (Denied actor_sub base)
  unfolding check_about_seq
  Checks-check_about_seq message_type validated highest =
      Checks-weaken (λ _ e. asks_about_past_of message_type _ highest e)
        (Checks-when λ _.
          Fails-deny_bad_schema sound actor_sub sender (some c.id) message_type _ known
            (ap is_some row))

  Spec-add_message :
      (m : Message)
      → Spec base db
          (add_message m)
          (λ _ s. At base (with_message m db) s × Unit)
          (Denied actor_sub base)
  unfolding add_message
  Spec-add_message m = Spec-weaken (λ _ s h. (h.0, tt)) (Spec-insert _ _ λ s at. at.committed)

  module _ (is_active : c.state ≡ ConversationState.active)
      (member : participant_row p.conversation_id p.agent_id db ≡ some p)
      (may_decline : p.status ≡ ParticipantStatus.active) where
    pub Spec-append_message :
        (message_type : String) (schema_version : ℕ) (validated : Dict)
        → Spec base db
            (append_message actor_sub sender c p message_type schema_version validated)
            (λ m s. Appended base db c p sender message_type schema_version validated m s.committed)
            (Denied actor_sub base)
    unfolding append_message
    Spec-append_message message_type schema_version validated =
        Spec-check (Checks-query _) λ highest is_highest.
          Spec-check (Checks-check_about_seq message_type validated highest) λ _ past.
            Spec-check Checks-transaction_now λ at _. Spec-check Checks-uuid4 λ id _.
              Spec-step (Spec-add_message _) λ _ _. Spec-audit λ at'.
                Spec-then
                  (Leads-apply_effects
                    (Sound-with_audit
                      (Sound-with_message sound _ known (ap is_some row)
                        (ap (λ n. n + 1) is_highest))
                      _ known (ap is_some row) (rw (==-refl id) refl))
                    actor_sub sender c p known row is_active member may_decline message_type
                    validated)
                  λ db' c' h. Spec-commit-pure _ λ s saved.
                    subst (Appended base db c p sender message_type schema_version validated _)
                      (sym saved)
                      (record {
                        sound = h.sound;
                        stored = h.messages;
                        seq = ap (λ n. n + 1) is_highest;
                        conversation_id = refl;
                        sender_id = refl;
                        type = refl;
                        version = refl;
                        payload = refl;
                        asks_about_past =
                            subst (AsksAboutPast message_type validated) is_highest past;
                        conversation = (c', h.conversation, h.state);
                        declined = h.declined;
                        others = h.others;
                      })
