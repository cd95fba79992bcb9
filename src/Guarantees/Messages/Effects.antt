-- ===== src/Guarantees/Messages/Effects.antt =====
-- apply_effects: the state machine of the conversation, and of the membership that declines.
use mathlib.Core.Bool.{false≢true}
use rh_reclaw.Common.{
  ◌≡◌, refl, sym, ◌∙◌, ap, subst, ℕ, String, none, some, [], ◌∷◌, true, false, ◌&&◌, is_some, ◌==◌,
  string_eq, contains, arith, ==_iff,
}
use rh_reclaw.Common.Json.{Dict}
use rh_reclaw.Common.Rows.{find_row}
use rh_reclaw.Models.{
  Db, Conversation, ConversationState, state_eq, Participant, ParticipantStatus, participant_key,
  pair_eq,
}
use rh_reclaw.StateMachine.{resulting_conversation_state}
use rh_reclaw.Exceptions.{ServiceError}
use rh_reclaw.Session.{Session, conversation_row, participant_row}
use rh_reclaw.Session.Triple.{
  Leads, Spec-check, Spec-step, Spec-write, Spec-weaken, Checks-query, Leads-pure, Spec-if,
}
use rh_reclaw.Service.Messages.{apply_decline, apply_effects, all_non_owners_declined}
use rh_reclaw.Board.Steps.{ParticipantStep, may_turn}
use rh_reclaw.Board.Integrity.{KnownAgent}
use rh_reclaw.Board.Known.{participant_row-set_participant}
use rh_reclaw.Board.Writes.{Sound, Sound-with_audit, Sound-set_participant}
use rh_reclaw.Guarantees.Denials.{Spec-audit}
use rh_reclaw.Guarantees.Closing.{Closed, Leads-close_conversation, state_or}

-- The tables after the effects: the conversation's state is the one the state machine gives, asked
-- with the memberships as they then are; a `decline` has declined its sender, and no other message
-- changes a membership.
pub record Effected (base db : Db) (c : Conversation) (p : Participant) (message_type : String)
    (db' : Db) (c' : Conversation) : Type 0 where
  pub sound : Sound base db'
  pub messages : db'.messages ≡ db.messages
  pub conversation : conversation_row c.id db' ≡ some c'
  pub state :
      c'.state
      ≡ state_or c.state (
          resulting_conversation_state message_type
            (message_type == "decline" && all_non_owners_declined c.id db'))
  pub declined :
      message_type ≡ "decline"
      → (q : Participant) × (participant_row p.conversation_id p.agent_id db' ≡ some q)
        × (q.status ≡ ParticipantStatus.declined)
  pub others : (message_type == "decline") ≡ false → db'.participants ≡ db.participants

abbrev declined_row : Participant → Participant
declined_row p = record p { status = ParticipantStatus.declined }

decline_step :
    (p : Participant) → p.status ≡ ParticipantStatus.active → ParticipantStep p (declined_row p)
decline_step p was = record {
  role = refl;
  invited_by = refl;
  status = subst (λ a. may_turn a ParticipantStatus.declined ≡ true) (sym was) refl;
  last_read_seq = omega arith;
}

-- A message of no closing type leads to no state.
resulting-other :
    (message_type : String)
    → contains message_type ("confirm" ∷ "task_complete" ∷ "task_decline" ∷ "task_cancel" ∷ [])
      ≡ false
    → (message_type == "decline") ≡ false
    → resulting_conversation_state message_type false ≡ none
unfolding resulting_conversation_state
resulting-other message_type h k = ground arith

declined_same :
    (i : ℕ) (a b : Db)
    → a.participants ≡ b.participants
    → all_non_owners_declined i b ≡ all_non_owners_declined i a
unfolding all_non_owners_declined
declined_same i a b h = rw h refl

Effected-of_Closed :
    {base db : Db} (c : Conversation) (p : Participant) (message_type : String)
    → (message_type == "decline") ≡ false
    → (db' : Db) (c' : Conversation)
    → Closed base db c (resulting_conversation_state message_type false) db' c'
    → Effected base db c p message_type db' c'
Effected-of_Closed c p message_type other db' c' closed = record {
  sound = closed.sound;
  messages = closed.messages;
  conversation = closed.row;
  state = rw other (ap (λ (x : Conversation). x.state) closed.change);
  declined = λ e. absurd (false≢true (sym other ∙ (==_iff message_type "decline").1 e));
  others = λ _. closed.participants;
}

module _ {base db : Db} {E : ServiceError → Session → Type 0} (sound : Sound base db)
    (actor_sub : String) (sender : ℕ) (c : Conversation) (p : Participant)
    (known : KnownAgent db sender) (row : conversation_row c.id db ≡ some c)
    (is_active : c.state ≡ ConversationState.active)
    (member : participant_row p.conversation_id p.agent_id db ≡ some p)
    (may_decline : p.status ≡ ParticipantStatus.active) where
  Leads-apply_decline :
      (validated : Dict)
      → Leads base db
          (apply_decline actor_sub sender c p validated)
          (Effected base db c p "decline")
          E
  unfolding apply_decline
  Leads-apply_decline validated = Spec-step (Spec-write _) λ _ _. Spec-audit λ at.
      Spec-check (Checks-query _) λ all_declined e.
        Spec-weaken
          (λ c' s h. (
            h.0,
            h.1,
            record {
              sound = h.2.sound;
              messages = h.2.messages;
              conversation = h.2.row;
              state =
                  ap (λ (x : Conversation). x.state) h.2.change
                  ∙ ap (λ b. state_or c.state (resulting_conversation_state "decline" b))
                      (e ∙ declined_same c.id h.0 _ h.2.participants);
              declined = λ _. (
                declined_row p,
                ap (find_row participant_key (participant_key p)) h.2.participants
                    ∙ participant_row-set_participant db p (declined_row p) member,
                refl,
              );
              others = λ h. absurd (cc h);
            },
          ))
          (Leads-close_conversation
            (Sound-with_audit
              (Sound-set_participant sound p (declined_row p) member (decline_step p may_decline)) _
              known (ap is_some row) tt)
            actor_sub sender c "decline" _ known row is_active)

  pub Leads-apply_effects :
      (message_type : String) (validated : Dict)
      → Leads base db
          (apply_effects actor_sub sender c p message_type validated)
          (Effected base db c p message_type)
          E
  unfolding apply_effects
  Leads-apply_effects message_type validated =
      Spec-if _
        (λ is_decline.
          subst
            (λ t.
              Leads base db (apply_decline actor_sub sender c p validated) (Effected base db c p t)
                E)
            (sym ((==_iff message_type "decline").0 is_decline)) (Leads-apply_decline validated))
        (λ other.
          Spec-if _
            (λ closing.
              Spec-weaken
                (λ c' s h. (h.0, h.1, Effected-of_Closed c p message_type other h.0 c' h.2))
                (Leads-close_conversation sound actor_sub sender c message_type _ known row
                  is_active))
            (λ neutral. Leads-pure c (
              Effected-of_Closed c p message_type other db c (record {
                sound = sound;
                agents = refl;
                participants = refl;
                messages = refl;
                row = row;
                change = rw (resulting-other message_type neutral other) refl;
              }))))
