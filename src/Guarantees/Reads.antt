-- ===== src/Guarantees/Reads.antt =====
-- get_conversation: who is shown a conversation, and what a read does to the cursor.
use mathlib.Core.Bool.{false≢true}
use rh_reclaw.Common.{
  ◌≡◌, ◌≢◌, refl, sym, ◌∙◌, ap, subst, ℕ, ◌≤◌, String, List, [], ◌∷◌, some, Bool, All, ltb, ◌==◌,
  nat_eq, arith, ==_iff, Bool-cases, inl, inr, if◌then◌else◌,
}
use rh_reclaw.Common.Rows.{find_row}
use rh_reclaw.Models.{
  Db, Conversation, ConversationState, state_eq, Participant, ParticipantStatus, status_eq,
  participant_key, pair_eq,
}
use rh_reclaw.Exceptions.{ServiceError}
use rh_reclaw.Session.{Session, participant_row, set_participant}
use rh_reclaw.Session.Triple.{
  Spec, Checks, Spec-check, Spec-then, Spec-step, Spec-commit, Spec-if, Spec-pure, Checks-query,
  Checks-now, Checks-pure, Spec-write,
}
use rh_reclaw.Service.Reads.{
  ParticipantView, MessageView, Reading, conversation_dict, messages_since, last_seq,
  read_as_invited, read_as_member, get_conversation,
}
use rh_reclaw.Guarantees.Shown.{ShowsAll, messages_since-ShowsAll}
use rh_reclaw.Board.Integrity.{IsValid}
use rh_reclaw.Board.Steps.{ParticipantStep, may_turn_refl}
use rh_reclaw.Board.Known.{participant_row-set_participant}
use rh_reclaw.Board.Writes.{Sound, Sound-set_participant}
use rh_reclaw.Guarantees.Denials.{Denied}
use rh_reclaw.Guarantees.Loading.{Loaded, Leads-load_for_read}
use rh_reclaw.Guarantees.Membership.{key-Loaded}

-- A read by the agent, with the tables before and after.
pub record Read (base : Db) (agent_id conversation_id since : ℕ) (r : Reading) (after : Db)
    : Type 0 where
  pub sound : Sound base after
  pub messages_kept : after.messages ≡ base.messages
  pub member : Participant
  pub member_found : participant_row conversation_id agent_id base ≡ some member
  pub invited : member.status ≡ ParticipantStatus.invited → r.messages ≡ []
  pub active :
      member.status ≢ ParticipantStatus.invited
      → (member.status ≡ ParticipantStatus.active)
        × ShowsAll base conversation_id since r.messages
        × (p : Participant) × (participant_row conversation_id agent_id after ≡ some p)
        × (p.status ≡ ParticipantStatus.active)
        × (member.last_read_seq ≤ p.last_read_seq)
        × (All (λ (v : MessageView). v.message.seq ≤ p.last_read_seq) r.messages)

active_of :
    (s : ParticipantStatus)
    → s ≢ ParticipantStatus.left
    → s ≢ ParticipantStatus.declined
    → s ≢ ParticipantStatus.invited
    → s ≡ ParticipantStatus.active
active_of ParticipantStatus.active h k l = refl
active_of ParticipantStatus.left h k l = absurd (h refl)
active_of ParticipantStatus.declined h k l = absurd (k refl)
active_of ParticipantStatus.invited h k l = absurd (l refl)

-- `last_seq` bounds the numbers of the rows.
last_seq-bound :
    (n : ℕ) (vs : List MessageView)
    → last_seq vs ≤ n
    → All (λ (v : MessageView). v.message.seq ≤ n) vs
unfolding last_seq
last_seq-bound n [] h = tt
last_seq-bound n (v ∷ vs) h = elim (Bool-cases (ltb (last_seq vs) v.message.seq)) [
  | inl e ↦ let k = rw e at h in (k, last_seq-bound n vs (ground arith))
  | inr e ↦ let k = rw e at h in (ground arith, last_seq-bound n vs k)
]

messages_since-same :
    (conversation_id since : ℕ) (a b : Db)
    → a.messages ≡ b.messages
    → a.agents ≡ b.agents
    → messages_since conversation_id since a ≡ messages_since conversation_id since b
unfolding messages_since
messages_since-same conversation_id since a b h k = rw (h, k) refl

abbrev cursor_after : Participant → List MessageView → ℕ
cursor_after p rows = if ltb p.last_read_seq (last_seq rows) then last_seq rows else p.last_read_seq

cursor_grows :
    (p : Participant) (rows : List MessageView)
    → (p.last_read_seq ≤ cursor_after p rows) × (last_seq rows ≤ cursor_after p rows)
cursor_grows p rows = ground arith

found_before :
    {base db : Db} {conversation_id agent_id : ℕ} {x : Conversation × Participant}
    → Loaded base base conversation_id agent_id db x
    → participant_row conversation_id agent_id base ≡ some x.1
found_before {conversation_id} {agent_id} loaded =
    ap (find_row participant_key (conversation_id, agent_id)) (sym loaded.participants)
    ∙ loaded.participant

module _ {base db : Db} (base_valid : IsValid base) (sound : Sound base db)
    {agent_id conversation_id : ℕ} {x : Conversation × Participant}
    (loaded : Loaded base base conversation_id agent_id db x) (people : List ParticipantView)
    {E : ServiceError → Session → Type 0} where
  Checks-conversation_dict : (d : Db) → Checks d d (conversation_dict x.0) (λ _. Unit) E
  unfolding conversation_dict
  Checks-conversation_dict d =
      Spec-if (x.0.state == ConversationState.active)
        (λ _. Spec-check Checks-now λ t _. Checks-pure _ tt) (λ _. Checks-pure _ tt)

  Spec-read_as_invited :
      (since : ℕ)
      → x.1.status ≡ ParticipantStatus.invited
      → Spec base db
          (read_as_invited x.0 x.1 people)
          (λ r s. Read base agent_id conversation_id since r s.committed)
          E
  unfolding read_as_invited
  Spec-read_as_invited since was = Spec-commit (
      Spec-check (Checks-conversation_dict db) λ shown _. Spec-pure _ λ s at.
        subst (Read base agent_id conversation_id since _) (sym at.committed) (record {
          sound = sound;
          messages_kept = loaded.messages;
          member = x.1;
          member_found = found_before loaded;
          invited = λ _. refl;
          active = λ other. absurd (other was);
        }))

  Spec-read_as_member :
      (since : ℕ)
      → x.1.status ≢ ParticipantStatus.invited
      → x.1.status ≡ ParticipantStatus.active
      → Spec base db
          (read_as_member x.0 x.1 people since)
          (λ r s. Read base agent_id conversation_id since r s.committed)
          E
  unfolding read_as_member
  Spec-read_as_member since other is_active = Spec-check (Checks-query _) λ rows is_rows.
      let grows = cursor_grows x.1 rows in
      let rows_eq : rows ≡ messages_since conversation_id since base =
        is_rows
        ∙ ap (λ i. messages_since i since db) loaded.conversation_same_id
        ∙ messages_since-same conversation_id since db base loaded.messages loaded.agents in
      let by_key : participant_row x.1.conversation_id x.1.agent_id db ≡ some x.1 =
        subst (λ (k : ℕ × ℕ). find_row participant_key k db.participants ≡ some x.1)
          (sym (key-Loaded loaded)) loaded.participant in
      let step : ParticipantStep x.1 (record x.1 { last_read_seq = cursor_after x.1 rows }) =
        record {
          role = refl;
          invited_by = refl;
          status = may_turn_refl x.1.status;
          last_read_seq = grows.0;
        } in
      Spec-step (Spec-write _) λ _ _. Spec-commit (
        Spec-check (Checks-conversation_dict _) λ shown _. Spec-pure _ λ s at.
          subst (Read base agent_id conversation_id since _) (sym at.committed) (record {
            sound = Sound-set_participant sound x.1 _ by_key step;
            messages_kept = loaded.messages;
            member = x.1;
            member_found = found_before loaded;
            invited = λ e. absurd (other e);
            active = λ _. (
              is_active,
              subst (ShowsAll base conversation_id since) (sym rows_eq)
                  (messages_since-ShowsAll base conversation_id since base_valid),
              record x.1 { last_read_seq = cursor_after x.1 rows },
              subst
                  (λ (k : ℕ × ℕ).
                    find_row participant_key k
                      (set_participant (record x.1 { last_read_seq = cursor_after x.1 rows })
                        db).participants
                    ≡ some (record x.1 { last_read_seq = cursor_after x.1 rows }))
                  (key-Loaded loaded) (participant_row-set_participant db x.1 _ by_key),
              is_active,
              grows.0,
              last_seq-bound _ rows grows.1,
            );
          }))

module _ {base : Db} (sound : Sound base base) (collation : String → String → Bool)
    (actor_sub : String) (agent_id conversation_id since : ℕ) where
  pub Spec-get_conversation :
      Spec base base
        (get_conversation collation actor_sub agent_id conversation_id since)
        (λ r s. Read base agent_id conversation_id since r s.committed)
        (Denied actor_sub base)
  unfolding get_conversation
  Spec-get_conversation =
      Spec-then (Leads-load_for_read sound actor_sub agent_id conversation_id) λ db x h.
        Spec-check (Checks-query _) λ people _.
          Spec-if (x.1.status == ParticipantStatus.invited)
            (λ e.
              Spec-read_as_invited sound.valid h.0.sound h.0 people since
                ((==_iff x.1.status ParticipantStatus.invited).0 e))
            (λ e.
              let other : x.1.status ≢ ParticipantStatus.invited =
                λ p. false≢true (sym e ∙ (==_iff x.1.status ParticipantStatus.invited).1 p) in
              Spec-read_as_member sound.valid h.0.sound h.0 people since other
                (active_of x.1.status h.1 h.2 other))
