-- ===== src/Guarantees/Membership.antt =====
-- accept_invite, decline_invite and leave: each moves one membership along its state machine.
use rh_reclaw.Common.{◌≡◌, refl, sym, ◌∙◌, ap, subst, ℕ, String, Option, none, some, true, arith}
use rh_reclaw.Common.Rows.{key-find_row, find_row}
use rh_reclaw.Models.{
  Db, Conversation, state_eq, Participant, ParticipantStatus, participant_key, pair_eq,
}
use rh_reclaw.Session.{pure, ◌>>◌, commit, write, participant_row, set_participant}
use rh_reclaw.Session.Triple.{
  Spec, Spec-check, Spec-then, Spec-step, Spec-write, Spec-commit-pure, Checks-when, Checks-now,
}
use rh_reclaw.Service.Denials.{audit}
use rh_reclaw.Service.Membership.{accept_invite, decline_invite, leave}
use rh_reclaw.Board.Steps.{ParticipantStep, may_turn}
use rh_reclaw.Board.Integrity.{KnownConversation}
use rh_reclaw.Board.Known.{ParticipantKnown-row, participant_row-set_participant}
use rh_reclaw.Board.Writes.{Sound, Sound-with_audit, Sound-set_participant}
use rh_reclaw.Guarantees.Denials.{Denied, Recorded, Spec-audit, Fails-deny}
use rh_reclaw.Guarantees.Loading.{Loaded, Leads-load_for_transition}

-- The membership of the agent went from one status to another, and the trail says by what.
pub record Moved (actor_sub action : String) (base : Db) (conversation_id agent_id : ℕ)
    (from to : ParticipantStatus) (db : Db) : Type 0 where
  pub sound : Sound base db
  pub before :
      (p : Participant) × (participant_row conversation_id agent_id base ≡ some p)
      × (p.status ≡ from)
  pub after :
      (p : Participant) × (participant_row conversation_id agent_id db ≡ some p) × (p.status ≡ to)
  pub recorded : Recorded actor_sub action db

-- A loaded membership is found by its own key, which is the one that it was asked for by.
pub key-Loaded :
    {base db db' : Db} {conversation_id agent_id : ℕ} {x : Conversation × Participant}
    → Loaded base db conversation_id agent_id db' x
    → participant_key x.1 ≡ (conversation_id, agent_id)
key-Loaded {db'} {conversation_id} {agent_id} {x} loaded =
    key-find_row participant_key (conversation_id, agent_id) db'.participants x.1 loaded.participant

module _ {base db : Db} {conversation_id agent_id : ℕ} {x : Conversation × Participant}
    (loaded : Loaded base base conversation_id agent_id db x) (actor_sub action : String)
    (from to : ParticipantStatus) (joined_at : Option ℕ) (was : x.1.status ≡ from)
    (allowed : may_turn from to ≡ true) where
  abbrev moved : Participant
  moved = record x.1 { status = to; joined_at = joined_at }

  moved_step : ParticipantStep x.1 moved
  moved_step = record {
    role = refl;
    invited_by = refl;
    status = subst (λ a. may_turn a to ≡ true) (sym was) allowed;
    last_read_seq = omega arith;
  }

  by_key : participant_row x.1.conversation_id x.1.agent_id db ≡ some x.1
  by_key =
      subst (λ (k : ℕ × ℕ). find_row participant_key k db.participants ≡ some x.1)
        (sym (key-Loaded loaded)) loaded.participant

  -- What comes after the checks: the row is written, audited and committed.
  pub Spec-move :
      {A : Type 0} (a : A)
      → Spec base db
          (do
            write (set_participant moved)
            audit actor_sub action (some agent_id) (some x.0.id) none none
            commit
            pure a)
          (λ _ s. Moved actor_sub action base conversation_id agent_id from to s.committed)
          (Denied actor_sub base)
  Spec-move a =
      let known =
        ParticipantKnown-row loaded.sound.valid conversation_id agent_id x.1 loaded.participant in
      Spec-step (Spec-write _) λ _ _. Spec-audit λ at. Spec-commit-pure _ λ s saved.
        subst (Moved actor_sub action base conversation_id agent_id from to) (sym saved) (record {
          sound =
              Sound-with_audit (Sound-set_participant loaded.sound x.1 moved by_key moved_step) _
                known.0 (subst (KnownConversation db) (sym loaded.conversation_same_id) known.1) tt;
          before = (
            x.1,
            ap (find_row participant_key (conversation_id, agent_id)) (sym loaded.participants)
                ∙ loaded.participant,
            was,
          );
          after = (
            moved,
            subst
                (λ (k : ℕ × ℕ).
                  find_row participant_key k (set_participant moved db).participants ≡ some moved)
                (key-Loaded loaded) (participant_row-set_participant db x.1 moved by_key),
            refl,
          );
          recorded = record {
            newest = _;
            older = db.audit_log;
            trail = refl;
            actor_sub_eq = refl;
            action_eq = refl;
          };
        })

module _ {base : Db} (sound : Sound base base) (actor_sub : String)
    (agent_id conversation_id : ℕ) where
  pub Spec-accept_invite :
      Spec base base
        (accept_invite actor_sub agent_id conversation_id)
        (λ p s.
          Moved actor_sub "participant.accept" base conversation_id agent_id
            ParticipantStatus.invited ParticipantStatus.active s.committed)
        (Denied actor_sub base)
  unfolding accept_invite
  Spec-accept_invite =
      Spec-then
        (Leads-load_for_transition sound actor_sub agent_id conversation_id
          ParticipantStatus.invited)
        λ db x h.
          let known =
            ParticipantKnown-row h.0.sound.valid conversation_id agent_id x.1 h.0.participant in
          Spec-check
            (Checks-when λ closed.
              Fails-deny h.0.sound actor_sub _ (some agent_id) (some x.0.id) none known.0
                (subst (KnownConversation db) (sym h.0.conversation_same_id) known.1))
            λ _ still_open.
              Spec-check Checks-now
                λ t _. Spec-move h.0 actor_sub "participant.accept" _ _ (some t) h.1 refl _

  pub Spec-decline_invite :
      Spec base base
        (decline_invite actor_sub agent_id conversation_id)
        (λ _ s.
          Moved actor_sub "participant.decline_invite" base conversation_id agent_id
            ParticipantStatus.invited ParticipantStatus.declined s.committed)
        (Denied actor_sub base)
  unfolding decline_invite
  Spec-decline_invite =
      Spec-then
        (Leads-load_for_transition sound actor_sub agent_id conversation_id
          ParticipantStatus.invited)
        λ db x h. Spec-move h.0 actor_sub "participant.decline_invite" _ _ x.1.joined_at h.1 refl tt

  pub Spec-leave :
      Spec base base
        (leave actor_sub agent_id conversation_id)
        (λ _ s.
          Moved actor_sub "participant.leave" base conversation_id agent_id ParticipantStatus.active
            ParticipantStatus.left s.committed)
        (Denied actor_sub base)
  unfolding leave
  Spec-leave =
      Spec-then
        (Leads-load_for_transition sound actor_sub agent_id conversation_id
          ParticipantStatus.active)
        λ db x h. Spec-move h.0 actor_sub "participant.leave" _ _ x.1.joined_at h.1 refl tt
