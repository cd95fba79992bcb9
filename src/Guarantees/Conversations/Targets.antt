-- ===== src/Guarantees/Conversations/Targets.antt =====
-- resolve_targets and add_targets: the other agents of a new conversation.
use rh_reclaw.Common.{
  ◌≡◌, refl, sym, ◌∙◌, ap, ℕ, String, List, [], ◌∷◌, map, some, none, false, is_some, All, ==-refl,
  eq_of_not_ne,
}
use rh_reclaw.Common.Rows.{
  Persists, Persists-refl, Persists-trans, Persists-cons, none_of_is_some, find_row,
}
use rh_reclaw.Models.{
  Db, Agent, AgentStatus, agent_status_eq, Participant, ParticipantRole, ParticipantStatus,
  participant_key, pair_eq,
}
use rh_reclaw.Session.{agent_row, participant_row, add_participant, with_participant}
use rh_reclaw.Session.Triple.{
  Spec, At, Checks, Leads, Spec-check, Spec-step, Spec-insert, Spec-weaken, Checks-query,
  Checks-or_else, Checks-when, Checks-pure, Leads-pure, Checks-transaction_now,
}
use rh_reclaw.Service.Conversations.{resolve_targets, add_targets}
use rh_reclaw.Board.Integrity.{KnownAgent, KnownConversation}
use rh_reclaw.Board.Writes.{Sound, Sound-with_participant}
use rh_reclaw.Guarantees.Denials.{Denied, Fails-deny}
use rh_reclaw.Guarantees.Loading.{id-agent_row, KnownAgent-id}

-- The targets are the active agents of the given ids.
pub record Resolved (db : Db) (ids : List ℕ) (targets : List Agent) : Type 0 where
  pub ids_eq : map (λ (a : Agent). a.id) targets ≡ ids
  pub known : All (λ (a : Agent). KnownAgent db a.id) targets
  pub active : All (λ (a : Agent). a.status ≡ AgentStatus.active) targets

Resolved-cons :
    {db : Db} {ids : List ℕ} {targets : List Agent} (i : ℕ) (a : Agent)
    → agent_row i db ≡ some a
    → a.status ≡ AgentStatus.active
    → Resolved db ids targets
    → Resolved db (i ∷ ids) (a ∷ targets)
Resolved-cons {db} {ids} {targets} i a found is_active rest = record {
  ids_eq =
      ap (λ j. j ∷ map (λ (a : Agent). a.id) targets) (id-agent_row db i a found)
      ∙ ap (λ l. i ∷ l) rest.ids_eq;
  known = (KnownAgent-id db i a found, rest.known);
  active = (is_active, rest.active);
}

-- A row that invites the agent.
abbrev pub Invited : ℕ → ℕ → Db → Agent → Type 0
Invited conversation_id initiator_id db t =
    (q : Participant) × (participant_row conversation_id t.id db ≡ some q)
    × (q.status ≡ ParticipantStatus.invited)
    × (q.role ≡ ParticipantRole.member)
    × (q.invited_by ≡ some initiator_id)

-- Every row is found unchanged.
abbrev pub Kept : List Participant → List Participant → Type 0
Kept = Persists participant_key (λ p q. q ≡ p)

-- After `add_targets`: each target is invited, and the rows that were there are unchanged.
pub record Added (base db : Db) (conversation_id initiator_id : ℕ) (targets : List Agent) (db' : Db)
    : Type 0 where
  pub sound : Sound base db'
  pub agents : db'.agents ≡ db.agents
  pub conversations : db'.conversations ≡ db.conversations
  pub messages : db'.messages ≡ db.messages
  pub kept : Kept db.participants db'.participants
  pub invited : All (Invited conversation_id initiator_id db') targets

pub newest-Kept :
    (p : Participant) (xs ys : List Participant)
    → Kept (p ∷ xs) ys
    → find_row participant_key (participant_key p) ys ≡ some p
unfolding find_row
newest-Kept p xs ys kept =
    let (q, found, same) = kept.at (participant_key p) p (rw (==-refl (participant_key p)) refl) in
    found ∙ ap some same

pub Kept-with_participant :
    (db : Db) (p : Participant)
    → is_some (participant_row p.conversation_id p.agent_id db) ≡ false
    → Kept db.participants (with_participant p db).participants
Kept-with_participant db p fresh =
    Persists-cons participant_key (λ x. refl) p db.participants (none_of_is_some _ fresh)

Kept-trans : {a b c : List Participant} → Kept a b → Kept b c → Kept a c
Kept-trans h k = Persists-trans participant_key (λ x y z p q. q ∙ p) h k

module _ {base : Db} (actor_sub : String) where
  pub Checks-resolve_targets :
      {db : Db}
      → Sound base db
      → (initiator : Agent) → KnownAgent db initiator.id
      → (ids : List ℕ)
      → Checks base db
          (resolve_targets actor_sub initiator ids)
          (Resolved db ids)
          (Denied actor_sub base)
  unfolding resolve_targets
  Checks-resolve_targets sound initiator known [] =
      Checks-pure [] (record { ids_eq = refl; known = tt; active = tt })
  Checks-resolve_targets {db} sound initiator known (i ∷ ids) =
      Spec-check (Checks-query _) λ found is_found.
        Spec-check
          (Checks-or_else
            λ missing. Fails-deny sound actor_sub _ (some initiator.id) none _ known tt)
          λ target e.
            Spec-check
              (Checks-when
                λ inactive. Fails-deny sound actor_sub _ (some initiator.id) none _ known tt)
              λ _ is_active.
                Spec-check (Checks-resolve_targets sound initiator known ids) λ targets rest.
                  Checks-pure _
                    (Resolved-cons i target (sym is_found ∙ e) (eq_of_not_ne _ _ is_active) rest)

  -- A new membership.
  pub Spec-add_participant :
      {db : Db} (p : Participant)
      → Spec base db
          (add_participant p)
          (λ _ s.
            At base (with_participant p db) s
            × (is_some (participant_row p.conversation_id p.agent_id db) ≡ false))
          (Denied actor_sub base)
  unfolding add_participant
  Spec-add_participant p = Spec-insert _ _ λ s at. at.committed

  pub Leads-add_targets :
      {db : Db}
      → Sound base db
      → (conversation_id initiator_id : ℕ) → KnownAgent db initiator_id
      → KnownConversation db conversation_id
      → (targets : List Agent) → All (λ (a : Agent). KnownAgent db a.id) targets
      → Leads base db
          (add_targets conversation_id initiator_id targets)
          (λ db' _. Added base db conversation_id initiator_id targets db')
          (Denied actor_sub base)
  unfolding add_targets
  Leads-add_targets {db} sound conversation_id initiator_id known_i known_c [] known =
      Leads-pure tt (record {
        sound = sound;
        agents = refl;
        conversations = refl;
        messages = refl;
        kept = Persists-refl participant_key (λ x. refl) db.participants;
        invited = tt;
      })
  Leads-add_targets {db} sound conversation_id initiator_id known_i known_c (t ∷ ts) known =
      Spec-check Checks-transaction_now λ at _. Spec-step (Spec-add_participant _) λ _ fresh.
        Spec-weaken
          (λ _ s h. (
            h.0,
            h.1,
            record {
              sound = h.2.sound;
              agents = h.2.agents;
              conversations = h.2.conversations;
              messages = h.2.messages;
              kept = Kept-trans (Kept-with_participant db _ fresh) h.2.kept;
              invited =
                  ((_, newest-Kept _ db.participants _ h.2.kept, refl, refl, refl), h.2.invited);
            },
          ))
          (Leads-add_targets (Sound-with_participant sound _ fresh known.0 known_c known_i)
            conversation_id initiator_id known_i known_c ts known.1)
