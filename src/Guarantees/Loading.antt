-- ===== src/Guarantees/Loading.antt =====
-- The lookups of service.py: what a loaded agent, conversation and membership are in the tables.
use mathlib.Core.Option
use rh_reclaw.Common.{
  ◌≡◌, refl, false, sym, ◌∙◌, ap, subst, ℕ, String, Option, none, some, arith, ◌||◌, ◌⊎◌, ◌≢◌, inl,
  inr, is_some, ◌==◌, eq_of_not_ne, Option-cases, nat_eq, ==_iff,
}
use rh_reclaw.Common.Rows.{key-find_row, find_row}
use rh_reclaw.Models.{
  Db, Agent, Conversation, Participant, AgentStatus, ConversationState, state_eq, status_eq,
  ParticipantStatus, participant_key, pair_eq, agent_status_eq,
}
use rh_reclaw.Exceptions.{ServiceError}
use rh_reclaw.Session.{Session, Exec, pure, ◌>>=◌, agent_row, conversation_row, participant_row}
use rh_reclaw.Session.Triple.{
  Spec, Checks, Checks-weaken, Leads, Spec-check, Spec-then, Spec-step, Spec-write, Checks-query,
  Checks-or_else, Checks-when, Checks-pure, Checks-now, Leads-pure, Fails-Spec, Spec-if,
}
use rh_reclaw.Service.Lookups.{
  find_agent_by_id, find_conversation, find_participant, find_member, fk_safe_agent_id,
  require_active_agent, require_member, expire, maybe_expire, load_participant_for_transition,
  load_participant_for_read,
}
use rh_reclaw.Board.Steps.{ConversationStep}
use rh_reclaw.Board.Integrity.{KnownAgent, KnownConversation, Nullable}
use rh_reclaw.Board.Known.{ParticipantKnown-row, conversation_row-set_conversation}
use rh_reclaw.Board.Writes.{Sound, Sound-with_audit, Sound-set_conversation}
use rh_reclaw.Guarantees.Denials.{Denied, Spec-audit, Fails-deny}

-- A row has the key that it was found by.
pub id-agent_row : (db : Db) (i : ℕ) (a : Agent) → agent_row i db ≡ some a → a.id ≡ i
id-agent_row db i a = key-find_row (λ (x : Agent). x.id) i db.agents a

pub id-conversation_row :
    (db : Db) (i : ℕ) (c : Conversation) → conversation_row i db ≡ some c → c.id ≡ i
id-conversation_row db i c = key-find_row (λ (x : Conversation). x.id) i db.conversations c

pub KnownAgent-id : (db : Db) (i : ℕ) (a : Agent) → agent_row i db ≡ some a → KnownAgent db a.id
KnownAgent-id db i a h = subst (KnownAgent db) (sym (id-agent_row db i a h)) (ap is_some h)

pub KnownConversation-id :
    (db : Db) (i : ℕ) (c : Conversation)
    → conversation_row i db ≡ some c
    → KnownConversation db c.id
KnownConversation-id db i c h =
    subst (KnownConversation db) (sym (id-conversation_row db i c h)) (ap is_some h)

-- The conversation as `maybe_expire` leaves it: its state may have become `expired`.
pub record Touched (base db : Db) (c : Conversation) (db' : Db) (c' : Conversation) : Type 0 where
  pub sound : Sound base db'
  pub agents : db'.agents ≡ db.agents
  pub participants : db'.participants ≡ db.participants
  pub messages : db'.messages ≡ db.messages
  pub row : conversation_row c.id db' ≡ some c'
  pub same_id : c'.id ≡ c.id
  pub untouched : c'.state ≡ ConversationState.active → db' ≡ db
  pub state : (c'.state ≡ c.state) ⊎ (c'.state ≡ ConversationState.expired)

expire_step :
    (c : Conversation)
    → c.state ≡ ConversationState.active
    → ConversationStep c (record c { state = ConversationState.expired })
expire_step c was_active = record {
  type = refl;
  created_by = refl;
  expires_at = refl;
  owner_snapshot = refl;
  created_at = refl;
  state = ground arith;
}

module _ {base db : Db} (sound : Sound base db) (actor_sub : String) where
  pub Checks-require_active_agent :
      (agent_id : ℕ)
      → Checks base db
          (require_active_agent actor_sub agent_id)
          (λ a. (agent_row agent_id db ≡ some a) × (a.status ≡ AgentStatus.active))
          (Denied actor_sub base)
  unfolding require_active_agent find_agent_by_id
  Checks-require_active_agent agent_id = Spec-check (Checks-query _) λ found is_found.
      Spec-check
        (Checks-or_else
          λ missing. Fails-deny sound actor_sub "denied.unknown_agent" none none none tt tt)
        λ a e.
          Spec-check
            (Checks-when λ inactive.
              Fails-deny sound actor_sub "denied.unknown_agent" (some a.id) none none
                (KnownAgent-id db agent_id a (sym is_found ∙ e)) tt)
            λ _ is_active. Checks-pure a (sym is_found ∙ e, eq_of_not_ne _ _ is_active)

  Nullable-fk_safe :
      (agent_id : ℕ)
      → Nullable (KnownAgent db) (Option.map (λ (a : Agent). a.id) (agent_row agent_id db))
  Nullable-fk_safe agent_id = elim (Option-cases (agent_row agent_id db)) [
    | inl missing ↦ rw missing tt
    | inr (a, found) ↦ rw found (KnownAgent-id db agent_id a found)
  ]

  Checks-require_member :
      (agent_id conversation_id : ℕ) (found : Option Conversation) (membership : Option Participant)
      → conversation_row conversation_id db ≡ found
      → Checks base db
          (require_member actor_sub agent_id found membership)
          (λ x. (found ≡ some x.0) × (membership ≡ some x.1))
          (Denied actor_sub base)
  unfolding require_member fk_safe_agent_id
  Checks-require_member agent_id conversation_id (some c) (some p) h =
      Checks-pure (c, p) (refl, refl)
  Checks-require_member agent_id conversation_id (some c) none h =
      Spec-check (Checks-query _) λ safe e. Fails-Spec (
        Fails-deny sound actor_sub "denied.not_member" safe (some c.id) _
          (subst (Nullable (KnownAgent db)) (sym e) (Nullable-fk_safe agent_id))
          (KnownConversation-id db conversation_id c h))
  Checks-require_member agent_id conversation_id none _ h = Spec-check (Checks-query _) λ safe e.
      Fails-Spec (
        Fails-deny sound actor_sub "denied.not_member" safe none _
          (subst (Nullable (KnownAgent db)) (sym e) (Nullable-fk_safe agent_id)) tt)

  module _ {E : ServiceError → Session → Type 0} (c : Conversation)
      (row : conversation_row c.id db ≡ some c) where
    Leads-expire :
        c.state ≡ ConversationState.active
        → Leads base db (expire actor_sub c) (Touched base db c) E
    unfolding expire
    Leads-expire was_active = Spec-step (Spec-write _) λ _ _. Spec-audit λ at.
        Leads-pure _ (record {
          sound =
              Sound-with_audit (Sound-set_conversation sound c _ row (expire_step c was_active)) _
                tt (ap is_some (conversation_row-set_conversation db c _ row)) tt;
          agents = refl;
          participants = refl;
          messages = refl;
          row = conversation_row-set_conversation db c _ row;
          same_id = refl;
          untouched = λ e. cc e;
          state = inr refl;
        })

    pub Leads-maybe_expire : Leads base db (maybe_expire actor_sub c) (Touched base db c) E
    unfolding maybe_expire
    Leads-maybe_expire =
        Spec-if _
          (λ active.
            Spec-check Checks-now
              λ t _. Spec-if _ (λ _. Leads-expire ((==_iff _ _).0 active)) (λ _. untouched))
          (λ _. untouched)
      where
        untouched : Leads base db (pure c) (Touched base db c) E
        untouched = Leads-pure c (record {
          sound = sound;
          agents = refl;
          participants = refl;
          messages = refl;
          row = row;
          same_id = refl;
          untouched = λ _. refl;
          state = inl refl;
        })

-- A loaded membership, in the tables `db` that the loading has led to.
pub record Loaded (base db : Db) (conversation_id agent_id : ℕ) (db' : Db)
    (x : Conversation × Participant) : Type 0 where
  pub sound : Sound base db'
  pub agents : db'.agents ≡ db.agents
  pub participants : db'.participants ≡ db.participants
  pub messages : db'.messages ≡ db.messages
  pub conversation : conversation_row conversation_id db' ≡ some x.0
  pub conversation_same_id : x.0.id ≡ conversation_id
  pub participant : participant_row conversation_id agent_id db' ≡ some x.1
  -- it has not expired: nothing was written
  pub untouched : x.0.state ≡ ConversationState.active → db' ≡ db

not_gone :
    (s : ParticipantStatus)
    → (s == ParticipantStatus.left || s == ParticipantStatus.declined) ≡ false
    → (s ≢ ParticipantStatus.left) × (s ≢ ParticipantStatus.declined)
not_gone s h = ground arith

Loaded-of_Touched :
    {base db db' : Db} {c c' : Conversation} (conversation_id agent_id : ℕ) (p : Participant)
    → conversation_row conversation_id db ≡ some c
    → participant_row conversation_id agent_id db ≡ some p
    → Touched base db c db' c'
    → Loaded base db conversation_id agent_id db' (c', p)
Loaded-of_Touched {db} {db'} {c} {c'} conversation_id agent_id p found member touched =
    let same : c.id ≡ conversation_id = id-conversation_row db conversation_id c found in
    record {
      sound = touched.sound;
      agents = touched.agents;
      participants = touched.participants;
      messages = touched.messages;
      conversation = subst (λ i. conversation_row i db' ≡ some c') same touched.row;
      conversation_same_id = touched.same_id ∙ same;
      participant =
          ap (λ ps. find_row participant_key (conversation_id, agent_id) ps) touched.participants
          ∙ member;
      untouched = touched.untouched;
    }

module _ {base db : Db} (sound : Sound base db) (actor_sub : String)
    (agent_id conversation_id : ℕ) where
  row_again :
      (c : Conversation)
      → conversation_row conversation_id db ≡ some c
      → conversation_row c.id db ≡ some c
  row_again c found =
      subst (λ i. conversation_row i db ≡ some c)
        (sym (id-conversation_row db conversation_id c found)) found

  Checks-find_member :
      (found : Option Conversation)
      → Checks base db
          (find_member found conversation_id agent_id)
          (λ m.
            (c : Conversation) → found ≡ some c → participant_row conversation_id agent_id db ≡ m)
          (Denied actor_sub base)
  unfolding find_member find_participant
  Checks-find_member none = Checks-pure none (λ c e. cc e)
  Checks-find_member (some c) = Checks-weaken (λ m e c' _. sym e) (Checks-query _)

  -- The caller's conversation and membership, before expiry.
  Checks-load_member :
      {A : Type 0} {Q : A → Session → Type 0} (f : Conversation × Participant → Exec A)
      → ((x : Conversation × Participant)
          → conversation_row conversation_id db ≡ some x.0
          → participant_row conversation_id agent_id db ≡ some x.1
          → Spec base db (f x) Q (Denied actor_sub base))
      → Spec base db
          (do
            found ← find_conversation conversation_id
            membership ← find_member found conversation_id agent_id
            x ← require_member actor_sub agent_id found membership
            f x)
          Q
          (Denied actor_sub base)
  unfolding find_conversation
  Checks-load_member f next = Spec-check (Checks-query _) λ found is_found.
      Spec-check (Checks-find_member found) λ membership is_member.
        Spec-check
          (Checks-require_member sound actor_sub agent_id conversation_id found membership
            (sym is_found))
          λ x e. next x (sym is_found ∙ e.0) (is_member x.0 e.0 ∙ e.1)

  pub Leads-load_for_transition :
      (required : ParticipantStatus)
      → Leads base db
          (load_participant_for_transition actor_sub agent_id conversation_id required)
          (λ db' x. Loaded base db conversation_id agent_id db' x × (x.1.status ≡ required))
          (Denied actor_sub base)
  unfolding load_participant_for_transition
  Leads-load_for_transition required = Checks-load_member _ λ x found member.
      Spec-then (Leads-maybe_expire sound actor_sub x.0 (row_again x.0 found)) λ db' c' touched.
        let loaded = Loaded-of_Touched conversation_id agent_id x.1 found member touched in
        let known =
          ParticipantKnown-row loaded.sound.valid conversation_id agent_id x.1 loaded.participant in
        Spec-check
          (Checks-when λ wrong.
            Fails-deny loaded.sound actor_sub _ (some agent_id) (some c'.id) _ known.0
              (subst (KnownConversation db') (sym loaded.conversation_same_id) known.1))
          λ _ right. Leads-pure _ (loaded, eq_of_not_ne _ _ right)

  pub Leads-load_for_read :
      Leads base db
        (load_participant_for_read actor_sub agent_id conversation_id)
        (λ db' x.
          Loaded base db conversation_id agent_id db' x
          × (x.1.status ≢ ParticipantStatus.left)
          × (x.1.status ≢ ParticipantStatus.declined))
        (Denied actor_sub base)
  unfolding load_participant_for_read
  Leads-load_for_read = Checks-load_member _ λ x found member.
      let known = ParticipantKnown-row sound.valid conversation_id agent_id x.1 member in
      Spec-check
        (Checks-when λ gone.
          Fails-deny sound actor_sub _ (some agent_id) (some x.0.id) _ known.0
            (KnownConversation-id db conversation_id x.0 found))
        λ _ right.
          Spec-then (Leads-maybe_expire sound actor_sub x.0 (row_again x.0 found)) λ db' c' touched.
            Leads-pure _ (
              Loaded-of_Touched conversation_id agent_id x.1 found member touched,
              (not_gone x.1.status right).0,
              (not_gone x.1.status right).1,
            )
