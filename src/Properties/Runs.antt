-- ===== src/Properties/Runs.antt =====
-- Any sequence of calls, each in a session of its own, served or denied.
use rh_reclaw.Common.{
  ◌≡◌, ◌≢◌, ◌⊎◌, inl, inr, Bool, refl, sym, ◌∙◌, subst, ℕ, String, some, List, true, ==_iff,
}
use rh_reclaw.Models.{
  Conversation, ConversationState, state_eq, Participant, ParticipantStatus, status_eq,
}
use rh_reclaw.Schemas.{Pydantic}
use rh_reclaw.Session.{Session, conversation_row, participant_row}
use rh_reclaw.Service.Ownership.{OwnershipClient}
use rh_reclaw.Service.Requests.{Request, run}
use rh_reclaw.Board.Steps.{may_become, may_turn, Evolves}
use rh_reclaw.Board.Integrity.{IsValid}
use rh_reclaw.Guarantees.Runs.{Sound-run}

kept_state :
    (a b : ConversationState) → may_become a b ≡ true → a ≢ ConversationState.active → b ≡ a
kept_state ConversationState.active b h other = absurd (other refl)
kept_state ConversationState.completed b h other = sym ((==_iff ConversationState.completed b).0 h)
kept_state ConversationState.canceled b h other = sym ((==_iff ConversationState.canceled b).0 h)
kept_state ConversationState.expired b h other = sym ((==_iff ConversationState.expired b).0 h)

kept_left :
    (b : ParticipantStatus) → may_turn ParticipantStatus.left b ≡ true → b ≡ ParticipantStatus.left
kept_left ParticipantStatus.left h = refl
kept_left ParticipantStatus.invited h = cc h
kept_left ParticipantStatus.active h = cc h
kept_left ParticipantStatus.declined h = cc h

kept_declined :
    (b : ParticipantStatus)
    → may_turn ParticipantStatus.declined b ≡ true
    → b ≡ ParticipantStatus.declined
kept_declined ParticipantStatus.declined h = refl
kept_declined ParticipantStatus.invited h = cc h
kept_declined ParticipantStatus.active h = cc h
kept_declined ParticipantStatus.left h = cc h

module _ (px : Pydantic) (client : OwnershipClient) (collation : String → String → Bool)
    (rs : List (ℕ × Request)) (s : Session) (valid : IsValid s.committed) where
  -- From valid tables any sequence of requests leads to valid tables: every foreign key names a row
  -- that is there, an id names one agent, and the messages of each conversation are numbered from 1
  -- without a gap in the order of their posting.
  pub run-IsValid : IsValid (run px client collation rs s).committed
  run-IsValid = (Sound-run px client collation rs s valid).valid

  -- From valid tables any sequence of requests only moves the tables forward: an agent keeps its
  -- subject and owner, a conversation all but its state, a membership its role and inviter, states
  -- and statuses move as their state machines allow, no read cursor goes back, and the messages and
  -- the audit trail are only added to.
  pub run-Evolves : Evolves s.committed (run px client collation rs s).committed
  run-Evolves = (Sound-run px client collation rs s valid).evolves

  -- From valid tables, a conversation that is completed, canceled or expired stays in that state,
  -- with its snapshot of owners, through any sequence of requests.
  pub run-closed :
      (i : ℕ) (c : Conversation)
      → conversation_row i s.committed ≡ some c
      → c.state ≢ ConversationState.active
      → (c' : Conversation) × (conversation_row i (run px client collation rs s).committed
          ≡ some c')
        × (c'.state ≡ c.state)
        × (c'.owner_snapshot ≡ c.owner_snapshot)
  run-closed i c found closed =
      let (c', found', step) = run-Evolves.conversations.at i c found in
      (c', found', kept_state c.state c'.state step.state closed, step.owner_snapshot)

  -- From valid tables, a membership that was left or declined stays so through any sequence of
  -- requests.
  pub run-gone :
      (i a : ℕ) (p : Participant)
      → participant_row i a s.committed ≡ some p
      → (p.status ≡ ParticipantStatus.left) ⊎ (p.status ≡ ParticipantStatus.declined)
      → (q : Participant) × (participant_row i a (run px client collation rs s).committed ≡ some q)
        × (q.status ≡ p.status)
  run-gone i a p found (inl gone) =
      let (q, found', step) = run-Evolves.participants.at (i, a) p found in
      (
        q,
        found',
        kept_left q.status (subst (λ x. may_turn x q.status ≡ true) gone step.status) ∙ sym gone,
      )
  run-gone i a p found (inr gone) =
      let (q, found', step) = run-Evolves.participants.at (i, a) p found in
      (
        q,
        found',
        kept_declined q.status (subst (λ x. may_turn x q.status ≡ true) gone step.status)
            ∙ sym gone,
      )
