-- ===== src/Board/Integrity.antt =====
-- What every state of the tables satisfies: the foreign keys, and the numbering of the messages.
use rh_reclaw.Common.{
  ◌≡◌, ℕ, zero, suc, Option, none, some, List, [], ◌∷◌, true, any, is_some, All, ◌==◌, nat_eq,
  if◌then◌else◌,
}
use rh_reclaw.Models.{Agent, Conversation, Participant, Message, AuditLog, Db}
use rh_reclaw.Session.{agent_row, conversation_row}
use rh_reclaw.Service.Messages.{max_seq}

-- The row that a foreign key names exists.
abbrev pub KnownAgent : Db → ℕ → Type 0
KnownAgent db i = is_some (agent_row i db) ≡ true

abbrev pub KnownConversation : Db → ℕ → Type 0
KnownConversation db i = is_some (conversation_row i db) ≡ true

abbrev pub KnownMessage : Db → ℕ → Type 0
KnownMessage db i = any (λ (m : Message). m.id == i) db.messages ≡ true

-- The same where the column may be null.
abbrev pub Nullable : (ℕ → Type 0) → Option ℕ → Type 0
Nullable P none = Unit
Nullable P (some i) = P i

-- The numbers of a conversation's messages, newest first.
abbrev pub seqs : ℕ → List Message → List ℕ
seqs conversation_id [] = []
seqs conversation_id (m ∷ ms) =
    let rest = seqs conversation_id ms in
    if m.conversation_id == conversation_id then m.seq ∷ rest else rest

-- n, n - 1, ..., 1
abbrev pub countdown : ℕ → List ℕ
countdown zero = []
countdown (suc n) = suc n ∷ countdown n

pub record IsValid (db : Db) : Type 0 where
  -- an id names one agent
  pub agents : All (λ (a : Agent). agent_row a.id db ≡ some a) db.agents
  pub conversations : All (λ (c : Conversation). KnownAgent db c.created_by) db.conversations
  pub participants :
      All
        (λ (p : Participant).
          KnownAgent db p.agent_id
          × KnownConversation db p.conversation_id
          × Nullable (KnownAgent db) p.invited_by)
        db.participants
  pub messages :
      All
        (λ (m : Message). KnownAgent db m.sender_id × KnownConversation db m.conversation_id)
        db.messages
  pub audit_log :
      All
        (λ (r : AuditLog).
          Nullable (KnownAgent db) r.agent_id
          × Nullable (KnownConversation db) r.conversation_id
          × Nullable (KnownMessage db) r.message_id)
        db.audit_log
  -- each conversation's messages are numbered from 1 without a gap, in the order of their posting
  pub numbered :
      (conversation_id : ℕ)
      → seqs conversation_id db.messages ≡ countdown (max_seq conversation_id db.messages)
