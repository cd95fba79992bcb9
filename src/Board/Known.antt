-- ===== src/Board/Known.antt =====
-- The rows that foreign keys name, and the numbers of the messages, as the tables change.
use Prim.Native.Nat.{max}
use mathlib.Core.Bool.{false≢true}
use rh_reclaw.Common.{
  ◌≡◌, refl, sym, ◌∙◌, ap, subst, ℕ, suc, ◌+◌, Option, none, some, List, [], ◌∷◌, ◌++◌, Bool, true,
  any, is_some, All, ◌==◌, nat_eq, arith, ==_iff, ==-refl, Bool-cases, Option-cases, inl, inr,
}
use rh_reclaw.Common.Rows.{All-map, All-find_row, key-find_row, find_row-update_row}
use rh_reclaw.Models.{
  Agent, Conversation, Participant, Message, AuditLog, Db, participant_key, pair_eq,
}
use rh_reclaw.Session.{
  agent_row, conversation_row, participant_row, set_conversation, set_participant,
}
use rh_reclaw.Service.Messages.{max_seq}
use rh_reclaw.Board.Steps.{Evolves}
use rh_reclaw.Board.Integrity.{
  IsValid, KnownAgent, KnownConversation, KnownMessage, Nullable, seqs, countdown,
}

pub KnownAgent-of_row : (db : Db) (i : ℕ) (a : Agent) → agent_row i db ≡ some a → KnownAgent db i
KnownAgent-of_row db i a h = ap is_some h

pub KnownConversation-of_row :
    (db : Db) (i : ℕ) (c : Conversation) → conversation_row i db ≡ some c → KnownConversation db i
KnownConversation-of_row db i c h = ap is_some h

-- A row that is known stays known.
pub KnownAgent-Evolves : {a b : Db} → Evolves a b → (i : ℕ) → KnownAgent a i → KnownAgent b i
KnownAgent-Evolves {a} h i known = elim (Option-cases (agent_row i a)) [
  | inl missing ↦ cc (known, missing)
  | inr (x, found) ↦ let (y, kept, _) = h.agents.at i x found in ap is_some kept
]

pub KnownConversation-Evolves :
    {a b : Db} → Evolves a b → (i : ℕ) → KnownConversation a i → KnownConversation b i
KnownConversation-Evolves {a} h i known = elim (Option-cases (conversation_row i a)) [
  | inl missing ↦ cc (known, missing)
  | inr (x, found) ↦ let (y, kept, _) = h.conversations.at i x found in ap is_some kept
]

-- What a written row is found as.
pub conversation_row-set_conversation :
    (db : Db) (old v : Conversation)
    → conversation_row v.id db ≡ some old
    → conversation_row v.id (set_conversation v db) ≡ some v
conversation_row-set_conversation db old v h =
    find_row-update_row (λ (x : Conversation). x.id) v v.id db.conversations old h
    ∙ rw (==-refl v.id) refl

pub participant_row-set_participant :
    (db : Db) (old v : Participant)
    → participant_row v.conversation_id v.agent_id db ≡ some old
    → participant_row v.conversation_id v.agent_id (set_participant v db) ≡ some v
participant_row-set_participant db old v h =
    find_row-update_row participant_key v (participant_key v) db.participants old h
    ∙ rw (==-refl (participant_key v)) refl

any-append :
    {A : Type 0} (p : A → Bool) (ys xs : List A) → any p xs ≡ true → any p (ys ++ xs) ≡ true
any-append p [] xs h = h
any-append p (y ∷ ys) xs h = let rest = any-append p ys xs h in ground arith

pub KnownMessage-Evolves : {a b : Db} → Evolves a b → (i : ℕ) → KnownMessage a i → KnownMessage b i
KnownMessage-Evolves {a} h i known =
    subst (λ ms. any (λ (m : Message). m.id == i) ms ≡ true) (sym h.messages.rows)
      (any-append _ h.messages.newer a.messages known)

Nullable-map :
    {P Q : ℕ → Type 0} (o : Option ℕ) → ((i : ℕ) → P i → Q i) → Nullable P o → Nullable Q o
Nullable-map none f h = h
Nullable-map (some i) f h = f i h

-- The foreign keys of the old rows hold in a later state; the new state's own rows are given.
module _ {a b : Db} (h : Evolves a b) (valid : IsValid a) where
  pub conversations-later : All (λ (c : Conversation). KnownAgent b c.created_by) a.conversations
  conversations-later =
      All-map a.conversations (λ c. KnownAgent-Evolves h c.created_by) valid.conversations

  pub participants-later :
      All
        (λ (p : Participant).
          KnownAgent b p.agent_id
          × KnownConversation b p.conversation_id
          × Nullable (KnownAgent b) p.invited_by)
        a.participants
  participants-later =
      All-map a.participants
        (λ p k. (
          KnownAgent-Evolves h p.agent_id k.0,
          KnownConversation-Evolves h p.conversation_id k.1,
          Nullable-map p.invited_by (KnownAgent-Evolves h) k.2,
        ))
        valid.participants

  pub messages-later :
      All
        (λ (m : Message). KnownAgent b m.sender_id × KnownConversation b m.conversation_id)
        a.messages
  messages-later =
      All-map a.messages
        (λ m k.
          (KnownAgent-Evolves h m.sender_id k.0, KnownConversation-Evolves h m.conversation_id k.1))
        valid.messages

  pub audit_log-later :
      All
        (λ (r : AuditLog).
          Nullable (KnownAgent b) r.agent_id
          × Nullable (KnownConversation b) r.conversation_id
          × Nullable (KnownMessage b) r.message_id)
        a.audit_log
  audit_log-later =
      All-map a.audit_log
        (λ r k. (
          Nullable-map r.agent_id (KnownAgent-Evolves h) k.0,
          Nullable-map r.conversation_id (KnownConversation-Evolves h) k.1,
          Nullable-map r.message_id (KnownMessage-Evolves h) k.2,
        ))
        valid.audit_log

abbrev pub ParticipantKnown : Db → Participant → Type 0
ParticipantKnown db p =
    KnownAgent db p.agent_id
    × KnownConversation db p.conversation_id
    × Nullable (KnownAgent db) p.invited_by

-- The key of a membership that is there is known.
pub ParticipantKnown-row :
    {db : Db}
    → IsValid db
    → (conversation_id agent_id : ℕ) (p : Participant)
    → participant_row conversation_id agent_id db ≡ some p
    → KnownAgent db agent_id
      × KnownConversation db conversation_id
      × Nullable (KnownAgent db) p.invited_by
ParticipantKnown-row {db} valid conversation_id agent_id p found =
    subst
      (λ (k : ℕ × ℕ).
        KnownAgent db k.1 × KnownConversation db k.0 × Nullable (KnownAgent db) p.invited_by)
      (key-find_row participant_key (conversation_id, agent_id) db.participants p found)
      (All-find_row participant_key (ParticipantKnown db) (conversation_id, agent_id)
        db.participants p valid.participants found)

-- One more message, with the next number of its conversation.
pub numbered-cons :
    (conversation_id : ℕ) (m : Message) (ms : List Message)
    → seqs conversation_id ms ≡ countdown (max_seq conversation_id ms)
    → m.seq ≡ max_seq m.conversation_id ms + 1
    → seqs conversation_id (m ∷ ms) ≡ countdown (max_seq conversation_id (m ∷ ms))
unfolding max_seq
numbered-cons conversation_id m ms h next =
    elim (Bool-cases (m.conversation_id == conversation_id)) [
      | inl same ↦
          let p : m.seq ≡ max_seq conversation_id ms + 1 =
            subst (λ i. m.seq ≡ max_seq i ms + 1) ((==_iff _ _).0 same) next in
          let q : max m.seq (max_seq conversation_id ms) ≡ suc (max_seq conversation_id ms) =
            omega arith in
          let r : m.seq ≡ suc (max_seq conversation_id ms) = omega arith in rw (same, q) (cc (h, r))
      | inr other ↦ rw other h
    ]

missing_known :
    (db : Db) (j i : ℕ) → j ≡ i → conversation_row i db ≡ none → ¬ KnownConversation db j
missing_known db j i same fresh known =
    false≢true
      (sym (ap is_some (subst (λ k. conversation_row k db ≡ none) (sym same) fresh)) ∙ known)

-- A conversation that is not there has no messages.
pub max_seq_fresh :
    (db : Db) (i : ℕ) (ms : List Message)
    → conversation_row i db ≡ none
    → All (λ (m : Message). KnownAgent db m.sender_id × KnownConversation db m.conversation_id) ms
    → max_seq i ms ≡ 0
unfolding max_seq
max_seq_fresh db i [] fresh h = refl
max_seq_fresh db i (m ∷ ms) fresh h = elim (Bool-cases (m.conversation_id == i)) [
  | inl same ↦ absurd (missing_known db m.conversation_id i ((==_iff _ _).0 same) fresh h.0.1)
  | inr other ↦ rw other (max_seq_fresh db i ms fresh h.1)
]
