-- ===== src/Guarantees/Inbox.antt =====
-- What inbox shows.
use mathlib.Core.Option.{some-injective}
use rh_reclaw.Common.{
  ◌≡◌, refl, sym, ap, subst, ◌∙◌, inl, inr, ℕ, zero, suc, ◌+◌, ◌-◌, ◌<◌, Option, some, List, [],
  ◌∷◌, true, ◌&&◌, length, All, arith, Bool-cases, and_true, ◌==◌, ==_iff, nat_eq, ltb, is_some,
  Option-cases,
}
use rh_reclaw.Common.Rows.{select, find_row, key-find_row, All-find_row}
use rh_reclaw.Common.Text.{sort_by-All}
use rh_reclaw.Common.Pages.{collect}
use rh_reclaw.Models.{
  Db, Agent, Conversation, Participant, ParticipantStatus, status_eq, Message, pair_eq,
}
use rh_reclaw.Exceptions.{ServiceError}
use rh_reclaw.Session.{Session, agent_row, conversation_row}
use rh_reclaw.Session.Triple.{Checks, Spec-check, Checks-query, Checks-pure}
use rh_reclaw.Service.Messages.{max_seq}
use rh_reclaw.Service.Reads.{ConversationView, MessageView}
use rh_reclaw.Service.Inbox.{
  UnreadRow, UnreadView, InviteView, Inbox, unread_count, unread_group, joined_membership,
  memberships, unread_rows, message_key, latest_message, require_latest, unread_views, invite_views,
  pending_rows, inbox,
}
use rh_reclaw.Board.Integrity.{seqs, countdown, IsValid}
use rh_reclaw.Guarantees.Pages.{Checks-conversation_dict}

-- The highest number of a conversation is the number of a message.
newest_row :
    (c n : ℕ) (ms : List Message)
    → max_seq c ms ≡ suc n
    → is_some (find_row message_key (c, suc n) ms) ≡ true
unfolding max_seq find_row
newest_row c n [] h = absurd (ground arith)
newest_row c n (m ∷ ms) h = ground (arith, ==_iff (message_key m) (c, suc n), newest_row c n ms)

-- The messages above `last`, by their numbers.
length-select :
    (c last : ℕ) (ms : List Message)
    → length (select (λ (m : Message). m.conversation_id == c && ltb last m.seq) ms)
      ≡ length (select (ltb last) (seqs c ms))
length-select c last [] = refl
length-select c last (m ∷ ms) = ground (arith, length-select c last ms)

length-countdown : (last n : ℕ) → length (select (ltb last) (countdown n)) ≡ n - last
length-countdown last zero = ground arith
length-countdown last (suc n) = ground (arith, length-countdown last n)

unread_count_lem :
    (db : Db) (c last : ℕ) → IsValid db → unread_count c last db ≡ max_seq c db.messages - last
unfolding unread_count
unread_count_lem db c last valid =
    length-select c last db.messages
    ∙ ap (λ l. length (select (ltb last) l)) (valid.numbered c)
    ∙ length-countdown last (max_seq c db.messages)

collect-All :
    {A B : Type 0} (f : A → Option B) (Q : A → Type 0) (P : B → Type 0) (xs : List A)
    → ((x : A) → Q x → (y : B) → f x ≡ some y → P y)
    → All Q xs
    → All P (collect f xs)
collect-All f Q P [] h q = tt
collect-All f Q P (x ∷ xs) h q = elim (Option-cases (f x)) [
  | inl e ↦ rw e (collect-All f Q P xs h q.1)
  | inr (y, e) ↦ rw e (h x q.0 y e, collect-All f Q P xs h q.1)
]

All-any : {A : Type 0} (xs : List A) → All {0, 0} (λ _. Unit) xs
All-any [] = tt
All-any (x ∷ xs) = (tt, All-any xs)

-- A membership of the caller with its conversation.
pub record Member (db : Db) (caller : ℕ) (status : ParticipantStatus)
    (x : Conversation × Participant) : Type 0 where
  pub agent : x.1.agent_id ≡ caller
  pub has_status : x.1.status ≡ status
  pub row : conversation_row x.1.conversation_id db ≡ some x.0

joined_membership-Member :
    (db : Db) (caller : ℕ) (status : ParticipantStatus) (p : Participant)
    (x : Conversation × Participant)
    → joined_membership caller status db p ≡ some x
    → Member db caller status x
unfolding joined_membership
joined_membership-Member db caller status p x h =
    elim (Bool-cases (p.agent_id == caller && p.status == status)) [
      | inr e ↦ absurd (cc (rw e at h))
      | inl e ↦ elim (Option-cases (conversation_row p.conversation_id db)) [
        | inl missing ↦ absurd (cc (rw (e, missing) at h))
        | inr (c, found) ↦
            let (mine, in_status) = and_true (p.agent_id == caller) (p.status == status) e in
            subst (Member db caller status) (some-injective (c, p) x (rw (e, found) at h)) (record {
              agent = (==_iff p.agent_id caller).0 mine;
              has_status = (==_iff p.status status).0 in_status;
              row = found;
            })
      ]
    ]

memberships-Member :
    (db : Db) (caller : ℕ) (status : ParticipantStatus)
    → All (Member db caller status) (memberships caller status db)
unfolding memberships
memberships-Member db caller status =
    collect-All (joined_membership caller status db) (λ _. Unit) (Member db caller status)
      db.participants (λ p _ x h. joined_membership-Member db caller status p x h)
      (All-any db.participants)

-- A conversation in which the caller is active, with messages after the read cursor.
pub record Unread (db : Db) (caller : ℕ) (c : Conversation) (last highest count : ℕ) : Type 0 where
  pub membership : Participant
  pub member : Member db caller ParticipantStatus.active (c, membership)
  pub last_read : last ≡ membership.last_read_seq
  pub highest_eq : highest ≡ max_seq c.id db.messages
  pub unread : last < highest
  pub counted : count ≡ highest - last

abbrev UnreadAt : Db → ℕ → UnreadRow → Type 0
UnreadAt db caller r = Unread db caller r.conversation r.last_read_seq r.max_seq r.unread

unread_group-Unread :
    (db : Db) (caller : ℕ)
    → IsValid db
    → (x : Conversation × Participant) → Member db caller ParticipantStatus.active x
    → (r : UnreadRow) → unread_group db x.1 x.0 ≡ some r
    → UnreadAt db caller r
unfolding unread_group
unread_group-Unread db caller valid (c, p) member r h =
    elim (Bool-cases (ltb p.last_read_seq (max_seq c.id db.messages))) [
      | inr e ↦ absurd (cc (rw e at h))
      | inl e ↦ subst (UnreadAt db caller) (some-injective _ r (rw e at h)) (record {
        membership = p;
        member = member;
        last_read = refl;
        highest_eq = refl;
        unread = ground arith;
        counted = unread_count_lem db c.id p.last_read_seq valid;
      })
    ]

unread_rows-Unread :
    (db : Db) (caller : ℕ) → IsValid db → All (UnreadAt db caller) (unread_rows caller db)
unfolding unread_rows
unread_rows-Unread db caller valid = sort_by-All _ (UnreadAt db caller) _ (
    collect-All (λ x. unread_group db x.1 x.0) (Member db caller ParticipantStatus.active)
      (UnreadAt db caller) (memberships caller ParticipantStatus.active db)
      (unread_group-Unread db caller valid) (memberships-Member db caller ParticipantStatus.active))

-- The last message of the conversation, with its sender's subject.
pub record Latest (db : Db) (c n : ℕ) (v : MessageView) : Type 0 where
  pub of_conversation : v.message.conversation_id ≡ c
  pub is_last : v.message.seq ≡ n
  pub sender : Agent
  pub sender_found : agent_row v.message.sender_id db ≡ some sender
  pub sender_sub : v.sender_sub ≡ sender.sub

latest_message-Latest :
    (db : Db) (c n : ℕ)
    → IsValid db
    → max_seq c db.messages ≡ suc n
    → (v : MessageView) × (latest_message c (suc n) db ≡ some v) × Latest db c (suc n) v
unfolding latest_message
latest_message-Latest db c n valid highest =
    elim (Option-cases (find_row message_key (c, suc n) db.messages)) [
      | inl missing ↦ absurd (cc (newest_row c n db.messages highest, missing))
      | inr (m, found) ↦ elim (Option-cases (agent_row m.sender_id db)) [
        | inl missing ↦ absurd (
            cc (
              missing,
              (All-find_row message_key _ (c, suc n) db.messages m valid.messages found).0,
            ))
        | inr (a, sender) ↦
            let key = key-find_row message_key (c, suc n) db.messages m found in
            rw (found, sender)
              (
                record { message = m; sender_sub = a.sub },
                refl,
                record {
                  of_conversation = ap (λ k. k.0) key;
                  is_last = ap (λ k. k.1) key;
                  sender = a;
                  sender_found = sender;
                  sender_sub = refl;
                },
              )
      ]
    ]

-- An entry of the list of unread conversations.
pub record UnreadEntry (db : Db) (caller : ℕ) (v : UnreadView) : Type 0 where
  pub unread :
      Unread db caller v.conversation.conversation v.last_read_seq v.latest_message.message.seq
        v.unread_count
  pub latest :
      Latest db v.conversation.conversation.id v.latest_message.message.seq v.latest_message

-- An entry of the list of pending invites.
pub record InviteEntry (db : Db) (caller : ℕ) (v : InviteView) : Type 0 where
  pub membership : Participant
  pub member : Member db caller ParticipantStatus.invited (v.conversation.conversation, membership)
  pub invited_by : v.invited_by ≡ membership.invited_by

-- What the caller is shown.
pub record InboxOf (db : Db) (caller : ℕ) (b : Inbox) : Type 0 where
  pub unread : All (UnreadEntry db caller) b.unread
  pub pending : All (InviteEntry db caller) b.pending_invites
  pub total : b.total_count ≡ length b.unread + length b.pending_invites

abbrev pub Never : ServiceError → Session → Type 0
Never e s = ⊥

positive : (last highest : ℕ) → last < highest → (n : ℕ) × (highest ≡ suc n)
positive last zero h = absurd (ground arith)
positive last (suc n) h = (n, refl)

module _ (base db : Db) (caller : ℕ) (valid : IsValid db) where
  entry :
      (r : UnreadRow) (shown : ConversationView) (m : MessageView)
      → UnreadAt db caller r
      → shown.conversation ≡ r.conversation
      → Latest db r.conversation.id r.max_seq m
      → UnreadEntry db caller (record {
        conversation = shown;
        unread_count = r.unread;
        last_read_seq = r.last_read_seq;
        latest_message = m;
      })
  entry r shown m unread same latest = record {
    unread =
        subst (λ n. Unread db caller shown.conversation r.last_read_seq n r.unread)
          (sym latest.is_last)
          (subst (λ c. Unread db caller c r.last_read_seq r.max_seq r.unread) (sym same) unread);
    latest =
        subst (λ n. Latest db shown.conversation.id n m) (sym latest.is_last)
          (subst (λ (c : Conversation). Latest db c.id r.max_seq m) (sym same) latest);
  }

  Checks-Latest :
      (r : UnreadRow) (found : Option MessageView)
      → UnreadAt db caller r
      → found ≡ latest_message r.conversation.id r.max_seq db
      → Checks base db (require_latest found) (Latest db r.conversation.id r.max_seq) Never
  unfolding require_latest
  Checks-Latest r found unread read =
      let (n, highest) = positive r.last_read_seq r.max_seq unread.unread in
      let (v, at, latest) =
        latest_message-Latest db r.conversation.id n valid (sym unread.highest_eq ∙ highest) in
      let is_v : found ≡ some v =
        read ∙ ap (λ k. latest_message r.conversation.id k db) highest ∙ at in
      subst (λ o. Checks base db (require_latest o) (Latest db r.conversation.id r.max_seq) Never)
        (sym is_v)
        (Checks-pure v (subst (λ k. Latest db r.conversation.id k v) (sym highest) latest))

  Checks-unread_views :
      (rows : List UnreadRow)
      → All (UnreadAt db caller) rows
      → Checks base db (unread_views rows) (All (UnreadEntry db caller)) Never
  unfolding unread_views
  Checks-unread_views [] h = Checks-pure [] tt
  Checks-unread_views (r ∷ rs) h = Spec-check (Checks-query _) λ found read.
      Spec-check (Checks-Latest r found h.0 read) λ m latest.
        Spec-check (Checks-conversation_dict base db Never r.conversation) λ shown same.
          Spec-check (Checks-unread_views rs h.1)
            λ vs rest. Checks-pure _ (entry r shown m h.0 same latest, rest)

  Checks-invite_views :
      (rows : List (Conversation × Participant))
      → All (Member db caller ParticipantStatus.invited) rows
      → Checks base db (invite_views rows) (All (InviteEntry db caller)) Never
  unfolding invite_views
  Checks-invite_views [] h = Checks-pure [] tt
  Checks-invite_views ((c, p) ∷ rows) h =
      Spec-check (Checks-conversation_dict base db Never c) λ shown same.
        Spec-check (Checks-invite_views rows h.1) λ vs rest. Checks-pure _ (
          record {
            membership = p;
            member = subst (λ d. Member db caller ParticipantStatus.invited (d, p)) (sym same) h.0;
            invited_by = refl;
          },
          rest,
        )

  pub Checks-inbox : Checks base db (inbox caller) (InboxOf db caller) Never
  unfolding inbox pending_rows
  Checks-inbox = Spec-check (Checks-query _) λ rows read.
      Spec-check
        (Checks-unread_views rows
          (subst (All (UnreadAt db caller)) (sym read) (unread_rows-Unread db caller valid)))
        λ unread entries. Spec-check (Checks-query _) λ pending found.
          Spec-check
            (Checks-invite_views pending (
              subst (All (Member db caller ParticipantStatus.invited)) (sym found) (
                sort_by-All _ (Member db caller ParticipantStatus.invited) _
                  (memberships-Member db caller ParticipantStatus.invited))))
            λ invites shown.
              Checks-pure _ (record { unread = entries; pending = shown; total = refl })
