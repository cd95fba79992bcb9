-- ===== src/Session.antt =====
-- SQLAlchemy's `AsyncSession` over the tables, with the clock and the UUID source: what a service
-- function runs in. One transaction is open at a time; `working` is what its queries see, which
-- includes what is staged (autoflush), and `committed` is what is left when the session closes.
-- Transactions run one after another, as the row lock of post_message makes them for one
-- conversation. Foreign keys are not enforced here; Board/Integrity states them.
pub mod Triple
pub mod Reading
use rh_reclaw.Common.{
  ℕ, suc, String, Option, none, some, List, ◌∷◌, Bool, true, false, ◌&&◌, ◌||◌, any, is_some, ◌==◌,
  nat_eq, string_eq, if◌then◌else◌,
}
use rh_reclaw.Common.Json.{Dict}
use rh_reclaw.Common.Result.{Result, ok, err}
use rh_reclaw.Common.Rows.{find_row, update_row}
use rh_reclaw.Models.{
  Db, Agent, Conversation, Participant, Message, AuditLog, participant_key, pair_eq,
}
use rh_reclaw.Exceptions.{ServiceError, integrity_error}

pub record Session : Type 0 where
  pub committed : Db
  pub working : Db
  -- `now()` of the open transaction
  pub txn_now : ℕ
  -- the readings of `datetime.now(UTC)`, and how many were taken
  pub ticks : ℕ → ℕ
  pub reads : ℕ
  -- the results of `uuid.uuid4`, and how many were drawn
  pub uuids : ℕ → ℕ
  pub drawn : ℕ

-- A coroutine that takes a session: it returns or raises, and leaves the session changed.
abbrev pub Exec : Type 0 → Type 0
Exec A = Session → Result ServiceError A × Session

module _ {A : Type 0} where
  unfoldable pub pure : A → Exec A
  pure a s = (ok a, s)

  unfoldable pub raise : ServiceError → Exec A
  raise e s = (err e, s)

  -- A query.
  unfoldable pub query : (Db → A) → Exec A
  query f s = (ok (f s.working), s)

module _ {A B : Type 0} where
  -- What follows a call: the rest of the block, or the exception.
  abbrev pub resume :
      (A → Exec B) → Result ServiceError A × Session → Result ServiceError B × Session
  resume f (ok a, s) = f a s
  resume f (err e, s) = (err e, s)

  infixl 5 ◌>>=◌
  unfoldable pub ◌>>=◌ : Exec A → (A → Exec B) → Exec B
  ◌>>=◌ m f s = resume f (m s)

infixl 5 ◌>>◌
abbrev pub ◌>>◌ : {A B : Type 0} → Exec A → Exec B → Exec B
m >> n = m >>= λ _. n

-- `if test: <m>`
unfoldable pub when : Bool → Exec Unit → Exec Unit
when true m = m
when false m = pure tt

-- The value, or `m` in its place: `if x is None: <m>`.
unfoldable pub or_else : {A : Type 0} → Option A → Exec A → Exec A
or_else none m = m
or_else (some a) m = pure a

-- `datetime.now(UTC)`
unfoldable pub now : Exec ℕ
now s = (ok (s.ticks s.reads), record s { reads = suc s.reads })

-- `now()` of the transaction, the default of the `created_at` columns.
unfoldable pub transaction_now : Exec ℕ
transaction_now s = (ok s.txn_now, s)

-- `uuid.uuid4()`
unfoldable pub uuid4 : Exec ℕ
uuid4 s = (ok (s.uuids s.drawn), record s { drawn = suc s.drawn })

unfoldable pub commit : Exec Unit
commit s = (ok tt, record s { committed = s.working })

-- A write that the database accepts.
unfoldable pub write : (Db → Db) → Exec Unit
write f s = (ok tt, record s { working = f s.working })

-- A write, refused where a key is taken.
unfoldable pub insert : (Db → Bool) → (Db → Db) → Exec Unit
insert taken f s = if taken s.working then (err integrity_error, s) else write f s

-- The tables after each statement.
abbrev pub with_audit : AuditLog → Db → Db
with_audit r db = record db { audit_log = r ∷ db.audit_log }

abbrev pub with_agent : Agent → Db → Db
with_agent a db = record db { agents = a ∷ db.agents }

abbrev pub set_agent : Agent → Db → Db
set_agent a db = record db { agents = update_row (λ (x : Agent). x.id) a db.agents }

abbrev pub with_conversation : Conversation → Db → Db
with_conversation c db = record db { conversations = c ∷ db.conversations }

abbrev pub set_conversation : Conversation → Db → Db
set_conversation c db = record db {
  conversations = update_row (λ (x : Conversation). x.id) c db.conversations;
}

abbrev pub with_participant : Participant → Db → Db
with_participant p db = record db { participants = p ∷ db.participants }

abbrev pub set_participant : Participant → Db → Db
set_participant p db = record db { participants = update_row participant_key p db.participants }

abbrev pub with_message : Message → Db → Db
with_message m db = record db { messages = m ∷ db.messages }

-- `SELECT` by primary key.
abbrev pub agent_row : ℕ → Db → Option Agent
agent_row i db = find_row (λ (x : Agent). x.id) i db.agents

abbrev pub conversation_row : ℕ → Db → Option Conversation
conversation_row i db = find_row (λ (x : Conversation). x.id) i db.conversations

abbrev pub participant_row : ℕ → ℕ → Db → Option Participant
participant_row c a db = find_row participant_key (c, a) db.participants

-- `session.add(row)` and `flush`: the primary keys and unique constraints of models.py.
unfoldable pub add_agent : Agent → Exec Unit
add_agent a =
    insert (λ db. any (λ (x : Agent). x.sub == a.sub) db.agents || is_some (agent_row a.id db))
      (with_agent a)

unfoldable pub add_conversation : Conversation → Exec Unit
add_conversation c = insert (λ db. is_some (conversation_row c.id db)) (with_conversation c)

unfoldable pub add_participant : Participant → Exec Unit
add_participant p =
    insert (λ db. is_some (participant_row p.conversation_id p.agent_id db)) (with_participant p)

unfoldable pub add_message : Message → Exec Unit
add_message m =
    insert
      (λ db.
        any
          (λ (x : Message).
            x.id == m.id || (x.conversation_id == m.conversation_id && x.seq == m.seq))
          db.messages)
      (with_message m)
