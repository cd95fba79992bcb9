-- ===== src/Service/Listings.antt =====
-- service.py: list_agents and list_conversations. `collation` is the order of the database's texts.
-- `limit` and `cursor` bound the rows of a page; one row more is read to see whether there are more.
use Prim.Native.String.{◌++◌}
use mathlib.Core.Option
use rh_reclaw.Common.{
  ℕ, suc, String, Option, none, some, List, [], ◌∷◌, Bool, true, false, ◌&&◌, ◌||◌, ltb, leb,
  length, ◌==◌, nat_eq, string_eq, if◌then◌else◌,
}
use rh_reclaw.Common.Json.{text}
use rh_reclaw.Common.Rows.{select}
use rh_reclaw.Common.Text.{sort_by}
use rh_reclaw.Common.Chars.{rsplit}
use rh_reclaw.Common.Pages.{take, last}
use rh_reclaw.Common.Stdlib.{Stdlib, Datetime, naive, aware, ℤ, to_nat}
use rh_reclaw.Models.{
  Db, Agent, Conversation, ConversationState, state_eq, Participant, ParticipantRole, role_eq,
  ParticipantStatus, status_eq,
}
use rh_reclaw.Exceptions.{value_error}
use rh_reclaw.Session.{Exec, pure, ◌>>=◌, raise, query, now, participant_row}
use rh_reclaw.Service.Reads.{ConversationView, conversation_dict}

-- `max(1, min(limit, 200))`
unfoldable pub clamp_limit : ℤ → ℕ
clamp_limit limit = let n = to_nat limit in if ltb 200 n then 200 else if n == 0 then 1 else n

pub record AgentPage : Type 0 where
  pub agents : List Agent
  pub total_count : ℕ
  pub has_more : Bool
  pub next_cursor : Option String

-- `if cursor: WHERE sub > cursor`
abbrev pub after_cursor : (String → String → Bool) → Option String → Agent → Bool
after_cursor collation none = λ a. true
after_cursor collation (some cursor) =
    if cursor == "" then (λ a. true) else (λ a. collation cursor a.sub)

-- The rows after the cursor, `ORDER BY sub`.
unfoldable pub directory : (String → String → Bool) → Option String → Db → List Agent
directory collation cursor db =
    select (after_cursor collation cursor)
      (sort_by (λ (a b : Agent). collation a.sub b.sub) db.agents)

-- The `sub` of the last row of a page that has a next one.
abbrev pub agent_cursor : Bool → List Agent → Option String
agent_cursor false rows = none
agent_cursor true rows = Option.map (λ (a : Agent). a.sub) (last rows)

-- The page of `limit` rows, from the rows that were read, at most one more.
unfoldable pub agent_page : ℕ → ℕ → List Agent → AgentPage
agent_page limit total_count rows =
    let has_more = ltb limit (length rows) in
    record {
      agents = take limit rows;
      total_count = total_count;
      has_more = has_more;
      next_cursor = agent_cursor has_more (take limit rows);
    }

unfoldable pub list_agents : (String → String → Bool) → ℤ → Option String → Exec AgentPage
list_agents collation limit cursor = query λ db.
    let n = clamp_limit limit in
    agent_page n (length db.agents) (take (suc n) (directory collation cursor db))

pub record ConversationPage : Type 0 where
  pub conversations : List ConversationView
  pub has_more : Bool
  pub next_cursor : Option String

-- `Participant.status.in_(["invited", "active"])`
abbrev pub present : ParticipantStatus → Bool
present status = status == ParticipantStatus.invited || status == ParticipantStatus.active

abbrev pub has_role : Option ParticipantRole → Participant → Bool
has_role none p = true
has_role (some role) p = p.role == role

abbrev pub has_type : Option String → Conversation → Bool
has_type none c = true
has_type (some type) c = c.type == type

-- The filter on the state at the time `t`: a conversation past its `expires_at` counts as expired.
unfoldable pub in_state : Option ConversationState → ℕ → Conversation → Bool
in_state none t c = true
in_state (some ConversationState.active) t c =
    c.state == ConversationState.active && ltb t c.expires_at
in_state (some ConversationState.expired) t c =
    c.state == ConversationState.expired
    || (c.state == ConversationState.active && leb c.expires_at t)
in_state (some state) t c = c.state == state

-- `_now()`, read where the filter needs it.
unfoldable pub state_time : Option ConversationState → Exec ℕ
state_time (some ConversationState.active) = now
state_time (some ConversationState.expired) = now
state_time _ = pure 0

-- `(created_at, id) < (cursor_ts, cursor_id)`
abbrev pub before_cursor : Option (ℕ × ℕ) → Conversation → Bool
before_cursor none c = true
before_cursor (some (ts, id)) c = ltb c.created_at ts || (c.created_at == ts && ltb c.id id)

-- `ORDER BY created_at DESC, id DESC`
abbrev pub newer : Conversation → Conversation → Bool
newer a b = ltb b.created_at a.created_at || (a.created_at == b.created_at && ltb b.id a.id)

-- The caller's membership, if it is a present one of the role.
abbrev pub takes_part : Option ParticipantRole → Option Participant → Bool
takes_part role none = false
takes_part role (some p) = present p.status && has_role role p

-- The row is one that the statement selects.
unfoldable pub is_listed :
    Db
    → ℕ
    → Option ParticipantRole
    → Option String
    → Option ConversationState
    → ℕ
    → Option (ℕ × ℕ)
    → Conversation
    → Bool
is_listed db caller_agent_id role type state t cursor c =
    takes_part role (participant_row c.id caller_agent_id db)
    && has_type type c
    && in_state state t c
    && before_cursor cursor c

-- `[_conversation_dict(c) for c in rows]`
unfoldable pub conversation_dicts : List Conversation → Exec (List ConversationView)
conversation_dicts [] = pure []
conversation_dicts (c ∷ cs) = do
  shown ← conversation_dict c
  rest ← conversation_dicts cs
  pure (shown ∷ rest)

module _ (py : Stdlib) where
  abbrev malformed : String → String
  malformed cursor = "malformed cursor: " ++ py.repr (text cursor)

  -- The parsed parts. A time without a zone is compared as a time of the database session's zone.
  unfoldable pub cursor_place : String → Option Datetime → Option ℕ → Exec (ℕ × ℕ)
  cursor_place cursor none id = raise (value_error (malformed cursor))
  cursor_place cursor (some t) none = raise (value_error (malformed cursor))
  cursor_place cursor (some (naive ts)) (some id) = pure (py.zoned ts, id)
  cursor_place cursor (some (aware ts)) (some id) = pure (ts, id)

  unfoldable pub cursor_of_parts : String → Option (String × String) → Exec (ℕ × ℕ)
  cursor_of_parts cursor none = raise (value_error (malformed cursor))
  cursor_of_parts cursor (some (ts_part, id_part)) =
      cursor_place cursor (py.fromisoformat ts_part) (py.parse_uuid id_part)

  -- `ts_part, id_part = cursor.rsplit("|", 1)`, with its two parts read
  unfoldable pub read_cursor : String → Exec (ℕ × ℕ)
  read_cursor cursor = cursor_of_parts cursor (rsplit 124 cursor)

  -- `if cursor:`
  unfoldable pub conversation_cursor : Option String → Exec (Option (ℕ × ℕ))
  conversation_cursor none = pure none
  conversation_cursor (some cursor) =
      if cursor == "" then pure none else (do place ← read_cursor cursor; pure (some place))

  abbrev pub cursor_text : Conversation → String
  cursor_text c = py.isoformat c.created_at ++ "|" ++ py.uuid_text c.id

  abbrev pub next_conversation_cursor : Bool → List Conversation → Option String
  next_conversation_cursor false rows = none
  next_conversation_cursor true rows = Option.map cursor_text (last rows)

  unfoldable pub list_conversations :
      ℕ
      → Option ParticipantRole
      → Option String
      → Option ConversationState
      → ℤ
      → Option String
      → Exec ConversationPage
  list_conversations caller_agent_id role conversation_type state limit cursor = do
    let n = clamp_limit limit
    t ← state_time state
    place ← conversation_cursor cursor
    rows ← query (λ db. take (suc n) (
        sort_by newer (
          select (is_listed db caller_agent_id role conversation_type state t place)
            db.conversations)))
    shown ← conversation_dicts (take n rows)
    pure (record {
      conversations = shown;
      has_more = ltb n (length rows);
      next_cursor = next_conversation_cursor (ltb n (length rows)) (take n rows);
    })
