-- ===== src/Guarantees/Pages.antt =====
-- What list_conversations shows.
use rh_reclaw.Common.{
  ◌≡◌, ◌≢◌, refl, sym, ap, subst, ◌∙◌, inl, inr, ℕ, zero, suc, ◌≤◌, String, Option, none, some,
  List, [], ◌∷◌, Bool, true, ◌&&◌, length, map, All, arith, Bool-cases, and_true, ◌==◌, string_eq,
}
use rh_reclaw.Common.Rows.{select}
use rh_reclaw.Common.Text.{sort_by, sort_by-All}
use rh_reclaw.Common.Pages.{take}
use rh_reclaw.Common.Stdlib.{Stdlib, Datetime, naive, aware, ℤ}
use rh_reclaw.Models.{
  Db, Conversation, ConversationState, state_eq, Participant, ParticipantRole, role_eq,
}
use rh_reclaw.Exceptions.{ServiceError}
use rh_reclaw.Session.{Session, participant_row}
use rh_reclaw.Session.Triple.{
  Checks, Spec-check, Spec-if, Checks-query, Checks-now, Checks-pure, Fails-raise, Fails-Spec,
}
use rh_reclaw.Service.Reads.{ConversationView, conversation_dict}
use rh_reclaw.Service.Listings.{
  clamp_limit, ConversationPage, present, has_role, has_type, in_state, state_time, takes_part,
  is_listed, before_cursor, newer, conversation_dicts, cursor_place, cursor_of_parts, read_cursor,
  conversation_cursor, list_conversations,
}

-- The caller takes part in the conversation, invited or active, and the filters admit it.
pub record Visible (db : Db) (caller : ℕ) (role : Option ParticipantRole) (type : Option String)
    (c : Conversation) : Type 0 where
  pub membership : Participant
  pub found : participant_row c.id caller db ≡ some membership
  pub is_present : present membership.status ≡ true
  pub in_role : has_role role membership ≡ true
  pub of_type : has_type type c ≡ true

takes_part-member :
    (role : Option ParticipantRole) (o : Option Participant)
    → takes_part role o ≡ true
    → (p : Participant) × (o ≡ some p) × (present p.status ≡ true) × (has_role role p ≡ true)
takes_part-member role none h = absurd (cc h)
takes_part-member role (some p) h = (p, refl, (and_true _ _ h).0, (and_true _ _ h).1)

is_listed-Visible :
    (db : Db) (caller : ℕ) (role : Option ParticipantRole) (type : Option String)
    (state : Option ConversationState) (t : ℕ) (place : Option (ℕ × ℕ)) (c : Conversation)
    → is_listed db caller role type state t place c ≡ true
    → Visible db caller role type c
unfolding is_listed
is_listed-Visible db caller role type state t place c h =
    let takes = takes_part role (participant_row c.id caller db) in
    let (rest, _) =
      and_true (takes && has_type type c && in_state state t c) (before_cursor place c) h in
    let (rest', _) = and_true (takes && has_type type c) (in_state state t c) rest in
    let (part, typed) = and_true takes (has_type type c) rest' in
    let (p, found, is_present, in_role) = takes_part-member role _ part in
    record {
      membership = p;
      found = found;
      is_present = is_present;
      in_role = in_role;
      of_type = typed;
    }

select-All :
    {A : Type 0} (test : A → Bool) (P : A → Type 0) (xs : List A)
    → ((x : A) → test x ≡ true → P x)
    → All P (select test xs)
select-All test P [] h = tt
select-All test P (x ∷ xs) h = elim (Bool-cases (test x)) [
  | inl e ↦ rw e (h x e, select-All test P xs h)
  | inr e ↦ rw e (select-All test P xs h)
]

take-All : {A : Type 0} (P : A → Type 0) (n : ℕ) (xs : List A) → All P xs → All P (take n xs)
take-All P zero xs h = tt
take-All P (suc n) [] h = tt
take-All P (suc n) (x ∷ xs) h = (h.0, take-All P n xs h.1)

length-take_le : {A : Type 0} (n : ℕ) (xs : List A) → length (take n xs) ≤ n
length-take_le zero xs = ground arith
length-take_le (suc n) [] = ground arith
length-take_le (suc n) (x ∷ xs) = ground (arith, length-take_le n xs)

clamp_limit_le : (limit : ℤ) → clamp_limit limit ≤ 200
unfolding clamp_limit
clamp_limit_le limit = ground arith

length-map : {A B : Type 0} (f : A → B) (xs : List A) → length (map f xs) ≡ length xs
length-map f [] = refl
length-map f (x ∷ xs) = ap suc (length-map f xs)

All-of_map :
    {A B : Type 0} (P : B → Type 0) (f : A → B) (xs : List A)
    → All P (map f xs)
    → All (λ x. P (f x)) xs
All-of_map P f [] h = tt
All-of_map P f (x ∷ xs) h = (h.0, All-of_map P f xs h.1)

abbrev conversations_of : List ConversationView → List Conversation
conversations_of vs = map (λ (v : ConversationView). v.conversation) vs

module _ (base db : Db) (E : ServiceError → Session → Type 0) where
  pub Checks-conversation_dict :
      (c : Conversation) → Checks base db (conversation_dict c) (λ v. v.conversation ≡ c) E
  unfolding conversation_dict
  Checks-conversation_dict c =
      Spec-if (c.state == ConversationState.active)
        (λ _. Spec-check Checks-now λ t _. Checks-pure _ refl) (λ _. Checks-pure _ refl)

  Checks-conversation_dicts :
      (cs : List Conversation)
      → Checks base db (conversation_dicts cs) (λ vs. conversations_of vs ≡ cs) E
  unfolding conversation_dicts
  Checks-conversation_dicts [] = Checks-pure [] refl
  Checks-conversation_dicts (c ∷ cs) = Spec-check (Checks-conversation_dict c) λ v same.
      Spec-check (Checks-conversation_dicts cs)
        λ vs rest. Checks-pure (v ∷ vs) (rw (same, rest) refl)

  Checks-state_time :
      (state : Option ConversationState) → Checks base db (state_time state) (λ _. Unit) E
  unfolding state_time
  Checks-state_time none = Checks-pure _ tt
  Checks-state_time (some ConversationState.active) = Checks-now
  Checks-state_time (some ConversationState.expired) = Checks-now
  Checks-state_time (some ConversationState.completed) = Checks-pure _ tt
  Checks-state_time (some ConversationState.canceled) = Checks-pure _ tt

  module _ (py : Stdlib) (place : String → (e : ServiceError) (s : Session) → E e s) where
    Checks-cursor_place :
        (cursor : String) (t : Option Datetime) (id : Option ℕ)
        → Checks base db (cursor_place py cursor t id) (λ _. Unit) E
    unfolding cursor_place
    Checks-cursor_place cursor none id = Fails-Spec (Fails-raise _ λ s _. place cursor _ s)
    Checks-cursor_place cursor (some t) none = Fails-Spec (Fails-raise _ λ s _. place cursor _ s)
    Checks-cursor_place cursor (some (naive ts)) (some id) = Checks-pure _ tt
    Checks-cursor_place cursor (some (aware ts)) (some id) = Checks-pure _ tt

    Checks-cursor_of_parts :
        (cursor : String) (parts : Option (String × String))
        → Checks base db (cursor_of_parts py cursor parts) (λ _. Unit) E
    unfolding cursor_of_parts
    Checks-cursor_of_parts cursor none = Fails-Spec (Fails-raise _ λ s _. place cursor _ s)
    Checks-cursor_of_parts cursor (some (a, b)) = Checks-cursor_place cursor _ _

    Checks-given_cursor :
        (cursor : String) → Checks base db (conversation_cursor py (some cursor)) (λ _. Unit) E
    unfolding conversation_cursor read_cursor
    Checks-given_cursor cursor =
        Spec-if (cursor == "") (λ _. Checks-pure _ tt)
          (λ _. Spec-check (Checks-cursor_of_parts cursor _) λ found _. Checks-pure _ tt)

-- At most the clamped number of conversations, all of them visible to the caller.
pub record Shown (db : Db) (caller : ℕ) (role : Option ParticipantRole) (type : Option String)
    (limit : ℤ) (page : ConversationPage) : Type 0 where
  pub bounded : length page.conversations ≤ clamp_limit limit
  pub capped : length page.conversations ≤ 200
  pub visible :
      All (λ (v : ConversationView). Visible db caller role type v.conversation) page.conversations

-- A call that raises was given a cursor.
abbrev pub CursorGiven : Option String → ServiceError → Session → Type 0
CursorGiven cursor e s = cursor ≢ none

capped_by : {a b c : ℕ} → a ≤ b → b ≤ c → a ≤ c
capped_by h k = omega arith

module _ (py : Stdlib) (base db : Db) where
  Checks-conversation_cursor :
      (cursor : Option String)
      → Checks base db (conversation_cursor py cursor) (λ _. Unit) (CursorGiven cursor)
  unfolding conversation_cursor
  Checks-conversation_cursor none = Checks-pure _ tt
  Checks-conversation_cursor (some c) =
      Checks-given_cursor base db (CursorGiven (some c)) py (λ _ e s same. cc same) c

  Shown-rows :
      (caller : ℕ) (role : Option ParticipantRole) (type : Option String)
      (state : Option ConversationState) (limit : ℤ) (t : ℕ) (place : Option (ℕ × ℕ)) (more : Bool)
      (next : Option String) (vs : List ConversationView)
      → conversations_of vs
        ≡ take (clamp_limit limit) (
            take (suc (clamp_limit limit)) (
              sort_by newer
                (select (is_listed db caller role type state t place) db.conversations)))
      → Shown db caller role type limit
          (record { conversations = vs; has_more = more; next_cursor = next })
  Shown-rows caller role type state limit t place more next vs same =
      let selected = select (is_listed db caller role type state t place) db.conversations in
      let all_visible = take-All (Visible db caller role type) (clamp_limit limit) _ (
        take-All (Visible db caller role type) (suc (clamp_limit limit)) _ (
          sort_by-All newer (Visible db caller role type) selected (
            select-All _ _ db.conversations
              (is_listed-Visible db caller role type state t place)))) in
      let bound : length vs ≤ clamp_limit limit =
        subst (λ n. n ≤ clamp_limit limit)
          (ap length (sym same) ∙ length-map (λ (v : ConversationView). v.conversation) vs)
          (length-take_le (clamp_limit limit) _) in
      record {
        bounded = bound;
        capped = capped_by bound (clamp_limit_le limit);
        visible =
            All-of_map (Visible db caller role type) (λ (v : ConversationView). v.conversation) vs
              (subst (All (Visible db caller role type)) (sym same) all_visible);
      }

  pub Checks-list_conversations :
      (caller : ℕ) (role : Option ParticipantRole) (type : Option String)
      (state : Option ConversationState) (limit : ℤ) (cursor : Option String)
      → Checks base db
          (list_conversations py caller role type state limit cursor)
          (Shown db caller role type limit)
          (CursorGiven cursor)
  unfolding list_conversations
  Checks-list_conversations caller role type state limit cursor =
      Spec-check (Checks-state_time base db (CursorGiven cursor) state) λ t _.
        Spec-check (Checks-conversation_cursor cursor) λ place _.
          Spec-check (Checks-query _) λ rows found.
            Spec-check (Checks-conversation_dicts base db (CursorGiven cursor) _) λ vs same.
              Checks-pure _ (
                Shown-rows caller role type state limit t place _ _ vs
                  (same ∙ ap (take (clamp_limit limit)) found))
