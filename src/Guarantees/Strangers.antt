-- ===== src/Guarantees/Strangers.antt =====
-- A caller without a present membership: every call on the conversation ends with the one denial.
use mathlib.Core.Bool.{false≢true}
use rh_reclaw.Common.{
  ◌≡◌, refl, sym, ◌∙◌, ap, ◌⊎◌, inl, inr, ℕ, String, Option, none, some, Bool, true, false, not,
  ◌||◌, Option-cases, Bool-cases, ◌==◌, ==_iff, leb,
}
use rh_reclaw.Common.Result.{Result, ok, err}
use rh_reclaw.Common.Json.{Dict}
use rh_reclaw.Models.{
  Db, AgentStatus, agent_status_eq, Conversation, ConversationState, state_eq, Participant,
  ParticipantStatus, status_eq,
}
use rh_reclaw.Schemas.{Pydantic}
use rh_reclaw.Exceptions.{ServiceError, access_denied}
use rh_reclaw.Session.{
  Session, Exec, pure, raise, query, now, write, when, or_else, commit, ◌>>=◌, resume,
  transaction_now, agent_row, conversation_row, participant_row,
}
use rh_reclaw.Service.Denials.{audit, deny}
use rh_reclaw.Service.Lookups.{
  find_agent_by_id, find_conversation, find_participant, find_member, fk_safe_agent_id, expire,
  maybe_expire, require_active_agent, require_member, load_participant_for_transition,
  load_participant_for_read,
}
use rh_reclaw.Service.Ownership.{OwnershipClient}
use rh_reclaw.Service.Membership.{accept_invite, decline_invite, invite, leave}
use rh_reclaw.Service.Messages.{post_message}
use rh_reclaw.Service.Listings.{present}
use rh_reclaw.Service.Reads.{get_conversation}

-- From the session the call raises the uniform denial, for some reason that the client is not told.
pub record Denies {A : Type 0} (m : Exec A) (s : Session) : Type 0 where
  pub reason : String
  pub raised : (m s).0 ≡ err (access_denied reason)

-- The call returns.
record Returns {A : Type 0} (m : Exec A) (s : Session) : Type 0 where
  value : A
  returned : (m s).0 ≡ ok value

-- The call returns and leaves the session as it was.
record Looks {A : Type 0} (m : Exec A) (s : Session) : Type 0 where
  value : A
  looked : m s ≡ (ok value, s)

module _ {A B : Type 0} where
  resume-err :
      (f : A → Exec B) (e : ServiceError) (x : Result ServiceError A × Session)
      → x.0 ≡ err e
      → (resume f x).0 ≡ err e
  resume-err f e (ok a, s) h = absurd (cc h)
  resume-err f e (err e', s) h = cc h

  resume-ok :
      (f : A → Exec B) (a : A) (x : Result ServiceError A × Session)
      → x.0 ≡ ok a
      → (resume f x).0 ≡ (f a x.1).0
  resume-ok f a (ok b, s) h = cc h
  resume-ok f a (err e, s) h = absurd (cc h)

  Denies-first : {m : Exec A} (f : A → Exec B) (s : Session) → Denies m s → Denies (m >>= f) s
  unfolding ◌>>=◌
  Denies-first {m} f s h = record {
    reason = h.reason;
    raised = resume-err f (access_denied h.reason) (m s) h.raised;
  }

  Denies-query :
      (g : Db → A) (f : A → Exec B) (s : Session)
      → Denies (f (g s.working)) s
      → Denies (query g >>= f) s
  unfolding ◌>>=◌ query
  Denies-query g f s h = record { reason = h.reason; raised = h.raised }

  Denies-pure : (a : A) (f : A → Exec B) (s : Session) → Denies (f a) s → Denies (pure a >>= f) s
  unfolding ◌>>=◌ pure
  Denies-pure a f s h = record { reason = h.reason; raised = h.raised }

  Denies-after :
      {m : Exec A} {f : A → Exec B} (s : Session)
      → Returns m s
      → ((a : A) (s' : Session) → Denies (f a) s')
      → Denies (m >>= f) s
  unfolding ◌>>=◌
  Denies-after {m} {f} s r h =
      let denied = h r.value (m s).1 in
      record {
        reason = denied.reason;
        raised = resume-ok f r.value (m s) r.returned ∙ denied.raised;
      }

  Denies-then :
      {m : Exec A} (f : A → Exec B) (s : Session)
      → (r : Looks m s) → Denies (f r.value) s
      → Denies (m >>= f) s
  unfolding ◌>>=◌
  Denies-then {m} f s r h = record {
    reason = h.reason;
    raised = ap (λ x. (resume f x).0) r.looked ∙ h.raised;
  }

module _ {A : Type 0} where
  Denies-deny :
      (actor action : String) (agent_id conversation_id : Option ℕ) (detail : Option Dict)
      (s : Session)
      → Denies (deny {A = A} actor action agent_id conversation_id detail) s
  unfolding deny audit ◌>>=◌ transaction_now write commit raise
  Denies-deny actor action agent_id conversation_id detail s = record {
    reason = action;
    raised = refl;
  }

Denies-when : {b : Bool} {m : Exec Unit} (s : Session) → b ≡ true → Denies m s → Denies (when b m) s
unfolding when
Denies-when s e h = rw e h

maybe_expire-Returns :
    (actor : String) (c : Conversation) (s : Session) → Returns (maybe_expire actor c) s
unfolding maybe_expire ◌>>=◌ now expire audit write transaction_now pure
maybe_expire-Returns actor c s = elim (Bool-cases (c.state == ConversationState.active)) [
  | inr e ↦ record { value = c; returned = rw e refl }
  | inl e ↦ elim (Bool-cases (leb c.expires_at (s.ticks s.reads))) [
    | inl late ↦ record {
      value = record c { state = ConversationState.expired };
      returned = rw (e, late) refl;
    }
    | inr early ↦ record { value = c; returned = rw (e, early) refl }
  ]
]

-- No present membership in the conversation, which need not exist.
abbrev pub Stranger : Db → ℕ → ℕ → Type 0
Stranger db i a =
    (c : Conversation) (p : Participant)
    → conversation_row i db ≡ some c
    → participant_row i a db ≡ some p
    → present p.status ≡ false

module _ (actor : String) (a i : ℕ) (s : Session) where
  Denies-no_conversation : (p : Option Participant) → Denies (require_member actor a none p) s
  unfolding require_member fk_safe_agent_id
  Denies-no_conversation p = Denies-query _ _ s (Denies-deny actor _ _ _ _ s)

  Denies-no_participant : (c : Option Conversation) → Denies (require_member actor a c none) s
  unfolding require_member fk_safe_agent_id
  Denies-no_participant none = Denies-query _ _ s (Denies-deny actor _ _ _ _ s)
  Denies-no_participant (some c) = Denies-query _ _ s (Denies-deny actor _ _ _ _ s)

  -- The shared beginning of both loaders.
  Denies-loading :
      {A : Type 0} (f : Conversation × Participant → Exec A)
      → ((c : Conversation) (p : Participant)
          → conversation_row i s.working ≡ some c
          → participant_row i a s.working ≡ some p
          → Denies (f (c, p)) s)
      → Denies
          (do
            found ← find_conversation i
            membership ← find_member found i a
            x ← require_member actor a found membership
            f x)
          s
  unfolding find_conversation find_member find_participant require_member
  Denies-loading f h =
      Denies-query (conversation_row i) _ s (elim (Option-cases (conversation_row i s.working)) [
        | inl missing ↦
            rw missing (Denies-pure none _ s (Denies-first _ s (Denies-no_conversation none)))
        | inr (c, at) ↦ rw at (
            Denies-query (participant_row i a) _ s
              (elim (Option-cases (participant_row i a s.working)) [
                | inl missing ↦ rw missing (Denies-first _ s (Denies-no_participant (some c)))
                | inr (p, there) ↦ rw there (Denies-pure (c, p) f s (h c p at there))
              ]))
      ])

  active_or_denied :
      Denies (require_active_agent actor a) s ⊎ Looks (require_active_agent actor a) s
  unfolding require_active_agent find_agent_by_id or_else query ◌>>=◌ when pure deny audit
      transaction_now write commit raise
  active_or_denied = elim (Option-cases (agent_row a s.working)) [
    | inl missing ↦ inl (record { reason = "denied.unknown_agent"; raised = rw missing refl })
    | inr (g, at) ↦ elim (Bool-cases (not (g.status == AgentStatus.active))) [
      | inl e ↦ inl (record { reason = "denied.unknown_agent"; raised = rw (at, e) refl })
      | inr e ↦ inr (record { value = g; looked = rw (at, e) refl })
    ]
  ]

  -- A status that is not a present one is none of those that a loader asks for.
  not_the_status :
      (st status : ParticipantStatus)
      → present st ≡ true
      → present status ≡ false
      → not (status == st) ≡ true
  not_the_status st status h k = elim (Bool-cases (status == st)) [
    | inl e ↦ absurd (false≢true (sym k ∙ ap present ((==_iff status st).0 e) ∙ h))
    | inr e ↦ rw e refl
  ]

  not_present :
      (status : ParticipantStatus)
      → present status ≡ false
      → (status == ParticipantStatus.left || status == ParticipantStatus.declined) ≡ true
  not_present ParticipantStatus.invited h = absurd (cc h)
  not_present ParticipantStatus.active h = absurd (cc h)
  not_present ParticipantStatus.left h = refl
  not_present ParticipantStatus.declined h = refl

  module _ (stranger : Stranger s.working i a) where
    pub Denies-load_for_transition :
        (st : ParticipantStatus)
        → present st ≡ true
        → Denies (load_participant_for_transition actor a i st) s
    unfolding load_participant_for_transition
    Denies-load_for_transition st asked = Denies-loading _ λ c p at there.
        Denies-after s (maybe_expire-Returns actor c s) λ c' s'. Denies-first _ s' (
          Denies-when s' (not_the_status st p.status asked (stranger c p at there))
            (Denies-deny actor _ _ _ _ s'))

    pub Denies-load_for_read : Denies (load_participant_for_read actor a i) s
    unfolding load_participant_for_read
    Denies-load_for_read = Denies-loading _ λ c p at there.
        Denies-first _ s (
          Denies-when s (not_present p.status (stranger c p at there))
            (Denies-deny actor _ _ _ _ s))

    pub Denies-accept_invite : Denies (accept_invite actor a i) s
    unfolding accept_invite
    Denies-accept_invite =
        Denies-first _ s (Denies-load_for_transition ParticipantStatus.invited refl)

    pub Denies-decline_invite : Denies (decline_invite actor a i) s
    unfolding decline_invite
    Denies-decline_invite =
        Denies-first _ s (Denies-load_for_transition ParticipantStatus.invited refl)

    pub Denies-leave : Denies (leave actor a i) s
    unfolding leave
    Denies-leave = Denies-first _ s (Denies-load_for_transition ParticipantStatus.active refl)

    pub Denies-invite : (client : OwnershipClient) (j : ℕ) → Denies (invite client actor a i j) s
    unfolding invite
    Denies-invite client j =
        Denies-first _ s (Denies-load_for_transition ParticipantStatus.active refl)

    pub Denies-get_conversation :
        (collation : String → String → Bool) (since : ℕ)
        → Denies (get_conversation collation actor a i since) s
    unfolding get_conversation
    Denies-get_conversation collation since = Denies-first _ s Denies-load_for_read

    pub Denies-post_message :
        (px : Pydantic) (client : OwnershipClient) (message_type : String) (payload : Dict)
        (version : ℕ)
        → Denies (post_message px client actor a i message_type payload version) s
    unfolding post_message
    Denies-post_message px client message_type payload version = elim active_or_denied [
      | inl denied ↦ Denies-first _ s denied
      | inr active ↦
          Denies-then _ s active
            (Denies-first _ s (Denies-load_for_transition ParticipantStatus.active refl))
    ]
