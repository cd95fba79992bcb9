-- ===== src/Guarantees/Denials.antt =====
-- A denial of service.py: what has been staged is committed with the audit row of the denial, and
-- the exception is raised.
use rh_reclaw.Common.{◌≡◌, refl, sym, ap, subst, ℕ, String, Option, none, some, List, ◌∷◌}
use rh_reclaw.Common.Json.{Dict}
use rh_reclaw.Models.{Db, AuditLog, ConversationState}
use rh_reclaw.Schemas.{PayloadValidationError}
use rh_reclaw.Exceptions.{
  ServiceError, access_denied, invalid_conversation_state, rate_limit_exceeded, payload_validation,
  unknown_conversation_type, unknown_accepted_types, value_error, integrity_error, key_error,
}
use rh_reclaw.Session.{
  Session, Exec, ◌>>=◌, ◌>>◌, raise, commit, write, transaction_now, with_audit,
}
use rh_reclaw.Session.Triple.{Spec, Fails, Fails-commit-raise}
use rh_reclaw.Service.Denials.{
  audit_row, audit, deny, deny_bad_state, deny_rate_limited, deny_bad_schema,
}
use rh_reclaw.Board.Integrity.{KnownAgent, KnownConversation, Nullable}
use rh_reclaw.Board.Writes.{Sound, Sound-with_audit}

-- The `action` of the audit row that a denial leaves; a malformed request leaves none.
abbrev pub denial_action : ServiceError → Option String
denial_action (access_denied reason) = some reason
denial_action (invalid_conversation_state t s) = some "denied.bad_state"
denial_action (rate_limit_exceeded m r) = some "denied.rate_limited"
denial_action (payload_validation e) = some "denied.bad_schema"
denial_action (unknown_conversation_type ts) = none
denial_action (unknown_accepted_types ts) = none
denial_action (value_error m) = none
denial_action integrity_error = none
denial_action key_error = none

-- The newest row of the trail is the actor's, with the action.
pub record Recorded (actor_sub action : String) (db : Db) : Type 0 where
  pub newest : AuditLog
  pub older : List AuditLog
  pub trail : db.audit_log ≡ newest ∷ older
  pub actor_sub_eq : newest.actor_sub ≡ actor_sub
  pub action_eq : newest.action ≡ action

abbrev pub Trail : String → Db → Option String → Db → Type 0
Trail actor_sub base none db = db ≡ base
Trail actor_sub base (some action) db = Sound base db × Recorded actor_sub action db

-- What an exception leaves in the database: a denial its audit row, on tables that are a sound later
-- state; a malformed request nothing at all.
abbrev pub Denied : String → Db → ServiceError → Session → Type 0
Denied actor_sub base e s = Trail actor_sub base (denial_action e) s.committed

module _ {A : Type 0} {base db : Db} {Q : A → Session → Type 0}
    {E : ServiceError → Session → Type 0} where
  -- An audit row, and what comes after it.
  pub Spec-audit :
      {actor_sub action : String} {agent_id conversation_id message_id : Option ℕ}
      {detail : Option Dict} {rest : Exec A}
      → ((at : ℕ)
          → Spec base
              (with_audit
                (audit_row at actor_sub action agent_id conversation_id message_id detail)
                db)
              rest
              Q
              E)
      → Spec base db (audit actor_sub action agent_id conversation_id message_id detail >> rest) Q E
  unfolding audit ◌>>=◌ transaction_now write
  Spec-audit {actor_sub} {action} {agent_id} {conversation_id} {message_id} {detail} h = record {
    run = λ s at.
        let row = audit_row s.txn_now actor_sub action agent_id conversation_id message_id detail in
        (h s.txn_now).run (record s { working = with_audit row s.working })
          (record { committed = at.committed; working = ap (with_audit row) at.working });
  }

module _ {A : Type 0} {base db : Db} (sound : Sound base db) where
  fails_recorded :
      (actor_sub action : String) (agent_id conversation_id : Option ℕ) (detail : Option Dict)
      → (e : ServiceError) → denial_action e ≡ some action
      → Nullable (KnownAgent db) agent_id
      → Nullable (KnownConversation db) conversation_id
      → Fails base db
          (do audit actor_sub action agent_id conversation_id none detail; commit; raise {A = A} e)
          (Denied actor_sub base)
  fails_recorded actor_sub action agent_id conversation_id detail e is_denial agent conversation =
      Spec-audit λ at. Fails-commit-raise e λ s saved.
        subst (λ o. Trail actor_sub base o s.committed) (sym is_denial)
          (subst (λ d. Sound base d × Recorded actor_sub action d) (sym saved)
            (
              Sound-with_audit sound _ agent conversation tt,
              record {
                newest = _;
                older = db.audit_log;
                trail = refl;
                actor_sub_eq = refl;
                action_eq = refl;
              },
            ))

  module _ (actor_sub : String) where
    pub Fails-deny :
        (action : String) (agent_id conversation_id : Option ℕ) (detail : Option Dict)
        → Nullable (KnownAgent db) agent_id
        → Nullable (KnownConversation db) conversation_id
        → Fails base db
            (deny {A = A} actor_sub action agent_id conversation_id detail)
            (Denied actor_sub base)
    unfolding deny
    Fails-deny action agent_id conversation_id detail =
        fails_recorded actor_sub action agent_id conversation_id detail (access_denied action) refl

    pub Fails-deny_bad_state :
        (agent_id conversation_id : ℕ) (state : ConversationState) (message_type : String)
        → KnownAgent db agent_id
        → KnownConversation db conversation_id
        → Fails base db
            (deny_bad_state {A = A} actor_sub agent_id conversation_id state message_type)
            (Denied actor_sub base)
    unfolding deny_bad_state
    Fails-deny_bad_state agent_id conversation_id state message_type =
        fails_recorded actor_sub "denied.bad_state" (some agent_id) (some conversation_id) _
          (invalid_conversation_state message_type state) refl

    pub Fails-deny_rate_limited :
        (agent_id : ℕ) (conversation_id : Option ℕ) (limit_name message : String)
        → KnownAgent db agent_id
        → Nullable (KnownConversation db) conversation_id
        → Fails base db
            (deny_rate_limited {A = A} actor_sub agent_id conversation_id limit_name message)
            (Denied actor_sub base)
    unfolding deny_rate_limited
    Fails-deny_rate_limited agent_id conversation_id limit_name message =
        fails_recorded actor_sub "denied.rate_limited" (some agent_id) conversation_id _
          (rate_limit_exceeded message limit_name) refl

    pub Fails-deny_bad_schema :
        (agent_id : ℕ) (conversation_id : Option ℕ) (message_type : String)
        (exc : PayloadValidationError)
        → KnownAgent db agent_id
        → Nullable (KnownConversation db) conversation_id
        → Fails base db
            (deny_bad_schema {A = A} actor_sub agent_id conversation_id message_type exc)
            (Denied actor_sub base)
    unfolding deny_bad_schema
    Fails-deny_bad_schema agent_id conversation_id message_type exc =
        fails_recorded actor_sub "denied.bad_schema" (some agent_id) conversation_id _
          (payload_validation exc) refl
