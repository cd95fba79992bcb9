-- ===== src/Guarantees/Runs.antt =====
-- Any sequence of requests, served or denied.
use rh_reclaw.Common.{refl, sym, subst, ℕ, String, Option, none, some, List, [], ◌∷◌, Bool}
use rh_reclaw.Common.Result.{Result, ok, err}
use rh_reclaw.Models.{Db}
use rh_reclaw.Schemas.{Pydantic}
use rh_reclaw.Exceptions.{ServiceError}
use rh_reclaw.Session.{Session, Exec}
use rh_reclaw.Session.Triple.{Ends, Spec, At}
use rh_reclaw.Service.Ownership.{OwnershipClient}
use rh_reclaw.Service.Requests.{
  Request, register_agent_request, start_conversation_request, accept_invite_request,
  decline_invite_request, invite_request, leave_request, post_message_request,
  get_conversation_request, serve, run, begin,
}
use rh_reclaw.Board.Steps.{Evolves-refl, Evolves-trans}
use rh_reclaw.Board.Integrity.{IsValid}
use rh_reclaw.Board.Writes.{Sound}
use rh_reclaw.Guarantees.Denials.{Denied, denial_action, Trail}
use rh_reclaw.Guarantees.Membership.{Spec-accept_invite, Spec-decline_invite, Spec-leave}
use rh_reclaw.Guarantees.Messages.Post.{Spec-post_message}
use rh_reclaw.Guarantees.Conversations.Start.{Spec-start_conversation}
use rh_reclaw.Guarantees.Invite.{Spec-invite}
use rh_reclaw.Guarantees.Registration.{Unchanged, Spec-register_agent}
use rh_reclaw.Guarantees.Reads.{Spec-get_conversation}

pub Sound-of_valid : {db : Db} → IsValid db → Sound db db
Sound-of_valid {db} valid = record { evolves = Evolves-refl db; valid = valid }

pub Sound-trans : {a b c : Db} → Sound a b → Sound b c → Sound a c
Sound-trans h k = record { evolves = Evolves-trans h.evolves k.evolves; valid = k.valid }

pub Sound-of_Trail :
    (actor_sub : String) (base : Db) (action : Option String) (db : Db)
    → IsValid base
    → Trail actor_sub base action db
    → Sound base db
Sound-of_Trail actor_sub base none db valid h = subst (Sound base) (sym h) (Sound-of_valid valid)
Sound-of_Trail actor_sub base (some action) db valid h = h.0

-- However a call ends, the tables that it leaves are sound.
Sound-of_Ends :
    {A : Type 0} {Q : A → Session → Type 0} (actor_sub : String) (base : Db)
    → IsValid base
    → ((a : A) (s : Session) → Q a s → Sound base s.committed)
    → (r : Result ServiceError A × Session) → Ends Q (Denied actor_sub base) r
    → Sound base r.1.committed
Sound-of_Ends actor_sub base valid f (ok a, s) h = f a s h
Sound-of_Ends actor_sub base valid f (err e, s) h =
    Sound-of_Trail actor_sub base (denial_action e) s.committed valid h

Sound-of_Unchanged :
    {A : Type 0} {Q : A → Session → Type 0} (base : Db)
    → IsValid base
    → ((a : A) (s : Session) → Q a s → Sound base s.committed)
    → (r : Result ServiceError A × Session) → Ends Q (Unchanged base) r
    → Sound base r.1.committed
Sound-of_Unchanged base valid f (ok a, s) h = f a s h
Sound-of_Unchanged base valid f (err e, s) h = subst (Sound base) (sym h) (Sound-of_valid valid)

pub At-begin : (t : ℕ) (s : Session) → At s.committed s.committed (begin t s)
At-begin t s = record { committed = refl; working = refl }

module _ {A : Type 0} {Q : A → Session → Type 0} {m : Exec A} where
  Sound-of_Spec :
      (actor_sub : String) (t : ℕ) (s : Session)
      → IsValid s.committed
      → Spec s.committed s.committed m Q (Denied actor_sub s.committed)
      → ((a : A) (s' : Session) → Q a s' → Sound s.committed s'.committed)
      → Sound s.committed (m (begin t s)).1.committed
  Sound-of_Spec actor_sub t s valid spec f =
      Sound-of_Ends actor_sub s.committed valid f (m (begin t s))
        (spec.run (begin t s) (At-begin t s))

  Sound-of_Unchanged_Spec :
      (t : ℕ) (s : Session)
      → IsValid s.committed
      → Spec s.committed s.committed m Q (Unchanged s.committed)
      → ((a : A) (s' : Session) → Q a s' → Sound s.committed s'.committed)
      → Sound s.committed (m (begin t s)).1.committed
  Sound-of_Unchanged_Spec t s valid spec f =
      Sound-of_Unchanged s.committed valid f (m (begin t s)) (spec.run (begin t s) (At-begin t s))

module _ (px : Pydantic) (client : OwnershipClient) (collation : String → String → Bool) where
  Sound-serve :
      (r : Request) (t : ℕ) (s : Session)
      → IsValid s.committed
      → Sound s.committed (serve px client collation r (begin t s)).committed
  unfolding serve
  Sound-serve (register_agent_request sub owner_sub owner_email display_name accepted_types) t s
        valid =
      Sound-of_Unchanged_Spec t s valid
        (Spec-register_agent (Sound-of_valid valid) sub owner_sub owner_email display_name
          accepted_types)
        (λ a s' h. h.sound)
  Sound-serve
        (start_conversation_request actor initiator conversation_type targets message message_type
          version expires_at)
        t s valid =
      Sound-of_Spec actor t s valid
        (Spec-start_conversation (Sound-of_valid valid) actor px client initiator conversation_type
          targets message message_type version expires_at)
        (λ a s' h. h.opened.sound)
  Sound-serve (accept_invite_request actor agent_id conversation_id) t s valid =
      Sound-of_Spec actor t s valid
        (Spec-accept_invite (Sound-of_valid valid) actor agent_id conversation_id)
        (λ a s' h. h.sound)
  Sound-serve (decline_invite_request actor agent_id conversation_id) t s valid =
      Sound-of_Spec actor t s valid
        (Spec-decline_invite (Sound-of_valid valid) actor agent_id conversation_id)
        (λ a s' h. h.sound)
  Sound-serve (invite_request actor inviter conversation_id target) t s valid =
      Sound-of_Spec actor t s valid
        (Spec-invite (Sound-of_valid valid) client actor inviter conversation_id target)
        (λ a s' h. h.sound)
  Sound-serve (leave_request actor agent_id conversation_id) t s valid =
      Sound-of_Spec actor t s valid
        (Spec-leave (Sound-of_valid valid) actor agent_id conversation_id) (λ a s' h. h.sound)
  Sound-serve (post_message_request actor sender conversation_id message_type payload version) t s
        valid =
      Sound-of_Spec actor t s valid
        (Spec-post_message (Sound-of_valid valid) px client actor sender conversation_id
          message_type payload version)
        (λ a s' h. h.appended.sound)
  Sound-serve (get_conversation_request actor caller conversation_id since) t s valid =
      Sound-of_Spec actor t s valid
        (Spec-get_conversation (Sound-of_valid valid) collation actor caller conversation_id since)
        (λ a s' h. h.sound)

  pub Sound-run :
      (rs : List (ℕ × Request)) (s : Session)
      → IsValid s.committed
      → Sound s.committed (run px client collation rs s).committed
  unfolding run
  Sound-run [] s valid = Sound-of_valid valid
  Sound-run ((t, r) ∷ rs) s valid =
      let first = Sound-serve r t s valid in
      Sound-trans first (Sound-run rs (serve px client collation r (begin t s)) first.valid)
