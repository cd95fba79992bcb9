-- ===== src/Guarantees/Dispatch.antt =====
-- What a tool call does to the tables: nothing, or what one request of its caller does.
pub mod Tools
pub mod Server
pub mod Strangers
pub mod Events
pub mod Logged
use rh_reclaw.Common.{
  ◌≡◌, refl, ◌∙◌, subst, ◌⊎◌, inl, inr, ℕ, String, Option, none, some, List, Bool, true, false,
  Option-cases, string_eq,
}
use rh_reclaw.Common.Result.{Result, ok, err}
use rh_reclaw.Common.Rows.{find_row}
use rh_reclaw.Common.Json.{Dict}
use rh_reclaw.Common.Stdlib.{Stdlib, ℤ, is_negative}
use rh_reclaw.Models.{Db, Agent}
use rh_reclaw.Schemas.{Pydantic}
use rh_reclaw.Exceptions.{ServiceError}
use rh_reclaw.Session.{Session, Exec, query}
use rh_reclaw.Session.Reading.{ReadOnly}
use rh_reclaw.Service.Lookups.{get_agent_by_sub}
use rh_reclaw.Service.Ownership.{agent_table_client}
use rh_reclaw.Service.Requests.{
  Request, register_agent_request, start_conversation_request, accept_invite_request,
  decline_invite_request, invite_request, leave_request, post_message_request,
  get_conversation_request, serve, begin,
}
use rh_reclaw.Identity.{AccessToken}
use rh_reclaw.Call.{
  Failure, World, Call, continue, done, ◌>>=◌, ◌>>◌, checked, reject_if, open_session, settle,
  in_session,
}
use rh_reclaw.Tools.Caller.{caller_sub, registered, resolve_caller_agent}

-- The agent is the one bound to the subject.
abbrev pub Bound : Db → String → ℕ → Type 0
Bound db sub id =
    (a : Agent) × (find_row (λ (x : Agent). x.sub) sub db.agents ≡ some a) × (a.id ≡ id)

-- A request that the subject may make: as itself, for the agent that is bound to it.
abbrev pub Own : Db → String → Request → Type 0
Own db sub (register_agent_request s _ _ _ _) = s ≡ sub
Own db sub (start_conversation_request actor id _ _ _ _ _ _) = (actor ≡ sub) × Bound db sub id
Own db sub (accept_invite_request actor id _) = (actor ≡ sub) × Bound db sub id
Own db sub (decline_invite_request actor id _) = (actor ≡ sub) × Bound db sub id
Own db sub (invite_request actor id _ _) = (actor ≡ sub) × Bound db sub id
Own db sub (leave_request actor id _) = (actor ≡ sub) × Bound db sub id
Own db sub (post_message_request actor id _ _ _ _) = (actor ≡ sub) × Bound db sub id
Own db sub (get_conversation_request actor id _ _) = (actor ≡ sub) × Bound db sub id

module _ (py : Stdlib) (px : Pydantic) (collation : String → String → Bool)
    (found : Option AccessToken) (agent_key : Option String) (s : Session) where
  -- The tables are as they were, or as one request of the caller's own, by its token and agent key,
  -- leaves them.
  abbrev pub Refined : Session → Type 0
  Refined s' =
      (s'.committed ≡ s.committed)
      ⊎ ((sub : String) × (r : Request) × (caller_sub py found agent_key ≡ ok sub)
          × Own s.committed sub r
          × (s'.committed
              ≡ (serve px agent_table_client collation r (begin s.txn_now s)).committed))

module _ {A B : Type 0} (R : Session → Type 0) where
  pub after_checked :
      (x : Result String A) (f : A → Call B) (w : World)
      → R w.session
      → ((a : A) → x ≡ ok a → R (f a w).1.session)
      → R ((checked x >>= f) w).1.session
  unfolding ◌>>=◌ checked
  after_checked (ok a) f w same h = h a refl
  after_checked (err e) f w same h = same

  after_settle :
      (g : ServiceError → Failure) (f : A → B) (w : World) (x : Result ServiceError A × Session)
      → R x.1
      → R (continue (λ a. done (f a)) (settle g w x)).1.session
  unfolding done
  after_settle g f w (ok a, s) h = h
  after_settle g f w (err e, s) h = h

  pub after_service :
      (g : ServiceError → Failure) (m : Exec A) (f : A → B) (w : World)
      → R (m w.session).1
      → R ((in_session g m >>= λ a. done (f a)) w).1.session
  unfolding ◌>>=◌ in_session
  after_service g m f w h = after_settle g f w (m w.session) h

-- A world whose session has just been opened.
abbrev pub opened : World → World
opened w = record w { session = record w.session { working = w.session.committed } }

module _ {B : Type 0} (R : Session → Type 0) where
  pub after_open :
      (f : Unit → Call B) (w : World)
      → R (f tt (opened w)).1.session
      → R ((open_session >>= f) w).1.session
  unfolding ◌>>=◌ open_session
  after_open f w h = h

  pub after_reject :
      (b : Bool) (message : String) (f : Unit → Call B) (w : World)
      → R w.session
      → R (f tt w).1.session
      → R ((reject_if b message >>= f) w).1.session
  unfolding ◌>>=◌ reject_if
  after_reject true message f w same h = same
  after_reject false message f w same h = h

  pub after_resolve :
      (sub : String) (f : Agent → Call B) (w : World)
      → R w.session
      → ((a : Agent)
          → find_row (λ (x : Agent). x.sub) sub w.session.working.agents ≡ some a
          → R (f a w).1.session)
      → R ((resolve_caller_agent sub >>= f) w).1.session
  unfolding ◌>>=◌ in_session get_agent_by_sub query resolve_caller_agent registered checked
  after_resolve sub f w same h =
      elim (Option-cases (find_row (λ (x : Agent). x.sub) sub w.session.working.agents)) [
        | inl missing ↦ rw missing same
        | inr (a, at) ↦ rw at (h a at)
      ]
