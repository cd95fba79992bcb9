-- ===== src/Guarantees/Dispatch/Strangers.antt =====
-- What a tool answers to a caller without a present membership.
use rh_reclaw.Common.{◌≡◌, refl, ◌∙◌, ap, ℕ, String, Option, some, Bool, false, string_eq}
use rh_reclaw.Common.Result.{Result, ok, err}
use rh_reclaw.Common.Rows.{find_row}
use rh_reclaw.Common.Json.{Dict}
use rh_reclaw.Common.Stdlib.{Stdlib, pos}
use rh_reclaw.Models.{Agent}
use rh_reclaw.Schemas.{Pydantic}
use rh_reclaw.Exceptions.{ServiceError, access_denied}
use rh_reclaw.Session.{Session, Exec, query}
use rh_reclaw.Service.Lookups.{get_agent_by_sub}
use rh_reclaw.Service.Membership.{accept_invite, decline_invite, invite, leave}
use rh_reclaw.Service.Messages.{post_message}
use rh_reclaw.Service.Reads.{get_conversation}
use rh_reclaw.Service.Ownership.{agent_table_client}
use rh_reclaw.Identity.{AccessToken}
use rh_reclaw.Call.{
  Failure, tool_error, World, Call, continue, ◌>>=◌, ◌>>◌, checked, settle, in_session,
  open_session, reject_if,
}
use rh_reclaw.Tools.Caller.{caller_sub, registered, resolve_caller_agent}
use rh_reclaw.Tools.Errors.{map_service_errors, access_denied_message}
use rh_reclaw.Tools.Parsing.{parse_uuid}
use rh_reclaw.Tools.Conversations.{post_message_tool, get_conversation_tool}
use rh_reclaw.Tools.Membership.{accept_tool, decline_invite_tool, invite_tool, leave_tool}
use rh_reclaw.Guarantees.Strangers.{
  Denies, Stranger, Denies-accept_invite, Denies-decline_invite, Denies-leave, Denies-invite,
  Denies-get_conversation, Denies-post_message,
}
use rh_reclaw.Guarantees.Dispatch.{opened}

-- The one answer.
abbrev pub uniform : Result Failure Dict
uniform = err (tool_error access_denied_message)

module _ {A B : Type 0} where
  checked-ok :
      {x : Result String A} (a : A) (f : A → Call B) (w : World)
      → x ≡ ok a
      → (checked x >>= f) w ≡ f a w
  unfolding checked ◌>>=◌
  checked-ok a f w h = rw h refl

  settle-err :
      (g : ServiceError → Failure) (f : A → Call B) (w : World) (e : ServiceError)
      (x : Result ServiceError A × Session)
      → x.0 ≡ err e
      → (continue f (settle g w x)).0 ≡ err (g e)
  settle-err g f w e (ok a, s) h = absurd (cc h)
  settle-err g f w e (err e', s) h = cc h

reject_if-pass :
    {B : Type 0} (message : String) (f : Unit → Call B) (w : World)
    → (reject_if false message >>= f) w ≡ f tt w
unfolding reject_if ◌>>=◌
reject_if-pass message f w = refl

module _ (py : Stdlib) (px : Pydantic) (collation : String → String → Bool)
    (found : Option AccessToken) (w : World) (sub : String) (k : Option String)
    (caller : caller_sub py found k ≡ ok sub) (a : Agent)
    (bound : find_row (λ (x : Agent). x.sub) sub w.session.committed.agents ≡ some a) where
  after_denial :
      {A : Type 0} (m : Agent → Exec A) (h : Agent → A → Call Dict)
      → Denies (m a) (opened w).session
      → ((open_session
            >> (resolve_caller_agent sub >>= λ b. in_session (map_service_errors py) (m b) >>= h b))
          w).0
        ≡ uniform
  unfolding ◌>>=◌ open_session resolve_caller_agent in_session get_agent_by_sub query registered
      checked map_service_errors
  after_denial m h denied = rw bound (
      settle-err (map_service_errors py) (h a) (opened w) (access_denied denied.reason)
        (m a (opened w).session) denied.raised)

  module _ (conversation_id : String) (i : ℕ)
      (parsed : parse_uuid py "conversation_id" conversation_id ≡ ok i)
      (stranger : Stranger w.session.committed i a.id) where
    pub accept_tool-stranger : (accept_tool py found conversation_id k w).0 ≡ uniform
    unfolding accept_tool
    accept_tool-stranger =
        ap (λ r. r.0) (checked-ok sub _ w caller ∙ checked-ok i _ w parsed)
        ∙ after_denial (λ b. accept_invite sub b.id i) _
            (Denies-accept_invite sub a.id i (opened w).session stranger)

    pub decline_invite_tool-stranger :
        (decline_invite_tool py found conversation_id k w).0 ≡ uniform
    unfolding decline_invite_tool
    decline_invite_tool-stranger =
        ap (λ r. r.0) (checked-ok sub _ w caller ∙ checked-ok i _ w parsed)
        ∙ after_denial (λ b. decline_invite sub b.id i) _
            (Denies-decline_invite sub a.id i (opened w).session stranger)

    pub leave_tool-stranger : (leave_tool py found conversation_id k w).0 ≡ uniform
    unfolding leave_tool
    leave_tool-stranger =
        ap (λ r. r.0) (checked-ok sub _ w caller ∙ checked-ok i _ w parsed)
        ∙ after_denial (λ b. leave sub b.id i) _
            (Denies-leave sub a.id i (opened w).session stranger)

    pub invite_tool-stranger :
        (target : String) (j : ℕ)
        → parse_uuid py "target_agent_id" target ≡ ok j
        → (invite_tool py found conversation_id target k w).0 ≡ uniform
    unfolding invite_tool
    invite_tool-stranger target j known =
        ap (λ r. r.0) (checked-ok sub _ w caller ∙ checked-ok i _ w parsed ∙ checked-ok j _ w known)
        ∙ after_denial (λ b. invite agent_table_client sub b.id i j) _
            (Denies-invite sub a.id i (opened w).session stranger agent_table_client j)

    pub post_message_tool-stranger :
        (message_type : String) (payload : Dict) (version : ℕ)
        → (post_message_tool py px found conversation_id message_type payload version k w).0
          ≡ uniform
    unfolding post_message_tool
    post_message_tool-stranger message_type payload version =
        ap (λ r. r.0) (checked-ok sub _ w caller ∙ checked-ok i _ w parsed)
        ∙ after_denial
            (λ b. post_message px agent_table_client sub b.id i message_type payload version) _
            (Denies-post_message sub a.id i (opened w).session stranger px agent_table_client
              message_type payload version)

    pub get_conversation_tool-stranger :
        (since : ℕ)
        → (get_conversation_tool py px found collation conversation_id (pos since) k w).0 ≡ uniform
    unfolding get_conversation_tool
    get_conversation_tool-stranger since =
        ap (λ r. r.0) (checked-ok sub _ w caller ∙ checked-ok i _ w parsed ∙ reject_if-pass _ _ w)
        ∙ after_denial (λ b. get_conversation collation sub b.id i since) _
            (Denies-get_conversation sub a.id i (opened w).session stranger collation since)
