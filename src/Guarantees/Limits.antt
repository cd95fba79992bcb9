-- ===== src/Guarantees/Limits.antt =====
-- The rate limits: how many rows a limit counts, and what a conversation that starts has shown.
use rh_reclaw.Common.{
  ◌≡◌, refl, sym, subst, ◌⊎◌, ◌↔◌, inl, inr, ℕ, suc, ◌+◌, ◌<◌, String, Option, List, [], ◌∷◌, Bool,
  true, false, not, length, leb, arith, ◌==◌, nat_eq, Bool-cases, Option-cases,
}
use rh_reclaw.Common.Json.{Dict}
use rh_reclaw.Common.Result.{Result, ok, err}
use rh_reclaw.Common.Rows.{select}
use rh_reclaw.Models.{Agent, AgentStatus, agent_status_eq, Conversation, Message}
use rh_reclaw.Schemas.{Pydantic}
use rh_reclaw.Exceptions.{ServiceError}
use rh_reclaw.Session.{
  Session, Exec, pure, ◌>>=◌, when, or_else, query, now, raise, commit, write, transaction_now,
  agent_row,
}
use rh_reclaw.Session.Triple.{Ends, Ends-resume}
use rh_reclaw.Service.Denials.{audit, deny, deny_rate_limited}
use rh_reclaw.Service.Lookups.{require_active_agent, find_agent_by_id}
use rh_reclaw.Service.Ownership.{OwnershipClient}
use rh_reclaw.Service.Conversations.{recent_starts, enforce_start_rate_limit, start_conversation}
use rh_reclaw.Service.Messages.{recent_messages, enforce_message_rate_limit}
use rh_reclaw.Guarantees.Loading.{id-agent_row}

-- Of the rows, exactly `n` satisfy `P`.
abbrev pub CountIs : {A : Type 0} → (A → Type 0) → List A → ℕ → Type 0
CountIs P [] n = n ≡ 0
CountIs P (x ∷ xs) n = (P x × (k : ℕ) × (n ≡ suc k) × CountIs P xs k) ⊎ ((¬ P x) × CountIs P xs n)

abbrev pub FewerThan : {A : Type 0} → ℕ → (A → Type 0) → List A → Type 0
FewerThan limit P xs = (n : ℕ) × CountIs P xs n × (n < limit)

-- A message that the agent posted to the conversation in the hour before `t`.
abbrev pub PostedSince : ℕ → ℕ → ℕ → Message → Type 0
PostedSince conversation_id sender t m =
    (m.conversation_id ≡ conversation_id) × (m.sender_id ≡ sender) × (t < m.created_at + 3600000000)

-- A conversation that the agent started in the hour before `t`.
abbrev pub StartedSince : ℕ → ℕ → Conversation → Type 0
StartedSince agent_id t c = (c.created_by ≡ agent_id) × (t < c.created_at + 3600000000)

module _ {A : Type 0} (P : A → Type 0) where
  CountIs-unique : (xs : List A) (n k : ℕ) → CountIs P xs n → CountIs P xs k → n ≡ k
  CountIs-unique [] n k h h' = cc (h, h')
  CountIs-unique (x ∷ xs) n k (inl (p, a, e, h)) (inl (p', b, e', h')) =
      let same = CountIs-unique xs a b h h' in cc (e, e', same)
  CountIs-unique (x ∷ xs) n k (inl (p, a, e, h)) (inr (q, h')) = absurd (q p)
  CountIs-unique (x ∷ xs) n k (inr (q, h)) (inl (p, a, e, h')) = absurd (q p)
  CountIs-unique (x ∷ xs) n k (inr (q, h)) (inr (q', h')) = CountIs-unique xs n k h h'

  module _ (test : A → Bool) (same : (x : A) → (test x ≡ true) ↔ P x) where
    CountIs-select : (xs : List A) → CountIs P xs (length (select test xs))
    CountIs-select [] = refl
    CountIs-select (x ∷ xs) = elim (Bool-cases (test x)) [
      | inl e ↦ rw e (inl ((same x).0 e, length (select test xs), refl, CountIs-select xs))
      | inr e ↦ rw e (inr ((λ p. absurd (cc (e, (same x).1 p))), CountIs-select xs))
    ]

    fewer_iff : (limit : ℕ) (xs : List A) → (length (select test xs) < limit) ↔ FewerThan limit P xs
    fewer_iff limit xs = (
      λ h. (length (select test xs), CountIs-select xs, h),
      λ (n, counted, h).
          subst (λ k. k < limit) (CountIs-unique xs n _ counted (CountIs-select xs)) h,
    )

-- A limit that raises where it is reached.
when-leb_iff :
    (limit n : ℕ) (m : Exec Unit) (s : Session) (e : ServiceError)
    → (m s).0 ≡ err e
    → ((when (leb limit n) m s).0 ≡ ok tt) ↔ (n < limit)
unfolding when pure
when-leb_iff limit n m s e fails = elim (Bool-cases (leb limit n)) [
  | inl reached ↦
      let k : ¬ (n < limit) = λ h. ground arith in
      ((λ h. absurd (cc (rw reached at h, fails))), (λ h. absurd (k h)))
  | inr below ↦ let k : n < limit = ground arith in ((λ h. k), (λ h. rw below refl))
]

pub enforce_message_rate_limit_iff_lem :
    (actor : String) (sender : ℕ) (c : Conversation) (s : Session)
    → ((enforce_message_rate_limit actor sender c s).0 ≡ ok tt)
      ↔ FewerThan 30 (PostedSince c.id sender (s.ticks s.reads)) s.working.messages
unfolding enforce_message_rate_limit deny_rate_limited audit now query when ◌>>=◌ pure raise commit
    write transaction_now
enforce_message_rate_limit_iff_lem actor sender c s =
    let limit =
      when-leb_iff 30 (recent_messages c.id sender (s.ticks s.reads) s.working.messages) _ _ _
        refl in
    let fewer =
      fewer_iff (PostedSince c.id sender (s.ticks s.reads)) _ (λ m. ground arith) 30
        s.working.messages in
    ((λ h. fewer.0 (limit.0 h)), (λ h. limit.1 (fewer.1 h)))

pub enforce_start_rate_limit_iff_lem :
    (actor : String) (initiator : Agent) (s : Session)
    → ((enforce_start_rate_limit actor initiator s).0 ≡ ok tt)
      ↔ FewerThan 10 (StartedSince initiator.id (s.ticks s.reads)) s.working.conversations
unfolding enforce_start_rate_limit deny_rate_limited audit now query when ◌>>=◌ pure raise commit
    write transaction_now
enforce_start_rate_limit_iff_lem actor initiator s =
    let limit =
      when-leb_iff 10 (recent_starts initiator.id (s.ticks s.reads) s.working.conversations) _ _ _
        refl in
    let fewer =
      fewer_iff (StartedSince initiator.id (s.ticks s.reads)) _ (λ m. ground arith) 10
        s.working.conversations in
    ((λ h. fewer.0 (limit.0 h)), (λ h. limit.1 (fewer.1 h)))

-- However a call ends where it raises.
abbrev Any : ServiceError → Session → Type 0
Any e s = Unit

Ends-const :
    {B : Type 0} (K : Type 0) (x : Result ServiceError B × Session) → K → Ends (λ _ _. K) Any x
Ends-const K (ok b, s) k = k
Ends-const K (err e, s) k = tt

module _ {A B : Type 0} where
  -- A call that leaves the whole session as it was, and what comes after it.
  Ends-after :
      (F : A → Type 0) (Q : B → Session → Type 0) (m : Exec A) (f : A → Exec B) (s : Session)
      → Ends (λ a s'. (s' ≡ s) × F a) Any (m s)
      → ((a : A) → F a → Ends Q Any (f a s))
      → Ends Q Any ((m >>= f) s)
  unfolding ◌>>=◌
  Ends-after F Q m f s h next =
      Ends-resume (λ a s'. (s' ≡ s) × F a) Q Any f
        (λ a s' k. subst (λ z. Ends Q Any (f a z)) (sym k.0) (next a k.1)) (m s) h

  -- What the first call has shown stays shown.
  Ends-first :
      (K : Type 0) (m : Exec A) (f : A → Exec B) (s : Session)
      → Ends (λ _ _. K) Any (m s)
      → Ends (λ _ _. K) Any ((m >>= f) s)
  unfolding ◌>>=◌
  Ends-first K m f s h =
      Ends-resume (λ _ _. K) (λ _ _. K) Any f (λ a s' k. Ends-const K (f a s') k) (m s) h

Ends-require_active_agent :
    (actor : String) (agent_id : ℕ) (s : Session)
    → Ends (λ a s'. (s' ≡ s) × (a.id ≡ agent_id)) Any (require_active_agent actor agent_id s)
unfolding require_active_agent find_agent_by_id query or_else deny audit transaction_now write
    commit raise when pure ◌>>=◌
Ends-require_active_agent actor agent_id s = elim (Option-cases (agent_row agent_id s.working)) [
  | inl missing ↦ rw missing tt
  | inr (a, found) ↦ rw found (elim (Bool-cases (not (a.status == AgentStatus.active))) [
    | inl e ↦ rw e tt
    | inr e ↦ rw e (refl, id-agent_row s.working agent_id a found)
  ])
]

Ends-when-raise :
    (b : Bool) (e : ServiceError) (s : Session)
    → Ends (λ _ s'. (s' ≡ s) × Unit) Any (when b (raise e) s)
unfolding when raise pure
Ends-when-raise true e s = tt
Ends-when-raise false e s = (refl, tt)

Ends-of_ok :
    (K : Type 0) (x : Result ServiceError Unit × Session)
    → (x.0 ≡ ok tt → K)
    → Ends (λ _ _. K) Any x
Ends-of_ok K (ok tt, s) h = h refl
Ends-of_ok K (err e, s) h = tt

pub start_conversation-FewerThan :
    (px : Pydantic) (client : OwnershipClient) (actor : String) (initiator : ℕ)
    (conversation_type : String) (targets : List ℕ) (message : Dict) (message_type : String)
    (version : ℕ) (expires_at : Option ℕ) (s : Session)
    → Ends
        (λ _ _. FewerThan 10 (StartedSince initiator (s.ticks s.reads)) s.working.conversations)
        Any
        (start_conversation px client actor initiator conversation_type targets message message_type
          version expires_at s)
unfolding start_conversation
start_conversation-FewerThan px client actor initiator conversation_type targets message
      message_type version expires_at s =
    Ends-after (λ a. a.id ≡ initiator) _ _ _ s (Ends-require_active_agent actor initiator s)
      λ a same.
        Ends-after (λ _. Unit) _ _ _ s (Ends-when-raise _ _ s)
          λ _ _.
            Ends-after (λ _. Unit) _ _ _ s (Ends-when-raise _ _ s)
              λ _ _.
                Ends-after (λ _. Unit) _ _ _ s (Ends-when-raise _ _ s)
                  λ _ _. Ends-first _ _ _ s (
                    Ends-of_ok _ (enforce_start_rate_limit actor a s) λ h.
                      subst
                        (λ i.
                          FewerThan 10 (StartedSince i (s.ticks s.reads)) s.working.conversations)
                        same ((enforce_start_rate_limit_iff_lem actor a s).0 h))

-- Both of what holds of a return.
pub Ends-both :
    {A : Type 0} (Q R : A → Session → Type 0) (E : ServiceError → Session → Type 0)
    (x : Result ServiceError A × Session)
    → Ends Q E x
    → Ends R Any x
    → Ends (λ a s. Q a s × R a s) E x
Ends-both Q R E (ok a, s) h k = (h, k)
Ends-both Q R E (err e, s) h k = h
