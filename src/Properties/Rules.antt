-- ===== src/Properties/Rules.antt =====
-- The rules that the calls apply: payloads, legality, rate limits, expiry and ownership.
use rh_reclaw.Common.{
  some, ◌≡◌, refl, sym, subst, ℕ, ◌↔◌, ◌⊎◌, inl, inr, String, List, [], ◌∷◌, Bool, true, false,
  ◌&&◌, all, All, contains, ◌==◌, ==_iff, string_eq, arith, if◌then◌else◌, Bool-cases,
}
use rh_reclaw.Common.Json.{Dict}
use rh_reclaw.Common.Result.{ok}
use rh_reclaw.Common.Rows.{All-map}
use rh_reclaw.Models.{Agent, Conversation, state_eq}
use rh_reclaw.Schemas.{Pydantic, validate_payload}
use rh_reclaw.Schemas.Validation.{Accepts, Accepts-of_ok, ok_of_Accepts}
use rh_reclaw.StateMachine.{is_boundary_crossing_safe, subset}
use rh_reclaw.Session.{conversation_row, Session}
use rh_reclaw.Guarantees.Limits.{
  FewerThan, PostedSince, StartedSince, enforce_message_rate_limit_iff_lem,
  enforce_start_rate_limit_iff_lem,
}
use rh_reclaw.Guarantees.Expiry.{ExpiresWhenDue, maybe_expire_lem}
use rh_reclaw.Service.Lookups.{maybe_expire}
use rh_reclaw.Service.Ownership.{all_pairs, pairwise_admitted, same_set}
use rh_reclaw.Service.Conversations.{enforce_start_rate_limit}
use rh_reclaw.Service.Messages.{enforce_message_rate_limit}

-- A payload is accepted as `dumped` just when its type and version are registered, the model of
-- that schema validates it to `dumped`, and neither is larger than 65536 bytes of JSON.
pub validate_payload-Accepts :
    (px : Pydantic) (message_type : String) (version : ℕ) (payload dumped : Dict)
    → (validate_payload px message_type version payload ≡ ok dumped)
      ↔ Accepts px message_type version payload dumped
validate_payload-Accepts px message_type version payload dumped = (
  Accepts-of_ok px message_type version payload dumped,
  ok_of_Accepts px message_type version payload dumped,
)

if_or : (b u : Bool) → (if b then true else u) ≡ true → (b ≡ true) ⊎ (u ≡ true)
if_or true u h = inl refl
if_or false u h = inr h

or_if : (b u : Bool) → (b ≡ true) ⊎ (u ≡ true) → (if b then true else u) ≡ true
or_if true u h = refl
or_if false u (inl h) = cc h
or_if false u (inr h) = h

module _ (boundary_safe : Bool) (sender_owners other_owners : List String) where
  abbrev Allowed : String → Type 0
  Allowed t =
      ((t ≡ "open") × (boundary_safe ≡ true))
      ⊎ ((t ≡ "internal")
          ⊎ ((t ≡ "asymmetric")
              × ((boundary_safe ≡ true) ⊎ (subset other_owners sender_owners ≡ true))))

  crossing :
      (t : String)
      → is_boundary_crossing_safe t boundary_safe sender_owners other_owners ≡ true
      → Allowed t
  unfolding is_boundary_crossing_safe
  crossing t h = elim (Bool-cases (t == "open")) [
    | inl e ↦ inl ((==_iff t "open").0 e, rw e at h)
    | inr e ↦ elim (Bool-cases (t == "internal")) [
      | inl i ↦ inr (inl ((==_iff t "internal").0 i))
      | inr i ↦ elim (Bool-cases (t == "asymmetric")) [
        | inl a ↦ inr (inr ((==_iff t "asymmetric").0 a, if_or _ _ (rw (e, i, a) at h)))
        | inr a ↦ absurd (cc (rw (e, i, a) at h))
      ]
    ]
  ]

  safe :
      (t : String)
      → Allowed t
      → is_boundary_crossing_safe t boundary_safe sender_owners other_owners ≡ true
  unfolding is_boundary_crossing_safe
  safe t (inl (e, h)) =
      subst (λ x. is_boundary_crossing_safe x boundary_safe sender_owners other_owners ≡ true)
        (sym e) h
  safe t (inr (inl e)) =
      subst (λ x. is_boundary_crossing_safe x boundary_safe sender_owners other_owners ≡ true)
        (sym e) refl
  safe t (inr (inr (e, h))) =
      subst (λ x. is_boundary_crossing_safe x boundary_safe sender_owners other_owners ≡ true)
        (sym e) (or_if _ _ h)

-- A crossing is safe just when `open` carries a boundary-safe type, or the conversation is
-- `internal`, or it is `asymmetric` and the type is boundary-safe or the others' owners are all
-- the sender's.
pub is_boundary_crossing_safe_iff :
    (conversation_type : String) (boundary_safe : Bool) (sender_owners other_owners : List String)
    → (is_boundary_crossing_safe conversation_type boundary_safe sender_owners other_owners ≡ true)
      ↔ (((conversation_type ≡ "open") × (boundary_safe ≡ true))
          ⊎ ((conversation_type ≡ "internal")
              ⊎ ((conversation_type ≡ "asymmetric")
                  × ((boundary_safe ≡ true) ⊎ (subset other_owners sender_owners ≡ true)))))
unfolding is_boundary_crossing_safe
is_boundary_crossing_safe_iff conversation_type boundary_safe sender_owners other_owners = (
  crossing boundary_safe sender_owners other_owners conversation_type,
  safe boundary_safe sender_owners other_owners conversation_type,
)

-- The message limit lets a message pass just when fewer than 30 of the conversation's messages are
-- the sender's own of the hour before the reading of the clock.
pub enforce_message_rate_limit_iff :
    (actor : String) (sender : ℕ) (c : Conversation) (s : Session)
    → ((enforce_message_rate_limit actor sender c s).0 ≡ ok tt)
      ↔ FewerThan 30 (PostedSince c.id sender (s.ticks s.reads)) s.working.messages
enforce_message_rate_limit_iff = enforce_message_rate_limit_iff_lem

-- The start limit lets a conversation start just when fewer than 10 of the conversations were
-- started by its initiator in the hour before the reading of the clock.
pub enforce_start_rate_limit_iff :
    (actor : String) (initiator : Agent) (s : Session)
    → ((enforce_start_rate_limit actor initiator s).0 ≡ ok tt)
      ↔ FewerThan 10 (StartedSince initiator.id (s.ticks s.reads)) s.working.conversations
enforce_start_rate_limit_iff = enforce_start_rate_limit_iff_lem

module _ {A : Type 0} (test : A → A → Bool) where
  all-All : (x : A) (xs : List A) → all (test x) xs ≡ true → All (λ y. test x y ≡ true) xs
  all-All x [] h = tt
  all-All x (y ∷ ys) h =
      let parts : (test x y ≡ true) × (all (test x) ys ≡ true) = ground arith in
      (parts.0, all-All x ys parts.1)

  All-zip : (P Q : A → Type 0) (xs : List A) → All P xs → All Q xs → All (λ x. P x × Q x) xs
  All-zip P Q [] p q = tt
  All-zip P Q (x ∷ xs) p q = ((p.0, q.0), All-zip P Q xs p.1 q.1)

  all_pairs-All :
      ((x : A) → test x x ≡ true)
      → ((x y : A) → test x y ≡ true → test y x ≡ true)
      → (xs : List A) → all_pairs test xs ≡ true
      → All (λ x. All (λ y. test x y ≡ true) xs) xs
  unfolding all_pairs
  all_pairs-All same swap [] h = tt
  all_pairs-All same swap (x ∷ xs) h =
      let parts : (all (test x) xs ≡ true) × (all_pairs test xs ≡ true) = ground arith in
      let row = all-All x xs parts.0 in
      (
        (same x, row),
        All-map xs (λ y p. (swap x y p.0, p.1))
            (All-zip _ _ xs row (all_pairs-All same swap xs parts.1)),
      )

subset_here : (x : String) (a b : List String) → subset a b ≡ true → subset a (x ∷ b) ≡ true
subset_here x [] b h = refl
subset_here x (y ∷ a) b h =
    let parts : (contains y b ≡ true) × (subset a b ≡ true) = ground arith in
    let rest = subset_here x a b parts.1 in ground arith

subset_refl : (a : List String) → subset a a ≡ true
subset_refl [] = refl
subset_refl (x ∷ a) = let rest = subset_here x a a (subset_refl a) in rw ((==_iff x x).1 refl) rest

-- An `internal` conversation is admitted only where every participant's owners are exactly every
-- other's: each owner set of the list is the same set as each.
pub pairwise_admitted-internal :
    (owner_sets : List (ℕ × List String))
    → pairwise_admitted "internal" owner_sets ≡ true
    → All
        (λ (a : ℕ × List String). All (λ (b : ℕ × List String). same_set a.1 b.1 ≡ true) owner_sets)
        owner_sets
unfolding pairwise_admitted
pairwise_admitted-internal owner_sets h =
    all_pairs-All (λ (a b : ℕ × List String). same_set a.1 b.1) (λ a. rw (subset_refl a.1) refl)
      (λ a b e. swap (subset a.1 b.1) (subset b.1 a.1) e) owner_sets h
  where
    swap : (p q : Bool) → (p && q) ≡ true → (q && p) ≡ true
    swap p q e = ground arith

-- Of a conversation that is in the tables, `_maybe_expire` either gives back the expired one, stored
-- as such with an audit row and no other table changed, and then it was active and its expiry not
-- after the reading of the clock, or gives back the conversation with the tables as they were, and
-- then it was not active or its expiry is after the reading.
pub maybe_expire_state :
    (actor : String) (c : Conversation) (s : Session)
    → conversation_row c.id s.working ≡ some c
    → ExpiresWhenDue actor c s (maybe_expire actor c s)
maybe_expire_state = maybe_expire_lem
