-- ===== src/Tests/Rules.antt =====
-- The rules at small inputs, and whole runs of the calls.
use rh_reclaw.Common.{
  ◌≡◌, refl, ℕ, ◌↔◌, ◌⊎◌, String, List, [], ◌∷◌, true, false, All, string_eq, some,
}
use rh_reclaw.Common.Result.{ok}
use rh_reclaw.Models.{ConversationState, state_eq, Conversation}
use rh_reclaw.Schemas.{validate_payload}
use rh_reclaw.Schemas.Validation.{Accepts}
use rh_reclaw.StateMachine.{is_boundary_crossing_safe, subset}
use rh_reclaw.Service.Lookups.{maybe_expire}
use rh_reclaw.Service.Ownership.{pairwise_admitted, same_set, all_pairs}
use rh_reclaw.Service.Conversations.{enforce_start_rate_limit}
use rh_reclaw.Service.Messages.{enforce_message_rate_limit}
use rh_reclaw.Common.Rows.{find_row}
use rh_reclaw.Session.{Session, conversation_row}
use rh_reclaw.Guarantees.Limits.{FewerThan, PostedSince, StartedSince}
use rh_reclaw.Guarantees.Expiry.{ExpiresWhenDue}
use rh_reclaw.Properties.Rules.{
  validate_payload-Accepts, is_boundary_crossing_safe_iff, enforce_message_rate_limit_iff,
  enforce_start_rate_limit_iff, pairwise_admitted-internal, maybe_expire_state,
}
use rh_reclaw.Tests.Board.{any_payload, agent, agents_only, fresh_session}

validate_payload-Accepts_example :
    (validate_payload any_payload "decline" 1 [] ≡ ok []) ↔ Accepts any_payload "decline" 1 [] []
validate_payload-Accepts_example = validate_payload-Accepts any_payload "decline" 1 [] []

is_boundary_crossing_safe_iff_example :
    (is_boundary_crossing_safe "asymmetric" false ("a" ∷ []) ("a" ∷ []) ≡ true) ↔ (
      ((◌≡◌ {A = String} "asymmetric" "open") × (false ≡ true))
      ⊎ ((◌≡◌ {A = String} "asymmetric" "internal")
          ⊎ ((◌≡◌ {A = String} "asymmetric" "asymmetric")
              × ((false ≡ true) ⊎ (subset ("a" ∷ []) ("a" ∷ []) ≡ true)))))
is_boundary_crossing_safe_iff_example =
    is_boundary_crossing_safe_iff "asymmetric" false ("a" ∷ []) ("a" ∷ [])

abbrev old_conversation : Conversation
old_conversation = record {
  id = 100;
  type = "internal";
  state = ConversationState.active;
  created_by = 1;
  expires_at = 500;
  owner_snapshot = some ("owen" ∷ []);
  created_at = 10;
}

enforce_message_rate_limit_iff_example :
    ((enforce_message_rate_limit "alice" 1 old_conversation fresh_session).0 ≡ ok tt)
    ↔ FewerThan 30 (PostedSince 100 1 1000) []
enforce_message_rate_limit_iff_example =
    enforce_message_rate_limit_iff "alice" 1 old_conversation fresh_session

enforce_start_rate_limit_iff_example :
    ((enforce_start_rate_limit "alice" (agent 1 "alice" "owen") fresh_session).0 ≡ ok tt)
    ↔ FewerThan 10 (StartedSince 1 1000) []
enforce_start_rate_limit_iff_example =
    enforce_start_rate_limit_iff "alice" (agent 1 "alice" "owen") fresh_session

abbrev two_sets : List (ℕ × List String)
two_sets = (1, "a" ∷ "b" ∷ []) ∷ (2, "b" ∷ "a" ∷ []) ∷ []

two_sets_admitted : pairwise_admitted "internal" two_sets ≡ true
unfolding pairwise_admitted all_pairs
two_sets_admitted = refl

pairwise_admitted-internal_example :
    All
      (λ (a : ℕ × List String). All (λ (b : ℕ × List String). same_set a.1 b.1 ≡ true) two_sets)
      two_sets
pairwise_admitted-internal_example = pairwise_admitted-internal two_sets two_sets_admitted

abbrev old_session : Session
old_session = record fresh_session {
  working = record agents_only { conversations = old_conversation ∷ [] };
}

old_found : conversation_row 100 old_session.working ≡ some old_conversation
unfolding find_row
old_found = refl

maybe_expire_state_example :
    ExpiresWhenDue "alice" old_conversation old_session
      (maybe_expire "alice" old_conversation old_session)
maybe_expire_state_example = maybe_expire_state "alice" old_conversation old_session old_found
