-- ===== src/StateMachine.antt =====
-- state_machine.py: which message is legal, what state it leads to, and what may cross an
-- ownership boundary. A `frozenset` of owners is a list; only membership is asked of it.
use rh_reclaw.Common.{
  String, Option, none, some, List, [], ◌∷◌, Bool, true, false, not, ◌==◌, string_eq, contains, all,
  if◌then◌else◌,
}
use rh_reclaw.Models.{ConversationState, completed, canceled, state_eq}
use rh_reclaw.Schemas.{message_type_literals}

unfoldable pub is_message_legal : ConversationState → String → Bool
is_message_legal conversation_state message_type =
    if not (contains message_type message_type_literals)
    then false
    else conversation_state == ConversationState.active

unfoldable pub resulting_conversation_state : String → Bool → Option ConversationState
resulting_conversation_state message_type all_non_owners_declined =
    if contains message_type ("confirm" ∷ "task_complete" ∷ [])
    then some completed
    else if message_type == "decline"
    then (if all_non_owners_declined then some canceled else none)
    else if contains message_type ("task_decline" ∷ "task_cancel" ∷ [])
    then some canceled
    else none

-- `a <= b` on sets of owners
abbrev pub subset : List String → List String → Bool
subset a b = all (λ x. contains x b) a

unfoldable pub is_boundary_crossing_safe : String → Bool → List String → List String → Bool
is_boundary_crossing_safe conversation_type boundary_safe sender_owners other_owners =
    if conversation_type == "open"
    then boundary_safe
    else if conversation_type == "internal"
    then true
    else if not (conversation_type == "asymmetric")
    then false
    else if boundary_safe
    then true
    else subset other_owners sender_owners
