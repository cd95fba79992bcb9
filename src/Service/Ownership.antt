-- ===== src/Service/Ownership.antt =====
-- service.py, policy seams and ownership lookups. An ownership client is what answers
-- `get_agent_owners` at the tables of the moment; `none` is an exception. A `frozenset` of owners
-- is a list, compared as a set.
use rh_reclaw.Common.{
  ℕ, String, Option, none, some, List, [], ◌∷◌, Bool, true, false, ◌&&◌, any, all, contains, ◌==◌,
  nat_eq, string_eq, if◌then◌else◌,
}
use rh_reclaw.Models.{Db, ParticipantStatus, status_eq}
use rh_reclaw.StateMachine.{subset}
use rh_reclaw.Session.{agent_row}

-- `{"is_shared": ..., "owners": [...]}`; the second key may be missing.
pub record OwnerInfo : Type 0 where
  pub is_shared : Bool
  pub owners : Option (List String)

-- The protocol of that name.
abbrev pub OwnershipClient : Type 0
OwnershipClient = ℕ → Db → Option OwnerInfo

-- `frozenset(info.get("owners") or [])`
abbrev pub owners_of : OwnerInfo → List String
owners_of info = elim info.owners [ none ↦ [] | some owners ↦ owners ]

-- `AgentTableOwnershipClient.get_agent_owners`
unfoldable pub agent_table_client : OwnershipClient
agent_table_client agent_id db = elim (agent_row agent_id db) [
  | none ↦ none
  | some agent ↦ some (record { is_shared = false; owners = some (agent.owner_sub ∷ []) })
]

-- The owner sets of the agents, by id, or `none` where a lookup raises.
unfoldable pub owner_sets_for : OwnershipClient → List ℕ → Db → Option (List (ℕ × List String))
owner_sets_for client [] db = some []
owner_sets_for client (i ∷ is) db = elim (client i db) [
  | none ↦ none
  | some info ↦ elim (owner_sets_for client is db) [
    | none ↦ none
    | some sets ↦ some ((i, owners_of info) ∷ sets)
  ]
]

-- `not a.isdisjoint(b)`
unfoldable pub may_assign : List String → List String → Bool
may_assign creator_owners assignee_owners = any (λ x. contains x assignee_owners) creator_owners

-- `a == b` on sets
abbrev pub same_set : List String → List String → Bool
same_set a b = subset a b && subset b a

-- `all(test(a, b) for a, b in itertools.combinations(xs, 2))`
unfoldable pub all_pairs : {A : Type 0} → (A → A → Bool) → List A → Bool
all_pairs test [] = true
all_pairs test (x ∷ xs) = all (test x) xs && all_pairs test xs

-- The participants come with their owner sets, as the dict that the caller built holds them.
unfoldable pub pairwise_admitted : String → List (ℕ × List String) → Bool
pairwise_admitted conversation_type owner_sets =
    if conversation_type == "internal"
    then all_pairs (λ a b. same_set a.1 b.1) owner_sets
    else all_pairs (λ a b. may_assign a.1 b.1) owner_sets

unfoldable pub may_invite : ParticipantStatus → Bool
may_invite inviter_participant_status = inviter_participant_status == ParticipantStatus.active
