-- ===== src/Guarantees/Boundary.antt =====
-- The ownership boundary: what a message that crosses none satisfies.
use mathlib.Core.List.{flatten}
use mathlib.Core.Option.{some-injective}
use rh_reclaw.Common.{
  ◌≡◌, refl, sym, subst, ℕ, String, some, List, [], ◌∷◌, ◌++◌, Bool, true, false, arith, string_eq,
  all, All, contains, Option-cases, inl, inr,
}
use rh_reclaw.Models.{Db, role_eq}
use rh_reclaw.Schemas.{conversation_types}
use rh_reclaw.StateMachine.{subset}
use rh_reclaw.Service.Ownership.{OwnershipClient, OwnerInfo, owners_of}
use rh_reclaw.Service.Gates.{other_owner_sets}

-- The agent's owners were looked up, and are all among `owners`.
abbrev pub OwnedWithin : OwnershipClient → Db → List String → ℕ → Type 0
OwnedWithin client db owners i =
    (o : OwnerInfo) × (client i db ≡ some o) × (subset (owners_of o) owners ≡ true)

-- What the boundary rule asks of a message: of a known conversation type, `open` carries only
-- boundary-safe types, and under `asymmetric` any other type only reaches agents whose owners are
-- all the sender's.
pub record StaysInside (client : OwnershipClient) (db : Db) (conversation_type : String)
    (boundary_safe : Bool) (sender : ℕ) (others : List ℕ) : Type 0 where
  pub known_type : contains conversation_type conversation_types ≡ true
  pub in_open : conversation_type ≡ "open" → boundary_safe ≡ true
  pub in_asymmetric :
      conversation_type ≡ "asymmetric"
      → boundary_safe ≡ false
      → (info : OwnerInfo) × (client sender db ≡ some info)
        × All (OwnedWithin client db (owners_of info)) others

all-append :
    (p : String → Bool) (xs ys : List String)
    → all p (xs ++ ys) ≡ true
    → (all p xs ≡ true) × (all p ys ≡ true)
all-append p [] ys h = (refl, h)
all-append p (x ∷ xs) ys h = ground (arith, all-append p xs ys)

other_owner_sets-cons :
    (client : OwnershipClient) (db : Db) (i : ℕ) (ids : List ℕ) (sets : List (List String))
    → other_owner_sets client (i ∷ ids) db ≡ some sets
    → (o : OwnerInfo) × (rest : List (List String)) × (client i db ≡ some o)
      × (other_owner_sets client ids db ≡ some rest)
      × (owners_of o ∷ rest ≡ sets)
unfolding other_owner_sets
other_owner_sets-cons client db i ids sets h = elim (Option-cases (client i db)) [
  | inl missing ↦ absurd (cc (rw (missing, other_owner_sets) at h))
  | inr (o, found) ↦ elim (Option-cases (other_owner_sets client ids db)) [
    | inl missing ↦ absurd (cc (rw (found, other_owner_sets, missing) at h))
    | inr (rest, others) ↦
        (o, rest, found, others, some-injective _ _ (rw (found, other_owner_sets, others) at h))
  ]
]

-- The union of the others' owners lies within `owners`: each of them does.
pub OwnedWithin-others :
    (client : OwnershipClient) (db : Db) (owners : List String) (ids : List ℕ)
    (sets : List (List String))
    → other_owner_sets client ids db ≡ some sets
    → subset (flatten sets) owners ≡ true
    → All (OwnedWithin client db owners) ids
unfolding other_owner_sets flatten
OwnedWithin-others client db owners [] sets h within = tt
OwnedWithin-others client db owners (i ∷ ids) sets h within =
    let (o, rest, found, others, e) = other_owner_sets-cons client db i ids sets h in
    let parts =
      all-append (λ x. contains x owners) (owners_of o) (flatten rest)
        (subst (λ l. subset (flatten l) owners ≡ true) (sym e) within) in
    ((o, found, parts.0), OwnedWithin-others client db owners ids rest others parts.1)
