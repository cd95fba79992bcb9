-- ===== src/Guarantees/Conversations/Admission.antt =====
-- authorize_conversation_open: the owners that a conversation may bring together.
use mathlib.Core.List.{flat_map}
use mathlib.Core.Bool.{false≢true}
use rh_reclaw.Common.{
  ◌≡◌, ◌≢◌, refl, sym, ◌∙◌, ◌⊎◌, inl, inr, ℕ, String, List, [], ◌∷◌, Bool, All, all, contains,
  Bool-cases, ==_iff, ==-refl, arith, map, Option, some, none, true, false, not, any, ◌==◌,
  string_eq, true_of_not,
}
use rh_reclaw.Common.Text.{Pairwise, sorted_set, str_lt}
use rh_reclaw.Common.Rows.{All-map}
use rh_reclaw.StateMachine.{subset}
use rh_reclaw.Models.{Db, Agent}
use rh_reclaw.Session.Triple.{
  Checks, Spec-check, Checks-query, Checks-or_else, Checks-when, Checks-pure, Spec-if,
  Checks-weaken,
}
use rh_reclaw.Service.Ownership.{
  OwnershipClient, owner_sets_for, all_pairs, may_assign, same_set, pairwise_admitted,
}
use rh_reclaw.Service.Conversations.{admit, authorize_conversation_open}
use rh_reclaw.Board.Integrity.{KnownAgent}
use rh_reclaw.Board.Writes.{Sound}
use rh_reclaw.Guarantees.Denials.{Denied, Fails-deny}

-- Two participants may meet: in `internal` their owners are the same, otherwise they share one.
abbrev pub MayMeet : String → ℕ × List String → ℕ × List String → Type 0
MayMeet conversation_type a b =
    ((conversation_type ≡ "internal")
      × All (λ o. contains o b.1 ≡ true) a.1
      × All (λ o. contains o a.1 ≡ true) b.1)
    ⊎ ((conversation_type ≢ "internal")
        × (o : String) × (contains o a.1 ≡ true)
        × (contains o b.1 ≡ true))

-- Every owner set was looked up, none is empty, every two of the participants may meet, and the
-- snapshot holds all the owners.
pub record AdmittedOwners (client : OwnershipClient) (db : Db) (conversation_type : String)
    (ids : List ℕ) (owner_snapshot : Option (List String)) : Type 0 where
  pub owner_sets : List (ℕ × List String)
  pub resolved : owner_sets_for client ids db ≡ some owner_sets
  pub nonempty : any (λ (e : ℕ × List String). not (any (λ o. true) e.1)) owner_sets ≡ false
  pub pairwise : Pairwise (MayMeet conversation_type) owner_sets
  pub snapshot :
      owner_snapshot ≡ some (sorted_set str_lt (flat_map (λ (e : ℕ × List String). e.1) owner_sets))

all-All : {A : Type 0} (p : A → Bool) (xs : List A) → all p xs ≡ true → All (λ x. p x ≡ true) xs
all-All p [] h = tt
all-All p (x ∷ xs) h =
    let parts : (p x ≡ true) × (all p xs ≡ true) = ground arith in (parts.0, all-All p xs parts.1)

all_pairs-Pairwise :
    {A : Type 0} (p : A → A → Bool) (R : A → A → Type 0)
    → ((x y : A) → p x y ≡ true → R x y)
    → (xs : List A) → all_pairs p xs ≡ true
    → Pairwise R xs
unfolding all_pairs
all_pairs-Pairwise p R f [] h = tt
all_pairs-Pairwise p R f (x ∷ xs) h =
    let parts : (all (p x) xs ≡ true) × (all_pairs p xs ≡ true) = ground arith in
    (All-map xs (f x) (all-All (p x) xs parts.0), all_pairs-Pairwise p R f xs parts.1)

any-shared :
    (a b : List String)
    → any (λ x. contains x b) a ≡ true
    → (o : String) × (contains o a ≡ true) × (contains o b ≡ true)
any-shared [] b h = absurd (cc h)
any-shared (x ∷ a) b h = elim (Bool-cases (contains x b)) [
  | inl e ↦ (x, rw (==-refl x) refl, e)
  | inr e ↦
      let (o, there, shared) = any-shared a b (rw e at h) in
      let kept : contains o (x ∷ a) ≡ true = ground arith in (o, kept, shared)
]

same_set-owners :
    (a b : List String)
    → same_set a b ≡ true
    → All (λ o. contains o b ≡ true) a × All (λ o. contains o a ≡ true) b
same_set-owners a b h =
    let parts : (subset a b ≡ true) × (subset b a ≡ true) = ground arith in
    (all-All (λ o. contains o b) a parts.0, all-All (λ o. contains o a) b parts.1)

pairwise_admitted-MayMeet :
    (conversation_type : String) (owner_sets : List (ℕ × List String))
    → pairwise_admitted conversation_type owner_sets ≡ true
    → Pairwise (MayMeet conversation_type) owner_sets
unfolding pairwise_admitted may_assign
pairwise_admitted-MayMeet conversation_type owner_sets h =
    elim (Bool-cases (conversation_type == "internal")) [
      | inl e ↦
          all_pairs-Pairwise (λ (a b : ℕ × List String). same_set a.1 b.1) _
            (λ a b k.
              let (there, back) = same_set-owners a.1 b.1 k in
              inl ((==_iff conversation_type "internal").0 e, there, back))
            owner_sets (rw e at h)
      | inr e ↦
          all_pairs-Pairwise (λ (a b : ℕ × List String). may_assign a.1 b.1) _
            (λ a b k.
              let (o, there, back) = any-shared a.1 b.1 k in
              inr (
                (λ same. false≢true (sym e ∙ (==_iff conversation_type "internal").1 same)),
                o,
                there,
                back,
              ))
            owner_sets (rw e at h)
    ]

-- `open` admits anyone and takes no snapshot.
pub record Authorized (client : OwnershipClient) (db : Db) (conversation_type : String)
    (ids : List ℕ) (owner_snapshot : Option (List String)) : Type 0 where
  pub in_open : (conversation_type == "open") ≡ true → owner_snapshot ≡ none
  pub past_open :
      (conversation_type == "open") ≡ false
      → AdmittedOwners client db conversation_type ids owner_snapshot

module _ {base db : Db} (sound : Sound base db) (actor_sub : String) (initiator : Agent)
    (known : KnownAgent db initiator.id) (client : OwnershipClient)
    (conversation_type : String) where
  Checks-admit :
      (ids : List ℕ)
      → Checks base db
          (admit actor_sub initiator ids conversation_type client)
          (AdmittedOwners client db conversation_type ids)
          (Denied actor_sub base)
  unfolding admit
  Checks-admit ids = Spec-check (Checks-query _) λ resolved is_resolved.
      Spec-check
        (Checks-or_else λ _. Fails-deny sound actor_sub _ (some initiator.id) none _ known tt)
        λ sets e.
          Spec-check
            (Checks-when λ _. Fails-deny sound actor_sub _ (some initiator.id) none _ known tt)
            λ _ nonempty.
              Spec-check
                (Checks-when λ _. Fails-deny sound actor_sub _ (some initiator.id) none _ known tt)
                λ _ admitted. Checks-pure _ (record {
                  owner_sets = sets;
                  resolved = sym is_resolved ∙ e;
                  nonempty = nonempty;
                  pairwise = pairwise_admitted-MayMeet _ _ (true_of_not _ admitted);
                  snapshot = refl;
                })

  pub Checks-authorize_conversation_open :
      (targets : List Agent)
      → Checks base db
          (authorize_conversation_open actor_sub initiator targets conversation_type client)
          (Authorized client db conversation_type
            (initiator.id ∷ map (λ (a : Agent). a.id) targets))
          (Denied actor_sub base)
  unfolding authorize_conversation_open
  Checks-authorize_conversation_open targets =
      Spec-if _
        (λ is_open.
          Checks-pure none
            (record { in_open = λ _. refl; past_open = λ h. absurd (cc (is_open, h)) }))
        (λ past.
          Checks-weaken (λ o h. record { in_open = λ e. absurd (cc (past, e)); past_open = λ _. h })
            (Checks-admit _))
