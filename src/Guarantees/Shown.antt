-- ===== src/Guarantees/Shown.antt =====
-- The messages that a member reads: all of the conversation after a number, once, in their order.
use rh_reclaw.Common.{
  ◌≡◌, ◌≢◌, refl, sym, subst, ◌⊎◌, inl, inr, ℕ, zero, suc, ◌<◌, ◌≤◌, List, [], ◌∷◌, Bool, true,
  false, ◌&&◌, ltb, All, arith, ◌==◌, nat_eq, Bool-cases, Option-cases, some,
}
use rh_reclaw.Common.Rows.{select, find_row, All-map}
use rh_reclaw.Common.Text.{Pairwise, Ordered, sort_by, sort_by-All, All-sort_by, sort_by-Ordered}
use rh_reclaw.Models.{Db, Agent, Message}
use rh_reclaw.Session.{agent_row}
use rh_reclaw.Service.Reads.{MessageView, view_messages, messages_since}
use rh_reclaw.Board.Integrity.{IsValid, KnownAgent, seqs, countdown}

abbrev pub Among : {A : Type 0} → A → List A → Type 0
Among x [] = ⊥
Among x (y ∷ ys) = (x ≡ y) ⊎ Among x ys

-- A message of the conversation after `since`.
abbrev pub After : ℕ → ℕ → Message → Type 0
After conversation_id since m = (m.conversation_id ≡ conversation_id) × (since < m.seq)

-- The views show messages of the table after `since`, each with the subject of its sender, all of
-- them, and each once in the order of the numbers.
pub record ShowsAll (db : Db) (conversation_id since : ℕ) (shown : List MessageView) : Type 0 where
  pub only :
      All
        (λ (v : MessageView).
          After conversation_id since v.message
          × Among v.message db.messages
          × (a : Agent) × (agent_row v.message.sender_id db ≡ some a)
          × (v.sender_sub ≡ a.sub))
        shown
  pub all :
      All
        (λ (m : Message).
          (¬ After conversation_id since m) ⊎ ((v : MessageView) × (v.message ≡ m) × Among v shown))
        db.messages
  pub ordered : Ordered (λ (a b : MessageView). ltb a.message.seq b.message.seq) shown

abbrev is_after : ℕ → ℕ → Message → Bool
is_after conversation_id since m = m.conversation_id == conversation_id && ltb since m.seq

abbrev Seq : Message → Message → Type 0
Seq a b = a.seq ≢ b.seq

module _ {A : Type 0} where
  All-self : (xs : List A) → All (λ x. Among x xs) xs
  All-self [] = tt
  All-self (x ∷ xs) = (inl refl, All-map xs (λ y h. inr h) (All-self xs))

  select-All : (P : A → Type 0) (p : A → Bool) (xs : List A) → All P xs → All P (select p xs)
  select-All P p [] h = tt
  select-All P p (x ∷ xs) h = elim (Bool-cases (p x)) [
    | inl e ↦ rw e (h.0, select-All P p xs h.1)
    | inr e ↦ rw e (select-All P p xs h.1)
  ]

  -- What holds of all that are selected, of every other the test fails.
  All-select :
      (P : A → Type 0) (p : A → Bool) (xs : List A)
      → All P (select p xs)
      → All (λ x. (p x ≡ false) ⊎ P x) xs
  All-select P p [] h = tt
  All-select P p (x ∷ xs) h = elim (Bool-cases (p x)) [
    | inl e ↦ let k = rw e at h in (inr k.0, All-select P p xs k.1)
    | inr e ↦ let k = rw e at h in (inl e, All-select P p xs k)
  ]

  select-true : (p : A → Bool) (xs : List A) → All (λ x. p x ≡ true) (select p xs)
  select-true p [] = tt
  select-true p (x ∷ xs) = elim (Bool-cases (p x)) [
    | inl e ↦ rw e (e, select-true p xs)
    | inr e ↦ rw e (select-true p xs)
  ]

cons_parts :
    (x n : ℕ) (xs : List ℕ)
    → (x ∷ xs) ≡ countdown n
    → (k : ℕ) × (n ≡ suc k) × (x ≡ suc k) × (xs ≡ countdown k)
cons_parts x zero xs h = absurd (cc h)
cons_parts x (suc k) xs h = (k, refl, cc h, cc h)

module _ (conversation_id since : ℕ) where
  -- Numbers without a gap differ.
  numbers_differ :
      (ms : List Message) (n : ℕ)
      → seqs conversation_id ms ≡ countdown n
      → Pairwise Seq (select (is_after conversation_id since) ms)
        × All (λ (m : Message). m.seq ≤ n) (select (is_after conversation_id since) ms)
  numbers_differ [] n h = (tt, tt)
  numbers_differ (m ∷ ms) n h = elim (Bool-cases (m.conversation_id == conversation_id)) [
    | inl same ↦
        let (k, is_suc, seq, rest) = cons_parts m.seq n _ (rw same at h) in
        let (apart, bound) = numbers_differ ms k rest in
        let wider = All-map _ (λ (x : Message) (b : x.seq ≤ k). le_of x.seq k n is_suc b) bound in
        elim (Bool-cases (ltb since m.seq)) [
          | inl e ↦
              rw (same, e)
                ((
                  (
                    All-map _ (λ (x : Message) (b : x.seq ≤ k). below m.seq x.seq k seq b) bound,
                    apart,
                  ),
                  (at_top m.seq k n is_suc seq, wider),
                ))
          | inr e ↦ rw (same, e) ((apart, wider))
        ]
    | inr other ↦ rw other (numbers_differ ms n (rw other at h))
  ]
    where
      le_of : (a k n : ℕ) → n ≡ suc k → a ≤ k → a ≤ n
      le_of a k n e b = omega arith

      below : (a b k : ℕ) → a ≡ suc k → b ≤ k → a ≢ b
      below a b k e h same = omega arith

      at_top : (a k n : ℕ) → n ≡ suc k → a ≡ suc k → a ≤ n
      at_top a k n e h = omega arith

module _ (agents : List Agent) where
  abbrev Sent : Message → Type 0
  Sent m = (a : Agent) × (find_row (λ (x : Agent). x.id) m.sender_id agents ≡ some a)

  view-All :
      (P : Message → Type 0) (ms : List Message)
      → All P ms
      → All
          (λ (v : MessageView).
            P v.message
            × (a : Agent) × (find_row (λ (x : Agent). x.id) v.message.sender_id agents ≡ some a)
            × (v.sender_sub ≡ a.sub))
          (view_messages ms agents)
  unfolding view_messages
  view-All P [] h = tt
  view-All P (m ∷ ms) h = elim (Option-cases (find_row (λ (a : Agent). a.id) m.sender_id agents)) [
    | inl missing ↦ rw (missing, view_messages) (view-All P ms h.1)
    | inr (a, found) ↦ rw (found, view_messages) ((h.0, a, found, refl), view-All P ms h.1)
  ]

  view_messages-cons :
      (m : Message) (ms : List Message) (a : Agent)
      → find_row (λ (x : Agent). x.id) m.sender_id agents ≡ some a
      → view_messages (m ∷ ms) agents
        ≡ record { message = m; sender_sub = a.sub } ∷ view_messages ms agents
  unfolding view_messages
  view_messages-cons m ms a found = rw (found, view_messages) refl

  -- Each message whose sender is known has its view among any views that have them all.
  All-view :
      (shown : List MessageView) (ms : List Message)
      → ((v : MessageView) → Among v (view_messages ms agents) → Among v shown)
      → All Sent ms
      → All (λ (m : Message). (v : MessageView) × (v.message ≡ m) × Among v shown) ms
  All-view shown [] f h = tt
  All-view shown (m ∷ ms) f ((a, found), h) =
      let same = view_messages-cons m ms a found in
      (
        (
          record { message = m; sender_sub = a.sub },
          refl,
          f _ (subst (Among (record { message = m; sender_sub = a.sub })) (sym same) (inl refl)),
        ),
        All-view shown ms (λ v there. f v (subst (Among v) (sym same) (inr there))) h,
      )

  view-Ordered :
      (ms : List Message)
      → Ordered (λ (a b : Message). ltb a.seq b.seq) ms
      → Ordered (λ (a b : MessageView). ltb a.message.seq b.message.seq) (view_messages ms agents)
  unfolding view_messages
  view-Ordered [] h = tt
  view-Ordered (m ∷ ms) h =
      elim (Option-cases (find_row (λ (a : Agent). a.id) m.sender_id agents)) [
        | inl missing ↦ rw (missing, view_messages) (view-Ordered ms h.1)
        | inr (a, found) ↦
            rw (found, view_messages)
              (
                All-map _ (λ v k. k.0) (view-All (λ x. ltb m.seq x.seq ≡ true) ms h.0),
                view-Ordered ms h.1,
              )
      ]

Sent-of_known : (db : Db) (m : Message) → KnownAgent db m.sender_id → Sent db.agents m
Sent-of_known db m known = elim (Option-cases (agent_row m.sender_id db)) [
  | inl missing ↦ cc (known, missing)
  | inr found ↦ found
]

pub messages_since-ShowsAll :
    (db : Db) (conversation_id since : ℕ)
    → IsValid db
    → ShowsAll db conversation_id since (messages_since conversation_id since db)
unfolding messages_since
messages_since-ShowsAll db conversation_id since valid =
    let test = is_after conversation_id since in
    let lt = λ (a b : Message). ltb a.seq b.seq in
    let selected = select test db.messages in
    let sorted = sort_by lt selected in
    let listed =
      sort_by-All lt (λ m. (test m ≡ true) × Among m db.messages) selected
        (both _ _ selected (select-true test db.messages)
          (select-All _ test db.messages (All-self db.messages))) in
    let known = sort_by-All lt (Sent db.agents) selected (
      select-All _ test db.messages
        (All-map db.messages (λ m k. Sent-of_known db m k.0) valid.messages)) in
    record {
      only =
          All-map _ (λ v (k, a, found, same). (after_of v.message k.0, k.1, a, found, same))
            (view-All db.agents _ sorted listed);
      all =
          All-map db.messages (λ m. either m)
            (All-select _ test db.messages
              (All-sort_by lt _ selected (All-view db.agents _ sorted (λ v there. there) known)));
      ordered = view-Ordered db.agents sorted (
          sort_by-Ordered lt Seq (λ x y z. lt_trans x y z) (λ x y. lt_total x y) selected
            (numbers_differ conversation_id since db.messages _
              (valid.numbered conversation_id)).0);
    }
  where
    both :
        {A : Type 0} (P Q : A → Type 0) (xs : List A)
        → All P xs
        → All Q xs
        → All (λ x. P x × Q x) xs
    both P Q [] h k = tt
    both P Q (x ∷ xs) h k = ((h.0, k.0), both P Q xs h.1 k.1)

    after_of :
        (m : Message) → is_after conversation_id since m ≡ true → After conversation_id since m
    after_of m h = ground arith

    either :
        {X : Type 0} (m : Message)
        → (is_after conversation_id since m ≡ false) ⊎ X
        → (¬ After conversation_id since m) ⊎ X
    either m (inl e) = inl (λ h. ground arith)
    either m (inr x) = inr x

    lt_trans :
        (x y z : Message) → ltb x.seq y.seq ≡ true → ltb y.seq z.seq ≡ true → ltb x.seq z.seq ≡ true
    lt_trans x y z h k = ground arith

    lt_total : (x y : Message) → Seq x y → ltb y.seq x.seq ≡ false → ltb x.seq y.seq ≡ true
    lt_total x y apart h = ground arith
