-- ===== src/Session/Triple.antt =====
-- Specifications of coroutines: from the tables before a call to what holds after it, by how it
-- ended.
use rh_reclaw.Common.{
  ◌≡◌, refl, ap, subst, sym, inl, inr, Bool, true, false, Option, none, some, Bool-cases,
  if◌then◌else◌,
}
use rh_reclaw.Common.Result.{Result, ok, err}
use rh_reclaw.Models.{Db}
use rh_reclaw.Exceptions.{ServiceError, integrity_error}
use rh_reclaw.Session.{
  Session, Exec, pure, raise, query, resume, ◌>>=◌, when, or_else, now, transaction_now, uuid4,
  commit, write, insert, ◌>>◌,
}

-- `Q` holds of what was returned, or `E` of what was raised.
abbrev pub Ends :
    {A : Type 0}
    → (A → Session → Type 0)
    → (ServiceError → Session → Type 0)
    → Result ServiceError A × Session
    → Type 0
Ends Q E (ok a, s) = Q a s
Ends Q E (err e, s) = E e s

-- The open transaction began at the tables `base` and has come to the tables `db`.
pub record At (base db : Db) (s : Session) : Type 0 where
  pub committed : s.committed ≡ base
  pub working : s.working ≡ db

-- A call at the tables `db` ends with `Q` or `E`.
pub record Spec {A : Type 0} (base db : Db) (m : Exec A) (Q : A → Session → Type 0)
    (E : ServiceError → Session → Type 0) : Type 0 where
  pub run : (s : Session) → At base db s → Ends Q E (m s)

-- A call that only looks: it returns with the tables as they were and with `F`, or ends with `E`.
abbrev pub Checks :
    {A : Type 0}
    → (base db : Db) → Exec A
    → (A → Type 0)
    → (ServiceError → Session → Type 0)
    → Type 0
Checks base db m F E = Spec base db m (λ a s. At base db s × F a) E

-- A call that returns with the tables changed to some `db'` with `G`, or ends with `E`.
abbrev pub Leads :
    {A : Type 0}
    → (base db : Db) → Exec A
    → (Db → A → Type 0)
    → (ServiceError → Session → Type 0)
    → Type 0
Leads base db m G E = Spec base db m (λ a s. (db' : Db) × At base db' s × G db' a) E

-- A call that never returns.
abbrev pub Fails :
    {A : Type 0} → (base db : Db) → Exec A → (ServiceError → Session → Type 0) → Type 0
Fails base db m E = Spec base db m (λ _ _. ⊥) E

pub Ends-resume :
    {A B : Type 0} (R : A → Session → Type 0) (Q : B → Session → Type 0)
    (E : ServiceError → Session → Type 0) (f : A → Exec B)
    → ((a : A) (s : Session) → R a s → Ends Q E (f a s))
    → (x : Result ServiceError A × Session) → Ends R E x
    → Ends Q E (resume f x)
Ends-resume R Q E f next (ok a, s) h = next a s h
Ends-resume R Q E f next (err e, s) h = h

Ends-weaken :
    {A : Type 0} (R Q : A → Session → Type 0) (E : ServiceError → Session → Type 0)
    → ((a : A) (s : Session) → R a s → Q a s)
    → (x : Result ServiceError A × Session) → Ends R E x
    → Ends Q E x
Ends-weaken R Q E f (ok a, s) h = f a s h
Ends-weaken R Q E f (err e, s) h = h

module _ {A B : Type 0} {base db : Db} {E : ServiceError → Session → Type 0} where
  -- A check, and what comes after it.
  pub Spec-check :
      {Q : B → Session → Type 0} {F : A → Type 0} {m : Exec A} {f : A → Exec B}
      → Checks base db m F E
      → ((a : A) → F a → Spec base db (f a) Q E)
      → Spec base db (m >>= f) Q E
  unfolding ◌>>=◌
  Spec-check {Q} {F} {m} {f} check next = record {
    run = λ s at.
        Ends-resume (λ a s'. At base db s' × F a) Q E f (λ a s' h. (next a h.1).run s' h.0) (m s)
          (check.run s at);
  }

  -- A call that changes the tables to some `db'` with `G`.
  pub Spec-then :
      {Q : B → Session → Type 0} {G : Db → A → Type 0} {m : Exec A} {f : A → Exec B}
      → Leads base db m G E
      → ((db' : Db) (a : A) → G db' a → Spec base db' (f a) Q E)
      → Spec base db (m >>= f) Q E
  unfolding ◌>>=◌
  Spec-then {Q} {G} {m} {f} step next = record {
    run = λ s at.
        Ends-resume (λ a s'. (db' : Db) × At base db' s' × G db' a) Q E f
          (λ a s' h. (next h.0 a h.2).run s' h.1) (m s) (step.run s at);
  }

  -- A write of known outcome.
  pub Spec-step :
      {Q : B → Session → Type 0} {db' : Db} {F : A → Type 0} {m : Exec A} {f : A → Exec B}
      → Spec base db m (λ a s. At base db' s × F a) E
      → ((a : A) → F a → Spec base db' (f a) Q E)
      → Spec base db (m >>= f) Q E
  unfolding ◌>>=◌
  Spec-step {Q} {db'} {F} {m} {f} step next = record {
    run = λ s at.
        Ends-resume (λ a s'. At base db' s' × F a) Q E f (λ a s' h. (next a h.1).run s' h.0) (m s)
          (step.run s at);
  }

module _ {A : Type 0} {base db : Db} {E : ServiceError → Session → Type 0} where
  pub Spec-weaken :
      {R Q : A → Session → Type 0} {m : Exec A}
      → ((a : A) (s : Session) → R a s → Q a s)
      → Spec base db m R E
      → Spec base db m Q E
  Spec-weaken {R} {Q} {m} f h = record { run = λ s at. Ends-weaken R Q E f (m s) (h.run s at) }

  -- The tables are known to be others.
  pub Spec-at :
      {db' : Db} {Q : A → Session → Type 0} {m : Exec A}
      → db ≡ db'
      → Spec base db' m Q E
      → Spec base db m Q E
  Spec-at {Q} {m} same h = subst (λ d. Spec base d m Q E) (sym same) h

  pub Checks-weaken :
      {F G : A → Type 0} {m : Exec A}
      → ((a : A) → F a → G a)
      → Checks base db m F E
      → Checks base db m G E
  Checks-weaken f h = Spec-weaken (λ a s x. (x.0, f a x.1)) h

  pub Fails-Spec : {Q : A → Session → Type 0} {m : Exec A} → Fails base db m E → Spec base db m Q E
  Fails-Spec h = Spec-weaken (λ a s no_return. absurd no_return) h

  pub Spec-pure :
      {Q : A → Session → Type 0} (a : A)
      → ((s : Session) → At base db s → Q a s)
      → Spec base db (pure a) Q E
  unfolding pure
  Spec-pure a h = record { run = h }

  pub Checks-pure : {F : A → Type 0} (a : A) → F a → Checks base db (pure a) F E
  unfolding pure
  Checks-pure a h = record { run = λ s at. (at, h) }

  pub Spec-if :
      {Q : A → Session → Type 0} (b : Bool) {m n : Exec A}
      → (b ≡ true → Spec base db m Q E)
      → (b ≡ false → Spec base db n Q E)
      → Spec base db (if b then m else n) Q E
  Spec-if true h k = h refl
  Spec-if false h k = k refl

  pub Leads-pure : {G : Db → A → Type 0} (a : A) → G db a → Leads base db (pure a) G E
  unfolding pure
  Leads-pure a h = record { run = λ s at. (db, at, h) }

  pub Fails-raise :
      (e : ServiceError)
      → ((s : Session) → At base db s → E e s)
      → Fails base db (raise {A = A} e) E
  unfolding raise
  Fails-raise e h = record { run = h }

  pub Checks-query : (f : Db → A) → Checks base db (query f) (λ a. a ≡ f db) E
  unfolding query
  Checks-query f = record { run = λ s at. (at, ap f at.working) }

  pub Checks-or_else :
      {o : Option A} {m : Exec A}
      → (o ≡ none → Fails base db m E)
      → Checks base db (or_else o m) (λ a. o ≡ some a) E
  unfolding or_else pure
  Checks-or_else {o = none} h = Fails-Spec (h refl)
  Checks-or_else {o = some a} h = record { run = λ s at. (at, refl) }

  -- The end of a call: what was staged is committed.
  pub Spec-commit-pure :
      {Q : A → Session → Type 0} (a : A)
      → ((s : Session) → s.committed ≡ db → Q a s)
      → Spec base db (commit >> pure a) Q E
  unfolding commit pure ◌>>=◌
  Spec-commit-pure a h = record { run = λ s at. h (record s { committed = s.working }) at.working }

  -- What was staged is committed, and the rest only looks.
  pub Spec-commit :
      {Q : A → Session → Type 0} {rest : Exec A}
      → Spec db db rest Q E
      → Spec base db (commit >> rest) Q E
  unfolding commit ◌>>=◌
  Spec-commit h = record {
    run = λ s at.
        h.run (record s { committed = s.working })
          (record { committed = at.working; working = at.working });
  }

  -- The end of a denial.
  pub Fails-commit-raise :
      (e : ServiceError)
      → ((s : Session) → s.committed ≡ db → E e s)
      → Fails base db (commit >> raise {A = A} e) E
  unfolding commit raise ◌>>=◌
  Fails-commit-raise e h = record {
    run = λ s at. h (record s { committed = s.working }) at.working;
  }

module _ {base db : Db} {E : ServiceError → Session → Type 0} where
  pub Checks-now : Checks base db now (λ _. Unit) E
  unfolding now
  Checks-now = record {
    run = λ s at. (record { committed = at.committed; working = at.working }, tt);
  }

  pub Checks-transaction_now : Checks base db transaction_now (λ _. Unit) E
  unfolding transaction_now
  Checks-transaction_now = record { run = λ s at. (at, tt) }

  pub Checks-uuid4 : Checks base db uuid4 (λ _. Unit) E
  unfolding uuid4
  Checks-uuid4 = record {
    run = λ s at. (record { committed = at.committed; working = at.working }, tt);
  }

  pub Spec-write : (f : Db → Db) → Spec base db (write f) (λ _ s. At base (f db) s × Unit) E
  unfolding write
  Spec-write f = record {
    run = λ s at. (record { committed = at.committed; working = ap f at.working }, tt);
  }

  pub Spec-insert :
      (taken : Db → Bool) (f : Db → Db)
      → ((s : Session) → At base db s → E integrity_error s)
      → Spec base db (insert taken f) (λ _ s. At base (f db) s × (taken db ≡ false)) E
  unfolding insert write
  Spec-insert taken f refused = record {
    run = λ s at. elim (Bool-cases (taken s.working)) [
      | inl e ↦ rw e (refused s at)
      | inr e ↦ rw e (
        record { committed = at.committed; working = ap f at.working },
        subst (λ d. taken d ≡ false) at.working e,
      )
    ];
  }

  pub Checks-when :
      {b : Bool} {m : Exec Unit}
      → (b ≡ true → Fails base db m E)
      → Checks base db (when b m) (λ _. b ≡ false) E
  unfolding when pure
  Checks-when {b = true} h = Fails-Spec (h refl)
  Checks-when {b = false} h = record { run = λ s at. (at, refl) }
