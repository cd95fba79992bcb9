-- ===== src/Session/Reading.antt =====
-- Coroutines that leave the tables as they are.
use rh_reclaw.Common.{◌≡◌, refl, ◌∙◌, Bool, true, false, if◌then◌else◌}
use rh_reclaw.Common.Result.{Result, ok, err}
use rh_reclaw.Models.{Db}
use rh_reclaw.Exceptions.{ServiceError}
use rh_reclaw.Session.{Session, Exec, pure, raise, query, now, ◌>>=◌, resume}

pub record ReadOnly {A : Type 0} (m : Exec A) : Type 0 where
  pub run : (s : Session) → ((m s).1.committed ≡ s.committed) × ((m s).1.working ≡ s.working)

module _ {A : Type 0} where
  pub ReadOnly-pure : (a : A) → ReadOnly (pure a)
  unfolding pure
  ReadOnly-pure a = record { run = λ s. (refl, refl) }

  pub ReadOnly-raise : (e : ServiceError) → ReadOnly (raise {A = A} e)
  unfolding raise
  ReadOnly-raise e = record { run = λ s. (refl, refl) }

  pub ReadOnly-query : (f : Db → A) → ReadOnly (query f)
  unfolding query
  ReadOnly-query f = record { run = λ s. (refl, refl) }

  pub ReadOnly-if :
      (b : Bool) {m n : Exec A} → ReadOnly m → ReadOnly n → ReadOnly (if b then m else n)
  ReadOnly-if true h k = h
  ReadOnly-if false h k = k

pub ReadOnly-now : ReadOnly now
unfolding now
ReadOnly-now = record { run = λ s. (refl, refl) }

module _ {A B : Type 0} where
  ReadOnly-resume :
      (f : A → Exec B)
      → ((a : A) → ReadOnly (f a))
      → (x : Result ServiceError A × Session)
      → ((resume f x).1.committed ≡ x.1.committed) × ((resume f x).1.working ≡ x.1.working)
  ReadOnly-resume f h (ok a, s) = (h a).run s
  ReadOnly-resume f h (err e, s) = (refl, refl)

  pub ReadOnly->>= :
      {m : Exec A} {f : A → Exec B} → ReadOnly m → ((a : A) → ReadOnly (f a)) → ReadOnly (m >>= f)
  unfolding ◌>>=◌
  ReadOnly->>= {m} {f} h k = record {
    run = λ s.
        let (committed, working) = ReadOnly-resume f k (m s) in
        (committed ∙ (h.run s).0, working ∙ (h.run s).1);
  }
