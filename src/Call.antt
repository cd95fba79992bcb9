-- ===== src/Call.antt =====
-- What a request to the server runs in: the database session that a tool opens, and the log.
use rh_reclaw.Common.{ℕ, suc, String, List, ◌++◌, Bool, true, false}
use rh_reclaw.Common.Result.{Result, ok, err}
use rh_reclaw.Exceptions.{ServiceError}
use rh_reclaw.Session.{Session, Exec}
use rh_reclaw.Observability.{Event}

-- What leaves a request instead of a result. A service error that a tool does not map is left as it
-- is; what the framework makes of it is not modelled.
pub data Failure : Type 0 where
  -- `ToolError(message)`
  tool_error : String → Failure
  -- `ResourceError(message)`
  resource_error : String → Failure
  unmapped : ServiceError → Failure

pub record World : Type 0 where
  -- the database, with the time at which the next transaction begins
  pub session : Session
  -- the emitted events, oldest first
  pub log : List Event
  -- the readings of `time.monotonic`, and how many were taken
  pub monotonic : ℕ → ℕ
  pub readings : ℕ

abbrev pub Call : Type 0 → Type 0
Call A = World → Result Failure A × World

module _ {A : Type 0} where
  unfoldable pub done : A → Call A
  done a w = (ok a, w)

  unfoldable pub fail : Failure → Call A
  fail e w = (err e, w)

module _ {A B : Type 0} where
  abbrev pub continue : (A → Call B) → Result Failure A × World → Result Failure B × World
  continue f (ok a, w) = f a w
  continue f (err e, w) = (err e, w)

  infixl 5 ◌>>=◌
  unfoldable pub ◌>>=◌ : Call A → (A → Call B) → Call B
  ◌>>=◌ m f w = continue f (m w)

infixl 5 ◌>>◌
abbrev pub ◌>>◌ : {A B : Type 0} → Call A → Call B → Call B
m >> n = m >>= λ _. n

-- A value, or a `ToolError`.
unfoldable pub checked : {A : Type 0} → Result String A → Call A
checked (ok a) w = (ok a, w)
checked (err message) w = (err (tool_error message), w)

-- `if test: raise ToolError(message)`
unfoldable pub reject_if : Bool → String → Call Unit
reject_if true message w = (err (tool_error message), w)
reject_if false message w = (ok tt, w)

unfoldable pub emit : List Event → Call Unit
emit events w = (ok tt, record w { log = w.log ++ events })

-- `time.monotonic()`
unfoldable pub monotonic_time : Call ℕ
monotonic_time w = (ok (w.monotonic w.readings), record w { readings = suc w.readings })

-- `async with get_session_factory()() as session`: what was not committed is gone.
unfoldable pub open_session : Call Unit
open_session w = (ok tt, record w { session = record w.session { working = w.session.committed } })

abbrev pub settle :
    {A : Type 0}
    → (ServiceError → Failure)
    → World
    → Result ServiceError A × Session
    → Result Failure A × World
settle f w (ok a, s) = (ok a, record w { session = s })
settle f w (err e, s) = (err (f e), record w { session = s })

-- A call of the service in the open session; `f` maps what it raises.
unfoldable pub in_session : {A : Type 0} → (ServiceError → Failure) → Exec A → Call A
in_session f m w = settle f w (m w.session)
