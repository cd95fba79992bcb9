-- ===== src/Guarantees/Dispatch/Server.antt =====
-- A tool call through the two middlewares, and any sequence of them.
use rh_reclaw.Common.{
  ◌≡◌, refl, sym, ◌∙◌, subst, ap, ◌⊎◌, inl, inr, ℕ, String, Option, none, some, List, [], ◌∷◌, Bool,
  Bool-cases, contains, string_eq,
}
use mathlib.Core.Bool.{false≢true}
use mathlib.Core.Option.{some-injective}
use rh_reclaw.Common.Result.{err}
use rh_reclaw.Common.Json.{Json, Dict}
use rh_reclaw.Common.Stdlib.{Stdlib}
use rh_reclaw.Schemas.{Pydantic}
use rh_reclaw.Session.{Session}
use rh_reclaw.Service.Ownership.{agent_table_client}
use rh_reclaw.Service.Requests.{run}
use rh_reclaw.Identity.{AccessToken}
use rh_reclaw.Scopes.{required_scope_for, scopes_for_token, is_interactive_token}
use rh_reclaw.Call.{tool_error, World, Call, ◌>>=◌, emit, monotonic_time}
use rh_reclaw.Server.{record_call, observe_call_tool, denial_message}
use rh_reclaw.Server.Dispatch.{ToolCall, tool_name, call_tool, handle, handle_all, arrive}
use rh_reclaw.Board.Integrity.{IsValid}
use rh_reclaw.Board.Writes.{Sound}
use rh_reclaw.Guarantees.Runs.{Sound-run, Sound-of_valid, Sound-trans}
use rh_reclaw.Guarantees.Scopes.{
  is_interactive_token_iff, Granted, Permitted, contains-scopes_for_token_iff,
  enforce_call_tool-Permitted, enforce_call_tool-denied,
}
use rh_reclaw.Guarantees.Dispatch.{Refined}
use rh_reclaw.Guarantees.Dispatch.Tools.{agent_key_of, Refined-call_tool}

-- `time.monotonic()` has been read once more.
abbrev pub ticked : World → World
ticked w = (monotonic_time w).1

module _ (repr : Json → String) where
  Granted-cases :
      (token : AccessToken) (required : Option String)
      → ((scope : String) × (required ≡ some scope) × Granted repr token scope)
        ⊎ (¬ ((scope : String) × (required ≡ some scope) × Granted repr token scope))
  Granted-cases token none = inr (λ (scope, same, granted). cc same)
  Granted-cases token (some scope) =
      elim (Bool-cases (contains scope (scopes_for_token repr token))) [
        | inl e ↦ inl (scope, refl, (contains-scopes_for_token_iff repr token scope).0 e)
        | inr e ↦ inr (λ (scope', same, granted). false≢true (
            sym e
            ∙ (contains-scopes_for_token_iff repr token scope).1
                (subst (Granted repr token) (sym (some-injective scope scope' same)) granted)))
      ]

  pub Permitted-cases :
      (found : Option AccessToken) (required : Option String)
      → Permitted repr found required ⊎ (¬ Permitted repr found required)
  Permitted-cases none required = inr (λ h. h)
  Permitted-cases (some token) required = elim (Granted-cases token required) [
    | inl granted ↦ inl (inr granted)
    | inr lacking ↦ elim (Bool-cases (is_interactive_token (some token))) [
      | inl e ↦ inl (inl ((is_interactive_token_iff token).0 e))
      | inr e ↦ inr (λ h. elim h [
        | inl interactive ↦ false≢true (sym e ∙ (is_interactive_token_iff token).1 interactive)
        | inr granted ↦ lacking granted
      ])
    ]
  ]

  module _ (round : ℕ → Json) {A : Type 0} (next : String → Call A) (found : Option AccessToken)
      (name : String) (w : World) where
    pub observe_call_tool-result :
        (observe_call_tool repr round next found name w).0 ≡ (next name (ticked w)).0
    unfolding observe_call_tool ◌>>=◌ monotonic_time
    observe_call_tool-result = refl

    pub observe_call_tool-session :
        (observe_call_tool repr round next found name w).1.session
        ≡ (next name (ticked w)).1.session
    unfolding observe_call_tool ◌>>=◌ monotonic_time record_call emit
    observe_call_tool-session = refl

module _ (py : Stdlib) (px : Pydantic) (collation : String → String → Bool)
    (found : Option AccessToken) (call : ToolCall) (w : World) where
  inner : String → Call Dict
  inner name = call_tool py px collation found call

  -- A call that is not permitted is denied, and changes no table.
  pub handle-denied :
      ¬ Permitted py.repr found (required_scope_for (tool_name call))
      → ((handle py px collation found call w).0
          ≡ err (tool_error (denial_message (tool_name call))))
        × ((handle py px collation found call w).1.session ≡ w.session)
  unfolding handle inner monotonic_time
  handle-denied h =
      let (denied, kept) =
        enforce_call_tool-denied py.repr inner (tool_name call) (ticked w) found h in
      (
        observe_call_tool-result py.repr py.round _ found (tool_name call) w ∙ denied,
        observe_call_tool-session py.repr py.round _ found (tool_name call) w ∙ kept,
      )

  -- A call that is permitted is what the tool makes of it.
  pub handle-Permitted_lem :
      Permitted py.repr found (required_scope_for (tool_name call))
      → ((handle py px collation found call w).0
          ≡ (call_tool py px collation found call (ticked w)).0)
        × ((handle py px collation found call w).1.session
            ≡ (call_tool py px collation found call (ticked w)).1.session)
  unfolding handle inner
  handle-Permitted_lem h =
      let same = enforce_call_tool-Permitted py.repr inner (tool_name call) (ticked w) found h in
      (
        observe_call_tool-result py.repr py.round _ found (tool_name call) w ∙ ap (λ r. r.0) same,
        observe_call_tool-session py.repr py.round _ found (tool_name call) w
            ∙ ap (λ r. r.1.session) same,
      )

  pub Refined-handle :
      Refined py px collation found
        (agent_key_of call)
        w.session
        (handle py px collation found call w).1.session
  unfolding monotonic_time
  Refined-handle = elim (Permitted-cases py.repr found (required_scope_for (tool_name call))) [
    | inl h ↦
        subst (Refined py px collation found (agent_key_of call) w.session)
          (sym (handle-Permitted_lem h).1) (Refined-call_tool py px collation found (ticked w) call)
    | inr h ↦ inl (ap (λ (s : Session). s.committed) (handle-denied h).1)
  ]

module _ (py : Stdlib) (px : Pydantic) (collation : String → String → Bool) where
  Sound-Refined :
      (found : Option AccessToken) (k : Option String) (s s' : Session)
      → IsValid s.committed
      → Refined py px collation found k s s'
      → Sound s.committed s'.committed
  unfolding run
  Sound-Refined found k s s' valid (inl same) =
      subst (Sound s.committed) (sym same) (Sound-of_valid valid)
  Sound-Refined found k s s' valid (inr (sub, r, caller, own, same)) =
      subst (Sound s.committed) (sym same)
        (Sound-run px agent_table_client collation ((s.txn_now, r) ∷ []) s valid)

  pub Sound-handle_all :
      (calls : List (ℕ × Option AccessToken × ToolCall)) (w : World)
      → IsValid w.session.committed
      → Sound w.session.committed (handle_all py px collation calls w).session.committed
  unfolding handle_all
  Sound-handle_all [] w valid = Sound-of_valid valid
  Sound-handle_all ((t, found, call) ∷ calls) w valid =
      let after = (handle py px collation found call (arrive t w)).1 in
      let first =
        Sound-Refined found (agent_key_of call) (arrive t w).session after.session valid
          (Refined-handle py px collation found call (arrive t w)) in
      Sound-trans first (Sound-handle_all calls after first.valid)
