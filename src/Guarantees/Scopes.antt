-- ===== src/Guarantees/Scopes.antt =====
-- Which calls the scope enforcement lets through.
use rh_reclaw.Common.{
  ◌≡◌, ◌≢◌, ◌↔◌, ◌⊎◌, inl, inr, refl, String, Option, none, some, true, false, ==_iff, string_eq,
  arith, Bool-cases, contains,
}
use rh_reclaw.Common.Result.{err}
use rh_reclaw.Common.Json.{Json, null, bool, nat, number, text, array, object, Items}
use rh_reclaw.Common.Text.{strip}
use rh_reclaw.Identity.{AccessToken, claim, is_null, truthy, str, check_sub, validate_sub_shape}
use rh_reclaw.Scopes.{
  is_interactive_token, required_scope_for, required_scope_for_resource, listed_scopes,
  scopes_for_token, strs,
}
use rh_reclaw.Call.{tool_error, resource_error, World, Call, ◌>>=◌, done, fail, emit}
use rh_reclaw.Server.{
  denial_message, resource_denial_message, deny_tool, deny_resource, client_of, enforce_tool,
  enforce_resource, enforce_call_tool, enforce_read_resource,
}
use rh_reclaw.Guarantees.Identity.{is_null_iff, is_text_iff, SubShaped}

-- A token of the interactive path: it has an issuer, and that is not the one of agent tokens.
abbrev pub Interactive : AccessToken → Type 0
Interactive token =
    (claim "iss" token.claims ≢ null) × (claim "iss" token.claims ≢ text "agent-jwt")

pub is_interactive_token_iff :
    (token : AccessToken) → (is_interactive_token (some token) ≡ true) ↔ Interactive token
unfolding is_interactive_token
is_interactive_token_iff token = ground (
  arith,
  is_null_iff (claim "iss" token.claims),
  is_text_iff "agent-jwt" (claim "iss" token.claims),
)

pub truthy-null : (v : Json) → truthy v ≡ true → is_null v ≡ false
unfolding truthy is_null
truthy-null null h = absurd (cc h)
truthy-null (bool b) h = refl
truthy-null (nat n) h = refl
truthy-null (number r) h = refl
truthy-null (text s) h = refl
truthy-null (array xs) h = refl
truthy-null (object fs) h = refl

module _ (repr : Json → String) where
  -- An agent token with a well-formed `sub` whose list of scopes has the scope.
  abbrev pub Granted : AccessToken → String → Type 0
  Granted token scope =
      (claim "iss" token.claims ≡ text "agent-jwt")
      × (truthy (claim "sub" token.claims) ≡ true)
      × SubShaped (strip (str repr (claim "sub" token.claims)))
      × (xs : Items) × (claim "scopes" token.claims ≡ array xs)
      × (contains scope (strs repr xs) ≡ true)

  abbrev pub Permitted : Option AccessToken → Option String → Type 0
  Permitted none required = ⊥
  Permitted (some token) required =
      Interactive token ⊎ ((scope : String) × (required ≡ some scope) × Granted token scope)

  contains-listed_scopes :
      (scope : String) (v : Json)
      → contains scope (listed_scopes repr v) ≡ true
      → (xs : Items) × (v ≡ array xs) × (contains scope (strs repr xs) ≡ true)
  unfolding listed_scopes
  contains-listed_scopes scope (array xs) h = (xs, refl, h)
  contains-listed_scopes scope null h = absurd (cc h)
  contains-listed_scopes scope (bool b) h = absurd (cc h)
  contains-listed_scopes scope (nat n) h = absurd (cc h)
  contains-listed_scopes scope (number r) h = absurd (cc h)
  contains-listed_scopes scope (text s) h = absurd (cc h)
  contains-listed_scopes scope (object fs) h = absurd (cc h)

  listed_scopes-contains :
      (scope : String) (v : Json) (xs : Items)
      → v ≡ array xs
      → contains scope (strs repr xs) ≡ true
      → contains scope (listed_scopes repr v) ≡ true
  unfolding listed_scopes
  listed_scopes-contains scope v xs same h = rw same h

  eligible_iff :
      (token : AccessToken) (scope : String)
      → (contains scope (scopes_for_token repr token) ≡ true) ↔ (
          (claim "iss" token.claims ≡ text "agent-jwt")
          × (truthy (claim "sub" token.claims) ≡ true)
          × SubShaped (strip (str repr (claim "sub" token.claims)))
          × (contains scope (listed_scopes repr (claim "scopes" token.claims)) ≡ true))
  unfolding scopes_for_token validate_sub_shape check_sub
  eligible_iff token scope = ground (
    arith,
    is_text_iff "agent-jwt" (claim "iss" token.claims),
    truthy-null (claim "sub" token.claims),
    ==_iff (strip (str repr (claim "sub" token.claims))) "",
  )

  pub contains-scopes_for_token_iff :
      (token : AccessToken) (scope : String)
      → (contains scope (scopes_for_token repr token) ≡ true) ↔ Granted token scope
  contains-scopes_for_token_iff token scope = (
    λ h.
        let (issuer, sub, shaped, listed) = (eligible_iff token scope).0 h in
        let (xs, same, found) = contains-listed_scopes scope (claim "scopes" token.claims) listed in
        (issuer, sub, shaped, xs, same, found),
    λ (issuer, sub, shaped, xs, same, listed).
        (eligible_iff token scope).1
          (issuer, sub, shaped, listed_scopes-contains scope _ xs same listed),
  )

  module _ {A : Type 0} (next : Call A) (token : AccessToken) (name : String) (w : World) where
    enforce_tool-Granted :
        (required : Option String) (scope : String)
        → required ≡ some scope
        → Granted token scope
        → enforce_tool repr next token name required w ≡ next w
    unfolding enforce_tool
    enforce_tool-Granted required scope same granted =
        rw (same, (contains-scopes_for_token_iff token scope).1 granted) refl

    enforce_tool-denied :
        (required : Option String)
        → ((scope : String) → required ≡ some scope → ¬ Granted token scope)
        → ((enforce_tool repr next token name required w).0
            ≡ err (tool_error (denial_message name)))
          × ((enforce_tool repr next token name required w).1.session ≡ w.session)
    unfolding enforce_tool ◌>>=◌ client_of deny_tool emit fail done
    enforce_tool-denied none h = (refl, refl)
    enforce_tool-denied (some scope) h =
        elim (Bool-cases (contains scope (scopes_for_token repr token))) [
          | inl e ↦ absurd (h scope refl ((contains-scopes_for_token_iff token scope).0 e))
          | inr e ↦ rw e (refl, refl)
        ]

  module _ {A : Type 0} (next : String → Call A) (name : String) (w : World) where
    pub enforce_call_tool-Permitted :
        (found : Option AccessToken)
        → Permitted found (required_scope_for name)
        → enforce_call_tool repr next found name w ≡ next name w
    unfolding enforce_call_tool
    enforce_call_tool-Permitted none h = absurd h
    enforce_call_tool-Permitted (some token) (inl interactive) =
        rw ((is_interactive_token_iff token).1 interactive) refl
    enforce_call_tool-Permitted (some token) (inr (scope, same, granted)) =
        elim (Bool-cases (is_interactive_token (some token))) [
          | inl e ↦ rw e refl
          | inr e ↦ rw e (
              enforce_tool-Granted (next name) token name w (required_scope_for name) scope same
                granted)
        ]

    pub enforce_call_tool-denied :
        (found : Option AccessToken)
        → ¬ Permitted found (required_scope_for name)
        → ((enforce_call_tool repr next found name w).0 ≡ err (tool_error (denial_message name)))
          × ((enforce_call_tool repr next found name w).1.session ≡ w.session)
    unfolding enforce_call_tool ◌>>=◌ deny_tool emit fail is_interactive_token
    enforce_call_tool-denied none h = (refl, refl)
    enforce_call_tool-denied (some token) h =
        elim (Bool-cases (is_interactive_token (some token))) [
          | inl e ↦ absurd (h (inl ((is_interactive_token_iff token).0 e)))
          | inr e ↦ rw e (
              enforce_tool-denied (next name) token name w (required_scope_for name)
                (λ scope same granted. h (inr (scope, same, granted))))
        ]

    pub enforce_read_resource-Interactive :
        (token : AccessToken)
        → Interactive token
        → enforce_read_resource repr next (some token) name w ≡ next name w
    unfolding enforce_read_resource
    enforce_read_resource-Interactive token interactive =
        rw ((is_interactive_token_iff token).1 interactive) refl

    -- No resource has a scope, so no other token reads any.
    pub enforce_read_resource-denied :
        (found : Option AccessToken)
        → is_interactive_token found ≡ false
        → ((enforce_read_resource repr next found name w).0
            ≡ err (resource_error (resource_denial_message name)))
          × ((enforce_read_resource repr next found name w).1.session ≡ w.session)
    unfolding enforce_read_resource ◌>>=◌ deny_resource emit fail enforce_resource client_of done
        required_scope_for_resource is_interactive_token
    enforce_read_resource-denied none h = (refl, refl)
    enforce_read_resource-denied (some token) h = rw h (refl, refl)
