-- ===== src/Guarantees/Dispatch/Logged.antt =====
-- The events of a denied call, spelled out: what each field says, and that no address is logged.
use Prim.Native.Char.{code}
use Prim.Native.String as Str
use rh_reclaw.Common.{
  ◌≡◌, ◌≢◌, refl, subst, ◌∙◌, ◌⊎◌, inl, inr, String, Option, none, some, List, [], ◌∷◌, ◌++◌, Bool,
  true, false, Bool-cases, Option-cases, ◌==◌, ==_iff, string_eq, nat_eq, arith, if◌then◌else◌,
}
use rh_reclaw.Common.Json.{Json, null, bool, nat, number, text, array, object, Dict, get}
use rh_reclaw.Common.Text.{strip}
use rh_reclaw.Common.Chars.{occurs_in, before}
use rh_reclaw.Observability.{
  Event, log_scope_denial, log_tool_call, log_user_active, log_auth_rejected, user_field, hash_user,
}
use rh_reclaw.Identity.{
  AccessToken, claim, truthy, str, is_text, try_resolve_email, validate_sub_shape, check_sub,
}
use rh_reclaw.Scopes.{or_unknown, safe_client_id}
use rh_reclaw.Server.{attributed, resolved, upstream_email}
use rh_reclaw.Guarantees.Identity.{is_text_iff, SubShaped}
use rh_reclaw.Guarantees.Scopes.{truthy-null}
use rh_reclaw.Guarantees.Dispatch.Events.{denial_events, failed_call_events}

abbrev pub rejection : String → Event
rejection reason = record {
  name = "auth_rejected";
  fields = ("reason", text reason) ∷ ("issuer", text "agent-jwt") ∷ [];
}

abbrev pub denial : String → String → String → Dict → Event
denial tool reason client scope = record {
  name = "scope_denial";
  fields = ("tool", text tool) ∷ ("reason", text reason) ∷ ("client_id", text client) ∷ scope;
}

abbrev pub failed_call : String → Json → Dict → Event
failed_call tool duration user = record {
  name = "tool_call";
  fields =
      ("tool", text tool)
      ∷ ("duration_ms", duration)
      ∷ ("success", bool false)
      ∷ ("error_type", text "ToolError")
      ∷ user;
}

abbrev pub user_id : String → Dict
user_id u = ("user_id", text u) ∷ []

abbrev pub active_user : String → Event
active_user u = record { name = "user_active"; fields = user_id u }

-- Nobody, or somebody by a text that is no address.
abbrev pub NoAddress : Dict → Type 0
NoAddress user = (user ≡ []) ⊎ ((u : String) × (user ≡ user_id u) × (occurs_in "@" u ≡ false))

abbrev pub NoAddressActive : List Event → Type 0
NoAddressActive active =
    (active ≡ []) ⊎ ((u : String) × (active ≡ active_user u ∷ []) × (occurs_in "@" u ≡ false))

abbrev pub FailedCall : String → Json → List Event → Type 0
FailedCall tool duration events =
    (user : Dict) × (active : List Event) × (events ≡ failed_call tool duration user ∷ active)
    × NoAddress user
    × NoAddressActive active

module _ (repr : Json → String) where
  -- The client of a denial is the token's, or that of an agent token whose `sub` is not well-formed
  -- is withheld, and a rejection with the reason comes before.
  abbrev pub Named : AccessToken → List Event → String → Type 0
  Named token earlier client =
      (((claim "iss" token.claims ≢ text "agent-jwt")
          ⊎ ((truthy (claim "sub" token.claims) ≡ true)
              × SubShaped (strip (str repr (claim "sub" token.claims)))))
        × (earlier ≡ [])
        × (((token.client_id ≢ "") × (client ≡ token.client_id))
            ⊎ ((token.client_id ≡ "") × (client ≡ "unknown"))))
      ⊎ ((claim "iss" token.claims ≡ text "agent-jwt")
          × (((truthy (claim "sub" token.claims) ≡ false)
                × (earlier ≡ rejection "sub_missing" ∷ []))
              ⊎ ((truthy (claim "sub" token.claims) ≡ true)
                  × (¬ SubShaped (strip (str repr (claim "sub" token.claims))))
                  × (earlier ≡ rejection "sub_shape" ∷ [])))
          × (client ≡ "invalid_sub"))

  -- What a denial logs.
  abbrev pub DenialLogged : Option AccessToken → String → String → List Event → Type 0
  DenialLogged none tool scope events = events ≡ denial tool "missing_token" "unknown" [] ∷ []
  DenialLogged (some token) tool scope events =
      (earlier : List Event) × (client : String) × Named token earlier client
      × (events
          ≡ earlier
            ++ (denial tool "missing_scope" client (("required_scope", text scope) ∷ []) ∷ []))

  -- Only the upstream claims of a token that is no agent's can keep the call from being logged.
  abbrev pub CallLogged : Option AccessToken → String → Json → List Event → Type 0
  CallLogged found tool duration events =
      FailedCall tool duration events
      ⊎ ((token : AccessToken) × (v : Json) × (found ≡ some token)
          × (claim "iss" token.claims ≢ text "agent-jwt")
          × (get "upstream_claims" token.claims ≡ some v)
          × (events ≡ []))

  client_named :
      (client_id : String)
      → ((client_id ≢ "") × (or_unknown (or_unknown client_id) ≡ client_id))
        ⊎ ((client_id ≡ "") × (or_unknown (or_unknown client_id) ≡ "unknown"))
  client_named client_id = elim (Bool-cases (client_id == "")) [
    | inl e ↦ inr ((==_iff client_id "").0 e, rw e refl)
    | inr e ↦ inl ((λ same. cc (e, (==_iff client_id "").1 same)), rw (e, e) refl)
  ]

  agent-Named :
      (token : AccessToken)
      → claim "iss" token.claims ≡ text "agent-jwt"
      → Named token (safe_client_id repr token).1 (or_unknown (safe_client_id repr token).0)
  unfolding safe_client_id validate_sub_shape check_sub log_auth_rejected
  agent-Named token issuer =
      let e = (is_text_iff "agent-jwt" (claim "iss" token.claims)).1 issuer in
      let sub = strip (str repr (claim "sub" token.claims)) in
      elim (Bool-cases (truthy (claim "sub" token.claims))) [
        | inr t ↦ rw (e, t) (inr (issuer, inl (refl, refl), refl))
        | inl t ↦
            let n = truthy-null (claim "sub" token.claims) t in
            elim (Bool-cases (sub == "")) [
              | inl b ↦
                  rw (e, t, n, b)
                    (inr
                      (issuer, inr (refl, (λ shaped. shaped.0 ((==_iff sub "").0 b)), refl), refl))
              | inr b ↦ elim (Bool-cases (occurs_in "@" sub)) [
                | inl a ↦
                    rw (e, t, n, b, a)
                      (inr (issuer, inr (refl, (λ shaped. cc shaped.1), refl), refl))
                | inr a ↦
                    rw (e, t, n, b, a)
                      (inl (
                        inr (refl, ((λ same. cc (b, (==_iff sub "").1 same)), refl)),
                        refl,
                        client_named token.client_id,
                      ))
              ]
            ]
      ]

  safe_client_id-Named :
      (token : AccessToken)
      → Named token (safe_client_id repr token).1 (or_unknown (safe_client_id repr token).0)
  unfolding safe_client_id
  safe_client_id-Named token = elim (Bool-cases (is_text "agent-jwt" (claim "iss" token.claims))) [
    | inl e ↦ agent-Named token ((is_text_iff "agent-jwt" (claim "iss" token.claims)).0 e)
    | inr e ↦ rw e (
        inl (
          inl (λ same. cc (e, (is_text_iff "agent-jwt" (claim "iss" token.claims)).1 same)),
          refl,
          client_named token.client_id,
        ))
  ]

  pub DenialLogged-denial_events :
      (found : Option AccessToken) (tool scope : String)
      → DenialLogged found tool scope (denial_events repr found tool scope)
  unfolding log_scope_denial
  DenialLogged-denial_events none tool scope = refl
  DenialLogged-denial_events (some token) tool scope = (
    (safe_client_id repr token).1,
    or_unknown (safe_client_id repr token).0,
    safe_client_id-Named token,
    refl,
  )

-- What is before the first "@" holds none.
no_at : (s : String) → occurs_in "@" (before 64 s) ≡ false
unfolding occurs_in before
no_at Str.[] = refl
no_at (Str.◌∷◌ c s) = elim (Bool-cases (code c == 64)) [
  | inl e ↦ rw e refl
  | inr e ↦ let other : (64 == code c) ≡ false = ground arith in rw e (rw other (no_at s))
]

abbrev of_email : String → Json → Json → List Event
of_email tool duration email =
    log_tool_call truthy tool duration false (some "ToolError") email
    ++ (if truthy email then log_user_active email else [])

text_logged :
    (tool : String) (duration : Json) (s : String)
    → FailedCall tool duration (of_email tool duration (text s))
unfolding log_tool_call log_user_active user_field truthy hash_user
text_logged tool duration s = elim (Bool-cases (strip s == "")) [
  | inl blank ↦ elim (Bool-cases (s == "")) [
    | inl empty ↦ rw (blank, empty) ([], [], refl, inl refl, inl refl)
    | inr full ↦
        rw (blank, full)
          (
            [],
            active_user (before 64 (strip s)) ∷ [],
            refl,
            inl refl,
            inr (before 64 (strip s), refl, no_at (strip s)),
          )
  ]
  | inr shown ↦ elim (Bool-cases (s == "")) [
    | inl empty ↦
        rw (shown, empty)
          (
            user_id (before 64 (strip s)),
            [],
            refl,
            inr (before 64 (strip s), refl, no_at (strip s)),
            inl refl,
          )
    | inr full ↦
        rw (shown, full)
          (
            user_id (before 64 (strip s)),
            active_user (before 64 (strip s)) ∷ [],
            refl,
            inr (before 64 (strip s), refl, no_at (strip s)),
            inr (before 64 (strip s), refl, no_at (strip s)),
          )
  ]
]

null_logged :
    (tool : String) (duration : Json) → FailedCall tool duration (of_email tool duration null)
unfolding log_tool_call user_field truthy
null_logged tool duration = ([], [], refl, inl refl, inl refl)

call_split :
    (tool : String) (duration email : Json) (user : Option Dict) (b : Bool)
    → truthy email ≡ b
    → user_field truthy email ≡ user
    → of_email tool duration email
      ≡ (elim user [ none ↦ [] | some u ↦ failed_call tool duration u ∷ [] ])
        ++ (if b then log_user_active email else [])
unfolding log_tool_call
call_split tool duration email user b t h =
    subst
      (λ c.
        of_email tool duration email
        ≡ (elim user [ none ↦ [] | some u ↦ failed_call tool duration u ∷ [] ])
          ++ (if c then log_user_active email else []))
      t (rw (h, log_tool_call) refl)

other_logged :
    (tool : String) (duration email : Json) (b : Bool)
    → truthy email ≡ b
    → user_field truthy email ≡ (if b then none else some [])
    → log_user_active email ≡ []
    → FailedCall tool duration (of_email tool duration email) ⊎ (of_email tool duration email ≡ [])
other_logged tool duration email true t h k = inr (call_split tool duration email none true t h ∙ k)
other_logged tool duration email false t h k =
    inl ([], [], call_split tool duration email (some []) false t h, inl refl, inl refl)

email_logged :
    (tool : String) (duration email : Json)
    → FailedCall tool duration (of_email tool duration email) ⊎ (of_email tool duration email ≡ [])
unfolding user_field log_user_active
email_logged tool duration (text s) = inl (text_logged tool duration s)
email_logged tool duration null = inl (null_logged tool duration)
email_logged tool duration (bool b) = other_logged tool duration (bool b) _ refl refl refl
email_logged tool duration (nat n) = other_logged tool duration (nat n) _ refl refl refl
email_logged tool duration (number r) = other_logged tool duration (number r) _ refl refl refl
email_logged tool duration (array xs) = other_logged tool duration (array xs) _ refl refl refl
email_logged tool duration (object fs) = other_logged tool duration (object fs) _ refl refl refl

module _ (repr : Json → String) where
  resolved_logged :
      (tool : String) (duration : Json) (token : AccessToken)
      → FailedCall tool duration (of_email tool duration (resolved repr token))
  resolved_logged tool duration token = elim (Option-cases (try_resolve_email repr token)) [
    | inl missing ↦ rw (missing, resolved) (null_logged tool duration)
    | inr (s, found) ↦ rw (found, resolved) (text_logged tool duration s)
  ]

  pub CallLogged-failed_call_events :
      (found : Option AccessToken) (tool : String) (duration : Json)
      → CallLogged repr found tool duration (failed_call_events repr found tool duration)
  unfolding attributed upstream_email
  CallLogged-failed_call_events none tool duration = inl (null_logged tool duration)
  CallLogged-failed_call_events (some token) tool duration =
      elim (Bool-cases (is_text "agent-jwt" (claim "iss" token.claims))) [
        | inl e ↦ rw e (inl (resolved_logged tool duration token))
        | inr e ↦ elim (Option-cases (get "upstream_claims" token.claims)) [
          | inl missing ↦ rw (e, missing) (inl (resolved_logged tool duration token))
          | inr (v, given) ↦ elim (email_logged tool duration (attributed repr (some token))) [
            | inl logged ↦ inl logged
            | inr nothing ↦ inr (
              token,
              v,
              refl,
              (λ same. cc (e, (is_text_iff "agent-jwt" (claim "iss" token.claims)).1 same)),
              given,
              nothing,
            )
          ]
        ]
      ]
