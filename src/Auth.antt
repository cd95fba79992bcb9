-- ===== src/Auth.antt =====
-- auth.py: the OIDC proxy's refresh tokens and upstream claims. The base class `OIDCProxy`, the
-- key-value store with its expiry, SHA-256, base64 and JSON decoding are parameters; the set-up of
-- the providers is left out.
pub mod Claims
use rh_reclaw.Common.{
  ℕ, zero, suc, String, Option, none, some, List, [], ◌∷◌, ◌++◌, ◌==◌, string_eq, if◌then◌else◌,
}
use rh_reclaw.Common.Result.{Result, ok, err}
use rh_reclaw.Observability.{Event, log_auth_flow}

pub record RefreshToken : Type 0 where
  pub token : String
  pub scopes : List String

pub record OAuthToken : Type 0 where
  pub access_token : String
  pub refresh_token : Option String

-- `AsyncKeyValue` on the collection of rotations: `get(key)` gives the `new_token` of an entry that
-- has not expired.
pub record KeyValue (S : Type 0) : Type 0 where
  pub get : S → String → Option String
  pub put : S → String → String → ℕ → S

-- The base class: what it knows is a part of the state.
pub record OidcProxy (S Client : Type 0) : Type 0 where
  pub load_refresh_token : S → Client → String → Option RefreshToken
  pub exchange_refresh_token :
      S → Client → RefreshToken → List String → Result String OAuthToken × S

abbrev pub rotation_grace_seconds : ℕ
rotation_grace_seconds = 300

abbrev pub rotation_max_hops : ℕ
rotation_max_hops = 3

-- `if successor`: an empty text is none.
abbrev pub truthy_text : Option String → Option String
truthy_text none = none
truthy_text (some t) = if t == "" then none else some t

-- What a lookup returns, with the events that it emits.
abbrev pub Lookup : Type 0
Lookup = Option RefreshToken × List Event

abbrev pub on_successor : Option String → (String → Lookup) → Lookup
on_successor none follow = (none, log_auth_flow "refresh_token_miss")
on_successor (some successor) follow = follow successor

-- `if result is not None: return result`, before what follows.
abbrev pub or_lookup : Option RefreshToken → Lookup → Lookup
or_lookup (some result) rest = (some result, [])
or_lookup none rest = rest

abbrev pub redirected : Lookup → Lookup
redirected found = (found.0, log_auth_flow "refresh_token_grace_redirect" ++ found.1)

module _ {S Client : Type 0} (kv : KeyValue S) (base : OidcProxy S Client)
    (hash_token : String → String) where
  unfoldable pub successor_of : S → String → Option String
  successor_of s refresh_token = truthy_text (kv.get s (hash_token refresh_token))

  module _ (client : Client) where
    -- `__follow_rotation_grace`, by the hops that are left of `_ROTATION_MAX_HOPS`
    unfoldable pub follow_rotation_grace : S → ℕ → String → Lookup
    follow_rotation_grace s zero refresh_token =
        on_successor (successor_of s refresh_token)
          (λ _. (none, log_auth_flow "refresh_token_hop_cap_exceeded"))
    follow_rotation_grace s (suc left) refresh_token =
        on_successor (successor_of s refresh_token) λ successor. redirected (
          or_lookup (base.load_refresh_token s client successor)
            (follow_rotation_grace s left successor))

    unfoldable pub load_refresh_token : S → String → Lookup
    load_refresh_token s refresh_token =
        or_lookup (base.load_refresh_token s client refresh_token)
          (follow_rotation_grace s rotation_max_hops refresh_token)

    -- `if result.refresh_token: await self._rotation_store.put(...)`
    unfoldable pub record_rotation : S → String → Option String → S
    record_rotation s old_token none = s
    record_rotation s old_token (some new_token) =
        kv.put s (hash_token old_token) new_token rotation_grace_seconds

    abbrev pub after_exchange :
        String → Result String OAuthToken × S → Result String OAuthToken × S × List Event
    after_exchange old_token (err e, s) = (err e, s, [])
    after_exchange old_token (ok result, s) = (
      ok result,
      record_rotation s old_token (truthy_text result.refresh_token),
      log_auth_flow "token_refresh",
    )

    unfoldable pub exchange_refresh_token :
        S → RefreshToken → List String → Result String OAuthToken × S × List Event
    exchange_refresh_token s refresh_token scopes =
        after_exchange refresh_token.token
          (base.exchange_refresh_token s client refresh_token scopes)
