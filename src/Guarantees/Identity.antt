-- ===== src/Guarantees/Identity.antt =====
-- Whom a token that is not known to be an interactive one speaks for: its `sub` alone.
use rh_reclaw.Common.{◌≡◌, ◌≢◌, ◌↔◌, String, some, true, false, ==_iff, string_eq, arith}
use rh_reclaw.Common.Result.{ok}
use rh_reclaw.Common.Json.{Json, null, bool, nat, number, text, array, object}
use rh_reclaw.Common.Text.{strip}
use rh_reclaw.Common.Chars.{occurs_in}
use rh_reclaw.Identity.{
  AccessToken, claim, is_null, is_text, is_agent_jwt_token, str, check_sub, validate_sub_shape,
  stripped_sub, trusted_identity, try_resolve_email,
}

pub is_null_iff : (v : Json) → (is_null v ≡ true) ↔ (v ≡ null)
unfolding is_null
is_null_iff null = ground arith
is_null_iff (bool b) = ground arith
is_null_iff (nat n) = ground arith
is_null_iff (number r) = ground arith
is_null_iff (text s) = ground arith
is_null_iff (array xs) = ground arith
is_null_iff (object fs) = ground arith

pub is_text_iff : (s : String) (v : Json) → (is_text s v ≡ true) ↔ (v ≡ text s)
unfolding is_text
is_text_iff s (text t) = ground (arith, ==_iff t s)
is_text_iff s null = ground arith
is_text_iff s (bool b) = ground arith
is_text_iff s (nat n) = ground arith
is_text_iff s (number r) = ground arith
is_text_iff s (array xs) = ground arith
is_text_iff s (object fs) = ground arith

-- A `sub` that names a caller: a text that is neither empty nor an email address.
abbrev pub SubShaped : String → Type 0
SubShaped s = (s ≢ "") × (occurs_in "@" s ≡ false)

module _ (repr : Json → String) where
  check_sub_iff : (s : String) → (check_sub repr s ≡ ok tt) ↔ SubShaped s
  unfolding check_sub
  check_sub_iff s = ground (arith, ==_iff s "")

  -- The token's issuer is absent, or the one of agent tokens.
  pub sub_only :
      (token : AccessToken)
      → is_agent_jwt_token token.claims ≡ true
      → (identity : String)
      → (try_resolve_email repr token ≡ some identity) ↔ (
          (claim "sub" token.claims ≢ null)
          × (identity ≡ strip (str repr (claim "sub" token.claims)))
          × SubShaped identity)
  unfolding try_resolve_email validate_sub_shape trusted_identity stripped_sub check_sub
  sub_only token issuer identity = ground (
    arith,
    is_null_iff (claim "sub" token.claims),
    ==_iff (strip (str repr (claim "sub" token.claims))) "",
  )
