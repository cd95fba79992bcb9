-- ===== src/Auth/Claims.antt =====
-- auth.py: the identity claims taken over from the identity provider's token. `lower` is
-- `str.lower`; `decode` is base64 decoding and JSON parsing of a padded segment, none where either
-- raises.
use Prim.Native.Nat.{◌%◌}
use Prim.Native.String.{String, ◌++◌}
use rh_reclaw.Common.{
  ℕ, zero, suc, ◌-◌, Option, none, some, List, [], ◌∷◌, Bool, ◌==◌, string_eq, if◌then◌else◌,
}
use rh_reclaw.Common.Json.{Json, object, Fields, end, field, Dict}
use rh_reclaw.Common.Text.{len}
use rh_reclaw.Common.Chars.{before, after}
use rh_reclaw.Common.Pages.{collect}
use rh_reclaw.Identity.{str}

abbrev pub upstream_claim_keys : List String
upstream_claim_keys = "sub" ∷ "email" ∷ "preferred_username" ∷ "name" ∷ []

-- `payload.get(key)`, none for a key that is not there
unfoldable pub find_field : String → Fields → Option Json
find_field key end = none
find_field key (field k v fs) = let rest = find_field key fs in if k == key then some v else rest

abbrev pub equals_signs : ℕ → String
equals_signs zero = ""
equals_signs (suc n) = "=" ++ equals_signs n

-- `segment += "=" * (-len(segment) % 4)`
unfoldable pub pad : String → String
pad segment = segment ++ equals_signs ((4 - len segment % 4) % 4)

-- The entry of a key, where the payload has it.
abbrev pub claim_entry : Fields → String → Option (String × Json)
claim_entry payload key = elim (find_field key payload) [ none ↦ none | some v ↦ some (key, v) ]

-- `{k: payload[k] for k in keys if k in payload}`
unfoldable pub claims_of : Fields → Dict
claims_of payload = collect (claim_entry payload) upstream_claim_keys

-- `claims or None`
abbrev pub or_none : Dict → Option Dict
or_none [] = none
or_none (x ∷ xs) = some (x ∷ xs)

module _ (repr : Json → String) (lower : String → String) (decode : String → Option Json) where
  -- `str(header.get("alg", "")).lower() == "none"`
  unfoldable pub is_unsigned : Fields → Bool
  is_unsigned header =
      lower (elim (find_field "alg" header) [ none ↦ "" | some alg ↦ str repr alg ]) == "none"

  -- What follows the checks of the header.
  abbrev pub payload_claims : Option Json → Option Dict
  payload_claims (some (object payload)) = or_none (claims_of payload)
  payload_claims _ = none

  -- `id_token.split(".")[1]`, an IndexError where there is no "."
  abbrev pub second_claims : Option String → Option Dict
  second_claims none = none
  second_claims (some rest) = payload_claims (decode (pad (before 46 rest)))

  abbrev pub header_claims : String → Option Json → Option Dict
  header_claims id_token (some (object header)) =
      if is_unsigned header then none else second_claims (after 46 id_token)
  header_claims id_token _ = none

  -- `_extract_upstream_claims`
  unfoldable pub extract_upstream_claims : Option String → Option Dict
  extract_upstream_claims none = none
  extract_upstream_claims (some id_token) =
      if id_token == "" then none else header_claims id_token (decode (pad (before 46 id_token)))
