-- ===== src/Guarantees/Claims.antt =====
-- The claims that are taken over from the identity provider's token.
use mathlib.Core.Bool.{false≢true}
use mathlib.Core.Option.{some-injective}
use rh_reclaw.Identity.{str}
use rh_reclaw.Common.{
  ◌≡◌, ◌≢◌, refl, sym, ◌∙◌, subst, ◌⊎◌, ==_iff, inl, inr, String, Option, none, some, List, [], ◌∷◌,
  true, false, All, contains, Option-cases, Bool-cases, ◌==◌, string_eq,
}
use rh_reclaw.Common.Json.{Json, null, bool, nat, number, text, array, object, Fields, Dict}
use rh_reclaw.Common.Chars.{before, after}
use rh_reclaw.Common.Pages.{collect}
use rh_reclaw.Auth.Claims.{
  upstream_claim_keys, find_field, pad, claim_entry, claims_of, or_none, is_unsigned,
  payload_claims, second_claims, header_claims, extract_upstream_claims,
}

-- Each entry has one of the keys, and the value that the payload has under it.
abbrev pub Copied : Fields → Dict → Type 0
Copied payload claims =
    All
      (λ (e : String × Json).
        (contains e.0 upstream_claim_keys ≡ true) × (find_field e.0 payload ≡ some e.1))
      claims

module _ (repr : Json → String) (lower : String → String) (decode : String → Option Json) where
  -- The header has no algorithm, or one that is not "none" in lower case.
  abbrev pub NotNone : Fields → Type 0
  NotNone header =
      (find_field "alg" header ≡ none)
      ⊎ ((alg : Json) × (find_field "alg" header ≡ some alg) × (lower (str repr alg) ≢ "none"))

  is_unsigned-NotNone :
      (header : Fields) → is_unsigned repr lower decode header ≡ false → NotNone header
  unfolding is_unsigned
  is_unsigned-NotNone header h = elim (Option-cases (find_field "alg" header)) [
    | inl missing ↦ inl missing
    | inr (alg, found) ↦ inr (
      alg,
      found,
      λ same. false≢true (sym (rw found at h) ∙ (==_iff (lower (str repr alg)) "none").1 same),
    )
  ]

  -- The header does not say that the token is unsigned, and the claims are copied from its payload.
  pub record Extracted (id_token : String) (claims : Dict) : Type 0 where
    pub header : Fields
    pub header_decoded : decode (pad (before 46 id_token)) ≡ some (object header)
    pub signed : NotNone header
    pub rest : String
    pub rest_found : after 46 id_token ≡ some rest
    pub payload : Fields
    pub payload_decoded : decode (pad (before 46 rest)) ≡ some (object payload)
    pub copied : Copied payload claims
    pub nonempty : claims ≢ []

  collect-Copied :
      (payload : Fields) (keys : List String)
      → All (λ k. contains k upstream_claim_keys ≡ true) keys
      → Copied payload (collect (claim_entry payload) keys)
  collect-Copied payload [] h = tt
  collect-Copied payload (k ∷ keys) h = elim (Option-cases (find_field k payload)) [
    | inl missing ↦ rw (missing, claim_entry) (collect-Copied payload keys h.1)
    | inr (v, found) ↦ rw (found, claim_entry) ((h.0, found), collect-Copied payload keys h.1)
  ]

  or_none-some : (d claims : Dict) → or_none d ≡ some claims → (d ≡ claims) × (claims ≢ [])
  or_none-some [] claims h = absurd (cc h)
  or_none-some (x ∷ xs) claims h =
      let same = some-injective (x ∷ xs) claims h in (same, λ empty. cc (same, empty))

  payload_claims-object :
      (p : Option Json) (claims : Dict)
      → payload_claims repr lower decode p ≡ some claims
      → (payload : Fields) × (p ≡ some (object payload))
        × (claims_of payload ≡ claims)
        × (claims ≢ [])
  payload_claims-object (some (object payload)) claims h =
      let (same, nonempty) = or_none-some (claims_of payload) claims h in
      (payload, refl, same, nonempty)
  payload_claims-object none claims h = absurd (cc h)
  payload_claims-object (some null) claims h = absurd (cc h)
  payload_claims-object (some (bool b)) claims h = absurd (cc h)
  payload_claims-object (some (nat n)) claims h = absurd (cc h)
  payload_claims-object (some (number r)) claims h = absurd (cc h)
  payload_claims-object (some (text s)) claims h = absurd (cc h)
  payload_claims-object (some (array xs)) claims h = absurd (cc h)

  claims_of-Copied : (payload : Fields) → Copied payload (claims_of payload)
  unfolding claims_of
  claims_of-Copied payload =
      collect-Copied payload upstream_claim_keys (refl, (refl, (refl, (refl, tt))))

  extracted :
      (id_token : String) (header : Fields) (claims : Dict)
      → decode (pad (before 46 id_token)) ≡ some (object header)
      → is_unsigned repr lower decode header ≡ false
      → (rest : Option String) → after 46 id_token ≡ rest
      → second_claims repr lower decode rest ≡ some claims
      → Extracted id_token claims
  extracted id_token header claims decoded signed none at h = absurd (cc h)
  extracted id_token header claims decoded signed (some rest) at h =
      let (payload, object_found, same, nonempty) = payload_claims-object _ claims h in
      record {
        header = header;
        header_decoded = decoded;
        signed = is_unsigned-NotNone header signed;
        rest = rest;
        rest_found = at;
        payload = payload;
        payload_decoded = object_found;
        copied = subst (Copied payload) same (claims_of-Copied payload);
        nonempty = nonempty;
      }

  header_claims-Extracted :
      (id_token : String) (h : Option Json) (claims : Dict)
      → decode (pad (before 46 id_token)) ≡ h
      → header_claims repr lower decode id_token h ≡ some claims
      → Extracted id_token claims
  header_claims-Extracted id_token (some (object header)) claims at found =
      elim (Bool-cases (is_unsigned repr lower decode header)) [
        | inl e ↦ absurd (cc (rw e at found))
        | inr e ↦ extracted id_token header claims at e (after 46 id_token) refl (rw e at found)
      ]
  header_claims-Extracted id_token none claims at found = absurd (cc found)
  header_claims-Extracted id_token (some null) claims at found = absurd (cc found)
  header_claims-Extracted id_token (some (bool b)) claims at found = absurd (cc found)
  header_claims-Extracted id_token (some (nat n)) claims at found = absurd (cc found)
  header_claims-Extracted id_token (some (number r)) claims at found = absurd (cc found)
  header_claims-Extracted id_token (some (text s)) claims at found = absurd (cc found)
  header_claims-Extracted id_token (some (array xs)) claims at found = absurd (cc found)

  pub extract_upstream_claims-Extracted :
      (id_token : String) (claims : Dict)
      → extract_upstream_claims repr lower decode (some id_token) ≡ some claims
      → Extracted id_token claims
  unfolding extract_upstream_claims
  extract_upstream_claims-Extracted id_token claims h = elim (Bool-cases (id_token == "")) [
    | inl e ↦ absurd (cc (rw e at h))
    | inr e ↦ header_claims-Extracted id_token _ claims refl (rw e at h)
  ]
