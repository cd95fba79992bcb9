-- ===== src/Guarantees/Rotation.antt =====
-- Refresh tokens that were rotated: which token a lookup ends at.
use mathlib.Core.Option.{some-injective}
use rh_reclaw.Common.{
  ◌≡◌, ◌≢◌, ◌↔◌, refl, sym, ap, subst, ◌∙◌, inl, inr, ℕ, zero, suc, ◌≤◌, String, Option, none, some,
  List, [], ◌++◌, arith, Option-cases, Bool-cases, ◌==◌, ==_iff, string_eq,
}
use rh_reclaw.Common.Result.{ok}
use rh_reclaw.Observability.{log_auth_flow}
use rh_reclaw.Auth.{
  RefreshToken, OAuthToken, KeyValue, OidcProxy, truthy_text, or_lookup, rotation_max_hops,
  rotation_grace_seconds, successor_of, follow_rotation_grace, load_refresh_token, record_rotation,
  after_exchange, exchange_refresh_token,
}

-- `n` rotations lead from one token to another, each of a token that is no longer known.
abbrev pub Chain :
    (unknown : String → Type 0) (step : String → Option String) → ℕ → String → String → Type 0
Chain unknown step zero t v = t ≡ v
Chain unknown step (suc n) t v =
    unknown t × (u : String) × (step t ≡ some u) × Chain unknown step n u v

module _ {S Client : Type 0} (kv : KeyValue S) (base : OidcProxy S Client)
    (hash_token : String → String) (client : Client) (s : S) where
  -- The base class does not know the token.
  abbrev pub Unknown : String → Type 0
  Unknown t = base.load_refresh_token s client t ≡ none

  abbrev pub Rotated : ℕ → String → String → Type 0
  Rotated = Chain Unknown (successor_of kv base hash_token s)

  -- The token is, or was rotated in at most `n` steps to, one that loads as `r`.
  abbrev pub LeadsTo : ℕ → String → RefreshToken → Type 0
  LeadsTo n t r =
      (m : ℕ) × (v : String) × (m ≤ n)
      × Rotated m t v
      × (base.load_refresh_token s client v ≡ some r)

  abbrev follow : ℕ → String → Option RefreshToken
  follow n t = (follow_rotation_grace kv base hash_token client s n t).0

  abbrev lookup : ℕ → String → Option RefreshToken
  lookup n t =
      (or_lookup (base.load_refresh_token s client t)
        (follow_rotation_grace kv base hash_token client s n t)).0

  -- A known token is where its chain ends.
  chain_of_known :
      (m : ℕ) (t v : String) (r r' : RefreshToken)
      → base.load_refresh_token s client t ≡ some r'
      → Rotated m t v
      → base.load_refresh_token s client v ≡ some r
      → some r' ≡ some r
  chain_of_known zero t v r r' at same found =
      sym at ∙ ap (base.load_refresh_token s client) same ∙ found
  chain_of_known (suc m) t v r r' at (lost, u, step, rest) found = absurd (cc (at, lost))

  lookup-known :
      (n : ℕ) (t : String) (r r' : RefreshToken)
      → base.load_refresh_token s client t ≡ some r'
      → (lookup n t ≡ some r) ↔ LeadsTo n t r
  lookup-known n t r r' at =
      let here : lookup n t ≡ some r' = rw (at, lookup) refl in
      (
        λ h. (zero, t, ground arith, refl, at ∙ sym here ∙ h),
        λ (m, v, le, chain, found). here ∙ chain_of_known m t v r r' at chain found,
      )

  -- The chain of an unknown token begins with its successor.
  LeadsTo-successor :
      (n : ℕ) (t u : String) (r : RefreshToken)
      → Unknown t
      → successor_of kv base hash_token s t ≡ some u
      → LeadsTo (suc n) t r ↔ LeadsTo n u r
  LeadsTo-successor n t u r lost next = (
    λ (m, v, le, chain, found). go m v le chain found,
    λ (m, v, le, chain, found). (suc m, v, ground arith, (lost, u, next, chain), found),
  )
    where
      go :
          (m : ℕ) (v : String)
          → m ≤ suc n
          → Rotated m t v
          → base.load_refresh_token s client v ≡ some r
          → LeadsTo n u r
      go zero v le same found = absurd (cc (lost, same, found))
      go (suc m) v le (_, w, step, rest) found = (
        m,
        v,
        ground arith,
        subst (λ x. Rotated m x v) (some-injective w u (sym step ∙ next)) rest,
        found,
      )

  never : (t : String) (r : RefreshToken) → Unknown t → ¬ LeadsTo zero t r
  never t r lost (zero, v, le, same, found) = cc (lost, same, found)
  never t r lost (suc m, v, le, chain, found) = ground arith

  LeadsTo-end :
      (n : ℕ) (t : String) (r : RefreshToken)
      → Unknown t
      → successor_of kv base hash_token s t ≡ none
      → ¬ LeadsTo n t r
  LeadsTo-end n t r lost last (zero, v, le, same, found) = cc (lost, same, found)
  LeadsTo-end n t r lost last (suc m, v, le, (_, w, step, rest), found) = cc (last, step)

  lookup_of_follow :
      (n : ℕ)
      → ((t : String) (r : RefreshToken) → Unknown t → (follow n t ≡ some r) ↔ LeadsTo n t r)
      → (t : String) (r : RefreshToken) → (lookup n t ≡ some r) ↔ LeadsTo n t r
  lookup_of_follow n h t r = elim (Option-cases (base.load_refresh_token s client t)) [
    | inr (r', at) ↦ lookup-known n t r r' at
    | inl lost ↦
        let same : lookup n t ≡ follow n t = rw (lost, lookup) refl in
        subst (λ o. (o ≡ some r) ↔ LeadsTo n t r) (sym same) (h t r lost)
  ]

  follow_iff :
      (n : ℕ) (t : String) (r : RefreshToken) → Unknown t → (follow n t ≡ some r) ↔ LeadsTo n t r
  unfolding follow_rotation_grace
  follow_iff zero t r lost = elim (Option-cases (successor_of kv base hash_token s t)) [
    | inl last ↦
        rw (last, follow) (λ h. absurd (cc h), λ h. absurd (LeadsTo-end zero t r lost last h))
    | inr (u, next) ↦ rw (next, follow) (λ h. absurd (cc h), λ h. absurd (never t r lost h))
  ]
  follow_iff (suc n) t r lost = elim (Option-cases (successor_of kv base hash_token s t)) [
    | inl last ↦
        rw (last, follow) (λ h. absurd (cc h), λ h. absurd (LeadsTo-end (suc n) t r lost last h))
    | inr (u, next) ↦
        let steps = LeadsTo-successor n t u r lost next in
        let rest = lookup_of_follow n (follow_iff n) u r in
        rw (next, follow) (λ h. steps.1 (rest.0 h), λ h. rest.1 (steps.0 h))
  ]

  pub load_refresh_token_iff :
      (t : String) (r : RefreshToken)
      → ((load_refresh_token kv base hash_token client s t).0 ≡ some r)
        ↔ LeadsTo rotation_max_hops t r
  unfolding load_refresh_token
  load_refresh_token_iff t r = lookup_of_follow rotation_max_hops (follow_iff rotation_max_hops) t r

-- What is put under a key is what is found there.
pub record KeepsEntries {S : Type 0} (kv : KeyValue S) : Type 0 where
  pub get-put :
      (s : S) (key value : String) (ttl : ℕ) → kv.get (kv.put s key value ttl) key ≡ some value

module _ {S Client : Type 0} (kv : KeyValue S) (base : OidcProxy S Client)
    (hash_token : String → String) (client : Client) (keeps : KeepsEntries kv) where
  given_text : (new : String) → new ≢ "" → truthy_text (some new) ≡ some new
  given_text new nonempty = elim (Bool-cases (new == "")) [
    | inl e ↦ absurd (nonempty ((==_iff new "").0 e))
    | inr e ↦ rw e refl
  ]

  redirect :
      (s : S) (old new : String) (r : RefreshToken)
      → base.load_refresh_token s client old ≡ none
      → successor_of kv base hash_token s old ≡ some new
      → base.load_refresh_token s client new ≡ some r
      → load_refresh_token kv base hash_token client s old
        ≡ (some r, log_auth_flow "refresh_token_grace_redirect" ++ [])
  unfolding load_refresh_token follow_rotation_grace
  redirect s old new r lost next found = rw (lost, next, found) refl

  module _ (s s' : S) (old : RefreshToken) (scopes : List String) (result : OAuthToken)
      (new : String) where
    -- The state after the exchange.
    abbrev pub exchanged : S
    exchanged = (exchange_refresh_token kv base hash_token client s old scopes).1

    exchanged_lem :
        base.exchange_refresh_token s client old scopes ≡ (ok result, s')
        → truthy_text result.refresh_token ≡ some new
        → exchanged ≡ kv.put s' (hash_token old.token) new rotation_grace_seconds
    unfolding exchange_refresh_token record_rotation
    exchanged_lem by_base given =
        ap (λ x. (after_exchange kv base hash_token client old.token x).1) by_base
        ∙ ap (record_rotation kv base hash_token client s' old.token) given

    -- A token that has just been exchanged is redirected to the one that it was exchanged for.
    pub load_refresh_token-exchange_refresh_token :
        (r : RefreshToken)
        → base.exchange_refresh_token s client old scopes ≡ (ok result, s')
        → result.refresh_token ≡ some new
        → new ≢ ""
        → base.load_refresh_token exchanged client old.token ≡ none
        → base.load_refresh_token exchanged client new ≡ some r
        → load_refresh_token kv base hash_token client exchanged old.token
          ≡ (some r, log_auth_flow "refresh_token_grace_redirect" ++ [])
    unfolding successor_of
    load_refresh_token-exchange_refresh_token r by_base given nonempty lost found =
        let given' = ap truthy_text given ∙ given_text new nonempty in
        let kept =
          ap (λ t. kv.get t (hash_token old.token)) (exchanged_lem by_base given')
          ∙ keeps.get-put s' (hash_token old.token) new rotation_grace_seconds in
        redirect exchanged old.token new r lost (ap truthy_text kept ∙ given_text new nonempty)
          found
