-- ===== src/Guarantees/Keys.antt =====
-- The board identity of a token and an agent key: the two can be read back from it.
use Prim.Native.Char.{Char, code}
use Prim.Native.String.{String, ◌++◌}
use Prim.Native.String as Str
use text.Mathlib.TextLemmas.{nil-append, cons-append}
use rh_reclaw.Common.{
  ◌≡◌, refl, sym, subst, ℕ, Option, none, some, true, false, ◌==◌, string_eq, nat_eq, arith,
  if◌then◌else◌, Bool-cases, or_false, and_true, inl, inr, Option-cases,
}
use rh_reclaw.Common.Result.{ok, >>=-eq-ok}
use rh_reclaw.Common.Chars.{starts_with, occurs_in, all_chars}
use rh_reclaw.Common.Text.{strip}
use rh_reclaw.Common.Stdlib.{Stdlib}
use rh_reclaw.Tools.Caller.{
  is_key_char, control_position, check_key, validate_agent_key, compose_sub, caller_sub,
  require_token, require_identity,
}
use rh_reclaw.Identity.{AccessToken}

abbrev drop_two : String → String
drop_two (Str.◌∷◌ c (Str.◌∷◌ d s)) = s
drop_two _ = ""

abbrev extend : Char → String → String × Option String → String × Option String
extend c s (base, some key) = (Str.◌∷◌ c base, some key)
extend c s (base, none) =
    if starts_with "::" (Str.◌∷◌ c s)
    then ("", some (drop_two (Str.◌∷◌ c s)))
    else (Str.◌∷◌ c s, none)

-- The part before the last "::", and the part after it, if there is one.
unfoldable pub split_sub : String → String × Option String
split_sub Str.[] = ("", none)
split_sub (Str.◌∷◌ c s) = extend c s (split_sub s)

split_sub-plain : (s : String) → occurs_in "::" s ≡ false → split_sub s ≡ (s, none)
unfolding split_sub occurs_in
split_sub-plain Str.[] h = refl
split_sub-plain (Str.◌∷◌ c s) h =
    let (starts, rest) = or_false (starts_with "::" (Str.◌∷◌ c s)) (occurs_in "::" s) h in
    rw (split_sub-plain s rest, starts) refl

is_key_char-colon : (n : ℕ) → is_key_char n ≡ true → (58 == n) ≡ false
is_key_char-colon n h = ground arith

starts_with-key : (key : String) → all_chars is_key_char key ≡ true → starts_with ":" key ≡ false
unfolding all_chars
starts_with-key Str.[] h = refl
starts_with-key (Str.◌∷◌ c s) h = rw (is_key_char-colon (code c) (and_true _ _ h).0) refl

split_sub-key :
    (key : String)
    → occurs_in "::" key ≡ false
    → all_chars is_key_char key ≡ true
    → split_sub ("::" ++ key) ≡ ("", some key)
unfolding split_sub
split_sub-key key plain allowed =
    rw
      (cons-append, cons-append, nil-append, split_sub-plain key plain, starts_with-key key allowed)
      refl

pub split_sub-compose :
    (base key : String)
    → occurs_in "::" key ≡ false
    → all_chars is_key_char key ≡ true
    → split_sub (base ++ "::" ++ key) ≡ (base, some key)
unfolding split_sub
split_sub-compose Str.[] key plain allowed = rw nil-append (split_sub-key key plain allowed)
split_sub-compose (Str.◌∷◌ c base) key plain allowed =
    rw (cons-append, split_sub-compose base key plain allowed) refl

-- What the checks of a key leave of it.
IsKey : String → Type 0
IsKey key = (occurs_in "::" key ≡ false) × (all_chars is_key_char key ≡ true)

module _ (py : Stdlib) where
  check_key-IsKey : (key : String) → check_key py key ≡ ok tt → IsKey key
  unfolding check_key IsKey
  check_key-IsKey key h = elim (Option-cases (control_position 0 key)) [
    | inl none_found ↦ ground arith
    | inr (i, found) ↦ ground arith
  ]

  compose_sub-plain :
      (base sub : String) (key : Option String)
      → compose_sub py base key ≡ ok sub
      → occurs_in "::" base ≡ false
  unfolding compose_sub
  compose_sub-plain base sub key h = elim (Bool-cases (occurs_in "::" base)) [
    | inl e ↦ absurd (cc (rw e at h))
    | inr e ↦ e
  ]

  split_sub-base :
      (base sub : String) → compose_sub py base none ≡ ok sub → split_sub sub ≡ (base, none)
  unfolding compose_sub
  split_sub-base base sub h =
      let plain = compose_sub-plain base sub none h in
      let same : base ≡ sub = cc (rw plain at h) in rw (sym same, split_sub-plain base plain) refl

  split_sub-both :
      (base sub key : String)
      → IsKey key
      → compose_sub py base (some key) ≡ ok sub
      → split_sub sub ≡ (base, some key)
  unfolding compose_sub IsKey
  split_sub-both base sub key (plain, allowed) h =
      let same : base ++ "::" ++ key ≡ sub =
        cc (rw (compose_sub-plain base sub (some key) h) at h) in
      rw (sym same, split_sub-compose base key plain allowed) refl

  pub split_sub-compose_sub :
      (base sub : String) (k key : Option String)
      → validate_agent_key py k ≡ ok key
      → compose_sub py base key ≡ ok sub
      → split_sub sub ≡ (base, key)
  unfolding validate_agent_key
  split_sub-compose_sub base sub none key valid composed =
      let same : none ≡ key = cc valid in
      subst (λ o. split_sub sub ≡ (base, o)) same
        (split_sub-base base sub (subst (λ o. compose_sub py base o ≡ ok sub) (sym same) composed))
  split_sub-compose_sub base sub (some k) key valid composed =
      let (u, checked, found) = >>=-eq-ok (check_key py (strip k)) _ key valid in
      let same : some (strip k) ≡ key = cc found in
      subst (λ o. split_sub sub ≡ (base, o)) same
        (split_sub-both base sub (strip k) (check_key-IsKey (strip k) checked)
          (subst (λ o. compose_sub py base o ≡ ok sub) (sym same) composed))

  -- The token and the key of an accepted caller, from its board identity.
  pub split_sub-caller_sub_lem :
      (token : AccessToken) (k : Option String) (sub : String)
      → caller_sub py (some token) k ≡ ok sub
      → (require_identity py token ≡ ok (split_sub sub).0)
        × (validate_agent_key py k ≡ ok (split_sub sub).1)
  unfolding caller_sub require_token
  split_sub-caller_sub_lem token k sub h =
      let (base, identity, h') = >>=-eq-ok (require_identity py token) _ sub h in
      let (key, valid, composed) = >>=-eq-ok (validate_agent_key py k) _ sub h' in
      rw (split_sub-compose_sub base sub k key valid composed) (identity, valid)
