-- ===== src/Schemas/Validation.antt =====
-- What validate_payload accepts.
use rh_reclaw.Common.{
  ◌≡◌, refl, subst, ◌∙◌, sym, ap, ℕ, ◌≤◌, String, some, inl, inr, arith, Option-cases,
}
use rh_reclaw.Common.Json.{Dict}
use rh_reclaw.Common.Result.{Result, ok, >>=-eq-ok, Result-cases}
use rh_reclaw.Schemas.{
  Pydantic, MessageSchema, PayloadModel, find_schema, get_schema, check_payload_size,
  validate_model, validate_payload, max_payload_bytes,
}

-- The conditions under which a payload is accepted as `dumped`.
pub record Accepts (px : Pydantic) (message_type : String) (version : ℕ) (payload dumped : Dict)
    : Type 0 where
  pub schema : MessageSchema
  pub registered : find_schema message_type version ≡ some schema
  pub fits : px.json_size payload ≤ max_payload_bytes
  pub validates : px.model_validate schema.model payload ≡ ok dumped
  pub dumped_fits : px.json_size dumped ≤ max_payload_bytes

abbrev accepted : {E A : Type 0} → A → Result E A
accepted = ok

ok_inj : {E A : Type 0} (a b : A) → accepted {E = E} a ≡ ok b → a ≡ b
ok_inj a b h = ground arith

module _ (px : Pydantic) where
  size_ok :
      (d : Dict) (u : Unit) → check_payload_size px d ≡ ok u → px.json_size d ≤ max_payload_bytes
  unfolding check_payload_size
  size_ok d u h = ground arith

  ok_of_size : (d : Dict) → px.json_size d ≤ max_payload_bytes → check_payload_size px d ≡ ok tt
  unfolding check_payload_size
  ok_of_size d h = ground arith

  schema_ok :
      (t : String) (v : ℕ) (m : PayloadModel)
      → get_schema t v ≡ ok m
      → (s : MessageSchema) × (find_schema t v ≡ some s) × (s.model ≡ m)
  unfolding get_schema
  schema_ok t v m h = elim (Option-cases (find_schema t v)) [
    | inl missing ↦ absurd (cc (rw (missing, get_schema) at h))
    | inr (s, found) ↦ (s, found, ok_inj s.model m (rw (found, get_schema) at h))
  ]

  model_ok :
      (m : PayloadModel) (p d : Dict) → validate_model px m p ≡ ok d → px.model_validate m p ≡ ok d
  unfolding validate_model
  model_ok m p d h = elim (Result-cases (px.model_validate m p)) [
    | inl (a, e) ↦ e ∙ ap ok (ok_inj a d (rw (e, validate_model) at h))
    | inr (a, e) ↦ absurd (cc (rw (e, validate_model) at h))
  ]

  pub Accepts-of_ok :
      (t : String) (v : ℕ) (p d : Dict) → validate_payload px t v p ≡ ok d → Accepts px t v p d
  unfolding validate_payload
  Accepts-of_ok t v p d h =
      let (u, size, h') = >>=-eq-ok _ _ d h in
      let (m, registered, h'') = >>=-eq-ok _ _ d h' in
      let (d', model, h''') = >>=-eq-ok _ _ d h'' in
      let (u', size', last) = >>=-eq-ok _ _ d h''' in
      let (s, found, same) = schema_ok t v m registered in
      let e = ok_inj d' d last in
      record {
        schema = s;
        registered = found;
        fits = size_ok p u size;
        validates =
            subst (λ x. px.model_validate x p ≡ ok d) (sym same) (model_ok m p d' model ∙ ap ok e);
        dumped_fits = subst (λ x. px.json_size x ≤ max_payload_bytes) e (size_ok d' u' size');
      }

  pub ok_of_Accepts :
      (t : String) (v : ℕ) (p d : Dict) → Accepts px t v p d → validate_payload px t v p ≡ ok d
  unfolding validate_payload get_schema validate_model
  ok_of_Accepts t v p d h =
      rw
        (
          ok_of_size p h.fits,
          validate_payload,
          h.registered,
          get_schema,
          h.validates,
          validate_model,
          ok_of_size d h.dumped_fits,
        )
        refl
