-- ===== src/Guarantees/Returns.antt =====
-- accept_invite, decline_invite, leave and get_conversation where nothing stands in their way: they do not raise.
use rh_reclaw.Common.{
  ◌⊎◌, inl, inr, Bool, ◌||◌, Option, ◌≡◌, refl, sym, ◌∙◌, ap, subst, ℕ, String, some, none, not,
  false, ◌==◌, ==_iff,
}
use mathlib.Core.Option.{some-injective}
use mathlib.Core.Bool.{false≢true}
use rh_reclaw.Common.Result.{Result, ok, err}
use rh_reclaw.Models.{
  Db, Conversation, ConversationState, state_eq, Participant, ParticipantStatus, status_eq,
}
use rh_reclaw.Exceptions.{ServiceError}
use rh_reclaw.Session.{Session, conversation_row, participant_row}
use rh_reclaw.Session.Triple.{
  Ends, Spec, Spec-if, Spec-commit, Spec-pure, Checks-now, Leads, Spec-check, Spec-then, Spec-step,
  Spec-write, Spec-commit-pure, Checks-query, Checks-when, Leads-pure, Checks-pure, Checks,
  Checks-weaken,
}
use rh_reclaw.Service.Lookups.{
  load_participant_for_transition, find_conversation, find_member, find_participant, require_member,
  load_participant_for_read,
}
use rh_reclaw.Service.Reads.{get_conversation, read_as_invited, read_as_member, conversation_dict}
use rh_reclaw.Service.Membership.{accept_invite, decline_invite, leave}
use rh_reclaw.Board.Writes.{Sound}
use rh_reclaw.Guarantees.Denials.{Spec-audit}
use rh_reclaw.Guarantees.Loading.{Leads-maybe_expire, id-conversation_row}

-- No exception at all.
abbrev pub Never : ServiceError → Session → Type 0
Never e s = ⊥

-- The states in which an invitation is void.
abbrev pub closed : ConversationState → Bool
closed state = state == ConversationState.completed || state == ConversationState.canceled

not_closed :
    (before after : ConversationState)
    → (after ≡ before) ⊎ (after ≡ ConversationState.expired)
    → closed before ≡ false
    → closed after ≡ false
not_closed before after (inl same) h = ap closed same ∙ h
not_closed before after (inr same) h = ap closed same

-- A call that never raises returns.
pub returns_lem :
    {A : Type 0} (r : Result ServiceError A × Session)
    → Ends (λ _ _. Unit) Never r
    → (a : A) × (r.0 ≡ ok a)
returns_lem (ok u, s) h = (u, refl)
returns_lem (err e, s) h = absurd h

module _ {base : Db} (sound : Sound base base) (actor_sub : String) (agent_id conversation_id : ℕ)
    (c : Conversation) (p : Participant) (found : conversation_row conversation_id base ≡ some c)
    (member : participant_row conversation_id agent_id base ≡ some p) where
  Checks-present :
      (o : Option Conversation)
      → o ≡ some c
      → Checks base base (find_member o conversation_id agent_id) (λ m. m ≡ some p) Never
  unfolding find_member find_participant
  Checks-present none e = absurd (cc e)
  Checks-present (some d) e = Checks-weaken (λ m h. h ∙ member) (Checks-query _)

  Checks-required :
      (o : Option Conversation) (q : Option Participant)
      → o ≡ some c
      → q ≡ some p
      → Checks base base (require_member actor_sub agent_id o q) (λ x. (x.0 ≡ c) × (x.1 ≡ p)) Never
  unfolding require_member
  Checks-required none q e k = absurd (cc e)
  Checks-required (some d) none e k = absurd (cc k)
  Checks-required (some d) (some q) e k =
      Checks-pure (d, q) (some-injective d c e, some-injective q p k)

  pub Leads-load_present :
      (required : ParticipantStatus)
      → p.status ≡ required
      → Leads base base
          (load_participant_for_transition actor_sub agent_id conversation_id required)
          (λ _ x. (x.0.state ≡ c.state) ⊎ (x.0.state ≡ ConversationState.expired))
          Never
  unfolding load_participant_for_transition find_conversation
  Leads-load_present required right = Spec-check (Checks-query _) λ o is_found.
      Spec-check (Checks-present o (is_found ∙ found)) λ q is_member.
        Spec-check (Checks-required o q (is_found ∙ found) is_member) λ x same.
          Spec-then
            (Leads-maybe_expire sound actor_sub x.0 (
              subst (λ d. conversation_row d.id base ≡ some d) (sym same.0)
                (subst (λ i. conversation_row i base ≡ some c)
                  (sym (id-conversation_row base conversation_id c found)) found)))
            λ db' c' touched.
              Spec-check
                (Checks-when λ wrong. absurd (
                  false≢true (
                    sym (
                      ap not (
                        (==_iff x.1.status required).1
                          (ap (λ (q : Participant). q.status) same.1 ∙ right)))
                    ∙ wrong)))
                λ _ _. Leads-pure _ (
                  subst
                    (λ (d : Conversation).
                      (c'.state ≡ d.state) ⊎ (c'.state ≡ ConversationState.expired))
                    same.0 touched.state)

  Leads-read_present :
      (p.status == ParticipantStatus.left || p.status == ParticipantStatus.declined) ≡ false
      → Leads base base
          (load_participant_for_read actor_sub agent_id conversation_id)
          (λ _ _. Unit)
          Never
  unfolding load_participant_for_read find_conversation
  Leads-read_present present = Spec-check (Checks-query _) λ o is_found.
      Spec-check (Checks-present o (is_found ∙ found)) λ q is_member.
        Spec-check (Checks-required o q (is_found ∙ found) is_member) λ x same.
          Spec-check
            (Checks-when λ gone. absurd (
              false≢true (
                sym (
                  ap
                    (λ (q : Participant).
                      q.status == ParticipantStatus.left || q.status == ParticipantStatus.declined)
                    same.1
                  ∙ present)
                ∙ gone)))
            λ _ _.
              Spec-then
                (Leads-maybe_expire sound actor_sub x.0 (
                  subst (λ d. conversation_row d.id base ≡ some d) (sym same.0)
                    (subst (λ i. conversation_row i base ≡ some c)
                      (sym (id-conversation_row base conversation_id c found)) found)))
                λ db' c' touched. Leads-pure _ tt

  Spec-dict : (d : Db) (x : Conversation) → Checks d d (conversation_dict x) (λ _. Unit) Never
  unfolding conversation_dict
  Spec-dict d x =
      Spec-if (x.state == ConversationState.active)
        (λ _. Spec-check Checks-now λ t _. Checks-pure _ tt) (λ _. Checks-pure _ tt)

  pub Spec-get_conversation_returns :
      (collation : String → String → Bool) (since : ℕ)
      → (p.status == ParticipantStatus.left || p.status == ParticipantStatus.declined) ≡ false
      → Spec base base
          (get_conversation collation actor_sub agent_id conversation_id since)
          (λ _ _. Unit)
          Never
  unfolding get_conversation read_as_invited read_as_member
  Spec-get_conversation_returns collation since present =
      Spec-then (Leads-read_present present) λ db x _. Spec-check (Checks-query _) λ people _.
        Spec-if (x.1.status == ParticipantStatus.invited)
          (λ _. Spec-commit (Spec-check (Spec-dict _ x.0) λ shown _. Spec-pure _ λ s at. tt))
          (λ _. Spec-check (Checks-query _) λ rows _.
            Spec-step (Spec-write _)
              λ _ _. Spec-commit (Spec-check (Spec-dict _ x.0) λ shown _. Spec-pure _ λ s at. tt))

  pub Spec-leave_returns :
      p.status ≡ ParticipantStatus.active
      → Spec base base (leave actor_sub agent_id conversation_id) (λ _ _. Unit) Never
  unfolding leave
  Spec-leave_returns is_active =
      Spec-then (Leads-load_present ParticipantStatus.active is_active)
        λ db x _. Spec-step (Spec-write _) λ _ _. Spec-audit λ at. Spec-commit-pure _ λ s saved. tt

  pub Spec-decline_invite_returns :
      p.status ≡ ParticipantStatus.invited
      → Spec base base (decline_invite actor_sub agent_id conversation_id) (λ _ _. Unit) Never
  unfolding decline_invite
  Spec-decline_invite_returns is_invited =
      Spec-then (Leads-load_present ParticipantStatus.invited is_invited)
        λ db x _. Spec-step (Spec-write _) λ _ _. Spec-audit λ at. Spec-commit-pure _ λ s saved. tt

  pub Spec-accept_invite_returns :
      p.status ≡ ParticipantStatus.invited
      → closed c.state ≡ false
      → Spec base base (accept_invite actor_sub agent_id conversation_id) (λ _ _. Unit) Never
  unfolding accept_invite
  Spec-accept_invite_returns is_invited is_open =
      Spec-then (Leads-load_present ParticipantStatus.invited is_invited) λ db x kept.
        Spec-check
          (Checks-when
            λ wrong. absurd (false≢true (sym (not_closed c.state x.0.state kept is_open) ∙ wrong)))
          λ _ _.
            Spec-check Checks-now λ t _.
              Spec-step (Spec-write _) λ _ _. Spec-audit λ at. Spec-commit-pure _ λ s saved. tt
