-- ===== src/Guarantees/Registration.antt =====
-- register_agent: a subject is bound to its owner once.
use mathlib.Core.Option.{some-injective}
use rh_reclaw.Common.{
  ◌≡◌, refl, sym, ◌∙◌, ap, subst, ℕ, ◌≤◌, String, List, Option, some, none, Bool, true, false, not,
  is_some, length, any, ltb, ◌==◌, ◌||◌, ==-refl, string_eq, nat_eq, arith,
}
use rh_reclaw.Common.Rows.{
  find_row, find_row-update_row, All-find_row, Persists-update_row, Persists-cons, Keyed-cons,
  Keyed-update_row, none_of_is_some, key-find_row,
}
use rh_reclaw.Common.Text.{sorted_set, str_lt, strip}
use rh_reclaw.Models.{Db, Agent, AgentStatus}
use rh_reclaw.Schemas.{max_accepted_types}
use rh_reclaw.Exceptions.{ServiceError}
use rh_reclaw.Session.{Session, agent_row, add_agent}
use rh_reclaw.Session.Triple.{
  Spec, Checks, Leads, Spec-check, Spec-then, Spec-step, Spec-insert, Spec-write, Checks-query,
  Checks-when, Checks-pure, Checks-now, Checks-uuid4, Leads-pure, Fails-raise, Spec-commit-pure,
}
use rh_reclaw.Service.Lookups.{get_agent_by_sub}
use rh_reclaw.Service.Registration.{check_registration, bind_agent, register_agent, unknown_types}
use rh_reclaw.Board.Steps.{AgentStep-refl}
use rh_reclaw.Board.Writes.{Sound, Sound-agents, Sound-with_audit}
use rh_reclaw.Guarantees.Denials.{Recorded, Spec-audit}

-- An exception of register_agent leaves no trace.
abbrev pub Unchanged : Db → ServiceError → Session → Type 0
Unchanged base e s = s.committed ≡ base

abbrev pub agent_by_sub : String → Db → Option Agent
agent_by_sub sub db = find_row (λ (a : Agent). a.sub) sub db.agents

-- The arguments passed every check of register_agent.
pub record Admissible (sub display_name : String) (accepted_types : List String)
    (r : String × String) : Type 0 where
  pub sub_eq : r.0 ≡ strip sub
  pub sub_nonempty : (strip sub == "") ≡ false
  pub display_name_eq : r.1 ≡ strip display_name
  pub some_types : any (λ t. true) accepted_types ≡ true
  pub few_types : length accepted_types ≤ max_accepted_types
  pub known_types : any (λ t. true) (unknown_types accepted_types) ≡ false

-- The row of an agent that has registered: a new one, or its old row with the same id and owner.
pub record Bound (db : Db) (sub owner_sub owner_email display_name : String) (types : List String)
    (a : Agent) (db' : Db) : Type 0 where
  pub row : agent_row a.id db' ≡ some a
  pub sub_eq : a.sub ≡ sub
  pub owner :
      (old : Agent)
      → agent_by_sub sub db ≡ some old
      → (a.id ≡ old.id) × (a.owner_sub ≡ old.owner_sub)
  pub first_owner : agent_by_sub sub db ≡ none → a.owner_sub ≡ owner_sub
  pub owner_email_eq : a.owner_email ≡ owner_email
  pub display_name_eq : a.display_name ≡ display_name
  pub accepted_types_eq : a.accepted_types ≡ types
  pub active : a.status ≡ AgentStatus.active

none_of_or : {A : Type 0} (b : Bool) (o : Option A) → (b || is_some o) ≡ false → o ≡ none
none_of_or false o h = none_of_is_some o h
none_of_or true o h = cc

-- What a registration leaves.
pub record Registered (base : Db) (sub owner_sub owner_email display_name : String)
    (accepted_types : List String) (a : Agent) (after : Db) : Type 0 where
  pub sound : Sound base after
  pub arguments : Admissible sub display_name accepted_types (strip sub, strip display_name)
  pub bound :
      Bound base
        (strip sub)
        owner_sub
        owner_email
        (strip display_name)
        (sorted_set str_lt accepted_types)
        a
        after
  pub recorded : Recorded (strip sub) "agent.register" after

Registered-of :
    {base : Db} {sub owner_sub owner_email display_name : String} {types : List String} {a : Agent}
    {after : Db} {r : String × String}
    → Sound base after
    → Admissible sub display_name types r
    → Bound base r.0 owner_sub owner_email r.1 (sorted_set str_lt types) a after
    → Recorded r.0 "agent.register" after
    → Registered base sub owner_sub owner_email display_name types a after
Registered-of {base} {sub} {owner_sub} {owner_email} {display_name} {types} {a} {after} {r} sound
      arguments bound recorded =
    record {
      sound = sound;
      arguments = record {
        sub_eq = refl;
        sub_nonempty = arguments.sub_nonempty;
        display_name_eq = refl;
        some_types = arguments.some_types;
        few_types = arguments.few_types;
        known_types = arguments.known_types;
      };
      bound =
          subst
            (λ n. Bound base (strip sub) owner_sub owner_email n (sorted_set str_lt types) a after)
            arguments.display_name_eq
            (subst (λ i. Bound base i owner_sub owner_email r.1 (sorted_set str_lt types) a after)
              arguments.sub_eq bound);
      recorded = subst (λ i. Recorded i "agent.register" after) arguments.sub_eq recorded;
    }

few_of_not : (n : ℕ) → ltb max_accepted_types n ≡ false → n ≤ max_accepted_types
few_of_not n h = ground arith

some_of_not : (b : Bool) → not b ≡ false → b ≡ true
some_of_not b h = ground arith

module _ {base : Db} where
  Checks-check_registration :
      (sub display_name : String) (accepted_types : List String)
      → Checks base base
          (check_registration sub display_name accepted_types)
          (Admissible sub display_name accepted_types)
          (Unchanged base)
  unfolding check_registration
  Checks-check_registration sub display_name accepted_types =
      Spec-check (Checks-when λ _. Fails-raise _ λ s at. at.committed) λ _ nonempty.
        Spec-check (Checks-when λ _. Fails-raise _ λ s at. at.committed) λ _ _.
          Spec-check (Checks-when λ _. Fails-raise _ λ s at. at.committed) λ _ _.
            Spec-check (Checks-when λ _. Fails-raise _ λ s at. at.committed) λ _ few.
              Spec-check (Checks-when λ _. Fails-raise _ λ s at. at.committed) λ _ any_types.
                Spec-check (Checks-when λ _. Fails-raise _ λ s at. at.committed) λ _ _.
                  Spec-check (Checks-when λ _. Fails-raise _ λ s at. at.committed) λ _ known.
                    Checks-pure _ (record {
                      sub_eq = refl;
                      sub_nonempty = nonempty;
                      display_name_eq = refl;
                      some_types = some_of_not _ any_types;
                      few_types = few_of_not _ few;
                      known_types = known;
                    })

  Leads-bind_agent :
      {db : Db}
      → Sound base db
      → (existing : Option Agent) (sub owner_sub owner_email display_name : String)
        (types : List String)
      → agent_by_sub sub db ≡ existing
      → Leads base db
          (bind_agent existing sub owner_sub owner_email display_name types)
          (λ db' a. Sound base db' × Bound db sub owner_sub owner_email display_name types a db')
          (Unchanged base)
  unfolding bind_agent add_agent
  Leads-bind_agent {db} sound none sub owner_sub owner_email display_name types missing =
      Spec-check Checks-now λ t _. Spec-check Checks-uuid4 λ id _.
        Spec-step (Spec-insert _ _ λ s at. at.committed) λ _ fresh.
          let new : agent_row id db ≡ none = none_of_or _ _ fresh in
          let keyed = Keyed-cons (λ (x : Agent). x.id) _ db.agents new sound.valid.agents in
          Leads-pure _ (
            Sound-agents sound _ (Persists-cons _ AgentStep-refl _ db.agents new) keyed,
            record {
              row = keyed.0;
              sub_eq = refl;
              owner = λ old found. cc (missing, found);
              first_owner = λ _. refl;
              owner_email_eq = refl;
              display_name_eq = refl;
              accepted_types_eq = refl;
              active = refl;
            },
          )
  Leads-bind_agent {db} sound (some existing) sub owner_sub owner_email display_name types found =
      let row : agent_row existing.id db ≡ some existing =
        All-find_row (λ (x : Agent). x.sub) (λ a. agent_row a.id db ≡ some a) sub db.agents existing
          sound.valid.agents found in
      Spec-check Checks-now λ t _. Spec-step (Spec-write _) λ _ _. Leads-pure _ (
        Sound-agents sound _
            (Persists-update_row _ AgentStep-refl _ existing db.agents row
              (record { sub = refl; owner_sub = refl }))
            (Keyed-update_row (λ (x : Agent). x.id) _ existing db.agents row sound.valid.agents),
        record {
          row =
              find_row-update_row (λ (x : Agent). x.id) _ existing.id db.agents existing row
              ∙ rw (==-refl existing.id) refl;
          sub_eq = key-find_row (λ (x : Agent). x.sub) sub db.agents existing found;
          owner = λ old found'.
              subst (λ (o : Agent). (existing.id ≡ o.id) × (existing.owner_sub ≡ o.owner_sub))
                (some-injective existing old (sym found ∙ found')) (refl, refl);
          first_owner = λ missing. cc (missing, found);
          owner_email_eq = refl;
          display_name_eq = refl;
          accepted_types_eq = refl;
          active = refl;
        },
      )

  pub Spec-register_agent :
      Sound base base
      → (sub owner_sub owner_email display_name : String) (accepted_types : List String)
      → Spec base base
          (register_agent sub owner_sub owner_email display_name accepted_types)
          (λ a s.
            Registered base sub owner_sub owner_email display_name accepted_types a s.committed)
          (Unchanged base)
  unfolding register_agent get_agent_by_sub
  Spec-register_agent sound sub owner_sub owner_email display_name accepted_types =
      Spec-check (Checks-check_registration sub display_name accepted_types) λ r arguments.
        Spec-check (Checks-query _) λ existing is_existing.
          Spec-then
            (Leads-bind_agent sound existing r.0 owner_sub owner_email r.1 _ (sym is_existing))
            λ db' a h. Spec-audit λ at. Spec-commit-pure a λ s saved.
              subst (Registered base sub owner_sub owner_email display_name accepted_types a)
                (sym saved)
                (Registered-of (Sound-with_audit h.0 _ (ap is_some h.1.row) tt tt) arguments
                  (record {
                    row = h.1.row;
                    sub_eq = h.1.sub_eq;
                    owner = h.1.owner;
                    first_owner = h.1.first_owner;
                    owner_email_eq = h.1.owner_email_eq;
                    display_name_eq = h.1.display_name_eq;
                    accepted_types_eq = h.1.accepted_types_eq;
                    active = h.1.active;
                  })
                  (record {
                    newest = _;
                    older = db'.audit_log;
                    trail = refl;
                    actor_sub_eq = refl;
                    action_eq = refl;
                  }))
