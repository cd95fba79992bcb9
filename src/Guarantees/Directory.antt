-- ===== src/Guarantees/Directory.antt =====
-- list_agents, page after page: the cursor of each page leads to the next.
use mathlib.Core.List.{append_assoc}
use mathlib.Core.Option
use rh_reclaw.Common.{
  ◌≡◌, ◌≢◌, refl, sym, ◌∙◌, ap, subst, inl, inr, ℕ, zero, suc, ◌<◌, String, Option, none, some,
  List, [], ◌∷◌, ◌++◌, Bool, true, false, ltb, length, All, arith, Bool-cases, ◌==◌, ==_iff,
  string_eq, nat_eq, if◌then◌else◌,
}
use rh_reclaw.Common.Result.{ok}
use rh_reclaw.Common.Rows.{select}
use rh_reclaw.Common.Text.{sort_by, Ordered, Pairwise, sort_by-Ordered, sort_by-All, length-sort_by}
use rh_reclaw.Common.Pages.{
  take, drop, last, take-drop, take-take, take-all, length-take, length-drop, last-take,
}
use rh_reclaw.Common.Stdlib.{ℤ, to_nat}
use rh_reclaw.Models.{Db, Agent}
use rh_reclaw.Session.{Session, Exec, pure, query, ◌>>=◌}
use rh_reclaw.Service.Listings.{clamp_limit, directory, agent_page, list_agents}

-- A collation orders the texts.
pub record Collation (lt : String → String → Bool) : Type 0 where
  pub irrefl : (s : String) → lt s s ≡ false
  pub trans : (s t u : String) → lt s t ≡ true → lt t u ≡ true → lt s u ≡ true
  pub total : (s t : String) → s ≢ t → lt t s ≡ false → lt s t ≡ true

-- The subjects of the board: none is empty, and no two agents share one.
abbrev pub Subjects : List Agent → Type 0
Subjects agents =
    Pairwise (λ (a b : Agent). a.sub ≢ b.sub) agents × All (λ (a : Agent). a.sub ≢ "") agents

positive : (n : ℕ) → (m : ℕ) × ((if n == 0 then 1 else n) ≡ suc m)
positive zero = (0, refl)
positive (suc n) = (n, ground arith)

clamp_limit-positive : (limit : ℤ) → (n : ℕ) × (clamp_limit limit ≡ suc n)
unfolding clamp_limit
clamp_limit-positive limit = elim (Bool-cases (ltb 200 (to_nat limit))) [
  | inl e ↦ rw e (199, refl)
  | inr e ↦ rw e (positive (to_nat limit))
]

-- What a client does that reads the directory to its end: `fuel` bounds the calls.
unfoldable pub read_directory :
    (String → String → Bool) → ℕ → ℤ → Option String → Exec (Option (List Agent))
read_directory lt zero limit cursor = pure none
read_directory lt (suc fuel) limit cursor = do
  page ← list_agents lt limit cursor
  elim page.next_cursor [
    | none ↦ pure (some page.agents)
    | some next ↦ read_directory lt fuel limit (some next) >>= λ rest.
        pure (Option.map (λ agents. page.agents ++ agents) rest)
  ]

module _ (n total : ℕ) (zs : List Agent) where
  agent_page-last :
      ltb n (length zs) ≡ false
      → agent_page n total (take (suc n) zs)
        ≡ record { agents = zs; total_count = total; has_more = false; next_cursor = none }
  unfolding agent_page
  agent_page-last h = rw (length-take n zs, take-take n zs, h, take-all n zs h) refl

  agent_page-more :
      (c : Agent)
      → ltb n (length zs) ≡ true
      → last (take n zs) ≡ some c
      → agent_page n total (take (suc n) zs) ≡ record {
        agents = take n zs;
        total_count = total;
        has_more = true;
        next_cursor = some c.sub;
      }
  unfolding agent_page
  agent_page-more c h at = rw (length-take n zs, take-take n zs, h, at) refl

enough_left : (fuel rest all : ℕ) → rest < all → all < suc fuel → rest < fuel
enough_left fuel rest all h k = omega arith

module _ (lt : String → String → Bool) (order : Collation lt) where
  abbrev by_sub : Agent → Agent → Bool
  by_sub a b = lt a.sub b.sub

  -- The rows after a cursor are those that follow its agent.
  select-none :
      (c : String) (zs : List Agent)
      → All (λ (z : Agent). lt c z.sub ≡ true) zs
      → select (λ (a : Agent). lt c a.sub) zs ≡ zs
  select-none c [] h = refl
  select-none c (z ∷ zs) h = rw (h.0, select-none c zs h.1) refl

  skipped : (y c : String) → lt y c ≡ true → lt c y ≡ false
  skipped y c h = elim (Bool-cases (lt c y)) [
    | inl e ↦ absurd (cc (order.trans y c y h e, order.irrefl y))
    | inr e ↦ e
  ]

  All-at :
      (P : Agent → Type 0) (ys : List Agent) (c : Agent) (zs : List Agent)
      → All P (ys ++ c ∷ zs)
      → P c
  All-at P [] c zs h = h.0
  All-at P (y ∷ ys) c zs h = All-at P ys c zs h.1

  select-after :
      (ys : List Agent) (c : Agent) (zs : List Agent)
      → Ordered by_sub (ys ++ c ∷ zs)
      → select (λ (a : Agent). lt c.sub a.sub) (ys ++ c ∷ zs) ≡ zs
  select-after [] c zs h = rw (order.irrefl c.sub) (select-none c.sub zs h.0)
  select-after (y ∷ ys) c zs h =
      rw (skipped y.sub c.sub (All-at (λ z. lt y.sub z.sub ≡ true) ys c zs h.0))
        (select-after ys c zs h.1)

  -- The directory is `ys` and then `zs`, and the cursor stands between the two.
  module _ (limit : ℤ) (s : Session) (sorted : Ordered by_sub (sort_by by_sub s.working.agents))
      (named : All (λ (a : Agent). a.sub ≢ "") (sort_by by_sub s.working.agents)) where
    -- The row `c` ends a page.
    directory-after :
        (ys zs : List Agent) (c : Agent)
        → sort_by by_sub s.working.agents ≡ ys ++ c ∷ zs
        → directory lt (some c.sub) s.working ≡ zs
    unfolding directory
    directory-after ys zs c split =
        let given : c.sub ≢ "" =
          All-at (λ a. a.sub ≢ "") ys c zs (subst (All (λ (a : Agent). a.sub ≢ "")) split named) in
        elim (Bool-cases (c.sub == "")) [
          | inl e ↦ absurd (given ((==_iff c.sub "").0 e))
          | inr e ↦ rw (e, split) (select-after ys c zs (subst (Ordered by_sub) split sorted))
        ]

    page_split :
        (ys init zs rest : List Agent) (c : Agent) (m : ℕ)
        → take m zs ≡ init ++ c ∷ []
        → drop m zs ≡ rest
        → ys ++ zs ≡ (ys ++ init) ++ c ∷ rest
    page_split ys init zs rest c m taken dropped =
        ap (λ l. ys ++ l)
          (sym (take-drop m zs)
            ∙ ap (λ l. l ++ drop m zs) taken
            ∙ append_assoc init (c ∷ []) (drop m zs)
            ∙ ap (λ l. init ++ c ∷ l) dropped)
        ∙ sym (append_assoc ys init (c ∷ rest))

    read_from :
        (fuel : ℕ) (cursor : Option String) (ys zs : List Agent)
        → sort_by by_sub s.working.agents ≡ ys ++ zs
        → directory lt cursor s.working ≡ zs
        → length zs < fuel
        → read_directory lt fuel limit cursor s ≡ (ok (some zs), s)
    unfolding read_directory list_agents query ◌>>=◌ pure
    read_from zero cursor ys zs split at enough = absurd (ground arith)
    read_from (suc fuel) cursor ys zs split at enough =
        let (m, clamped) = clamp_limit-positive limit in
        elim (Bool-cases (ltb (suc m) (length zs))) [
          | inr e ↦ rw (at, clamped, agent_page-last (suc m) _ zs e) refl
          | inl e ↦
              let (c, init, found, page) = last-take m zs e in
              let next =
                read_from fuel (some c.sub) (ys ++ take (suc m) zs) (drop (suc m) zs)
                  (split
                    ∙ ap (λ l. ys ++ l) (sym (take-drop (suc m) zs))
                    ∙ sym (append_assoc ys (take (suc m) zs) (drop (suc m) zs)))
                  (directory-after (ys ++ init) (drop (suc m) zs) c
                    (split ∙ page_split ys init zs (drop (suc m) zs) c (suc m) page refl))
                  (enough_left fuel (length (drop (suc m) zs)) (length zs) (length-drop m zs e)
                    enough) in
              rw (at, clamped, agent_page-more (suc m) _ zs c e found, next, take-drop (suc m) zs)
                refl
        ]

  ordered :
      (agents : List Agent)
      → Pairwise (λ (a b : Agent). a.sub ≢ b.sub) agents
      → Ordered by_sub (sort_by by_sub agents)
  ordered agents apart =
      sort_by-Ordered by_sub (λ (a b : Agent). a.sub ≢ b.sub)
        (λ x y z. order.trans x.sub y.sub z.sub) (λ x y. order.total x.sub y.sub) agents apart

  select-all : (zs : List Agent) → select (λ a. true) zs ≡ zs
  select-all [] = refl
  select-all (z ∷ zs) = ap (λ l. z ∷ l) (select-all zs)

  directory-none : (db : Db) → directory lt none db ≡ sort_by by_sub db.agents
  unfolding directory
  directory-none db = select-all (sort_by by_sub db.agents)

  -- Enough calls read every agent, once, in the order of the subjects.
  pub read_directory_lem :
      (limit : ℤ) (s : Session)
      → Subjects s.working.agents
      → (fuel : ℕ) → length s.working.agents < fuel
      → read_directory lt fuel limit none s ≡ (ok (some (sort_by by_sub s.working.agents)), s)
  read_directory_lem limit s (apart, named) fuel enough =
      read_from limit s (ordered s.working.agents apart)
        (sort_by-All by_sub (λ a. a.sub ≢ "") s.working.agents named) fuel none []
        (sort_by by_sub s.working.agents) refl (directory-none s.working)
        (subst (λ n. n < fuel) (sym (length-sort_by by_sub s.working.agents)) enough)
