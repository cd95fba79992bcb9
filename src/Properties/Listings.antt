-- ===== src/Properties/Listings.antt =====
-- The listings, and the lookup of refresh tokens.
use rh_reclaw.Common.{
  ◌≡◌, ◌≢◌, ◌↔◌, refl, ◌<◌, ◌++◌, ℕ, String, Option, none, some, List, [], Bool, length,
}
use rh_reclaw.Common.Result.{ok}
use rh_reclaw.Common.Text.{sort_by}
use rh_reclaw.Common.Stdlib.{Stdlib, ℤ}
use rh_reclaw.Models.{Agent, ConversationState, ParticipantRole}
use rh_reclaw.Session.{Session}
use rh_reclaw.Session.Triple.{Ends, At}
use rh_reclaw.Service.Listings.{list_conversations}
use rh_reclaw.Observability.{log_auth_flow}
use rh_reclaw.Auth.{
  RefreshToken, OAuthToken, KeyValue, OidcProxy, rotation_max_hops, load_refresh_token,
  exchange_refresh_token,
}
use rh_reclaw.Guarantees.Directory.{Collation, Subjects, read_directory, read_directory_lem}
use rh_reclaw.Guarantees.Pages.{Shown, CursorGiven, Checks-list_conversations}
use rh_reclaw.Guarantees.Rotation.{
  LeadsTo, load_refresh_token_iff, KeepsEntries, load_refresh_token-exchange_refresh_token,
}

-- Under a collation that orders the texts, and where the agents have distinct subjects that are not
-- empty, a client that calls list_agents with any limit and follows `next_cursor` reaches the end
-- within one call more than there are agents, and has then read every agent once, in the order of
-- the subjects.
pub read_directory_complete :
    (lt : String → String → Bool)
    → Collation lt
    → (limit : ℤ) (s : Session) → Subjects s.working.agents
    → (fuel : ℕ) → length s.working.agents < fuel
    → read_directory lt fuel limit none s
      ≡ (ok (some (sort_by (λ (a b : Agent). lt a.sub b.sub) s.working.agents)), s)
read_directory_complete = read_directory_lem

-- list_conversations raises only where a cursor was given; otherwise it leaves the tables as they
-- were and returns at most the clamped limit, and never more than 200, conversations, in each of
-- which the caller is invited or active and which the filters on role and type admit.
pub list_conversations-Shown :
    (py : Stdlib) (s : Session) (caller : ℕ) (role : Option ParticipantRole) (type : Option String)
    (state : Option ConversationState) (limit : ℤ) (cursor : Option String)
    → Ends
        (λ page s'. At s.committed s.working s' × Shown s.working caller role type limit page)
        (CursorGiven cursor)
        (list_conversations py caller role type state limit cursor s)
list_conversations-Shown py s caller role type state limit cursor =
    (Checks-list_conversations py s.committed s.working caller role type state limit cursor).run s
      (record { committed = refl; working = refl })

module _ {S Client : Type 0} (kv : KeyValue S) (base : OidcProxy S Client)
    (hash_token : String → String) (client : Client) where
  -- A refresh token is looked up as `r` exactly if the base class loads it as `r`, or if at most
  -- three recorded rotations, each of a token that the base class does not know, lead from it to one
  -- that the base class loads as `r`.
  pub load_refresh_token-LeadsTo :
      (s : S) (t : String) (r : RefreshToken)
      → ((load_refresh_token kv base hash_token client s t).0 ≡ some r)
        ↔ LeadsTo kv base hash_token client s rotation_max_hops t r
  load_refresh_token-LeadsTo = load_refresh_token_iff kv base hash_token client

  -- With a store that finds what was put under a key: after an exchange that succeeds with a new
  -- refresh token, looking up the old one, which the base class no longer knows, gives the new one as
  -- the base class loads it, with one redirect event.
  pub load_refresh_token-exchanged :
      KeepsEntries kv
      → (s s' : S) (old : RefreshToken) (scopes : List String) (result : OAuthToken) (new : String)
        (r : RefreshToken)
      → base.exchange_refresh_token s client old scopes ≡ (ok result, s')
      → result.refresh_token ≡ some new
      → new ≢ ""
      → base.load_refresh_token
          (exchange_refresh_token kv base hash_token client s old scopes).1
          client
          old.token
        ≡ none
      → base.load_refresh_token
          (exchange_refresh_token kv base hash_token client s old scopes).1
          client
          new
        ≡ some r
      → load_refresh_token kv base hash_token client
          (exchange_refresh_token kv base hash_token client s old scopes).1
          old.token
        ≡ (some r, log_auth_flow "refresh_token_grace_redirect" ++ [])
  load_refresh_token-exchanged keeps s s' old scopes result new r by_base given nonempty lost
        found =
      load_refresh_token-exchange_refresh_token kv base hash_token client keeps s s' old scopes
        result new r by_base given nonempty lost found
