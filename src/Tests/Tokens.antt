-- ===== src/Tests/Tokens.antt =====
-- A standard library, tokens and worlds for the tests of the server.
use Prim.Native.Char.{Char, code}
use Prim.Native.String as Str
use package.text.Mathlib.TextEquality.{Char-path}
use rh_reclaw.Common.{
  ◌≡◌, ◌≢◌, refl, sym, ◌∙◌, String, Option, none, some, List, [], ◌∷◌, Bool, true, false, ltb,
  arith, Bool-cases, inl, inr, ◌==◌, ==_iff, ==-refl, nat_eq, string_eq, if◌then◌else◌,
}
use mathlib.Core.Bool.{false≢true}
use rh_reclaw.Models.{Db, ConversationState, ParticipantRole, ParticipantStatus}
use rh_reclaw.Common.Result.{ok}
use rh_reclaw.Common.Json.{nat, text, array, texts}
use rh_reclaw.Common.Stdlib.{Stdlib}
use rh_reclaw.Identity.{AccessToken}
use rh_reclaw.Call.{World}
use rh_reclaw.Auth.{RefreshToken, KeyValue, OidcProxy}
use rh_reclaw.Guarantees.Directory.{Collation}
use rh_reclaw.Guarantees.Rotation.{KeepsEntries}
use rh_reclaw.Tests.Board.{joined, agents_only, fresh_session}

-- "c" is the id of the conversation that alice starts.
abbrev pub test_stdlib : Stdlib
test_stdlib = record {
  repr = λ v. "?";
  parse_uuid = λ s. if s == "c" then some 100 else if s == "b" then some 2 else none;
  uuid_text = λ n. "id";
  fromisoformat = λ s. none;
  isoformat = λ n. "time";
  zoned = λ n. n;
  round = λ n. nat n;
}

abbrev pub agent_token : String → List String → AccessToken
agent_token sub scopes = record {
  client_id = sub;
  claims = ("iss", text "agent-jwt") ∷ ("sub", text sub) ∷ ("scopes", array (texts scopes)) ∷ [];
}

abbrev pub joined_world : World
joined_world = record {
  session = record joined { working = joined.committed };
  log = [];
  monotonic = λ n. n;
  readings = 0;
}

-- The order of the code points.
abbrev pub text_lt : String → String → Bool
text_lt Str.[] Str.[] = false
text_lt Str.[] (Str.◌∷◌ d t) = true
text_lt (Str.◌∷◌ c s) Str.[] = false
text_lt (Str.◌∷◌ c s) (Str.◌∷◌ d t) =
    let rest = text_lt s t in
    if ltb (code c) (code d) then true else if code c == code d then rest else false

text_lt_irrefl : (s : String) → text_lt s s ≡ false
text_lt_irrefl Str.[] = refl
text_lt_irrefl (Str.◌∷◌ c s) = ground (arith, text_lt_irrefl s)

text_lt_trans : (s t u : String) → text_lt s t ≡ true → text_lt t u ≡ true → text_lt s u ≡ true
text_lt_trans Str.[] Str.[] u h k = absurd (cc h)
text_lt_trans Str.[] (Str.◌∷◌ d t) Str.[] h k = absurd (cc k)
text_lt_trans Str.[] (Str.◌∷◌ d t) (Str.◌∷◌ e u) h k = refl
text_lt_trans (Str.◌∷◌ c s) Str.[] u h k = absurd (cc h)
text_lt_trans (Str.◌∷◌ c s) (Str.◌∷◌ d t) Str.[] h k = absurd (cc k)
text_lt_trans (Str.◌∷◌ c s) (Str.◌∷◌ d t) (Str.◌∷◌ e u) h k = ground (arith, text_lt_trans s t u)

cong2 : (c d : Char) (s t : String) → c ≡ d → s ≡ t → Str.◌∷◌ c s ≡ Str.◌∷◌ d t
cong2 c d s t h k = cc (h, k)

text_lt-total : (s t : String) → s ≢ t → text_lt t s ≡ false → text_lt s t ≡ true
text_lt-total Str.[] Str.[] h k = absurd (h refl)
text_lt-total Str.[] (Str.◌∷◌ d t) h k = refl
text_lt-total (Str.◌∷◌ c s) Str.[] h k = absurd (cc k)
text_lt-total (Str.◌∷◌ c s) (Str.◌∷◌ d t) h k = elim (Bool-cases (code c == code d)) [
  | inr e ↦ ground arith
  | inl e ↦
      let same = Char-path c d ((==_iff (code c) (code d)).0 e) in
      let tails : s ≢ t = λ rest. h (cong2 c d s t same rest) in
      ground (arith, text_lt-total s t tails)
]

pub text_lt-Collation : Collation text_lt
text_lt-Collation = record { irrefl = text_lt_irrefl; trans = text_lt_trans; total = text_lt-total }

-- A store of rotations, newest first, and a base class that knows one token and exchanges any token
-- for it.
abbrev pub Rotations : Type 0
Rotations = List (String × String)

abbrev pub rotations_get : Rotations → String → Option String
rotations_get [] key = none
rotations_get ((k, v) ∷ rest) key =
    let other = rotations_get rest key in if k == key then some v else other

abbrev pub rotations : KeyValue Rotations
rotations = record { get = rotations_get; put = λ s k v ttl. (k, v) ∷ s }

pub rotations-KeepsEntries : KeepsEntries rotations
rotations-KeepsEntries = record { get-put = λ s k v ttl. rw (==-refl k) refl }

abbrev pub new_refresh_token : RefreshToken
new_refresh_token = record { token = "new"; scopes = [] }

abbrev pub proxy : OidcProxy Rotations Unit
proxy = record {
  load_refresh_token = λ s client t. if t == "new" then some new_refresh_token else none;
  exchange_refresh_token =
      λ s client t scopes. (ok (record { access_token = "access"; refresh_token = some "new" }), s);
}

pub differ : (s t : String) → (s == t) ≡ false → s ≢ t
differ s t h same = false≢true (sym h ∙ (==_iff s t).1 same)

-- alice has opened a conversation.
abbrev pub meeting : Db
meeting = record agents_only {
  conversations =
      record {
        id = 100;
        type = "internal";
        state = ConversationState.active;
        created_by = 1;
        expires_at = 5000;
        owner_snapshot = none;
        created_at = 10;
      }
      ∷ [];
  participants =
      record {
        conversation_id = 100;
        agent_id = 1;
        role = ParticipantRole.owner;
        status = ParticipantStatus.active;
        invited_by = none;
        invited_at = 10;
        joined_at = some 10;
        last_read_seq = 0;
      }
      ∷ [];
}

abbrev pub meeting_world : World
meeting_world = record {
  session = record fresh_session { committed = meeting; working = meeting };
  log = [];
  monotonic = λ n. n;
  readings = 0;
}
