-- ===== src/Common/Chars.antt =====
-- Python's searches in a text: `in`, `split`, and tests of every character.
use Prim.Native.Nat.{ℕ}
use Prim.Native.Char.{code}
use Prim.Native.String.{String}
use Prim.Native.String as Str
use mathlib.Core.Bool.{Bool, true, false, ◌&&◌, ◌||◌}
use mathlib.Core.Option.{Option, none, some}
use rh_reclaw.Common.Tests.{leb, nat_eq, ◌==◌, if◌then◌else◌}

-- `s.startswith(t)`
abbrev pub starts_with : String → String → Bool
starts_with Str.[] s = true
starts_with (Str.◌∷◌ c t) Str.[] = false
starts_with (Str.◌∷◌ c t) (Str.◌∷◌ d s) = code c == code d && starts_with t s

-- `t in s`
unfoldable pub occurs_in : String → String → Bool
occurs_in t Str.[] = starts_with t ""
occurs_in t (Str.◌∷◌ c s) = starts_with t (Str.◌∷◌ c s) || occurs_in t s

-- Every character passes the test.
unfoldable pub all_chars : (ℕ → Bool) → String → Bool
all_chars p Str.[] = true
all_chars p (Str.◌∷◌ c s) = p (code c) && all_chars p s

-- `s.split(c)[0]`: what comes before the first `c`.
unfoldable pub before : ℕ → String → String
before n Str.[] = ""
before n (Str.◌∷◌ c s) = let rest = before n s in if code c == n then "" else Str.◌∷◌ c rest

-- `[A-Za-z0-9]`
abbrev pub is_alphanumeric : ℕ → Bool
is_alphanumeric n = (leb 65 n && leb n 90) || (leb 97 n && leb n 122) || (leb 48 n && leb n 57)

-- `s.rsplit(c, 1)`: what comes before and after the last `c`, if there is one.
unfoldable pub rsplit : ℕ → String → Option (String × String)
rsplit n Str.[] = none
rsplit n (Str.◌∷◌ c s) = elim (rsplit n s) [
  | some (a, b) ↦ some (Str.◌∷◌ c a, b)
  | none ↦ if code c == n then some ("", s) else none
]

-- What comes after the first `c`, if there is one.
unfoldable pub after : ℕ → String → Option String
after n Str.[] = none
after n (Str.◌∷◌ c s) = let rest = after n s in if code c == n then some s else rest
