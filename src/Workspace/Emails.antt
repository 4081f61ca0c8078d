-- ===== src/Workspace/Emails.antt =====
-- workspace/service.go: the pattern of email addresses, and lower case, over ASCII text.
use Prim.Native.Char.{Char, code, nul}
use spec_powers.Prelude.{
  ℕ, zero, suc, ◌-◌, Bool, true, false, not, ◌&&◌, ◌||◌, String, List, [], ◌∷◌, ◌==◌, leb, codes,
  if◌then◌else◌,
}

-- The letter of a text at a position.
abbrev pub letter_at : String → ℕ → Char
letter_at String.[] i = nul
letter_at (String.◌∷◌ c s) zero = c
letter_at (String.◌∷◌ c s) (suc i) = letter_at s i

abbrev pub lower : Char → Char
lower c =
    if leb 65 (code c) && leb (code c) 90
    then letter_at "abcdefghijklmnopqrstuvwxyz" (code c - 65)
    else c

-- `strings.ToLower`; two texts are equal under `strings.EqualFold` if their lower cases are.
unfoldable pub to_lower : String → String
to_lower String.[] = String.[]
to_lower (String.◌∷◌ c s) = String.◌∷◌ (lower c) (to_lower s)

-- `[^@\s]`.
abbrev pub free : ℕ → Bool
free c = not (c == 64 || (leb 9 c && leb c 10) || (leb 12 c && leb c 13) || c == 32)

-- How far the pattern has matched: nothing, a name, the `@`, a host, a host with a dot, all of it.
pub data Matched : Type 0 where
  nothing : Matched
  name : Matched
  at_sign : Matched
  host : Matched
  dot : Matched
  whole : Matched

abbrev pub reads_on : Matched → ℕ → Matched
reads_on nothing c = name
reads_on name c = name
reads_on at_sign c = host
reads_on host c = if c == 46 then dot else host
reads_on dot c = whole
reads_on whole c = whole

abbrev pub is_name : Matched → Bool
is_name name = true
is_name _ = false

abbrev pub is_whole : Matched → Bool
is_whole whole = true
is_whole _ = false

unfoldable pub matches_from : Matched → List ℕ → Bool
matches_from m [] = is_whole m
matches_from m (c ∷ cs) =
    if free c
    then matches_from (reads_on m c) cs
    else c == 64 && is_name m && matches_from at_sign cs

-- `emailRe.MatchString`: `^[^@\s]+@[^@\s]+\.[^@\s]+$`.
unfoldable pub is_email : String → Bool
unfolding matches_from
is_email email = matches_from nothing (codes email)
