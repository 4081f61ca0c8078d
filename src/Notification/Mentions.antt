-- ===== src/Notification/Mentions.antt =====
-- notification/mentions.go, over the code points of ASCII text, where bytes, characters and the
-- folding of case are those of Go. A name has no more than that either.
use spec_powers.Prelude.{
  ℕ, ◌+◌, Bool, true, false, not, ◌&&◌, ◌||◌, List, [], ◌∷◌, Option, none, some, leb, ◌==◌,
  all_space, if◌then◌else◌,
}

abbrev pub is_upper : ℕ → Bool
is_upper c = leb 65 c && leb c 90

-- The lower-case letter of a letter.
abbrev pub fold : ℕ → ℕ
fold c = if is_upper c then c + 32 else c

-- `isNameByte`.
unfoldable pub is_name_byte : ℕ → Bool
is_name_byte b =
    b == 95
    || b == 45
    || (leb 48 b && leb b 57)
    || (leb 97 b && leb b 122)
    || (leb 65 b && leb b 90)
    || leb 128 b

-- `len(rest) >= len(name) && EqualFold(rest[:len(name)], name)`, with what comes after the name.
unfoldable pub after_name : List ℕ → List ℕ → Option (List ℕ)
after_name [] rest = some rest
after_name (c ∷ name) [] = none
after_name (c ∷ name) (d ∷ rest) = elim (fold c == fold d) [
  | true ↦ after_name name rest
  | false ↦ none
]

-- `after == "" || !isNameByte(after[0])`.
abbrev pub ends_word : Option (List ℕ) → Bool
ends_word none = false
ends_word (some []) = true
ends_word (some (b ∷ after)) = not (is_name_byte b)

-- The loop: each `@` in turn.
unfoldable pub mentioned : List ℕ → List ℕ → Bool
unfolding after_name is_name_byte
mentioned name [] = false
mentioned name (c ∷ content) =
    let later = mentioned name content in
    if c == b'@' && ends_word (after_name name content) then true else later

unfoldable pub mentions_name : List ℕ → List ℕ → Bool
unfolding mentioned
mentions_name content name = if all_space name then false else mentioned name content
