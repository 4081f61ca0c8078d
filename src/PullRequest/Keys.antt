-- ===== src/PullRequest/Keys.antt =====
-- pr/keyparse.go: the regular expressions as matchers over the code points of ASCII text. A matcher
-- gives what it captures and the number of characters of the match.
use spec_powers.Prelude.{
  ℕ, zero, suc, ◌+◌, ◌-◌, ◌*◌, Bool, true, false, not, ◌&&◌, ◌||◌, Option, none, some, List, [],
  ◌∷◌, ◌++◌, any, map, leb, ◌==◌, codes, length, if◌then◌else◌,
}

abbrev pub is_digit : ℕ → Bool
is_digit c = leb 48 c && leb c 57

abbrev pub is_upper : ℕ → Bool
is_upper c = leb 65 c && leb c 90

abbrev pub is_lower : ℕ → Bool
is_lower c = leb 97 c && leb c 122

-- `\w`, for the boundaries `\b`.
abbrev pub is_word : ℕ → Bool
is_word c = is_digit c || is_upper c || is_lower c || c == 95

abbrev pub to_upper : ℕ → ℕ
to_upper c = if is_lower c then c - 32 else c

-- `\s`.
abbrev pub is_blank_char : ℕ → Bool
is_blank_char c = (leb 9 c && leb c 10) || (leb 12 c && leb c 13) || c == 32

-- The longest run of characters of a class, and what follows it.
unfoldable pub run : (ℕ → Bool) → List ℕ → List ℕ × List ℕ
run p [] = ([], [])
run p (c ∷ text) =
    let (taken, rest) = run p text in if p c then (c ∷ taken, rest) else ([], c ∷ text)

abbrev pub ends_word : List ℕ → Bool
ends_word [] = true
ends_word (c ∷ rest) = not (is_word c)

abbrev pub has_length : ℕ → ℕ → List ℕ → Bool
has_length low high text = leb low (length text) && leb (length text) high

-- `-([0-9]{1,9})\b`, the number.
unfoldable pub dashed_number : List ℕ → Option (List ℕ)
unfolding run
dashed_number [] = none
dashed_number (c ∷ text) =
    let (digits, rest) = run is_digit text in
    if c == 45 && has_length 1 9 digits && ends_word rest then some digits else none

pub record Key : Type 0 where
  pub prefix : List ℕ
  pub number : List ℕ

abbrev pub starts_with : (ℕ → Bool) → List ℕ → Bool
starts_with p [] = false
starts_with p (c ∷ text) = p c

abbrev pub key_of : List ℕ → Option (List ℕ) → Option Key
key_of prefix none = none
key_of prefix (some digits) = some (record { prefix = prefix; number = digits })

-- A letter, 1 to 15 further characters, and the number; no shorter prefix has the dash behind it.
unfoldable pub key_at : (ℕ → Bool) → (ℕ → Bool) → List ℕ → Option Key
unfolding run dashed_number
key_at letter more text =
    let (prefix, rest) = run more text in
    if starts_with letter prefix && has_length 2 16 prefix
    then key_of prefix (dashed_number rest)
    else none

abbrev pub key_length : Key → ℕ
key_length k = suc (length k.prefix + length k.number)

-- `strings.ToUpper` of the key's text.
abbrev pub key_text : Key → List ℕ
key_text k = map to_upper (k.prefix ++ 45 ∷ k.number)

abbrev pub matched : Option Key → Option (Key × ℕ)
matched none = none
matched (some k) = some (k, key_length k)

-- `issueKeyRe` where the character before is no word character.
unfoldable pub issue_key : List ℕ → Option (Key × ℕ)
unfolding key_at
issue_key text = matched (key_at is_upper (λ c. is_upper c || is_digit c || c == 95) text)

-- A word in any case, and what follows it.
unfoldable pub after_word : List ℕ → List ℕ → Option (List ℕ)
after_word [] text = some text
after_word (w ∷ word) [] = none
after_word (w ∷ word) (c ∷ text) =
    let rest = after_word word text in if to_upper c == to_upper w then rest else none

abbrev pub close_verbs : List (List ℕ)
close_verbs =
    codes "closes"
    ∷ codes "closed"
    ∷ codes "close"
    ∷ codes "fixes"
    ∷ codes "fixed"
    ∷ codes "fix"
    ∷ codes "resolves"
    ∷ codes "resolved"
    ∷ codes "resolve"
    ∷ []

-- `\s+` and the key, with the length so far; blanks are no part of a key.
unfoldable pub blanks_then_key : ℕ → List ℕ × List ℕ → Option (Key × ℕ)
unfolding key_at
blanks_then_key n ([], rest) = none
blanks_then_key n (c ∷ blanks, rest) = elim (key_at (λ c. is_upper c || is_lower c) is_word rest) [
  | none ↦ none
  | some k ↦ some (k, n + length (c ∷ blanks) + key_length k)
]

-- `\s*:?\s+` and the key.
unfoldable pub gap_from : ℕ → List ℕ × List ℕ → Option (Key × ℕ)
unfolding run blanks_then_key
gap_from n (blanks, []) = none
gap_from n (blanks, c ∷ rest) =
    if c == 58
    then blanks_then_key (n + suc (length blanks)) (run is_blank_char rest)
    else blanks_then_key n (blanks, c ∷ rest)

unfoldable pub gap_then_key : ℕ → List ℕ → Option (Key × ℕ)
unfolding gap_from
gap_then_key n text = gap_from n (run is_blank_char text)

unfoldable pub verb_then_key : List (List ℕ) → List ℕ → Option (Key × ℕ)
unfolding after_word gap_then_key
verb_then_key [] text = none
verb_then_key (verb ∷ verbs) text =
    let later = verb_then_key verbs text in
    elim (after_word verb text) [
      | none ↦ later
      | some rest ↦ elim (gap_then_key (length verb) rest) [ none ↦ later | some m ↦ some m ]
    ]

-- `FindAllStringSubmatch`: `skip` characters belong to the last match, and `inside` says whether the
-- character before is a word character.
unfoldable pub find_all : (List ℕ → Option (Key × ℕ)) → ℕ → Bool → List ℕ → List Key
find_all match_at skip inside [] = []
find_all match_at (suc skip) inside (c ∷ text) = find_all match_at skip (is_word c) text
find_all match_at zero inside (c ∷ text) =
    if inside then find_all match_at zero (is_word c) text else elim (match_at (c ∷ text)) [
      | none ↦ find_all match_at zero (is_word c) text
      | some (k, n) ↦ k ∷ find_all match_at (n - 1) (is_word c) text
    ]

abbrev pub same_text : List ℕ → List ℕ → Bool
same_text [] [] = true
same_text [] (d ∷ ds) = false
same_text (c ∷ cs) [] = false
same_text (c ∷ cs) (d ∷ ds) = c == d && same_text cs ds

-- The loop over the matches, with the keys seen.
unfoldable pub distinct_keys : List (List ℕ) → List Key → List (List ℕ)
distinct_keys seen [] = []
distinct_keys seen (k ∷ keys) =
    if any (same_text (key_text k)) seen
    then distinct_keys seen keys
    else key_text k ∷ distinct_keys (key_text k ∷ seen) keys

unfoldable pub extract_issue_keys : List ℕ → List (List ℕ)
unfolding distinct_keys find_all issue_key
extract_issue_keys text = distinct_keys [] (find_all issue_key 0 false text)

unfoldable pub parse_close_intents : List ℕ → List (List ℕ)
unfolding distinct_keys find_all verb_then_key
parse_close_intents text = distinct_keys [] (find_all (verb_then_key close_verbs) 0 false text)

abbrev pub number_of : ℕ → List ℕ → ℕ
number_of n [] = n
number_of n (c ∷ digits) = number_of (n * 10 + (c - 48)) digits

abbrev pub first_split : List Key → List ℕ × ℕ
first_split [] = ([], 0)
first_split (k ∷ keys) = (map to_upper k.prefix, number_of 0 k.number)

-- At most nine digits: the sum does not overflow.
unfoldable pub split_issue_key : List ℕ → List ℕ × ℕ
unfolding find_all issue_key
split_issue_key key = first_split (find_all issue_key 0 false key)
