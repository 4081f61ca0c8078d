-- ===== src/Notification/Syntax.antt =====
-- notification/mentions.go: what the search for `@` finds.
use spec_powers.Prelude.{
  ℕ, ◌≡◌, refl, ap, true, false, ◌&&◌, some, List, [], ◌∷◌, ◌++◌, map, ◌==◌, all_space, arith,
  Bool-cases, Option-cases, inl, inr, ◌↔◌,
}
use spec_powers.Notification.Mentions.{fold, after_name, ends_word, mentioned, mentions_name}

-- The name stands after an `@`, in any case, and no letter of a longer word follows.
abbrev pub Mention : List ℕ → List ℕ → Type 0
Mention content name =
    (before written after : List ℕ) × (content ≡ before ++ b'@' ∷ (written ++ after))
    × (map fold written ≡ map fold name)
    × (ends_word (some after) ≡ true)

-- The text that a name starts, up to case.
abbrev Starts : List ℕ → List ℕ → List ℕ → Type 0
Starts name rest after =
    (written : List ℕ) × (rest ≡ written ++ after) × (map fold written ≡ map fold name)

after_name-Starts :
    (name rest after : List ℕ) → after_name name rest ≡ some after → Starts name rest after
unfolding after_name
after_name-Starts [] rest after h = ([], ground arith, refl)
after_name-Starts (c ∷ name) [] after h = absurd (ground arith)
after_name-Starts (c ∷ name) (d ∷ rest) after h = elim (Bool-cases (fold c == fold d)) [
  | inl e ↦
      let (w, at, same) = after_name-Starts name rest after (ground arith) in
      (d ∷ w, ap (λ x. d ∷ x) at, ground (arith, same))
  | inr e ↦ absurd (ground arith)
]

Starts-after_name :
    (name written after : List ℕ)
    → map fold written ≡ map fold name
    → after_name name (written ++ after) ≡ some after
unfolding after_name
Starts-after_name [] [] after h = refl
Starts-after_name [] (d ∷ w) after h = absurd (ground arith)
Starts-after_name (c ∷ name) [] after h = absurd (ground arith)
Starts-after_name (c ∷ name) (d ∷ w) after h =
    let tails : map fold w ≡ map fold name = ground arith in
    let heads : fold c == fold d ≡ true = ground arith in
    rw (heads, after_name) (Starts-after_name name w after tails)

mentioned-Mention : (content name : List ℕ) → mentioned name content ≡ true → Mention content name
unfolding mentioned
mentioned-Mention [] name h = absurd (ground arith)
mentioned-Mention (c ∷ content) name h =
    elim (Bool-cases (c == b'@' && ends_word (after_name name content))) [
      | inl e ↦ elim (Option-cases (after_name name content)) [
        | inl nothing ↦ absurd (ground arith)
        | inr (after, some_after) ↦
            let (w, at, same) = after_name-Starts name content after some_after in
            let here : c ≡ b'@' = ground arith in
            ([], w, after, rw here (ap (λ x. b'@' ∷ x) at), same, ground arith)
      ]
      | inr e ↦
          let (before, w, after, at, same, ends) = mentioned-Mention content name (ground arith) in
          (c ∷ before, w, after, ap (λ x. c ∷ x) at, same, ends)
    ]

Mention-mentioned :
    (name before written after : List ℕ)
    → map fold written ≡ map fold name
    → ends_word (some after) ≡ true
    → mentioned name (before ++ b'@' ∷ (written ++ after)) ≡ true
unfolding mentioned
Mention-mentioned name [] w after same ends = rw (Starts-after_name name w after same, ends) refl
Mention-mentioned name (c ∷ before) w after same ends =
    ground (arith, Mention-mentioned name before w after same ends)

-- MentionsName is true exactly if the name is not blank and somewhere in the content there is an `@`,
-- then the name in any case, and then the end or a byte that no name has.
pub mentions_name-Mention :
    (content name : List ℕ)
    → (mentions_name content name ≡ true) ↔ ((all_space name ≡ false) × Mention content name)
unfolding mentions_name
mentions_name-Mention content name = elim (Bool-cases (all_space name)) [
  | inl blank ↦ (λ h. absurd (ground arith), λ h. absurd (ground arith))
  | inr named ↦ (
    λ h. (named, mentioned-Mention content name (ground arith)),
    λ (_, (before, w, after, at, same, ends)).
        rw (named, at) (Mention-mentioned name before w after same ends),
  )
]
