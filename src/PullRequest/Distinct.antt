-- ===== src/PullRequest/Distinct.antt =====
-- pr/keyparse.go: no key is listed twice.
use spec_powers.Prelude.{ℕ, ◌≡◌, refl, false, List, [], ◌∷◌, any, All, arith, Bool-cases, inl, inr}
use spec_powers.PullRequest.Keys.{
  Key, key_text, same_text, distinct_keys, find_all, issue_key, verb_then_key, close_verbs,
  extract_issue_keys, parse_close_intents,
}

abbrev pub Distinct : List (List ℕ) → Type 0
Distinct [] = Unit
Distinct (k ∷ keys) = (any (same_text k) keys ≡ false) × Distinct keys

same_text_comm : (xs ys : List ℕ) → same_text xs ys ≡ same_text ys xs
same_text_comm [] [] = refl
same_text_comm [] (y ∷ ys) = refl
same_text_comm (x ∷ xs) [] = refl
same_text_comm (x ∷ xs) (y ∷ ys) = ground (arith, same_text_comm xs ys)

apart :
    (k : List ℕ) (seen keys : List (List ℕ))
    → All (λ x. any (same_text x) (k ∷ seen) ≡ false) keys
    → (any (same_text k) keys ≡ false) × All (λ x. any (same_text x) seen ≡ false) keys
apart k seen [] hs = (refl, tt)
apart k seen (x ∷ keys) (h, hs) =
    let (one, others) = apart k seen keys hs in
    (ground (arith, h, one, same_text_comm x k), (ground (arith, h), others))

distinct_keys-Distinct :
    (seen : List (List ℕ)) (keys : List Key)
    → All (λ x. any (same_text x) seen ≡ false) (distinct_keys seen keys)
      × Distinct (distinct_keys seen keys)
unfolding distinct_keys
distinct_keys-Distinct seen [] = (tt, tt)
distinct_keys-Distinct seen (k ∷ keys) = elim (Bool-cases (any (same_text (key_text k)) seen)) [
  | inl e ↦ rw e (distinct_keys-Distinct seen keys)
  | inr e ↦
      let (fresh, rest) = distinct_keys-Distinct (key_text k ∷ seen) keys in
      let (one, others) = apart (key_text k) seen (distinct_keys (key_text k ∷ seen) keys) fresh in
      rw e ((e, others), (one, rest))
]

-- ExtractIssueKeys and ParseCloseIntents list no key twice.
pub extract_issue_keys-Distinct :
    (text : List ℕ) → Distinct (extract_issue_keys text) × Distinct (parse_close_intents text)
unfolding extract_issue_keys parse_close_intents
extract_issue_keys-Distinct text =
    let (_, keys) = distinct_keys-Distinct [] (find_all issue_key 0 false text) in
    let (_, intents) =
      distinct_keys-Distinct [] (find_all (verb_then_key close_verbs) 0 false text) in
    (keys, intents)
