-- ===== src/Automation/Signatures.antt =====
-- automation/hook.go: which signatures are accepted.
use spec_powers.Prelude.{
  ℕ, ◌/◌, ◌%◌, ◌<◌, ◌≡◌, refl, sym, ap, ◌∙◌, true, false, some, List, [], ◌∷◌, ◌++◌, All, ◌==◌,
  arith, Bool-cases, Option-cases, inl, inr, ◌↔◌,
}
use spec_powers.Automation.Hook.{
  prefix, hex_matches, given_matches, hex_digit, hex_value, encode, decode, after_prefix,
  same_bytes, verify_signature, sign,
}

abbrev pub IsByte : ℕ → Type 0
IsByte b = b < 256

value-digit : (n : ℕ) → n < 16 → hex_value (hex_digit n) ≡ some n
value-digit n h = ground arith

decode-encode : (bytes : List ℕ) → All IsByte bytes → decode (encode bytes) ≡ some bytes
unfolding decode encode
decode-encode [] h = refl
decode-encode (b ∷ bytes) (h, hs) =
    rw
      (
        value-digit (b / 16) (omega arith),
        value-digit (b % 16) (omega arith),
        decode-encode bytes hs,
      )
      (ap (λ x. some (x ∷ bytes)) (omega arith))

after_prefix-append : (p text : List ℕ) → after_prefix p (p ++ text) ≡ some text
unfolding after_prefix
after_prefix-append [] text = refl
after_prefix-append (c ∷ p) text = ground (arith, after_prefix-append p text)

append-after_prefix : (p sig text : List ℕ) → after_prefix p sig ≡ some text → sig ≡ p ++ text
unfolding after_prefix
append-after_prefix [] sig text h = ground arith
append-after_prefix (c ∷ p) [] text h = absurd (ground arith)
append-after_prefix (c ∷ p) (d ∷ sig) text h = elim (Bool-cases (c == d)) [
  | inr e ↦ absurd (ground arith)
  | inl e ↦ ground (arith, append-after_prefix p sig text)
]

same_bytes-eq : (xs ys : List ℕ) → same_bytes xs ys ≡ true → xs ≡ ys
unfolding same_bytes
same_bytes-eq [] [] h = refl
same_bytes-eq [] (y ∷ ys) h = absurd (ground arith)
same_bytes-eq (x ∷ xs) [] h = absurd (ground arith)
same_bytes-eq (x ∷ xs) (y ∷ ys) h = ground (arith, same_bytes-eq xs ys)

same_bytes_refl : (xs : List ℕ) → same_bytes xs xs ≡ true
unfolding same_bytes
same_bytes_refl [] = refl
same_bytes_refl (x ∷ xs) = ground (arith, same_bytes_refl xs)

module _ (hmac : List ℕ → List ℕ → List ℕ) (secret body : List ℕ) where
  right_hex :
      (hex : List ℕ)
      → decode hex ≡ some (hmac secret body)
      → verify_signature hmac secret body (prefix ++ hex) ≡ true
  unfolding verify_signature
  right_hex hex e =
      ap (hex_matches hmac secret body) (after_prefix-append prefix hex)
      ∙ ap (given_matches hmac secret body) e
      ∙ same_bytes_refl (hmac secret body)

  pub accepted_hex :
      (sig : List ℕ)
      → verify_signature hmac secret body sig ≡ true
      → (hex : List ℕ) × (sig ≡ prefix ++ hex) × (decode hex ≡ some (hmac secret body))
  unfolding verify_signature
  accepted_hex sig h = elim (Option-cases (after_prefix prefix sig)) [
    | inl e ↦
        (let bad : false ≡ true = sym (ap (hex_matches hmac secret body) e) ∙ h in
          absurd (ground arith))
    | inr (hex, e) ↦
        let h1 : given_matches hmac secret body (decode hex) ≡ true =
          sym (ap (hex_matches hmac secret body) e) ∙ h in
        elim (Option-cases (decode hex)) [
          | inl f ↦
              (let bad : false ≡ true = sym (ap (given_matches hmac secret body) f) ∙ h1 in
                absurd (ground arith))
          | inr (given, f) ↦
              let same : same_bytes (hmac secret body) given ≡ true =
                sym (ap (given_matches hmac secret body) f) ∙ h1 in
              (
                hex,
                append-after_prefix prefix sig hex e,
                f ∙ ap some (sym (same_bytes-eq (hmac secret body) given same)),
              )
        ]
  ]

  -- An event is accepted exactly if its signature is the prefix and a hexadecimal text, in letters of
  -- either case, of the HMAC of the body under the webhook's secret; what `sign` makes is accepted.
  -- The HMAC is a list of bytes.
  pub verify_signature-sign :
      (sig : List ℕ)
      → All IsByte (hmac secret body)
      → ((verify_signature hmac secret body sig ≡ true)
          ↔ ((hex : List ℕ) × (sig ≡ prefix ++ hex) × (decode hex ≡ some (hmac secret body))))
        × (verify_signature hmac secret body (sign hmac secret body) ≡ true)
  unfolding sign
  verify_signature-sign sig bytes = (
    (accepted_hex sig, λ (hex, at, e). ap (verify_signature hmac secret body) at ∙ right_hex hex e),
    right_hex (encode (hmac secret body)) (decode-encode (hmac secret body) bytes),
  )
