-- ===== src/Automation/Hook.antt =====
-- automation/hook.go: the signature of an event, and `receiveEvent`. HMAC-SHA256 is a parameter, from
-- a key and a body, as lists of bytes, to the bytes of the code; so is the JSON reader of the body.
use spec_powers.Prelude.{
  ℕ, ◌+◌, ◌-◌, ◌*◌, ◌/◌, ◌%◌, String, Bool, true, false, ◌&&◌, Option, none, some, List, [], ◌∷◌,
  ◌++◌, ◌==◌, leb, ltb, codes, length, if◌then◌else◌,
}
use spec_powers.Api.{
  err_invalid, err_forbidden, err_not_found, err_internal, Result, ok, err, checked, Action, lift,
  reads, guard, ◌>>=◌, ◌>>◌,
}
use spec_powers.Cron.Calendar.{Time}
use spec_powers.Automation.Stores.{Automation, EventPayload}
use spec_powers.Automation.Service.{fire_webhook}

abbrev pub max_event_body : ℕ
max_event_body = 1_048_576

-- The bytes of "sha256=".
abbrev pub prefix : List ℕ
prefix = codes "sha256="

-- A lower-case hexadecimal digit, and the value of one in either case.
abbrev pub hex_digit : ℕ → ℕ
hex_digit n = if ltb n 10 then 48 + n else 87 + n

abbrev pub hex_value : ℕ → Option ℕ
hex_value c =
    if leb 48 c && leb c 57
    then some (c - 48)
    else if leb 97 c && leb c 102
    then some (c - 87)
    else if leb 65 c && leb c 70
    then some (c - 55)
    else none

-- `hex.EncodeToString`, and `hex.DecodeString`, which wants pairs of digits.
unfoldable pub encode : List ℕ → List ℕ
encode [] = []
encode (b ∷ bytes) = hex_digit (b / 16) ∷ hex_digit (b % 16) ∷ encode bytes

abbrev pub paired : Option ℕ → Option ℕ → Option (List ℕ) → Option (List ℕ)
paired (some h) (some l) (some rest) = some ((h * 16 + l) ∷ rest)
paired _ _ _ = none

unfoldable pub decode : List ℕ → Option (List ℕ)
decode [] = some []
decode (h ∷ []) = none
decode (h ∷ l ∷ text) = paired (hex_value h) (hex_value l) (decode text)

-- `strings.HasPrefix` with `TrimPrefix`: the text after the prefix.
unfoldable pub after_prefix : List ℕ → List ℕ → Option (List ℕ)
after_prefix [] text = some text
after_prefix (c ∷ p) [] = none
after_prefix (c ∷ p) (d ∷ text) = elim (c == d) [ true ↦ after_prefix p text | false ↦ none ]

-- `hmac.Equal`.
unfoldable pub same_bytes : List ℕ → List ℕ → Bool
same_bytes [] [] = true
same_bytes [] (d ∷ ds) = false
same_bytes (c ∷ cs) [] = false
same_bytes (c ∷ cs) (d ∷ ds) = c == d && same_bytes cs ds

module _ (hmac : List ℕ → List ℕ → List ℕ) where
  abbrev pub given_matches : List ℕ → List ℕ → Option (List ℕ) → Bool
  given_matches secret body none = false
  given_matches secret body (some given) = same_bytes (hmac secret body) given

  abbrev pub hex_matches : List ℕ → List ℕ → Option (List ℕ) → Bool
  hex_matches secret body none = false
  hex_matches secret body (some hex) = given_matches secret body (decode hex)

  unfoldable pub verify_signature : List ℕ → List ℕ → List ℕ → Bool
  unfolding after_prefix decode same_bytes
  verify_signature secret body sig = hex_matches secret body (after_prefix prefix sig)

  unfoldable pub sign : List ℕ → List ℕ → List ℕ
  unfolding encode
  sign secret body = prefix ++ encode (hmac secret body)

  module _ (st : Automation) (unmarshal : List ℕ → Option EventPayload) where
    open st use {State, get_webhook}

    abbrev pub payload_of : List ℕ → Result EventPayload
    payload_of [] = ok (record { issue_id = ""; title = "" })
    payload_of (b ∷ body) = elim (unmarshal (b ∷ body)) [
      | none ↦ err (err_invalid "event body must be JSON")
      | some p ↦ ok p
    ]

    abbrev pub fired_count : Option ℕ → Result ℕ
    fired_count none = err (err_internal "fire autopilots failed")
    fired_count (some n) = ok n

    -- The number of autopilots that fired; `receiveEvent` answers with it. A body that cannot be read
    -- to its end is refused like one that is too long.
    unfoldable pub receive_event : Time → String → List ℕ → List ℕ → Action State ℕ
    unfolding verify_signature fire_webhook
    receive_event now id body sig = do
      hook ← reads (λ s.
          checked (get_webhook id s) (err_not_found "webhook not found")
            (err_internal "get webhook failed"))
      guard hook.enabled (err_forbidden "webhook is disabled")
      guard (leb (length body) max_event_body) (err_invalid "event body too large or unreadable")
      guard (verify_signature (codes hook.secret) body sig)
          (record { status = 401; code = "unauthorized"; message = "invalid signature" })
      payload ← lift (payload_of body)
      λ s. let (fired, s') = fire_webhook st now hook.id payload s in (fired_count fired, s')
