-- ===== src/Automation/Events.antt =====
-- automation/hook.go: which events fire the autopilots of a webhook.
use spec_powers.Prelude.{
  ℕ, String, Option, leb, inl, inr, ◌⊎◌, ◌≤◌, ◌≡◌, refl, true, some, List, ◌++◌, codes, length,
  leb→le, arith,
}
use spec_powers.Cron.Calendar.{Time}
use spec_powers.Api.{AppError, Result, ok, err, Stored, found, missing, failed}
use spec_powers.Automation.Stores.{Automation, EventPayload, Webhook}
use spec_powers.Automation.Service.{fire_webhook}
use spec_powers.Automation.Hook.{
  max_event_body, prefix, decode, verify_signature, payload_of, receive_event,
}
use spec_powers.Automation.Signatures.{accepted_hex}

Stored-cases :
    {A : Type 0} (r : Stored A) → ((a : A) × (r ≡ found a)) ⊎ ((r ≡ missing) ⊎ (r ≡ failed))
Stored-cases (found a) = inl (a, refl)
Stored-cases missing = inr (inl refl)
Stored-cases failed = inr (inr refl)

Result-cases : {A : Type 0} (r : Result A) → ((a : A) × (r ≡ ok a)) ⊎ ((e : AppError) × (r ≡ err e))
Result-cases (ok a) = inl (a, refl)
Result-cases (err e) = inr (e, refl)

module _ (hmac : List ℕ → List ℕ → List ℕ) (st : Automation)
    (unmarshal : List ℕ → Option EventPayload) (now : Time) (id : String) (body sig : List ℕ)
    (s : st.State) where
  receive_event-gates :
      (n : ℕ)
      → (receive_event hmac st unmarshal now id body sig s).0 ≡ ok n
      → (hook : Webhook) × (payload : EventPayload) × (st.get_webhook id s ≡ found hook)
        × (hook.enabled ≡ true)
        × (leb (length body) max_event_body ≡ true)
        × (verify_signature hmac (codes hook.secret) body sig ≡ true)
        × (payload_of hmac st unmarshal body ≡ ok payload)
        × (fire_webhook st now hook.id payload s
            ≡ (some n, (receive_event hmac st unmarshal now id body sig s).1))
  unfolding receive_event
  receive_event-gates n e = elim (Stored-cases (st.get_webhook id s)) [
    | inr (inl g) ↦ absurd (ground arith)
    | inr (inr g) ↦ absurd (ground arith)
    | inl (hook, g) ↦ elim (Result-cases (payload_of hmac st unmarshal body)) [
      | inr (x, p) ↦ absurd (ground arith)
      | inl (payload, p) ↦
          (hook, payload, g, ground arith, ground arith, ground arith, p, ground arith)
    ]
  ]

  -- An event that is accepted is for a webhook that is stored and enabled, its body is at most one
  -- megabyte and is empty or JSON, and its signature is the prefix and a hexadecimal text of the HMAC
  -- of the body under the secret of the webhook; what it does is to fire the webhook's autopilots.
  pub receive_event-signed :
      (n : ℕ)
      → (receive_event hmac st unmarshal now id body sig s).0 ≡ ok n
      → (hook : Webhook) × (payload : EventPayload) × (hex : List ℕ) × (st.get_webhook id s
          ≡ found hook)
        × (hook.enabled ≡ true)
        × (length body ≤ 1_048_576)
        × (sig ≡ prefix ++ hex)
        × (decode hex ≡ some (hmac (codes hook.secret) body))
        × (payload_of hmac st unmarshal body ≡ ok payload)
        × (fire_webhook st now hook.id payload s
            ≡ (some n, (receive_event hmac st unmarshal now id body sig s).1))
  receive_event-signed n e =
      let (hook, payload, got, on, short, signed, read, fired) = receive_event-gates n e in
      let (hex, at, right) = accepted_hex hmac (codes hook.secret) body sig signed in
      (hook, payload, hex, got, on, leb→le _ _ short, at, right, read, fired)
