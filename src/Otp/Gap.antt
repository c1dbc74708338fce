-- ===== src/Otp/Gap.antt =====
-- How far apart the codes are that are sent to a number.
use dayfi_backend.Base.{
  ℕ, ◌+◌, ◌≡◌, refl, arith, String, Bool, true, false, ◌&&◌, List, [], ◌∷◌, leb, if◌then◌else◌, inl,
  inr, Bool-cases, Option-cases, length,
}
use dayfi_backend.Otp.{
  OtpPurpose, login, OtpChallenge, Store, is_for, retire, allowed, check_send_allowance,
  record_failed_attempt, consume_challenge, last_send, too_soon, create_challenge, fresh_challenge,
  request_otp, verify_found, verify_otp, otp_min_resend_interval,
}
use dayfi_backend.Otp.Rows.{is_for_eq}
use dayfi_backend.Otp.History.{Event, challenges, history_keeps}
use dayfi_backend.Otp.Live.{request_otp-cases, verify_otp-cases}

-- Whether all codes of the number were sent at least the minimum gap before `t`.
unfoldable pub sent_before : String → ℕ → Store → Bool
sent_before phone t [] = true
sent_before phone t (c ∷ cs) =
    (if is_for phone login c then leb (c.created_at + otp_min_resend_interval) t else true)
    && sent_before phone t cs

-- Whether each code of the number was sent at least the minimum gap after all codes before it.
unfoldable pub spaced : String → Store → Bool
spaced phone [] = true
spaced phone (c ∷ cs) =
    (if is_for phone login c then sent_before phone c.created_at cs else true) && spaced phone cs

last_send-sent_before :
    (phone : String) (now : ℕ) (cs : Store)
    → too_soon now (last_send phone login cs) ≡ false
    → sent_before phone now cs ≡ true
unfolding last_send sent_before
last_send-sent_before phone now [] h = refl
last_send-sent_before phone now (c ∷ cs) h = elim (Option-cases (last_send phone login cs)) [
  | inl first ↦ ground (arith, last_send-sent_before phone now cs)
  | inr (t, last) ↦ ground (arith, last_send-sent_before phone now cs)
]

allowed_gap :
    (phone : String) (now : ℕ) (cs : Store)
    → check_send_allowance phone login now cs ≡ allowed
    → too_soon now (last_send phone login cs) ≡ false
unfolding check_send_allowance
allowed_gap phone now cs h = ground arith

retire-spaced :
    (phone p : String) (purpose : OtpPurpose) (t now : ℕ) (cs : Store)
    → (sent_before phone t (retire p purpose now cs) ≡ sent_before phone t cs)
      × (spaced phone (retire p purpose now cs) ≡ spaced phone cs)
unfolding retire sent_before spaced is_for
retire-spaced phone p purpose t now [] = (refl, refl)
retire-spaced phone p purpose t now (c ∷ cs) = (
  ground (arith, retire-spaced phone p purpose t now cs),
  ground (arith, retire-spaced phone p purpose c.created_at now cs),
)

record-spaced :
    (phone : String) (t id now : ℕ) (cs : Store)
    → (sent_before phone t (record_failed_attempt id now cs).1 ≡ sent_before phone t cs)
      × (spaced phone (record_failed_attempt id now cs).1 ≡ spaced phone cs)
unfolding record_failed_attempt sent_before spaced is_for
record-spaced phone t id now [] = (refl, refl)
record-spaced phone t id now (c ∷ cs) = (
  ground (arith, record-spaced phone t id now cs),
  ground (arith, record-spaced phone c.created_at id now cs),
)

consume-spaced :
    (phone : String) (t id now : ℕ) (cs : Store)
    → (sent_before phone t (consume_challenge id now cs).1 ≡ sent_before phone t cs)
      × (spaced phone (consume_challenge id now cs).1 ≡ spaced phone cs)
unfolding consume_challenge sent_before spaced is_for
consume-spaced phone t id now [] = (refl, refl)
consume-spaced phone t id now (c ∷ cs) = (
  ground (arith, consume-spaced phone t id now cs),
  ground (arith, consume-spaced phone c.created_at id now cs),
)

abbrev Spaced : Store → Type 0
Spaced cs = (phone : String) → spaced phone cs ≡ true

create-Spaced :
    (phone : String) (now : ℕ) (cs : Store)
    → check_send_allowance phone login now cs ≡ allowed
    → Spaced cs
    → Spaced (create_challenge phone login now cs)
unfolding create_challenge spaced
create-Spaced phone now cs fine h p =
    elim (Bool-cases (is_for p login (fresh_challenge phone login now (length cs)))) [
      | inr other ↦ ground (arith, h p, retire-spaced p phone login now now cs)
      | inl same ↦ ground (
        arith,
        h p,
        is_for_eq p login (fresh_challenge phone login now (length cs)) same,
        retire-spaced p phone login now now cs,
        last_send-sent_before phone now cs (allowed_gap phone now cs fine),
      )
    ]

request-Spaced :
    (phone : String) (now : ℕ) (sent : Bool) (cs : Store)
    → Spaced cs
    → Spaced (request_otp phone now sent cs).1
request-Spaced phone now sent cs h = elim (request_otp-cases phone now sent cs) [
  | inr (r, refused, same) ↦ rw same h
  | inl (fine, same) ↦ rw same (create-Spaced phone now cs fine h)
]

found-Spaced :
    (now : ℕ) (approved : Bool) (c : OtpChallenge) (cs : Store)
    → Spaced cs
    → Spaced (verify_found now approved c cs).1
unfolding verify_found
found-Spaced now approved c cs h p =
    ground (arith, h p, record-spaced p now c.id now cs, consume-spaced p now c.id now cs)

verify-Spaced :
    (phone : String) (now : ℕ) (code : List ℕ) (approved : Bool) (cs : Store)
    → Spaced cs
    → Spaced (verify_otp phone now code approved cs).1
verify-Spaced phone now code approved cs h = elim (verify_otp-cases phone now code approved cs) [
  | inl same ↦ rw same h
  | inr (c, good, found, same) ↦ rw same (found-Spaced now approved c cs h)
]

-- After any history of calls, one after the other, each code of a number was sent at least a minute
-- after every code that was sent to the number before it.
sends_spaced : (es : List Event) (phone : String) → spaced phone (challenges es) ≡ true
unfolding spaced
sends_spaced es = history_keeps Spaced (λ p. refl) request-Spaced verify-Spaced es
