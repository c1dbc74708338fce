-- ===== src/Otp/Window.antt =====
-- How many codes are sent to a number in a time.
use dayfi_backend.Base.{
  ℕ, suc, ◌+◌, ◌≤◌, ◌<◌, ◌≡◌, refl, arith, String, Bool, true, ◌&&◌, List, [], ◌∷◌, length, leb,
  ltb, if◌then◌else◌, inl, inr, Bool-cases,
}
use dayfi_backend.Otp.{
  OtpPurpose, login, OtpChallenge, Store, is_for, retire, allowed, check_send_allowance,
  record_failed_attempt, consume_challenge, recent_sends, create_challenge, fresh_challenge,
  request_otp, verify_found, verify_otp, otp_send_window, otp_max_sends_per_window,
}
use dayfi_backend.Otp.Rows.{is_for_eq}
use dayfi_backend.Otp.History.{Event, challenges, history_keeps}
use dayfi_backend.Otp.Live.{request_otp-cases, verify_otp-cases}

-- Whether a code was sent to the number in the window that ends at `t`.
unfoldable pub sent_within : String → ℕ → OtpChallenge → Bool
sent_within phone t c =
    is_for phone login c && (leb c.created_at t && ltb t (c.created_at + otp_send_window))

-- How many were.
abbrev pub sends_within : String → ℕ → Store → ℕ
sends_within phone t [] = 0
sends_within phone t (c ∷ cs) =
    let rest = sends_within phone t cs in if sent_within phone t c then suc rest else rest

sends_within-recent :
    (phone : String) (t now : ℕ) (cs : Store)
    → now ≤ t
    → sends_within phone t cs ≤ recent_sends phone login now cs
unfolding recent_sends sent_within
sends_within-recent phone t now [] h = omega arith
sends_within-recent phone t now (c ∷ cs) h = ground (arith, sends_within-recent phone t now cs h)

sends_within-retire :
    (phone p : String) (purpose : OtpPurpose) (t now : ℕ) (cs : Store)
    → sends_within phone t (retire p purpose now cs) ≡ sends_within phone t cs
unfolding retire sent_within is_for
sends_within-retire phone p purpose t now [] = refl
sends_within-retire phone p purpose t now (c ∷ cs) =
    ground (arith, sends_within-retire phone p purpose t now cs)

sends_within-record :
    (phone : String) (t id now : ℕ) (cs : Store)
    → sends_within phone t (record_failed_attempt id now cs).1 ≡ sends_within phone t cs
unfolding record_failed_attempt sent_within is_for
sends_within-record phone t id now [] = refl
sends_within-record phone t id now (c ∷ cs) = ground (arith, sends_within-record phone t id now cs)

sends_within-consume :
    (phone : String) (t id now : ℕ) (cs : Store)
    → sends_within phone t (consume_challenge id now cs).1 ≡ sends_within phone t cs
unfolding consume_challenge sent_within is_for
sends_within-consume phone t id now [] = refl
sends_within-consume phone t id now (c ∷ cs) =
    ground (arith, sends_within-consume phone t id now cs)

allowed_recent :
    (phone : String) (now : ℕ) (cs : Store)
    → check_send_allowance phone login now cs ≡ allowed
    → recent_sends phone login now cs < otp_max_sends_per_window
unfolding check_send_allowance
allowed_recent phone now cs h = ground arith

sent_within_lem :
    (phone : String) (t : ℕ) (c : OtpChallenge)
    → sent_within phone t c ≡ true
    → (phone ≡ c.phone_e164) × (c.created_at ≤ t)
unfolding sent_within
sent_within_lem phone t c h = (ground (arith, is_for_eq phone login c), ground arith)

abbrev Capped : Store → Type 0
Capped cs = (phone : String) (t : ℕ) → sends_within phone t cs ≤ otp_max_sends_per_window

create-Capped :
    (phone : String) (now : ℕ) (cs : Store)
    → check_send_allowance phone login now cs ≡ allowed
    → Capped cs
    → Capped (create_challenge phone login now cs)
unfolding create_challenge sent_within
create-Capped phone now cs fine h p t =
    elim (Bool-cases (sent_within p t (fresh_challenge phone login now (length cs)))) [
      | inr outside ↦ ground (arith, h p t, sends_within-retire p phone login t now cs)
      | inl inside ↦
          let (number, time) =
            sent_within_lem p t (fresh_challenge phone login now (length cs)) inside in
          ground (
            arith,
            sends_within-retire p phone login t now cs,
            sends_within-recent p t now cs time,
            allowed_recent phone now cs fine,
          )
    ]

request-Capped :
    (phone : String) (now : ℕ) (sent : Bool) (cs : Store)
    → Capped cs
    → Capped (request_otp phone now sent cs).1
request-Capped phone now sent cs h = elim (request_otp-cases phone now sent cs) [
  | inr (r, refused, same) ↦ rw same h
  | inl (fine, same) ↦ rw same (create-Capped phone now cs fine h)
]

found-Capped :
    (now : ℕ) (approved : Bool) (c : OtpChallenge) (cs : Store)
    → Capped cs
    → Capped (verify_found now approved c cs).1
unfolding verify_found
found-Capped now approved c cs h p t =
    ground (arith, h p t, sends_within-record p t c.id now cs, sends_within-consume p t c.id now cs)

verify-Capped :
    (phone : String) (now : ℕ) (code : List ℕ) (approved : Bool) (cs : Store)
    → Capped cs
    → Capped (verify_otp phone now code approved cs).1
verify-Capped phone now code approved cs h = elim (verify_otp-cases phone now code approved cs) [
  | inl same ↦ rw same h
  | inr (c, good, found, same) ↦ rw same (found-Capped now approved c cs h)
]

-- After any history of calls, one after the other, at most three codes have been sent to a number in
-- any window of fifteen minutes, even if the clock was set back between the calls.
pub sends_capped :
    (es : List Event) (phone : String) (t : ℕ)
    → sends_within phone t (challenges es) ≤ otp_max_sends_per_window
sends_capped es = history_keeps Capped (λ p t. omega arith) request-Capped verify-Capped es
