-- ===== src/Otp/Guesses.antt =====
-- How many wrong codes the row of a challenge counts.
use dayfi_backend.Base.{
  ℕ, ◌≤◌, ◌<◌, ◌≡◌, refl, arith, String, Bool, false, some, List, [], ◌∷◌, inl, inr, ◌⊎◌, All,
}
use dayfi_backend.Otp.{
  OtpPurpose, login, OtpChallenge, Store, is_for, is_live, retire, record_failed_attempt,
  consume_challenge, find_active_challenge, create_challenge, request_otp, verify_found, verify_otp,
  otp_max_attempts,
}
use dayfi_backend.Otp.Rows.{Numbered, find_active-id}
use dayfi_backend.Otp.History.{Event, challenges, history_keeps}
use dayfi_backend.Otp.Live.{
  OneLive, request-OneLive, verify-OneLive, request_otp-cases, verify_otp-cases,
}

-- At most the allowed number of wrong codes has been counted, and fewer as long as the challenge is live.
abbrev pub Bounded : OtpChallenge → Type 0
Bounded c =
    (c.max_attempts ≡ otp_max_attempts)
    × (c.attempts ≤ otp_max_attempts)
    × ((is_live c ≡ false) ⊎ (c.attempts < otp_max_attempts))

retire-Bounded :
    (phone : String) (purpose : OtpPurpose) (now : ℕ) (cs : Store)
    → All Bounded cs
    → All Bounded (retire phone purpose now cs)
unfolding retire
retire-Bounded phone purpose now [] h = tt
retire-Bounded phone purpose now (c ∷ cs) (b, bs) =
    (ground arith, retire-Bounded phone purpose now cs bs)

create-Bounded :
    (phone : String) (purpose : OtpPurpose) (now : ℕ) (cs : Store)
    → All Bounded cs
    → All Bounded (create_challenge phone purpose now cs)
unfolding create_challenge
create-Bounded phone purpose now cs h =
    ((refl, omega arith, inr (omega arith)), retire-Bounded phone purpose now cs h)

consume-Bounded :
    (id now : ℕ) (cs : Store) → All Bounded cs → All Bounded (consume_challenge id now cs).1
unfolding consume_challenge
consume-Bounded id now [] h = tt
consume-Bounded id now (c ∷ cs) (b, bs) = ground (arith, consume-Bounded id now cs bs)

-- Counting a wrong code against the live challenge that was found keeps the bound.
record-Bounded :
    (phone : String) (purpose : OtpPurpose) (now : ℕ) (cs : Store) (c : OtpChallenge)
    → Numbered cs
    → find_active_challenge phone purpose now cs ≡ some c
    → All Bounded cs
    → All Bounded (record_failed_attempt c.id now cs).1
unfolding record_failed_attempt find_active_challenge is_for
record-Bounded phone purpose now [] c n h b = tt
record-Bounded phone purpose now (d ∷ cs) c (n, ns) h (b, bs) =
    ground
      (arith, record-Bounded phone purpose now cs c ns, find_active-id phone purpose now cs c ns)

abbrev Kept : Store → Type 0
Kept cs = OneLive cs × All Bounded cs

request-Kept :
    (phone : String) (now : ℕ) (sent : Bool) (cs : Store)
    → Kept cs
    → Kept (request_otp phone now sent cs).1
request-Kept phone now sent cs (one, h) = (
  request-OneLive phone now sent cs one,
  elim (request_otp-cases phone now sent cs) [
    | inr (r, refused, same) ↦ rw same h
    | inl (fine, same) ↦ rw same (create-Bounded phone login now cs h)
  ],
)

found-Bounded :
    (phone : String) (now : ℕ) (approved : Bool) (c : OtpChallenge) (cs : Store)
    → Numbered cs
    → find_active_challenge phone login now cs ≡ some c
    → All Bounded cs
    → All Bounded (verify_found now approved c cs).1
unfolding verify_found
found-Bounded phone now approved c cs n found h =
    ground (arith, record-Bounded phone login now cs c n found h, consume-Bounded c.id now cs h)

verify-Kept :
    (phone : String) (now : ℕ) (code : List ℕ) (approved : Bool) (cs : Store)
    → Kept cs
    → Kept (verify_otp phone now code approved cs).1
verify-Kept phone now code approved cs (one, h) = (
  verify-OneLive phone now code approved cs one,
  elim (verify_otp-cases phone now code approved cs) [
    | inl same ↦ rw same h
    | inr (c, good, found, same) ↦ rw same (found-Bounded phone now approved c cs one.0 found h)
  ],
)

-- After any history of calls, one after the other, each row has counted at most five wrong codes, and
-- one that has counted five is no longer usable.
pub challenges-Bounded : (es : List Event) → All Bounded (challenges es)
challenges-Bounded es =
    (history_keeps Kept ((tt, λ p q. omega arith), tt) request-Kept verify-Kept es).1
