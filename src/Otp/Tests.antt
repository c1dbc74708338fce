-- ===== src/Otp/Tests.antt =====
-- Runs of otpChallengeStore.ts and phoneAuthService.ts, and the theorems at those inputs.
use dayfi_backend.Base.{ℕ, ◌≤◌, ◌*◌, ◌≡◌, refl, String, true, false, List, [], ◌∷◌, arith}
use dayfi_backend.Otp.{
  Store, OtpChallenge, login, second, otp_max_sends_per_window, fresh_challenge, consumed, ok,
  otp_invalid, otp_rate_limited, otp_attempts_exceeded, request_otp, verify_found, verify_otp,
  check_send_allowance, last_send, recent_sends, create_challenge, retire, find_active_challenge,
  record_failed_attempt, consume_challenge, is_for,
}
use dayfi_backend.Otp.History.{Event, request, verify, after, challenges}
use dayfi_backend.Otp.Live.{OneLive, challenges-OneLive, verify_single_use, request-verify}
use dayfi_backend.Otp.Window.{sent_within, sends_within, sends_capped}
use dayfi_backend.Otp.Tries.{tries, tries_capped}

abbrev phone : String
phone = "+2348012345678"

-- The characters of the code 1234.
abbrev code : List ℕ
code = 49 ∷ 50 ∷ 51 ∷ 52 ∷ []

-- A code is sent, checked wrongly once, and sent again after a minute.
abbrev calls : List Event
calls =
    request phone (61 * second) true ∷ verify phone second code false ∷ request phone 0 true ∷ []

-- The live code after these calls.
abbrev current : OtpChallenge
current = fresh_challenge phone login (61 * second) 1

-- Opens all that a run computes with.
opened : ℕ
unfolding challenges after request_otp verify_otp check_send_allowance last_send recent_sends
    create_challenge retire find_active_challenge record_failed_attempt consume_challenge is_for
    verify_found
opened = 0

sent_twice :
    challenges calls
    ≡ current
      ∷ record (consumed (61 * second) (fresh_challenge phone login 0 0)) { attempts = 1 }
      ∷ []
unfolding opened
sent_twice = refl

too_early : (request_otp phone (62 * second) true (challenges calls)).0 ≡ otp_rate_limited 59
unfolding opened
too_early = refl

-- The same number in its fifth wrong guess.
abbrev five_wrong : List Event
five_wrong =
    let wrong = verify phone second code false in
    wrong ∷ wrong ∷ wrong ∷ wrong ∷ request phone 0 true ∷ []

fifth_guess : (verify_otp phone second code false (challenges five_wrong)).0 ≡ otp_attempts_exceeded
unfolding opened
fifth_guess = refl

-- The challenges after the right code.
abbrev signed_in : Store
signed_in = (verify_otp phone (62 * second) code true (challenges calls)).1

verify_single_use_example :
    verify_otp phone (63 * second) code true signed_in ≡ (otp_invalid, signed_in)
unfolding opened
verify_single_use_example =
    verify_single_use calls phone (62 * second) code true signed_in refl (63 * second) code true

request-verify_example :
    (verify_otp phone (661 * second) code true (request_otp phone (62 * second) true []).1).0 ≡ ok
unfolding opened
request-verify_example =
    request-verify phone (62 * second) true [] (request_otp phone (62 * second) true []).1
      (661 * second) code refl (omega arith) refl

challenges-OneLive_example : OneLive (challenges calls)
challenges-OneLive_example = challenges-OneLive calls

sends_capped_example :
    sends_within phone (61 * second) (challenges calls) ≤ otp_max_sends_per_window
sends_capped_example = sends_capped calls phone (61 * second)

tries_capped_example : tries phone (61 * second) five_wrong ≤ 15
tries_capped_example = tries_capped five_wrong phone (61 * second)

four_tries : tries phone (61 * second) five_wrong ≡ 4
unfolding opened tries sent_within
four_tries = refl
