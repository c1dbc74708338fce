-- ===== src/Otp.antt =====
-- src/modules/four/auth/otpChallengeStore.ts and phoneAuthService.ts: one-time codes. Times are counts
-- of microseconds, and `now` is an argument. The provider that sends and checks codes is outside: its
-- answers are arguments.
pub mod Rows
pub mod History
pub mod Live
pub mod Window
pub mod Tries
pub mod Gap
pub mod Guesses
mod Tests
use dayfi_backend.Base.{
  ℕ, suc, ◌+◌, ◌-◌, ◌*◌, ◌/◌, String, Bool, true, false, ◌&&◌, Option, none, some, List, [], ◌∷◌,
  length, ltb, leb, ◌==◌, if◌then◌else◌, str_eq, is_null,
}
use Prim.Native.Nat.{max}
use dayfi_backend.Amount.{all_digits}

pub data OtpPurpose : Type 0 where
  login add_phone recover : OtpPurpose

abbrev pub same_purpose : OtpPurpose → OtpPurpose → Bool
same_purpose login login = true
same_purpose add_phone add_phone = true
same_purpose recover recover = true
same_purpose _ _ = false

abbrev pub second : ℕ
second = 1000000

abbrev pub otp_ttl : ℕ
otp_ttl = 600 * second

abbrev pub otp_max_attempts : ℕ
otp_max_attempts = 5

abbrev pub otp_send_window : ℕ
otp_send_window = 900 * second

abbrev pub otp_max_sends_per_window : ℕ
otp_max_sends_per_window = 3

abbrev pub otp_min_resend_interval : ℕ
otp_min_resend_interval = 60 * second

-- A row of `four_otp_challenges`; its number stands for its generated UUID.
pub record OtpChallenge : Type 0 where
  pub id : ℕ
  pub phone_e164 : String
  pub purpose : OtpPurpose
  pub attempts : ℕ
  pub max_attempts : ℕ
  pub expires_at : ℕ
  pub consumed_at : Option ℕ
  pub created_at : ℕ

pub data SendAllowance : Type 0 where
  allowed : SendAllowance
  retry_after : ℕ → SendAllowance

-- The rows, newest first.
abbrev pub Store : Type 0
Store = List OtpChallenge

-- `phone_e164 = $1 AND purpose = $2`
unfoldable pub is_for : String → OtpPurpose → OtpChallenge → Bool
is_for phone purpose c = str_eq phone c.phone_e164 && same_purpose purpose c.purpose

-- `consumed_at IS NULL`
abbrev pub is_live : OtpChallenge → Bool
is_live c = is_null c.consumed_at

-- How many codes have been sent to the number within the window that ends now.
unfoldable pub recent_sends : String → OtpPurpose → ℕ → Store → ℕ
recent_sends phone purpose now [] = 0
recent_sends phone purpose now (c ∷ cs) =
    if is_for phone purpose c && ltb now (c.created_at + otp_send_window)
    then suc (recent_sends phone purpose now cs)
    else recent_sends phone purpose now cs

-- `MAX(created_at)`
unfoldable pub last_send : String → OtpPurpose → Store → Option ℕ
last_send phone purpose [] = none
last_send phone purpose (c ∷ cs) =
    if is_for phone purpose c
    then elim (last_send phone purpose cs) [
      | none ↦ some c.created_at
      | some t ↦ some (max c.created_at t)
    ]
    else last_send phone purpose cs

-- Whether the last send is less than the minimum gap ago.
abbrev pub too_soon : ℕ → Option ℕ → Bool
too_soon now none = false
too_soon now (some last) = ltb now (last + otp_min_resend_interval)

-- The seconds until the gap is over, rounded up, and at least one.
abbrev pub gap_left : ℕ → Option ℕ → ℕ
gap_left now none = 1
gap_left now (some last) = max 1 ((last + otp_min_resend_interval - now + (second - 1)) / second)

unfoldable pub check_send_allowance : String → OtpPurpose → ℕ → Store → SendAllowance
check_send_allowance phone purpose now cs =
    let last = last_send phone purpose cs in
    if too_soon now last
    then retry_after (gap_left now last)
    else if leb otp_max_sends_per_window (recent_sends phone purpose now cs)
    then retry_after (otp_send_window / second)
    else allowed

abbrev pub consumed : ℕ → OtpChallenge → OtpChallenge
consumed now c = record c { consumed_at = some now }

-- The update that retires the live challenges of a number.
unfoldable pub retire : String → OtpPurpose → ℕ → Store → Store
retire phone purpose now [] = []
retire phone purpose now (c ∷ cs) =
    (if is_for phone purpose c && is_live c then consumed now c else c)
    ∷ retire phone purpose now cs

abbrev pub fresh_challenge : String → OtpPurpose → ℕ → ℕ → OtpChallenge
fresh_challenge phone purpose now id = record {
  id = id;
  phone_e164 = phone;
  purpose = purpose;
  attempts = 0;
  max_attempts = otp_max_attempts;
  expires_at = now + otp_ttl;
  consumed_at = none;
  created_at = now;
}

unfoldable pub create_challenge : String → OtpPurpose → ℕ → Store → Store
unfolding retire
create_challenge phone purpose now cs =
    fresh_challenge phone purpose now (length cs) ∷ retire phone purpose now cs

unfoldable pub find_active_challenge : String → OtpPurpose → ℕ → Store → Option OtpChallenge
find_active_challenge phone purpose now [] = none
find_active_challenge phone purpose now (c ∷ cs) =
    if is_for phone purpose c && (is_live c && ltb now c.expires_at)
    then some c
    else find_active_challenge phone purpose now cs

-- A row after one more wrong code, burnt if that was the last one allowed.
abbrev pub failed_once : ℕ → OtpChallenge → OtpChallenge
failed_once now c =
    let counted = record c { attempts = c.attempts + 1 } in
    if leb c.max_attempts (c.attempts + 1) && is_live c then consumed now counted else counted

-- `recordFailedAttempt`: the rows after it, and whether the attempts are used up.
unfoldable pub record_failed_attempt : ℕ → ℕ → Store → Bool × Store
record_failed_attempt id now [] = (false, [])
record_failed_attempt id now (c ∷ cs) =
    let (exhausted, rest) = record_failed_attempt id now cs in
    if id == c.id
    then (leb c.max_attempts (c.attempts + 1), failed_once now c ∷ cs)
    else (exhausted, c ∷ rest)

-- `consumeChallenge`: false if the row was consumed already.
unfoldable pub consume_challenge : ℕ → ℕ → Store → Bool × Store
consume_challenge id now [] = (false, [])
consume_challenge id now (c ∷ cs) =
    let (done, rest) = consume_challenge id now cs in
    if id == c.id && is_live c then (true, consumed now c ∷ cs) else (done, c ∷ rest)

-- The errors of `requestOtp` and `verifyOtp`.
pub data AuthResult : Type 0 where
  ok : AuthResult
  otp_rate_limited : ℕ → AuthResult
  otp_send_failed otp_invalid otp_attempts_exceeded : AuthResult

-- `requestOtp` for a valid number; `sent` is whether the provider could send the code.
unfoldable pub request_otp : String → ℕ → Bool → Store → AuthResult × Store
request_otp phone now sent cs = elim (check_send_allowance phone login now cs) [
  | retry_after seconds ↦ (otp_rate_limited seconds, cs)
  | allowed ↦ if sent then (ok, create_challenge phone login now cs) else (otp_send_failed, cs)
]

-- `/^\d{4,8}$/`, on the codes of the characters.
abbrev pub is_code : List ℕ → Bool
is_code s = all_digits s && (leb 4 (length s) && leb (length s) 8)

-- The rest of `verifyOtp`, on the challenge that was found.
unfoldable pub verify_found : ℕ → Bool → OtpChallenge → Store → AuthResult × Store
verify_found now approved c cs =
    if leb c.max_attempts c.attempts
    then (otp_attempts_exceeded, cs)
    else if approved
    then (let (done, cs') = consume_challenge c.id now cs in
        (if done then ok else otp_invalid, cs'))
    else (let (exhausted, cs') = record_failed_attempt c.id now cs in
        (if exhausted then otp_attempts_exceeded else otp_invalid, cs'))

-- `verifyOtp` for a valid number and a trimmed code, up to the user look-up that follows a success;
-- `approved` is the provider's answer.
unfoldable pub verify_otp : String → ℕ → List ℕ → Bool → Store → AuthResult × Store
unfolding verify_found
verify_otp phone now code approved cs =
    if is_code code
    then elim (find_active_challenge phone login now cs) [
      | none ↦ (otp_invalid, cs)
      | some c ↦ verify_found now approved c cs
    ]
    else (otp_invalid, cs)
