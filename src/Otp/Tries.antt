-- ===== src/Otp/Tries.antt =====
-- How many wrong codes can be tried against the codes that are sent to a number in a time.
use dayfi_backend.Base.{
  ℕ, suc, ◌+◌, ◌*◌, ◌≤◌, ◌<◌, ◌≡◌, refl, subst, ◌⊎◌, ◌==◌, arith, String, Bool, true, false, ◌&&◌,
  not, Option, none, some, List, [], ◌∷◌, if◌then◌else◌, inl, inr, Option-cases, ◌∙◌, sym, All,
}
use dayfi_backend.Otp.{
  OtpPurpose, login, OtpChallenge, Store, is_for, retire, failed_once, record_failed_attempt,
  consume_challenge, find_active_challenge, create_challenge, request_otp, verify_found, verify_otp,
  is_code, otp_max_attempts,
}
use dayfi_backend.Otp.Rows.{Numbered, find_active-id}
use dayfi_backend.Otp.History.{Event, request, verify, after, challenges}
use dayfi_backend.Otp.Live.{request_otp-cases, challenges-OneLive}
use dayfi_backend.Otp.Guesses.{Bounded, challenges-Bounded}
use dayfi_backend.Otp.Window.{sent_within, sends_within, sends_capped}

abbrev found_within : String → ℕ → Option OtpChallenge → Bool
found_within phone t none = false
found_within phone t (some c) = sent_within phone t c

-- Whether a call tries a wrong code against a code that was sent to the number in the window that ends
-- at `t`: the usable challenge was sent then, and the provider says that the code is wrong.
abbrev pub is_try : String → ℕ → Event → Store → Bool
is_try phone t (request p now sent) cs = false
is_try phone t (verify p now code approved) cs =
    not approved && (is_code code && found_within phone t (find_active_challenge p login now cs))

-- How many calls of a history do.
unfoldable pub tries : String → ℕ → List Event → ℕ
tries phone t [] = 0
tries phone t (e ∷ es) =
    let rest = tries phone t es in if is_try phone t e (challenges es) then suc rest else rest

-- What the rows of the codes that were sent then have counted.
abbrev counted : String → ℕ → Store → ℕ
counted phone t [] = 0
counted phone t (c ∷ cs) =
    let rest = counted phone t cs in if sent_within phone t c then c.attempts + rest else rest

counted-retire :
    (phone p : String) (purpose : OtpPurpose) (t now : ℕ) (cs : Store)
    → counted phone t (retire p purpose now cs) ≡ counted phone t cs
unfolding retire sent_within is_for
counted-retire phone p purpose t now [] = refl
counted-retire phone p purpose t now (c ∷ cs) =
    ground (arith, counted-retire phone p purpose t now cs)

counted-create :
    (phone p : String) (t now : ℕ) (cs : Store)
    → counted phone t (create_challenge p login now cs) ≡ counted phone t cs
unfolding create_challenge
counted-create phone p t now cs = ground (arith, counted-retire phone p login t now cs)

counted-consume :
    (phone : String) (t id now : ℕ) (cs : Store)
    → counted phone t (consume_challenge id now cs).1 ≡ counted phone t cs
unfolding consume_challenge sent_within is_for
counted-consume phone t id now [] = refl
counted-consume phone t id now (c ∷ cs) = ground (arith, counted-consume phone t id now cs)

same_number : (n : ℕ) → (n == n) ≡ true
same_number n = ground arith

failed_once-counted :
    (phone : String) (t now : ℕ) (c : OtpChallenge)
    → (sent_within phone t (failed_once now c) ≡ sent_within phone t c)
      × ((failed_once now c).attempts ≡ suc c.attempts)
unfolding sent_within is_for
failed_once-counted phone t now c = (ground arith, ground arith)

record-hit :
    (phone : String) (t now : ℕ) (c : OtpChallenge) (cs : Store)
    → counted phone t (record_failed_attempt c.id now (c ∷ cs)).1
      ≡ (if sent_within phone t c then suc (counted phone t (c ∷ cs)) else counted phone t (c ∷ cs))
unfolding record_failed_attempt
record-hit phone t now c cs =
    let (same, more) = failed_once-counted phone t now c in
    let here : (record_failed_attempt c.id now (c ∷ cs)).1 ≡ failed_once now c ∷ cs =
      rw (same_number c.id) refl in
    rw (here, same, more) (ground arith)

record-miss :
    (phone : String) (t id now : ℕ) (d : OtpChallenge) (cs : Store)
    → id < d.id
    → (record_failed_attempt id now (d ∷ cs)).1 ≡ d ∷ (record_failed_attempt id now cs).1
unfolding record_failed_attempt
record-miss phone t id now d cs other =
    let test : (id == d.id) ≡ false = ground arith in rw test refl

-- What a look-up finds is the first row, or is found behind it.
find-cases :
    (p : String) (now : ℕ) (d : OtpChallenge) (cs : Store) (c : OtpChallenge)
    → find_active_challenge p login now (d ∷ cs) ≡ some c
    → (d ≡ c) ⊎ (find_active_challenge p login now cs ≡ some c)
unfolding find_active_challenge is_for
find-cases p now d cs c h = ground arith

-- A wrong code is counted once, in the row of the challenge that was found.
counted-record :
    (phone p : String) (t now : ℕ) (cs : Store) (c : OtpChallenge)
    → Numbered cs
    → find_active_challenge p login now cs ≡ some c
    → counted phone t (record_failed_attempt c.id now cs).1
      ≡ (if sent_within phone t c then suc (counted phone t cs) else counted phone t cs)
unfolding find_active_challenge
counted-record phone p t now [] c n h = absurd (ground arith)
counted-record phone p t now (d ∷ cs) c (n, ns) h = elim (find-cases p now d cs c h) [
  | inl same ↦
      subst
        (λ (x : OtpChallenge). counted phone t (record_failed_attempt x.id now (d ∷ cs)).1 ≡ (
          if sent_within phone t x
          then suc (counted phone t (d ∷ cs))
          else counted phone t (d ∷ cs)))
        same (record-hit phone t now d cs)
  | inr found ↦
      let rest = counted-record phone p t now cs c ns found in
      rw
        (record-miss phone t c.id now d cs
          (ground (arith, find_active-id p login now cs c ns found)))
        (ground arith)
]

-- The challenge that is found has attempts left.
found-open :
    (p : String) (now : ℕ) (cs : Store) (c : OtpChallenge)
    → All Bounded cs
    → find_active_challenge p login now cs ≡ some c
    → c.attempts < c.max_attempts
unfolding find_active_challenge is_for
found-open p now [] c b h = absurd (ground arith)
found-open p now (d ∷ cs) c (b, bs) h = ground (arith, found-open p now cs c bs)

-- No call counts less than the wrong code that it tries.
verify-counted :
    (phone p : String) (t now : ℕ) (code : List ℕ) (approved : Bool) (cs : Store)
    → Numbered cs
    → All Bounded cs
    → counted phone t (verify_otp p now code approved cs).1 ≡ (
        if is_try phone t (verify p now code approved) cs
        then suc (counted phone t cs)
        else counted phone t cs)
unfolding verify_otp verify_found
verify-counted phone p t now code approved cs n b =
    elim (Option-cases (find_active_challenge p login now cs)) [
      | inl missing ↦ ground arith
      | inr (c, found) ↦ ground (
        arith,
        found-open p now cs c b found,
        counted-consume phone t c.id now cs,
        counted-record phone p t now cs c n found,
      )
    ]

request-counted :
    (phone p : String) (t now : ℕ) (sent : Bool) (cs : Store)
    → counted phone t (request_otp p now sent cs).1 ≡ counted phone t cs
request-counted phone p t now sent cs = elim (request_otp-cases p now sent cs) [
  | inr (r, refused, same) ↦ rw same refl
  | inl (fine, same) ↦ rw same (counted-create phone p t now cs)
]

-- The counters of the rows are the wrong codes of the history.
tries-counted :
    (es : List Event) (phone : String) (t : ℕ) → tries phone t es ≡ counted phone t (challenges es)
unfolding tries challenges after
tries-counted [] phone t = refl
tries-counted (request p now sent ∷ es) phone t =
    tries-counted es phone t ∙ sym (request-counted phone p t now sent (challenges es))
tries-counted (verify p now code approved ∷ es) phone t =
    rw
      (
        verify-counted phone p t now code approved (challenges es) (challenges-OneLive es).0
            (challenges-Bounded es),
        tries-counted es phone t,
      )
      refl

counted-sends :
    (phone : String) (t : ℕ) (cs : Store)
    → All Bounded cs
    → counted phone t cs ≤ otp_max_attempts * sends_within phone t cs
counted-sends phone t [] h = omega arith
counted-sends phone t (c ∷ cs) (b, bs) = ground (arith, counted-sends phone t cs bs)

-- In any history of calls, one after the other, at most fifteen calls try a wrong code against the codes
-- that were sent to a number in one window of fifteen minutes: calls that find such a code usable, and
-- whose code the provider does not approve.
pub tries_capped : (es : List Event) (phone : String) (t : ℕ) → tries phone t es ≤ 15
tries_capped es phone t = omega (
  arith,
  tries-counted es phone t,
  counted-sends phone t (challenges es) (challenges-Bounded es),
  sends_capped es phone t,
)
