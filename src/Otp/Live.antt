-- ===== src/Otp/Live.antt =====
-- A number has at most one usable code, and a code works once.
use dayfi_backend.Base.{
  ℕ, ◌+◌, ◌≤◌, ◌<◌, ◌≡◌, refl, ◌≢◌, arith, String, Bool, true, false, some, List, [], ◌∷◌, length,
  inl, inr, ◌⊎◌, Bool-cases, Option-cases, eq_refl,
}
use dayfi_backend.Otp.{
  OtpPurpose, login, OtpChallenge, Store, is_for, SendAllowance, allowed, retry_after,
  check_send_allowance, consume_challenge, find_active_challenge, create_challenge, fresh_challenge,
  AuthResult, ok, otp_invalid, otp_rate_limited, otp_send_failed, request_otp, verify_found,
  verify_otp, is_code, otp_ttl,
}
use dayfi_backend.Otp.Rows.{
  Numbered, live_count, is_for_eq, length-retire, retire-Numbered, live_count-retire,
  live_count-retire_le, live_count-record, live_count-consume, record-Numbered, consume-Numbered,
  consume-found, find_active-none,
}
use dayfi_backend.Otp.History.{Event, challenges, history_keeps}

abbrev pub OneLive : Store → Type 0
OneLive cs = Numbered cs × ((p : String) (q : OtpPurpose) → live_count p q cs ≤ 1)

allowance-cases : (s : SendAllowance) → (s ≡ allowed) ⊎ ((n : ℕ) × (s ≡ retry_after n))
allowance-cases allowed = inl refl
allowance-cases (retry_after n) = inr (n, refl)

create-OneLive :
    (phone : String) (purpose : OtpPurpose) (now : ℕ) (cs : Store)
    → OneLive cs
    → OneLive (create_challenge phone purpose now cs)
unfolding create_challenge
create-OneLive phone purpose now cs (n, h) = (
  (ground (arith, length-retire phone purpose now cs), retire-Numbered phone purpose now cs n),
  λ p q. elim (Bool-cases (is_for p q (fresh_challenge phone purpose now (length cs)))) [
    | inl same ↦
        let same_number = is_for_eq p q (fresh_challenge phone purpose now (length cs)) same in
        ground (arith, live_count-retire p q now cs)
    | inr other ↦ ground (arith, live_count-retire_le p q phone purpose now cs, h p q)
  ],
)

-- What a request does, on each branch.
pub request_otp-cases :
    (phone : String) (now : ℕ) (sent : Bool) (cs : Store)
    → ((check_send_allowance phone login now cs ≡ allowed)
        × (request_otp phone now sent cs ≡ (ok, create_challenge phone login now cs)))
      ⊎ ((r : AuthResult) × (r ≢ ok) × (request_otp phone now sent cs ≡ (r, cs)))
unfolding request_otp
request_otp-cases phone now sent cs =
    elim (allowance-cases (check_send_allowance phone login now cs)) [
      | inr (n, late) ↦ inr (otp_rate_limited n, ground arith, ground arith)
      | inl fine ↦ elim (Bool-cases sent) [
        | inl delivered ↦ inl (fine, ground arith)
        | inr failed ↦ inr (otp_send_failed, ground arith, ground arith)
      ]
    ]

pub request-OneLive :
    (phone : String) (now : ℕ) (sent : Bool) (cs : Store)
    → OneLive cs
    → OneLive (request_otp phone now sent cs).1
request-OneLive phone now sent cs h = elim (request_otp-cases phone now sent cs) [
  | inr (r, refused, same) ↦ rw same h
  | inl (fine, same) ↦ rw same (create-OneLive phone login now cs h)
]

found-OneLive :
    (now : ℕ) (approved : Bool) (c : OtpChallenge) (cs : Store)
    → OneLive cs
    → OneLive (verify_found now approved c cs).1
unfolding verify_found
found-OneLive now approved c cs (n, h) = (
  ground (arith, record-Numbered c.id now cs n, consume-Numbered c.id now cs n),
  λ p q.
      ground (arith, h p q, live_count-record p q c.id now cs, live_count-consume p q c.id now cs),
)

-- What a check of a code does, on each branch.
pub verify_otp-cases :
    (phone : String) (now : ℕ) (code : List ℕ) (approved : Bool) (cs : Store)
    → (verify_otp phone now code approved cs ≡ (otp_invalid, cs))
      ⊎ ((c : OtpChallenge) × (is_code code ≡ true)
          × (find_active_challenge phone login now cs ≡ some c)
          × (verify_otp phone now code approved cs ≡ verify_found now approved c cs))
unfolding verify_otp
verify_otp-cases phone now code approved cs = elim (Bool-cases (is_code code)) [
  | inr bad ↦ inl (ground arith)
  | inl good ↦ elim (Option-cases (find_active_challenge phone login now cs)) [
    | inl missing ↦ inl (ground arith)
    | inr (c, found) ↦ inr (c, good, found, ground arith)
  ]
]

pub verify-OneLive :
    (phone : String) (now : ℕ) (code : List ℕ) (approved : Bool) (cs : Store)
    → OneLive cs
    → OneLive (verify_otp phone now code approved cs).1
verify-OneLive phone now code approved cs h = elim (verify_otp-cases phone now code approved cs) [
  | inl same ↦ rw same h
  | inr (c, good, found, same) ↦ rw same (found-OneLive now approved c cs h)
]

-- After any history of calls, one after the other, each number has at most one unused code for each
-- purpose, and each row has its own number.
pub challenges-OneLive : (es : List Event) → OneLive (challenges es)
challenges-OneLive = history_keeps OneLive (tt, λ p q. omega arith) request-OneLive verify-OneLive

verify_found_ok :
    (now : ℕ) (approved : Bool) (c : OtpChallenge) (cs cs' : Store)
    → verify_found now approved c cs ≡ (ok, cs')
    → consume_challenge c.id now cs ≡ (true, cs')
unfolding verify_found
verify_found_ok now approved c cs cs' h = ground arith

-- After any history of calls, one after the other, a code that has been accepted is used up: a check
-- for the number that follows is refused as invalid and changes nothing, whatever its time, its code and the provider's
-- answer, until another code is requested.
pub verify_single_use :
    (es : List Event) (phone : String) (now : ℕ) (code : List ℕ) (approved : Bool) (cs' : Store)
    → verify_otp phone now code approved (challenges es) ≡ (ok, cs')
    → (now' : ℕ) (code' : List ℕ) (approved' : Bool)
    → verify_otp phone now' code' approved' cs' ≡ (otp_invalid, cs')
verify_single_use es phone now code approved cs' h now' code' approved' =
    let cs : Store = challenges es in
    let (n, one) = challenges-OneLive es in
    elim (verify_otp-cases phone now code approved cs) [
      | inl same ↦ absurd (ground arith)
      | inr (c, good, found, same) ↦
          let used : consume_challenge c.id now cs ≡ (true, cs') =
            verify_found_ok now approved c cs cs' (ground arith) in
          let none_left : live_count phone login cs' ≡ 0 =
            ground (arith, consume-found phone login now cs c n found, one phone login) in
          elim (verify_otp-cases phone now' code' approved' cs') [
            | inl same' ↦ same'
            | inr (d, good', found', same') ↦
                absurd (ground (arith, find_active-none phone login now' cs' none_left))
          ]
    ]

consume_absent :
    (id now : ℕ) (cs : Store)
    → Numbered cs
    → length cs ≤ id
    → consume_challenge id now cs ≡ (false, cs)
unfolding consume_challenge
consume_absent id now [] n h = refl
consume_absent id now (c ∷ cs) (n, ns) h = ground (arith, consume_absent id now cs ns)

consume_twice :
    (id now now' : ℕ) (cs : Store)
    → Numbered cs
    → (consume_challenge id now cs).0 ≡ true
    → consume_challenge id now' (consume_challenge id now cs).1
      ≡ (false, (consume_challenge id now cs).1)
unfolding consume_challenge
consume_twice id now now' [] n h = absurd (ground arith)
consume_twice id now now' (c ∷ cs) (n, ns) h =
    ground (arith, consume_twice id now now' cs ns, consume_absent id now' cs ns)

-- Two checks have found the same challenge after any history, and both codes are approved. If the one
-- is accepted, the other one, coming next, is refused as invalid and changes nothing.
verify_race :
    (es : List Event) (c : OtpChallenge) (now now' : ℕ) (cs' : Store)
    → verify_found now true c (challenges es) ≡ (ok, cs')
    → verify_found now' true c cs' ≡ (otp_invalid, cs')
unfolding verify_found
verify_race es c now now' cs' h =
    let used = verify_found_ok now true c (challenges es) cs' h in
    ground (arith, consume_twice c.id now now' (challenges es) (challenges-OneLive es).0)

fresh_works :
    (phone : String) (now : ℕ) (cs : Store) (now' : ℕ) (code : List ℕ)
    → now' < now + otp_ttl
    → is_code code ≡ true
    → (verify_otp phone now' code true (create_challenge phone login now cs)).0 ≡ ok
unfolding create_challenge verify_otp verify_found find_active_challenge consume_challenge is_for
fresh_works phone now cs now' code early good = ground (arith, eq_refl phone)

-- A request that is answered with success has sent a code that works: a check of it before it expires
-- is accepted, if the provider approves.
pub request-verify :
    (phone : String) (now : ℕ) (sent : Bool) (cs cs' : Store) (now' : ℕ) (code : List ℕ)
    → request_otp phone now sent cs ≡ (ok, cs')
    → now' < now + otp_ttl
    → is_code code ≡ true
    → (verify_otp phone now' code true cs').0 ≡ ok
request-verify phone now sent cs cs' now' code h early good =
    elim (request_otp-cases phone now sent cs) [
      | inr (r, refused, same) ↦ absurd (ground arith)
      | inl (fine, same) ↦
          let made : cs' ≡ create_challenge phone login now cs = ground arith in
          rw made (fresh_works phone now cs now' code early good)
    ]
