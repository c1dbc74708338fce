-- ===== src/Otp/Rows.antt =====
-- The queries of otpChallengeStore.ts: how they change the challenges.
use dayfi_backend.Base.{
  ℕ, suc, ◌≤◌, ◌<◌, ◌≡◌, refl, arith, String, true, ◌&&◌, none, some, [], ◌∷◌, length,
  if◌then◌else◌, eq_iff,
}
use dayfi_backend.Otp.{
  OtpPurpose, login, add_phone, recover, OtpChallenge, Store, is_for, is_live, retire,
  record_failed_attempt, consume_challenge, find_active_challenge, same_purpose,
}

-- Each row's number is that of the rows before it.
abbrev pub Numbered : Store → Type 0
Numbered [] = Unit
Numbered (c ∷ cs) = (c.id ≡ length cs) × Numbered cs

-- How many codes of the number could still be used.
abbrev pub live_count : String → OtpPurpose → Store → ℕ
live_count phone purpose [] = 0
live_count phone purpose (c ∷ cs) =
    let rest = live_count phone purpose cs in
    if is_for phone purpose c && is_live c then suc rest else rest

same_purpose_eq : (p q : OtpPurpose) → same_purpose p q ≡ true → p ≡ q
same_purpose_eq login login h = refl
same_purpose_eq add_phone add_phone h = refl
same_purpose_eq recover recover h = refl
same_purpose_eq login add_phone h = absurd (ground arith)
same_purpose_eq login recover h = absurd (ground arith)
same_purpose_eq add_phone login h = absurd (ground arith)
same_purpose_eq add_phone recover h = absurd (ground arith)
same_purpose_eq recover login h = absurd (ground arith)
same_purpose_eq recover add_phone h = absurd (ground arith)

pub is_for_eq :
    (phone : String) (purpose : OtpPurpose) (c : OtpChallenge)
    → is_for phone purpose c ≡ true
    → (phone ≡ c.phone_e164) × (purpose ≡ c.purpose)
unfolding is_for
is_for_eq phone purpose c h =
    (ground (arith, eq_iff phone c.phone_e164), ground (arith, same_purpose_eq purpose c.purpose))

-- Only the retiring of a number's challenges, and the new one, concern the number.
pub length-retire :
    (phone : String) (purpose : OtpPurpose) (now : ℕ) (cs : Store)
    → length (retire phone purpose now cs) ≡ length cs
unfolding retire
length-retire phone purpose now [] = refl
length-retire phone purpose now (c ∷ cs) = ground (arith, length-retire phone purpose now cs)

pub retire-Numbered :
    (phone : String) (purpose : OtpPurpose) (now : ℕ) (cs : Store)
    → Numbered cs
    → Numbered (retire phone purpose now cs)
unfolding retire
retire-Numbered phone purpose now [] h = tt
retire-Numbered phone purpose now (c ∷ cs) (n, h) =
    (ground (arith, length-retire phone purpose now cs), retire-Numbered phone purpose now cs h)

pub live_count-retire :
    (phone : String) (purpose : OtpPurpose) (now : ℕ) (cs : Store)
    → live_count phone purpose (retire phone purpose now cs) ≡ 0
unfolding retire is_for
live_count-retire phone purpose now [] = refl
live_count-retire phone purpose now (c ∷ cs) =
    ground (arith, live_count-retire phone purpose now cs)

pub live_count-retire_le :
    (p : String) (q : OtpPurpose) (phone : String) (purpose : OtpPurpose) (now : ℕ) (cs : Store)
    → live_count p q (retire phone purpose now cs) ≤ live_count p q cs
unfolding retire is_for
live_count-retire_le p q phone purpose now [] = omega arith
live_count-retire_le p q phone purpose now (c ∷ cs) =
    ground (arith, live_count-retire_le p q phone purpose now cs)

pub live_count-record :
    (p : String) (q : OtpPurpose) (id now : ℕ) (cs : Store)
    → live_count p q (record_failed_attempt id now cs).1 ≤ live_count p q cs
unfolding record_failed_attempt is_for
live_count-record p q id now [] = omega arith
live_count-record p q id now (c ∷ cs) = ground (arith, live_count-record p q id now cs)

pub live_count-consume :
    (p : String) (q : OtpPurpose) (id now : ℕ) (cs : Store)
    → live_count p q (consume_challenge id now cs).1 ≤ live_count p q cs
unfolding consume_challenge is_for
live_count-consume p q id now [] = omega arith
live_count-consume p q id now (c ∷ cs) = ground (arith, live_count-consume p q id now cs)

pub record-Numbered :
    (id now : ℕ) (cs : Store)
    → Numbered cs
    → Numbered (record_failed_attempt id now cs).1
      × (length (record_failed_attempt id now cs).1 ≡ length cs)
unfolding record_failed_attempt
record-Numbered id now [] h = (tt, refl)
record-Numbered id now (c ∷ cs) (n, h) = ground (arith, record-Numbered id now cs h)

pub consume-Numbered :
    (id now : ℕ) (cs : Store)
    → Numbered cs
    → Numbered (consume_challenge id now cs).1
      × (length (consume_challenge id now cs).1 ≡ length cs)
unfolding consume_challenge
consume-Numbered id now [] h = (tt, refl)
consume-Numbered id now (c ∷ cs) (n, h) = ground (arith, consume-Numbered id now cs h)

-- The challenge that is found has a row number, and no other row has it.
pub find_active-id :
    (phone : String) (purpose : OtpPurpose) (now : ℕ) (cs : Store) (c : OtpChallenge)
    → Numbered cs
    → find_active_challenge phone purpose now cs ≡ some c
    → c.id < length cs
unfolding find_active_challenge is_for
find_active-id phone purpose now [] c n h = absurd (ground arith)
find_active-id phone purpose now (d ∷ cs) c (n, ns) h =
    ground (arith, find_active-id phone purpose now cs c ns)

pub consume-found :
    (phone : String) (purpose : OtpPurpose) (now : ℕ) (cs : Store) (c : OtpChallenge)
    → Numbered cs
    → find_active_challenge phone purpose now cs ≡ some c
    → suc (live_count phone purpose (consume_challenge c.id now cs).1) ≡ live_count phone purpose cs
unfolding find_active_challenge consume_challenge is_for
consume-found phone purpose now [] c n h = absurd (ground arith)
consume-found phone purpose now (d ∷ cs) c (n, ns) h =
    ground
      (arith, consume-found phone purpose now cs c ns, find_active-id phone purpose now cs c ns)

pub find_active-none :
    (phone : String) (purpose : OtpPurpose) (now : ℕ) (cs : Store)
    → live_count phone purpose cs ≡ 0
    → find_active_challenge phone purpose now cs ≡ none
unfolding find_active_challenge is_for
find_active-none phone purpose now [] h = refl
find_active-none phone purpose now (c ∷ cs) h =
    ground (arith, find_active-none phone purpose now cs)
