-- ===== src/Amount/Digits.antt =====
-- The decimal digits of a number: what they are, what they are worth, and how many there are.
use dayfi_backend.Base.{
  ℕ, zero, suc, ◌+◌, ◌-◌, ◌*◌, ◌/◌, ◌%◌, ◌<◌, ◌≤◌, ◌≡◌, refl, arith, [], ◌∷◌, ◌++◌, true, false,
  ltb, Bool-cases, inl, inr, length, length-append,
}
use dayfi_backend.Amount.{Text, is_nil, all_digits, value_from, value, digits_fuel, to_digits}

pub value_from-append :
    (acc : ℕ) (s t : Text) → value_from acc (s ++ t) ≡ value_from (value_from acc s) t
unfolding value_from
value_from-append acc [] t = refl
value_from-append acc (c ∷ s) t = value_from-append (acc * 10 + (c - b'0')) s t

pub all_digits-append :
    (s t : Text) → all_digits s ≡ true → all_digits t ≡ true → all_digits (s ++ t) ≡ true
all_digits-append [] t hs ht = ht
all_digits-append (c ∷ s) t hs ht = ground (arith, all_digits-append s t)

is_nil-snoc : (s : Text) (c : ℕ) → is_nil (s ++ c ∷ []) ≡ false
is_nil-snoc [] c = refl
is_nil-snoc (d ∷ s) c = refl

value_from-digits_fuel : (fuel n : ℕ) → n < fuel → value_from 0 (digits_fuel fuel n) ≡ n
unfolding digits_fuel value_from
value_from-digits_fuel zero n h = absurd (omega arith)
value_from-digits_fuel (suc fuel) n h = elim (Bool-cases (ltb n 10)) [
  | inl one ↦ rw one (ground arith)
  | inr more ↦
      rw (more, value_from-append, value_from-digits_fuel fuel (n / 10) (ground arith))
        (omega arith)
]

-- The digits of a number are worth the number.
pub value-to_digits : (n : ℕ) → value (to_digits n) ≡ n
unfolding value to_digits
value-to_digits n = value_from-digits_fuel (suc n) n (omega arith)

all_digits-digits_fuel : (fuel n : ℕ) → all_digits (digits_fuel fuel n) ≡ true
unfolding digits_fuel
all_digits-digits_fuel zero n = refl
all_digits-digits_fuel (suc fuel) n = elim (Bool-cases (ltb n 10)) [
  | inl one ↦ rw one (ground arith)
  | inr more ↦ rw more (
      all_digits-append (digits_fuel fuel (n / 10)) ((b'0' + n % 10) ∷ [])
        (all_digits-digits_fuel fuel (n / 10)) (ground arith))
]

pub all_digits-to_digits : (n : ℕ) → all_digits (to_digits n) ≡ true
unfolding to_digits
all_digits-to_digits n = all_digits-digits_fuel (suc n) n

pub is_nil-to_digits : (n : ℕ) → is_nil (to_digits n) ≡ false
unfolding to_digits digits_fuel
is_nil-to_digits n = ground (arith, is_nil-snoc (digits_fuel n (n / 10)) (b'0' + n % 10))

-- `10 ^ k`
abbrev pub pow10 : ℕ → ℕ
pow10 zero = 1
pow10 (suc k) = pow10 k * 10

length-digits_fuel : (k fuel n : ℕ) → n < pow10 (suc k) → length (digits_fuel fuel n) ≤ suc k
unfolding digits_fuel
length-digits_fuel k zero n h = omega arith
length-digits_fuel zero (suc fuel) n h = elim (Bool-cases (ltb n 10)) [
  | inl one ↦ rw one (omega arith)
  | inr more ↦ absurd (ground arith)
]
length-digits_fuel (suc k) (suc fuel) n h = elim (Bool-cases (ltb n 10)) [
  | inl one ↦ rw one (omega arith)
  | inr more ↦ rw more (
      omega (
        arith,
        length-append (digits_fuel fuel (n / 10)) ((b'0' + n % 10) ∷ []),
        length-digits_fuel k fuel (n / 10) (omega arith),
      ))
]

-- A number below `10 ^ (k + 1)` has at most `k + 1` digits.
pub length-to_digits : (k n : ℕ) → n < pow10 (suc k) → length (to_digits n) ≤ suc k
unfolding to_digits
length-to_digits k n h = length-digits_fuel k (suc n) n h
