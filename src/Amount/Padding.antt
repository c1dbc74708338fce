-- ===== src/Amount/Padding.antt =====
-- Seven places: zeros put before the digits, taken away behind them, and put back.
use dayfi_backend.Base.{
  ℕ, zero, suc, ◌-◌, ◌<◌, ◌≤◌, ◌≡◌, refl, ap, ◌∙◌, arith, [], ◌∷◌, ◌++◌, true, Bool-cases, inl, inr,
  length, length-append, ◌==◌, ◌&&◌,
}
use dayfi_backend.Amount.{
  Text, is_nil, all_digits, value_from, value, to_digits, take, zeros, pad_start, strip_zeros,
}
use dayfi_backend.Amount.Digits.{
  all_digits-append, value-to_digits, all_digits-to_digits, length-to_digits,
}

value_from-zeros : (k : ℕ) (s : Text) → value_from 0 (zeros k ++ s) ≡ value_from 0 s
unfolding value_from
value_from-zeros zero s = refl
value_from-zeros (suc k) s = value_from-zeros k s

all_digits-zeros : (k : ℕ) → all_digits (zeros k) ≡ true
all_digits-zeros zero = refl
all_digits-zeros (suc k) = all_digits-zeros k

length-zeros : (k : ℕ) → length (zeros k) ≡ k
length-zeros zero = refl
length-zeros (suc k) = ap suc (length-zeros k)

pub all_digits-pad_start : (n : ℕ) → all_digits (pad_start (to_digits n)) ≡ true
all_digits-pad_start n =
    all_digits-append (zeros (7 - length (to_digits n))) (to_digits n)
      (all_digits-zeros (7 - length (to_digits n))) (all_digits-to_digits n)

value-pad_start : (n : ℕ) → value (pad_start (to_digits n)) ≡ n
unfolding value
value-pad_start n =
    value_from-zeros (7 - length (to_digits n)) (to_digits n) ∙ unfold value in value-to_digits n

length-pad_start : (n : ℕ) → n < 10000000 → length (pad_start (to_digits n)) ≡ 7
length-pad_start n h = omega (
  arith,
  length-append (zeros (7 - length (to_digits n))) (to_digits n),
  length-zeros (7 - length (to_digits n)),
  length-to_digits 6 n h,
)

is_nil-eq : (s : Text) → is_nil s ≡ true → s ≡ []
is_nil-eq [] h = refl
is_nil-eq (c ∷ s) h = cc

-- Zeros behind the text put back what `strip_zeros` has taken away.
take-strip_zeros :
    (k : ℕ) (s : Text) → length s ≤ k → take (length s) (strip_zeros s ++ zeros k) ≡ s
unfolding strip_zeros
take-strip_zeros k [] h = refl
take-strip_zeros zero (c ∷ s) h = absurd (omega arith)
take-strip_zeros (suc k) (c ∷ s) h = elim (Bool-cases (is_nil (strip_zeros s) && c == b'0')) [
  | inl gone ↦
      let bare : strip_zeros s ≡ [] = is_nil-eq (strip_zeros s) (ground arith) in
      let digit : b'0' ≡ c = ground arith in
      let rest : take (length s) (zeros k) ≡ s = rw bare at (take-strip_zeros k s (omega arith)) in
      rw gone (λ i. digit i ∷ rest i)
  | inr kept ↦ rw kept (ap (λ (t : Text). c ∷ t) (take-strip_zeros (suc k) s (omega arith)))
]

pub all_digits-strip_zeros : (s : Text) → all_digits s ≡ true → all_digits (strip_zeros s) ≡ true
unfolding strip_zeros
all_digits-strip_zeros [] h = refl
all_digits-strip_zeros (c ∷ s) h = ground (arith, all_digits-strip_zeros s)

length-strip_zeros : (s : Text) → length (strip_zeros s) ≤ length s
unfolding strip_zeros
length-strip_zeros [] = omega arith
length-strip_zeros (c ∷ s) = ground (arith, length-strip_zeros s)

-- The places behind the dot that `formatMinor` writes for a fraction.
abbrev pub places : ℕ → Text
places n = strip_zeros (pad_start (to_digits n))

pub length-places : (n : ℕ) → n < 10000000 → length (places n) ≤ 7
length-places n h =
    omega (arith, length-strip_zeros (pad_start (to_digits n)), length-pad_start n h)

-- Filled up to seven again they are worth the fraction.
pub value-places : (n : ℕ) → n < 10000000 → value (take 7 (places n ++ zeros 7)) ≡ n
value-places n h =
    let full : take 7 (places n ++ zeros 7) ≡ pad_start (to_digits n) =
      rw (length-pad_start n h) at
        (take-strip_zeros 7 (pad_start (to_digits n)) (omega (arith, length-pad_start n h))) in
    rw full (value-pad_start n)
