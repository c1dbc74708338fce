-- ===== src/Lifecycle/Keys.antt =====
-- The idempotency keys of payouts: no two calls for different payouts, or of different kinds, share one.
use Prim.Native.Nat.{ℕ}
use Prim.Native.Char.{code}
use Prim.Native.String
use Prim.Native.String.{String, [], ◌∷◌, char_at}
use dayfi_backend.Base.{
  ◌≡◌, ◌≢◌, refl, sym, ◌∙◌, ap, arith, true, false, trim, trim_start, trim_end, is_empty, is_space,
  if◌then◌else◌, Bool,
}
use Prim.Native.Char.{Char}
use text.Mathlib.TextLemmas.{nil-append, cons-append, append_cancel_right, append_cancel_left}
use dayfi_backend.Lifecycle.Payout.{payout_key}

abbrev is_single : String → Bool
is_single [] = false
is_single (c ∷ []) = true
is_single (c ∷ d ∷ s) = false

-- The code of the last character but one.
abbrev mark : String → ℕ
mark [] = 0
mark (c ∷ s) = let rest = mark s in if is_single s then code c else rest

is_single-append :
    (s : String) (c d : Char) (t : String) → is_single (String.◌++◌ s (c ∷ d ∷ t)) ≡ false
is_single-append [] c d t = rw (nil-append (c ∷ d ∷ t)) refl
is_single-append (a ∷ []) c d t = rw (cons-append a [] (c ∷ d ∷ t), nil-append (c ∷ d ∷ t)) refl
is_single-append (a ∷ b ∷ s) c d t =
    rw (cons-append a (b ∷ s) (c ∷ d ∷ t), cons-append b s (c ∷ d ∷ t)) refl

mark-append :
    (s : String) (c d : Char) (t : String) → mark (String.◌++◌ s (c ∷ d ∷ t)) ≡ mark (c ∷ d ∷ t)
mark-append [] c d t = rw (nil-append (c ∷ d ∷ t)) refl
mark-append (a ∷ s) c d t =
    rw (cons-append a s (c ∷ d ∷ t), is_single-append s c d t) (mark-append s c d t)

pub trim_start-append :
    (c : Char) (s t : String)
    → is_space (code c) ≡ false
    → trim_start (String.◌++◌ (c ∷ s) t) ≡ String.◌++◌ (c ∷ s) t
unfolding trim_start
trim_start-append c s t h = rw (cons-append c s t, h) refl

pub trim_end-append :
    (s t : String)
    → trim_end t ≡ t
    → is_empty t ≡ false
    → (trim_end (String.◌++◌ s t) ≡ String.◌++◌ s t) × (is_empty (String.◌++◌ s t) ≡ false)
unfolding trim_end
trim_end-append [] t h k = rw (nil-append t) (h, k)
trim_end-append (c ∷ s) t h k =
    let rest = trim_end-append s t h k in rw (cons-append c s t) (ground arith, refl)

-- The key of a call is not changed by `trim`.
pub trim-payout_key :
    (id suffix : String)
    → trim_end suffix ≡ suffix
    → is_empty suffix ≡ false
    → trim (payout_key id suffix) ≡ payout_key id suffix
unfolding trim payout_key
trim-payout_key id suffix h k =
    let (inner, full) = trim_end-append id suffix h k in
    let (whole, there) = trim_end-append "payout:" (String.◌++◌ id suffix) inner full in
    rw whole (trim_start-append (char_at "p" 0) "ayout:" (String.◌++◌ id suffix) refl)

-- Two keys with one suffix are of one payout.
pub payout_key-id : (i j suffix : String) → payout_key i suffix ≡ payout_key j suffix → i ≡ j
unfolding payout_key
payout_key-id i j suffix same =
    append_cancel_right i j suffix
      (append_cancel_left "payout:" (String.◌++◌ i suffix) (String.◌++◌ j suffix) same)

-- Keys whose suffixes have other marks differ.
pub payout_key-suffix :
    (i j : String) (a b : Char) (s : String) (c d : Char) (t : String)
    → mark (a ∷ b ∷ s) ≢ mark (c ∷ d ∷ t)
    → payout_key i (a ∷ b ∷ s) ≢ payout_key j (c ∷ d ∷ t)
unfolding payout_key
payout_key-suffix i j a b s c d t other same =
    let inner =
      append_cancel_left "payout:" (String.◌++◌ i (a ∷ b ∷ s)) (String.◌++◌ j (c ∷ d ∷ t)) same in
    other (sym (mark-append i a b s) ∙ ap mark inner ∙ mark-append j c d t)

pub finalize_release_keys : (i j : String) → payout_key i ":finalize" ≢ payout_key j ":release"
finalize_release_keys i j =
    payout_key-suffix i j (char_at ":" 0) (char_at "f" 0) "inalize" (char_at ":" 0) (char_at "r" 0)
      "elease" (λ same. ground arith)

pub lock_finalize_keys : (i j : String) → payout_key i ":lock" ≢ payout_key j ":finalize"
lock_finalize_keys i j =
    payout_key-suffix i j (char_at ":" 0) (char_at "l" 0) "ock" (char_at ":" 0) (char_at "f" 0)
      "inalize" (λ same. ground arith)

pub lock_release_keys : (i j : String) → payout_key i ":lock" ≢ payout_key j ":release"
lock_release_keys i j =
    payout_key-suffix i j (char_at ":" 0) (char_at "l" 0) "ock" (char_at ":" 0) (char_at "r" 0)
      "elease" (λ same. ground arith)
