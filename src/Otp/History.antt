-- ===== src/Otp/History.antt =====
-- Every history of calls of `requestOtp` and `verifyOtp`, one after the other.
use dayfi_backend.Base.{ℕ, String, Bool, List, [], ◌∷◌}
use dayfi_backend.Otp.{Store, request_otp, verify_otp}

-- A call with its time, and with what the provider answers in it.
pub data Event : Type 0 where
  request : String → ℕ → Bool → Event
  verify : String → ℕ → List ℕ → Bool → Event

unfoldable pub after : Event → Store → Store
after (request phone now sent) cs = (request_otp phone now sent cs).1
after (verify phone now code approved) cs = (verify_otp phone now code approved cs).1

-- The challenges after the calls, the last call first.
unfoldable pub challenges : List Event → Store
challenges [] = []
challenges (e ∷ es) = after e (challenges es)

-- What the first rows and every call keep holds after every history.
pub history_keeps :
    (P : Store → Type 0)
    → P []
    → ((phone : String) (now : ℕ) (sent : Bool) (cs : Store)
        → P cs
        → P (request_otp phone now sent cs).1)
    → ((phone : String) (now : ℕ) (code : List ℕ) (approved : Bool) (cs : Store)
        → P cs
        → P (verify_otp phone now code approved cs).1)
    → (es : List Event) → P (challenges es)
unfolding challenges after
history_keeps P start requested verified [] = start
history_keeps P start requested verified (request phone now sent ∷ es) =
    requested phone now sent (challenges es) (history_keeps P start requested verified es)
history_keeps P start requested verified (verify phone now code approved ∷ es) =
    verified phone now code approved (challenges es) (history_keeps P start requested verified es)
