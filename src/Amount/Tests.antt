-- ===== src/Amount/Tests.antt =====
-- Runs of infraMoneyAmount.ts.
use Prim.Native.Char.{code}
use dayfi_backend.Base.{◌≡◌, refl, String, [], ◌∷◌}
use dayfi_backend.Base.Int.{pos, negsuc}
use dayfi_backend.Amount.{
  Text, text, number, ok, invalid_amount, parse_usdc_to_minor, format_usdc, parse_xlm_to_minor,
  format_xlm,
}
use dayfi_backend.Amount.RoundTrip.{parse-format}

abbrev codes : String → Text
codes String.[] = []
codes (String.◌∷◌ c s) = code c ∷ codes s

format_cents : format_usdc (pos 100000) ≡ codes "0.01"
unfolding format_usdc
format_cents = refl

format_negative : format_usdc (negsuc 12345678) ≡ codes "-1.2345679"
unfolding format_usdc
format_negative = refl

parse_cents : parse_usdc_to_minor (text (codes " 0.01 ")) ≡ ok (pos 100000)
unfolding parse_usdc_to_minor
parse_cents = refl

parse_eight_places : parse_usdc_to_minor (text (codes "1.00000000")) ≡ invalid_amount
unfolding parse_usdc_to_minor
parse_eight_places = refl

parse_number : parse_usdc_to_minor (number (pos 150000000000000)) ≡ ok (pos 15000000)
unfolding parse_usdc_to_minor
parse_number = refl

parse-format_example :
    (parse_usdc_to_minor (text (format_usdc (negsuc 12345678))) ≡ ok (negsuc 12345678))
    × (parse_xlm_to_minor (text (format_xlm (negsuc 12345678))) ≡ ok (negsuc 12345678))
parse-format_example = parse-format (negsuc 12345678)
