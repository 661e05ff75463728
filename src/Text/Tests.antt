-- ===== src/Text/Tests.antt =====
-- Runs of the text functions.
use gsm.Common.{◌≡◌, refl, true, false}
use gsm.Text.{strip, lower_case, decimal, six_digits, twelve_symbols, slice_to}

text_run :
    (strip "12 3-456" ≡ "123456")
    × (lower_case "Ab-Z9" ≡ "ab-z9")
    × (decimal 0 ≡ "0")
    × (decimal 407 ≡ "407")
    × (six_digits "123456" ≡ true)
    × (six_digits "12345" ≡ false)
    × (twelve_symbols "abcdef234567" ≡ true)
    × (twelve_symbols "abcdef23456-" ≡ false)
    × (slice_to 2 "abc" ≡ "ab")
unfolding strip lower_case decimal six_digits twelve_symbols slice_to
text_run = (refl, refl, refl, refl, refl, refl, refl, refl, refl)
