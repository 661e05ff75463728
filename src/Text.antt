-- ===== src/Text.antt =====
-- What the server does with texts, character by character: the parts of JavaScript's strings and
-- regular expressions that its modules use. Letters beyond ASCII keep their case here.
mod Tests
use Prim.Native.Char.{Char, code}
use Prim.Native.String.{String, ◌++◌}
use gsm.Common.{
  ℕ, zero, suc, ◌%◌, ◌/◌, Bool, true, false, ◌&&◌, ◌||◌, ◌==◌, nat_eq, string_eq, ltb, leb,
  if◌then◌else◌, Option, none, some,
}

infixr 60 ◌+++◌
-- `a + b`, and the parts of a template literal.
abbrev pub ◌+++◌ : String → String → String
a +++ b = a ++ b

-- `s.length`, for texts within the basic plane.
unfoldable pub chars : String → ℕ
chars String.[] = 0
chars (String.◌∷◌ c s) = suc (chars s)

-- `s.slice(0, n)`.
unfoldable pub slice_to : ℕ → String → String
slice_to zero s = ""
slice_to (suc n) String.[] = ""
slice_to (suc n) (String.◌∷◌ c s) = String.◌∷◌ c (slice_to n s)

is_space : Char → Bool
is_space c = (leb 9 (code c) && leb (code c) 13) || code c == 32 || code c == 160

-- `s.trim()`.
trim_start : String → String
unfolding is_space
trim_start String.[] = ""
trim_start (String.◌∷◌ c s) = let rest = trim_start s in if is_space c then rest else String.◌∷◌ c s

trim_end : String → String
unfolding is_space
trim_end String.[] = ""
trim_end (String.◌∷◌ c s) =
    let rest = trim_end s in if is_space c && rest == "" then "" else String.◌∷◌ c rest

unfoldable pub trim : String → String
unfolding trim_start trim_end
trim s = trim_end (trim_start s)

-- `s.replace(/[\s-]/g, "")`.
unfoldable pub strip : String → String
unfolding is_space
strip String.[] = ""
strip (String.◌∷◌ c s) =
    let rest = strip s in if is_space c || code c == b'-' then rest else String.◌∷◌ c rest

unfoldable pub is_digit : Char → Bool
is_digit c = leb b'0' (code c) && leb (code c) b'9'

unfoldable pub is_letter : Char → Bool
is_letter c = leb b'a' (code c) && leb (code c) b'z'

unfoldable pub every : (Char → Bool) → String → Bool
every p String.[] = true
every p (String.◌∷◌ c s) = p c && every p s

-- `/^\d{6}$/` and `/^[a-z0-9]{12}$/`.
unfoldable pub six_digits : String → Bool
unfolding is_digit chars every
six_digits s = chars s == 6 && every is_digit s

unfoldable pub twelve_symbols : String → Bool
unfolding is_digit is_letter chars every
twelve_symbols s = chars s == 12 && every (λ c. is_letter c || is_digit c) s

-- The letter of `to` at the place where `from` has `c`.
replaced : String → String → Char → Char
replaced String.[] to c = c
replaced (String.◌∷◌ a from) String.[] c = c
replaced (String.◌∷◌ a from) (String.◌∷◌ b to) c =
    if code a == code c then b else replaced from to c

-- `s.toLowerCase()`.
unfoldable pub lower_case : String → String
unfolding replaced
lower_case String.[] = ""
lower_case (String.◌∷◌ c s) =
    String.◌∷◌ (replaced "ABCDEFGHIJKLMNOPQRSTUVWXYZ" "abcdefghijklmnopqrstuvwxyz" c) (lower_case s)

-- `String(n)`.
digit_at : String → ℕ → String → String
digit_at String.[] n rest = rest
digit_at (String.◌∷◌ d ds) zero rest = String.◌∷◌ d rest
digit_at (String.◌∷◌ d ds) (suc n) rest = digit_at ds n rest

digits : ℕ → ℕ → String → String
unfolding digit_at
digits zero n rest = rest
digits (suc fuel) n rest =
    let one = digit_at "0123456789" (n % 10) rest in
    let all = digits fuel (n / 10) one in if ltb n 10 then one else all

-- A number has no more digits than `n + 1`.
unfoldable pub decimal : ℕ → String
unfolding digits
decimal n = digits (suc n) n ""

-- `s.toUpperCase()`.
unfoldable pub upper_case : String → String
unfolding replaced
upper_case String.[] = ""
upper_case (String.◌∷◌ c s) =
    String.◌∷◌ (replaced "abcdefghijklmnopqrstuvwxyz" "ABCDEFGHIJKLMNOPQRSTUVWXYZ" c) (upper_case s)

-- `s.startsWith(prefix)`.
unfoldable pub starts_with : String → String → Bool
starts_with String.[] s = true
starts_with (String.◌∷◌ c prefix) String.[] = false
starts_with (String.◌∷◌ c prefix) (String.◌∷◌ d s) = code c == code d && starts_with prefix s

-- What stands before the first character with a code, or all of the text.
unfoldable pub before_char : ℕ → String → String
before_char k String.[] = ""
before_char k (String.◌∷◌ c s) =
    let rest = String.◌∷◌ c (before_char k s) in if code c == k then "" else rest

-- `s.includes(c)`.
unfoldable pub has_char : ℕ → String → Bool
has_char k String.[] = false
has_char k (String.◌∷◌ c s) = code c == k || has_char k s

-- `s.replace(/c+$/, "")`.
unfoldable pub drop_trailing : ℕ → String → String
drop_trailing k String.[] = ""
drop_trailing k (String.◌∷◌ c s) =
    let rest = drop_trailing k s in if code c == k && rest == "" then "" else String.◌∷◌ c rest

-- What comes after the first one.
unfoldable pub after_char : ℕ → String → String
after_char stop String.[] = ""
after_char stop (String.◌∷◌ c s) =
    let rest = after_char stop s in if code c == stop then s else rest
