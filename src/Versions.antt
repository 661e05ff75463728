-- ===== src/Versions.antt =====
-- shared/src/version.ts: the order of agent versions. Numbers are doubles, as the source's are, and a
-- comparison is its sign.
mod Itself
pub mod Order
mod Tests
use Prim.Native.Char.{Char, code}
use gsm.Common.{
  ℕ, zero, suc, ◌+◌, ◌*◌, ◌-◌, ◌/◌, ◌%◌, ◌^◌, Bool, true, false, ◌&&◌, ◌||◌, not, Option, none,
  some, List, [], ◌∷◌, String, ◌==◌, nat_eq, string_eq, ltb, leb, if◌then◌else◌,
}
use gsm.Text.{is_digit, is_letter, every, trim}

-- What `Number` makes of digits: a whole double, or infinity.
pub data Double : Type 0 where
  finite : ℕ → Double
  infinite : Double

-- The distance of the doubles around `n`: 53 bits of it count.
spacing : ℕ → ℕ → ℕ → ℕ
spacing zero unit n = unit
spacing (suc fuel) unit n = elim (ltb n (unit * 2 ^ 53)) [
  | true ↦ unit
  | false ↦ spacing fuel (2 * unit) n
]

-- To the nearest, and halfway to the even one.
rounded : ℕ → ℕ → ℕ
rounded unit n =
    let low = n / unit in
    let rest = n % unit in
    if ltb unit (2 * rest) || (2 * rest == unit && low % 2 == 1)
    then (low + 1) * unit
    else low * unit

-- Finite doubles end below 2 ^ 1024, and 971 doublings of the distance lead there.
unfoldable pub double : ℕ → Double
unfolding spacing rounded
double n = elim (ltb n (2 ^ 53)) [
  | true ↦ finite n
  | false ↦ elim (ltb n (2 ^ 1024)) [
    | false ↦ infinite
    | true ↦ let m = rounded (spacing 971 1 n) n in if ltb m (2 ^ 1024) then finite m else infinite
  ]
]

pub record ParsedVersion : Type 0 where
  pub major : Double
  pub minor : Double
  pub patch : Double
  pub prerelease : List String

-- The characters `[0-9A-Za-z.\-]`.
unfoldable pub is_symbol : Char → Bool
unfolding is_digit is_letter
is_symbol c =
    is_digit c
    || is_letter c
    || (leb b'A' (code c) && leb (code c) b'Z')
    || code c == b'.'
    || code c == b'-'

-- `(\d+)`: the number and what stands after it.
read_digits : ℕ → String → ℕ × String
unfolding is_digit
read_digits n String.[] = (n, "")
read_digits n (String.◌∷◌ c s) =
    let more = read_digits (n * 10 + (code c - b'0')) s in
    if is_digit c then more else (n, String.◌∷◌ c s)

unfoldable pub read_number : String → Option (ℕ × String)
unfolding is_digit read_digits
read_number String.[] = none
read_number (String.◌∷◌ c s) = if is_digit c then some (read_digits (code c - b'0') s) else none

unfoldable pub read_dot : String → Option String
read_dot String.[] = none
read_dot (String.◌∷◌ c s) = if code c == b'.' then some s else none

unfoldable pub skip_v : String → String
skip_v String.[] = ""
skip_v (String.◌∷◌ c s) = if code c == b'v' then s else String.◌∷◌ c s

-- The longest run of symbols, and what stands after it.
read_symbols : String → String × String
unfolding is_symbol
read_symbols String.[] = ("", "")
read_symbols (String.◌∷◌ c s) =
    let (run, rest) = read_symbols s in
    if is_symbol c then (String.◌∷◌ c run, rest) else ("", String.◌∷◌ c s)

-- `(?:\+[0-9A-Za-z.\-]+)?$`.
is_build : String → Bool
unfolding is_symbol
is_build String.[] = true
is_build (String.◌∷◌ c s) = code c == b'+' && not (s == "") && every is_symbol s

-- `s.split(".")`.
split_dots : String → List String
split_dots String.[] = "" ∷ []
split_dots (String.◌∷◌ c s) =
    let parts = split_dots s in
    if code c == b'.'
    then "" ∷ parts
    else elim parts [ [] ↦ String.◌∷◌ c "" ∷ [] | p ∷ ps ↦ String.◌∷◌ c p ∷ ps ]

-- `(?:-([0-9A-Za-z.\-]+))?` with what follows it.
read_prerelease : String → Option (List String)
unfolding read_symbols is_build split_dots
read_prerelease String.[] = some []
read_prerelease (String.◌∷◌ c s) =
    if code c == b'-'
    then (let (run, rest) = read_symbols s in
        if not (run == "") && is_build rest then some (split_dots run) else none)
    else if is_build (String.◌∷◌ c s)
    then some []
    else none

infixl 5 ◌>>=◌
abbrev ◌>>=◌ {ℓ κ} : {A : Type ℓ} {B : Type κ} → Option A → (A → Option B) → Option B
none >>= f = none
some a >>= f = f a

unfoldable pub parse_version : String → Option ParsedVersion
unfolding read_number read_dot skip_v read_prerelease trim every
parse_version v = do
  (major, s1) ← read_number (skip_v (trim v))
  s2 ← read_dot s1
  (minor, s3) ← read_number s2
  s4 ← read_dot s3
  (patch, s5) ← read_number s4
  prerelease ← read_prerelease s5
  some (record {
    major = double major;
    minor = double minor;
    patch = double patch;
    prerelease = prerelease;
  })

-- The sign of a comparison; NaN has none.
pub data Sign : Type 0 where
  before same after unordered : Sign

abbrev pub compare_numbers : ℕ → ℕ → Sign
compare_numbers a b = if ltb a b then before else if ltb b a then after else same

-- `if (x !== y) return x - y`.
abbrev pub compare_doubles : Double → Double → Sign
compare_doubles (finite a) (finite b) = compare_numbers a b
compare_doubles (finite a) infinite = before
compare_doubles infinite (finite b) = after
compare_doubles infinite infinite = same

-- `x - y`: of infinity and itself it is NaN.
abbrev pub difference : Double → Double → Sign
difference (finite a) (finite b) = compare_numbers a b
difference (finite a) infinite = before
difference infinite (finite b) = after
difference infinite infinite = unordered

-- The first comparison that tells the two apart.
abbrev pub then_by : Sign → Sign → Sign
then_by before next = before
then_by same next = next
then_by after next = after
then_by unordered next = unordered

-- `a < b` and `a > b` of texts: by their characters.
unfoldable pub compare_texts : String → String → Sign
compare_texts String.[] String.[] = same
compare_texts String.[] (String.◌∷◌ d t) = before
compare_texts (String.◌∷◌ c s) String.[] = after
compare_texts (String.◌∷◌ c s) (String.◌∷◌ d t) =
    then_by (compare_numbers (code c) (code d)) (compare_texts s t)

-- `/^\d+$/`.
unfoldable pub is_numeric : String → Bool
unfolding is_digit every
is_numeric s = not (s == "") && every is_digit s

unfoldable pub numeric_value : String → Double
unfolding read_digits
numeric_value s = double (read_digits 0 s).0

unfoldable pub cmp_ident : String → String → Sign
cmp_ident a b =
    if is_numeric a && is_numeric b
    then difference (numeric_value a) (numeric_value b)
    else if is_numeric a
    then before
    else if is_numeric b
    then after
    else compare_texts a b

-- The loop over the identifiers, the shorter list first where one ends.
pub cmp_idents : List String → List String → Sign
cmp_idents [] [] = same
cmp_idents [] (y ∷ ys) = before
cmp_idents (x ∷ xs) [] = after
cmp_idents (x ∷ xs) (y ∷ ys) = then_by (cmp_ident x y) (cmp_idents xs ys)

-- A pre-release sorts before the release it precedes.
unfoldable pub cmp_prerelease : List String → List String → Sign
unfolding cmp_idents
cmp_prerelease [] [] = same
cmp_prerelease [] (y ∷ ys) = after
cmp_prerelease (x ∷ xs) [] = before
cmp_prerelease (x ∷ xs) (y ∷ ys) = cmp_idents (x ∷ xs) (y ∷ ys)

unfoldable pub compare_parsed : ParsedVersion → ParsedVersion → Sign
compare_parsed a b = then_by (compare_doubles a.major b.major) (
    then_by (compare_doubles a.minor b.minor)
      (then_by (compare_doubles a.patch b.patch) (cmp_prerelease a.prerelease b.prerelease)))

unfoldable pub compare_versions : String → String → Option Sign
compare_versions a b = do pa ← parse_version a; pb ← parse_version b; some (compare_parsed pa pb)

unfoldable pub is_outdated_version : String → String → Bool
unfolding compare_versions
is_outdated_version version latest = elim (compare_versions version latest) [
  | none ↦ false
  | some sign ↦ elim sign [ before ↦ true | same ↦ false | after ↦ false | unordered ↦ false ]
]
