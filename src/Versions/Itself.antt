-- ===== src/Versions/Itself.antt =====
-- What a version is to itself.
use gsm.Common.{
  ℕ, ◌≡◌, refl, Bool, true, false, ◌&&◌, ◌||◌, Option, none, some, List, [], ◌∷◌, String,
  if◌then◌else◌, arith,
}
use gsm.Versions.{
  ParsedVersion, Double, finite, infinite, compare_doubles, difference, Sign, same, unordered,
  compare_numbers, compare_texts, is_numeric, numeric_value, cmp_ident, cmp_idents, cmp_prerelease,
  compare_parsed,
}
use Prim.Native.Char.{code}

abbrev is_infinite : Double → Bool
is_infinite (finite n) = false
is_infinite infinite = true

-- Whether a numeric identifier is infinite as a double.
unfoldable pub is_endless : List String → Bool
is_endless [] = false
is_endless (x ∷ xs) = (is_numeric x && is_infinite (numeric_value x)) || is_endless xs

-- The comparison of a version with itself.
abbrev pub itself_of : Option ParsedVersion → Sign
itself_of none = same
itself_of (some p) = if is_endless p.prerelease then unordered else same

numbers-itself : (n : ℕ) → compare_numbers n n ≡ same
numbers-itself n = ground arith

doubles-itself : (d : Double) → compare_doubles d d ≡ same
doubles-itself (finite n) = numbers-itself n
doubles-itself infinite = refl

difference-itself : (d : Double) → difference d d ≡ (if is_infinite d then unordered else same)
difference-itself (finite n) = numbers-itself n
difference-itself infinite = refl

texts-itself : (s : String) → compare_texts s s ≡ same
unfolding compare_texts
texts-itself String.[] = refl
texts-itself (String.◌∷◌ c s) = rw (numbers-itself (code c)) (texts-itself s)

ident-itself :
    (x : String)
    → cmp_ident x x ≡ (if is_numeric x && is_infinite (numeric_value x) then unordered else same)
unfolding cmp_ident
ident-itself x = ground (arith, difference-itself (numeric_value x), texts-itself x)

idents-itself : (xs : List String) → cmp_idents xs xs ≡ (if is_endless xs then unordered else same)
unfolding cmp_idents is_endless
idents-itself [] = refl
idents-itself (x ∷ xs) = rw (ident-itself x, idents-itself xs) (ground arith)

prerelease-itself :
    (xs : List String) → cmp_prerelease xs xs ≡ (if is_endless xs then unordered else same)
unfolding cmp_prerelease is_endless
prerelease-itself [] = refl
prerelease-itself (x ∷ xs) = idents-itself (x ∷ xs)

pub parsed-itself :
    (p : ParsedVersion) → compare_parsed p p ≡ (if is_endless p.prerelease then unordered else same)
unfolding compare_parsed
parsed-itself p =
    rw (doubles-itself p.major, doubles-itself p.minor, doubles-itself p.patch)
      (prerelease-itself p.prerelease)
