-- ===== src/Versions/Tests.antt =====
-- Versions and their order, as shared/tests takes them.
use gsm.Common.{◌≡◌, ◌^◌, ◌-◌, refl, some, none, [], ◌∷◌, true, false}
use gsm.Versions.Itself.{is_endless}
use gsm.Versions.Order.{IsCarried, compare_versions_order}
use gsm.Versions.{
  parse_version, is_numeric, numeric_value, cmp_ident, cmp_prerelease, compare_parsed,
  compare_texts, compare_versions, is_outdated_version, Sign, before, after, same, unordered,
  double, finite, infinite, difference,
}

run : Unit {0}
unfolding parse_version double is_numeric numeric_value cmp_ident cmp_prerelease compare_parsed
    compare_texts compare_versions is_outdated_version
run = tt

parse_run :
    (parse_version " v1.20.3-rc.1+b7 "
      ≡ some (record {
        major = finite 1;
        minor = finite 20;
        patch = finite 3;
        prerelease = "rc" ∷ "1" ∷ [];
      }))
    × (parse_version "1.2" ≡ none)
    × (parse_version "dev" ≡ none)
    × (parse_version "1.2.3+x"
        ≡ some (record { major = finite 1; minor = finite 2; patch = finite 3; prerelease = [] }))
unfolding run
parse_run = (refl, refl, refl, refl)

order_run :
    (compare_versions "1.0.0-rc.1" "1.0.0" ≡ some before)
    × (compare_versions "1.0.0-rc.10" "1.0.0-rc.9" ≡ some after)
    × (compare_versions "1.10.0" "1.9.0" ≡ some after)
    × (compare_versions "v1.0.0" "1.0.0" ≡ some same)
    × (compare_versions "1.0.0-1" "1.0.0-a" ≡ some before)
    × (is_outdated_version "0.5.0" "0.6.0" ≡ true)
    × (is_outdated_version "dev" "0.6.0" ≡ false)
unfolding run
order_run = (refl, refl, refl, refl, refl, refl, refl)

parsed_run :
    (compare_versions "1.0.0-rc.1" "1.0.0" ≡ some before)
    × (compare_versions "1.0.0" "v1.0.0" ≡ some same)
unfolding run
parsed_run = (refl, refl)

-- Above 2 ^ 53 doubles leave numbers out, and there is an end to them.
double_run :
    (double 9007199254740993 ≡ finite 9007199254740992)
    × (double 9007199254740995 ≡ finite 9007199254740996)
    × (double (2 ^ 1024) ≡ infinite)
    × (double (2 ^ 1024 - 1) ≡ infinite)
    × (difference infinite infinite ≡ unordered)
unfolding run
double_run = (refl, refl, refl, refl, refl)

compare_versions_order_example :
    (compare_versions "1.0.0-rc.1" "1.0.0-rc.1" ≡ some same)
    × (compare_versions "1.0.0" "1.0.0-rc.1" ≡ some after)
    × ((r : Sign) × (compare_versions "1.0.0-rc.1" "v1.0.0" ≡ some r) × IsCarried before same r)
unfolding run parse_version is_endless is_numeric numeric_value double
compare_versions_order_example =
    compare_versions_order "1.0.0-rc.1" "1.0.0" "v1.0.0" before same parsed_run.0 parsed_run.1
