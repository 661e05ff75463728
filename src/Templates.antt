-- ===== src/Templates.antt =====
-- shared/src/api/templates.ts: the variables and the database of a template, and what is filled in.
mod Tests
use Prim.Native.Char.{Char, code}
use gsm.Common.{
  ℕ, zero, suc, ◌+◌, ◌-◌, ◌*◌, ◌/◌, min, max, Bool, true, false, not, ◌&&◌, ◌||◌, Option, none,
  some, List, [], ◌∷◌, String, ◌==◌, nat_eq, string_eq, or_else, ltb, leb, if◌then◌else◌, find?,
  any, lookup,
}
use gsm.Text.{is_digit, ◌+++◌}

pub data VariableType : Type 0 where
  string number boolean select version : VariableType

pub record TemplateVariable (N : Type 0) : Type 0 where
  pub name : String
  pub label : String
  pub kind : VariableType
  pub default : String
  pub required : Bool
  pub options : List String
  pub allow_custom : Bool
  pub min_value : Option N
  pub max_value : Option N
  pub editable : Bool
  pub viewable : Bool
  pub pattern : Option String

-- What the language gives: `Number(text)` where it is finite, `<` of numbers, and whether a regular
-- expression matches (`none` when it does not compile).
pub record Script : Type 1 where
  pub N : Type 0
  pub number_of : String → Option N
  pub less : N → N → Bool
  pub matches : String → String → Option Bool

module _ (js : Script) where
  open js use {N, number_of, less, matches}

  abbrev below : Option N → N → Bool
  below none n = false
  below (some bound) n = less n bound

  abbrev above : Option N → N → Bool
  above none n = false
  above (some bound) n = less bound n

  -- The `switch` on the type.
  type_problem : TemplateVariable N → String → Option String
  type_problem v value = elim v.kind [
    | number ↦ elim (number_of value) [
      | none ↦ some "Must be a number"
      | some n ↦
          if below v.min_value n
          then some "Must be at least ${v.min}"
          else if above v.max_value n
          then some "Must be at most ${v.max}"
          else none
    ]
    | boolean ↦
        if not (value == "true") && not (value == "false")
        then some "Must be true or false"
        else none
    | select ↦
        if not v.allow_custom && not (any (λ o. o == value) v.options)
        then some "Not one of the options"
        else none
    | string ↦ none
    | version ↦ none
  ]

  -- An empty pattern is none, and a broken one lets every value through.
  pattern_problem : TemplateVariable N → String → Option String
  pattern_problem v value = elim v.pattern [
    | none ↦ none
    | some pattern ↦ if pattern == "" then none else elim (matches pattern value) [
      | none ↦ none
      | some fits ↦ if fits then none else some "Does not match the expected format"
    ]
  ]

  has_break : String → Bool
  has_break String.[] = false
  has_break (String.◌∷◌ c s) = code c == 0 || code c == 10 || code c == 13 || has_break s

  unfoldable pub validate_variable : TemplateVariable N → String → Option String
  unfolding type_problem pattern_problem has_break
  validate_variable v value =
      if value == ""
      then (if v.required then some "Required" else none)
      else elim (type_problem v value) [
        | some problem ↦ some problem
        | none ↦ elim (pattern_problem v value) [
          | some problem ↦ some problem
          | none ↦ if has_break value then some "Must be a single line" else none
        ]
      ]

pub record TemplateDatabase : Type 0 where
  pub engine : String
  pub image : String
  pub name : String
  pub memory_mb : ℕ
  pub enabled_by : Option String

-- `vars[by] ?? def.variables.find((v) => v.name === by)?.default`.
switch_value :
    {N : Type 0} → String → List (TemplateVariable N) → List (String × String) → Option String
switch_value by variables vars = elim (lookup by vars) [
  | some value ↦ some value
  | none ↦ elim (find? (λ v. v.name == by) variables) [ none ↦ none | some v ↦ some v.default ]
]

unfoldable pub database_enabled :
    {N : Type 0}
    → Option TemplateDatabase
    → List (TemplateVariable N)
    → List (String × String)
    → Bool
unfolding switch_value
database_enabled database variables vars = elim database [
  | none ↦ false
  | some db ↦ elim db.enabled_by [
    | none ↦ true
    | some by ↦ elim (switch_value by variables vars) [
      | none ↦ false
      | some value ↦ value == "true"
    ]
  ]
]

-- The JVM heap for a container with so many megabytes of memory; 0 is unlimited.
unfoldable pub heap_for_memory : ℕ → ℕ
heap_for_memory memory_mb =
    if leb memory_mb 0
    then 2048
    else if leb memory_mb 1024
    then max 256 (memory_mb * 75 / 100)
    else memory_mb - min 1024 (max 384 (memory_mb * 15 / 100))

-- Placeholders -----------------------------------------------------------------------------------

is_blank : Char → Bool
is_blank c = (leb 9 (code c) && leb (code c) 13) || code c == 32 || code c == 160

is_upper : Char → Bool
is_upper c = leb b'A' (code c) && leb (code c) b'Z'

-- `\s*`: how many, and what follows.
skip_blanks : ℕ → String → ℕ × String
unfolding is_blank
skip_blanks n String.[] = (n, "")
skip_blanks n (String.◌∷◌ c s) =
    let more = skip_blanks (suc n) s in if is_blank c then more else (n, String.◌∷◌ c s)

-- `[A-Z0-9_]*`: the characters, how many, and what follows.
read_name : String → String × ℕ × String
unfolding is_upper is_digit
read_name String.[] = ("", 0, "")
read_name (String.◌∷◌ c s) =
    let (name, n, rest) = read_name s in
    if is_upper c || is_digit c || code c == b'_'
    then (String.◌∷◌ c name, suc n, rest)
    else ("", 0, String.◌∷◌ c s)

starts_upper : String → Bool
unfolding is_upper
starts_upper String.[] = false
starts_upper (String.◌∷◌ c s) = is_upper c

closes : String → Bool
closes String.[] = false
closes (String.◌∷◌ c String.[]) = false
closes (String.◌∷◌ c (String.◌∷◌ d s)) = code c == b'}' && code d == b'}'

-- A placeholder after its first brace: the name, and how many characters follow that brace.
placeholder : String → Option (String × ℕ)
unfolding skip_blanks read_name starts_upper closes
placeholder String.[] = none
placeholder (String.◌∷◌ c s) =
    if not (code c == b'{')
    then none
    else (let (a, s1) = skip_blanks 0 s in
        let (name, n, s2) = read_name s1 in
        let (b, s3) = skip_blanks 0 s2 in
        if starts_upper s1 && closes s3 then some (name, 1 + a + n + b + 2) else none)

-- The text from here on, after leaving out so many characters that a placeholder took.
fill : List (String × String) → ℕ → String → String
unfolding placeholder
fill vars n String.[] = ""
fill vars (suc n) (String.◌∷◌ c s) = fill vars n s
fill vars zero (String.◌∷◌ c s) =
    let plain = String.◌∷◌ c (fill vars 0 s) in
    if not (code c == b'{') then plain else elim (placeholder s) [
      | none ↦ plain
      | some (name, taken) ↦ elim (lookup name vars) [
        | none ↦ plain
        | some value ↦ value +++ fill vars taken s
      ]
    ]

unfoldable pub substitute : String → List (String × String) → String
unfolding fill
substitute text vars = fill vars 0 text
