-- ===== src/Versions/Order.antt =====
-- How the comparisons of versions that parse go together.
use Prim.Native.Char.{code}
use gsm.Common.{
  ℕ, ◌≡◌, refl, ap, ◌∙◌, inl, inr, Bool, true, false, some, List, [], ◌∷◌, String, Option-cases,
  arith,
}
use gsm.Versions.Itself.{itself_of, parsed-itself}
use gsm.Versions.{
  ParsedVersion, parse_version, Double, finite, infinite, compare_doubles, difference, Sign, before,
  same, after, unordered, compare_numbers, then_by, compare_texts, numeric_value, cmp_ident,
  cmp_idents, cmp_prerelease, compare_parsed, compare_versions,
}

abbrev pub flipped : Sign → Sign
flipped before = after
flipped same = same
flipped after = before
flipped unordered = unordered

abbrev is_level_or_up : Sign → Bool
is_level_or_up before = true
is_level_or_up same = true
is_level_or_up after = false
is_level_or_up unordered = false

-- A comparison told from both sides, and carried along two steps that do not go down.
abbrev Flips : Sign → Sign → Type 0
Flips s t = t ≡ flipped s

abbrev Chains : Sign → Sign → Sign → Type 0
Chains s t r = is_level_or_up s ≡ true → is_level_or_up t ≡ true → r ≡ then_by s t

-- Composition by keys keeps both.
then_by-Flips : (s s' t t' : Sign) → Flips s s' → Flips t t' → Flips (then_by s t) (then_by s' t')
then_by-Flips before s' t t' h k = ground arith
then_by-Flips same s' t t' h k = ground arith
then_by-Flips after s' t t' h k = ground arith
then_by-Flips unordered s' t t' h k = ground arith

then_by-Chains :
    (s1 s2 s3 t1 t2 t3 : Sign)
    → Chains s1 s2 s3
    → Chains t1 t2 t3
    → Chains (then_by s1 t1) (then_by s2 t2) (then_by s3 t3)
then_by-Chains before before s3 t1 t2 t3 h k n m = ground (arith, h)
then_by-Chains before same s3 t1 t2 t3 h k n m = ground (arith, h)
then_by-Chains before after s3 t1 t2 t3 h k n m = cc
then_by-Chains before unordered s3 t1 t2 t3 h k n m = cc
then_by-Chains same before s3 t1 t2 t3 h k n m = ground (arith, h)
then_by-Chains same same s3 t1 t2 t3 h k n m = ground (arith, h, k)
then_by-Chains same after s3 t1 t2 t3 h k n m = cc
then_by-Chains same unordered s3 t1 t2 t3 h k n m = cc
then_by-Chains after s2 s3 t1 t2 t3 h k n m = cc
then_by-Chains unordered s2 s3 t1 t2 t3 h k n m = cc

numbers-Flips : (a b : ℕ) → Flips (compare_numbers a b) (compare_numbers b a)
numbers-Flips a b = ground arith

numbers-Chains :
    (a b c : ℕ) → Chains (compare_numbers a b) (compare_numbers b c) (compare_numbers a c)
numbers-Chains a b c n m = ground arith

doubles-Flips : (a b : Double) → Flips (compare_doubles a b) (compare_doubles b a)
doubles-Flips (finite a) (finite b) = numbers-Flips a b
doubles-Flips (finite a) infinite = refl
doubles-Flips infinite (finite b) = refl
doubles-Flips infinite infinite = refl

difference-Flips : (a b : Double) → Flips (difference a b) (difference b a)
difference-Flips (finite a) (finite b) = numbers-Flips a b
difference-Flips (finite a) infinite = refl
difference-Flips infinite (finite b) = refl
difference-Flips infinite infinite = refl

doubles-Chains :
    (a b c : Double) → Chains (compare_doubles a b) (compare_doubles b c) (compare_doubles a c)
doubles-Chains (finite a) (finite b) (finite c) n m = numbers-Chains a b c n m
doubles-Chains (finite a) (finite b) infinite n m = ground arith
doubles-Chains (finite a) infinite (finite c) n m = cc
doubles-Chains (finite a) infinite infinite n m = refl
doubles-Chains infinite (finite b) c n m = cc
doubles-Chains infinite infinite (finite c) n m = cc
doubles-Chains infinite infinite infinite n m = refl

difference-Chains : (a b c : Double) → Chains (difference a b) (difference b c) (difference a c)
difference-Chains (finite a) (finite b) (finite c) n m = numbers-Chains a b c n m
difference-Chains (finite a) (finite b) infinite n m = ground arith
difference-Chains (finite a) infinite (finite c) n m = cc
difference-Chains (finite a) infinite infinite n m = cc
difference-Chains infinite (finite b) c n m = cc
difference-Chains infinite infinite c n m = cc

texts-Flips : (s t : String) → Flips (compare_texts s t) (compare_texts t s)
unfolding compare_texts
texts-Flips String.[] String.[] = refl
texts-Flips String.[] (String.◌∷◌ d t) = refl
texts-Flips (String.◌∷◌ c s) String.[] = refl
texts-Flips (String.◌∷◌ c s) (String.◌∷◌ d t) =
    then_by-Flips _ _ _ _ (numbers-Flips (code c) (code d)) (texts-Flips s t)

texts-Chains : (s t u : String) → Chains (compare_texts s t) (compare_texts t u) (compare_texts s u)
unfolding compare_texts
texts-Chains String.[] String.[] u n m = refl
texts-Chains String.[] (String.◌∷◌ d t) String.[] n m = cc
texts-Chains String.[] (String.◌∷◌ d t) (String.◌∷◌ e u) n m = refl
texts-Chains (String.◌∷◌ c s) String.[] u n m = cc
texts-Chains (String.◌∷◌ c s) (String.◌∷◌ d t) String.[] n m = cc
texts-Chains (String.◌∷◌ c s) (String.◌∷◌ d t) (String.◌∷◌ e u) n m =
    then_by-Chains _ _ _ _ _ _ (numbers-Chains (code c) (code d) (code e)) (texts-Chains s t u) n m

ident-Flips : (a b : String) → Flips (cmp_ident a b) (cmp_ident b a)
unfolding cmp_ident
ident-Flips a b =
    ground (arith, difference-Flips (numeric_value a) (numeric_value b), texts-Flips a b)

ident-Chains : (a b c : String) → Chains (cmp_ident a b) (cmp_ident b c) (cmp_ident a c)
unfolding cmp_ident
ident-Chains a b c n m = ground (
  arith,
  difference-Chains (numeric_value a) (numeric_value b) (numeric_value c),
  texts-Chains a b c,
)

idents-Flips : (xs ys : List String) → Flips (cmp_idents xs ys) (cmp_idents ys xs)
unfolding cmp_idents
idents-Flips [] [] = refl
idents-Flips [] (y ∷ ys) = refl
idents-Flips (x ∷ xs) [] = refl
idents-Flips (x ∷ xs) (y ∷ ys) = then_by-Flips _ _ _ _ (ident-Flips x y) (idents-Flips xs ys)

idents-Chains :
    (xs ys zs : List String) → Chains (cmp_idents xs ys) (cmp_idents ys zs) (cmp_idents xs zs)
unfolding cmp_idents
idents-Chains [] [] zs n m = refl
idents-Chains [] (y ∷ ys) [] n m = cc
idents-Chains [] (y ∷ ys) (z ∷ zs) n m = refl
idents-Chains (x ∷ xs) [] zs n m = cc
idents-Chains (x ∷ xs) (y ∷ ys) [] n m = cc
idents-Chains (x ∷ xs) (y ∷ ys) (z ∷ zs) n m =
    then_by-Chains _ _ _ _ _ _ (ident-Chains x y z) (idents-Chains xs ys zs) n m

prerelease-Flips : (xs ys : List String) → Flips (cmp_prerelease xs ys) (cmp_prerelease ys xs)
unfolding cmp_prerelease
prerelease-Flips [] [] = refl
prerelease-Flips [] (y ∷ ys) = refl
prerelease-Flips (x ∷ xs) [] = refl
prerelease-Flips (x ∷ xs) (y ∷ ys) = idents-Flips (x ∷ xs) (y ∷ ys)

before_of : (s : Sign) → is_level_or_up s ≡ true → before ≡ then_by s before
before_of before n = refl
before_of same n = refl
before_of after n = cc
before_of unordered n = cc

prerelease-Chains :
    (xs ys zs : List String)
    → Chains (cmp_prerelease xs ys) (cmp_prerelease ys zs) (cmp_prerelease xs zs)
unfolding cmp_prerelease
prerelease-Chains [] [] zs n m = refl
prerelease-Chains [] (y ∷ ys) zs n m = cc
prerelease-Chains (x ∷ xs) [] [] n m = refl
prerelease-Chains (x ∷ xs) [] (z ∷ zs) n m = cc
prerelease-Chains (x ∷ xs) (y ∷ ys) [] n m = before_of (cmp_idents (x ∷ xs) (y ∷ ys)) n
prerelease-Chains (x ∷ xs) (y ∷ ys) (z ∷ zs) n m = idents-Chains (x ∷ xs) (y ∷ ys) (z ∷ zs) n m

parsed-Flips : (a b : ParsedVersion) → Flips (compare_parsed a b) (compare_parsed b a)
unfolding compare_parsed
parsed-Flips a b = then_by-Flips _ _ _ _ (doubles-Flips a.major b.major) (
    then_by-Flips _ _ _ _ (doubles-Flips a.minor b.minor) (
      then_by-Flips _ _ _ _ (doubles-Flips a.patch b.patch)
        (prerelease-Flips a.prerelease b.prerelease)))

parsed-Chains :
    (a b c : ParsedVersion) → Chains (compare_parsed a b) (compare_parsed b c) (compare_parsed a c)
unfolding compare_parsed
parsed-Chains a b c = then_by-Chains _ _ _ _ _ _ (doubles-Chains a.major b.major c.major) (
    then_by-Chains _ _ _ _ _ _ (doubles-Chains a.minor b.minor c.minor) (
      then_by-Chains _ _ _ _ _ _ (doubles-Chains a.patch b.patch c.patch)
        (prerelease-Chains a.prerelease b.prerelease c.prerelease)))

-- What the comparisons of a first with a second thing and of the second with a third say of the
-- first and the third.
abbrev pub IsCarried : Sign → Sign → Sign → Type 0
IsCarried before before r = r ≡ before
IsCarried before same r = r ≡ before
IsCarried same before r = r ≡ before
IsCarried same same r = r ≡ same
IsCarried same after r = r ≡ after
IsCarried after same r = r ≡ after
IsCarried after after r = r ≡ after
IsCarried _ _ r = Unit

of_before : (r : Sign) → flipped r ≡ before → r ≡ after
of_before before h = cc
of_before same h = cc
of_before after h = refl
of_before unordered h = cc

carried :
    (s t r : Sign) → Chains s t r → Chains (flipped t) (flipped s) (flipped r) → IsCarried s t r
carried before before r up down = up refl refl
carried before same r up down = up refl refl
carried before after r up down = tt
carried before unordered r up down = tt
carried same before r up down = up refl refl
carried same same r up down = up refl refl
carried same after r up down = of_before r (down refl refl)
carried same unordered r up down = tt
carried after before r up down = tt
carried after same r up down = of_before r (down refl refl)
carried after after r up down = of_before r (down refl refl)
carried after unordered r up down = tt
carried unordered t r up down = tt

parsed-IsCarried :
    (a b c : ParsedVersion)
    → IsCarried (compare_parsed a b) (compare_parsed b c) (compare_parsed a c)
parsed-IsCarried a b c =
    carried _ _ _ (parsed-Chains a b c)
      (rw (← parsed-Flips b c, ← parsed-Flips a b, ← parsed-Flips a c) (parsed-Chains c b a))

-- Of three versions of which the first and second, and the second and third, compare: the first is as
-- old as itself, or unordered (NaN) exactly if it has a numeric identifier that is infinite as a
-- double; the comparison of the first two gives the opposite from the other side, where NaN is its
-- own; and the first and third compare, and two steps that are both older or same, or both newer or
-- same, carry over: to same if both are, and else to older or newer.
pub compare_versions_order :
    (a b c : String) (s t : Sign)
    → compare_versions a b ≡ some s
    → compare_versions b c ≡ some t
    → (compare_versions a a ≡ some (itself_of (parse_version a)))
      × (compare_versions b a ≡ some (flipped s))
      × ((r : Sign) × (compare_versions a c ≡ some r) × IsCarried s t r)
unfolding compare_versions
compare_versions_order a b c s t first second = elim (Option-cases (parse_version a)) [
  | inl bad ↦ absurd (ground arith)
  | inr (pa, at_a) ↦ elim (Option-cases (parse_version b)) [
    | inl bad ↦ absurd (ground arith)
    | inr (pb, at_b) ↦ elim (Option-cases (parse_version c)) [
      | inl bad ↦ absurd (ground arith)
      | inr (pc, at_c) ↦
          let sign : compare_parsed pa pb ≡ s = ground arith in
          let next : compare_parsed pb pc ≡ t = ground arith in
          rw (at_a, at_b, at_c)
            (
              ap some (parsed-itself pa),
              ap some (parsed-Flips pa pb ∙ ap flipped sign),
              (compare_parsed pa pc, refl, rw (← sign, ← next) (parsed-IsCarried pa pb pc)),
            )
    ]
  ]
]
