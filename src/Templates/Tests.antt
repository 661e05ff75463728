-- ===== src/Templates/Tests.antt =====
-- Text that is filled in, and heaps.
use gsm.Common.{◌≡◌, ◌<◌, ◌≤◌, ℕ, refl, List, [], ◌∷◌, String, lookup, arith}
use gsm.Templates.{substitute, heap_for_memory}

abbrev vars : List (String × String)
vars = ("A", "1") ∷ ("GSM_X", "{{A}}") ∷ []

substitute_run :
    (substitute "x{{A}}-{{ GSM_X }}-{{B}}-{{{A}}" vars ≡ "x1-{{A}}-{{B}}-{1")
    × (substitute "{{a}} {{ A } }} {{A" vars ≡ "{{a}} {{ A } }} {{A")
unfolding substitute lookup
substitute_run = (refl, refl)

-- A container of less than 256 MB is given a heap that is larger than it.
heap_exceeds : (m : ℕ) → 0 < m → m < 256 → m < heap_for_memory m
unfolding heap_for_memory
heap_exceeds m some_memory small = ground arith

heap_fits : (m : ℕ) → 256 ≤ m → heap_for_memory m ≤ m
unfolding heap_for_memory
heap_fits m enough = ground arith
